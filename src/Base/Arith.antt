-- ===== src/Base/Arith.antt =====
-- Division of sample and pixel counts into chunks.
use insitubatch.Base.{ℕ, ◌+◌, ◌-◌, ◌*◌, ◌/◌, ◌≤◌, ◌<◌, ◌≡◌, arith}

-- `-(-n // c)`, for `c > 0`.
abbrev pub ceil_div : ℕ → ℕ → ℕ
ceil_div n c = (n + (c - 1)) / c

-- `n // c` chunks of `c` fit into `n`.
pub div-mul-le : (n c : ℕ) → (n / c) * c ≤ n
div-mul-le n c = grind arith

pub lt-suc-div-mul : (n c : ℕ) → 0 < c → n < (n / c + 1) * c
lt-suc-div-mul n c h = grind arith

-- The quotient is the only chunk that holds the number.
pub div_unique : (n c k : ℕ) → k * c ≤ n → n < (k + 1) * c → n / c ≡ k
div_unique n c k h l = grind arith

pub lt-ceil_div : (n c i : ℕ) → 0 < c → i < n → i / c < ceil_div n c
lt-ceil_div n c i h l = grind arith

-- A chunk index below the count starts inside the axis, and the chunks cover the axis.
pub ceil_div_start : (n c k : ℕ) → 0 < c → k < ceil_div n c → k * c < n
ceil_div_start n c k h l = grind arith

pub ceil_div_cover : (n c : ℕ) → 0 < c → n ≤ ceil_div n c * c
ceil_div_cover n c h = grind arith
