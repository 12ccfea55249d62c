-- ===== src/Shuffle/Keep.antt =====
-- `DrawOrder.keep` against a plain account of it: the rows of each block that the mask admits, without
-- the blocks that it empties.
use insitubatch.Base.{
  ℕ, suc, ◌+◌, ◌≤◌, ◌<◌, ◌≡◌, refl, sym, ap, ap₂, ◌∙◌, inl, inr, Bool, true, false, List, [], ◌∷◌,
  ◌++◌, map, flatten, length, get_or, All, ltb, if◌then◌else◌, Bool-cases, length-append, arith,
}
use insitubatch.Base.Perms.{append_assoc}
use insitubatch.Shuffle.{
  Row, DrawOrder, cumulative, from_blocks, flatnonzero, rising, nonempty_bounds, keep,
}

-- How many entries are below a value.
abbrev pub below : ℕ → List ℕ → ℕ
below v [] = 0
below v (x ∷ xs) = (if ltb x v then 1 else 0) + below v xs

-- In increasing order, without repeats
abbrev pub Increasing : List ℕ → Type 0
Increasing [] = Unit
Increasing (x ∷ xs) = All (λ y. x < y) xs × Increasing xs

-- numpy's `searchsorted(a, v)`, side "left": the count of the entries of a sorted array below `v`.
abbrev pub IsSearchsorted : (List ℕ → ℕ → ℕ) → Type 0
IsSearchsorted f = (a : List ℕ) (v : ℕ) → Increasing a → f a v ≡ below v a

-- The entries that a test admits, in order.
abbrev pub select {ℓ} : {A : Type ℓ} → (A → Bool) → List A → List A
select p [] = []
select p (x ∷ xs) = if p x then x ∷ select p xs else select p xs

flatnonzero-above : (i j : ℕ) (mask : List Bool) → j < i → All (λ y. j < y) (flatnonzero i mask)
unfolding flatnonzero
flatnonzero-above i j [] h = tt
flatnonzero-above i j (true ∷ mask) h = (h, flatnonzero-above (suc i) j mask (omega arith))
flatnonzero-above i j (false ∷ mask) h = flatnonzero-above (suc i) j mask (omega arith)

flatnonzero-Increasing : (i : ℕ) (mask : List Bool) → Increasing (flatnonzero i mask)
unfolding flatnonzero
flatnonzero-Increasing i [] = tt
flatnonzero-Increasing i (true ∷ mask) =
    (flatnonzero-above (suc i) i mask (omega arith), flatnonzero-Increasing (suc i) mask)
flatnonzero-Increasing i (false ∷ mask) = flatnonzero-Increasing (suc i) mask

below-flatnonzero_start : (i v : ℕ) (mask : List Bool) → v ≤ i → below v (flatnonzero i mask) ≡ 0
unfolding flatnonzero
below-flatnonzero_start i v [] h = refl
below-flatnonzero_start i v (true ∷ mask) h = ground (arith, below-flatnonzero_start (suc i) v mask)
below-flatnonzero_start i v (false ∷ mask) h = below-flatnonzero_start (suc i) v mask (omega arith)

module _ (p : Row → Bool) where
  below-flatnonzero_from :
      (i n : ℕ) (before rest : List Row)
      → i + length before ≡ n
      → below n (flatnonzero i (map p (before ++ rest))) ≡ length (select p before)
  unfolding flatnonzero
  below-flatnonzero_from i n [] rest e = below-flatnonzero_start i n (map p rest) (omega arith)
  below-flatnonzero_from i n (r ∷ before) rest e =
      let ih = below-flatnonzero_from (suc i) n before rest (omega arith) in
      elim (Bool-cases (p r)) [
        | inl yes_ ↦ rw yes_ (let lt : ltb i n ≡ true = ground arith in rw lt (omega (arith, ih)))
        | inr no_ ↦ rw no_ ih
      ]

  -- Up to the end of the first rows, the mask is true as often as it admits one of them.
  below-flatnonzero :
      (before rest : List Row)
      → below (length before) (flatnonzero 0 (map p (before ++ rest))) ≡ length (select p before)
  below-flatnonzero before rest = below-flatnonzero_from 0 (length before) before rest (omega arith)

  -- The rows at the positions where the mask is true.
  picks :
      (i : ℕ) (before rest : List Row)
      → length before ≡ i
      → map (λ j. get_or (before ++ rest) j (0, 0)) (flatnonzero i (map p rest)) ≡ select p rest
  unfolding flatnonzero
  picks i before [] e = refl
  picks i before (r ∷ rest) e =
      let joined : before ++ r ∷ rest ≡ (before ++ r ∷ []) ++ rest =
        sym (append_assoc before (r ∷ []) rest) in
      let ih : map (λ j. get_or (before ++ r ∷ rest) j (0, 0)) (flatnonzero (suc i) (map p rest))
          ≡ select p rest =
        rw joined (
          picks (suc i) (before ++ r ∷ []) rest
            (omega (arith, length-append before (r ∷ []), e))) in
      elim (Bool-cases (p r)) [
        | inl yes_ ↦ rw yes_ (ap₂ ◌∷◌ (rw (← e) (get_or-append before r rest)) ih)
        | inr no_ ↦ rw no_ ih
      ]
    where
      get_or-append :
          (xs : List Row) (r : Row) (ys : List Row) → get_or (xs ++ r ∷ ys) (length xs) (0, 0) ≡ r
      get_or-append [] r ys = refl
      get_or-append (x ∷ xs) r ys = get_or-append xs r ys

  select-append : (xs ys : List Row) → select p (xs ++ ys) ≡ select p xs ++ select p ys
  select-append [] ys = refl
  select-append (x ∷ xs) ys = elim (Bool-cases (p x)) [
    | inl yes_ ↦ rw yes_ (ap (◌∷◌ x) (select-append xs ys))
    | inr no_ ↦ rw no_ (select-append xs ys)
  ]

  -- The rows of the blocks are admitted block by block.
  select-flatten :
      (blocks : List (List Row)) → select p (flatten blocks) ≡ flatten (map (select p) blocks)
  unfolding flatten
  select-flatten [] = refl
  select-flatten (b ∷ blocks) =
      select-append b (flatten blocks) ∙ ap (◌++◌ (select p b)) (select-flatten blocks)

  -- The bounds, each replaced by the count of the admitted positions below it.
  below-cumulative :
      (g : ℕ → ℕ) (before : List Row) (blocks : List (List Row))
      → ((v : ℕ) → g v ≡ below v (flatnonzero 0 (map p (before ++ flatten blocks))))
      → map g (cumulative (length before) blocks)
        ≡ cumulative (length (select p before)) (map (select p) blocks)
  unfolding cumulative flatten
  below-cumulative g before [] h =
      ap (λ n. n ∷ []) (h (length before) ∙ below-flatnonzero before [])
  below-cumulative g before (b ∷ blocks) h =
      let first : g (length before) ≡ length (select p before) =
        h (length before) ∙ below-flatnonzero before (b ++ flatten blocks) in
      let joined : before ++ (b ++ flatten blocks) ≡ (before ++ b) ++ flatten blocks =
        sym (append_assoc before b (flatten blocks)) in
      let ih = below-cumulative g (before ++ b) blocks (λ v. rw (← joined) (h v)) in
      let end : length (before ++ b) ≡ length before + length b = length-append before b in
      let end' : length (select p (before ++ b)) ≡ length (select p before) + length (select p b) =
        rw (select-append before b) (length-append (select p before) (select p b)) in
      ap₂ ◌∷◌ first (rw (← end, ← end') ih)

-- The blocks that hold a row.
abbrev pub nonempty : List (List Row) → List (List Row)
nonempty [] = []
nonempty ([] ∷ blocks) = nonempty blocks
nonempty ((r ∷ b) ∷ blocks) = (r ∷ b) ∷ nonempty blocks

rising-same :
    (a : ℕ) (blocks : List (List Row))
    → a ∷ rising a (cumulative a blocks) ≡ nonempty_bounds (cumulative a blocks)
unfolding rising nonempty_bounds cumulative
rising-same a [] = let e : ltb a a ≡ false = ground arith in rw e refl
rising-same a (b ∷ blocks) = let e : ltb a a ≡ false = ground arith in rw e refl

rising-above :
    (a c : ℕ) (blocks : List (List Row))
    → a < c
    → rising a (cumulative c blocks) ≡ nonempty_bounds (cumulative c blocks)
unfolding rising nonempty_bounds cumulative
rising-above a c [] h = let e : ltb a c ≡ true = ground arith in rw e refl
rising-above a c (b ∷ blocks) h = let e : ltb a c ≡ true = ground arith in rw e refl

-- A bound that repeats is the bound of an empty block.
nonempty_bounds-cumulative :
    (a : ℕ) (blocks : List (List Row))
    → nonempty_bounds (cumulative a blocks) ≡ cumulative a (nonempty blocks)
unfolding nonempty_bounds cumulative rising
nonempty_bounds-cumulative a [] = refl
nonempty_bounds-cumulative a ([] ∷ blocks) =
    let z : a + 0 ≡ a = omega arith in
    rw z (rising-same a blocks ∙ nonempty_bounds-cumulative a blocks)
nonempty_bounds-cumulative a ((r ∷ b) ∷ blocks) = ap (◌∷◌ a) (
    rising-above a (a + suc (length b)) blocks (omega arith)
    ∙ nonempty_bounds-cumulative (a + suc (length b)) blocks)

flatten-nonempty : (blocks : List (List Row)) → flatten (nonempty blocks) ≡ flatten blocks
unfolding flatten
flatten-nonempty [] = refl
flatten-nonempty ([] ∷ blocks) = flatten-nonempty blocks
flatten-nonempty ((r ∷ b) ∷ blocks) = ap (◌++◌ (r ∷ b)) (flatten-nonempty blocks)

pub from_blocks_lem :
    (blocks : List (List Row))
    → from_blocks blocks ≡ record { rows = flatten blocks; bounds = cumulative 0 blocks }
unfolding from_blocks cumulative flatten
from_blocks_lem [] = refl
from_blocks_lem (b ∷ blocks) = refl

keep-lists :
    (f : List ℕ → ℕ → ℕ) (p : Row → Bool) (blocks : List (List Row))
    → IsSearchsorted f
    → (order : DrawOrder) → order ≡ record { rows = flatten blocks; bounds = cumulative 0 blocks }
    → keep f order (map p order.rows) ≡ record {
      rows = flatten (map (select p) blocks);
      bounds = cumulative 0 (nonempty (map (select p) blocks));
    }
unfolding keep
keep-lists f p blocks sorted order e =
    let kept = flatnonzero 0 (map p (flatten blocks)) in
    let moved : map (f kept) (cumulative 0 blocks) ≡ cumulative 0 (map (select p) blocks) =
      below-cumulative p (f kept) [] blocks
        (λ v. sorted kept v (flatnonzero-Increasing 0 (map p (flatten blocks)))) in
    rw e (
      ap₂ (λ rows bounds. record { rows = rows; bounds = bounds })
        (picks p 0 [] (flatten blocks) refl ∙ select-flatten p blocks)
        (ap nonempty_bounds moved ∙ nonempty_bounds-cumulative 0 (map (select p) blocks)))

-- Given a `searchsorted` that counts the entries below a value in an increasing array: `keep` with the
-- mask of a test on the rows yields the draw order of the blocks cut down to the rows that pass, in
-- their order, less the blocks that are left without a row; rows and bounds both.
pub keep-from_blocks :
    (f : List ℕ → ℕ → ℕ) (p : Row → Bool) (blocks : List (List Row))
    → IsSearchsorted f
    → keep f (from_blocks blocks) (map p (from_blocks blocks).rows)
      ≡ from_blocks (nonempty (map (select p) blocks))
keep-from_blocks f p blocks sorted =
    let kept = map (select p) blocks in
    keep-lists f p blocks sorted (from_blocks blocks) (from_blocks_lem blocks)
    ∙ (ap (λ rows. record { rows = rows; bounds = cumulative 0 (nonempty kept) })
          (sym (flatten-nonempty kept))
        ∙ sym (from_blocks_lem (nonempty kept)))
