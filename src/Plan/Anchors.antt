-- ===== src/Plan/Anchors.antt =====
-- `_read_chunks` against the samples that it is for: an anchor chunk's reads at the variable's offset.
use insitubatch.Base.Int.{ℤ, pos, negsuc, pos_part, neg, max_ℤ, min_ℤ, ◌+ℤ◌, ◌≤ℤ◌, leb_ℤ}
use insitubatch.Base.{ℕ, ◌+◌, ◌*◌, ◌/◌, ◌≤◌, ◌<◌, ◌≡◌, true, min, arith}
use insitubatch.Geometry.{ArrayGeometry, n_samples, sample_chunk_size, chunk_of}
use insitubatch.Plan.{read_chunks}

-- The lowest and the highest sample that are read.
abbrev low : ℕ → ℤ → ℤ
low start o = max_ℤ (pos 0) (pos start +ℤ o)

abbrev high : ℕ → ℕ → ℤ → ℤ
high n stop o = min_ℤ (pos n +ℤ neg (pos 1)) (pos stop +ℤ neg (pos 1) +ℤ o)

-- A sample that an anchor of the chunk reads lies between them.
low-le : (start a s : ℕ) (o : ℤ) → start ≤ a → (pos a +ℤ o) ≡ pos s → pos_part (low start o) ≤ s
unfolding ◌+ℤ◌
low-le start a s (pos m) h e = ground arith
low-le start a s (negsuc m) h e = ground arith

le-high :
    (n stop a s : ℕ) (o : ℤ)
    → a < stop
    → s < n
    → (pos a +ℤ o) ≡ pos s
    → (pos 0 ≤ℤ high n stop o) × (s ≤ pos_part (high n stop o))
unfolding ◌+ℤ◌
le-high n stop a s (pos m) h l e = ground arith
le-high n stop a s (negsuc m) h l e = ground arith

ends :
    (n start stop a s : ℕ) (o : ℤ)
    → start ≤ a
    → a < stop
    → s < n
    → (pos a +ℤ o) ≡ pos s
    → leb_ℤ (low start o) (high n stop o) ≡ true
ends n start stop a s o h l w e =
    let lo = low-le start a s o h e in
    let (p, hi) = le-high n stop a s o l w e in
    tested (low start o) (high n stop o) s lo p hi (low_nonneg start o)
  where
    low_nonneg : (start : ℕ) (o : ℤ) → pos 0 ≤ℤ low start o
    low_nonneg start o = ground arith

    tested :
        (x y : ℤ) (s : ℕ)
        → pos_part x ≤ s
        → pos 0 ≤ℤ y
        → s ≤ pos_part y
        → pos 0 ≤ℤ x
        → leb_ℤ x y ≡ true
    tested x y s p q r t = ground arith

div_mono : (m n c : ℕ) → m ≤ n → m / c ≤ n / c
div_mono m n c h = grind arith

-- Every sample that an anchor of the chunk reads, at the variable's offset and inside the array, is
-- in a chunk of `_read_chunks`: `start ≤ a < stop` are the anchors of the chunk in the reference grid.
pub read_chunks-covers :
    (geom : ArrayGeometry) (anchor_chunk ref_spc a s : ℕ)
    → anchor_chunk * ref_spc ≤ a
    → a < min (anchor_chunk * ref_spc + ref_spc) (n_samples geom)
    → s < n_samples geom
    → (pos a +ℤ geom.offset) ≡ pos s
    → ((read_chunks geom anchor_chunk ref_spc).start ≤ chunk_of geom s)
      × (chunk_of geom s < (read_chunks geom anchor_chunk ref_spc).stop)
unfolding read_chunks chunk_of
read_chunks-covers geom k ref_spc a s h l w e =
    let n = n_samples geom in
    let start = k * ref_spc in
    let stop = min (start + ref_spc) n in
    let spc = sample_chunk_size geom in
    let found = ends n start stop a s geom.offset h l w e in
    let lo = div_mono _ _ spc (low-le start a s geom.offset h e) in
    let hi = div_mono _ _ spc (le-high n stop a s geom.offset l w e).1 in
    simp found (lo, omega (arith, hi))
