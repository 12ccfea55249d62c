-- ===== src/Shuffle/Orders.antt =====
-- The rows of the draw orders as samples of the array, and the bounds of their blocks.
use mathlib.Core.List.{map-append}
use mathlib.Core.List.Perm as Perm
use insitubatch.Base.Perms.{append_assoc, flat_map-append, flat_map-Perm}
use insitubatch.Base.{
  ℕ, zero, suc, ◌+◌, ◌-◌, ◌*◌, ◌≤◌, ◌<◌, ◌≡◌, refl, sym, ap, ap₂, subst, ◌∙◌, List, [], ◌∷◌, ◌++◌,
  map, flat_map, flatten, Perm, length, take, drop, get_or, range_from, take-append-drop,
  length-append, length-drop, arith,
}
use insitubatch.Geometry.{ArrayGeometry, n_samples, sample_chunk_size, samples_in_chunk, to_list}
use insitubatch.Shuffle.{
  Row, chunk_rows, DrawOrder, n_blocks, block, cumulative, from_blocks, windows, block_rows,
  sequential_order, Generator, shuffled_blocks, chunk_permutation, block_shuffled_order,
}

-- The windows in order are the whole list.
flatten-windows :
    (fuel bc : ℕ) (ids : List ℕ) → 0 < bc → length ids ≤ fuel → flatten (windows fuel bc ids) ≡ ids
unfolding windows flatten
flatten-windows fuel bc [] h l = refl
flatten-windows zero bc (c ∷ ids) h l = absurd (omega arith)
flatten-windows (suc fuel) bc (c ∷ ids) h l =
    ap (λ r. take bc (c ∷ ids) ++ r)
      (flatten-windows fuel bc (drop bc (c ∷ ids)) h (omega (arith, length-drop bc (c ∷ ids))))
    ∙ take-append-drop bc (c ∷ ids)

flatten-map {ℓ κ} :
    {A : Type ℓ} {B : Type κ} (f : A → List B) (xss : List (List A))
    → flatten (map (flat_map f) xss) ≡ flat_map f (flatten xss)
unfolding flatten flat_map
flatten-map f [] = refl
flatten-map f (xs ∷ xss) =
    ap (λ r. flat_map f xs ++ r) (flatten-map f xss) ∙ sym (flat_map-append f xs (flatten xss))

from_blocks-rows : (blocks : List (List Row)) → (from_blocks blocks).rows ≡ flatten blocks
unfolding from_blocks flatten
from_blocks-rows [] = refl
from_blocks-rows (b ∷ blocks) = refl

windows-rows :
    (spc n bc : ℕ) (ids : List ℕ)
    → 0 < bc
    → flatten (map (block_rows spc n) (windows (length ids) bc ids))
      ≡ flat_map (chunk_rows spc n) ids
unfolding block_rows
windows-rows spc n bc ids h =
    flatten-map (chunk_rows spc n) (windows (length ids) bc ids)
    ∙ ap (flat_map (chunk_rows spc n)) (flatten-windows (length ids) bc ids h (omega arith))

-- Without shuffling, the rows are those of the chunks in their order, whatever the size of a block.
pub sequential_order-rows :
    (chunk_ids : List ℕ) (spc n block_chunks : ℕ)
    → 0 < block_chunks
    → (sequential_order chunk_ids spc n block_chunks).rows ≡ flat_map (chunk_rows spc n) chunk_ids
unfolding sequential_order
sequential_order-rows ids spc n bc h =
    from_blocks-rows (map (block_rows spc n) (windows (length ids) bc ids))
    ∙ windows-rows spc n bc ids h

shuffled_blocks-Perm :
    (shuffle : ℕ → List Row → List Row)
    → ((n : ℕ) (rows : List Row) → Perm (shuffle n rows) rows)
    → (n : ℕ) (blocks : List (List Row))
    → Perm (flatten (shuffled_blocks shuffle n blocks)) (flatten blocks)
unfolding shuffled_blocks flatten
shuffled_blocks-Perm shuffle p n [] = Perm.nil
shuffled_blocks-Perm shuffle p n (b ∷ blocks) =
    Perm.append (p n b) (shuffled_blocks-Perm shuffle p (suc n) blocks)

-- If the generator's permutation and shuffle rearrange, the shuffled order's rows are a rearrangement
-- of the rows of the chunks: every epoch draws each sample of the split, and each once.
pub block_shuffled_order-rows :
    (rng : Generator) (chunk_ids : List ℕ) (spc n block_chunks seed epoch : ℕ)
    → ((l : List ℕ) → Perm (rng.permutation seed epoch l) l)
    → ((k : ℕ) (l : List Row) → Perm (rng.shuffle seed epoch k l) l)
    → 0 < block_chunks
    → Perm
        (block_shuffled_order rng chunk_ids spc n block_chunks seed epoch).rows
        (flat_map (chunk_rows spc n) chunk_ids)
unfolding block_shuffled_order chunk_permutation flat_map flatten
block_shuffled_order-rows rng [] spc n bc seed epoch p q h =
    subst (λ l. Perm l []) (sym (from_blocks-rows [])) Perm.nil
block_shuffled_order-rows rng (c ∷ ids) spc n bc seed epoch p q h =
    let perm = rng.permutation seed epoch (c ∷ ids) in
    let blocks = map (block_rows spc n) (windows (length perm) bc perm) in
    let mixed = shuffled_blocks (rng.shuffle seed epoch) 0 blocks in
    subst (λ l. Perm l (flat_map (chunk_rows spc n) (c ∷ ids))) (sym (from_blocks-rows mixed))
      (Perm.trans (shuffled_blocks-Perm (rng.shuffle seed epoch) q 0 blocks) (
        subst (λ l. Perm l (flat_map (chunk_rows spc n) (c ∷ ids)))
          (sym (windows-rows spc n bc perm h))
          (flat_map-Perm (chunk_rows spc n) perm (c ∷ ids) (p (c ∷ ids)))))

-- `order.rows[start:stop]` of a block
abbrev pub rows_of : DrawOrder → ℕ → List Row
rows_of order i = let (start, stop) = block order i in take (stop - start) (drop start order.rows)

take-append_self : (xs ys : List Row) → take (length xs) (xs ++ ys) ≡ xs
take-append_self [] ys = refl
take-append_self (x ∷ xs) ys = ap (◌∷◌ x) (take-append_self xs ys)

drop-append_self : (xs ys : List Row) → drop (length xs) (xs ++ ys) ≡ ys
drop-append_self [] ys = refl
drop-append_self (x ∷ xs) ys = drop-append_self xs ys

cumulative-first : (at : ℕ) (blocks : List (List Row)) → get_or (cumulative at blocks) 0 0 ≡ at
unfolding cumulative
cumulative-first at [] = refl
cumulative-first at (b ∷ blocks) = refl

length-cumulative :
    (at : ℕ) (blocks : List (List Row)) → length (cumulative at blocks) ≡ length blocks + 1
unfolding cumulative
length-cumulative at [] = refl
length-cumulative at (b ∷ blocks) = omega (arith, length-cumulative (at + length b) blocks)

cut :
    (before : List Row) (blocks : List (List Row)) (i : ℕ)
    → i < length blocks
    → let bounds = cumulative (length before) blocks in
      take
        (get_or bounds (suc i) 0 - get_or bounds i 0)
        (drop (get_or bounds i 0) (before ++ flatten blocks))
      ≡ get_or blocks i []
unfolding cumulative flatten
cut before [] i h = absurd (omega arith)
cut before (b ∷ blocks) zero h =
    let next : get_or (cumulative (length before + length b) blocks) 0 0 - length before
        ≡ length b =
      omega (arith, cumulative-first (length before + length b) blocks) in
    rw (next, drop-append_self before (b ++ flatten blocks)) (take-append_self b (flatten blocks))
cut before (b ∷ blocks) (suc i) h =
    let joined : (before ++ b) ++ flatten blocks ≡ before ++ (b ++ flatten blocks) =
      append_assoc before b (flatten blocks) in
    rw (← joined, ← length-append before b) (cut (before ++ b) blocks i (omega arith))

-- The order that `_from_blocks` makes has as many blocks as it was given, and the rows between the
-- bounds of each are that block's.
pub from_blocks-block :
    (blocks : List (List Row)) (i : ℕ)
    → i < length blocks
    → (n_blocks (from_blocks blocks) ≡ length blocks)
      × (rows_of (from_blocks blocks) i ≡ get_or blocks i [])
unfolding from_blocks n_blocks block flatten
from_blocks-block [] i h = absurd (omega arith)
from_blocks-block (b ∷ blocks) i h =
    let e : i + 1 ≡ suc i = omega arith in
    (omega (arith, length-cumulative 0 (b ∷ blocks)), rw e (cut [] (b ∷ blocks) i h))

-- The sample of a row: `chunk_id * samples_per_chunk + within`
abbrev pub sample_of : ℕ → Row → ℕ
sample_of spc (c, within) = c * spc + within

rows-run :
    (spc c k len : ℕ)
    → map (sample_of spc) (map (λ w. (c, w)) (range_from k len)) ≡ range_from (c * spc + k) len
rows-run spc c k zero = refl
rows-run spc c k (suc len) =
    let e : c * spc + suc k ≡ suc (c * spc + k) = omega arith in
    ap (◌∷◌ (c * spc + k)) (rows-run spc c (suc k) len ∙ ap (λ n. range_from n len) e)

module _ (geom : ArrayGeometry) where
  abbrev rows_in : ℕ → List Row
  rows_in = chunk_rows (sample_chunk_size geom) (n_samples geom)

  chunk_rows-samples :
      (c : ℕ)
      → map (sample_of (sample_chunk_size geom)) (rows_in c) ≡ to_list (samples_in_chunk geom c)
  unfolding chunk_rows samples_in_chunk
  chunk_rows-samples c =
      rows-run (sample_chunk_size geom) c 0 _ ∙ ap₂ range_from (omega arith) (omega arith)

  rows-samples :
      (ids : List ℕ)
      → map (sample_of (sample_chunk_size geom)) (flat_map rows_in ids)
        ≡ flat_map (λ c. to_list (samples_in_chunk geom c)) ids
  unfolding flat_map
  rows-samples [] = refl
  rows-samples (c ∷ ids) =
      map-append (sample_of (sample_chunk_size geom)) (rows_in c) (flat_map rows_in ids)
      ∙ ap₂ (λ x y. x ++ y) (chunk_rows-samples c) (rows-samples ids)

  -- An epoch's shuffled draws, as sample indices, are a rearrangement of the samples of the split's
  -- chunks, if the generator's permutation and shuffle rearrange: no sample is missed, and none is
  -- drawn twice.
  pub block_shuffled_order-samples :
      (rng : Generator) (chunk_ids : List ℕ) (block_chunks seed epoch : ℕ)
      → ((l : List ℕ) → Perm (rng.permutation seed epoch l) l)
      → ((k : ℕ) (l : List Row) → Perm (rng.shuffle seed epoch k l) l)
      → 0 < block_chunks
      → Perm
          (map
            (sample_of (sample_chunk_size geom))
            (block_shuffled_order rng chunk_ids
              (sample_chunk_size geom)
              (n_samples geom)
              block_chunks
              seed
              epoch).rows)
          (flat_map (λ c. to_list (samples_in_chunk geom c)) chunk_ids)
  block_shuffled_order-samples rng ids bc seed epoch p q h =
      let spc = sample_chunk_size geom in
      subst (Perm _) (rows-samples ids) (
        Perm.map (sample_of spc)
          (block_shuffled_order-rows rng ids spc (n_samples geom) bc seed epoch p q h))
