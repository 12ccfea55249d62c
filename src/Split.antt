-- ===== src/Split.antt =====
-- src/insitubatch/split.py: the anchors of a windowed dataset, and chunk-aligned train, val and test
-- splits. `rng.permutation` and the float arithmetic of `int(round(fraction * n))` are parameters.
pub mod Anchors
pub mod Partition
use insitubatch.Base.Arith.{ceil_div}
use insitubatch.Base.Int.{ℤ, pos, negsuc, neg, max_ℤ, min_ℤ, ◌+ℤ◌}
use insitubatch.Base.{
  ℕ, suc, ◌+◌, ◌-◌, ◌/◌, Bool, true, false, not, ◌&&◌, List, [], ◌∷◌, Option, none, some, ltb, leb,
  if◌then◌else◌, length, take, drop, range_from, flat_map,
}
use insitubatch.Geometry.{
  ArrayGeometry, n_samples, n_chunks, sample_chunk_size, samples_in_chunk, to_list,
}

-- `min(offs)` and `max(offs)` of a list that is not empty
abbrev pub min_of : ℤ → List ℤ → ℤ
min_of o [] = o
min_of o (p ∷ rest) = min_of (min_ℤ o p) rest

abbrev pub max_of : ℤ → List ℤ → ℤ
max_of o [] = o
max_of o (p ∷ rest) = max_of (max_ℤ o p) rest

-- `valid_anchor_range`
unfoldable pub valid_anchor_range : List ℤ → ℕ → ℤ × ℤ
valid_anchor_range [] n_samples = (pos 0, pos n_samples)
valid_anchor_range (o ∷ offs) n_samples =
    let lo = max_ℤ (pos 0) (neg (min_of o offs)) in
    let hi = pos n_samples +ℤ neg (max_ℤ (pos 0) (max_of o offs)) in (lo, max_ℤ lo hi)

pub data SplitName : Type 0 where
  train val test : SplitName

-- `SplitManifest`; the dict of three splits is three fields.
pub record SplitManifest : Type 0 where
  pub n_chunks : ℕ
  pub sample_chunk_size : ℕ
  pub n_samples : ℕ
  pub train_chunks : List ℕ
  pub val_chunks : List ℕ
  pub test_chunks : List ℕ
  pub seed : ℕ

-- `self.chunks[split.value]`
abbrev pub chunks_of : SplitManifest → SplitName → List ℕ
chunks_of m train = m.train_chunks
chunks_of m val = m.val_chunks
chunks_of m test = m.test_chunks

-- `sample_indices`
unfoldable pub sample_indices : SplitManifest → SplitName → ArrayGeometry → List ℕ
sample_indices m split geom = flat_map (λ c. to_list (samples_in_chunk geom c)) (chunks_of m split)

-- `sorted` of a list of numbers
unfoldable pub insert : ℕ → List ℕ → List ℕ
insert x [] = x ∷ []
insert x (y ∷ ys) = if leb x y then x ∷ y ∷ ys else y ∷ insert x ys

unfoldable pub sorted : List ℕ → List ℕ
sorted [] = []
sorted (x ∷ xs) = insert x (sorted xs)

-- The chunks that `split_by_chunk` divides up; `none` is its ValueError on the window.
unfoldable pub selected : ArrayGeometry → Option (ℕ × ℕ) → Option (List ℕ)
selected geom none = some (range_from 0 (n_chunks geom))
selected geom (some (start, stop)) =
    if not (ltb start stop && leb stop (n_samples geom))
    then none
    else let spc = sample_chunk_size geom in
      let first = start / spc in some (range_from first (ceil_div stop spc - first))

-- `rng.permutation(order)` for a seed, and `int(round(fraction * n))` for the first two fractions,
-- which may be negative; `sums_to_one` is the test of the fractions' sum.
pub record Numerics : Type 0 where
  pub permutation : ℕ → List ℕ → List ℕ
  pub sums_to_one : Bool
  pub train_share : ℕ → ℤ
  pub val_share : ℕ → ℤ

-- Where an end of a slice falls: a negative one counts from the list's end, down to its start.
unfoldable pub position : {A : Type 0} → ℤ → List A → ℕ
position (pos n) l = n
position (negsuc n) l = length l - suc n

-- `l[start:stop]`
unfoldable pub slice_of : {A : Type 0} → ℤ → ℤ → List A → List A
slice_of start stop l = drop (position start l) (take (position stop l) l)

module _ (num : Numerics) where
  unfoldable pub divide : ArrayGeometry → ℕ → List ℕ → SplitManifest
  divide geom seed order =
      let n_sel = length order in
      let n_train = num.train_share n_sel in
      let n_val = num.val_share n_sel in
      record {
        n_chunks = n_chunks geom;
        sample_chunk_size = sample_chunk_size geom;
        n_samples = n_samples geom;
        train_chunks = sorted (take (position n_train order) order);
        val_chunks = sorted (slice_of n_train (n_train +ℤ n_val) order);
        test_chunks = sorted (drop (position (n_train +ℤ n_val) order) order);
        seed = seed;
      }

  -- `split_by_chunk`
  unfoldable pub split_by_chunk : ArrayGeometry → ℕ → Bool → Option (ℕ × ℕ) → Option SplitManifest
  split_by_chunk geom seed contiguous sample_range =
      if not num.sums_to_one then none else elim (selected geom sample_range) [
        | none ↦ none
        | some order ↦
            some (divide geom seed (if contiguous then order else num.permutation seed order))
      ]
