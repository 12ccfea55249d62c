-- ===== src/Shuffle.antt =====
-- src/insitubatch/shuffle.py: one epoch's draw order, in shuffle-blocks. numpy's generator is a
-- parameter: `permutation` for a seed and an epoch, and `shuffle` for the n-th block of them.
pub mod Orders
pub mod Keep
use insitubatch.Base.{
  ℕ, zero, suc, Bool, ltb, if◌then◌else◌, ◌+◌, ◌-◌, ◌*◌, Bool, List, [], ◌∷◌, ◌++◌, map, flat_map,
  flatten, min, length, take, drop, get_or, range_from,
}

-- `[chunk_id, within]`
abbrev pub Row : Type 0
Row = ℕ × ℕ

-- `_chunk_rows`, for a chunk that starts inside the array; for any other numpy refuses the negative
-- length, and here there are no rows.
unfoldable pub chunk_rows : ℕ → ℕ → ℕ → List Row
chunk_rows samples_per_chunk n_samples chunk_id =
    let clen = min samples_per_chunk (n_samples - chunk_id * samples_per_chunk) in
    map (λ within. (chunk_id, within)) (range_from 0 clen)

pub record DrawOrder : Type 0 where
  pub rows : List Row
  pub bounds : List ℕ

-- `__len__`, `n_blocks` and `block`
unfoldable pub n_rows : DrawOrder → ℕ
n_rows order = length order.rows

unfoldable pub n_blocks : DrawOrder → ℕ
n_blocks order = length order.bounds - 1

unfoldable pub block : DrawOrder → ℕ → ℕ × ℕ
block order index = (get_or order.bounds index 0, get_or order.bounds (index + 1) 0)

-- `[0]` and the running sums of the lengths
unfoldable pub cumulative : ℕ → List (List Row) → List ℕ
cumulative at [] = at ∷ []
cumulative at (b ∷ blocks) = at ∷ cumulative (at + length b) blocks

-- `_from_blocks`
unfoldable pub from_blocks : List (List Row) → DrawOrder
from_blocks [] = record { rows = []; bounds = 0 ∷ [] }
from_blocks (b ∷ blocks) = record {
  rows = flatten (b ∷ blocks);
  bounds = cumulative 0 (b ∷ blocks);
}

-- `chunk_ids[start:start + block_chunks] for start in range(0, len(chunk_ids), block_chunks)`; the
-- first argument bounds the rounds, and as many as there are chunks are enough.
unfoldable pub windows : ℕ → ℕ → List ℕ → List (List ℕ)
windows fuel block_chunks [] = []
windows zero block_chunks (c ∷ ids) = []
windows (suc fuel) block_chunks (c ∷ ids) =
    take block_chunks (c ∷ ids) ∷ windows fuel block_chunks (drop block_chunks (c ∷ ids))

unfoldable pub block_rows : ℕ → ℕ → List ℕ → List Row
block_rows samples_per_chunk n_samples ids = flat_map (chunk_rows samples_per_chunk n_samples) ids

unfoldable pub sequential_order : List ℕ → ℕ → ℕ → ℕ → DrawOrder
sequential_order chunk_ids samples_per_chunk n_samples block_chunks = from_blocks (
    map (block_rows samples_per_chunk n_samples)
      (windows (length chunk_ids) block_chunks chunk_ids))

pub record Generator : Type 0 where
  pub permutation : ℕ → ℕ → List ℕ → List ℕ
  pub shuffle : ℕ → ℕ → ℕ → List Row → List Row

-- The loop over the windows: the n-th block is shuffled by the generator's n-th draw.
unfoldable pub shuffled_blocks : (ℕ → List Row → List Row) → ℕ → List (List Row) → List (List Row)
shuffled_blocks shuffle n [] = []
shuffled_blocks shuffle n (pairs ∷ rest) = shuffle n pairs ∷ shuffled_blocks shuffle (suc n) rest

module _ (rng : Generator) where
  -- `chunk_permutation`
  unfoldable pub chunk_permutation : List ℕ → ℕ → ℕ → List ℕ
  chunk_permutation chunk_ids seed epoch = rng.permutation seed epoch chunk_ids

  unfoldable pub block_shuffled_order : List ℕ → ℕ → ℕ → ℕ → ℕ → ℕ → DrawOrder
  block_shuffled_order [] samples_per_chunk n_samples block_chunks seed epoch = from_blocks []
  block_shuffled_order (c ∷ ids) samples_per_chunk n_samples block_chunks seed epoch =
      let perm = chunk_permutation (c ∷ ids) seed epoch in
      from_blocks (
        shuffled_blocks (rng.shuffle seed epoch) 0
          (map (block_rows samples_per_chunk n_samples) (windows (length perm) block_chunks perm)))

-- The positions of a mask's true entries, from a position on: `np.flatnonzero`
unfoldable pub flatnonzero : ℕ → List Bool → List ℕ
flatnonzero i [] = []
flatnonzero i (b ∷ mask) = if b then i ∷ flatnonzero (suc i) mask else flatnonzero (suc i) mask

-- `bounds[nonempty]`, behind its first entry: a bound stays if it is above the one before it.
unfoldable pub rising : ℕ → List ℕ → List ℕ
rising before [] = []
rising before (b ∷ bounds) = if ltb before b then b ∷ rising b bounds else rising b bounds

unfoldable pub nonempty_bounds : List ℕ → List ℕ
nonempty_bounds [] = []
nonempty_bounds (b ∷ bounds) = b ∷ rising b bounds

-- `keep`; `searchsorted` is numpy's.
unfoldable pub keep : (List ℕ → ℕ → ℕ) → DrawOrder → List Bool → DrawOrder
keep searchsorted order mask =
    let kept = flatnonzero 0 mask in
    record {
      rows = map (λ i. get_or order.rows i (0, 0)) kept;
      bounds = nonempty_bounds (map (searchsorted kept) order.bounds);
    }
