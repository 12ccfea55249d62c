-- ===== src/Source.antt =====
-- src/insitubatch/source.py: one pass over a split, from its draw order to the keys that its blocks
-- read and give back. A set of keys is a list without repeats; numpy's `unique` is a parameter.
pub mod Producer
pub mod Anchors
pub mod Rounds
pub mod Produced
pub mod Served
pub mod Held
pub mod Frontiers
pub mod LastUse
pub mod Release
pub mod Pass
pub mod Uses
pub mod ReadAhead
pub mod Wanted
pub mod Planned
use insitubatch.Base.Int.{ℤ, pos, pos_part, ◌+ℤ◌, leb_ℤ, ltb_ℤ, eqb_ℤ, floor_div}
use insitubatch.Base.{
  ℕ, zero, suc, ◌+◌, ◌-◌, ◌*◌, Bool, true, false, ◌&&◌, List, [], ◌∷◌, ◌++◌, map, flat_map, max,
  length, take, drop, get_or, range_from, if◌then◌else◌, ite, ◌==◌,
}
use insitubatch.Geometry.{ArrayGeometry, sample_chunk_size}
use insitubatch.Shuffle.{Row, DrawOrder, n_blocks, block, keep}
use insitubatch.Split.{valid_anchor_range}
use insitubatch.Pool.State.{Key, Key-discrete}

-- `order.rows[:, 0] * spc + order.rows[:, 1]`, of one row
unfoldable pub anchor_of : ℕ → Row → ℕ
anchor_of spc row = row.0 * spc + row.1

-- `(anchor >= lo) & (anchor < hi)`, of one row
unfoldable pub in_range : ℤ × ℤ → ℕ → Row → Bool
in_range ends spc row =
    leb_ℤ ends.0 (pos (anchor_of spc row)) && ltb_ℤ (pos (anchor_of spc row)) ends.1

-- `_drop_edge_anchors`; the dict of geometries is the list of its values.
unfoldable pub drop_edge_anchors :
    (List ℕ → ℕ → ℕ) → List ArrayGeometry → DrawOrder → ℕ → ℕ → DrawOrder
drop_edge_anchors searchsorted geometries order spc n_samples =
    let ends = valid_anchor_range (map (λ g. g.offset) geometries) n_samples in
    if eqb_ℤ ends.0 (pos 0) && eqb_ℤ ends.1 (pos n_samples)
    then order
    else keep searchsorted order (map (in_range ends spc) order.rows)

unfoldable pub key_in : Key → List Key → Bool
key_in k [] = false
key_in k (q ∷ keys) = ite (Key-discrete q k) true (key_in k keys)

-- `set.add` and `set.update`
unfoldable pub add_key : List Key → Key → List Key
add_key keys k = if key_in k keys then keys else keys ++ k ∷ []

unfoldable pub add_keys : List Key → List Key → List Key
add_keys keys [] = keys
add_keys keys (k ∷ rest) = add_keys (add_key keys k) rest

-- `(anchor + geom.offset) // geom.sample_chunk_size`, of one row. A negative one is of an anchor that
-- `drop_edge_anchors` takes out; here it is 0.
unfoldable pub read_cid : ArrayGeometry → ℕ → Row → ℕ
read_cid geom spc row =
    pos_part (floor_div (pos (anchor_of spc row) +ℤ geom.offset) (sample_chunk_size geom))

module _ (unique : List ℕ → List ℕ) where
  -- The loop of `_block_read_keys`
  unfoldable pub read_keys_from : List ArrayGeometry → List Row → ℕ → List Key → List Key
  read_keys_from [] rows spc keys = keys
  read_keys_from (geom ∷ geometries) rows spc keys = read_keys_from geometries rows spc (
      add_keys keys
        (map (λ c. record { path = geom.path; chunk = c }) (unique (map (read_cid geom spc) rows))))

  unfoldable pub block_read_keys : List ArrayGeometry → List Row → ℕ → List Key
  block_read_keys geometries rows spc = read_keys_from geometries rows spc []

-- `_Block`
pub record Block : Type 0 where
  pub start : ℕ
  pub stop : ℕ
  pub chunk_ids : List ℕ
  pub read_keys : List Key

-- `rows[start:stop]`
unfoldable pub slice : List Row → ℕ → ℕ → List Row
slice rows start stop = take (stop - start) (drop start rows)

module _ (unique : List ℕ → List ℕ) where
  unfoldable pub block_of : List ArrayGeometry → DrawOrder → ℕ → ℕ → Block
  block_of geometries order spc index =
      let ends = block order index in
      let rows = slice order.rows ends.0 ends.1 in
      record {
        start = ends.0;
        stop = ends.1;
        chunk_ids = unique (map (λ r. r.0) rows);
        read_keys = block_read_keys unique geometries rows spc;
      }

  -- `_blocks`
  unfoldable pub blocks : List ArrayGeometry → DrawOrder → ℕ → List Block
  blocks geometries order spc = map (block_of geometries order spc) (range_from 0 (n_blocks order))

unfoldable pub ordered_chunks : List Block → List ℕ
ordered_chunks bs = flat_map (λ b. b.chunk_ids) bs

-- `last_use[key] = bi`: a dict in the order in which its keys came.
unfoldable pub set_use : List (Key × ℕ) → Key → ℕ → List (Key × ℕ)
set_use [] k bi = (k, bi) ∷ []
set_use (e ∷ uses) k bi =
    let rest = set_use uses k bi in ite (Key-discrete e.0 k) ((k, bi) ∷ uses) (e ∷ rest)

unfoldable pub set_uses : List (Key × ℕ) → List Key → ℕ → List (Key × ℕ)
set_uses uses [] bi = uses
set_uses uses (k ∷ keys) bi = set_uses (set_use uses k bi) keys bi

-- The loop over the blocks' keys: a later block overwrites.
unfoldable pub last_use_from : ℕ → List (List Key) → List (Key × ℕ) → List (Key × ℕ)
last_use_from bi [] uses = uses
last_use_from bi (keys ∷ block_keys) uses =
    last_use_from (suc bi) block_keys (set_uses uses keys bi)

unfoldable pub last_use : List (List Key) → List (Key × ℕ)
last_use block_keys = last_use_from 0 block_keys []

-- `release[bi].add(key)`
unfoldable pub add_at : List (List Key) → ℕ → Key → List (List Key)
add_at [] bi k = []
add_at (keys ∷ release) zero k = add_key keys k ∷ release
add_at (keys ∷ release) (suc bi) k = keys ∷ add_at release bi k

unfoldable pub add_uses : List (List Key) → List (Key × ℕ) → List (List Key)
add_uses release [] = release
add_uses release (e ∷ uses) = add_uses (add_at release e.1 e.0) uses

-- `release`, of a pass that holds a chunk until its last block (not `reread_spill`) and of one that
-- does not.
unfoldable pub release : Bool → List (List Key) → List (List Key)
release reread_spill block_keys =
    if reread_spill then block_keys else add_uses (map (λ _. []) block_keys) (last_use block_keys)

-- The blocks of a pass, each with what it releases: `release[freed]` beside `blocks[freed]`.
unfoldable pub zip_release : List Block → List (List Key) → List (Block × List Key)
zip_release (b ∷ bs) (keys ∷ release) = (b, keys) ∷ zip_release bs release
zip_release _ _ = []

unfoldable pub release_plan : Bool → List Block → List (Block × List Key)
release_plan reread_spill bs = zip_release bs (release reread_spill (map (λ b. b.read_keys) bs))

-- `first_use.setdefault(key, bi)`
unfoldable pub set_default : List (Key × ℕ) → Key → ℕ → List (Key × ℕ)
set_default [] k bi = (k, bi) ∷ []
set_default (e ∷ uses) k bi =
    let rest = set_default uses k bi in ite (Key-discrete e.0 k) (e ∷ uses) (e ∷ rest)

unfoldable pub set_defaults : List (Key × ℕ) → List Key → ℕ → List (Key × ℕ)
set_defaults uses [] bi = uses
set_defaults uses (k ∷ keys) bi = set_defaults (set_default uses k bi) keys bi

unfoldable pub first_use_from : ℕ → List (List Key) → List (Key × ℕ) → List (Key × ℕ)
first_use_from bi [] uses = uses
first_use_from bi (keys ∷ block_keys) uses =
    first_use_from (suc bi) block_keys (set_defaults uses keys bi)

-- `opens[bi]`, of `first_use`, and `closes[bi]`, of `last_use`
unfoldable pub count_at : List (Key × ℕ) → ℕ → ℕ
count_at [] bi = 0
count_at (e ∷ uses) bi = (if e.1 == bi then 1 else 0) + count_at uses bi

unfoldable pub next_size : List (List Key) → ℕ
next_size [] = 0
next_size (keys ∷ block_keys) = length keys

-- The loop of `read_ahead_bound`. (What closes has been opened, so `live -= closes[bi]` is not cut off.)
unfoldable pub peak_from : List (Key × ℕ) → List (Key × ℕ) → ℕ → ℕ → ℕ → List (List Key) → ℕ
peak_from first last bi live peak [] = max peak 1
peak_from first last bi live peak (keys ∷ rest) =
    let opened = live + count_at first bi in
    peak_from first last (suc bi) (opened - count_at last bi) (max peak (opened + next_size rest))
      rest

unfoldable pub read_ahead_bound : List (List Key) → List (Key × ℕ) → ℕ
read_ahead_bound block_keys last = peak_from (first_use_from 0 block_keys []) last 0 0 0 block_keys
