-- ===== src/Plan.antt =====
-- src/insitubatch/plan.py: the stored-chunk reads that a draw order's chunks need, in order and
-- without repeats. The dict of geometries is the list of its values.
pub mod Anchors
pub mod Dedup
use Prim.Native.String.{String}
use insitubatch.Base.Int.{ℤ, pos, pos_part, max_ℤ, min_ℤ, ◌+ℤ◌, neg, leb_ℤ}
use insitubatch.Base.Text.{String-discrete}
use insitubatch.Base.{
  ℕ, zero, suc, ◌+◌, ◌-◌, ◌*◌, ◌/◌, Bool, true, false, not, List, [], ◌∷◌, ◌++◌, map, flat_map, ite,
  min, if◌then◌else◌, length, ℕ_discrete,
}
use insitubatch.Geometry.{ArrayGeometry, Range, to_list, n_samples, sample_chunk_size, inner_coords}
use insitubatch.Pool.State.{is_in}

-- `StoredChunkRead`
pub record StoredChunkRead : Type 0 where
  pub array : String
  pub chunk_index : ℕ
  pub inner_coord : List ℕ

unfoldable pub StoredChunkRead-discrete : Discrete StoredChunkRead
StoredChunkRead-discrete = hlevel (ℕ_discrete, String-discrete)

-- `ChunkReadPlan`
pub record ChunkReadPlan : Type 0 where
  pub reads : List StoredChunkRead
  pub block_starts : List ℕ

-- `_read_chunks`. Where the range is not empty, both ends are samples of the array.
unfoldable pub read_chunks : ArrayGeometry → ℕ → ℕ → Range
read_chunks geom anchor_chunk ref_spc =
    let start = anchor_chunk * ref_spc in
    let stop = min (start + ref_spc) (n_samples geom) in
    let lo = max_ℤ (pos 0) (pos start +ℤ geom.offset) in
    let hi = min_ℤ (pos (n_samples geom) +ℤ neg (pos 1)) (pos stop +ℤ neg (pos 1) +ℤ geom.offset) in
    if not (leb_ℤ lo hi)
    then record { start = 0; stop = 0 }
    else let spc = sample_chunk_size geom in
      record { start = pos_part lo / spc; stop = pos_part hi / spc + 1 }

-- The reads of one variable for one anchor chunk, and of all of them
unfoldable pub reads_for : ℕ → ℕ → ArrayGeometry → List StoredChunkRead
reads_for ref_spc cid geom =
    flat_map
      (λ read_cid.
        map (λ inner. record { array = geom.path; chunk_index = read_cid; inner_coord = inner })
          (inner_coords geom))
      (to_list (read_chunks geom cid ref_spc))

unfoldable pub wanted : List ArrayGeometry → ℕ → ℕ → List StoredChunkRead
wanted geometries ref_spc cid = flat_map (reads_for ref_spc cid) geometries

unfoldable pub seen_in : StoredChunkRead → List StoredChunkRead → Bool
seen_in r [] = false
seen_in r (q ∷ rest) = ite (StoredChunkRead-discrete q r) true (seen_in r rest)

-- What the loops change.
pub record Progress : Type 0 where
  pub reads : List StoredChunkRead
  pub block_starts : List ℕ
  pub seen : List StoredChunkRead

-- `if read not in seen: seen.add(read); reads.append(read)`
unfoldable pub add_read : Progress → StoredChunkRead → Progress
add_read p read =
    if seen_in read p.seen
    then p
    else record p { reads = p.reads ++ read ∷ []; seen = read ∷ p.seen }

unfoldable pub add_reads : Progress → List StoredChunkRead → Progress
add_reads p [] = p
add_reads p (read ∷ rest) = add_reads (add_read p read) rest

-- `boundaries`: where each group begins
unfoldable pub boundaries : ℕ → List ℕ → List ℕ
boundaries at [] = []
boundaries at (n ∷ groups) = at ∷ boundaries (at + n) groups

-- `seen.clear(); block_starts.append(len(reads))`
unfoldable pub open_block : Progress → Progress
open_block p = record p { seen = []; block_starts = p.block_starts ++ length p.reads ∷ [] }

module _ (geometries : List ArrayGeometry) (ref_spc : ℕ) where
  unfoldable pub plan_from : List ℕ → ℕ → List ℕ → Progress → Progress
  plan_from starts i [] p = p
  plan_from starts i (cid ∷ rest) p =
      let opened = if is_in i starts then open_block p else p in
      plan_from starts (suc i) rest (add_reads opened (wanted geometries ref_spc cid))

  -- `build_stored_chunk_reads`; no groups is the empty list.
  unfoldable pub build_stored_chunk_reads : List ℕ → List ℕ → ChunkReadPlan
  build_stored_chunk_reads chunk_ids groups =
      let p =
        plan_from (boundaries 0 groups) 0 chunk_ids
          (record { reads = []; block_starts = []; seen = [] }) in
      record { reads = p.reads; block_starts = p.block_starts }
