-- ===== src/Pool/Gather.antt =====
-- src/insitubatch/pool.py: `gather` and `_assemble`, which copy out of a slot's tiles. An array is a
-- function from positions; what a buffer holds before it is written (`blank`) is a parameter, as is
-- numpy's `unique`.
pub mod Content
pub mod Rows
use Prim.Native.String.{String}
use insitubatch.Base.Int.{ℤ, pos, pos_part, ◌+ℤ◌}
use insitubatch.Base.{
  ℕ, ◌+◌, ◌-◌, ◌%◌, Bool, true, false, ◌&&◌, List, [], ◌∷◌, map, Option, none, some, ltb, leb, ◌==◌,
  if◌then◌else◌, get_or, ◌>>=◌,
}
use insitubatch.Geometry.{ArrayGeometry, Range, sample_chunk_size, tile_placement}
use insitubatch.Pool.State.{Key, Slot, find}
use insitubatch.Shuffle.{Row}
use insitubatch.Source.{anchor_of, read_cid}

-- Whether the position lies in the selection.
unfoldable pub selects : List Range → List ℕ → Bool
selects [] [] = true
selects (r ∷ rs) (p ∷ ps) = (leb r.start p && ltb p r.stop) && selects rs ps
selects _ _ = false

-- Where an assignment from one selection to another takes the position from.
unfoldable pub taken_from : List Range → List Range → List ℕ → List ℕ
taken_from (d ∷ dst) (s ∷ src) (p ∷ ps) = (s.start + (p - d.start)) ∷ taken_from dst src ps
taken_from _ _ _ = []

-- `[1:]`
abbrev pub behind : List Range → List Range
behind [] = []
behind (r ∷ rs) = rs

-- `(anchor + geom.offset) % spc`, of one row
unfoldable pub within_of : ArrayGeometry → ℕ → Row → ℕ
within_of geom spc row = pos_part (pos (anchor_of spc row) +ℤ geom.offset) % sample_chunk_size geom

module _ {V : Type 0} where
  -- `out[(mask, *dst[1:])] = tile[(rows, *src[1:])]`: the masked rows, each at its own sample.
  unfoldable pub write_tile :
      ArrayGeometry
      → ℕ
      → List ℕ
      → List ℕ
      → (ℕ → List ℕ → V)
      → List ℕ × (List ℕ → V)
      → ℕ
      → List ℕ
      → V
  write_tile tile_geom cid cids withins out (coord, tile) i p =
      let proj = tile_placement tile_geom cid coord in
      let dst = behind proj.out_selection in
      let src = behind proj.chunk_selection in
      if (get_or (map (λ c. c == cid) cids) i false && selects dst p)
      then tile (get_or withins i 0 ∷ taken_from dst src p)
      else out i p

  -- `for coord, tile in slot.tiles.items()`
  unfoldable pub write_tiles :
      ArrayGeometry
      → ℕ
      → List ℕ
      → List ℕ
      → List (List ℕ × (List ℕ → V))
      → (ℕ → List ℕ → V)
      → ℕ
      → List ℕ
      → V
  write_tiles tile_geom cid cids withins [] out = out
  write_tiles tile_geom cid cids withins (t ∷ tiles) out =
      write_tiles tile_geom cid cids withins tiles (write_tile tile_geom cid cids withins out t)

  module _ (slots : List (Key × Slot (List ℕ → V))) (unique : List ℕ → List ℕ) where
    -- `for cid in np.unique(read_cid)`; a chunk that is not resident is a `KeyError`.
    unfoldable pub write_chunks :
        String
        → ArrayGeometry
        → List ℕ
        → List ℕ
        → List ℕ
        → (ℕ → List ℕ → V)
        → Option (ℕ → List ℕ → V)
    write_chunks path tile_geom cids withins [] out = some out
    write_chunks path tile_geom cids withins (cid ∷ rest) out =
        elim (find (record { path = path; chunk = cid }) slots) [
          | none ↦ none
          | some slot ↦
              write_chunks path tile_geom cids withins rest
                (write_tiles tile_geom cid cids withins slot.tiles out)
        ]

    -- One variable of `gather`: its source geometry and the one of its slots' tiles.
    unfoldable pub gather_variable :
        ArrayGeometry → ArrayGeometry → ℕ → List Row → (ℕ → List ℕ → V) → Option (ℕ → List ℕ → V)
    gather_variable geom tile_geom spc rows blank =
        let cids = map (read_cid geom spc) rows in
        let withins = map (within_of geom spc) rows in
        write_chunks geom.path tile_geom cids withins (unique cids) blank

    -- The loop of `gather` over the variables: for each its label, its source geometry and the one of its
    -- slots' tiles, which is the output's where chunks are kept whole.
    unfoldable pub gather_from :
        List (String × (ArrayGeometry × ArrayGeometry))
        → ℕ
        → List Row
        → (ℕ → List ℕ → V)
        → Option (List (String × (ℕ → List ℕ → V)))
    gather_from [] spc rows blank = some []
    gather_from ((label, (geom, tile_geom)) ∷ variables) spc rows blank = do
      out ← gather_variable geom tile_geom spc rows blank
      rest ← gather_from variables spc rows blank
      some ((label, out) ∷ rest)

  -- `_assemble`: a slot's tiles in one array, over what the buffer held.
  unfoldable pub assemble :
      ArrayGeometry → ℕ → List (List ℕ × (List ℕ → V)) → (List ℕ → V) → List ℕ → V
  assemble geom chunk_index [] buffer = buffer
  assemble geom chunk_index ((coord, tile) ∷ tiles) buffer =
      let proj = tile_placement geom chunk_index coord in
      assemble geom chunk_index tiles (λ p.
        if selects proj.out_selection p
        then tile (taken_from proj.out_selection proj.chunk_selection p)
        else buffer p)

-- `Batch`
pub record Batch (V : Type 0) : Type 0 where
  pub arrays : List (String × (ℕ → List ℕ → V))
  pub sample_indices : List ℕ
  pub offsets : List (String × ℤ)

-- `gather`, on the variables' source and output geometries.
unfoldable pub gather :
    {V : Type 0}
    → List (Key × Slot (List ℕ → V))
    → (List ℕ → List ℕ)
    → Bool
    → List (String × (ArrayGeometry × ArrayGeometry))
    → ℕ
    → List Row
    → (ℕ → List ℕ → V)
    → Option (Batch V)
gather slots unique whole_chunks variables spc rows blank = do
  arrays ←
      gather_from slots unique
        (map (λ v. (v.0, (v.1.0, if whole_chunks then v.1.1 else v.1.0))) variables) spc rows blank
  some (record {
    arrays = arrays;
    sample_indices = map (anchor_of spc) rows;
    offsets = map (λ v. (v.0, v.1.0.offset)) variables;
  })
