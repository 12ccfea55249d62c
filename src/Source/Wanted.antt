-- ===== src/Source/Wanted.antt =====
-- plan.py, `wanted`: the tiles of the chunks that the rows of a pass read.
use mathlib.Core.List.{mem-cons_self, mem-cons_of_mem, not-mem-nil, mem_of_ne_of_mem}
use insitubatch.Base.Int.{ℤ, pos, pos_part, ◌+ℤ◌, floor_div, ◌≤ℤ◌, ◌<ℤ◌, pos_of_nonneg}
use insitubatch.Base.Perms.{mem-range_from}
use insitubatch.Base.{
  ℕ, ◌+◌, ◌-◌, ◌*◌, ◌<◌, ◌≡◌, refl, sym, ap, ap₂, subst, ◌∙◌, Bool, true, ◌||◌, List, [], ◌∷◌, ◌++◌,
  map, flat_map, if_pos, Mem, All, ℕ_discrete, arith,
}
use insitubatch.Geometry.{
  ArrayGeometry, n_samples, sample_chunk_size, inner_coords, chunk_of, to_list,
}
use insitubatch.Plan.{
  StoredChunkRead, StoredChunkRead-discrete, seen_in, read_chunks, reads_for, wanted,
}
use insitubatch.Plan.Anchors.{read_chunks-covers}
use insitubatch.Pool.State.{Key}
use insitubatch.Shuffle.{Row}
use insitubatch.Source.{anchor_of, read_cid}
use insitubatch.Source.Anchors.{All-imply}
use insitubatch.Split.Anchors.{InArray}

-- The read of one tile of a chunk
abbrev pub tile_read : Key → List ℕ → StoredChunkRead
tile_read k coord = record { array = k.path; chunk_index = k.chunk; inner_coord = coord }

seen_in-append :
    (r : StoredChunkRead) (xs ys : List StoredChunkRead)
    → seen_in r (xs ++ ys) ≡ (seen_in r xs || seen_in r ys)
unfolding seen_in
seen_in-append r [] ys = refl
seen_in-append r (x ∷ xs) ys = ground (arith, seen_in-append r xs ys)

seen_left :
    (r : StoredChunkRead) (xs ys : List StoredChunkRead)
    → seen_in r xs ≡ true
    → seen_in r (xs ++ ys) ≡ true
seen_left r xs ys h = seen_in-append r xs ys ∙ rw h refl

seen_right :
    (r : StoredChunkRead) (xs ys : List StoredChunkRead)
    → seen_in r ys ≡ true
    → seen_in r (xs ++ ys) ≡ true
seen_right r xs ys h = seen_in-append r xs ys ∙ or_right (seen_in r xs) (seen_in r ys) h
  where
    or_right : (a b : Bool) → b ≡ true → (a || b) ≡ true
    or_right a b h = ground arith

pub seen_in-flat_map :
    (r : StoredChunkRead) (f : ℕ → List StoredChunkRead) (xs : List ℕ) (x : ℕ)
    → Mem x xs
    → seen_in r (f x) ≡ true
    → seen_in r (flat_map f xs) ≡ true
unfolding flat_map
seen_in-flat_map r f [] x m h = absurd (not-mem-nil m)
seen_in-flat_map r f (y ∷ xs) x m h = elim (ℕ_discrete x y) [
  | yes e ↦ seen_left r (f y) (flat_map f xs) (subst (λ z. seen_in r (f z) ≡ true) e h)
  | no ne ↦ seen_right r (f y) (flat_map f xs) (seen_in-flat_map r f xs x (mem_of_ne_of_mem ne m) h)
]

seen_in-map :
    (k : Key) (cs : List (List ℕ))
    → All (λ c. seen_in (tile_read k c) (map (tile_read k) cs) ≡ true) cs
unfolding seen_in
seen_in-map k [] = tt
seen_in-map k (c ∷ cs) = (
  if_pos (StoredChunkRead-discrete (tile_read k c) (tile_read k c)) refl true
      (seen_in (tile_read k c) (map (tile_read k) cs)),
  All-imply cs (λ d h. seen_right (tile_read k d) (tile_read k c ∷ []) (map (tile_read k) cs) h)
      (seen_in-map k cs),
)

-- A row of an anchor chunk of the pass, whose read is in the array.
abbrev pub RowOk : List ℕ → ℕ → ArrayGeometry → Row → Type 0
RowOk ids spc geom row =
    Mem row.0 ids
    × (row.1 < spc)
    × (anchor_of spc row < n_samples geom)
    × InArray (n_samples geom) (anchor_of spc row) geom.offset

module _ (spc : ℕ) (ids : List ℕ) where
  -- Every tile of the chunk that a row reads is wanted for the row's anchor chunk.
  reads_for-tiles :
      (geom : ArrayGeometry) (row : Row)
      → RowOk ids spc geom row
      → All
          (λ c.
            seen_in
              (tile_read (record { path = geom.path; chunk = read_cid geom spc row }) c)
              (reads_for spc row.0 geom)
            ≡ true)
          (inner_coords geom)
  unfolding reads_for read_cid anchor_of chunk_of
  reads_for-tiles geom row ok =
      let x = pos (row.0 * spc + row.1) +ℤ geom.offset in
      let s = pos_part x in
      let e : x ≡ pos s = pos_of_nonneg x ok.3.0 in
      let size = sample_chunk_size geom in
      let cid = pos_part (floor_div x size) in
      let chunk : chunk_of geom s ≡ cid = ap (λ y. pos_part (floor_div y size)) (sym e) in
      let inside : s < n_samples geom = nonneg_lt x (n_samples geom) ok.3.0 ok.3.1 in
      let covered =
        read_chunks-covers geom row.0 spc (row.0 * spc + row.1) s (omega arith)
          (omega (arith, ok.1, ok.2)) inside e in
      let range = read_chunks geom row.0 spc in
      let there : Mem cid (to_list range) =
        (mem-range_from range.start (range.stop - range.start) cid).1 (
          omega (arith, covered.0, covered.1, chunk),
          omega (arith, covered.0, covered.1, chunk),
        ) in
      let k : Key = record { path = geom.path; chunk = cid } in
      All-imply (inner_coords geom)
        (λ c h.
          seen_in-flat_map (tile_read k c)
            (λ q. map (tile_read (record { path = geom.path; chunk = q })) (inner_coords geom))
            (to_list range) cid there h)
        (seen_in-map k (inner_coords geom))
    where
      nonneg_lt : (x : ℤ) (n : ℕ) → pos 0 ≤ℤ x → x <ℤ pos n → pos_part x < n
      nonneg_lt x n h l = ground arith

  -- The tiles of the chunk are all wanted, for some anchor chunk of the pass.
  abbrev pub IsWanted : List ArrayGeometry → Key → Type 0
  IsWanted geometries k =
      (cid : ℕ) × Mem cid ids
      × (geom : ArrayGeometry) × Mem geom geometries
      × (geom.path ≡ k.path)
      × All (λ c. seen_in (tile_read k c) (wanted geometries spc cid) ≡ true) (inner_coords geom)

  pub IsWanted-cons :
      (g : ArrayGeometry) (geometries : List ArrayGeometry) (k : Key)
      → IsWanted geometries k
      → IsWanted (g ∷ geometries) k
  unfolding wanted flat_map
  IsWanted-cons g geometries k (cid, m, geom, there, e, all) = (
    cid,
    m,
    geom,
    mem-cons_of_mem g there,
    e,
    All-imply (inner_coords geom)
        (λ c h. seen_right (tile_read k c) (reads_for spc cid g) (wanted geometries spc cid) h) all,
  )

  pub row_of :
      (geom : ArrayGeometry) (rows : List Row) (c : ℕ)
      → All (RowOk ids spc geom) rows
      → Mem c (map (read_cid geom spc) rows)
      → (row : Row) × RowOk ids spc geom row × (read_cid geom spc row ≡ c)
  row_of geom [] c ok m = absurd (not-mem-nil m)
  row_of geom (row ∷ rows) c ok m = elim (ℕ_discrete c (read_cid geom spc row)) [
    | yes e ↦ (row, ok.0, sym e)
    | no ne ↦ row_of geom rows c ok.1 (mem_of_ne_of_mem ne m)
  ]

  pub IsWanted-row :
      (geom : ArrayGeometry) (geometries : List ArrayGeometry) (row : Row) (k : Key)
      → RowOk ids spc geom row
      → geom.path ≡ k.path
      → read_cid geom spc row ≡ k.chunk
      → IsWanted (geom ∷ geometries) k
  unfolding wanted flat_map
  IsWanted-row geom geometries row k ok path chunk =
      let q : Key = record { path = geom.path; chunk = read_cid geom spc row } in
      let same : q ≡ k = ap₂ (λ p c. record { path = p; chunk = c }) path chunk in
      (
        row.0,
        ok.0,
        geom,
        mem-cons_self,
        path,
        All-imply (inner_coords geom)
            (λ c h.
              seen_left (tile_read k c) (reads_for spc row.0 geom) (wanted geometries spc row.0)
                (subst (λ z. seen_in (tile_read z c) (reads_for spc row.0 geom) ≡ true) same h))
            (reads_for-tiles geom row ok),
      )
