-- ===== src/Geometry/Grid.antt =====
-- types.py, the inner grid: the row-major numbering of the stored tiles.
use mathlib.Core.List.{map-append}
use insitubatch.Base.{
  ℕ, zero, suc, ◌+◌, ◌*◌, ◌≡◌, refl, ap, ap₂, sym, ◌∙◌, List, [], ◌∷◌, ◌++◌, map, flat_map, some,
  arith, length, length-map, length-range_from, range_from, range_from-append, product,
}
use insitubatch.Geometry.{
  ArrayGeometry, coords_of, inner_coords, inner_grid, index_from, inner_index, n_inner_chunks,
}

index_from-cons :
    (idx n i : ℕ) (grid : List ℕ) (cs : List (List ℕ))
    → map (index_from idx (n ∷ grid)) (map (◌∷◌ i) cs) ≡ map (index_from (idx * n + i) grid) cs
unfolding index_from
index_from-cons idx n i grid [] = refl
index_from-cons idx n i grid (c ∷ cs) =
    ap (◌∷◌ (index_from (idx * n + i) grid c)) (index_from-cons idx n i grid cs)

-- The tiles that start with the indices `k, k + 1, ...` of the first axis.
index_from-rows :
    (idx n : ℕ) (grid : List ℕ)
    → ((j : ℕ)
        → map (index_from j grid) (coords_of grid)
          ≡ map some (range_from (j * product grid) (product grid)))
    → (m k : ℕ)
    → map
        (index_from idx (n ∷ grid))
        (flat_map (λ i. map (◌∷◌ i) (coords_of grid)) (range_from k m))
      ≡ map some (range_from ((idx * n + k) * product grid) (m * product grid))
unfolding flat_map
index_from-rows idx n grid ih zero k = let e : 0 * product grid ≡ 0 = omega arith in rw e refl
index_from-rows idx n grid ih (suc m) k =
    let p = product grid in
    let j = idx * n + k in
    let joined : range_from (j * p) p ++ range_from ((idx * n + suc k) * p) (m * p)
        ≡ range_from (j * p) (suc m * p) =
      range_from-append (j * p) p _ (m * p) (omega arith) ∙ ap (range_from (j * p)) (omega arith) in
    map-append (index_from idx (n ∷ grid)) (map (◌∷◌ k) (coords_of grid)) _
    ∙ ap₂ ◌++◌ (index_from-cons idx n k grid (coords_of grid) ∙ ih j)
        (index_from-rows idx n grid ih m (suc k))
    ∙ sym (map-append some (range_from (j * p) p) _)
    ∙ ap (map some) joined

index_from-coords :
    (grid : List ℕ) (idx : ℕ)
    → map (index_from idx grid) (coords_of grid)
      ≡ map some (range_from (idx * product grid) (product grid))
unfolding coords_of index_from
index_from-coords [] idx = let e : idx * 1 ≡ idx = omega arith in rw e refl
index_from-coords (n ∷ grid) idx =
    let assoc : (idx * n + 0) * product grid ≡ idx * (n * product grid) = omega arith in
    index_from-rows idx n grid (index_from-coords grid) n 0
    ∙ ap (λ s. map some (range_from s (n * product grid))) assoc

-- `inner_index` numbers the coordinates of `inner_coords` 0, 1, ..., in the order in which they are
-- listed, and there are `n_inner_chunks` of them.
pub inner_index-inner_coords :
    (g : ArrayGeometry)
    → (map (inner_index g) (inner_coords g) ≡ map some (range_from 0 (n_inner_chunks g)))
      × (length (inner_coords g) ≡ n_inner_chunks g)
unfolding inner_index inner_coords n_inner_chunks
inner_index-inner_coords g =
    let grid = inner_grid g in
    let z : 0 * product grid ≡ 0 = omega arith in
    let numbered : map (index_from 0 grid) (coords_of grid)
        ≡ map some (range_from 0 (product grid)) =
      rw z at (index_from-coords grid 0) in
    (
      numbered,
      sym (length-map (index_from 0 grid) (coords_of grid))
          ∙ ap length numbered
          ∙ length-map some (range_from 0 (product grid))
          ∙ length-range_from 0 (product grid),
    )
