-- ===== src/Tests/Geometries.antt =====
-- An array of three axes, sampled along the second, with ragged chunks on every axis.
use insitubatch.Base.Int.{pos}
use insitubatch.Base.{
  ℕ, ◌*◌, ◌^◌, ◌<◌, ◌≤◌, ◌≡◌, ◌↔◌, refl, List, [], ◌∷◌, map, flat_map, some, length, product,
  get_or, range_from, arith,
}
use insitubatch.Geometry.{
  ArrayGeometry, IsValid, drop_sample, physical_chunk_coord, n_samples, sample_chunk_size,
  inner_shape, inner_chunks, n_chunks, chunk_of, len, to_list, samples_in_chunk, grid_of,
  inner_grid, inner_coords, n_inner_chunks, inner_index, slot_shape, tile_shape, chunk_bytes,
  tile_placement,
}
use insitubatch.Geometry.Samples.{
  samples_in_chunk_iff, samples-of-chunks, drop_sample-physical_chunk_coord,
}
use insitubatch.Geometry.Grid.{inner_index-inner_coords}
use insitubatch.Geometry.Tiles.{
  Inside, Below, tile_of, SameSize, tile_placement_iff, tile_placement-SameSize, stored,
  chunk_bytes-stored,
}

program : Unit {0}
unfolding drop_sample n_samples sample_chunk_size inner_shape inner_chunks samples_in_chunk grid_of
    inner_grid
program = tt

abbrev geom : ArrayGeometry
geom = record {
  path = "cells";
  shape = 5 ∷ 7 ∷ 3 ∷ [];
  chunks = 2 ∷ 3 ∷ 2 ∷ [];
  dtype = record { name = "uint16"; itemsize = 2 };
  offset = pos 0;
  sample_axis = 1;
}

geom-IsValid : IsValid geom
geom-IsValid = record {
  axis = omega arith;
  same_rank = refl;
  positive = (omega arith, (omega arith, (omega arith, tt)));
}

samples_in_chunk_iff_example :
    (((samples_in_chunk geom 2).start ≤ 6) × (6 < (samples_in_chunk geom 2).stop))
    ↔ ((6 < n_samples geom) × (chunk_of geom 6 ≡ 2))
samples_in_chunk_iff_example = samples_in_chunk_iff geom 2 6 geom-IsValid

samples-of-chunks_example :
    flat_map (λ c. to_list (samples_in_chunk geom c)) (range_from 0 (n_chunks geom))
    ≡ range_from 0 (n_samples geom)
samples-of-chunks_example = samples-of-chunks geom geom-IsValid

drop_sample-physical_chunk_coord_example :
    (drop_sample 1 (physical_chunk_coord 1 2 (0 ∷ 1 ∷ [])) ≡ 0 ∷ 1 ∷ [])
    × (get_or (physical_chunk_coord 1 2 (0 ∷ 1 ∷ [])) 1 0 ≡ 2)
drop_sample-physical_chunk_coord_example =
    drop_sample-physical_chunk_coord 1 2 (0 ∷ 1 ∷ []) (omega arith)

inner_index-inner_coords_example :
    (map (inner_index geom) (inner_coords geom) ≡ map some (range_from 0 (n_inner_chunks geom)))
    × (length (inner_coords geom) ≡ n_inner_chunks geom)
inner_index-inner_coords_example = inner_index-inner_coords geom

row_inside : 0 < len (samples_in_chunk geom 2)
unfolding program
row_inside = omega arith

position_inside : Below (4 ∷ 2 ∷ []) (inner_shape geom)
unfolding program
position_inside = (omega arith, (omega arith, tt))

abbrev coord : List ℕ
coord = 2 ∷ 1 ∷ []

coord_inside : Below (2 ∷ 1 ∷ []) (inner_grid geom)
unfolding program
coord_inside = (omega arith, (omega arith, tt))

tile_placement_iff_example :
    (Inside (0 ∷ 4 ∷ 2 ∷ []) (tile_placement geom 2 (2 ∷ 1 ∷ [])).out_selection
      ↔ (coord ≡ tile_of (4 ∷ 2 ∷ []) (inner_chunks geom)))
    × Below (tile_of (4 ∷ 2 ∷ []) (inner_chunks geom)) (inner_grid geom)
tile_placement_iff_example =
    tile_placement_iff geom 2 0 (4 ∷ 2 ∷ []) (2 ∷ 1 ∷ []) geom-IsValid row_inside position_inside
      coord_inside

two_axes : length coord ≡ length (inner_shape geom)
unfolding program
two_axes = refl

tile_placement-SameSize_example :
    SameSize
      (tile_placement geom 2 (2 ∷ 1 ∷ [])).chunk_selection
      (tile_placement geom 2 (2 ∷ 1 ∷ [])).out_selection
      (tile_shape geom)
tile_placement-SameSize_example = tile_placement-SameSize geom 2 (2 ∷ 1 ∷ []) geom-IsValid two_axes

tile_fits : product (tile_shape geom) < 2 ^ 63
unfolding program tile_shape
tile_fits = omega arith

chunk_bytes-stored_example :
    let extent = sample_chunk_size geom ∷ stored (inner_shape geom) (inner_chunks geom) in
    (chunk_bytes geom ≡ pos (geom.dtype.itemsize * product extent))
    × (product (slot_shape geom 2) ≤ product extent)
chunk_bytes-stored_example = chunk_bytes-stored geom 2 geom-IsValid tile_fits
