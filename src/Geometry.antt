-- ===== src/Geometry.antt =====
-- src/insitubatch/types.py: `ArrayGeometry`, the chunk grid of one zarr array, and the reads that
-- are addressed by it. A tuple of axis lengths is a list; the dtype is its name and item size.
pub mod Samples
pub mod Grid
pub mod Tiles
use Prim.Native.String.{String}
use insitubatch.Base.Arith.{ceil_div}
use insitubatch.Base.Int.{ℤ, ◌+ℤ◌, scale, int64}
use insitubatch.Base.{
  ℕ, ◌+◌, ◌-◌, ◌*◌, ◌/◌, ◌<◌, ◌≡◌, Bool, true, ◌&&◌, List, [], ◌∷◌, ◌++◌, map, flat_map, Option,
  none, some, min, ltb, ◌==◌, if◌then◌else◌, length, get_or, take, drop, range_from, product, All,
}

pub record Dtype : Type 0 where
  pub name : String
  pub itemsize : ℕ

pub record ArrayGeometry : Type 0 where
  pub path : String
  pub shape : List ℕ
  pub chunks : List ℕ
  pub dtype : Dtype
  pub offset : ℤ
  pub sample_axis : ℕ

pub data Error : Type 0 where
  value_error : Error

-- `__post_init__`: the sample axis must be one of the array's axes.
unfoldable pub post_init : ArrayGeometry → Option Error
post_init g = if ltb g.sample_axis (length g.shape) then none else some value_error

-- `shift`
unfoldable pub shift : ArrayGeometry → ℤ → ArrayGeometry
shift g k = record g { offset = g.offset +ℤ k }

-- `_drop_sample`, over the sample axis: `dims[:ax] + dims[ax + 1:]`
unfoldable pub drop_sample : ℕ → List ℕ → List ℕ
drop_sample ax dims = take ax dims ++ drop (ax + 1) dims

-- `physical_chunk_coord`, over the sample axis
unfoldable pub physical_chunk_coord : ℕ → ℕ → List ℕ → List ℕ
physical_chunk_coord ax chunk_index inner_coord =
    take ax inner_coord ++ chunk_index ∷ drop ax inner_coord

-- An index out of range is an `IndexError` in the source; here it reads 0, and `IsValid` excludes it.
unfoldable pub n_samples : ArrayGeometry → ℕ
n_samples g = get_or g.shape g.sample_axis 0

unfoldable pub sample_chunk_size : ArrayGeometry → ℕ
sample_chunk_size g = get_or g.chunks g.sample_axis 0

unfoldable pub inner_shape : ArrayGeometry → List ℕ
unfolding drop_sample
inner_shape g = drop_sample g.sample_axis g.shape

unfoldable pub inner_chunks : ArrayGeometry → List ℕ
unfolding drop_sample
inner_chunks g = drop_sample g.sample_axis g.chunks

-- What zarr guarantees of an array's metadata: as many chunk lengths as axes, and none is 0.
pub record IsValid (g : ArrayGeometry) : Type 0 where
  pub axis : g.sample_axis < length g.shape
  pub same_rank : length g.chunks ≡ length g.shape
  pub positive : All (λ c. 0 < c) g.chunks

unfoldable pub n_chunks : ArrayGeometry → ℕ
n_chunks g = ceil_div (n_samples g) (sample_chunk_size g)

unfoldable pub chunk_of : ArrayGeometry → ℕ → ℕ
chunk_of g sample_index = sample_index / sample_chunk_size g

-- `range(start, stop)`
pub record Range : Type 0 where
  pub start : ℕ
  pub stop : ℕ

abbrev pub len : Range → ℕ
len r = r.stop - r.start

abbrev pub to_list : Range → List ℕ
to_list r = range_from r.start (len r)

unfoldable pub samples_in_chunk : ArrayGeometry → ℕ → Range
samples_in_chunk g chunk_index =
    let start = chunk_index * sample_chunk_size g in
    record { start = start; stop = min (start + sample_chunk_size g) (n_samples g) }

-- The lengths of the ranges of `inner_grid`. (`zip(..., strict=True)` raises on unequal ranks, which
-- `IsValid` excludes.)
unfoldable pub grid_of : List ℕ → List ℕ → List ℕ
grid_of (s ∷ ss) (c ∷ cs) = ceil_div s c ∷ grid_of ss cs
grid_of _ _ = []

unfoldable pub inner_grid : ArrayGeometry → List ℕ
unfolding grid_of
inner_grid g = grid_of (inner_shape g) (inner_chunks g)

-- `itertools.product` of the ranges below each length: the last axis runs fastest.
unfoldable pub coords_of : List ℕ → List (List ℕ)
coords_of [] = [] ∷ []
coords_of (n ∷ ns) = flat_map (λ i. map (◌∷◌ i) (coords_of ns)) (range_from 0 n)

unfoldable pub inner_coords : ArrayGeometry → List (List ℕ)
unfolding coords_of
inner_coords g = coords_of (inner_grid g)

-- `n_inner_chunks` does not read the chunk index.
unfoldable pub n_inner_chunks : ArrayGeometry → ℕ
n_inner_chunks g = product (inner_grid g)

-- The loop of `inner_index`; the strict `zip` raises on a coordinate of another rank.
unfoldable pub index_from : ℕ → List ℕ → List ℕ → Option ℕ
index_from idx [] [] = some idx
index_from idx (n ∷ grid) (i ∷ coord) = index_from (idx * n + i) grid coord
index_from idx _ _ = none

unfoldable pub inner_index : ArrayGeometry → List ℕ → Option ℕ
unfolding index_from
inner_index g inner_coord = index_from 0 (inner_grid g) inner_coord

unfoldable pub slot_shape : ArrayGeometry → ℕ → List ℕ
slot_shape g chunk_index = len (samples_in_chunk g chunk_index) ∷ inner_shape g

unfoldable pub tile_shape : ArrayGeometry → List ℕ
tile_shape g = sample_chunk_size g ∷ inner_chunks g

-- `np.prod` of 64-bit integers wraps; Python's own products do not.
unfoldable pub chunk_bytes : ArrayGeometry → ℤ
chunk_bytes g = scale g.dtype.itemsize (scale (n_inner_chunks g) (int64 (product (tile_shape g))))

-- zarr's `ChunkProjection`: the fields that the source fills in. A slice is a range.
pub record ChunkProjection : Type 0 where
  pub chunk_coords : List ℕ
  pub chunk_selection : List Range
  pub out_selection : List Range
  pub is_complete_chunk : Bool

-- The loop of `tile_placement` over the inner axes: `slice(i * c, min(i * c + c, s))`.
unfoldable pub out_slices : List ℕ → List ℕ → List ℕ → List Range
out_slices (i ∷ is) (c ∷ cs) (s ∷ ss) =
    record { start = i * c; stop = min (i * c + c) s } ∷ out_slices is cs ss
out_slices _ _ _ = []

-- `slice(0, sl.stop - sl.start)`
abbrev pub at_origin : Range → Range
at_origin sl = record { start = 0; stop = len sl }

unfoldable pub all_full : List Range → List ℕ → Bool
all_full (sl ∷ sls) (n ∷ ns) = sl.stop == n && all_full sls ns
all_full _ _ = true

unfoldable pub tile_placement : ArrayGeometry → ℕ → List ℕ → ChunkProjection
unfolding out_slices all_full
tile_placement g chunk_index inner_coord =
    let out =
      record { start = 0; stop = len (samples_in_chunk g chunk_index) }
      ∷ out_slices inner_coord (inner_chunks g) (inner_shape g) in
    let chunk = map at_origin out in
    record {
      chunk_coords = chunk_index ∷ inner_coord;
      chunk_selection = chunk;
      out_selection = out;
      is_complete_chunk = all_full chunk (tile_shape g);
    }
