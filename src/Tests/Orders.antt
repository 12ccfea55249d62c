-- ===== src/Tests/Orders.antt =====
-- Splits, read plans and draw orders of an array of five samples in chunks of two.
use mathlib.Core.List.Perm as Perm
use mathlib.Core.List.{reverse_perm}
use insitubatch.Base.Int.{ℤ, pos, negsuc, ◌+ℤ◌, ◌≤ℤ◌, ◌<ℤ◌}
use insitubatch.Base.{
  ℕ, ◌+◌, ◌*◌, ◌<◌, ◌≤◌, ◌≡◌, ◌↔◌, refl, true, false, List, [], ◌∷◌, ◌++◌, map, flat_map, flatten,
  some, none, Mem, Perm, All, reverse, min, range_from, get_or, length, arith,
}
use insitubatch.Geometry.{
  ArrayGeometry, IsValid, drop_sample, n_samples, sample_chunk_size, n_chunks, chunk_of,
  samples_in_chunk, to_list,
}
use insitubatch.Split.{
  SplitManifest, train, val, test, sample_indices, insert, sorted, selected, Numerics, position,
  slice_of, divide, split_by_chunk, valid_anchor_range,
}
use insitubatch.Split.Anchors.{InArray, valid_anchor_range_iff}
use insitubatch.Split.Partition.{
  all_chunks, split_by_chunk-partition, split_by_chunk-samples, selected_iff,
}
use insitubatch.Plan.{StoredChunkRead, read_chunks, wanted, seen_in, build_stored_chunk_reads}
use insitubatch.Plan.Anchors.{read_chunks-covers}
use insitubatch.Plan.Dedup.{
  block_reads, offsets, NonEmpty, NoRepeats, build_stored_chunk_reads-blocks,
  build_stored_chunk_reads-once,
}
use insitubatch.Shuffle.{
  Row, chunk_rows, from_blocks, n_blocks, Generator, block_shuffled_order, sequential_order,
}
use insitubatch.Shuffle.Orders.{
  rows_of, sample_of, sequential_order-rows, from_blocks-block, block_shuffled_order-samples,
}

program : Unit {0}
unfolding ◌+ℤ◌ drop_sample n_samples sample_chunk_size n_chunks chunk_of samples_in_chunk insert
    sorted selected position slice_of divide split_by_chunk valid_anchor_range
program = tt

-- Every variable reads the sample before its anchor.
abbrev geom : ArrayGeometry
geom = record {
  path = "t2m";
  shape = 5 ∷ [];
  chunks = 2 ∷ [];
  dtype = record { name = "float32"; itemsize = 4 };
  offset = negsuc 0;
  sample_axis = 0;
}

geom-IsValid : IsValid geom
geom-IsValid = record { axis = omega arith; same_rank = refl; positive = (omega arith, tt) }

-- A third of three chunks to each split, and a permutation that keeps the order.
abbrev num : Numerics
num = record {
  permutation = λ seed l. l;
  sums_to_one = true;
  train_share = λ n. pos 1;
  val_share = λ n. pos 1;
}

some_third : (n : ℕ) → pos 0 ≤ℤ pos 1
some_third n = omega arith

keeps {ℓ} : {A : Type ℓ} (l : List A) → Perm l l
keeps l = Perm.refl l

abbrev thirds : SplitManifest
thirds = record {
  n_chunks = 3;
  sample_chunk_size = 2;
  n_samples = 5;
  train_chunks = 0 ∷ [];
  val_chunks = 1 ∷ [];
  test_chunks = 2 ∷ [];
  seed = 7;
}

thirds_split : split_by_chunk num geom 7 false none ≡ some thirds
unfolding program
thirds_split = refl

split_by_chunk-samples_example :
    Perm
      (sample_indices thirds train geom
        ++ (sample_indices thirds val geom ++ sample_indices thirds test geom))
      (range_from 0 (n_samples geom))
split_by_chunk-samples_example =
    split_by_chunk-samples num geom 7 false thirds geom-IsValid some_third some_third keeps
      thirds_split

-- A negative train share of three chunks: the first two are in train, the second also in test.
in_two_splits :
    divide
      (record num { train_share = λ n. negsuc 0; val_share = λ n. pos 2 })
      geom
      7
      (0 ∷ 1 ∷ 2 ∷ [])
    ≡ record thirds { train_chunks = 0 ∷ 1 ∷ []; val_chunks = []; test_chunks = 1 ∷ 2 ∷ [] }
unfolding program
in_two_splits = refl

all_selected : selected geom none ≡ some (0 ∷ 1 ∷ 2 ∷ [])
unfolding program
all_selected = refl

split_by_chunk-partition_example : Perm (all_chunks thirds) (0 ∷ 1 ∷ 2 ∷ [])
split_by_chunk-partition_example =
    split_by_chunk-partition num geom 7 false none (0 ∷ 1 ∷ 2 ∷ []) thirds some_third some_third
      keeps all_selected thirds_split

-- The samples 1 and 2 are in two chunks.
window : selected geom (some (1, 3)) ≡ some (0 ∷ 1 ∷ [])
unfolding program
window = refl

abbrev in_window : List ℕ
in_window = 0 ∷ 1 ∷ []

selected_iff_example :
    Mem 1 in_window ↔ ((1 * sample_chunk_size geom < 3) × (1 < (1 + 1) * sample_chunk_size geom))
selected_iff_example = selected_iff geom 1 3 1 (0 ∷ 1 ∷ []) geom-IsValid window

abbrev three : List ℤ
three = negsuc 0 ∷ pos 0 ∷ pos 1 ∷ []

three_range : valid_anchor_range three 5 ≡ (pos 1, pos 4)
unfolding program
three_range = refl

valid_anchor_range_iff_example :
    (((valid_anchor_range three 5).0 ≤ℤ pos 2) × (pos 2 <ℤ (valid_anchor_range three 5).1))
    ↔ ((2 < 5) × All (InArray 5 2) three)
valid_anchor_range_iff_example = valid_anchor_range_iff three 5 2

-- The anchor 2 of chunk 1 reads the sample 1.
back_one : (pos 2 +ℤ geom.offset) ≡ pos 1
unfolding program
back_one = refl

anchor_inside : 2 < min (1 * 2 + 2) (n_samples geom)
unfolding program
anchor_inside = omega arith

sample_inside : 1 < n_samples geom
unfolding program
sample_inside = omega arith

read_chunks-covers_example :
    ((read_chunks geom 1 2).start ≤ chunk_of geom 1)
    × (chunk_of geom 1 < (read_chunks geom 1 2).stop)
read_chunks-covers_example =
    read_chunks-covers geom 1 2 2 1 (omega arith) anchor_inside sample_inside back_one

-- Two blocks that read chunk 0 both.
abbrev blocks : List (List ℕ)
blocks = (0 ∷ []) ∷ (1 ∷ 2 ∷ []) ∷ []

blocks-NonEmpty : NonEmpty (geom ∷ []) 2 blocks
blocks-NonEmpty = ((λ p. cc), ((λ p. cc), tt))

build_stored_chunk_reads-blocks_example :
    build_stored_chunk_reads (geom ∷ []) 2 (flatten blocks) (map length blocks) ≡ record {
      reads = flat_map (block_reads (geom ∷ []) 2) blocks;
      block_starts = offsets (geom ∷ []) 2 0 blocks;
    }
build_stored_chunk_reads-blocks_example =
    build_stored_chunk_reads-blocks (geom ∷ []) 2 blocks blocks-NonEmpty

build_stored_chunk_reads-once_example :
    NoRepeats (build_stored_chunk_reads (geom ∷ []) 2 (0 ∷ 1 ∷ 0 ∷ []) []).reads
    × ((read : StoredChunkRead)
        → seen_in read (build_stored_chunk_reads (geom ∷ []) 2 (0 ∷ 1 ∷ 0 ∷ []) []).reads
          ≡ seen_in read (flat_map (wanted (geom ∷ []) 2) (0 ∷ 1 ∷ 0 ∷ [])))
build_stored_chunk_reads-once_example = build_stored_chunk_reads-once (geom ∷ []) 2 (0 ∷ 1 ∷ 0 ∷ [])

abbrev rng : Generator
rng = record { permutation = λ seed epoch l. reverse l; shuffle = λ seed epoch n l. reverse l }

reversed : (l : List ℕ) → Perm (reverse l) l
reversed l = reverse_perm l

reversed_rows : (n : ℕ) (l : List Row) → Perm (reverse l) l
reversed_rows n l = reverse_perm l

block_shuffled_order-samples_example :
    Perm
      (map
        (sample_of (sample_chunk_size geom))
        (block_shuffled_order rng
          (0 ∷ 1 ∷ 2 ∷ [])
          (sample_chunk_size geom)
          (n_samples geom)
          2
          7
          0).rows)
      (flat_map (λ c. to_list (samples_in_chunk geom c)) (0 ∷ 1 ∷ 2 ∷ []))
block_shuffled_order-samples_example =
    block_shuffled_order-samples geom rng (0 ∷ 1 ∷ 2 ∷ []) 2 7 0 reversed reversed_rows
      (omega arith)

sequential_order-rows_example :
    (sequential_order (0 ∷ 1 ∷ 2 ∷ []) 2 5 2).rows ≡ flat_map (chunk_rows 2 5) (0 ∷ 1 ∷ 2 ∷ [])
sequential_order-rows_example = sequential_order-rows (0 ∷ 1 ∷ 2 ∷ []) 2 5 2 (omega arith)

abbrev laid : List (List Row)
laid = ((0, 0) ∷ (0, 1) ∷ []) ∷ ((1, 0) ∷ []) ∷ []

from_blocks-block_example :
    (n_blocks (from_blocks laid) ≡ length laid) × (rows_of (from_blocks laid) 1 ≡ get_or laid 1 [])
from_blocks-block_example = from_blocks-block laid 1 (omega arith)
