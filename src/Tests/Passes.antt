-- ===== src/Tests/Passes.antt =====
-- Passes over small arrays: which rows are kept, what the producer does, and what a batch holds.
use Prim.Native.String.{String}
use mathlib.Core.List.{mem-cons_self, mem-cons_of_mem}
use insitubatch.Base.Arith.{ceil_div}
use insitubatch.Base.Int.{pos, negsuc, ◌+ℤ◌}
use insitubatch.Base.{
  true, length, ℕ, ◌≤◌, zero, suc, ◌+◌, ◌*◌, ◌≡◌, refl, Bool, false, List, [], ◌∷◌, ◌++◌, map,
  flatten, Option, none, some, ltb, ◌==◌, if◌then◌else◌, get_or, Mem, All, arith, ℕ_discrete,
}
use insitubatch.Geometry.{
  ArrayGeometry, IsValid, drop_sample, n_samples, sample_chunk_size, inner_shape, inner_chunks,
  grid_of, inner_grid,
}
use insitubatch.Geometry.Tiles.{Below}
use insitubatch.Pool.Gather.{gather_variable}
use insitubatch.Pool.Gather.Content.{array_position, Holds}
use insitubatch.Pool.Gather.Rows.{gather_variable-content}
use insitubatch.Pool.State.{Key, Key-discrete, Slot, ready, find}
use insitubatch.Shuffle.{Row, cumulative, from_blocks, keep}
use insitubatch.Shuffle.Keep.{below, IsSearchsorted, select, nonempty, keep-from_blocks}
use insitubatch.Source.{
  next_size, read_ahead_bound, last_use, Block, anchor_of, read_cid, drop_edge_anchors, blocks,
  key_in, release, release_plan,
}
use insitubatch.Source.Anchors.{reads_inside, drop_edge_anchors-from_blocks}
use insitubatch.Source.ReadAhead.{NoRepeatedKeys, read_ahead_bound-live}
use insitubatch.Source.Pass.{produce-Served, produce-Frontiers}
use insitubatch.Source.Produced.{produce-puts}
use insitubatch.Source.Rounds.{puts, pieces}
use insitubatch.Source.Producer.{Site, at_transforms, put_batch, put_sentinel, produce}
use insitubatch.Source.LastUse.{reads_any, last_flags}
use insitubatch.Source.Release.{release-last}
use insitubatch.Source.Served.{Served}
use insitubatch.Source.Frontiers.{Frontiers}

program : Unit {0}
unfolding ◌+ℤ◌ drop_sample n_samples sample_chunk_size inner_shape inner_chunks grid_of inner_grid
    anchor_of read_cid find from_blocks cumulative Key-discrete ℕ_discrete
program = tt

-- numpy's `searchsorted` and `unique`, as far as they are used here
abbrev count_below : List ℕ → ℕ → ℕ
count_below a v = below v a

count_below-IsSearchsorted : IsSearchsorted count_below
count_below-IsSearchsorted a v h = refl

abbrev same : List ℕ → List ℕ
same xs = xs

-- Two blocks, the second of which is emptied.
abbrev two_blocks : List (List Row)
two_blocks = ((0, 0) ∷ (0, 1) ∷ []) ∷ ((1, 0) ∷ []) ∷ []

abbrev is_odd_row : Row → Bool
is_odd_row r = ltb 0 r.1

keep-from_blocks_example :
    keep count_below (from_blocks two_blocks) (map is_odd_row (from_blocks two_blocks).rows)
    ≡ from_blocks (((0, 1) ∷ []) ∷ [])
keep-from_blocks_example =
    keep-from_blocks count_below is_odd_row two_blocks count_below-IsSearchsorted

-- Five samples of three values, in chunks of two samples and two values; each is read one sample back.
abbrev geom : ArrayGeometry
geom = record {
  path = "t2m";
  shape = 5 ∷ 3 ∷ [];
  chunks = 2 ∷ 2 ∷ [];
  dtype = record { name = "float32"; itemsize = 4 };
  offset = negsuc 0;
  sample_axis = 0;
}

geom-IsValid : IsValid geom
geom-IsValid = record {
  axis = omega arith;
  same_rank = refl;
  positive = (omega arith, (omega arith, tt));
}

drop_edge_anchors-from_blocks_example :
    drop_edge_anchors count_below (geom ∷ []) (from_blocks two_blocks) 2 5
    ≡ from_blocks (nonempty (map (select (reads_inside (geom ∷ []) 2 5)) two_blocks))
unfolding program
drop_edge_anchors-from_blocks_example =
    drop_edge_anchors-from_blocks (geom ∷ []) 2 5 count_below two_blocks count_below-IsSearchsorted
      (omega arith, (omega arith, tt)) ((omega arith, (omega arith, tt)), ((omega arith, tt), tt))

abbrev plan : List (Block × List Key)
plan = release_plan false (blocks same (geom ∷ []) (from_blocks two_blocks) 2)

abbrev rows : List Row
rows = (0, 0) ∷ (0, 1) ∷ (1, 0) ∷ []

produce-puts_example :
    let cut = pieces (ceil_div 3 2) 2 rows in
    (puts (produce (λ site. none) (λ start. false) 2 rows plan)
      ≡ map put_batch cut ++ put_sentinel ∷ [])
    × (flatten cut ≡ rows)
produce-puts_example =
    produce-puts (λ site. none) (λ start. false) 2 rows plan (omega arith) (λ start. refl)
      (λ site. refl)

-- A transform of the second batch raises.
abbrev fails_second : Site → Option String
fails_second (at_transforms start) = if start == 2 then some "transform" else none
fails_second _ = none

abbrev key : ℕ → Key
key c = record { path = "t2m"; chunk = c }

release-last_example :
    map (key_in (key 0)) (release false ((key 0 ∷ key 1 ∷ []) ∷ (key 0 ∷ []) ∷ (key 1 ∷ []) ∷ []))
    ≡ last_flags (key 0) ((key 0 ∷ key 1 ∷ []) ∷ (key 0 ∷ []) ∷ (key 1 ∷ []) ∷ [])
release-last_example =
    release-last (key 0) ((key 0 ∷ key 1 ∷ []) ∷ (key 0 ∷ []) ∷ (key 1 ∷ []) ∷ [])

produce-Served_example :
    let order = from_blocks two_blocks in
    let pass = blocks same (geom ∷ []) order 2 in
    Served pass [] [] (produce fails_second (λ start. false) 2 order.rows (release_plan false pass))
produce-Served_example =
    produce-Served same (geom ∷ []) 2 fails_second (λ start. false) 2 two_blocks

produce-Frontiers_example :
    let order = from_blocks two_blocks in
    let pass = blocks same (geom ∷ []) order 2 in
    Frontiers pass [] 0
      (release true (map (λ (b : Block). b.read_keys) pass))
      (produce fails_second (λ start. false) 2 order.rows (release_plan true pass))
produce-Frontiers_example =
    produce-Frontiers same (geom ∷ []) 2 fails_second (λ start. false) 2 true two_blocks

-- The value at a sample and a position, and its tiles
abbrev content : ℕ → List ℕ → ℕ
content s p = s * 10 + get_or p 0 0

abbrev tile : ℕ → ℕ → List ℕ → ℕ
tile c i [] = 0
tile c i (w ∷ q) = content (c * 2 + w) (array_position (i ∷ []) (2 ∷ []) q)

abbrev slot : ℕ → Slot (List ℕ → ℕ)
slot c = record {
  ident = c;
  tiles = (0 ∷ [], tile c 0) ∷ (1 ∷ [], tile c 1) ∷ [];
  backing = none;
  writers = pos 0;
  pending = pos 0;
  nbytes = 32;
  state = ready;
  error = none;
}

abbrev slots : List (Key × Slot (List ℕ → ℕ))
slots = (key 1, slot 1) ∷ (key 0, slot 0) ∷ []

all_tiles : (coord : List ℕ) → Below coord (2 ∷ []) → Mem coord ((0 ∷ []) ∷ (1 ∷ []) ∷ [])
all_tiles (zero ∷ []) h = mem-cons_self
all_tiles (suc zero ∷ []) h = mem-cons_of_mem (0 ∷ []) mem-cons_self
all_tiles (suc (suc i) ∷ []) h = absurd (omega arith)
all_tiles (i ∷ j ∷ coord) h = absurd h.1
all_tiles [] h = absurd h

slot-Holds : (c : ℕ) → Holds content geom 2 5 c (slot c)
unfolding program
slot-Holds c =
    ((((omega arith, tt), λ w q _ _. refl), (((omega arith, tt), λ w q _ _. refl), tt)), all_tiles)

-- Row 1 of the batch is the anchor 3, which reads the sample 2, of the chunk 1.
gather_variable-content_example :
    (out : ℕ → List ℕ → ℕ) × (gather_variable slots same geom geom 2
        ((0, 1) ∷ (1, 1) ∷ [])
        (λ i p. 99)
      ≡ some out)
    × (out 1 (2 ∷ []) ≡ 22)
unfolding program
gather_variable-content_example =
    gather_variable-content content geom geom 5 slots same 2 ((0, 1) ∷ (1, 1) ∷ []) (λ i p. 99) 1
      (2 ∷ []) geom-IsValid geom-IsValid (λ xs c. (λ m. m, λ m. m))
      ((omega arith, omega arith), ((omega arith, omega arith), tt))
      ((slot 0, refl, slot-Holds 0), ((slot 1, refl, slot-Holds 1), tt)) (omega arith)
      (omega arith, tt)

abbrev inside_rows : List Row
inside_rows = (0, 1) ∷ (1, 0) ∷ []

apart_keys : NoRepeatedKeys (key 1 ∷ key 2 ∷ [])
unfolding program key_in
apart_keys = (refl, (refl, tt))

read_by_then :
    All
      (λ k. reads_any k ((key 0 ∷ key 1 ∷ []) ∷ (key 1 ∷ key 2 ∷ []) ∷ []) ≡ true)
      (key 1 ∷ key 2 ∷ [])
unfolding program key_in
read_by_then = (refl, (refl, tt))

read_from_then :
    All
      (λ k. reads_any k ((key 1 ∷ key 2 ∷ []) ∷ (key 1 ∷ key 3 ∷ []) ∷ []) ≡ true)
      (key 1 ∷ key 2 ∷ [])
unfolding program key_in
read_from_then = (refl, (refl, tt))

abbrev three_blocks : List (List Key)
three_blocks = (key 0 ∷ key 1 ∷ []) ∷ (key 1 ∷ key 2 ∷ []) ∷ (key 1 ∷ key 3 ∷ []) ∷ []

read_ahead_bound-live_example :
    length (key 1 ∷ key 2 ∷ []) + next_size ((key 1 ∷ key 3 ∷ []) ∷ [])
    ≤ read_ahead_bound three_blocks (last_use three_blocks)
read_ahead_bound-live_example =
    read_ahead_bound-live ((key 0 ∷ key 1 ∷ []) ∷ []) ((key 1 ∷ key 3 ∷ []) ∷ [])
      (key 1 ∷ key 2 ∷ []) (key 1 ∷ key 2 ∷ []) apart_keys read_by_then read_from_then
