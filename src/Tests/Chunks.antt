-- ===== src/Tests/Chunks.antt =====
-- A pool with room for two chunks of one array, two passes on it, and the decode of a chunk.
use insitubatch.Base.Int.{int64, pos, ◌+ℤ◌}
use insitubatch.Base.{
  ℕ, ◌≡◌, inl, refl, true, false, List, [], ◌∷◌, none, some, All, arith, ℕ_discrete,
}
use insitubatch.Geometry.{
  ArrayGeometry, drop_sample, n_samples, sample_chunk_size, inner_shape, inner_chunks,
  samples_in_chunk, grid_of, inner_grid, coords_of, inner_coords, n_inner_chunks, slot_shape,
  tile_shape, chunk_bytes,
}
use insitubatch.Pool.State.{
  Key, Slot, Key-discrete, filling, ready, Config, Pool, init, find, remove, modify, move_to_end,
  note_resident, slot_charge_bytes, charge, tile_grid, is_in, distinct, positions, count, set_count,
  pop_count, total, refs, evictable,
}
use insitubatch.Pool.Room.{
  victim_in, victim, count_eviction, free, drop_slot, evict, room_loop, room_for, make_room,
}
use insitubatch.Pool.Pins.{
  count_hold, count_release, held_bytes, pin, unpin_one, pin_keys, unpin_keys,
}
use insitubatch.Pool.Owners.{
  discard, abandoned, abandoned_keys, forget_owner, refused, new_owner, drop_all, release_owner,
  wait_satisfied,
}
use insitubatch.Pool.Admit.{
  Disk, has_key, same_shape, same_dtype, charge_holders, note_touch, count_hit, count_miss,
  count_missing, count_mismatch, forget_persisted, insert_slot, charge_pinned, take_hit, is_ready,
  number_tiles, stored_coords, matches, revived_slot, revive_file, revive, pin_if_ready, fresh_slot,
  admit_fresh, admit_readonly, admit_writable, try_admit, admitted,
}
use insitubatch.Pool.Lifecycle.{
  set_tile, enter, land, complete, begin_publish, drop_writer, poison, set_error, record_completed,
  published, publish_in_place, finish_publish,
}
use insitubatch.Pool.Calls.{
  Call, owner_new, owner_release, admit, pin_ready, unpin_all, tile_enter, tile_land, tile_leave,
  publish_begin, publish_finish, start, end_task, take_publishing, end_publishing, land_or_stay,
  start_publishing, step, run,
}
use insitubatch.Pool.Budget.{Inv}
use insitubatch.Pool.Budget.Run.{run-Inv}
use insitubatch.Pool.Holding.{Held}
use insitubatch.Pool.Holding.Run.{Spares}
use insitubatch.Pool.Holding.Known.{Is, Any}
use insitubatch.Pool.Holding.Passes.{run-keeps_slot, try_admit-run, pin_if_ready-wait_satisfied}
use insitubatch.Pool.Reclaim.{Stuck, FirstEvictable, make_room-Stuck, victim-oldest}

program : Unit {0}
unfolding int64 ◌+ℤ◌ drop_sample n_samples sample_chunk_size inner_shape inner_chunks
    samples_in_chunk grid_of inner_grid coords_of inner_coords n_inner_chunks slot_shape tile_shape
    chunk_bytes Key-discrete ℕ_discrete init find remove modify move_to_end note_resident
    slot_charge_bytes charge tile_grid is_in distinct positions count set_count pop_count total refs
    evictable victim_in victim count_eviction free drop_slot evict room_loop room_for make_room
    count_hold count_release held_bytes pin unpin_one pin_keys unpin_keys discard abandoned
    abandoned_keys forget_owner refused new_owner drop_all release_owner wait_satisfied has_key
    same_shape same_dtype charge_holders note_touch count_hit count_miss count_missing
    count_mismatch forget_persisted insert_slot charge_pinned take_hit is_ready number_tiles
    stored_coords matches revived_slot revive_file revive pin_if_ready fresh_slot admit_fresh
    admit_readonly admit_writable try_admit set_tile enter land complete begin_publish drop_writer
    poison set_error record_completed published publish_in_place finish_publish end_task
    take_publishing end_publishing land_or_stay start_publishing step run
program = tt

abbrev geom : ArrayGeometry
geom = record {
  path = "t2m";
  shape = 6 ∷ [];
  chunks = 2 ∷ [];
  dtype = record { name = "uint8"; itemsize = 1 };
  offset = pos 0;
  sample_axis = 0;
}

-- A chunk is 2 bytes, and the budget 4.
abbrev cfg : Config ℕ
cfg = record {
  by_path = λ _. geom;
  out_by_path = λ _. geom;
  whole_chunks = false;
  prepare = λ _ _. 0;
  file_name = λ _. "chunk";
  has_dir = false;
  persistent = false;
  readonly = false;
  budget = some 4;
  iteration_bytes = 0;
  pipeline_fp = λ _. "raw";
}

abbrev chunk : ℕ → Key
chunk c = record { path = "t2m"; chunk = c }

abbrev no_files : Disk ℕ
no_files _ = none

-- Two passes; the first takes chunk 0, which is decoded and published.
abbrev decode : List (Call ℕ)
decode =
    owner_new
    ∷ owner_new
    ∷ admit no_files (chunk 0) 1
    ∷ tile_enter (chunk 0)
    ∷ tile_land (chunk 0) [] 7
    ∷ tile_leave (chunk 0)
    ∷ publish_begin (chunk 0)
    ∷ publish_finish (chunk 0)
    ∷ []

-- The first pass reads on, and ends.
abbrev others : List (Call ℕ)
others =
    admit no_files (chunk 1) 1
    ∷ admit no_files (chunk 2) 1
    ∷ unpin_all (chunk 0 ∷ []) 1
    ∷ owner_release 1
    ∷ []

-- The first pass decodes chunk 0 and gives it back.
abbrev idle : List (Call ℕ)
idle =
    owner_new
    ∷ admit no_files (chunk 0) 1
    ∷ tile_enter (chunk 0)
    ∷ tile_land (chunk 0) [] 7
    ∷ tile_leave (chunk 0)
    ∷ publish_begin (chunk 0)
    ∷ publish_finish (chunk 0)
    ∷ unpin_all (chunk 0 ∷ []) 1
    ∷ []

others-Spares : All (Spares (chunk 0) 2) others
others-Spares = (tt, (tt, (inl (λ p. omega (arith, p)), ((λ p. omega (arith, p)), tt))))

taken : (pin_if_ready cfg no_files (run cfg start decode).pool (chunk 0) 2).0 ≡ true
unfolding program
taken = refl

pin_if_ready-wait_satisfied_example :
    wait_satisfied
      (run cfg (step cfg (run cfg start decode) (pin_ready no_files (chunk 0) 2)) others).pool
      (chunk 0)
      2
    ≡ true
pin_if_ready-wait_satisfied_example =
    pin_if_ready-wait_satisfied cfg decode others (chunk 0) 2 no_files taken others-Spares

entry : (try_admit cfg no_files (run cfg start decode).pool (chunk 0) 2).0 ≡ admitted
unfolding program
entry = refl

try_admit-run_example :
    Held Any
      (chunk 0)
      2
      (run cfg (step cfg (run cfg start decode) (admit no_files (chunk 0) 2)) others).pool
try_admit-run_example = try_admit-run cfg decode others (chunk 0) 2 no_files entry others-Spares

-- The second pass holds the slot that was made first.
abbrev shared : List (Call ℕ)
shared = owner_new ∷ owner_new ∷ admit no_files (chunk 0) 1 ∷ admit no_files (chunk 0) 2 ∷ []

shared-Held : Held (Is 0) (chunk 0) 2 (run cfg start shared).pool
unfolding program
shared-Held = record {
  counted = omega arith;
  slot = record {
    ident = 0;
    tiles = [];
    backing = none;
    writers = pos 0;
    pending = pos 1;
    nbytes = 2;
    state = filling;
    error = none;
  };
  resident = refl;
  known = refl;
}

run-keeps_slot_example : Held (Is 0) (chunk 0) 2 (run cfg (run cfg start shared) others).pool
run-keeps_slot_example = run-keeps_slot cfg shared others (chunk 0) 2 0 others-Spares shared-Held

run-Inv_example : Inv cfg.budget (run cfg start decode).pool
run-Inv_example = run-Inv cfg decode

-- Both slots are held, so there is no room for a third.
abbrev held_pair : Pool ℕ
held_pair =
    (run cfg start (owner_new ∷ admit no_files (chunk 0) 1 ∷ admit no_files (chunk 1) 1 ∷ [])).pool

no_room : (make_room cfg held_pair 2 1).0 ≡ false
unfolding program
no_room = refl

make_room-Stuck_example : Stuck cfg 4 2 (make_room cfg held_pair 2 1)
make_room-Stuck_example = make_room-Stuck cfg 4 held_pair 2 1 refl no_room

first_idle : victim (run cfg start idle).pool ≡ some (chunk 0)
unfolding program
first_idle = refl

victim-oldest_example :
    FirstEvictable (run cfg start idle).pool (run cfg start idle).pool.slots (chunk 0)
victim-oldest_example = victim-oldest (run cfg start idle).pool (chunk 0) first_idle

-- A chunk that its pass gave back makes room for the next two.
two_more :
    (run cfg
      (run cfg start idle)
      (admit no_files (chunk 1) 1 ∷ admit no_files (chunk 2) 1 ∷ [])).pool.evictions
    ≡ 1
unfolding program
two_more = refl

abbrev decoded : Slot ℕ
decoded = record {
  ident = 0;
  tiles = ([], 7) ∷ [];
  backing = none;
  writers = pos 0;
  pending = pos 0;
  nbytes = 2;
  state = ready;
  error = none;
}

-- The slot of chunk 0 when its tile comes
abbrev entered : Slot ℕ
entered = record decoded { tiles = []; writers = pos 1; pending = pos 1; state = filling }
