-- ===== src/Pool/Calls.antt =====
-- The calls that the scheduler, the producer and the decode threads make on a shared pool, in any
-- order. The lock is released between a slot's two publication steps, and between the entry, the
-- delivery and the release of a tile task, so those are calls of their own.
use Prim.Native.String.{String}
use insitubatch.Base.{ℕ, List, [], ◌∷◌, Option, none, some, ite, if◌then◌else◌}
use insitubatch.Pool.State.{Key, Key-discrete, Slot, Config, Pool, init}
use insitubatch.Pool.Pins.{pin_keys, unpin_keys}
use insitubatch.Pool.Owners.{new_owner, release_owner}
use insitubatch.Pool.Admit.{Disk, has_key, try_admit, pin_if_ready}
use insitubatch.Pool.Lifecycle.{
  enter, land, drop_writer, begin_publish, finish_publish, poison, set_error,
}

pub data Call (T : Type 0) : Type 0 where
  owner_new : Call T
  owner_release : ℕ → Call T
  admit : Disk T → Key → ℕ → Call T
  pin_ready : Disk T → Key → ℕ → Call T
  pin_all : List Key → ℕ → Call T
  unpin_all : List Key → ℕ → Call T
  tile_enter : Key → Call T
  tile_land : Key → List ℕ → T → Call T
  tile_fail : Key → String → Call T
  tile_leave : Key → Call T
  publish_begin : Key → Call T
  publish_finish : Key → Call T
  driver_died : String → Call T

-- The pool, the tile tasks inside `tile_write`, and the threads between the two parts of `_advance`.
pub record System (T : Type 0) : Type 0 where
  pub pool : Pool T
  pub running : List Key
  pub publishing : List (Key × Slot T)

-- A new pool with no log, before any call
abbrev pub start : {T : Type 0} → System T
start = record { pool = init; running = []; publishing = [] }

-- One task of the key ends.
unfoldable pub end_task : Key → List Key → List Key
end_task k [] = []
end_task k (j ∷ rest) = ite (Key-discrete j k) rest (j ∷ end_task k rest)

module _ {T : Type 0} where
  unfoldable pub take_publishing : Key → List (Key × Slot T) → Option (Slot T)
  take_publishing k [] = none
  take_publishing k ((j, slot) ∷ rest) = ite (Key-discrete j k) (some slot) (take_publishing k rest)

  unfoldable pub end_publishing : Key → List (Key × Slot T) → List (Key × Slot T)
  end_publishing k [] = []
  end_publishing k ((j, slot) ∷ rest) =
      ite (Key-discrete j k) rest ((j, slot) ∷ end_publishing k rest)

  abbrev pub with_pool : System T → Pool T → System T
  with_pool s p = record s { pool = p }

  unfoldable pub land_or_stay : System T → Key → List ℕ → T → System T
  land_or_stay s k coord t = elim (land s.pool k coord t) [ none ↦ s | some p ↦ with_pool s p ]

  unfoldable pub start_publishing : System T → Key → Option (Slot T) × Pool T → System T
  start_publishing s k r = elim r.0 [
    | none ↦ with_pool s r.1
    | some slot ↦ record s { pool = r.1; publishing = (k, slot) ∷ s.publishing }
  ]

module _ {T : Type 0} (cfg : Config T) where
  -- A call that raises leaves the pool as it was then. A task lands, fails and leaves only while it
  -- runs, and a thread finishes only what it began.
  unfoldable pub step : System T → Call T → System T
  step s owner_new = elim (new_owner cfg s.pool) [ none ↦ s | some (_, p) ↦ with_pool s p ]
  step s (owner_release o) = with_pool s (release_owner cfg s.pool o)
  step s (admit disk k o) = with_pool s (try_admit cfg disk s.pool k o).1
  step s (pin_ready disk k o) = with_pool s (pin_if_ready cfg disk s.pool k o).1
  step s (pin_all ks o) = with_pool s (pin_keys s.pool ks o)
  step s (unpin_all ks o) = with_pool s (unpin_keys s.pool ks o)
  step s (tile_enter k) = record s { pool = enter s.pool k; running = k ∷ s.running }
  step s (tile_land k coord t) = if has_key k s.running then land_or_stay s k coord t else s
  step s (tile_fail k e) = if has_key k s.running then with_pool s (poison s.pool k e) else s
  step s (tile_leave k) =
      if has_key k s.running
      then record s { pool = drop_writer s.pool k; running = end_task k s.running }
      else s
  step s (publish_begin k) = start_publishing s k (begin_publish s.pool k)
  step s (publish_finish k) = elim (take_publishing k s.publishing) [
    | none ↦ s
    | some slot ↦ record s {
      pool = finish_publish cfg s.pool k slot;
      publishing = end_publishing k s.publishing;
    }
  ]
  step s (driver_died e) = with_pool s (set_error s.pool e)

  unfoldable pub run : System T → List (Call T) → System T
  run s [] = s
  run s (c ∷ cs) = run (step s c) cs
