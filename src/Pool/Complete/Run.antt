-- ===== src/Pool/Complete/Run.antt =====
-- The publication of a slot under any sequence of calls: when it is done, what has landed in it.
use Prim.Native.String.{String}
use insitubatch.Base.Int.{pos, neg, ◌+ℤ◌}
use insitubatch.Base.{
  ◌+◌, ◌≡◌, refl, inl, inr, true, List, [], ◌∷◌, some, Bool-cases, Option-cases, length,
}
use insitubatch.Pool.State.{Key, Slot, failed, Config, Pool, init, find}
use insitubatch.Pool.Owners.{refused, new_owner}
use insitubatch.Pool.Admit.{has_key}
use insitubatch.Pool.Lifecycle.{enter, drop_writer, poison, set_error}
use insitubatch.Pool.Calls.{
  Call, owner_new, owner_release, admit, pin_ready, pin_all, unpin_all, tile_enter, tile_land,
  tile_fail, tile_leave, publish_begin, publish_finish, driver_died, System, start, take_publishing,
  step, run,
}
use insitubatch.Pool.Budget.{Inv}
use insitubatch.Pool.Budget.Run.{step-Inv, start-Inv}
use insitubatch.Pool.Complete.{
  find-AllSlots, pin_keys-Every, unpin_keys-Every, release_owner-Every, pin_if_ready-Every,
  try_admit-Every,
}
use insitubatch.Pool.Complete.Slots.{is_done, Landed, Made, Sound}
use insitubatch.Pool.Complete.Publishing.{
  Whole, SystemWhole, Sound-Admits, moves, land-Whole, begin-Whole, finish-Whole,
}

module _ {T : Type 0} (cfg : Config T) where
  new_owner-Whole : (s : System T) → SystemWhole cfg s → SystemWhole cfg (step cfg s owner_new)
  unfolding step new_owner
  new_owner-Whole s h = elim (Bool-cases (refused cfg (length s.pool.owners + 1))) [
    | inl no_room ↦ rw (no_room, step, new_owner) h
    | inr fine ↦ rw (fine, step, new_owner) h
  ]

  enter-Whole :
      (pubs : List (Key × Slot T)) (p : Pool T) (k : Key) → Whole pubs p → Whole pubs (enter p k)
  unfolding enter
  enter-Whole pubs p k h =
      moves cfg pubs p k (λ x. record x { writers = x.writers +ℤ pos 1 }) (λ x. refl) (λ x l. l)
        (λ x d. d) h

  drop_writer-Whole :
      (pubs : List (Key × Slot T)) (p : Pool T) (k : Key)
      → Whole pubs p
      → Whole pubs (drop_writer p k)
  unfolding drop_writer
  drop_writer-Whole pubs p k h =
      moves cfg pubs p k (λ x. record x { writers = x.writers +ℤ neg (pos 1) }) (λ x. refl)
        (λ x l. l) (λ x d. d) h

  poison-Whole :
      (pubs : List (Key × Slot T)) (p : Pool T) (k : Key) (e : String)
      → Whole pubs p
      → Whole pubs (poison p k e)
  unfolding poison
  poison-Whole pubs p k e h =
      moves cfg pubs p k (λ x. record x { error = some e; state = failed }) (λ x. refl) (λ x l. l)
        (λ x d. absurd (let y = d in cc)) h

  step-Whole :
      (s : System T) (c : Call T)
      → Inv cfg.budget s.pool
      → SystemWhole cfg s
      → SystemWhole cfg (step cfg s c)
  unfolding step set_error
  step-Whole s owner_new v h = new_owner-Whole s h
  step-Whole s (owner_release o) v h =
      release_owner-Every cfg (Made s.publishing) (Sound s.publishing) s.pool o h
  step-Whole s (admit disk k o) v h =
      try_admit-Every cfg (Made s.publishing) (Sound s.publishing) (Sound-Admits cfg s.publishing)
        disk s.pool k o h
  step-Whole s (pin_ready disk k o) v h =
      pin_if_ready-Every cfg (Made s.publishing) (Sound s.publishing)
        (Sound-Admits cfg s.publishing) disk s.pool k o h
  step-Whole s (pin_all ks o) v h =
      pin_keys-Every cfg (Made s.publishing) (Sound s.publishing) ks s.pool o h
  step-Whole s (unpin_all ks o) v h =
      unpin_keys-Every cfg (Made s.publishing) (Sound s.publishing) ks s.pool o h
  step-Whole s (tile_enter k) v h = enter-Whole s.publishing s.pool k h
  step-Whole s (tile_land k coord t) v h = elim (Bool-cases (has_key k s.running)) [
    | inl runs ↦ simp runs (land-Whole cfg s k coord t h)
    | inr ended ↦ simp ended h
  ]
  step-Whole s (tile_fail k e) v h = elim (Bool-cases (has_key k s.running)) [
    | inl runs ↦ simp runs (poison-Whole s.publishing s.pool k e h)
    | inr ended ↦ simp ended h
  ]
  step-Whole s (tile_leave k) v h = elim (Bool-cases (has_key k s.running)) [
    | inl runs ↦ simp runs (drop_writer-Whole s.publishing s.pool k h)
    | inr ended ↦ simp ended h
  ]
  step-Whole s (publish_begin k) v h = begin-Whole cfg s k v h
  step-Whole s (publish_finish k) v h = elim (Option-cases (take_publishing k s.publishing)) [
    | inl e ↦ rw (e, step) h
    | inr (slot, e) ↦ rw (e, step) (finish-Whole cfg s k slot e h)
  ]
  step-Whole s (driver_died e) v h = h

  run_from-Whole :
      (cs : List (Call T)) (s : System T)
      → Inv cfg.budget s.pool
      → SystemWhole cfg s
      → SystemWhole cfg (run cfg s cs)
  unfolding run
  run_from-Whole [] s v h = h
  run_from-Whole (c ∷ cs) s v h =
      run_from-Whole cs (step cfg s c) (step-Inv cfg s c v) (step-Whole s c v h)

  start-Whole : SystemWhole cfg (start {T = T})
  unfolding init
  start-Whole = (tt, tt)

  -- After any sequence of calls on a new pool, a slot that is ASSEMBLED or READY has no tile
  -- outstanding, by its count.
  pub run-Landed :
      (cs : List (Call T)) (k : Key) (slot : Slot T)
      → find k (run cfg start cs).pool.slots ≡ some slot
      → is_done slot.state ≡ true
      → Landed slot
  run-Landed cs k slot e d =
      let s = run cfg start cs in
      let w = run_from-Whole cs start (start-Inv cfg) start-Whole in
      (find-AllSlots (Sound s.publishing s.pool.made) k s.pool.slots slot e w.1).0.0 d
