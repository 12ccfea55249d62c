-- ===== src/Pool/Budget/Run.antt =====
-- The accounting of the pool under every call, and so after every sequence of calls.
use Prim.Native.String.{String}
use insitubatch.Base.{
  ℕ, ◌+◌, ◌≡◌, refl, inl, inr, List, [], ◌∷◌, Option, none, some, length, Option-cases, Bool-cases,
  ◌==◌, arith,
}
use insitubatch.Pool.State.{Key, Slot, Config, Pool, find, init}
use insitubatch.Pool.Room.{drop_slot}
use insitubatch.Pool.Owners.{
  refused, new_owner, forget_owner, abandoned_keys, drop_all, release_owner,
}
use insitubatch.Pool.Admit.{has_key}
use insitubatch.Pool.Lifecycle.{
  enter, land, drop_writer, complete, begin_publish, published, record_completed, publish_in_place,
  finish_publish, poison, set_error,
}
use insitubatch.Pool.Calls.{
  Call, owner_new, owner_release, admit, pin_ready, pin_all, unpin_all, tile_enter, tile_land,
  tile_fail, tile_leave, publish_begin, publish_finish, driver_died, System, start, land_or_stay,
  start_publishing, take_publishing, step, run,
}
use insitubatch.Pool.Budget.{Inv, Within-zero, drop_slot-Inv}
use insitubatch.Pool.Budget.Admitting.{
  modify-Inv, pin_keys-Inv, unpin_keys-Inv, pin_if_ready-Inv, try_admit-Inv,
}

module _ {T : Type 0} (cfg : Config T) where
  drop_all-Inv :
      (ks : List Key) (s : Pool T) → Inv cfg.budget s → Inv cfg.budget (drop_all cfg s ks)
  unfolding drop_all
  drop_all-Inv [] s v = v
  drop_all-Inv (k ∷ ks) s v =
      drop_all-Inv ks (drop_slot cfg s k) (drop_slot-Inv cfg cfg.budget s k v)

  release_owner-Inv :
      (s : Pool T) (owner : ℕ) → Inv cfg.budget s → Inv cfg.budget (release_owner cfg s owner)
  unfolding release_owner forget_owner
  release_owner-Inv s owner v =
      let freed = forget_owner s owner in
      let swept =
        drop_all-Inv (abandoned_keys freed freed.slots) freed
          (record { accounted = v.accounted; distinct = v.distinct; within = v.within }) in
      record { accounted = swept.accounted; distinct = swept.distinct; within = swept.within }

  record_completed-Inv :
      (s : Pool T) (k : Key) (b : Option String)
      → Inv cfg.budget s
      → Inv cfg.budget (record_completed cfg s k b)
  unfolding record_completed
  record_completed-Inv s k none v = ground arith
  record_completed-Inv s k (some file) v = ground arith

  published-nbytes : (k : Key) (slot : Slot T) → (published cfg k slot).nbytes ≡ slot.nbytes
  unfolding published
  published-nbytes k slot = ground arith

  publish_in_place-Inv :
      (s : Pool T) (k : Key) (seen : Slot T)
      → Inv cfg.budget s
      → Inv cfg.budget (publish_in_place cfg s k seen)
  unfolding publish_in_place
  publish_in_place-Inv s k seen v = elim (Option-cases (find k s.slots)) [
    | inl e ↦ rw (e, publish_in_place) v
    | inr (slot, e) ↦ elim (Bool-cases (slot.ident == seen.ident)) [
      | inl same ↦
          rw (e, publish_in_place)
            (simp same (modify-Inv cfg.budget s k (published cfg k) (published-nbytes k) v))
      | inr other ↦ rw (e, publish_in_place) (simp other v)
    ]
  ]

  finish_publish-Inv :
      (s : Pool T) (k : Key) (seen : Slot T)
      → Inv cfg.budget s
      → Inv cfg.budget (finish_publish cfg s k seen)
  unfolding finish_publish
  finish_publish-Inv s k seen v =
      record_completed-Inv (publish_in_place cfg s k seen) k _ (publish_in_place-Inv s k seen v)

  begin_publish-Inv :
      (s : Pool T) (k : Key) → Inv cfg.budget s → Inv cfg.budget (begin_publish s k).1
  unfolding begin_publish
  begin_publish-Inv s k v = elim (Option-cases (find k s.slots)) [
    | inl e ↦ rw (e, begin_publish) v
    | inr (slot, e) ↦ elim (Bool-cases (complete slot)) [
      | inl done ↦ rw (e, begin_publish) (simp done (modify-Inv cfg.budget s k _ (λ x. refl) v))
      | inr waits ↦ rw (e, begin_publish) (simp waits v)
    ]
  ]

  new_owner-Inv :
      (s : System T) → Inv cfg.budget s.pool → Inv cfg.budget (step cfg s owner_new).pool
  unfolding step new_owner
  new_owner-Inv s v = elim (Bool-cases (refused cfg (length s.pool.owners + 1))) [
    | inl no_room ↦ rw (no_room, step, new_owner) v
    | inr fine ↦
        rw (fine, step, new_owner)
          (record { accounted = v.accounted; distinct = v.distinct; within = v.within })
  ]

  land-Inv :
      (s : System T) (k : Key) (coord : List ℕ) (t : T)
      → Inv cfg.budget s.pool
      → Inv cfg.budget (land_or_stay s k coord t).pool
  unfolding land_or_stay land
  land-Inv s k coord t v = elim (Option-cases (find k s.pool.slots)) [
    | inl e ↦ rw (e, land_or_stay, land) v
    | inr (slot, e) ↦ rw (e, land_or_stay, land) (modify-Inv cfg.budget s.pool k _ (λ x. refl) v)
  ]

  start_publishing-Inv :
      (s : System T) (k : Key)
      → Inv cfg.budget s.pool
      → Inv cfg.budget (start_publishing s k (begin_publish s.pool k)).pool
  unfolding start_publishing
  start_publishing-Inv s k v = elim (Option-cases (begin_publish s.pool k).0) [
    | inl e ↦ rw (e, start_publishing) (begin_publish-Inv s.pool k v)
    | inr (slot, e) ↦ rw (e, start_publishing) (begin_publish-Inv s.pool k v)
  ]

  enter-Inv : (s : Pool T) (k : Key) → Inv cfg.budget s → Inv cfg.budget (enter s k)
  unfolding enter
  enter-Inv s k v = modify-Inv cfg.budget s k _ (λ x. refl) v

  poison-Inv :
      (s : Pool T) (k : Key) (e : String) → Inv cfg.budget s → Inv cfg.budget (poison s k e)
  unfolding poison
  poison-Inv s k e v = modify-Inv cfg.budget s k _ (λ x. refl) v

  drop_writer-Inv : (s : Pool T) (k : Key) → Inv cfg.budget s → Inv cfg.budget (drop_writer s k)
  unfolding drop_writer
  drop_writer-Inv s k v = modify-Inv cfg.budget s k _ (λ x. refl) v

  set_error-Inv : (s : Pool T) (e : String) → Inv cfg.budget s → Inv cfg.budget (set_error s e)
  unfolding set_error
  set_error-Inv s e v = record { accounted = v.accounted; distinct = v.distinct; within = v.within }

  -- Every call keeps the account: the running charge is the sum over the resident slots, one slot
  -- to a key, and it is within the budget.
  pub step-Inv :
      (s : System T) (c : Call T) → Inv cfg.budget s.pool → Inv cfg.budget (step cfg s c).pool
  unfolding step
  step-Inv s owner_new v = new_owner-Inv s v
  step-Inv s (owner_release o) v = release_owner-Inv s.pool o v
  step-Inv s (admit disk k o) v = try_admit-Inv cfg disk s.pool k o v
  step-Inv s (pin_ready disk k o) v = pin_if_ready-Inv cfg disk s.pool k o v
  step-Inv s (pin_all ks o) v = pin_keys-Inv cfg.budget ks s.pool o v
  step-Inv s (unpin_all ks o) v = unpin_keys-Inv cfg.budget ks s.pool o v
  step-Inv s (tile_enter k) v = enter-Inv s.pool k v
  step-Inv s (tile_land k coord t) v = elim (Bool-cases (has_key k s.running)) [
    | inl runs ↦ simp runs (land-Inv s k coord t v)
    | inr ended ↦ simp ended v
  ]
  step-Inv s (tile_fail k e) v = elim (Bool-cases (has_key k s.running)) [
    | inl runs ↦ simp runs (poison-Inv s.pool k e v)
    | inr ended ↦ simp ended v
  ]
  step-Inv s (tile_leave k) v = elim (Bool-cases (has_key k s.running)) [
    | inl runs ↦ simp runs (drop_writer-Inv s.pool k v)
    | inr ended ↦ simp ended v
  ]
  step-Inv s (publish_begin k) v = start_publishing-Inv s k v
  step-Inv s (publish_finish k) v = elim (Option-cases (take_publishing k s.publishing)) [
    | inl e ↦ rw (e, step) v
    | inr (slot, e) ↦ rw (e, step) (finish_publish-Inv s.pool k slot v)
  ]
  step-Inv s (driver_died e) v = set_error-Inv s.pool e v

  pub start-Inv : Inv cfg.budget (start {T = T}).pool
  unfolding init
  start-Inv = record { accounted = refl; distinct = tt; within = Within-zero cfg.budget }

  run_from-Inv :
      (cs : List (Call T)) (s : System T)
      → Inv cfg.budget s.pool
      → Inv cfg.budget (run cfg s cs).pool
  unfolding run
  run_from-Inv [] s v = v
  run_from-Inv (c ∷ cs) s v = run_from-Inv cs (step cfg s c) (step-Inv s c v)

  -- After any sequence of calls on a new pool, whatever the order in which the passes and the decode
  -- threads make them, the running charge is the sum of the resident slots' charges, no key has two
  -- slots, and the charge is within the budget, where there is one.
  pub run-Inv : (cs : List (Call T)) → Inv cfg.budget (run cfg start cs).pool
  run-Inv cs = run_from-Inv cs start start-Inv
