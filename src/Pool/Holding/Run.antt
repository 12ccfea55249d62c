-- ===== src/Pool/Holding/Run.antt =====
-- A chunk that a pass holds under every call that is not that pass's own unpinning or end.
use Prim.Native.String.{String}
use mathlib.Core.Option.{some-injective}
use insitubatch.Base.Int.{pos, neg, ◌+ℤ◌}
use insitubatch.Base.{
  ℕ, ◌+◌, ◌<◌, ◌≡◌, ◌≢◌, sym, subst, ap, ◌∙◌, ◌⊎◌, inl, inr, true, false, List, [], ◌∷◌, Option,
  none, some, length, Option-cases, Bool-cases, ◌==◌, arith, All,
}
use insitubatch.Pool.State.{Key, Slot, assembled, failed, Config, Pool, find, refs, count}
use insitubatch.Pool.Room.{drop_slot}
use insitubatch.Pool.Owners.{
  refused, new_owner, forget_owner, abandoned, abandoned_keys, drop_all, release_owner,
}
use insitubatch.Pool.Admit.{has_key}
use insitubatch.Pool.Lifecycle.{
  enter, land, set_tile, drop_writer, complete, begin_publish, published, record_completed,
  publish_in_place, finish_publish, poison, set_error,
}
use insitubatch.Pool.Calls.{
  Call, owner_new, owner_release, admit, pin_ready, pin_all, unpin_all, tile_enter, tile_land,
  tile_fail, tile_leave, publish_begin, publish_finish, driver_died, System, land_or_stay,
  start_publishing, take_publishing, step, run,
}
use insitubatch.Pool.Facts.{count-pop_count_ne}
use insitubatch.Pool.Budget.{Inv}
use insitubatch.Pool.Budget.Run.{step-Inv}
use insitubatch.Pool.Holding.{Held, victim-ne, drop_slot-Held}
use insitubatch.Pool.Holding.Moves.{
  pin_keys-Held, unpin_keys-Held, modify-Held, pin_if_ready-Held, try_admit-Held,
}

-- The call is not one by which the pass `o` gives the chunk `k` back.
abbrev pub Spares : {T : Type 0} → Key → ℕ → Call T → Type 0
Spares k o (owner_release p) = o ≢ p
Spares k o (unpin_all ks p) = (o ≢ p) ⊎ (has_key k ks ≡ false)
Spares k o _ = Unit

-- What a slot keeps while tile tasks enter, deliver, fail and leave, and while it is published.
pub record Stable {T : Type 0} (cfg : Config T) (P : Slot T → Type 0) : Type 0 where
  pub enters : (x : Slot T) → P x → P (record x { writers = x.writers +ℤ pos 1 })
  pub lands :
      (x : Slot T) (c : List ℕ) (t : T)
      → P x
      → P (record x { tiles = set_tile c t x.tiles; pending = x.pending +ℤ neg (pos 1) })
  pub leaves : (x : Slot T) → P x → P (record x { writers = x.writers +ℤ neg (pos 1) })
  pub fails : (x : Slot T) (e : String) → P x → P (record x { error = some e; state = failed })
  pub begins : (x : Slot T) → complete x ≡ true → P x → P (record x { state = assembled })
  pub publishes : (x : Slot T) (k : Key) → P x → P (published cfg k x)

module _ {T : Type 0} (cfg : Config T) (P : Slot T → Type 0) (stable : Stable cfg P) (k : Key)
    (o : ℕ) where
  -- Every key of the list has no reference.
  abbrev Unreferenced : Pool T → List Key → Type 0
  Unreferenced s ks = All (λ j. refs s j ≡ 0) ks

  abandoned-refs :
      (s : Pool T) (j : Key) (slot : Slot T) → abandoned s (j, slot) ≡ true → refs s j ≡ 0
  unfolding abandoned
  abandoned-refs s j slot e = ground arith

  abandoned_keys-Unreferenced :
      (s : Pool T) (slots : List (Key × Slot T)) → Unreferenced s (abandoned_keys s slots)
  unfolding abandoned_keys
  abandoned_keys-Unreferenced s [] = tt
  abandoned_keys-Unreferenced s ((j, slot) ∷ rest) = elim (Bool-cases (abandoned s (j, slot))) [
    | inr stays ↦ simp stays (abandoned_keys-Unreferenced s rest)
    | inl goes ↦ simp goes (abandoned-refs s j slot goes, abandoned_keys-Unreferenced s rest)
  ]

  drop_all-Held :
      (ks : List Key) (s : Pool T)
      → All (λ j. k ≢ j) ks
      → Held P k o s
      → Held P k o (drop_all cfg s ks)
  unfolding drop_all
  drop_all-Held [] s ne h = h
  drop_all-Held (j ∷ ks) s ne h =
      drop_all-Held ks (drop_slot cfg s j) ne.1 (drop_slot-Held cfg P k o s j ne.0 h)

  others : (s : Pool T) (ks : List Key) → Held P k o s → Unreferenced s ks → All (λ j. k ≢ j) ks
  others s [] h u = tt
  others s (j ∷ ks) h u = (victim-ne P s k j o h u.0, others s ks h u.1)

  release_owner-Held :
      (s : Pool T) (p : ℕ) → o ≢ p → Held P k o s → Held P k o (release_owner cfg s p)
  unfolding release_owner forget_owner
  release_owner-Held s p ne h =
      let freed = forget_owner s p in
      let kept : Held P k o freed = record {
        counted = rw (count-pop_count_ne o p (s.pinned k) ne) h.counted;
        slot = h.slot;
        resident = h.resident;
        known = h.known;
      } in
      let ks = abandoned_keys freed freed.slots in
      let swept =
        drop_all-Held ks freed
          (others freed ks kept (abandoned_keys-Unreferenced freed freed.slots)) kept in
      record {
        counted = swept.counted;
        slot = swept.slot;
        resident = swept.resident;
        known = swept.known;
      }

  frame : (s t : Pool T) → t.pinned ≡ s.pinned → t.slots ≡ s.slots → Held P k o s → Held P k o t
  frame s t p q h = record {
    counted = subst (λ f. 0 < count o (f k)) (sym p) h.counted;
    slot = h.slot;
    resident = ap (find k) q ∙ h.resident;
    known = h.known;
  }

  record_completed-Held :
      (s : Pool T) (j : Key) (b : Option String)
      → Held P k o s
      → Held P k o (record_completed cfg s j b)
  unfolding record_completed
  record_completed-Held s j none h =
      frame s (record_completed cfg s j none) (ground arith) (ground arith) h
  record_completed-Held s j (some file) h =
      frame s (record_completed cfg s j (some file)) (ground arith) (ground arith) h

  publish_in_place-Held :
      (s : Pool T) (j : Key) (seen : Slot T)
      → Held P k o s
      → Held P k o (publish_in_place cfg s j seen)
  unfolding publish_in_place
  publish_in_place-Held s j seen h = elim (Option-cases (find j s.slots)) [
    | inl e ↦ rw (e, publish_in_place) h
    | inr (slot, e) ↦ elim (Bool-cases (slot.ident == seen.ident)) [
      | inl same ↦
          rw (e, publish_in_place)
            (simp same (modify-Held P k o s j (published cfg j) (λ x _. stable.publishes x j) h))
      | inr other ↦ rw (e, publish_in_place) (simp other h)
    ]
  ]

  finish_publish-Held :
      (s : Pool T) (j : Key) (seen : Slot T)
      → Held P k o s
      → Held P k o (finish_publish cfg s j seen)
  unfolding finish_publish
  finish_publish-Held s j seen h =
      record_completed-Held (publish_in_place cfg s j seen) j _ (publish_in_place-Held s j seen h)

  begin_publish-Held : (s : Pool T) (j : Key) → Held P k o s → Held P k o (begin_publish s j).1
  unfolding begin_publish
  begin_publish-Held s j h = elim (Option-cases (find j s.slots)) [
    | inl e ↦ rw (e, begin_publish) h
    | inr (slot, e) ↦ elim (Bool-cases (complete slot)) [
      | inl done ↦
          rw (e, begin_publish)
            (simp done (
              modify-Held P k o s j (λ x. record x { state = assembled })
                (λ x r. stable.begins x (
                  let y : slot ≡ x = some-injective slot x (sym e ∙ r) in
                  subst (λ z. complete z ≡ true) y done))
                h))
      | inr waits ↦ rw (e, begin_publish) (simp waits h)
    ]
  ]

  land-Held :
      (s : System T) (j : Key) (coord : List ℕ) (t : T)
      → Held P k o s.pool
      → Held P k o (land_or_stay s j coord t).pool
  unfolding land_or_stay land
  land-Held s j coord t h = elim (Option-cases (find j s.pool.slots)) [
    | inl e ↦ rw (e, land_or_stay, land) h
    | inr (slot, e) ↦
        rw (e, land_or_stay, land) (modify-Held P k o s.pool j _ (λ x _. stable.lands x coord t) h)
  ]

  start_publishing-Held :
      (s : System T) (j : Key)
      → Held P k o s.pool
      → Held P k o (start_publishing s j (begin_publish s.pool j)).pool
  unfolding start_publishing
  start_publishing-Held s j h = elim (Option-cases (begin_publish s.pool j).0) [
    | inl e ↦ rw (e, start_publishing) (begin_publish-Held s.pool j h)
    | inr (slot, e) ↦ rw (e, start_publishing) (begin_publish-Held s.pool j h)
  ]

  new_owner-Held : (s : System T) → Held P k o s.pool → Held P k o (step cfg s owner_new).pool
  unfolding step new_owner
  new_owner-Held s h = elim (Bool-cases (refused cfg (length s.pool.owners + 1))) [
    | inl no_room ↦ rw (no_room, step, new_owner) h
    | inr fine ↦
        rw (fine, step, new_owner)
          (record { counted = h.counted; slot = h.slot; resident = h.resident; known = h.known })
  ]

  enter-Held : (s : Pool T) (j : Key) → Held P k o s → Held P k o (enter s j)
  unfolding enter
  enter-Held s j h = modify-Held P k o s j _ (λ x _. stable.enters x) h

  poison-Held : (s : Pool T) (j : Key) (e : String) → Held P k o s → Held P k o (poison s j e)
  unfolding poison
  poison-Held s j e h = modify-Held P k o s j _ (λ x _. stable.fails x e) h

  drop_writer-Held : (s : Pool T) (j : Key) → Held P k o s → Held P k o (drop_writer s j)
  unfolding drop_writer
  drop_writer-Held s j h = modify-Held P k o s j _ (λ x _. stable.leaves x) h

  step-Held :
      (s : System T) (c : Call T)
      → Spares k o c
      → Inv cfg.budget s.pool
      → Held P k o s.pool
      → Held P k o (step cfg s c).pool
  unfolding step set_error
  step-Held s owner_new g v h = new_owner-Held s h
  step-Held s (owner_release p) g v h = release_owner-Held s.pool p g h
  step-Held s (admit disk j p) g v h = try_admit-Held cfg P k o disk s.pool j p v h
  step-Held s (pin_ready disk j p) g v h = pin_if_ready-Held cfg P k o disk s.pool j p v h
  step-Held s (pin_all ks p) g v h = pin_keys-Held P k o cfg.budget ks s.pool p v h
  step-Held s (unpin_all ks p) g v h = unpin_keys-Held P k o ks s.pool p g h
  step-Held s (tile_enter j) g v h = enter-Held s.pool j h
  step-Held s (tile_land j coord t) g v h = elim (Bool-cases (has_key j s.running)) [
    | inl runs ↦ simp runs (land-Held s j coord t h)
    | inr ended ↦ simp ended h
  ]
  step-Held s (tile_fail j e) g v h = elim (Bool-cases (has_key j s.running)) [
    | inl runs ↦ simp runs (poison-Held s.pool j e h)
    | inr ended ↦ simp ended h
  ]
  step-Held s (tile_leave j) g v h = elim (Bool-cases (has_key j s.running)) [
    | inl runs ↦ simp runs (drop_writer-Held s.pool j h)
    | inr ended ↦ simp ended h
  ]
  step-Held s (publish_begin j) g v h = start_publishing-Held s j h
  step-Held s (publish_finish j) g v h = elim (Option-cases (take_publishing j s.publishing)) [
    | inl e ↦ rw (e, step) h
    | inr (slot, e) ↦ rw (e, step) (finish_publish-Held s.pool j slot h)
  ]
  step-Held s (driver_died e) g v h = record {
    counted = h.counted;
    slot = h.slot;
    resident = h.resident;
    known = h.known;
  }

  pub run-Held :
      (cs : List (Call T)) (s : System T)
      → All (Spares k o) cs
      → Inv cfg.budget s.pool
      → Held P k o s.pool
      → Held P k o (run cfg s cs).pool
  unfolding run
  run-Held [] s g v h = h
  run-Held (c ∷ cs) s g v h =
      run-Held cs (step cfg s c) g.1 (step-Inv cfg s c v) (step-Held s c g.0 v h)
