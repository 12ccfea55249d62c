-- ===== src/Pool/Budget/Admitting.antt =====
-- The accounting of the pool when a chunk is taken: admitted, found ready, or revived from disk.
use Prim.Native.String.{String}
use insitubatch.Base.{
  ℕ, ◌+◌, ◌≡◌, refl, sym, ◌∙◌, inl, inr, Bool, true, List, [], ◌∷◌, Option, none, some, arith,
  Option-cases, Bool-cases,
}
use insitubatch.Pool.State.{Key, Slot, Config, Pool, find, remove, modify, charge}
use insitubatch.Pool.Room.{drop_slot, count_eviction, evict, make_room, make_room_rule}
use insitubatch.Pool.Pins.{pin, unpin_one, pin_keys, unpin_keys}
use insitubatch.Pool.Admit.{
  Disk, Stored, has_key, note_touch, count_hit, count_miss, count_missing, count_mismatch,
  forget_persisted, insert_slot, fresh_slot, revived_slot, take_hit, revive, revive_file, matches,
  is_ready, pin_if_ready, admit_fresh, charge_pinned, admit_readonly, admit_writable, try_admit,
}
use insitubatch.Pool.Facts.{charges-append, charges-modify, snoc-Distinct, modify-Distinct}
use insitubatch.Pool.Budget.{Inv, Within, Fits, make_room-Inv, pin-Inv, unpin_one-Inv}

module _ {T : Type 0} where
  -- A key that is not resident stays so when others leave.
  find-remove-none :
      (k j : Key) (slots : List (Key × Slot T))
      → find k slots ≡ none
      → find k (remove j slots) ≡ none
  unfolding find remove
  find-remove-none k j [] e = refl
  find-remove-none k j ((i, x) ∷ rest) e = ground (arith, find-remove-none k j rest)

module _ {T : Type 0} (cfg : Config T) (k : Key) where
  drop_slot-absent :
      (s : Pool T) (j : Key) → find k s.slots ≡ none → find k (drop_slot cfg s j).slots ≡ none
  unfolding drop_slot
  drop_slot-absent s j e = elim (Option-cases (find j s.slots)) [
    | inl gone ↦ rw (gone, drop_slot) e
    | inr (slot, there) ↦ rw (there, drop_slot) (find-remove-none k j s.slots e)
  ]

  pub make_room-absent :
      (s : Pool T) (nbytes owner : ℕ)
      → find k s.slots ≡ none
      → find k (make_room cfg s nbytes owner).1.slots ≡ none
  unfolding evict count_eviction
  make_room-absent s nbytes owner =
      make_room_rule cfg (λ p. find k p.slots ≡ none) nbytes owner
        (λ p j _ e. drop_slot-absent (count_eviction p owner) j e) s

module _ {T : Type 0} (o : Option ℕ) where
  note_touch-Inv : (s : Pool T) (k : Key) (owner : ℕ) → Inv o s → Inv o (note_touch s k owner)
  unfolding note_touch
  note_touch-Inv s k owner v = elim (Bool-cases (has_key k (s.per_owner owner).seen)) [
    | inl e ↦
        rw (e, note_touch)
          (record { accounted = v.accounted; distinct = v.distinct; within = v.within })
    | inr e ↦
        rw (e, note_touch)
          (record { accounted = v.accounted; distinct = v.distinct; within = v.within })
  ]

  take_hit-Inv : (s : Pool T) (k : Key) (owner : ℕ) → Inv o s → Inv o (take_hit s k owner)
  unfolding take_hit count_hit
  take_hit-Inv s k owner v =
      let s₁ = count_hit s owner in
      pin-Inv o (note_touch s₁ k owner) k owner (
        note_touch-Inv s₁ k owner
          (record { accounted = v.accounted; distinct = v.distinct; within = v.within }))

  insert_slot-Inv :
      (s : Pool T) (k : Key) (slot : Slot T)
      → find k s.slots ≡ none
      → Within o (s.bytes + slot.nbytes)
      → Inv o s
      → Inv o (insert_slot s k slot)
  unfolding insert_slot
  insert_slot-Inv s k slot e w v = record {
    accounted = omega (arith, v.accounted, charges-append s.slots ((k, slot) ∷ []));
    distinct = snoc-Distinct k slot s.slots e v.distinct;
    within = w;
  }

  pub modify-Inv :
      (s : Pool T) (k : Key) (f : Slot T → Slot T)
      → ((slot : Slot T) → (f slot).nbytes ≡ slot.nbytes)
      → Inv o s
      → Inv o (record s { slots = modify k f s.slots })
  modify-Inv s k f h v = record {
    accounted = v.accounted ∙ sym (charges-modify k f s.slots h);
    distinct = modify-Distinct k f s.slots v.distinct;
    within = v.within;
  }

  pub pin_keys-Inv :
      (ks : List Key) (s : Pool T) (owner : ℕ) → Inv o s → Inv o (pin_keys s ks owner)
  unfolding pin_keys
  pin_keys-Inv [] s owner v = v
  pin_keys-Inv (k ∷ ks) s owner v = pin_keys-Inv ks (pin s k owner) owner (pin-Inv o s k owner v)

  pub unpin_keys-Inv :
      (ks : List Key) (s : Pool T) (owner : ℕ) → Inv o s → Inv o (unpin_keys s ks owner)
  unfolding unpin_keys
  unpin_keys-Inv [] s owner v = v
  unpin_keys-Inv (k ∷ ks) s owner v =
      unpin_keys-Inv ks (unpin_one s k owner) owner (unpin_one-Inv o s k owner v)

module _ {T : Type 0} (cfg : Config T) where
  Within-of_Fits :
      (o : Option ℕ) (n : ℕ) (r : Bool × Pool T)
      → r.0 ≡ true
      → Fits o n r
      → Within o (r.1.bytes + n)
  Within-of_Fits none n r e f = tt
  Within-of_Fits (some b) n r e f = f e

  admit_fresh-Inv :
      (s : Pool T) (k : Key) (owner : ℕ)
      → find k s.slots ≡ none
      → Within cfg.budget (s.bytes + charge cfg k)
      → Inv cfg.budget s
      → Inv cfg.budget (admit_fresh cfg s k owner)
  unfolding admit_fresh count_miss charge_pinned fresh_slot
  admit_fresh-Inv s k owner e w v =
      let o = cfg.budget in
      let slot = fresh_slot cfg s.made k in
      let s₀ = count_miss s owner in
      let s₁ = charge_pinned (insert_slot s₀ k slot) (s.pinned k) slot.nbytes in
      let inserted : Inv o (insert_slot s₀ k slot) =
        insert_slot-Inv o s₀ k slot e w
          (record { accounted = v.accounted; distinct = v.distinct; within = v.within }) in
      pin-Inv o (note_touch s₁ k owner) k owner (
        note_touch-Inv o s₁ k owner (record {
          accounted = inserted.accounted;
          distinct = inserted.distinct;
          within = inserted.within;
        }))

  revive_file-Inv :
      (s : Pool T) (k : Key) (owner : ℕ) (file : String) (data' : Stored T)
      → find k s.slots ≡ none
      → Inv cfg.budget s
      → Inv cfg.budget (revive_file cfg s k owner file data').1
  unfolding revive_file count_mismatch forget_persisted revived_slot
  revive_file-Inv s k owner file data' e v = elim (Bool-cases (matches cfg k data')) [
    | inr bad ↦
        rw (bad, revive_file)
          (record { accounted = v.accounted; distinct = v.distinct; within = v.within })
    | inl good ↦
        let r = make_room cfg s data'.nbytes owner in
        let (inv, fits) = make_room-Inv cfg s data'.nbytes owner v in
        elim (Bool-cases r.0) [
          | inr full ↦ rw (good, revive_file, full) inv
          | inl room ↦
              rw (good, revive_file, room)
                (insert_slot-Inv cfg.budget r.1 k (revived_slot cfg r.1.made k file data')
                  (make_room-absent cfg k s data'.nbytes owner e)
                  (Within-of_Fits cfg.budget data'.nbytes r room fits) inv)
        ]
  ]

  pub revive-Inv :
      (disk : Disk T) (s : Pool T) (k : Key) (owner : ℕ)
      → Inv cfg.budget s
      → Inv cfg.budget (revive cfg disk s k owner).1
  unfolding revive count_missing forget_persisted
  revive-Inv disk s k owner v = elim (Bool-cases cfg.persistent) [
    | inr no_cache ↦ simp no_cache v
    | inl cached ↦ elim (Option-cases (find k s.slots)) [
      | inr (slot, e) ↦ simp (cached, e) v
      | inl e ↦ elim (Option-cases (s.persisted k)) [
        | inl p ↦ simp (cached, e, p) v
        | inr (file, p) ↦ elim (Option-cases (disk file)) [
          | inl d ↦
              simp (cached, e, p, d)
                (record { accounted = v.accounted; distinct = v.distinct; within = v.within })
          | inr (data', d) ↦ simp (cached, e, p, d) (revive_file-Inv s k owner file data' e v)
        ]
      ]
    ]
  ]

  pub pin_if_ready-Inv :
      (disk : Disk T) (s : Pool T) (k : Key) (owner : ℕ)
      → Inv cfg.budget s
      → Inv cfg.budget (pin_if_ready cfg disk s k owner).1
  unfolding pin_if_ready
  pin_if_ready-Inv disk s k owner v =
      let r = revive cfg disk s k owner in
      let back = revive-Inv disk s k owner v in
      elim (Bool-cases (is_ready s k)) [
        | inl hit ↦ simp hit (take_hit-Inv cfg.budget s k owner v)
        | inr miss ↦ elim (Bool-cases r.0) [
          | inl revived ↦ simp (miss, revived) (take_hit-Inv cfg.budget r.1 k owner back)
          | inr gone ↦ simp (miss, gone) back
        ]
      ]

  admit_readonly-Inv :
      (disk : Disk T) (s : Pool T) (k : Key) (owner : ℕ)
      → Inv cfg.budget s
      → Inv cfg.budget (admit_readonly cfg disk s k owner).1
  unfolding admit_readonly
  admit_readonly-Inv disk s k owner v =
      let r = revive cfg disk s k owner in
      let back = revive-Inv disk s k owner v in
      elim (Bool-cases r.0) [
        | inl revived ↦ simp revived (take_hit-Inv cfg.budget r.1 k owner back)
        | inr gone ↦ simp gone back
      ]

  admit_writable-Inv :
      (s : Pool T) (k : Key) (owner : ℕ)
      → find k s.slots ≡ none
      → Inv cfg.budget s
      → Inv cfg.budget (admit_writable cfg s k owner).1
  unfolding admit_writable
  admit_writable-Inv s k owner e v =
      let r = make_room cfg s (charge cfg k) owner in
      let (inv, fits) = make_room-Inv cfg s (charge cfg k) owner v in
      elim (Bool-cases r.0) [
        | inr over ↦ simp over inv
        | inl room ↦ simp room (
            admit_fresh-Inv r.1 k owner (make_room-absent cfg k s (charge cfg k) owner e)
              (Within-of_Fits cfg.budget (charge cfg k) r room fits) inv)
      ]

  pub try_admit-Inv :
      (disk : Disk T) (s : Pool T) (k : Key) (owner : ℕ)
      → Inv cfg.budget s
      → Inv cfg.budget (try_admit cfg disk s k owner).1
  unfolding try_admit
  try_admit-Inv disk s k owner v = elim (Option-cases (find k s.slots)) [
    | inr (slot, e) ↦
        rw (e, try_admit)
          (pin-Inv cfg.budget (note_touch s k owner) k owner
            (note_touch-Inv cfg.budget s k owner v))
    | inl e ↦ elim (Bool-cases cfg.readonly) [
      | inl only ↦ rw (e, try_admit) (simp only (admit_readonly-Inv disk s k owner v))
      | inr writes ↦ rw (e, try_admit) (simp writes (admit_writable-Inv s k owner e v))
    ]
  ]
