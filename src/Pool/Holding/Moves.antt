-- ===== src/Pool/Holding/Moves.antt =====
-- What an admission, a reference and an unpinning leave of a chunk that a pass holds.
use Prim.Native.String.{String}
use insitubatch.Base.{
  ℕ, ◌<◌, ◌≡◌, ◌≢◌, sym, subst, ◌∙◌, ◌⊎◌, inl, inr, true, false, List, [], ◌∷◌, Option, none, some,
  arith, Option-cases, Bool-cases, if_pos, if_neg, ℕ_discrete, leb,
}
use insitubatch.Pool.State.{Key, Key-discrete, Slot, Config, Pool, find, modify, charge, count}
use insitubatch.Pool.Room.{make_room}
use insitubatch.Pool.Pins.{pin, unpin_one, pin_keys, unpin_keys}
use insitubatch.Pool.Admit.{
  Disk, Stored, has_key, count_hit, count_miss, count_missing, count_mismatch, forget_persisted,
  charge_pinned, note_touch, insert_slot, fresh_slot, revived_slot, take_hit, revive, revive_file,
  matches, is_ready, pin_if_ready, admit_fresh, admit_readonly, admit_writable, try_admit,
}
use insitubatch.Pool.Facts.{
  Distinct, find-append, find-modify_ne, find-modify_self, find-move_to_end, find-move_to_end_ne,
  count-set_count_self, count-set_count_ne, count-pop_count_ne,
}
use insitubatch.Pool.Budget.{Inv, pin-Inv}
use insitubatch.Pool.Budget.Admitting.{revive-Inv}
use insitubatch.Pool.Holding.{Held, make_room-Held}

module _ {T : Type 0} (P : Slot T → Type 0) (k : Key) (o : ℕ) where
  pin-counted :
      (s : Pool T) (j : Key) (p : ℕ) → 0 < count o (s.pinned k) → 0 < count o ((pin s j p).pinned k)
  unfolding pin
  pin-counted s j p h = elim (Key-discrete k j) [
    | no other ↦ rw (if_neg (Key-discrete k j) other) h
    | yes same ↦
        rw (if_pos (Key-discrete k j) same, ← same)
          (elim (ℕ_discrete o p) [
            | yes mine ↦ rw (← mine, count-set_count_self o) (omega arith)
            | no other ↦ rw (count-set_count_ne o p _ (s.pinned k) other) h
          ])
  ]

  pub pin-Held :
      (s : Pool T) (j : Key) (p : ℕ) → Distinct s.slots → Held P k o s → Held P k o (pin s j p)
  unfolding pin
  pin-Held s j p d h = record {
    counted = pin-counted s j p h.counted;
    slot = h.slot;
    resident = find-move_to_end k j s.slots d ∙ h.resident;
    known = h.known;
  }

  pub pin-Held_ne : (s : Pool T) (j : Key) (p : ℕ) → k ≢ j → Held P k o s → Held P k o (pin s j p)
  unfolding pin
  pin-Held_ne s j p ne h = record {
    counted = pin-counted s j p h.counted;
    slot = h.slot;
    resident = find-move_to_end_ne k j s.slots ne ∙ h.resident;
    known = h.known;
  }

  -- Another key, or another pass, is unpinned.
  pub unpin_one-Held :
      (s : Pool T) (j : Key) (p : ℕ)
      → (o ≢ p) ⊎ (k ≢ j)
      → Held P k o s
      → Held P k o (unpin_one s j p)
  unfolding unpin_one
  unpin_one-Held s j p ne h = record {
    counted = elim (Key-discrete k j) [
      | no other ↦ rw (if_neg (Key-discrete k j) other) h.counted
      | yes same ↦
          rw (if_pos (Key-discrete k j) same, ← same)
            (elim ne [
              | inr other ↦ absurd (other same)
              | inl other ↦ elim (Bool-cases (leb (count p (s.pinned k)) 1)) [
                | inl last ↦ simp last (rw (count-pop_count_ne o p (s.pinned k) other) h.counted)
                | inr more ↦ simp more (rw (count-set_count_ne o p _ (s.pinned k) other) h.counted)
              ]
            ])
    ];
    slot = h.slot;
    resident = h.resident;
    known = h.known;
  }

  pub modify-Held :
      (s : Pool T) (j : Key) (f : Slot T → Slot T)
      → ((slot : Slot T) → find j s.slots ≡ some slot → P slot → P (f slot))
      → Held P k o s
      → Held P k o (record s { slots = modify j f s.slots })
  modify-Held s j f keep h = elim (Key-discrete k j) [
    | no other ↦ record {
      counted = h.counted;
      slot = h.slot;
      resident = find-modify_ne k j f s.slots other ∙ h.resident;
      known = h.known;
    }
    | yes same ↦ record {
      counted = h.counted;
      slot = f h.slot;
      resident = rw (← same) (find-modify_self k f s.slots h.slot h.resident);
      known = keep h.slot (rw (← same) h.resident) h.known;
    }
  ]

  insert_slot-Held :
      (s : Pool T) (j : Key) (slot : Slot T) → Held P k o s → Held P k o (insert_slot s j slot)
  unfolding insert_slot
  insert_slot-Held s j slot h = record {
    counted = h.counted;
    slot = h.slot;
    resident = find-append k s.slots ((j, slot) ∷ []) h.slot h.resident;
    known = h.known;
  }

  note_touch-Held : (s : Pool T) (j : Key) (p : ℕ) → Held P k o s → Held P k o (note_touch s j p)
  unfolding note_touch
  note_touch-Held s j p h = elim (Bool-cases (has_key j (s.per_owner p).seen)) [
    | inl again ↦
        simp again
          (record { counted = h.counted; slot = h.slot; resident = h.resident; known = h.known })
    | inr first ↦
        simp first
          (record { counted = h.counted; slot = h.slot; resident = h.resident; known = h.known })
  ]

  pub pin_keys-Held :
      (b : Option ℕ) (ks : List Key) (s : Pool T) (p : ℕ)
      → Inv b s
      → Held P k o s
      → Held P k o (pin_keys s ks p)
  unfolding pin_keys
  pin_keys-Held b [] s p v h = h
  pin_keys-Held b (j ∷ ks) s p v h =
      pin_keys-Held b ks (pin s j p) p (pin-Inv b s j p v) (pin-Held s j p v.distinct h)

  pub unpin_keys-Held :
      (ks : List Key) (s : Pool T) (p : ℕ)
      → (o ≢ p) ⊎ (has_key k ks ≡ false)
      → Held P k o s
      → Held P k o (unpin_keys s ks p)
  unfolding unpin_keys has_key
  unpin_keys-Held [] s p ne h = h
  unpin_keys-Held (j ∷ ks) s p (inl other) h =
      unpin_keys-Held ks (unpin_one s j p) p (inl other) (unpin_one-Held s j p (inl other) h)
  unpin_keys-Held (j ∷ ks) s p (inr e) h = elim (Key-discrete j k) [
    | yes same ↦ absurd (ground arith)
    | no other ↦
        unpin_keys-Held ks (unpin_one s j p) p
          (inr (sym (if_neg (Key-discrete j k) other true (has_key k ks)) ∙ e))
          (unpin_one-Held s j p (inr (λ q. other (sym q))) h)
  ]

  take_hit-Held :
      (s : Pool T) (j : Key) (p : ℕ) → Distinct s.slots → Held P k o s → Held P k o (take_hit s j p)
  unfolding take_hit count_hit note_touch
  take_hit-Held s j p d h = pin-Held (note_touch (count_hit s p) j p) j p (ground arith) (
      note_touch-Held (count_hit s p) j p
        (record { counted = h.counted; slot = h.slot; resident = h.resident; known = h.known }))

module _ {T : Type 0} (cfg : Config T) (P : Slot T → Type 0) (k : Key) (o : ℕ) where
  admit_fresh-Held :
      (s : Pool T) (j : Key) (p : ℕ) → k ≢ j → Held P k o s → Held P k o (admit_fresh cfg s j p)
  unfolding admit_fresh count_miss charge_pinned
  admit_fresh-Held s j p ne h =
      let slot = fresh_slot cfg s.made j in
      let s₁ = charge_pinned (insert_slot (count_miss s p) j slot) (s.pinned j) slot.nbytes in
      let inserted =
        insert_slot-Held P k o (count_miss s p) j slot
          (record { counted = h.counted; slot = h.slot; resident = h.resident; known = h.known }) in
      pin-Held_ne P k o (note_touch s₁ j p) j p ne (
        note_touch-Held P k o s₁ j p (record {
          counted = inserted.counted;
          slot = inserted.slot;
          resident = inserted.resident;
          known = inserted.known;
        }))

  revive_file-Held :
      (s : Pool T) (j : Key) (p : ℕ) (file : String) (data' : Stored T)
      → Held P k o s
      → Held P k o (revive_file cfg s j p file data').1
  unfolding revive_file count_mismatch forget_persisted
  revive_file-Held s j p file data' h = elim (Bool-cases (matches cfg j data')) [
    | inr bad ↦
        rw (bad, revive_file)
          (record { counted = h.counted; slot = h.slot; resident = h.resident; known = h.known })
    | inl good ↦
        let r = make_room cfg s data'.nbytes p in
        let held = make_room-Held cfg P k o s data'.nbytes p h in
        elim (Bool-cases r.0) [
          | inr full ↦ rw (good, revive_file, full) held
          | inl room ↦
              rw (good, revive_file, room)
                (insert_slot-Held P k o r.1 j (revived_slot cfg r.1.made j file data') held)
        ]
  ]

  pub revive-Held :
      (disk : Disk T) (s : Pool T) (j : Key) (p : ℕ)
      → Held P k o s
      → Held P k o (revive cfg disk s j p).1
  unfolding revive count_missing forget_persisted
  revive-Held disk s j p h = elim (Bool-cases cfg.persistent) [
    | inr no_cache ↦ simp no_cache h
    | inl cached ↦ elim (Option-cases (find j s.slots)) [
      | inr (slot, e) ↦ simp (cached, e) h
      | inl e ↦ elim (Option-cases (s.persisted j)) [
        | inl q ↦ simp (cached, e, q) h
        | inr (file, q) ↦ elim (Option-cases (disk file)) [
          | inl d ↦
              simp (cached, e, q, d)
                (record {
                  counted = h.counted;
                  slot = h.slot;
                  resident = h.resident;
                  known = h.known;
                })
          | inr (data', d) ↦ simp (cached, e, q, d) (revive_file-Held s j p file data' h)
        ]
      ]
    ]
  ]

  pub pin_if_ready-Held :
      (disk : Disk T) (s : Pool T) (j : Key) (p : ℕ)
      → Inv cfg.budget s
      → Held P k o s
      → Held P k o (pin_if_ready cfg disk s j p).1
  unfolding pin_if_ready
  pin_if_ready-Held disk s j p v h =
      let r = revive cfg disk s j p in
      let back = revive-Held disk s j p h in
      let inv = revive-Inv cfg disk s j p v in
      elim (Bool-cases (is_ready s j)) [
        | inl hit ↦ simp hit (take_hit-Held P k o s j p v.distinct h)
        | inr miss ↦ elim (Bool-cases r.0) [
          | inl revived ↦ simp (miss, revived) (take_hit-Held P k o r.1 j p inv.distinct back)
          | inr gone ↦ simp (miss, gone) back
        ]
      ]

  admit_readonly-Held :
      (disk : Disk T) (s : Pool T) (j : Key) (p : ℕ)
      → Inv cfg.budget s
      → Held P k o s
      → Held P k o (admit_readonly cfg disk s j p).1
  unfolding admit_readonly
  admit_readonly-Held disk s j p v h =
      let r = revive cfg disk s j p in
      let back = revive-Held disk s j p h in
      let inv = revive-Inv cfg disk s j p v in
      elim (Bool-cases r.0) [
        | inl revived ↦ simp revived (take_hit-Held P k o r.1 j p inv.distinct back)
        | inr gone ↦ simp gone back
      ]

  admit_writable-Held :
      (s : Pool T) (j : Key) (p : ℕ)
      → k ≢ j
      → Held P k o s
      → Held P k o (admit_writable cfg s j p).1
  unfolding admit_writable
  admit_writable-Held s j p ne h =
      let r = make_room cfg s (charge cfg j) p in
      let held = make_room-Held cfg P k o s (charge cfg j) p h in
      elim (Bool-cases r.0) [
        | inr over ↦ simp over held
        | inl room ↦ simp room (admit_fresh-Held r.1 j p ne held)
      ]

  resident_ne : (s : Pool T) (j : Key) → find j s.slots ≡ none → Held P k o s → k ≢ j
  resident_ne s j e h same =
      let r : find j s.slots ≡ some h.slot =
        subst (λ i. find i s.slots ≡ some h.slot) same h.resident in
      cc

  pub try_admit-Held :
      (disk : Disk T) (s : Pool T) (j : Key) (p : ℕ)
      → Inv cfg.budget s
      → Held P k o s
      → Held P k o (try_admit cfg disk s j p).1
  unfolding try_admit note_touch
  try_admit-Held disk s j p v h = elim (Option-cases (find j s.slots)) [
    | inr (slot, e) ↦
        rw (e, try_admit)
          (pin-Held P k o (note_touch s j p) j p (ground arith) (note_touch-Held P k o s j p h))
    | inl e ↦ elim (Bool-cases cfg.readonly) [
      | inl only ↦ rw (e, try_admit) (simp only (admit_readonly-Held disk s j p v h))
      | inr writes ↦
          rw (e, try_admit) (simp writes (admit_writable-Held s j p (resident_ne s j e h) h))
    ]
  ]
