-- ===== src/Pool/Holding/Taking.antt =====
-- What a pass has of a chunk right after `try_admit` and `pin_if_ready` have taken it.
use Prim.Native.String.{String}
use insitubatch.Base.{
  ℕ, ◌+◌, ◌≡◌, ◌≢◌, refl, sym, subst, ap, ◌∙◌, inl, inr, true, false, [], ◌∷◌, none, some,
  Option-cases, Bool-cases, arith, if_pos,
}
use insitubatch.Pool.State.{
  Key, Key-discrete, Slot, is_ready_state, Config, Pool, find, count, charge,
}
use insitubatch.Pool.Room.{make_room}
use insitubatch.Pool.Pins.{pin}
use insitubatch.Pool.Owners.{wait_satisfied}
use insitubatch.Pool.Admit.{
  Disk, Stored, admitted, note_touch, count_hit, insert_slot, revived_slot, fresh_slot, take_hit,
  revive, revive_file, matches, is_ready, pin_if_ready, admit_fresh, admit_readonly, admit_writable,
  try_admit, charge_pinned, count_miss,
}
use insitubatch.Pool.Facts.{
  Distinct, snoc-Distinct, find-append_ne, find-move_to_end, count-set_count_self,
}
use insitubatch.Pool.Budget.{Inv, make_room-Inv}
use insitubatch.Pool.Budget.Admitting.{revive-Inv, make_room-absent}
use insitubatch.Pool.Holding.{Held}
use insitubatch.Pool.Holding.Known.{Settled, Any}

module _ {T : Type 0} where
  pin-takes :
      (P : Slot T → Type 0) (s : Pool T) (k : Key) (o : ℕ) (slot : Slot T)
      → Distinct s.slots
      → find k s.slots ≡ some slot
      → P slot
      → Held P k o (pin s k o)
  unfolding pin
  pin-takes P s k o slot d e p = record {
    counted =
        rw
          (
            if_pos (Key-discrete k k) refl,
            count-set_count_self o (count o (s.pinned k) + 1) (s.pinned k),
          )
          (omega arith);
    slot = slot;
    resident = find-move_to_end k k s.slots d ∙ e;
    known = p;
  }

  note_touch-slots : (s : Pool T) (k : Key) (o : ℕ) → (note_touch s k o).slots ≡ s.slots
  unfolding note_touch
  note_touch-slots s k o = ground arith

  take_hit-takes :
      (P : Slot T → Type 0) (s : Pool T) (k : Key) (o : ℕ) (slot : Slot T)
      → Distinct s.slots
      → find k s.slots ≡ some slot
      → P slot
      → Held P k o (take_hit s k o)
  unfolding take_hit count_hit
  take_hit-takes P s k o slot d e p =
      let s₁ = note_touch (count_hit s o) k o in
      let same : s₁.slots ≡ s.slots = note_touch-slots (count_hit s o) k o in
      pin-takes P s₁ k o slot (subst Distinct (sym same) d) (ap (find k) same ∙ e) p

  pub Held-wait_satisfied :
      (s : Pool T) (k : Key) (o : ℕ) → Held Settled k o s → wait_satisfied s k o ≡ true
  unfolding wait_satisfied
  Held-wait_satisfied s k o h = elim (Option-cases s.error) [
    | inr (e, q) ↦ rw (q, wait_satisfied) refl
    | inl q ↦
        rw (q, wait_satisfied, h.resident)
          (elim (Option-cases h.slot.error) [
            | inr (e, r) ↦ rw r refl
            | inl r ↦ rw r (let c = h.counted in let p = h.known in ground arith)
          ])
  ]

-- A slot with this property is resident under the key.
record Resident {T : Type 0} (P : Slot T → Type 0) (k : Key) (s : Pool T) : Type 0 where
  slot : Slot T
  found : find k s.slots ≡ some slot
  known : P slot

module _ {T : Type 0} (cfg : Config T) (k : Key) where
  insert_slot-Resident :
      (P : Slot T → Type 0) (s : Pool T) (slot : Slot T)
      → find k s.slots ≡ none
      → P slot
      → Resident P k (insert_slot s k slot)
  unfolding insert_slot find
  insert_slot-Resident P s slot e p = record {
    slot = slot;
    found =
        find-append_ne k s.slots ((k, slot) ∷ []) e
        ∙ if_pos (Key-discrete k k) refl (some slot) none;
    known = p;
  }

  is_ready-Resident : (s : Pool T) → is_ready s k ≡ true → Resident Settled k s
  unfolding is_ready
  is_ready-Resident s h = elim (Option-cases (find k s.slots)) [
    | inl e ↦ absurd (false≢true (sym (ready_of_none e) ∙ h))
    | inr (slot, e) ↦ record {
      slot = slot;
      found = e;
      known = settled_of_ready slot (sym (ready_of_some slot e) ∙ h);
    }
  ]
    where
      false≢true : false ≢ true
      false≢true p = cc

      ready_of_none : find k s.slots ≡ none → is_ready s k ≡ false
      ready_of_none e = rw (e, is_ready) refl

      ready_of_some : (x : Slot T) → find k s.slots ≡ some x → is_ready s k ≡ is_ready_state x.state
      ready_of_some x e = rw (e, is_ready) refl

      settled_of_ready : (x : Slot T) → is_ready_state x.state ≡ true → Settled x
      settled_of_ready x r = ground arith

  revived_slot-Settled :
      (i : ℕ) (file : String) (data' : Stored T) → Settled (revived_slot cfg i k file data')
  unfolding revived_slot
  revived_slot-Settled i file data' = refl

  revive_file-Resident :
      (s : Pool T) (o : ℕ) (file : String) (data' : Stored T)
      → find k s.slots ≡ none
      → (revive_file cfg s k o file data').0 ≡ true
      → Resident Settled k (revive_file cfg s k o file data').1
  unfolding revive_file
  revive_file-Resident s o file data' e h = elim (Bool-cases (matches cfg k data')) [
    | inr bad ↦
        absurd
          (let f : (revive_file cfg s k o file data').0 ≡ false = rw (bad, revive_file) refl in cc)
    | inl good ↦
        let r = make_room cfg s data'.nbytes o in
        elim (Bool-cases r.0) [
          | inr over ↦ absurd (
              let f : (revive_file cfg s k o file data').0 ≡ false =
                rw (good, revive_file, over) refl in
              cc)
          | inl room ↦
              rw (good, revive_file, room)
                (insert_slot-Resident Settled r.1 (revived_slot cfg r.1.made k file data')
                  (make_room-absent cfg k s data'.nbytes o e)
                  (revived_slot-Settled r.1.made file data'))
        ]
  ]

  revive-Resident :
      (disk : Disk T) (s : Pool T) (o : ℕ)
      → (revive cfg disk s k o).0 ≡ true
      → Resident Settled k (revive cfg disk s k o).1
  unfolding revive
  revive-Resident disk s o = elim (Bool-cases cfg.persistent) [
    | inr no_cache ↦ simp no_cache (λ h. absurd (let x = h in cc))
    | inl cached ↦ elim (Option-cases (find k s.slots)) [
      | inr (slot, e) ↦ simp (cached, e) (λ h. absurd (let x = h in cc))
      | inl e ↦ elim (Option-cases (s.persisted k)) [
        | inl q ↦ simp (cached, e, q) (λ h. absurd (let x = h in cc))
        | inr (file, q) ↦ elim (Option-cases (disk file)) [
          | inl d ↦ simp (cached, e, q, d) (λ h. absurd (let x = h in cc))
          | inr (data', d) ↦ simp (cached, e, q, d) (revive_file-Resident s o file data' e)
        ]
      ]
    ]
  ]

  take_hit-Held_of :
      (P : Slot T → Type 0) (s : Pool T) (o : ℕ)
      → Distinct s.slots
      → Resident P k s
      → Held P k o (take_hit s k o)
  take_hit-Held_of P s o d r = take_hit-takes P s k o r.slot d r.found r.known

  -- The chunk that `pin_if_ready` reports as taken is held, and nobody need wait for it.
  pub pin_if_ready-takes :
      (disk : Disk T) (s : Pool T) (o : ℕ)
      → Inv cfg.budget s
      → (pin_if_ready cfg disk s k o).0 ≡ true
      → Held Settled k o (pin_if_ready cfg disk s k o).1
  unfolding pin_if_ready
  pin_if_ready-takes disk s o v =
      let r = revive cfg disk s k o in
      let inv = revive-Inv cfg disk s k o v in
      elim (Bool-cases (is_ready s k)) [
        | inl hit ↦
            simp hit (λ h. take_hit-Held_of Settled s o v.distinct (is_ready-Resident s hit))
        | inr miss ↦ elim (Bool-cases r.0) [
          | inl revived ↦
              simp (miss, revived)
                (λ h.
                  take_hit-Held_of Settled r.1 o inv.distinct (revive-Resident disk s o revived))
          | inr gone ↦ simp (miss, gone) (λ h. absurd (let x = h in cc))
        ]
      ]

  touch_pin-takes :
      (s : Pool T) (o : ℕ) (slot : Slot T)
      → Distinct s.slots
      → find k s.slots ≡ some slot
      → Held Any k o (pin (note_touch s k o) k o)
  touch_pin-takes s o slot d e =
      let same : (note_touch s k o).slots ≡ s.slots = note_touch-slots s k o in
      pin-takes Any (note_touch s k o) k o slot (subst Distinct (sym same) d) (ap (find k) same ∙ e)
        tt

  admit_fresh-takes :
      (s : Pool T) (o : ℕ)
      → find k s.slots ≡ none
      → Distinct s.slots
      → Held Any k o (admit_fresh cfg s k o)
  unfolding admit_fresh charge_pinned count_miss insert_slot
  admit_fresh-takes s o e d =
      let slot = fresh_slot cfg s.made k in
      let s₁ = charge_pinned (insert_slot (count_miss s o) k slot) (s.pinned k) slot.nbytes in
      let r = insert_slot-Resident Any (count_miss s o) slot e tt in
      touch_pin-takes s₁ o r.slot (snoc-Distinct k slot s.slots e d) r.found

  admit_writable-takes :
      (s : Pool T) (o : ℕ)
      → find k s.slots ≡ none
      → Inv cfg.budget s
      → (admit_writable cfg s k o).0 ≡ admitted
      → Held Any k o (admit_writable cfg s k o).1
  unfolding admit_writable
  admit_writable-takes s o e v =
      let r = make_room cfg s (charge cfg k) o in
      let (inv, fits) = make_room-Inv cfg s (charge cfg k) o v in
      elim (Bool-cases r.0) [
        | inr over ↦ simp over (λ h. absurd (let x = h in cc))
        | inl room ↦ simp room (λ h.
            admit_fresh-takes r.1 o (make_room-absent cfg k s (charge cfg k) o e) inv.distinct)
      ]

  admit_readonly-takes :
      (disk : Disk T) (s : Pool T) (o : ℕ)
      → Inv cfg.budget s
      → (admit_readonly cfg disk s k o).0 ≡ admitted
      → Held Any k o (admit_readonly cfg disk s k o).1
  unfolding admit_readonly
  admit_readonly-takes disk s o v =
      let r = revive cfg disk s k o in
      let inv = revive-Inv cfg disk s k o v in
      elim (Bool-cases r.0) [
        | inl revived ↦ simp revived (λ h.
            (let x = revive-Resident disk s o revived in
              take_hit-takes Any r.1 k o x.slot inv.distinct x.found tt))
        | inr gone ↦ simp gone (λ h. absurd (let x = h in cc))
      ]

  -- The chunk that `try_admit` admits is resident, with a reference of the pass that asked.
  pub try_admit-takes :
      (disk : Disk T) (s : Pool T) (o : ℕ)
      → Inv cfg.budget s
      → (try_admit cfg disk s k o).0 ≡ admitted
      → Held Any k o (try_admit cfg disk s k o).1
  unfolding try_admit
  try_admit-takes disk s o v = elim (Option-cases (find k s.slots)) [
    | inr (slot, e) ↦ rw (e, try_admit) (λ h. touch_pin-takes s o slot v.distinct e)
    | inl e ↦ elim (Bool-cases cfg.readonly) [
      | inl only ↦ rw (e, try_admit) (simp only (admit_readonly-takes disk s o v))
      | inr writes ↦ rw (e, try_admit) (simp writes (admit_writable-takes s o e v))
    ]
  ]
