-- ===== src/Pool/Holding.antt =====
-- A chunk that a pass holds: it is resident, and the pass's count of it is positive. What an
-- eviction, an admission and a reference of another pass leave of it.
pub mod Moves
pub mod Run
pub mod Known
pub mod Taking
pub mod Passes
use insitubatch.Base.{
  ℕ, ◌<◌, ◌≤◌, ◌≡◌, ◌≢◌, refl, sym, ◌∙◌, subst, inl, inr, Bool, true, false, List, [], ◌∷◌, Option,
  none, some, arith, Option-cases, Bool-cases, if_neg,
}
use insitubatch.Pool.State.{
  Key, Key-discrete, Slot, Config, Pool, update, find, remove, count, total, refs, evictable,
}
use insitubatch.Pool.Room.{
  drop_slot, victim_in, victim, count_eviction, evict, make_room, make_room_rule,
}
use insitubatch.Pool.Facts.{find-remove_ne, count-le-total}

module _ {T : Type 0} where
  -- `P` is what is known of the slot.
  pub record Held (P : Slot T → Type 0) (k : Key) (o : ℕ) (s : Pool T) : Type 0 where
    pub counted : 0 < count o (s.pinned k)
    pub slot : Slot T
    pub resident : find k s.slots ≡ some slot
    pub known : P slot

  victim_in-refs :
      (s : Pool T) (slots : List (Key × Slot T)) (k : Key)
      → victim_in s slots ≡ some k
      → refs s k ≡ 0
  unfolding victim_in evictable refs
  victim_in-refs s [] k e = cc
  victim_in-refs s ((j, slot) ∷ rest) k e = elim (Bool-cases (evictable s (j, slot))) [
    | inl takes ↦ ground arith
    | inr stays ↦ victim_in-refs s rest k (ground arith)
  ]

  -- A chunk that is held is not a victim.
  pub victim-ne :
      (P : Slot T → Type 0) (s : Pool T) (k j : Key) (o : ℕ) → Held P k o s → refs s j ≡ 0 → k ≢ j
  unfolding refs
  victim-ne P s k j o h e p =
      let c : 0 < count o (s.pinned j) = subst (λ i. 0 < count o (s.pinned i)) p h.counted in
      omega (arith, c, e, count-le-total o (s.pinned j))

module _ {T : Type 0} (cfg : Config T) (P : Slot T → Type 0) (k : Key) (o : ℕ) where
  pub drop_slot-Held :
      (s : Pool T) (j : Key) → k ≢ j → Held P k o s → Held P k o (drop_slot cfg s j)
  unfolding drop_slot
  drop_slot-Held s j ne h = elim (Option-cases (find j s.slots)) [
    | inl e ↦ rw (e, drop_slot) h
    | inr (slot, e) ↦
        rw (e, drop_slot)
          (record {
            counted = rw (if_neg (Key-discrete k j) ne) h.counted;
            slot = h.slot;
            resident = find-remove_ne k j s.slots ne ∙ h.resident;
            known = h.known;
          })
  ]

  evict-Held :
      (s : Pool T) (j : Key) (owner : ℕ)
      → victim s ≡ some j
      → Held P k o s
      → Held P k o (evict cfg s j owner)
  unfolding evict count_eviction victim
  evict-Held s j owner e h =
      drop_slot-Held (count_eviction s owner) j
        (victim-ne P s k j o h (victim_in-refs s s.slots j e))
        (record { counted = h.counted; slot = h.slot; resident = h.resident; known = h.known })

  pub make_room-Held :
      (s : Pool T) (nbytes owner : ℕ) → Held P k o s → Held P k o (make_room cfg s nbytes owner).1
  make_room-Held s nbytes owner =
      make_room_rule cfg (Held P k o) nbytes owner (λ x j e h. evict-Held x j owner e h) s
