-- ===== src/Pool/Budget.antt =====
-- The byte account of the pool: its running charge, the charges of its slots, and the budget.
pub mod Admitting
pub mod Run
use insitubatch.Base.{
  ℕ, zero, suc, ◌+◌, ◌≤◌, ◌≡◌, sym, ◌∙◌, inl, inr, Bool, true, Option, none, some, arith, leb,
  leb→le, length, Option-cases, Bool-cases,
}
use insitubatch.Pool.State.{Key, Config, Pool, find}
use insitubatch.Pool.Room.{drop_slot, victim, count_eviction, evict, room_loop, room_for, make_room}
use insitubatch.Pool.Pins.{pin, unpin_one}
use insitubatch.Pool.Facts.{
  charges, charges-remove, charges-move_to_end, Distinct, remove-Distinct, move_to_end-Distinct,
}

abbrev pub Within : Option ℕ → ℕ → Type 0
Within none n = Unit
Within (some b) n = n ≤ b

pub record Inv {T : Type 0} (budget : Option ℕ) (s : Pool T) : Type 0 where
  pub accounted : s.bytes ≡ charges s.slots
  pub distinct : Distinct s.slots
  pub within : Within budget s.bytes

pub Within-zero : (o : Option ℕ) → Within o 0
Within-zero none = tt
Within-zero (some b) = omega arith

Within-mono : (o : Option ℕ) (m n : ℕ) → m ≤ n → Within o n → Within o m
Within-mono none m n h w = tt
Within-mono (some b) m n h w = omega arith

module _ {T : Type 0} where
  -- What `_make_room` says of the pool that it leaves.
  abbrev pub Fits : Option ℕ → ℕ → Bool × Pool T → Type 0
  Fits none nbytes r = Unit
  Fits (some b) nbytes r = r.0 ≡ true → r.1.bytes + nbytes ≤ b

module _ {T : Type 0} (cfg : Config T) (o : Option ℕ) where
  pub drop_slot-Inv : (s : Pool T) (k : Key) → Inv o s → Inv o (drop_slot cfg s k)
  unfolding drop_slot
  drop_slot-Inv s k v = elim (Option-cases (find k s.slots)) [
    | inl e ↦ rw (e, drop_slot) v
    | inr (slot, e) ↦
        rw (e, drop_slot)
          (record {
            accounted = omega (arith, v.accounted, charges-remove k s.slots slot e);
            distinct = remove-Distinct k s.slots v.distinct;
            within = Within-mono o _ s.bytes (omega arith) v.within;
          })
  ]

  pub evict-Inv : (s : Pool T) (k : Key) (owner : ℕ) → Inv o s → Inv o (evict cfg s k owner)
  unfolding evict count_eviction
  evict-Inv s k owner v =
      drop_slot-Inv (count_eviction s owner) k
        (record { accounted = v.accounted; distinct = v.distinct; within = v.within })

module _ {T : Type 0} (o : Option ℕ) where
  pub pin-Inv : (s : Pool T) (k : Key) (owner : ℕ) → Inv o s → Inv o (pin s k owner)
  unfolding pin
  pin-Inv s k owner v = record {
    accounted = v.accounted ∙ sym (charges-move_to_end k s.slots);
    distinct = move_to_end-Distinct k s.slots v.distinct;
    within = v.within;
  }

  pub unpin_one-Inv : (s : Pool T) (k : Key) (owner : ℕ) → Inv o s → Inv o (unpin_one s k owner)
  unfolding unpin_one
  unpin_one-Inv s k owner v = record {
    accounted = v.accounted;
    distinct = v.distinct;
    within = v.within;
  }

module _ {T : Type 0} (cfg : Config T) where
  room_loop-Inv :
      (fuel : ℕ) (s : Pool T) (b nbytes owner : ℕ)
      → Inv (some b) s
      → Inv (some b) (room_loop cfg fuel s b nbytes owner).1
        × Fits (some b) nbytes (room_loop cfg fuel s b nbytes owner)
  unfolding room_loop
  room_loop-Inv zero s b nbytes owner v = (v, λ h. leb→le _ _ h)
  room_loop-Inv (suc fuel) s b nbytes owner v = elim (Bool-cases (leb (s.bytes + nbytes) b)) [
    | inl fits ↦ rw (fits, room_loop) (v, λ _. leb→le _ _ fits)
    | inr over ↦ elim (Option-cases (victim s)) [
      | inl e ↦ rw (over, room_loop, e) (v, λ h. cc)
      | inr (k, e) ↦
          rw (over, room_loop, e)
            (room_loop-Inv fuel (evict cfg s k owner) b nbytes owner
              (evict-Inv cfg (some b) s k owner v))
    ]
  ]

  room_for-Inv :
      (o : Option ℕ) (s : Pool T) (nbytes owner : ℕ)
      → Inv o s
      → Inv o (room_for cfg o s nbytes owner).1 × Fits o nbytes (room_for cfg o s nbytes owner)
  unfolding room_for
  room_for-Inv none s nbytes owner v = (v, tt)
  room_for-Inv (some b) s nbytes owner v = room_loop-Inv (length s.slots) s b nbytes owner v

  pub make_room-Inv :
      (s : Pool T) (nbytes owner : ℕ)
      → Inv cfg.budget s
      → Inv cfg.budget (make_room cfg s nbytes owner).1
        × Fits cfg.budget nbytes (make_room cfg s nbytes owner)
  unfolding make_room
  make_room-Inv = room_for-Inv cfg.budget
