-- ===== src/Pool/Reclaim.antt =====
-- What `_make_room` reclaims, in which order, and when it gives up.
use mathlib.Core.Option.{some-injective}
use insitubatch.Base.{
  ℕ, zero, suc, ◌+◌, ◌<◌, ◌≤◌, ◌≡◌, ap, subst, ◌∙◌, inl, inr, Bool, true, false, List, [], ◌∷◌,
  ◌++◌, Option, none, some, arith, Option-cases, Bool-cases, ite, if_pos, if_neg, length, All, leb,
}
use insitubatch.Pool.State.{Key, Key-discrete, Slot, Config, Pool, find, evictable}
use insitubatch.Pool.Room.{
  drop_slot, victim_in, victim, count_eviction, evict, room_loop, room_for, make_room,
}
use insitubatch.Pool.Facts.{length-remove}

module _ {T : Type 0} where
  -- The slots that precede the first one of a key.
  abbrev pub older : Key → List (Key × Slot T) → List (Key × Slot T)
  older k [] = []
  older k ((j, slot) ∷ rest) = ite (Key-discrete j k) [] ((j, slot) ∷ older k rest)

  -- No slot of the list may be evicted.
  abbrev pub NoneEvictable : Pool T → List (Key × Slot T) → Type 0
  NoneEvictable s slots = All (λ e. evictable s e ≡ false) slots

  -- Where the scan stops, the slot that is found under that key.
  record Stops (s : Pool T) (slots : List (Key × Slot T)) (k : Key) : Type 0 where
    slot : Slot T
    found : find k slots ≡ some slot
    older_stay : NoneEvictable s (older k slots)

  victim_in-Stops :
      (s : Pool T) (slots : List (Key × Slot T)) (k : Key)
      → victim_in s slots ≡ some k
      → Stops s slots k
  unfolding victim_in find
  victim_in-Stops s [] k e = absurd (let x = e in cc)
  victim_in-Stops s ((j, slot) ∷ rest) k e = elim (Key-discrete j k) [
    | yes same ↦ record {
      slot = slot;
      found = if_pos (Key-discrete j k) same (some slot) (find k rest);
      older_stay = rw (if_pos (Key-discrete j k) same [] ((j, slot) ∷ older k rest)) tt;
    }
    | no other ↦ elim (Bool-cases (evictable s (j, slot))) [
      | inl takes ↦ absurd (other (taken takes))
      | inr stays ↦
          let deeper = victim_in-Stops s rest k (passed stays) in
          record {
            slot = deeper.slot;
            found = if_neg (Key-discrete j k) other (some slot) (find k rest) ∙ deeper.found;
            older_stay =
                rw (if_neg (Key-discrete j k) other [] ((j, slot) ∷ older k rest))
                  (stays, deeper.older_stay);
          }
    ]
  ]
    where
      taken : evictable s (j, slot) ≡ true → j ≡ k
      taken t = ground arith

      passed : evictable s (j, slot) ≡ false → victim_in s rest ≡ some k
      passed t = ground arith

  victim_in-none :
      (s : Pool T) (slots : List (Key × Slot T)) → victim_in s slots ≡ none → NoneEvictable s slots
  unfolding victim_in
  victim_in-none s [] e = tt
  victim_in-none s ((j, slot) ∷ rest) e = elim (Bool-cases (evictable s (j, slot))) [
    | inl takes ↦ absurd (ground arith)
    | inr stays ↦ (stays, victim_in-none s rest (ground arith))
  ]

module _ {T : Type 0} (cfg : Config T) where
  length-evict :
      (s : Pool T) (k : Key) (owner : ℕ)
      → victim s ≡ some k
      → length (evict cfg s k owner).slots + 1 ≡ length s.slots
  unfolding victim evict count_eviction drop_slot
  length-evict s k owner e =
      let at = victim_in-Stops s s.slots k e in
      rw (at.found, evict, drop_slot) (length-remove k s.slots at.slot at.found)

  -- What a refusal means: the charge does not fit, and nothing is left to evict.
  abbrev pub Stuck : ℕ → ℕ → Bool × Pool T → Type 0
  Stuck b nbytes r = (b < r.1.bytes + nbytes) × NoneEvictable r.1 r.1.slots

  over_budget : (m b : ℕ) → leb m b ≡ false → b < m
  over_budget m b e = ground arith

  nothing : (s : Pool T) (slots : List (Key × Slot T)) → length slots ≤ 0 → NoneEvictable s slots
  nothing s [] q = tt
  nothing s (x ∷ xs) q = absurd (omega arith)

  room_loop-Stuck :
      (fuel : ℕ) (s : Pool T) (b nbytes owner : ℕ)
      → length s.slots ≤ fuel
      → (room_loop cfg fuel s b nbytes owner).0 ≡ false
      → Stuck b nbytes (room_loop cfg fuel s b nbytes owner)
  unfolding room_loop victim
  room_loop-Stuck zero s b nbytes owner l =
      λ h. (over_budget (s.bytes + nbytes) b h, nothing s s.slots l)
  room_loop-Stuck (suc fuel) s b nbytes owner l = elim (Bool-cases (leb (s.bytes + nbytes) b)) [
    | inl fits ↦ rw (fits, room_loop) (λ h. absurd (let x = h in cc))
    | inr over ↦ elim (Option-cases (victim s)) [
      | inl e ↦
          rw (over, room_loop, e)
            (λ h. (over_budget (s.bytes + nbytes) b over, victim_in-none s s.slots e))
      | inr (k, e) ↦
          rw (over, room_loop, e)
            (room_loop-Stuck fuel (evict cfg s k owner) b nbytes owner
              (omega (arith, l, length-evict s k owner e)))
    ]
  ]

  room_for-Stuck :
      (o : Option ℕ) (b : ℕ) (s : Pool T) (nbytes owner : ℕ)
      → o ≡ some b
      → (room_for cfg o s nbytes owner).0 ≡ false
      → Stuck b nbytes (room_for cfg o s nbytes owner)
  unfolding room_for
  room_for-Stuck none b s nbytes owner e h = absurd (let x = e in cc)
  room_for-Stuck (some c) b s nbytes owner e h =
      subst (λ n. Stuck n nbytes (room_loop cfg (length s.slots) s c nbytes owner))
        (some-injective c b e) (room_loop-Stuck (length s.slots) s c nbytes owner (omega arith) h)

  -- When `_make_room` refuses a charge, the charge is over the budget beside what is then resident,
  -- and no resident slot may be evicted: each is unfinished, being written, or referenced.
  pub make_room-Stuck :
      (b : ℕ) (s : Pool T) (nbytes owner : ℕ)
      → cfg.budget ≡ some b
      → (make_room cfg s nbytes owner).0 ≡ false
      → Stuck b nbytes (make_room cfg s nbytes owner)
  unfolding make_room
  make_room-Stuck b s nbytes owner = room_for-Stuck cfg.budget b s nbytes owner

module _ {T : Type 0} where
  -- The entries of the slots up to the victim: it may be evicted, and none before it may.
  abbrev pub FirstEvictable : Pool T → List (Key × Slot T) → Key → Type 0
  FirstEvictable s slots k =
      (before : List (Key × Slot T)) × (slot : Slot T) × (after : List (Key × Slot T)) × (slots
        ≡ before ++ (k, slot) ∷ after)
      × (evictable s (k, slot) ≡ true)
      × NoneEvictable s before

  victim_in-first :
      (s : Pool T) (slots : List (Key × Slot T)) (k : Key)
      → victim_in s slots ≡ some k
      → FirstEvictable s slots k
  unfolding victim_in
  victim_in-first s [] k e = absurd (let x = e in cc)
  victim_in-first s ((j, slot) ∷ rest) k e = elim (Bool-cases (evictable s (j, slot))) [
    | inl takes ↦
        (let same : j ≡ k = some-injective j k (rw takes at e) in
          (
            [],
            slot,
            rest,
            ap (λ i. (i, slot) ∷ rest) same,
            subst (λ i. evictable s (i, slot) ≡ true) same takes,
            tt,
          ))
    | inr stays ↦
        (let (before, found, after, split, may, none_may) =
            victim_in-first s rest k (rw stays at e) in
          ((j, slot) ∷ before, found, after, ap (◌∷◌ (j, slot)) split, may, (stays, none_may)))
  ]

  -- The victim is the least recently used slot that may be evicted: in the order of their use, a
  -- resident slot under that key may be evicted, and no slot before it may.
  pub victim-oldest : (s : Pool T) (k : Key) → victim s ≡ some k → FirstEvictable s s.slots k
  unfolding victim
  victim-oldest s k e = victim_in-first s s.slots k e
