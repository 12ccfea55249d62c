-- ===== src/Pool/Room.antt =====
-- pool.py: `_make_room`, `_drop` and `_free`. Dropping the least recently used slot that is finished
-- and that nobody holds, until the charge fits.
use Prim.Native.String.{String}
use insitubatch.Base.{
  ℕ, zero, suc, ◌+◌, ◌-◌, Bool, true, false, ◌&&◌, List, [], ◌∷◌, Option, none, some, leb,
  if◌then◌else◌, length, ℕ_discrete, Bool-cases, Option-cases, ◌≡◌, inl, inr,
}
use insitubatch.Pool.State.{
  Key, Key-discrete, Slot, Config, Pool, update, find, remove, evictable, is_ready_state,
}

module _ {T : Type 0} where
  -- The first evictable slot, least recently used first.
  unfoldable pub victim_in : Pool T → List (Key × Slot T) → Option Key
  victim_in s [] = none
  victim_in s ((k, slot) ∷ rest) = if evictable s (k, slot) then some k else victim_in s rest

  unfoldable pub victim : Pool T → Option Key
  victim s = victim_in s s.slots

  -- `self.evictions += 1` and the owner's
  unfoldable pub count_eviction : Pool T → ℕ → Pool T
  count_eviction s owner =
      let c = s.per_owner owner in
      record s {
        evictions = s.evictions + 1;
        per_owner = update ℕ_discrete owner (record c { evictions = c.evictions + 1 }) s.per_owner;
      }

module _ {T : Type 0} (cfg : Config T) where
  -- `_free`: a file that is not kept is unlinked.
  unfoldable pub free : Slot T → List String → List String
  free slot unlinked =
      let keep = cfg.persistent && is_ready_state slot.state in
      elim slot.backing [ none ↦ unlinked | some file ↦ if keep then unlinked else file ∷ unlinked ]

  -- `_drop`, of a key that is there
  unfoldable pub drop_slot : Pool T → Key → Pool T
  drop_slot s k = elim (find k s.slots) [
    | none ↦ s
    | some slot ↦ record s {
      slots = remove k s.slots;
      pinned = update Key-discrete k [] s.pinned;
      bytes = s.bytes - slot.nbytes;
      unlinked = free slot s.unlinked;
    }
  ]

  unfoldable pub evict : Pool T → Key → ℕ → Pool T
  evict s k owner = drop_slot (count_eviction s owner) k

  -- The `while` of `_make_room`, with a bound on the rounds: every round drops a slot, so as many
  -- rounds as there are slots are enough.
  unfoldable pub room_loop : ℕ → Pool T → ℕ → ℕ → ℕ → Bool × Pool T
  room_loop zero s budget nbytes owner = (leb (s.bytes + nbytes) budget, s)
  room_loop (suc fuel) s budget nbytes owner = elim (leb (s.bytes + nbytes) budget) [
    | true ↦ (true, s)
    | false ↦ elim (victim s) [
      | none ↦ (false, s)
      | some k ↦ room_loop fuel (evict s k owner) budget nbytes owner
    ]
  ]

  -- `_make_room`, over the budget: without one every charge fits.
  unfoldable pub room_for : Option ℕ → Pool T → ℕ → ℕ → Bool × Pool T
  room_for none s nbytes owner = (true, s)
  room_for (some budget) s nbytes owner = room_loop (length s.slots) s budget nbytes owner

  unfoldable pub make_room : Pool T → ℕ → ℕ → Bool × Pool T
  make_room = room_for cfg.budget

  -- What every eviction keeps, `_make_room` keeps.
  room_loop_rule {κ} :
      (P : Pool T → Type κ) (nbytes owner : ℕ)
      → ((s : Pool T) (k : Key) → victim s ≡ some k → P s → P (evict s k owner))
      → (fuel : ℕ) (s : Pool T) (budget : ℕ) → P s
      → P (room_loop fuel s budget nbytes owner).1
  unfolding room_loop
  room_loop_rule P nbytes owner keep zero s budget p = p
  room_loop_rule P nbytes owner keep (suc fuel) s budget p =
      elim (Bool-cases (leb (s.bytes + nbytes) budget)) [
        | inl fits ↦ rw (fits, room_loop) p
        | inr over ↦ elim (Option-cases (victim s)) [
          | inl e ↦ rw (over, room_loop, e) p
          | inr (k, e) ↦
              rw (over, room_loop, e)
                (room_loop_rule P nbytes owner keep fuel (evict s k owner) budget (keep s k e p))
        ]
      ]

  room_for_rule {κ} :
      (P : Pool T → Type κ) (nbytes owner : ℕ)
      → ((s : Pool T) (k : Key) → victim s ≡ some k → P s → P (evict s k owner))
      → (o : Option ℕ) (s : Pool T) → P s
      → P (room_for o s nbytes owner).1
  unfolding room_for
  room_for_rule P nbytes owner keep none s p = p
  room_for_rule P nbytes owner keep (some b) s p =
      room_loop_rule P nbytes owner keep (length s.slots) s b p

  pub make_room_rule {κ} :
      (P : Pool T → Type κ) (nbytes owner : ℕ)
      → ((s : Pool T) (k : Key) → victim s ≡ some k → P s → P (evict s k owner))
      → (s : Pool T) → P s
      → P (make_room s nbytes owner).1
  unfolding make_room
  make_room_rule P nbytes owner keep = room_for_rule P nbytes owner keep cfg.budget
