-- ===== src/Pool/Pins.antt =====
-- pool.py: references. `_pin` and `_unpin_one`, and the public `pin_keys` and `unpin_keys` that are
-- made of them.
use insitubatch.Base.Int.{pos, neg, ◌+ℤ◌}
use insitubatch.Base.{
  ℕ, ◌+◌, ◌-◌, List, [], ◌∷◌, Option, none, some, leb, ◌==◌, if◌then◌else◌, ℕ_discrete,
}
use insitubatch.Pool.State.{
  Key, Key-discrete, Slot, Pool, PassCounters, note_resident, update, find, move_to_end, count,
  set_count, pop_count,
}

-- One more chunk that this owner holds.
unfoldable pub count_hold : ℕ → PassCounters → PassCounters
count_hold n c =
    note_resident
      (record c { resident = c.resident +ℤ pos 1; resident_bytes = c.resident_bytes +ℤ pos n })

unfoldable pub count_release : ℕ → PassCounters → PassCounters
count_release n c = record c {
  resident = c.resident +ℤ neg (pos 1);
  resident_bytes = c.resident_bytes +ℤ neg (pos n);
}

module _ {T : Type 0} where
  -- `slot.nbytes if slot is not None else 0`
  unfoldable pub held_bytes : Option (Slot T) → ℕ
  held_bytes none = 0
  held_bytes (some slot) = slot.nbytes

  -- `_pin`
  unfoldable pub pin : Pool T → Key → ℕ → Pool T
  pin s k owner =
      let held = s.pinned k in
      let n = count owner held in
      record s {
        pinned = update Key-discrete k (set_count owner (n + 1) held) s.pinned;
        per_owner =
            if n == 0
            then update ℕ_discrete owner
                (count_hold (held_bytes (find k s.slots)) (s.per_owner owner)) s.per_owner
            else s.per_owner;
        slots = move_to_end k s.slots;
      }

  -- `_unpin_one`. Without a reference of this owner nothing changes.
  unfoldable pub unpin_one : Pool T → Key → ℕ → Pool T
  unpin_one s k owner =
      let held = s.pinned k in
      let n = count owner held in
      record s {
        pinned =
            update Key-discrete k
              (if leb n 1 then pop_count owner held else set_count owner (n - 1) held) s.pinned;
        per_owner =
            if n == 1
            then update ℕ_discrete owner
                (count_release (held_bytes (find k s.slots)) (s.per_owner owner)) s.per_owner
            else s.per_owner;
      }

  -- `pin_keys` and `unpin_keys`, over the keys of the set in some order
  unfoldable pub pin_keys : Pool T → List Key → ℕ → Pool T
  pin_keys s [] owner = s
  pin_keys s (k ∷ ks) owner = pin_keys (pin s k owner) ks owner

  unfoldable pub unpin_keys : Pool T → List Key → ℕ → Pool T
  unpin_keys s [] owner = s
  unpin_keys s (k ∷ ks) owner = unpin_keys (unpin_one s k owner) ks owner
