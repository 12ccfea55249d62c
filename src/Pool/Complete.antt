-- ===== src/Pool/Complete.antt =====
-- A property of every resident slot, under the operations that admit, drop, reorder and replace slots.
pub mod Slots
pub mod Publishing
pub mod Run
pub mod Tiles
use insitubatch.Base.Int.{ℤ, pos, ◌≤ℤ◌}
use Prim.Native.String.{String}
use mathlib.Core.Option.{some-injective}
use insitubatch.Base.{
  ℕ, suc, ◌+◌, ◌<◌, ◌≡◌, refl, sym, subst, ◌∙◌, inl, inr, Bool, true, false, List, [], ◌∷◌, ◌++◌,
  Option, none, some, All, Bool-cases, Option-cases, if_pos, if_neg, ite, arith, not,
}
use insitubatch.Pool.State.{
  Key, Key-discrete, Slot, SlotState, Config, Pool, find, remove, modify, move_to_end, charge,
}
use insitubatch.Pool.Room.{drop_slot, victim, count_eviction, evict, make_room, make_room_rule}
use insitubatch.Pool.Pins.{pin, unpin_one, pin_keys, unpin_keys}
use insitubatch.Pool.Owners.{forget_owner, abandoned_keys, drop_all, release_owner}
use insitubatch.Pool.Admit.{
  Disk, Stored, has_key, count_hit, count_miss, count_missing, count_mismatch, forget_persisted,
  charge_pinned, note_touch, insert_slot, fresh_slot, revived_slot, take_hit, revive, revive_file,
  matches, is_ready, pin_if_ready, admit_fresh, admit_readonly, admit_writable, try_admit,
}

module _ {T : Type 0} (P : Key → Slot T → Type 0) where
  abbrev pub AllSlots : List (Key × Slot T) → Type 0
  AllSlots slots = All (λ e. P e.0 e.1) slots

  pub find-AllSlots :
      (k : Key) (slots : List (Key × Slot T)) (slot : Slot T)
      → find k slots ≡ some slot
      → AllSlots slots
      → P k slot
  unfolding find
  find-AllSlots k [] slot e h = absurd (let x = e in cc)
  find-AllSlots k ((j, x) ∷ rest) slot e h = elim (Key-discrete j k) [
    | yes same ↦
        (let q : x ≡ slot =
            some-injective x slot
              (sym (if_pos (Key-discrete j k) same (some x) (find k rest)) ∙ e) in
          subst (P k) q (subst (λ i. P i x) same h.0))
    | no other ↦
        find-AllSlots k rest slot (sym (if_neg (Key-discrete j k) other (some x) (find k rest)) ∙ e)
          h.1
  ]

  remove-AllSlots :
      (k : Key) (slots : List (Key × Slot T)) → AllSlots slots → AllSlots (remove k slots)
  unfolding remove
  remove-AllSlots k [] h = tt
  remove-AllSlots k ((j, x) ∷ rest) h = elim (Key-discrete j k) [
    | yes same ↦ rw (if_pos (Key-discrete j k) same) h.1
    | no other ↦ rw (if_neg (Key-discrete j k) other) (h.0, remove-AllSlots k rest h.1)
  ]

  snoc-AllSlots :
      (k : Key) (slot : Slot T) (slots : List (Key × Slot T))
      → P k slot
      → AllSlots slots
      → AllSlots (slots ++ (k, slot) ∷ [])
  snoc-AllSlots k slot [] p h = (p, tt)
  snoc-AllSlots k slot (x ∷ xs) p h = (h.0, snoc-AllSlots k slot xs p h.1)

  move_to_end-AllSlots :
      (k : Key) (slots : List (Key × Slot T)) → AllSlots slots → AllSlots (move_to_end k slots)
  unfolding move_to_end
  move_to_end-AllSlots k slots h = elim (Option-cases (find k slots)) [
    | inl e ↦ rw (e, move_to_end) h
    | inr (slot, e) ↦
        rw (e, move_to_end)
          (snoc-AllSlots k slot (remove k slots) (find-AllSlots k slots slot e h)
            (remove-AllSlots k slots h))
  ]

-- The slots of a pool have the property `P`, and the count of the slots made so far the property `G`.
abbrev pub Every : {T : Type 0} → (ℕ → Type 0) → (ℕ → Key → Slot T → Type 0) → Pool T → Type 0
Every G P s = G s.made × AllSlots (P s.made) s.slots

-- The slots that the pool makes have the property.
pub record Admits {T : Type 0} (cfg : Config T) (G : ℕ → Type 0) (P : ℕ → Key → Slot T → Type 0)
    : Type 0 where
  pub later : (n : ℕ) → G n → G (n + 1)
  pub older : (n : ℕ) (k : Key) (x : Slot T) → P n k x → P (n + 1) k x
  pub fresh : (n : ℕ) (k : Key) → G n → P (n + 1) k (fresh_slot cfg n k)
  pub revived :
      (n : ℕ) (k : Key) (f : String) (d : Stored T) → G n → P (n + 1) k (revived_slot cfg n k f d)

module _ {T : Type 0} (cfg : Config T) (G : ℕ → Type 0) (P : ℕ → Key → Slot T → Type 0) where
  drop_slot-Every : (s : Pool T) (k : Key) → Every G P s → Every G P (drop_slot cfg s k)
  unfolding drop_slot
  drop_slot-Every s k h = elim (Option-cases (find k s.slots)) [
    | inl e ↦ rw (e, drop_slot) h
    | inr (slot, e) ↦ rw (e, drop_slot) (h.0, remove-AllSlots (P s.made) k s.slots h.1)
  ]

  make_room-Every :
      (s : Pool T) (nbytes owner : ℕ) → Every G P s → Every G P (make_room cfg s nbytes owner).1
  unfolding evict count_eviction
  make_room-Every s nbytes owner h =
      make_room_rule cfg (Every G P) nbytes owner
        (λ x k e p. drop_slot-Every (count_eviction x owner) k p) s h

  pub pin-Every : (s : Pool T) (k : Key) (o : ℕ) → Every G P s → Every G P (pin s k o)
  unfolding pin
  pin-Every s k o h = (h.0, move_to_end-AllSlots (P s.made) k s.slots h.1)

  pub pin_keys-Every :
      (ks : List Key) (s : Pool T) (o : ℕ) → Every G P s → Every G P (pin_keys s ks o)
  unfolding pin_keys
  pin_keys-Every [] s o h = h
  pin_keys-Every (k ∷ ks) s o h = pin_keys-Every ks (pin s k o) o (pin-Every s k o h)

  pub unpin_keys-Every :
      (ks : List Key) (s : Pool T) (o : ℕ) → Every G P s → Every G P (unpin_keys s ks o)
  unfolding unpin_keys unpin_one
  unpin_keys-Every [] s o h = h
  unpin_keys-Every (k ∷ ks) s o h = unpin_keys-Every ks (unpin_one s k o) o h

  drop_all-Every : (ks : List Key) (s : Pool T) → Every G P s → Every G P (drop_all cfg s ks)
  unfolding drop_all
  drop_all-Every [] s h = h
  drop_all-Every (k ∷ ks) s h = drop_all-Every ks (drop_slot cfg s k) (drop_slot-Every s k h)

  pub release_owner-Every : (s : Pool T) (o : ℕ) → Every G P s → Every G P (release_owner cfg s o)
  unfolding release_owner forget_owner
  release_owner-Every s o h =
      let freed = forget_owner s o in drop_all-Every (abandoned_keys freed freed.slots) freed h

  note_touch-Every : (s : Pool T) (k : Key) (o : ℕ) → Every G P s → Every G P (note_touch s k o)
  unfolding note_touch
  note_touch-Every s k o h = elim (Bool-cases (has_key k (s.per_owner o).seen)) [
    | inl again ↦ simp again h
    | inr first ↦ simp first h
  ]

  take_hit-Every : (s : Pool T) (k : Key) (o : ℕ) → Every G P s → Every G P (take_hit s k o)
  unfolding take_hit count_hit
  take_hit-Every s k o h =
      pin-Every (note_touch (count_hit s o) k o) k o (note_touch-Every (count_hit s o) k o h)

module _ {T : Type 0} (cfg : Config T) (G : ℕ → Type 0) (P : ℕ → Key → Slot T → Type 0)
    (admits : Admits cfg G P) where
  older-AllSlots :
      (n : ℕ) (slots : List (Key × Slot T)) → AllSlots (P n) slots → AllSlots (P (n + 1)) slots
  older-AllSlots n [] h = tt
  older-AllSlots n (x ∷ xs) h = (admits.older n x.0 x.1 h.0, older-AllSlots n xs h.1)

  insert_slot-Every :
      (s : Pool T) (k : Key) (slot : Slot T)
      → P (s.made + 1) k slot
      → Every G P s
      → Every G P (insert_slot s k slot)
  unfolding insert_slot
  insert_slot-Every s k slot p h = (
    admits.later s.made h.0,
    snoc-AllSlots (P (s.made + 1)) k slot s.slots p (older-AllSlots s.made s.slots h.1),
  )

  revive_file-Every :
      (s : Pool T) (k : Key) (o : ℕ) (file : String) (data' : Stored T)
      → Every G P s
      → Every G P (revive_file cfg s k o file data').1
  unfolding revive_file count_mismatch forget_persisted
  revive_file-Every s k o file data' h = elim (Bool-cases (matches cfg k data')) [
    | inr bad ↦ rw (bad, revive_file) h
    | inl good ↦
        let r = make_room cfg s data'.nbytes o in
        let kept = make_room-Every cfg G P s data'.nbytes o h in
        elim (Bool-cases r.0) [
          | inr over ↦ rw (good, revive_file, over) kept
          | inl room ↦
              rw (good, revive_file, room)
                (insert_slot-Every r.1 k (revived_slot cfg r.1.made k file data')
                  (admits.revived r.1.made k file data' kept.0) kept)
        ]
  ]

  revive-Every :
      (disk : Disk T) (s : Pool T) (k : Key) (o : ℕ)
      → Every G P s
      → Every G P (revive cfg disk s k o).1
  unfolding revive count_missing forget_persisted
  revive-Every disk s k o h = elim (Bool-cases cfg.persistent) [
    | inr no_cache ↦ simp no_cache h
    | inl cached ↦ elim (Option-cases (find k s.slots)) [
      | inr (slot, e) ↦ simp (cached, e) h
      | inl e ↦ elim (Option-cases (s.persisted k)) [
        | inl q ↦ simp (cached, e, q) h
        | inr (file, q) ↦ elim (Option-cases (disk file)) [
          | inl d ↦ simp (cached, e, q, d) h
          | inr (data', d) ↦ simp (cached, e, q, d) (revive_file-Every s k o file data' h)
        ]
      ]
    ]
  ]

  pub pin_if_ready-Every :
      (disk : Disk T) (s : Pool T) (k : Key) (o : ℕ)
      → Every G P s
      → Every G P (pin_if_ready cfg disk s k o).1
  unfolding pin_if_ready
  pin_if_ready-Every disk s k o h =
      let r = revive cfg disk s k o in
      let back = revive-Every disk s k o h in
      elim (Bool-cases (is_ready s k)) [
        | inl hit ↦ simp hit (take_hit-Every cfg G P s k o h)
        | inr miss ↦ elim (Bool-cases r.0) [
          | inl revived ↦ simp (miss, revived) (take_hit-Every cfg G P r.1 k o back)
          | inr gone ↦ simp (miss, gone) back
        ]
      ]

  admit_fresh-Every :
      (s : Pool T) (k : Key) (o : ℕ) → Every G P s → Every G P (admit_fresh cfg s k o)
  unfolding admit_fresh count_miss charge_pinned
  admit_fresh-Every s k o h =
      let slot = fresh_slot cfg s.made k in
      let s₁ = charge_pinned (insert_slot (count_miss s o) k slot) (s.pinned k) slot.nbytes in
      pin-Every cfg G P (note_touch s₁ k o) k o (
        note_touch-Every cfg G P s₁ k o
          (insert_slot-Every (count_miss s o) k slot (admits.fresh s.made k h.0) h))

  admit_writable-Every :
      (s : Pool T) (k : Key) (o : ℕ) → Every G P s → Every G P (admit_writable cfg s k o).1
  unfolding admit_writable
  admit_writable-Every s k o h =
      let r = make_room cfg s (charge cfg k) o in
      let kept = make_room-Every cfg G P s (charge cfg k) o h in
      elim (Bool-cases r.0) [
        | inr over ↦ simp over kept
        | inl room ↦ simp room (admit_fresh-Every r.1 k o kept)
      ]

  admit_readonly-Every :
      (disk : Disk T) (s : Pool T) (k : Key) (o : ℕ)
      → Every G P s
      → Every G P (admit_readonly cfg disk s k o).1
  unfolding admit_readonly
  admit_readonly-Every disk s k o h =
      let r = revive cfg disk s k o in
      let back = revive-Every disk s k o h in
      elim (Bool-cases r.0) [
        | inl revived ↦ simp revived (take_hit-Every cfg G P r.1 k o back)
        | inr gone ↦ simp gone back
      ]

  pub try_admit-Every :
      (disk : Disk T) (s : Pool T) (k : Key) (o : ℕ)
      → Every G P s
      → Every G P (try_admit cfg disk s k o).1
  unfolding try_admit
  try_admit-Every disk s k o h = elim (Option-cases (find k s.slots)) [
    | inr (slot, e) ↦
        rw (e, try_admit)
          (pin-Every cfg G P (note_touch s k o) k o (note_touch-Every cfg G P s k o h))
    | inl e ↦ elim (Bool-cases cfg.readonly) [
      | inl only ↦ rw (e, try_admit) (simp only (admit_readonly-Every disk s k o h))
      | inr writes ↦ rw (e, try_admit) (simp writes (admit_writable-Every s k o h))
    ]
  ]
