-- ===== src/Pool/Complete/Slots.antt =====
-- The condition on a slot under which it is published complete, slot by slot.
use mathlib.Core.Option.{some-injective}
use insitubatch.Base.Int.{pos, ◌≤ℤ◌}
use insitubatch.Base.{
  ℕ, ◌+◌, ◌<◌, ◌≡◌, refl, sym, subst, ap, ◌∙◌, Bool, true, false, List, [], ◌∷◌, none, some, All,
  if_pos, if_neg, arith,
}
use insitubatch.Pool.State.{Key, Key-discrete, Slot, SlotState, assembled, ready, find, modify}
use insitubatch.Pool.Calls.{take_publishing, end_publishing}
use insitubatch.Pool.Facts.{Distinct}
use insitubatch.Pool.Complete.{AllSlots}

-- ASSEMBLED or READY
abbrev pub is_done : SlotState → Bool
is_done assembled = true
is_done ready = true
is_done _ = false

-- No tile of the slot is outstanding, by the count that `_advance` tests.
abbrev pub Landed : {T : Type 0} → Slot T → Type 0
Landed slot = slot.pending ≤ℤ pos 0

module _ {T : Type 0} where
  -- The slots that threads are about to publish were made before.
  abbrev pub Made : List (Key × Slot T) → ℕ → Type 0
  Made pubs n = All (λ p. p.1.ident < n) pubs

  abbrev pub Matches : List (Key × Slot T) → Key → Slot T → Type 0
  Matches pubs k slot = All (λ p. k ≡ p.0 → slot.ident ≡ p.1.ident → Landed slot) pubs

  -- A slot that is done has landed, and so has one that a thread is about to publish.
  abbrev pub Sound : List (Key × Slot T) → ℕ → Key → Slot T → Type 0
  Sound pubs n k slot =
      ((is_done slot.state ≡ true → Landed slot) × Matches pubs k slot) × (slot.ident < n)

  pub Made-later : (pubs : List (Key × Slot T)) (n : ℕ) → Made pubs n → Made pubs (n + 1)
  Made-later [] n h = tt
  Made-later (p ∷ pubs) n h = (omega (arith, h.0), Made-later pubs n h.1)

  pub Made-Matches :
      (pubs : List (Key × Slot T)) (k : Key) (slot : Slot T)
      → Made pubs slot.ident
      → Matches pubs k slot
  Made-Matches [] k slot h = tt
  Made-Matches (p ∷ pubs) k slot h =
      ((λ q e. absurd (omega (arith, h.0, e))), Made-Matches pubs k slot h.1)

  -- A change that keeps the slot's identity, and what has landed
  pub Matches-moves :
      (pubs : List (Key × Slot T)) (k : Key) (x y : Slot T)
      → y.ident ≡ x.ident
      → (Landed x → Landed y)
      → Matches pubs k x
      → Matches pubs k y
  Matches-moves [] k x y e f h = tt
  Matches-moves (p ∷ pubs) k x y e f h =
      ((λ r q. f (h.0 r (sym e ∙ q))), Matches-moves pubs k x y e f h.1)

  pub modify-AllSlots :
      (P : Key → Slot T → Type 0) (k : Key) (f : Slot T → Slot T) (slots : List (Key × Slot T))
      → ((x : Slot T) → find k slots ≡ some x → P k x → P k (f x))
      → AllSlots P slots
      → AllSlots P (modify k f slots)
  unfolding modify find
  modify-AllSlots P k f [] keep h = tt
  modify-AllSlots P k f ((j, x) ∷ rest) keep h = elim (Key-discrete j k) [
    | yes same ↦ rw (if_pos (Key-discrete j k) same) (
      subst (λ i. P i (f x)) (sym same)
          (keep x (if_pos (Key-discrete j k) same (some x) (find k rest))
            (subst (λ i. P i x) same h.0)),
      h.1,
    )
    | no other ↦ rw (if_neg (Key-discrete j k) other) (
      h.0,
      modify-AllSlots P k f rest
          (λ y e p. keep y (if_neg (Key-discrete j k) other (some x) (find k rest) ∙ e) p) h.1,
    )
  ]

  -- A thread takes the slot of a key to publish it: one more condition on the slots of that key.
  pub begin-rest :
      (pubs : List (Key × Slot T)) (n : ℕ) (k : Key) (seen : Slot T) (slots : List (Key × Slot T))
      → find k slots ≡ none
      → AllSlots (Sound pubs n) slots
      → AllSlots (Sound ((k, seen) ∷ pubs) n) slots
  unfolding find
  begin-rest pubs n k seen [] e h = tt
  begin-rest pubs n k seen ((j, x) ∷ rest) e h = elim (Key-discrete j k) [
    | yes same ↦ absurd (ground arith)
    | no other ↦ (
      ((h.0.0.0, ((λ r. absurd (other r)), h.0.0.1)), h.0.1),
      begin-rest pubs n k seen rest
          (sym (if_neg (Key-discrete j k) other (some x) (find k rest)) ∙ e) h.1,
    )
  ]

  pub begin-AllSlots :
      (pubs : List (Key × Slot T)) (n : ℕ) (k : Key) (seen : Slot T) (slots : List (Key × Slot T))
      → Distinct slots
      → find k slots ≡ some seen
      → Landed seen
      → AllSlots (Sound pubs n) slots
      → AllSlots (Sound ((k, seen) ∷ pubs) n) (modify k (λ x. record x { state = assembled }) slots)
  unfolding modify find
  begin-AllSlots pubs n k seen [] d e l h = tt
  begin-AllSlots pubs n k seen ((j, x) ∷ rest) d e l h = elim (Key-discrete j k) [
    | yes same ↦
        let found : x ≡ seen =
          some-injective x seen (sym (if_pos (Key-discrete j k) same (some x) (find k rest)) ∙ e) in
        let landed : Landed x = subst Landed (sym found) l in
        rw (if_pos (Key-discrete j k) same) (
          (
            (
              (λ _. landed),
              (
                (λ _ _. landed),
                Matches-moves pubs j x (record x { state = assembled }) refl (λ y. y) h.0.0.1,
              ),
            ),
            h.0.1,
          ),
          begin-rest pubs n k seen rest (subst (λ i. find i rest ≡ none) same d.0) h.1,
        )
    | no other ↦ rw (if_neg (Key-discrete j k) other) (
      ((h.0.0.0, ((λ r. absurd (other r)), h.0.0.1)), h.0.1),
      begin-AllSlots pubs n k seen rest d.1
          (sym (if_neg (Key-discrete j k) other (some x) (find k rest)) ∙ e) l h.1,
    )
  ]

  -- Fewer threads, fewer conditions
  pub take-Matches :
      (pubs : List (Key × Slot T)) (j k : Key) (x seen : Slot T)
      → take_publishing k pubs ≡ some seen
      → j ≡ k
      → Matches pubs j x
      → x.ident ≡ seen.ident
      → Landed x
  unfolding take_publishing
  take-Matches [] j k x seen e same h i = absurd (let y = e in cc)
  take-Matches ((l, s) ∷ pubs) j k x seen e same h i = elim (Key-discrete l k) [
    | yes here ↦ h.0 (same ∙ sym here) (
        i
        ∙ sym (
            ap (λ z. z.ident)
              (some-injective s seen
                (sym (if_pos (Key-discrete l k) here (some s) (take_publishing k pubs)) ∙ e))))
    | no other ↦
        take-Matches pubs j k x seen
          (sym (if_neg (Key-discrete l k) other (some s) (take_publishing k pubs)) ∙ e) same h.1 i
  ]

  -- What holds of every thread about to publish holds when one of them has finished.
  pub end-All :
      (Q : Key × Slot T → Type 0) (k : Key) (pubs : List (Key × Slot T))
      → All Q pubs
      → All Q (end_publishing k pubs)
  unfolding end_publishing
  end-All Q k [] h = tt
  end-All Q k ((j, s) ∷ pubs) h = elim (Key-discrete j k) [
    | yes same ↦ rw (if_pos (Key-discrete j k) same) h.1
    | no other ↦ rw (if_neg (Key-discrete j k) other) (h.0, end-All Q k pubs h.1)
  ]

  pub end-Sound :
      (pubs : List (Key × Slot T)) (n : ℕ) (k : Key) (slots : List (Key × Slot T))
      → AllSlots (Sound pubs n) slots
      → AllSlots (Sound (end_publishing k pubs) n) slots
  end-Sound pubs n k [] h = tt
  end-Sound pubs n k ((j, x) ∷ slots) h = (
    ((h.0.0.0, end-All (λ p. j ≡ p.0 → x.ident ≡ p.1.ident → Landed x) k pubs h.0.0.1), h.0.1),
    end-Sound pubs n k slots h.1,
  )
