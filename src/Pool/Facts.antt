-- ===== src/Pool/Facts.antt =====
-- Laws of the pool's dictionaries: the slots in recency order, and an owner's counts.
use mathlib.Core.Logic.{if_pos, if_neg}
use insitubatch.Base.{
  ℕ, ◌+◌, ◌≤◌, ◌≡◌, ◌≢◌, refl, sym, ◌∙◌, inl, inr, List, [], ◌∷◌, ◌++◌, none, some, arith, length,
  Option-cases,
}
use insitubatch.Pool.State.{
  Key, Key-discrete, Slot, find, remove, modify, move_to_end, count, set_count, pop_count, total,
}

module _ {T : Type 0} where
  -- What the resident slots are charged together.
  abbrev pub charges : List (Key × Slot T) → ℕ
  charges [] = 0
  charges ((k, slot) ∷ rest) = slot.nbytes + charges rest

  pub charges-append : (xs ys : List (Key × Slot T)) → charges (xs ++ ys) ≡ charges xs + charges ys
  charges-append [] ys = omega arith
  charges-append ((k, slot) ∷ xs) ys = omega (arith, charges-append xs ys)

  pub charges-remove :
      (k : Key) (slots : List (Key × Slot T)) (slot : Slot T)
      → find k slots ≡ some slot
      → charges (remove k slots) + slot.nbytes ≡ charges slots
  unfolding find remove
  charges-remove k [] slot e = cc
  charges-remove k ((j, x) ∷ rest) slot e = ground (arith, charges-remove k rest slot)

  pub length-remove :
      (k : Key) (slots : List (Key × Slot T)) (slot : Slot T)
      → find k slots ≡ some slot
      → length (remove k slots) + 1 ≡ length slots
  unfolding find remove
  length-remove k [] slot e = cc
  length-remove k ((j, x) ∷ rest) slot e = ground (arith, length-remove k rest slot)

  pub charges-move_to_end :
      (k : Key) (slots : List (Key × Slot T)) → charges (move_to_end k slots) ≡ charges slots
  unfolding move_to_end
  charges-move_to_end k slots = elim (Option-cases (find k slots)) [
    | inl e ↦ rw (e, move_to_end) refl
    | inr (slot, e) ↦
        rw (e, move_to_end, charges-append (remove k slots) ((k, slot) ∷ []))
          (omega (arith, charges-remove k slots slot e))
  ]

  pub charges-modify :
      (k : Key) (f : Slot T → Slot T) (slots : List (Key × Slot T))
      → ((slot : Slot T) → (f slot).nbytes ≡ slot.nbytes)
      → charges (modify k f slots) ≡ charges slots
  unfolding modify
  charges-modify k f [] h = refl
  charges-modify k f ((j, x) ∷ rest) h = ground (arith, h x, charges-modify k f rest h)

  pub find-append_ne :
      (k : Key) (xs ys : List (Key × Slot T)) → find k xs ≡ none → find k (xs ++ ys) ≡ find k ys
  unfolding find
  find-append_ne k [] ys e = refl
  find-append_ne k ((j, x) ∷ xs) ys e = ground (arith, find-append_ne k xs ys)

  pub find-append :
      (k : Key) (xs ys : List (Key × Slot T)) (slot : Slot T)
      → find k xs ≡ some slot
      → find k (xs ++ ys) ≡ some slot
  unfolding find
  find-append k [] ys slot e = cc
  find-append k ((j, x) ∷ xs) ys slot e = ground (arith, find-append k xs ys slot)

  pub find-remove_ne :
      (k j : Key) (slots : List (Key × Slot T)) → k ≢ j → find k (remove j slots) ≡ find k slots
  unfolding find remove
  find-remove_ne k j [] h = refl
  find-remove_ne k j ((i, x) ∷ rest) h = ground (arith, find-remove_ne k j rest h)

  pub find-modify_ne :
      (k j : Key) (f : Slot T → Slot T) (slots : List (Key × Slot T))
      → k ≢ j
      → find k (modify j f slots) ≡ find k slots
  unfolding find modify
  find-modify_ne k j f [] h = refl
  find-modify_ne k j f ((i, x) ∷ rest) h = ground (arith, find-modify_ne k j f rest h)

  pub find-modify_self :
      (k : Key) (f : Slot T → Slot T) (slots : List (Key × Slot T)) (slot : Slot T)
      → find k slots ≡ some slot
      → find k (modify k f slots) ≡ some (f slot)
  unfolding find modify
  find-modify_self k f [] slot e = cc
  find-modify_self k f ((i, x) ∷ rest) slot e = ground (arith, find-modify_self k f rest slot)

  -- A key is the key of one slot at most.
  abbrev pub Distinct : List (Key × Slot T) → Type 0
  Distinct [] = Unit
  Distinct ((k, slot) ∷ rest) = (find k rest ≡ none) × Distinct rest

  pub find-remove_self :
      (k : Key) (slots : List (Key × Slot T)) → Distinct slots → find k (remove k slots) ≡ none
  unfolding find remove
  find-remove_self k [] d = refl
  find-remove_self k ((i, x) ∷ rest) d = ground (arith, find-remove_self k rest d.1)

  pub remove-Distinct :
      (k : Key) (slots : List (Key × Slot T)) → Distinct slots → Distinct (remove k slots)
  unfolding remove find
  remove-Distinct k [] d = tt
  remove-Distinct k ((i, x) ∷ rest) d = elim (Key-discrete i k) [
    | yes e ↦ rw (if_pos _ e) d.1
    | no ne ↦ rw (if_neg _ ne) (find-remove_ne i k rest ne ∙ d.0, remove-Distinct k rest d.1)
  ]

  pub snoc-Distinct :
      (k : Key) (slot : Slot T) (slots : List (Key × Slot T))
      → find k slots ≡ none
      → Distinct slots
      → Distinct (slots ++ (k, slot) ∷ [])
  unfolding find
  snoc-Distinct k slot [] e d = (refl, tt)
  snoc-Distinct k slot ((i, x) ∷ rest) e d = (
    ground (arith, find-append_ne i rest ((k, slot) ∷ [])),
    snoc-Distinct k slot rest (ground arith) d.1,
  )

  pub modify-Distinct :
      (k : Key) (f : Slot T → Slot T) (slots : List (Key × Slot T))
      → Distinct slots
      → Distinct (modify k f slots)
  unfolding modify find
  modify-Distinct k f [] d = tt
  modify-Distinct k f ((i, x) ∷ rest) d = elim (Key-discrete i k) [
    | yes e ↦ rw (if_pos _ e) d
    | no ne ↦ rw (if_neg _ ne) (find-modify_ne i k f rest ne ∙ d.0, modify-Distinct k f rest d.1)
  ]

  -- A slot that goes to the end is still the one that is found under its key.
  find-at_end :
      (k j : Key) (slot : Slot T) (slots : List (Key × Slot T))
      → Distinct slots
      → find j slots ≡ some slot
      → find k (remove j slots ++ (j, slot) ∷ []) ≡ find k slots
  unfolding find
  find-at_end k j slot slots d e = elim (Key-discrete j k) [
    | yes same ↦ rw (← same) (
        find-append_ne j (remove j slots) ((j, slot) ∷ []) (find-remove_self j slots d)
        ∙ if_pos (Key-discrete j j) refl (some slot) none
        ∙ sym e)
    | no other ↦ elim (Option-cases (find k (remove j slots))) [
      | inl gone ↦ ground (
        arith,
        find-remove_ne k j slots (λ p. other (sym p)),
        find-append_ne k (remove j slots) ((j, slot) ∷ []),
      )
      | inr (x, kept) ↦
          find-append k (remove j slots) ((j, slot) ∷ []) x kept
          ∙ sym kept
          ∙ find-remove_ne k j slots (λ p. other (sym p))
    ]
  ]

  pub find-move_to_end_ne :
      (k j : Key) (slots : List (Key × Slot T))
      → k ≢ j
      → find k (move_to_end j slots) ≡ find k slots
  unfolding move_to_end find
  find-move_to_end_ne k j slots ne = elim (Option-cases (find j slots)) [
    | inl e ↦ rw (e, move_to_end) refl
    | inr (slot, e) ↦ elim (Option-cases (find k (remove j slots))) [
      | inl gone ↦
          rw (e, move_to_end)
            (find-append_ne k (remove j slots) ((j, slot) ∷ []) gone
              ∙ if_neg (Key-discrete j k) (λ p. ne (sym p)) (some slot) none
              ∙ sym gone
              ∙ find-remove_ne k j slots ne)
      | inr (x, kept) ↦
          rw (e, move_to_end)
            (find-append k (remove j slots) ((j, slot) ∷ []) x kept
              ∙ sym kept
              ∙ find-remove_ne k j slots ne)
    ]
  ]

  pub find-move_to_end :
      (k j : Key) (slots : List (Key × Slot T))
      → Distinct slots
      → find k (move_to_end j slots) ≡ find k slots
  unfolding move_to_end
  find-move_to_end k j slots d = elim (Option-cases (find j slots)) [
    | inl e ↦ rw (e, move_to_end) refl
    | inr (slot, e) ↦ rw (e, move_to_end) (find-at_end k j slot slots d e)
  ]

  pub move_to_end-Distinct :
      (k : Key) (slots : List (Key × Slot T)) → Distinct slots → Distinct (move_to_end k slots)
  unfolding move_to_end
  move_to_end-Distinct k slots d = elim (Option-cases (find k slots)) [
    | inl e ↦ rw (e, move_to_end) d
    | inr (slot, e) ↦
        rw (e, move_to_end)
          (snoc-Distinct k slot (remove k slots) (find-remove_self k slots d)
            (remove-Distinct k slots d))
  ]

pub count-set_count_self : (o n : ℕ) (l : List (ℕ × ℕ)) → count o (set_count o n l) ≡ n
unfolding count set_count
count-set_count_self o n [] = ground arith
count-set_count_self o n ((p, m) ∷ rest) = ground (arith, count-set_count_self o n rest)

pub count-set_count_ne :
    (o p n : ℕ) (l : List (ℕ × ℕ)) → o ≢ p → count o (set_count p n l) ≡ count o l
unfolding count set_count
count-set_count_ne o p n [] h = ground arith
count-set_count_ne o p n ((q, m) ∷ rest) h = ground (arith, count-set_count_ne o p n rest h)

pub count-pop_count_ne : (o p : ℕ) (l : List (ℕ × ℕ)) → o ≢ p → count o (pop_count p l) ≡ count o l
unfolding count pop_count
count-pop_count_ne o p [] h = refl
count-pop_count_ne o p ((q, m) ∷ rest) h = ground (arith, count-pop_count_ne o p rest h)

pub count-le-total : (o : ℕ) (l : List (ℕ × ℕ)) → count o l ≤ total l
unfolding count total
count-le-total o [] = omega arith
count-le-total o ((q, m) ∷ rest) = ground (arith, count-le-total o rest)
