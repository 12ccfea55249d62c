-- ===== src/Base/Perms.antt =====
-- Rearrangements of lists, which the splits and the draw orders keep.
use mathlib.Core.List.{
  Permᴰ, perm_append_comm, Perm-prop, not-mem-nil, mem_of_ne_of_mem, mem-cons_self, mem-cons_of_mem,
}
use mathlib.Core.List.Perm as Perm
use mathlib.Core.Logic.{∥∥₁_elim}
use insitubatch.Base.{
  List, [], ◌∷◌, ◌++◌, ◌≡◌, refl, sym, ap, subst, Perm, flat_map, ℕ, zero, suc, ◌+◌, ◌≤◌, ◌<◌, ◌↔◌,
  Mem, range_from, ℕ_discrete, arith,
}

pub append_assoc {ℓ} : {A : Type ℓ} (xs ys zs : List A) → (xs ++ ys) ++ zs ≡ xs ++ (ys ++ zs)
append_assoc [] ys zs = refl
append_assoc (x ∷ xs) ys zs = ap (◌∷◌ x) (append_assoc xs ys zs)

module _ {ℓ κ} {A : Type ℓ} {B : Type κ} (f : A → List B) where
  pub flat_map-append : (xs ys : List A) → flat_map f (xs ++ ys) ≡ flat_map f xs ++ flat_map f ys
  unfolding flat_map
  flat_map-append [] ys = refl
  flat_map-append (x ∷ xs) ys =
      rw (flat_map-append xs ys) (sym (append_assoc (f x) (flat_map f xs) (flat_map f ys)))

  flat_map-Permᴰ : (xs ys : List A) → Permᴰ xs ys → Perm (flat_map f xs) (flat_map f ys)
  unfolding flat_map
  flat_map-Permᴰ _ _ Permᴰ.nil = Perm.nil
  flat_map-Permᴰ _ _ (Permᴰ.cons {a = a} {b = b} {l₁ = l} {l₂ = m} e d) =
      subst (λ x. Perm (f a ++ flat_map f l) (f x ++ flat_map f m)) e
        (Perm.append_left (f a) (flat_map-Permᴰ l m d))
  flat_map-Permᴰ _ _ (Permᴰ.swap {a = a} {b = b} {a' = a'} {b' = b'} {l = l} e₁ e₂) =
      rw (← e₁, ← e₂)
        (rw (← append_assoc (f a) (f b) (flat_map f l), ← append_assoc (f b) (f a) (flat_map f l))
          (Perm.append_right (flat_map f l) (perm_append_comm (f a) (f b))))
  flat_map-Permᴰ _ _ (Permᴰ.trans {l₁ = l} {l₂ = m} {l₃ = n} d e) =
      Perm.trans (flat_map-Permᴰ l m d) (flat_map-Permᴰ m n e)

  pub flat_map-Perm : (xs ys : List A) → Perm xs ys → Perm (flat_map f xs) (flat_map f ys)
  flat_map-Perm xs ys p = ∥∥₁_elim p Perm-prop (flat_map-Permᴰ xs ys)

pub mem-range_from : (a n c : ℕ) → Mem c (range_from a n) ↔ ((a ≤ c) × (c < a + n))
mem-range_from a zero c = (λ m. absurd (not-mem-nil m), λ h. absurd (omega arith))
mem-range_from a (suc n) c =
    let ih = mem-range_from (suc a) n c in
    (
      λ m. elim (ℕ_discrete c a) [
        | yes e ↦ (omega arith, omega arith)
        | no ne ↦ (let b = ih.0 (mem_of_ne_of_mem ne m) in (omega arith, omega arith))
      ],
      λ h. elim (ℕ_discrete a c) [
        | yes e ↦ subst (λ x. Mem c (x ∷ range_from (suc a) n)) (sym e) mem-cons_self
        | no ne ↦ mem-cons_of_mem a (ih.1 (omega arith, omega arith))
      ],
    )
