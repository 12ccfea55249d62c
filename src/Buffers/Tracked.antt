-- ===== src/Buffers/Tracked.antt =====
-- buffers.py, `free`: the account of the buffers, whose reference counts tell whether they are held.
use insitubatch.Base.{
  ℕ, zero, suc, ◌+◌, ◌*◌, ◌≤◌, ◌<◌, ◌≡◌, refl, sym, subst, inl, inr, Bool, true, false, not, ◌&&◌,
  List, [], ◌∷◌, ltb, leb, ◌==◌, if◌then◌else◌, if_pos, if_neg, All, Bool-cases, arith,
}
use insitubatch.Buffers.{
  BufferKey, BufferKey-discrete, Buffer, BatchBuffers, Taken, lent, untrackable, wrong_baseline,
  Search, found, no_buffer, bad_baseline, occurrences, drop_one, refs, buffers_of, set_buffers,
  search_free,
}
use insitubatch.Source.Anchors.{All-imply}

-- What is lent has no other view, and the baseline is never found wrong.
abbrev pub IsExclusive : Taken → List ℕ → Type 0
IsExclusive (lent i) held = occurrences i held ≡ 0
IsExclusive untrackable held = Unit
IsExclusive wrong_baseline held = ⊥

pub occurrences-below :
    (i n : ℕ) (held : List ℕ) → n ≤ i → All (λ j. j < n) held → occurrences i held ≡ 0
occurrences-below i n [] l h = refl
occurrences-below i n (j ∷ held) l h =
    let other : (i == j) ≡ false = ground arith in
    rw other (omega (arith, occurrences-below i n held l h.1))

pub drop_one-below :
    (i n : ℕ) (held : List ℕ) → All (λ j. j < n) held → All (λ j. j < n) (drop_one i held)
drop_one-below i n [] h = tt
drop_one-below i n (j ∷ held) h = elim (Bool-cases (i == j)) [
  | inl same ↦ rw same h.1
  | inr other ↦ rw other (h.0, drop_one-below i n held h.1)
]

pub occurrences-held :
    (i n : ℕ) (held : List ℕ) → All (λ j. j < n) held → 0 < occurrences i held → i < n
occurrences-held i n [] h l = absurd (omega arith)
occurrences-held i n (j ∷ held) h l = elim (Bool-cases (i == j)) [
  | inl same ↦ (let e : i ≡ j = ground arith in omega arith)
  | inr other ↦ occurrences-held i n held h.1 (let l' = rw other at l in omega arith)
]

-- After `del`, no name is left.
pub drop_one-occurrences : (i : ℕ) → occurrences i (drop_one i (i ∷ [])) ≡ 0
drop_one-occurrences i = let itself : (i == i) ≡ true = ground arith in rw itself refl

pub of_either {ℓ κ} :
    {A : Type ℓ} (P : A → Type κ) (b : Bool) {x y : A} → P x → P y → P (if not b then x else y)
of_either P true p q = q
of_either P false p q = p

module _ (structural per_name per_view : ℕ → ℕ) where
  -- The idle count is that of an allocation without views, and a view of it counts.
  abbrev pub Tracked : ℕ → Buffer → Type 0
  Tracked made b = (b.idle_refs ≡ structural b.ident) × (0 < per_view b.ident) × (b.ident < made)

  abbrev pub Inv : BatchBuffers → Type 0
  Inv s = All (λ p. All (Tracked s.made) p.1) s.pools × All (λ i. i < s.made) s.held

  abbrev pub AllTracked : ℕ → List (BufferKey × List Buffer) → Type 0
  AllTracked made pools = All (λ p. All (Tracked made) p.1) pools

  pub buffers_of-Tracked :
      (made : ℕ) (key : BufferKey) (pools : List (BufferKey × List Buffer))
      → AllTracked made pools
      → All (Tracked made) (buffers_of structural per_name per_view key pools)
  unfolding buffers_of
  buffers_of-Tracked made key [] h = tt
  buffers_of-Tracked made key ((k, buffers) ∷ pools) h = elim (BufferKey-discrete k key) [
    | yes e ↦
        subst (All (Tracked made))
          (sym (
            if_pos (BufferKey-discrete k key) e buffers
              (buffers_of structural per_name per_view key pools)))
          h.0
    | no ne ↦
        subst (All (Tracked made))
          (sym (
            if_neg (BufferKey-discrete k key) ne buffers
              (buffers_of structural per_name per_view key pools)))
          (buffers_of-Tracked made key pools h.1)
  ]

  pub set_buffers-Tracked :
      (made : ℕ) (key : BufferKey) (buffers : List Buffer) (pools : List (BufferKey × List Buffer))
      → All (Tracked made) buffers
      → AllTracked made pools
      → AllTracked made (set_buffers structural per_name per_view key buffers pools)
  unfolding set_buffers
  set_buffers-Tracked made key buffers [] new h = (new, tt)
  set_buffers-Tracked made key buffers ((k, old) ∷ pools) new h =
      let rest = set_buffers structural per_name per_view key buffers pools in
      let a = (k, buffers) ∷ pools in
      let b = (k, old) ∷ rest in
      elim (BufferKey-discrete k key) [
        | yes e ↦ subst (AllTracked made) (sym (if_pos (BufferKey-discrete k key) e a b)) (new, h.1)
        | no ne ↦
            subst (AllTracked made) (sym (if_neg (BufferKey-discrete k key) ne a b))
              (h.0, set_buffers-Tracked made key buffers pools new h.1)
      ]

  pub later :
      (m n : ℕ) (pools : List (BufferKey × List Buffer))
      → m ≤ n
      → AllTracked m pools
      → AllTracked n pools
  later m n pools l h =
      All-imply pools
        (λ p t. All-imply p.1 (λ b (x : Tracked m b). (x.0, x.1, omega (arith, x.2))) t) h

  -- A buffer that is found has no view.
  abbrev pub Sound : List ℕ → Search → Type 0
  Sound held (found i) = occurrences i held ≡ 0
  Sound held no_buffer = Unit
  Sound held bad_baseline = ⊥

  pub search_free-Sound :
      (made : ℕ) (held : List ℕ) (n : ℕ) (buffers : List Buffer)
      → All (Tracked made) buffers
      → Sound held (search_free structural per_name per_view held n buffers)
  unfolding search_free refs
  search_free-Sound made held n [] h = tt
  search_free-Sound made held n (b ∷ buffers) h =
      let base = structural b.ident + per_name b.ident * 0 in
      let now = base + per_view b.ident * occurrences b.ident held in
      let baseline : b.idle_refs ≡ base = omega (arith, h.0.0) in
      let ih = search_free-Sound made held n buffers h.1 in
      let fine : ltb now b.idle_refs ≡ false = ground (arith, baseline) in
      elim (Bool-cases (leb now b.idle_refs && leb n b.rows)) [
        | inl hit ↦
            rw (fine, hit)
              (idle base (per_view b.ident) (occurrences b.ident held) b.idle_refs (leb n b.rows)
                baseline h.0.1 hit)
        | inr miss ↦ rw (fine, miss) ih
      ]
    where
      idle :
          (s v o idle_refs : ℕ) (enough : Bool)
          → idle_refs ≡ s
          → 0 < v
          → (leb (s + v * o) idle_refs && enough) ≡ true
          → o ≡ 0
      idle s v zero idle_refs enough e l h = refl
      idle s v (suc o) idle_refs enough e l h =
          let grows : v ≤ v * suc o = grind arith in
          absurd (let none : ⊥ = ground (arith, grows) in none)
