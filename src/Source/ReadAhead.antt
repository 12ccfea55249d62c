-- ===== src/Source/ReadAhead.antt =====
-- source.py, `read_ahead_bound`: what a pass may hold ahead, against what it has to hold.
use insitubatch.Base.{
  ℕ, suc, ◌+◌, ◌-◌, ◌≤◌, ◌≡◌, refl, sym, ap, ap₂, subst, ◌∙◌, inl, inr, true, false, ltb, List, [],
  ◌∷◌, ◌++◌, none, some, length, All, Bool-cases, if◌then◌else◌, if_pos, if_neg, max, arith,
}
use insitubatch.Pool.State.{Key, Key-discrete}
use insitubatch.Source.{
  key_in, last_use_from, last_use, first_use_from, count_at, next_size, peak_from, read_ahead_bound,
}
use insitubatch.Source.Anchors.{All-imply}
use insitubatch.Source.Uses.{
  first_at, find-first_use_from, Distinct-first_use_from, keys_of, keys_of-uses, block_or,
  first_at-le, first_at-upto, first_at-is_there, last_at-past,
}
use insitubatch.Source.Served.{All-both}
use insitubatch.Source.LastUse.{
  reads_any, find, Distinct, last_at, find-last_use_from, Distinct-last_use_from,
}

-- How many of the uses are before a block.
abbrev before_count : ℕ → List (Key × ℕ) → ℕ
before_count b [] = 0
before_count b (e ∷ uses) = (if ltb e.1 b then 1 else 0) + before_count b uses

before_count-suc :
    (b : ℕ) (uses : List (Key × ℕ))
    → before_count (suc b) uses ≡ before_count b uses + count_at uses b
unfolding count_at
before_count-suc b [] = omega arith
before_count-suc b (e ∷ uses) = grind (arith, before_count-suc b uses)

before_count-zero : (uses : List (Key × ℕ)) → before_count 0 uses ≡ 0
before_count-zero [] = refl
before_count-zero (e ∷ uses) = ground (arith, before_count-zero uses)

-- The loop never forgets its peak, and at each block the peak takes in what is then live and the next
-- block: what has opened, less what has closed.
peak_from-le :
    (first last : List (Key × ℕ)) (bi live peak : ℕ) (kss : List (List Key))
    → peak ≤ peak_from first last bi live peak kss
unfolding peak_from
peak_from-le first last bi live peak [] = omega arith
peak_from-le first last bi live peak (keys ∷ rest) =
    let opened = live + count_at first bi in
    omega (
      arith,
      peak_from-le first last (suc bi) (opened - count_at last bi)
          (max peak (opened + next_size rest)) rest,
    )

peak_from-live :
    (first last : List (Key × ℕ)) (bi live peak : ℕ) (front rest : List (List Key))
    (keys : List Key)
    → before_count bi first ≤ live + before_count bi last
    → before_count (suc (bi + length front)) first + next_size rest
      ≤ peak_from first last bi live peak (front ++ keys ∷ rest)
        + before_count (bi + length front) last
unfolding peak_from
peak_from-live first last bi live peak [] rest keys h =
    let opened = live + count_at first bi in
    let z : bi + 0 ≡ bi = omega arith in
    rw z (
      omega (
        arith,
        h,
        before_count-suc bi first,
        peak_from-le first last (suc bi) (opened - count_at last bi)
            (max peak (opened + next_size rest)) rest,
      ))
peak_from-live first last bi live peak (ks ∷ front) rest keys h =
    let opened = live + count_at first bi in
    let e : bi + length (ks ∷ front) ≡ suc bi + length front = omega arith in
    subst
      (λ n.
        before_count (suc n) first + next_size rest
        ≤ peak_from first last bi live peak (ks ∷ (front ++ keys ∷ rest)) + before_count n last)
      (sym e)
      (peak_from-live first last (suc bi) (opened - count_at last bi)
        (max peak (opened + next_size (front ++ keys ∷ rest))) front rest keys
        (omega (arith, h, before_count-suc bi first, before_count-suc bi last)))

-- No key twice
abbrev pub NoRepeatedKeys : List Key → Type 0
NoRepeatedKeys [] = Unit
NoRepeatedKeys (k ∷ keys) = (key_in k keys ≡ false) × NoRepeatedKeys keys

-- How many of the first keys are among the others.
abbrev members : List Key → List Key → ℕ
members held [] = 0
members held (k ∷ keys) = (if key_in k held then 1 else 0) + members held keys

members_one : (k : Key) (keys : List Key) → key_in k keys ≡ true → 1 ≤ members (k ∷ []) keys
unfolding key_in
members_one k [] h = absurd cc
members_one k (q ∷ keys) h = ground (arith, members_one k keys)

-- Keys that are different count apart.
members-cons :
    (k : Key) (held keys : List Key)
    → key_in k held ≡ false
    → members (k ∷ []) keys + members held keys ≤ members (k ∷ held) keys
unfolding key_in
members-cons k held [] h = omega arith
members-cons k held (q ∷ keys) h =
    let ih = members-cons k held keys h in
    elim (Key-discrete k q) [
      | yes e ↦
          (let out : key_in q held ≡ false = subst (λ z. key_in z held ≡ false) e h in
            ground (arith, ih, out, e))
      | no ne ↦ ground (arith, ih, ne)
    ]

members-all :
    (held keys : List Key)
    → NoRepeatedKeys held
    → All (λ k. key_in k keys ≡ true) held
    → length held ≤ members held keys
members-all [] keys apart there = omega arith
members-all (k ∷ held) keys apart there = omega (
  arith,
  members_one k keys there.0,
  members-all held keys apart.1 there.1,
  members-cons k held keys apart.0,
)

-- In a dict with each key once, an entry is what its key finds.
entries_found : (uses : List (Key × ℕ)) → Distinct uses → All (λ e. find e.0 uses ≡ some e.1) uses
entries_found [] h = tt
entries_found (e ∷ uses) h = (
  if_pos (Key-discrete e.0 e.0) refl (some e.1) (find e.0 uses),
  All-imply uses (λ x there. later x there) (entries_found uses h.1),
)
  where
    later : (x : Key × ℕ) → find x.0 uses ≡ some x.1 → find x.0 (e ∷ uses) ≡ some x.1
    later x there =
        let apart : ¬ (e.0 ≡ x.0) = λ same.
          (let none_there = subst (λ k. find k uses ≡ none) same h.0 in
            absurd (let clash = sym none_there ∙ there in cc)) in
        if_neg (Key-discrete e.0 x.0) apart (some e.1) (find x.0 uses) ∙ there

-- How many keys are given a block before one.
abbrev before_keys : (Key → ℕ) → ℕ → List Key → ℕ
before_keys g b [] = 0
before_keys g b (k ∷ keys) = (if ltb (g k) b then 1 else 0) + before_keys g b keys

before_count-keys :
    (g : Key → ℕ) (b : ℕ) (uses : List (Key × ℕ))
    → All (λ e. g e.0 ≡ e.1) uses
    → before_count b uses ≡ before_keys g b (keys_of uses)
before_count-keys g b [] h = refl
before_count-keys g b (e ∷ uses) h =
    ap₂ (λ (v n : ℕ). (if ltb v b then 1 else 0) + n) (sym h.0) (before_count-keys g b uses h.1)

key_in-All {κ} :
    (P : Key → Type κ) (k : Key) (keys : List Key) → All P keys → key_in k keys ≡ true → P k
unfolding key_in
key_in-All P k [] h there = absurd cc
key_in-All P k (q ∷ keys) h there = elim (Key-discrete q k) [
  | yes e ↦ subst P e h.0
  | no ne ↦
      key_in-All P k keys h.1 (sym (if_neg (Key-discrete q k) ne true (key_in k keys)) ∙ there)
]

find-keys_of :
    (k : Key) (uses : List (Key × ℕ)) (b : ℕ)
    → find k uses ≡ some b
    → key_in k (keys_of uses) ≡ true
unfolding key_in
find-keys_of k [] b h = absurd cc
find-keys_of k (e ∷ uses) b h = ground (arith, find-keys_of k uses b)

-- A held key is first read by the block and last read not before it; any other is first read first.
held-le :
    (g h : Key → ℕ) (b : ℕ) (held keys : List Key)
    → ((k : Key) → g k ≤ h k)
    → All (λ k. (g k ≤ b) × (b ≤ h k)) held
    → members held keys + before_keys h b keys ≤ before_keys g (suc b) keys
held-le g h b held [] le live = omega arith
held-le g h b held (k ∷ keys) le live =
    let ih = held-le g h b held keys le live in
    let l = le k in
    elim (Bool-cases (key_in k held)) [
      | inl there ↦
          (let at = key_in-All (λ q. (g q ≤ b) × (b ≤ h q)) k held live there in
            let x : ltb (h k) b ≡ false = ground (arith, at.1) in
            let y : ltb (g k) (suc b) ≡ true = ground (arith, at.0) in
            rw (there, x, y) (omega (arith, ih)))
      | inr absent ↦ ground (arith, absent, ih, l)
    ]

-- At any block of the plan: the different chunks that are read by then and read again then or later,
-- and beside them as many chunks as the next block reads, are within the bound, so that a pass which
-- holds what it still needs can go on to its next block.
pub read_ahead_bound-live :
    (front rest : List (List Key)) (keys held : List Key)
    → NoRepeatedKeys held
    → All (λ k. reads_any k (front ++ keys ∷ []) ≡ true) held
    → All (λ k. reads_any k (keys ∷ rest) ≡ true) held
    → length held + next_size rest
      ≤ read_ahead_bound (front ++ keys ∷ rest) (last_use (front ++ keys ∷ rest))
unfolding read_ahead_bound last_use
read_ahead_bound-live front rest keys held apart opened needed =
    let kss = front ++ keys ∷ rest in
    let b = length front in
    let D = first_use_from 0 kss [] in
    let E = last_use_from 0 kss [] in
    let g : Key → ℕ = λ k. block_or (first_at k 0 kss none) in
    let h : Key → ℕ = λ k. block_or (last_at k 0 kss none) in
    let gD : All (λ e. g e.0 ≡ e.1) D =
      All-imply D (λ e there. ap block_or (sym (find-first_use_from e.0 0 kss []) ∙ there))
        (entries_found D (Distinct-first_use_from 0 kss [] tt)) in
    let hE : All (λ e. h e.0 ≡ e.1) E =
      All-imply E (λ e there. ap block_or (sym (find-last_use_from e.0 0 kss []) ∙ there))
        (entries_found E (Distinct-last_use_from 0 kss [] tt)) in
    let same : keys_of D ≡ keys_of E = keys_of-uses 0 kss [] [] refl in
    let live : All (λ k. (g k ≤ b) × (b ≤ h k)) held =
      All-imply held (λ k x. (upto k x.0, past k x.1))
        (All-both (λ k. reads_any k (front ++ keys ∷ []) ≡ true)
          (λ k. reads_any k (keys ∷ rest) ≡ true) held opened needed) in
    let there : All (λ k. key_in k (keys_of E) ≡ true) held =
      All-imply held
        (λ k x.
          (let (f, e) = first_at-is_there k 0 front rest keys x in
            subst (λ ks. key_in k ks ≡ true) same
              (find-keys_of k D f (find-first_use_from k 0 kss [] ∙ e))))
        opened in
    let counted = members-all held (keys_of E) apart there in
    let less = held-le g h b held (keys_of E) (λ k. first_at-le k 0 kss none none tt) live in
    let dD : before_count (suc b) D ≡ before_keys g (suc b) (keys_of E) =
      before_count-keys g (suc b) D gD ∙ ap (before_keys g (suc b)) same in
    let dE = before_count-keys h b E hE in
    let z : 0 + b ≡ b = omega arith in
    let start = before_count-zero D in
    let bound = rw z at (peak_from-live D E 0 0 0 front rest keys (omega (arith, start))) in
    omega (arith, counted, less, dD, dE, bound)
  where
    upto :
        (k : Key)
        → reads_any k (front ++ keys ∷ []) ≡ true
        → block_or (first_at k 0 (front ++ keys ∷ rest) none) ≤ length front
    upto k x = omega (arith, first_at-upto k 0 front rest keys x)

    past :
        (k : Key)
        → reads_any k (keys ∷ rest) ≡ true
        → length front ≤ block_or (last_at k 0 (front ++ keys ∷ rest) none)
    past k x = omega (arith, last_at-past k 0 front (keys ∷ rest) none x)
