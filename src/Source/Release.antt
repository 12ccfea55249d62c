-- ===== src/Source/Release.antt =====
-- source.py, `last_use` and `release`: the block that gives a chunk back.
use insitubatch.Base.{
  ℕ, zero, suc, ◌+◌, ◌<◌, ◌≡◌, refl, sym, ap, ap₂, subst, ◌∙◌, inl, inr, Bool, true, false, not,
  ◌&&◌, ◌==◌, List, [], ◌∷◌, ◌++◌, map, Option, none, some, length, Bool-cases, if◌then◌else◌, ite,
  if_pos, if_neg, arith,
}
use insitubatch.Pool.State.{Key, Key-discrete}
use insitubatch.Source.{key_in, add_key, last_use_from, last_use, add_at, add_uses, release}
use insitubatch.Source.LastUse.{
  reads_any, last_flags, find, Distinct, last_at, find-last_use_from, Distinct-last_use_from,
}

abbrev set_flag : Option ℕ → List Bool → List Bool
set_flag none flags = flags
set_flag (some b) [] = []
set_flag (some zero) (f ∷ flags) = true ∷ flags
set_flag (some (suc b)) (f ∷ flags) = f ∷ set_flag (some b) flags

key_in_known :
    (k q : Key) (keys : List Key)
    → key_in q keys ≡ true
    → key_in k keys ≡ ite (Key-discrete q k) true (key_in k keys)
key_in_known k q keys h = elim (Key-discrete q k) [
  | yes e ↦
      subst (λ x. key_in x keys ≡ true) e h ∙ sym (if_pos (Key-discrete q k) e true (key_in k keys))
  | no ne ↦ sym (if_neg (Key-discrete q k) ne true (key_in k keys))
]

key_in_last :
    (k q : Key) (keys : List Key)
    → key_in k (keys ++ q ∷ []) ≡ ite (Key-discrete q k) true (key_in k keys)
unfolding key_in
key_in_last k q [] = refl
key_in_last k q (x ∷ keys) = ground (arith, key_in_last k q keys)

key_in-add_key :
    (k q : Key) (keys : List Key)
    → key_in k (add_key keys q) ≡ ite (Key-discrete q k) true (key_in k keys)
unfolding add_key
key_in-add_key k q keys = elim (Bool-cases (key_in q keys)) [
  | inl old ↦ rw old (key_in_known k q keys old)
  | inr new ↦ rw new (key_in_last k q keys)
]

flags-add_at :
    (k q : Key) (b : ℕ) (given : List (List Key))
    → map (key_in k) (add_at given b q)
      ≡ set_flag (ite (Key-discrete q k) (some b) none) (map (key_in k) given)
unfolding add_at
flags-add_at k q b [] = ground arith
flags-add_at k q zero (keys ∷ given) = let here = key_in-add_key k q keys in ground (arith, here)
flags-add_at k q (suc b) (keys ∷ given) = ground (arith, flags-add_at k q b given)

flags-add_uses :
    (k : Key) (uses : List (Key × ℕ)) (given : List (List Key))
    → Distinct uses
    → map (key_in k) (add_uses given uses) ≡ set_flag (find k uses) (map (key_in k) given)
unfolding add_uses
flags-add_uses k [] given h = refl
flags-add_uses k (e ∷ uses) given h =
    let ih = flags-add_uses k uses (add_at given e.1 e.0) h.1 in
    let here = flags-add_at k e.0 e.1 given in
    let flags = map (key_in k) given in
    elim (Key-discrete e.0 k) [
      | yes same ↦
          (let gone : find k uses ≡ none = subst (λ x. find x uses ≡ none) same h.0 in
            ih
            ∙ (ap (λ o. set_flag o (map (key_in k) (add_at given e.1 e.0))) gone
                ∙ (here
                    ∙ ap (λ o. set_flag o flags)
                        (if_pos (Key-discrete e.0 k) same (some e.1) none
                          ∙ sym (if_pos (Key-discrete e.0 k) same (some e.1) (find k uses))))))
      | no other ↦
          ih
          ∙ (ap (set_flag (find k uses)) (
                here
                ∙ ap (λ o. set_flag o flags) (if_neg (Key-discrete e.0 k) other (some e.1) none))
              ∙ ap (λ o. set_flag o flags)
                  (sym (if_neg (Key-discrete e.0 k) other (some e.1) (find k uses))))
    ]

abbrev is_at : ℕ → Option ℕ → Bool
is_at bi none = false
is_at bi (some c) = c == bi

-- For each of n blocks, whether it is the one named.
abbrev spot : ℕ → ℕ → Option ℕ → List Bool
spot bi zero o = []
spot bi (suc n) o = is_at bi o ∷ spot (suc bi) n o

abbrev Before : ℕ → Option ℕ → Type 0
Before bi none = Unit
Before bi (some c) = c < bi

abbrev falses : ℕ → List Bool
falses zero = []
falses (suc n) = false ∷ falses n

spot-Before : (bi n : ℕ) (o : Option ℕ) → Before bi o → spot bi n o ≡ falses n
spot-Before bi zero o h = refl
spot-Before bi (suc n) none h = ap (◌∷◌ false) (spot-Before (suc bi) n none tt)
spot-Before bi (suc n) (some c) h =
    let here : (c == bi) ≡ false = ground arith in
    ap₂ ◌∷◌ here (spot-Before (suc bi) n (some c) (omega arith))

set_flag-falses : (bi c n : ℕ) → set_flag (some c) (falses n) ≡ spot bi n (some (bi + c))
set_flag-falses bi c zero = refl
set_flag-falses bi zero (suc n) =
    let here : (bi + 0 == bi) ≡ true = ground arith in
    ap₂ ◌∷◌ (sym here) (sym (spot-Before (suc bi) n (some (bi + 0)) (omega arith)))
set_flag-falses bi (suc c) (suc n) =
    let here : (bi + suc c == bi) ≡ false = ground arith in
    let e : suc bi + c ≡ bi + suc c = omega arith in
    ap₂ ◌∷◌ (sym here) (set_flag-falses (suc bi) c n ∙ ap (λ d. spot (suc bi) n (some d)) e)

set_flag-spot : (n : ℕ) (o : Option ℕ) → set_flag o (falses n) ≡ spot 0 n o
set_flag-spot n none = sym (spot-Before 0 n none tt)
set_flag-spot n (some c) =
    let z : 0 + c ≡ c = omega arith in set_flag-falses 0 c n ∙ ap (λ d. spot 0 n (some d)) z

no_flags :
    (k : Key) (block_keys : List (List Key))
    → map (key_in k) (map (λ _. []) block_keys) ≡ falses (length block_keys)
unfolding key_in
no_flags k [] = refl
no_flags k (keys ∷ rest) = ap (◌∷◌ false) (no_flags k rest)

pub last_at-none :
    (k : Key) (bi : ℕ) (block_keys : List (List Key)) (o : Option ℕ)
    → reads_any k block_keys ≡ false
    → last_at k bi block_keys o ≡ o
last_at-none k bi [] o h = refl
last_at-none k bi (keys ∷ rest) o h = ground (arith, last_at-none k (suc bi) rest o)

last_at-some :
    (k : Key) (bi b : ℕ) (block_keys : List (List Key)) (o : Option ℕ)
    → b < bi
    → reads_any k block_keys ≡ true
    → is_at b (last_at k bi block_keys o) ≡ false
last_at-some k bi b [] o l h = absurd cc
last_at-some k bi b (keys ∷ rest) o l h = elim (Bool-cases (reads_any k rest)) [
  | inl later ↦ last_at-some k (suc bi) b rest _ (omega arith) later
  | inr none_later ↦
      (let here : key_in k keys ≡ true = ground arith in
        let at : last_at k (suc bi) rest (if key_in k keys then some bi else o) ≡ some bi =
          last_at-none k (suc bi) rest _ none_later ∙ rw here refl in
        let ne : (bi == b) ≡ false = ground arith in ap (is_at b) at ∙ ne)
]

spot-last_at :
    (k : Key) (bi : ℕ) (block_keys : List (List Key)) (o : Option ℕ)
    → Before bi o
    → spot bi (length block_keys) (last_at k bi block_keys o) ≡ last_flags k block_keys
spot-last_at k bi [] o h = refl
spot-last_at k bi (keys ∷ rest) o h =
    let o' = if key_in k keys then some bi else o in
    let ih = spot-last_at k (suc bi) rest o' (before (key_in k keys) bi o h) in
    ap₂ ◌∷◌
      (elim (Bool-cases (reads_any k rest)) [
        | inl later ↦
            last_at-some k (suc bi) bi rest o' (omega arith) later
            ∙ rw later (and_false (key_in k keys))
        | inr none_later ↦
            ap (is_at bi) (last_at-none k (suc bi) rest o' none_later)
            ∙ rw none_later (here (key_in k keys) bi o h)
      ])
      ih
  where
    before :
        (b : Bool) (bi : ℕ) (o : Option ℕ)
        → Before bi o
        → Before (suc bi) (if b then some bi else o)
    before true bi o h = omega arith
    before false bi none h = tt
    before false bi (some c) h = omega arith

    here :
        (b : Bool) (bi : ℕ) (o : Option ℕ)
        → Before bi o
        → is_at bi (if b then some bi else o) ≡ (b && not false)
    here true bi o h = ground arith
    here false bi none h = refl
    here false bi (some c) h = ground arith

    and_false : (b : Bool) → false ≡ (b && not true)
    and_false b = ground arith

-- A pass that holds a chunk until its last use gives it back at one block: the last of those that read
-- it. (A pass that re-reads is not meant here.)
pub release-last :
    (k : Key) (block_keys : List (List Key))
    → map (key_in k) (release false block_keys) ≡ last_flags k block_keys
unfolding release last_use
release-last k block_keys =
    let uses = last_use_from 0 block_keys [] in
    flags-add_uses k uses (map (λ _. []) block_keys) (Distinct-last_use_from 0 block_keys [] tt)
    ∙ (ap₂ set_flag (find-last_use_from k 0 block_keys []) (no_flags k block_keys)
        ∙ (set_flag-spot (length block_keys) (last_at k 0 block_keys none)
            ∙ spot-last_at k 0 block_keys none tt))
