-- ===== src/Source/Uses.antt =====
-- source.py, `first_use` and `last_use`: two dicts with the same keys, in the same order.
use insitubatch.Base.{
  ℕ, suc, ◌+◌, ◌≤◌, ◌<◌, ◌≡◌, refl, sym, ap, ◌∙◌, inl, inr, Bool, true, false, List, [], ◌∷◌, ◌++◌,
  map, Option, none, some, length, Bool-cases, if◌then◌else◌, ite, arith,
}
use insitubatch.Pool.State.{Key, Key-discrete}
use insitubatch.Source.{
  key_in, set_use, set_uses, last_use_from, set_default, set_defaults, first_use_from,
}
use insitubatch.Source.LastUse.{reads_any, find, Distinct, last_at}
use insitubatch.Source.Release.{last_at-none}

abbrev pub or_some : Option ℕ → ℕ → Option ℕ
or_some none bi = some bi
or_some (some f) bi = some f

-- The first block, from a number on, that reads the chunk.
abbrev pub first_at : Key → ℕ → List (List Key) → Option ℕ → Option ℕ
first_at k bi [] o = o
first_at k bi (keys ∷ rest) o = first_at k (suc bi) rest (if key_in k keys then or_some o bi else o)

find-set_default :
    (k q : Key) (bi : ℕ) (uses : List (Key × ℕ))
    → find k (set_default uses q bi)
      ≡ ite (Key-discrete q k) (or_some (find k uses) bi) (find k uses)
unfolding set_default
find-set_default k q bi [] = refl
find-set_default k q bi (e ∷ uses) = grind (arith, find-set_default k q bi uses)

Distinct-set_default :
    (q : Key) (bi : ℕ) (uses : List (Key × ℕ)) → Distinct uses → Distinct (set_default uses q bi)
unfolding set_default
Distinct-set_default q bi [] h = (refl, tt)
Distinct-set_default q bi (e ∷ uses) h =
    grind (arith, find-set_default e.0 q bi uses, Distinct-set_default q bi uses)

find-set_defaults :
    (k : Key) (bi : ℕ) (keys : List Key) (uses : List (Key × ℕ))
    → find k (set_defaults uses keys bi)
      ≡ (if key_in k keys then or_some (find k uses) bi else find k uses)
unfolding set_defaults key_in
find-set_defaults k bi [] uses = refl
find-set_defaults k bi (q ∷ keys) uses =
    ground
      (arith, find-set_defaults k bi keys (set_default uses q bi), find-set_default k q bi uses)

Distinct-set_defaults :
    (bi : ℕ) (keys : List Key) (uses : List (Key × ℕ))
    → Distinct uses
    → Distinct (set_defaults uses keys bi)
unfolding set_defaults
Distinct-set_defaults bi [] uses h = h
Distinct-set_defaults bi (q ∷ keys) uses h =
    Distinct-set_defaults bi keys (set_default uses q bi) (Distinct-set_default q bi uses h)

pub find-first_use_from :
    (k : Key) (bi : ℕ) (block_keys : List (List Key)) (uses : List (Key × ℕ))
    → find k (first_use_from bi block_keys uses) ≡ first_at k bi block_keys (find k uses)
unfolding first_use_from
find-first_use_from k bi [] uses = refl
find-first_use_from k bi (keys ∷ rest) uses =
    find-first_use_from k (suc bi) rest (set_defaults uses keys bi)
    ∙ ap (first_at k (suc bi) rest) (find-set_defaults k bi keys uses)

pub Distinct-first_use_from :
    (bi : ℕ) (block_keys : List (List Key)) (uses : List (Key × ℕ))
    → Distinct uses
    → Distinct (first_use_from bi block_keys uses)
unfolding first_use_from
Distinct-first_use_from bi [] uses h = h
Distinct-first_use_from bi (keys ∷ rest) uses h =
    Distinct-first_use_from (suc bi) rest (set_defaults uses keys bi)
      (Distinct-set_defaults bi keys uses h)

-- The keys of a dict, and what either kind of entry makes of them.
abbrev pub keys_of : List (Key × ℕ) → List Key
keys_of uses = map (λ e. e.0) uses

abbrev key_added : Key → List Key → List Key
key_added k [] = k ∷ []
key_added k (q ∷ keys) = let rest = key_added k keys in ite (Key-discrete q k) (q ∷ keys) (q ∷ rest)

keys_of-set_use :
    (k : Key) (bi : ℕ) (uses : List (Key × ℕ))
    → keys_of (set_use uses k bi) ≡ key_added k (keys_of uses)
unfolding set_use
keys_of-set_use k bi [] = refl
keys_of-set_use k bi (e ∷ uses) = ground (arith, keys_of-set_use k bi uses)

keys_of-set_default :
    (k : Key) (bi : ℕ) (uses : List (Key × ℕ))
    → keys_of (set_default uses k bi) ≡ key_added k (keys_of uses)
unfolding set_default
keys_of-set_default k bi [] = refl
keys_of-set_default k bi (e ∷ uses) = ground (arith, keys_of-set_default k bi uses)

keys_of-sets :
    (bi : ℕ) (keys : List Key) (a b : List (Key × ℕ))
    → keys_of a ≡ keys_of b
    → keys_of (set_defaults a keys bi) ≡ keys_of (set_uses b keys bi)
unfolding set_defaults set_uses
keys_of-sets bi [] a b e = e
keys_of-sets bi (k ∷ keys) a b e =
    keys_of-sets bi keys (set_default a k bi) (set_use b k bi)
      (keys_of-set_default k bi a ∙ (ap (key_added k) e ∙ sym (keys_of-set_use k bi b)))

pub keys_of-uses :
    (bi : ℕ) (block_keys : List (List Key)) (a b : List (Key × ℕ))
    → keys_of a ≡ keys_of b
    → keys_of (first_use_from bi block_keys a) ≡ keys_of (last_use_from bi block_keys b)
unfolding first_use_from last_use_from
keys_of-uses bi [] a b e = e
keys_of-uses bi (keys ∷ rest) a b e =
    keys_of-uses (suc bi) rest (set_defaults a keys bi) (set_uses b keys bi)
      (keys_of-sets bi keys a b e)

-- The block that an entry names; 0 if there is none.
abbrev pub block_or : Option ℕ → ℕ
block_or none = 0
block_or (some b) = b

abbrev Ordered : ℕ → Option ℕ → Option ℕ → Type 0
Ordered bi none none = Unit
Ordered bi (some f) (some l) = (f ≤ l) × (l < bi)
Ordered bi _ _ = ⊥

-- A chunk is first read no later than it is last read.
pub first_at-le :
    (k : Key) (bi : ℕ) (kss : List (List Key)) (o p : Option ℕ)
    → Ordered bi o p
    → block_or (first_at k bi kss o) ≤ block_or (last_at k bi kss p)
first_at-le k bi [] none none h = omega arith
first_at-le k bi [] (some f) (some l) h = h.0
first_at-le k bi [] none (some l) h = absurd h
first_at-le k bi [] (some f) none h = absurd h
first_at-le k bi (keys ∷ rest) o p h =
    first_at-le k (suc bi) rest _ _ (step (key_in k keys) bi o p h)
  where
    step :
        (b : Bool) (bi : ℕ) (o p : Option ℕ)
        → Ordered bi o p
        → Ordered (suc bi) (if b then or_some o bi else o) (if b then some bi else p)
    step true bi none none h = (omega arith, omega arith)
    step true bi (some f) (some l) h = (omega arith, omega arith)
    step false bi none none h = tt
    step false bi (some f) (some l) h = (omega arith, omega arith)
    step b bi none (some l) h = absurd h
    step b bi (some f) none h = absurd h

first_at-some : (k : Key) (bi f : ℕ) (kss : List (List Key)) → first_at k bi kss (some f) ≡ some f
first_at-some k bi f [] = refl
first_at-some k bi f (keys ∷ rest) = elim (Bool-cases (key_in k keys)) [
  | inl here ↦ rw here (first_at-some k (suc bi) f rest)
  | inr other ↦ rw other (first_at-some k (suc bi) f rest)
]

first_at-here :
    (k : Key) (bi : ℕ) (keys : List Key) (rest : List (List Key))
    → key_in k keys ≡ true
    → first_at k bi (keys ∷ rest) none ≡ some bi
first_at-here k bi keys rest here = rw here (first_at-some k (suc bi) bi rest)

first_at-later :
    (k : Key) (bi : ℕ) (keys : List Key) (rest : List (List Key))
    → key_in k keys ≡ false
    → first_at k bi (keys ∷ rest) none ≡ first_at k (suc bi) rest none
first_at-later k bi keys rest other = rw other refl

-- A chunk that some block up to one reads is first read by that block.
pub first_at-upto :
    (k : Key) (bi : ℕ) (front rest : List (List Key)) (keys : List Key)
    → reads_any k (front ++ keys ∷ []) ≡ true
    → block_or (first_at k bi (front ++ keys ∷ rest) none) ≤ bi + length front
first_at-upto k bi [] rest keys h =
    let here : key_in k keys ≡ true = ground arith in
    let e = ap block_or (first_at-here k bi keys rest here) in omega (arith, e)
first_at-upto k bi (ks ∷ front) rest keys h = elim (Bool-cases (key_in k ks)) [
  | inl here ↦
      (let e = ap block_or (first_at-here k bi ks (front ++ keys ∷ rest) here) in omega (arith, e))
  | inr other ↦
      (let h' : reads_any k (front ++ keys ∷ []) ≡ true = ground arith in
        let e = ap block_or (first_at-later k bi ks (front ++ keys ∷ rest) other) in
        let ih = first_at-upto k (suc bi) front rest keys h' in omega (arith, e, ih))
]

last_at-from :
    (k : Key) (bi : ℕ) (kss : List (List Key)) (o : Option ℕ)
    → reads_any k kss ≡ true
    → bi ≤ block_or (last_at k bi kss o)
last_at-from k bi [] o h = absurd cc
last_at-from k bi (keys ∷ rest) o h = elim (Bool-cases (reads_any k rest)) [
  | inl later ↦
      (let ih = last_at-from k (suc bi) rest (if key_in k keys then some bi else o) later in
        omega (arith, ih))
  | inr none_later ↦
      (let here : key_in k keys ≡ true = ground arith in
        let e = last_at-none k (suc bi) rest (if key_in k keys then some bi else o) none_later in
        rw e (rw here (omega arith)))
]

-- A chunk that some block from one on reads is last read by that block or later.
pub last_at-past :
    (k : Key) (bi : ℕ) (front rest : List (List Key)) (o : Option ℕ)
    → reads_any k rest ≡ true
    → bi + length front ≤ block_or (last_at k bi (front ++ rest) o)
last_at-past k bi [] rest o h = omega (arith, last_at-from k bi rest o h)
last_at-past k bi (ks ∷ front) rest o h =
    omega (arith, last_at-past k (suc bi) front rest (if key_in k ks then some bi else o) h)

-- A chunk that some block up to one reads is there.
pub first_at-is_there :
    (k : Key) (bi : ℕ) (front rest : List (List Key)) (keys : List Key)
    → reads_any k (front ++ keys ∷ []) ≡ true
    → (f : ℕ) × (first_at k bi (front ++ keys ∷ rest) none ≡ some f)
first_at-is_there k bi [] rest keys h =
    let here : key_in k keys ≡ true = ground arith in (bi, first_at-here k bi keys rest here)
first_at-is_there k bi (ks ∷ front) rest keys h = elim (Bool-cases (key_in k ks)) [
  | inl here ↦ (bi, first_at-here k bi ks (front ++ keys ∷ rest) here)
  | inr other ↦
      (let h' : reads_any k (front ++ keys ∷ []) ≡ true = ground arith in
        let (f, e) = first_at-is_there k (suc bi) front rest keys h' in
        (f, first_at-later k bi ks (front ++ keys ∷ rest) other ∙ e))
]
