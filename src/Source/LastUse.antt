-- ===== src/Source/LastUse.antt =====
-- source.py, `last_use`: the dict, and the last block that reads a chunk.
use insitubatch.Base.{
  ℕ, suc, ◌≡◌, refl, ap, ◌∙◌, Bool, false, not, ◌&&◌, ◌||◌, List, [], ◌∷◌, Option, none, some,
  if◌then◌else◌, ite, arith,
}
use insitubatch.Pool.State.{Key, Key-discrete}
use insitubatch.Source.{key_in, set_use, set_uses, last_use_from}

abbrev pub reads_any : Key → List (List Key) → Bool
reads_any k [] = false
reads_any k (keys ∷ rest) = key_in k keys || reads_any k rest

-- For each block, whether it is the last that reads the chunk.
abbrev pub last_flags : Key → List (List Key) → List Bool
last_flags k [] = []
last_flags k (keys ∷ rest) = (key_in k keys && not (reads_any k rest)) ∷ last_flags k rest

abbrev pub find : Key → List (Key × ℕ) → Option ℕ
find k [] = none
find k (e ∷ uses) = ite (Key-discrete e.0 k) (some e.1) (find k uses)

abbrev pub Distinct : List (Key × ℕ) → Type 0
Distinct [] = Unit
Distinct (e ∷ uses) = (find e.0 uses ≡ none) × Distinct uses

pub find-set_use :
    (k q : Key) (bi : ℕ) (uses : List (Key × ℕ))
    → find k (set_use uses q bi) ≡ ite (Key-discrete q k) (some bi) (find k uses)
unfolding set_use
find-set_use k q bi [] = refl
find-set_use k q bi (e ∷ uses) = grind (arith, find-set_use k q bi uses)

pub Distinct-set_use :
    (q : Key) (bi : ℕ) (uses : List (Key × ℕ)) → Distinct uses → Distinct (set_use uses q bi)
unfolding set_use
Distinct-set_use q bi [] h = (refl, tt)
Distinct-set_use q bi (e ∷ uses) h =
    grind (arith, find-set_use e.0 q bi uses, Distinct-set_use q bi uses)

pub find-set_uses :
    (k : Key) (bi : ℕ) (keys : List Key) (uses : List (Key × ℕ))
    → find k (set_uses uses keys bi) ≡ (if key_in k keys then some bi else find k uses)
unfolding set_uses key_in
find-set_uses k bi [] uses = refl
find-set_uses k bi (q ∷ keys) uses =
    ground (arith, find-set_uses k bi keys (set_use uses q bi), find-set_use k q bi uses)

pub Distinct-set_uses :
    (bi : ℕ) (keys : List Key) (uses : List (Key × ℕ))
    → Distinct uses
    → Distinct (set_uses uses keys bi)
unfolding set_uses
Distinct-set_uses bi [] uses h = h
Distinct-set_uses bi (q ∷ keys) uses h =
    Distinct-set_uses bi keys (set_use uses q bi) (Distinct-set_use q bi uses h)

-- The last block, from a number on, that reads the chunk.
abbrev pub last_at : Key → ℕ → List (List Key) → Option ℕ → Option ℕ
last_at k bi [] o = o
last_at k bi (keys ∷ rest) o = last_at k (suc bi) rest (if key_in k keys then some bi else o)

pub find-last_use_from :
    (k : Key) (bi : ℕ) (block_keys : List (List Key)) (uses : List (Key × ℕ))
    → find k (last_use_from bi block_keys uses) ≡ last_at k bi block_keys (find k uses)
unfolding last_use_from
find-last_use_from k bi [] uses = refl
find-last_use_from k bi (keys ∷ rest) uses =
    find-last_use_from k (suc bi) rest (set_uses uses keys bi)
    ∙ ap (last_at k (suc bi) rest) (find-set_uses k bi keys uses)

pub Distinct-last_use_from :
    (bi : ℕ) (block_keys : List (List Key)) (uses : List (Key × ℕ))
    → Distinct uses
    → Distinct (last_use_from bi block_keys uses)
unfolding last_use_from
Distinct-last_use_from bi [] uses h = h
Distinct-last_use_from bi (keys ∷ rest) uses h =
    Distinct-last_use_from (suc bi) rest (set_uses uses keys bi) (Distinct-set_uses bi keys uses h)
