-- ===== src/Pool/Manifest/Stale.antt =====
-- pool.py, `_parse_entries` and `_drop_stale_arrays`: what is read and what is kept.
use Prim.Native.String.{String}
use text.Mathlib.Text.{◌==◌ as str_eq}
use text.Mathlib.TextEquality.{eq_iff}
use insitubatch.Base.{
  ℕ, suc, ◌≤◌, ◌<◌, ◌≡◌, ◌≢◌, refl, sym, ap, subst, ◌∙◌, ◌⊎◌, inl, inr, Bool, true, false, ◌||◌,
  List, [], ◌∷◌, ◌++◌, none, length, All, arith, Bool-cases, Option-cases,
}
use insitubatch.Pool.Manifest.{
  Json, Opening, Outcome, returned, raised, LogError, is_bare_filename, parse_entry, parse_from,
  parse_entries, is_stale, stale_of, kept, mem_text,
}
use insitubatch.Pool.Manifest.Entries.{
  parse_from_torn, parse_from_malformed, parse_from_bare, parse_from_escapes, parse_from_end,
}
use insitubatch.Pool.State.{Entry}
use insitubatch.Source.Anchors.{All-imply}
use insitubatch.Source.Served.{All-append}

abbrev pub Bare : List Entry → Type 0
Bare es = All (λ e. is_bare_filename e.file ≡ true) es

pub Outcome-cases :
    {A : Type 0} (o : Outcome A) → ((a : A) × (o ≡ returned a)) ⊎ ((e : LogError) × (o ≡ raised e))
Outcome-cases (returned a) = inl (a, refl)
Outcome-cases (raised e) = inr (e, refl)

pub List-cases :
    {A : Type 0} (xs : List A) → (xs ≡ []) ⊎ ((x : A) × (rest : List A) × (xs ≡ x ∷ rest))
List-cases [] = inl refl
List-cases (x ∷ rest) = inr (x, rest, refl)

abbrev pub result_or : {A : Type 0} → A → Outcome A → A
result_or d (returned a) = a
result_or d (raised e) = d

pub returned-injective : {A : Type 0} (a b : A) → returned a ≡ returned b → a ≡ b
returned-injective a b e = ap (result_or a) e

module _ {J L : Type 0} (json : Json J L) where
  -- Only entries with bare file names are read.
  parse_from-Bare :
      (i : ℕ) (records : List Entry) (lines : List L) (out : List Entry × Bool)
      → Bare records
      → parse_from json i records lines ≡ returned out
      → Bare out.0
  parse_from-Bare i records [] out bare e =
      subst (λ (o : List Entry × Bool). Bare o.0)
        (returned-injective (records, false) out (sym (parse_from_end json i records) ∙ e)) bare
  parse_from-Bare i records (line ∷ rest) out bare e = elim (Option-cases (parse_entry json line)) [
    | inl bad ↦ torn rest bad e
    | inr (entry, good) ↦ elim (Bool-cases (is_bare_filename entry.file)) [
      | inl yes_ ↦
          parse_from-Bare (suc i) (records ++ entry ∷ []) rest out
            (All-append (λ x. is_bare_filename x.file ≡ true) records (entry ∷ []) bare (yes_, tt))
            (sym (parse_from_bare json i records line rest entry good yes_) ∙ e)
      | inr no_ ↦
          absurd
            (let h = sym (parse_from_escapes json i records line rest entry good no_) ∙ e in cc)
    ]
  ]
    where
      torn :
          (rest : List L)
          → parse_entry json line ≡ none
          → parse_from json i records (line ∷ rest) ≡ returned out
          → Bare out.0
      torn [] bad e =
          subst (λ (o : List Entry × Bool). Bare o.0)
            (returned-injective (records, true) out
              (sym (parse_from_torn json i records line bad) ∙ e))
            bare
      torn (next ∷ rest) bad e =
          absurd (let h = sym (parse_from_malformed json i records line next rest bad) ∙ e in cc)

  pub parse_entries-Bare :
      (lines : List L) (out : List Entry × Bool)
      → parse_entries json lines ≡ returned out
      → Bare out.0
  unfolding parse_entries
  parse_entries-Bare lines out e = parse_from-Bare 0 [] lines out tt e

  module _ (opening : Opening) where
    -- Every stale record's array is in the set.
    abbrev pub Covers : List String → List Entry → Type 0
    Covers stale records =
        All (λ r. is_stale json opening r ≡ true → mem_text r.array stale ≡ true) records

    pub Covers-stale_of : (records : List Entry) → Covers (stale_of json opening records) records
    unfolding stale_of mem_text
    Covers-stale_of [] = tt
    Covers-stale_of (r ∷ records) =
        let ih = Covers-stale_of records in
        elim (Bool-cases (is_stale json opening r)) [
          | inl old ↦
              (let set : stale_of json opening (r ∷ records)
                    ≡ r.array ∷ stale_of json opening records =
                  rw old refl in
                subst (λ S. Covers S (r ∷ records)) (sym set)
                  (
                    λ _. first r.array (stale_of json opening records),
                    All-imply records
                        (λ x h s. later x.array r.array (stale_of json opening records) (h s)) ih,
                  ))
          | inr fresh ↦
              (let set : stale_of json opening (r ∷ records) ≡ stale_of json opening records =
                  rw fresh refl in
                subst (λ S. Covers S (r ∷ records)) (sym set)
                  (λ s. absurd (let h = sym fresh ∙ s in cc), ih))
        ]
      where
        first : (s : String) (texts : List String) → (str_eq s s || mem_text s texts) ≡ true
        first s texts = rw ((eq_iff s s).1 refl) refl

        later :
            (s t : String) (texts : List String)
            → mem_text s texts ≡ true
            → (str_eq t s || mem_text s texts) ≡ true
        later s t texts h = ground arith

    kept-le :
        (stale : List String) (records : List Entry)
        → length (kept json opening stale records) ≤ length records
    unfolding kept
    kept-le stale [] = omega arith
    kept-le stale (r ∷ records) =
        let ih = kept-le stale records in
        elim (Bool-cases (mem_text r.array stale)) [
          | inl old ↦ rw old (omega (arith, ih))
          | inr fresh ↦ rw fresh (omega (arith, ih))
        ]

    pub kept-lt :
        (stale : List String) (records : List Entry)
        → Covers stale records
        → stale_of json opening records ≢ []
        → length (kept json opening stale records) < length records
    unfolding kept stale_of
    kept-lt stale [] covers some_stale = absurd (some_stale refl)
    kept-lt stale (r ∷ records) covers some_stale = elim (Bool-cases (mem_text r.array stale)) [
      | inl old ↦ rw old (omega (arith, kept-le stale records))
      | inr fresh ↦
          (let not_stale =
              unstale (is_stale json opening r) (mem_text r.array stale) covers.0 fresh in
            rw fresh (
              omega
                (arith, kept-lt stale records covers.1 (λ none_. some_stale (rw not_stale none_)))))
    ]
      where
        unstale : (a b : Bool) → (a ≡ true → b ≡ true) → b ≡ false → a ≡ false
        unstale a b h k = ground arith

    -- What is kept is not stale.
    pub stale_of-kept :
        (stale : List String) (records : List Entry)
        → Covers stale records
        → stale_of json opening (kept json opening stale records) ≡ []
    unfolding kept stale_of
    stale_of-kept stale [] covers = refl
    stale_of-kept stale (r ∷ records) covers =
        let ih = stale_of-kept stale records covers.1 in
        elim (Bool-cases (mem_text r.array stale)) [
          | inl old ↦ rw old ih
          | inr fresh ↦
              (let not_stale =
                  unstale (is_stale json opening r) (mem_text r.array stale) covers.0 fresh in
                rw (fresh, not_stale) ih)
        ]
      where
        unstale : (a b : Bool) → (a ≡ true → b ≡ true) → b ≡ false → a ≡ false
        unstale a b h k = ground arith

    pub Bare-kept :
        (stale : List String) (records : List Entry)
        → Bare records
        → Bare (kept json opening stale records)
    unfolding kept
    Bare-kept stale [] bare = tt
    Bare-kept stale (r ∷ records) bare =
        let ih = Bare-kept stale records bare.1 in
        elim (Bool-cases (mem_text r.array stale)) [
          | inl old ↦ rw old ih
          | inr fresh ↦ rw fresh (bare.0, ih)
        ]
