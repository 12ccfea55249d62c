-- ===== src/Pool/Manifest/Reopen.antt =====
-- pool.py, `_load_log`: what a log that was loaded is when it is loaded again.
use Prim.Native.String.{String}
use mathlib.Core.Option.{some-injective}
use insitubatch.Base.{
  ◌≡◌, sym, ap, subst, ◌∙◌, inl, inr, Bool, true, false, List, [], ◌∷◌, some, All, ◌>>=◌,
  Bool-cases, Option-cases,
}
use insitubatch.Pool.Manifest.{
  Json, Opening, returned, Loaded, is_bare_filename, parse_entries, compact, stale_of, kept,
  dropped_files, register, load_log, reset_stale_format, manifest_format,
}
use insitubatch.Pool.Manifest.Entries.{IsJson}
use insitubatch.Pool.State.{Entry}
use insitubatch.Pool.Manifest.Stale.{
  Bare, Outcome-cases, List-cases, returned-injective, parse_entries-Bare, Covers-stale_of,
  stale_of-kept, Bare-kept,
}
use insitubatch.Pool.Manifest.Loading.{
  load_entries_same, load_entries_refused, load_entries_other, load_log_lem, load_log_unreadable,
  load_log_empty, register_fresh, register_refused, register_stale, load_log-compact,
}

module _ {J L : Type 0} (json : Json J L) where
  module _ (opening : Opening) where
    -- What loading has made of the log is settled: only bare names, and loading it again finds the same
    -- entries and changes nothing.
    abbrev Settled : Loaded L → Type 0
    Settled loaded =
        (log : List L)
        → loaded.log ≡ some log
        → Bare loaded.survivors
          × (load_log json opening (some log)
              ≡ returned (record { survivors = loaded.survivors; unlinked = []; log = some log }))

    empty-Settled : Settled (record { survivors = []; unlinked = []; log = some [] })
    empty-Settled log e =
        let same : [] ≡ log = some-injective [] log e in
        (
          tt,
          subst
              (λ l.
                load_log json opening (some l)
                ≡ returned (record { survivors = []; unlinked = []; log = some l }))
              same (load_log_empty json opening),
        )

    compact-Settled :
        (es : List Entry) (unlinked : List String)
        → IsJson json
        → Bare es
        → stale_of json opening es ≡ []
        → opening.readonly ≡ false
        → Settled (record { survivors = es; unlinked = unlinked; log = some (compact json es) })
    compact-Settled es unlinked laws bare fresh writes log e =
        let same : compact json es ≡ log = some-injective (compact json es) log e in
        (
          bare,
          subst
              (λ l.
                load_log json opening (some l)
                ≡ returned (record { survivors = es; unlinked = []; log = some l }))
              same (load_log-compact json opening es laws bare fresh writes),
        )

    register-Settled :
        (lines : List L) (records : List Entry) (torn : Bool)
        → IsJson json
        → Bare records
        → opening.readonly ≡ false
        → load_log json opening (some lines) ≡ register json opening lines (records, torn)
        → (loaded : Loaded L) → register json opening lines (records, torn) ≡ returned loaded
        → Settled loaded
    register-Settled lines records torn laws bare writes same loaded e =
        let stale = stale_of json opening records in
        elim (List-cases stale) [
          | inl fresh ↦ after_fresh torn fresh same e
          | inr (array, more, old) ↦ elim (Bool-cases opening.reset_stale_cache) [
            | inl resets ↦
                subst Settled
                  (returned-injective _ loaded (
                    sym
                      (register_stale json opening lines records torn array more old writes resets)
                    ∙ e))
                  (compact-Settled (kept json opening stale records)
                    (dropped_files json opening stale records) laws
                    (Bare-kept json opening stale records bare)
                    (stale_of-kept json opening stale records
                      (Covers-stale_of json opening records))
                    writes)
            | inr keeps ↦ absurd (
                let h =
                  sym (register_refused json opening lines records torn array more old writes keeps)
                  ∙ e in
                cc)
          ]
        ]
      where
        after_fresh :
            (torn : Bool)
            → stale_of json opening records ≡ []
            → load_log json opening (some lines) ≡ register json opening lines (records, torn)
            → register json opening lines (records, torn) ≡ returned loaded
            → Settled loaded
        after_fresh true fresh same e =
            subst Settled
              (returned-injective _ loaded
                (sym (register_fresh json opening lines records true fresh writes) ∙ e))
              (compact-Settled records [] laws bare fresh writes)
        after_fresh false fresh same e =
            subst Settled
              (returned-injective _ loaded
                (sym (register_fresh json opening lines records false fresh writes) ∙ e))
              (λ log l.
                (let eq = some-injective lines log l in
                  (
                    bare,
                    subst
                        (λ k.
                          load_log json opening (some k)
                          ≡ returned (record { survivors = records; unlinked = []; log = some k }))
                        eq (same ∙ register_fresh json opening lines records false fresh writes),
                  )))

    format-Settled :
        (entry_lines : List L) (loaded : Loaded L)
        → reset_stale_format json opening entry_lines ≡ returned loaded
        → Settled loaded
    unfolding reset_stale_format
    format-Settled entry_lines loaded e log l = elim (Bool-cases opening.reset_stale_cache) [
      | inl resets ↦ absurd (
          let h = ap (λ (x : Loaded L). x.log) (returned-injective _ loaded (rw resets at e)) ∙ l in
          cc)
      | inr keeps ↦ absurd (let h = rw keeps at e in cc)
    ]

    -- Given what JSON documents, and a pool that may write: if the log, whatever is in it, loads, and is
    -- not thrown away for its format, then every entry that is registered has a bare file name; and the
    -- log that is left, compacted or not, loads again with the same entries, none of them stale, and
    -- nothing is deleted or rewritten then.
    pub load_log-reopen :
        (lines : List L) (loaded : Loaded L) (log : List L)
        → IsJson json
        → opening.readonly ≡ false
        → load_log json opening (some lines) ≡ returned loaded
        → loaded.log ≡ some log
        → All (λ e. is_bare_filename e.file ≡ true) loaded.survivors
          × (load_log json opening (some log)
              ≡ returned (record { survivors = loaded.survivors; unlinked = []; log = some log }))
    load_log-reopen [] loaded log laws writes e l =
        subst Settled (returned-injective _ loaded (sym (load_log_empty json opening) ∙ e))
          empty-Settled log l
    load_log-reopen (header ∷ entry_lines) loaded log laws writes e l =
        let version = json.loads header >>= λ rec. json.get rec "format_version" in
        elim (Option-cases version) [
          | inl unreadable ↦ absurd (
              let h = sym (load_log_unreadable json opening header entry_lines unreadable) ∙ e in
              cc)
          | inr (fmt, read) ↦
              (let from = load_log_lem json opening header entry_lines (some fmt) read in
                elim (Bool-cases (json.equals fmt manifest_format)) [
                  | inr other ↦
                      format-Settled entry_lines loaded
                        (sym (from ∙ load_entries_other json opening header entry_lines fmt other)
                          ∙ e)
                        log l
                  | inl same ↦ elim (Outcome-cases (parse_entries json entry_lines)) [
                    | inr (error, refused) ↦ absurd (
                        let h =
                          sym (
                            from
                            ∙ load_entries_refused json opening header entry_lines fmt error same
                                refused)
                          ∙ e in
                        cc)
                    | inl ((records, torn), parsed) ↦
                        (let to_register =
                            from
                            ∙ load_entries_same json opening header entry_lines fmt (records, torn)
                                same parsed in
                          register-Settled (header ∷ entry_lines) records torn laws
                            (parse_entries-Bare json entry_lines (records, torn) parsed) writes
                            to_register loaded (sym to_register ∙ e) log l)
                  ]
                ])
        ]
