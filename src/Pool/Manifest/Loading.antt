-- ===== src/Pool/Manifest/Loading.antt =====
-- pool.py, `_load_log`: its branches, and the log that `_compact` writes.
use Prim.Native.String.{String}
use insitubatch.Base.{
  ◌≡◌, refl, sym, ap, ◌∙◌, Bool, true, false, List, [], ◌∷◌, map, Option, none, some, length, ◌==◌,
  arith, ◌>>=◌, if◌then◌else◌,
}
use insitubatch.Pool.Manifest.{
  Json, Opening, returned, raised, LogError, entry_line, header_line, stale_arrays,
  unreadable_header, parse_entries, compact, stale_of, kept, dropped_files, drop_stale_arrays,
  fates, register, load_log, load_entries, reset_stale_format, manifest_format,
}
use insitubatch.Pool.Manifest.Entries.{IsJson, parse_entries_lem}
use insitubatch.Pool.State.{Entry}
use insitubatch.Pool.Manifest.Stale.{Bare, Covers-stale_of, kept-lt}

module _ {J L : Type 0} (json : Json J L) where
  module _ (opening : Opening) where
    pub load_entries_same :
        (header : L) (entry_lines : List L) (fmt : J) (out : List Entry × Bool)
        → json.equals fmt manifest_format ≡ true
        → parse_entries json entry_lines ≡ returned out
        → load_entries json opening header entry_lines (some fmt)
          ≡ register json opening (header ∷ entry_lines) out
    unfolding load_entries
    load_entries_same header entry_lines fmt out same parsed = rw (same, parsed) refl

    pub load_entries_refused :
        (header : L) (entry_lines : List L) (fmt : J) (error : LogError)
        → json.equals fmt manifest_format ≡ true
        → parse_entries json entry_lines ≡ raised error
        → load_entries json opening header entry_lines (some fmt) ≡ raised error
    unfolding load_entries
    load_entries_refused header entry_lines fmt error same parsed = rw (same, parsed) refl

    pub load_entries_other :
        (header : L) (entry_lines : List L) (fmt : J)
        → json.equals fmt manifest_format ≡ false
        → load_entries json opening header entry_lines (some fmt)
          ≡ reset_stale_format json opening entry_lines
    unfolding load_entries
    load_entries_other header entry_lines fmt other = rw other refl

    pub load_log_lem :
        (header : L) (entry_lines : List L) (version : Option J)
        → (json.loads header >>= λ rec. json.get rec "format_version") ≡ version
        → load_log json opening (some (header ∷ entry_lines))
          ≡ load_entries json opening header entry_lines version
    unfolding load_log
    load_log_lem header entry_lines version e = ap (load_entries json opening header entry_lines) e

    pub load_log_unreadable :
        (header : L) (entry_lines : List L)
        → (json.loads header >>= λ rec. json.get rec "format_version") ≡ none
        → load_log json opening (some (header ∷ entry_lines)) ≡ raised unreadable_header
    unfolding load_entries
    load_log_unreadable header entry_lines e = load_log_lem header entry_lines none e

    pub load_log_empty :
        load_log json opening (some [])
        ≡ returned (record { survivors = []; unlinked = []; log = some [] })
    unfolding load_log
    load_log_empty = refl

    pub header_version :
        IsJson json
        → (json.loads (header_line json) >>= λ rec. json.get rec "format_version")
          ≡ some (json.number manifest_format)
    unfolding header_line
    header_version laws =
        let fields : List (String × J) = ("format_version", json.number manifest_format) ∷ [] in
        let version : json.get (json.dict fields) "format_version"
            ≡ some (json.number manifest_format) =
          laws.get-dict "format_version" fields in
        rw (laws.loads-dumps (json.dict fields)) version

    pub register_fresh :
        (lines : List L) (records : List Entry) (torn : Bool)
        → stale_of json opening records ≡ []
        → opening.readonly ≡ false
        → register json opening lines (records, torn)
          ≡ returned (record {
            survivors = records;
            unlinked = [];
            log = some (if torn then compact json records else lines);
          })
    unfolding register fates
    register_fresh lines records torn fresh writes =
        let clean : (length records == length records) ≡ true = ground arith in
        rw fresh (rw (clean, writes) refl)

    pub fates_reset :
        (records : List Entry) (stale : List String) (array : String) (more : List String)
        → stale ≡ array ∷ more
        → opening.readonly ≡ false
        → opening.reset_stale_cache ≡ true
        → fates json opening records stale
          ≡ returned (kept json opening stale records, dropped_files json opening stale records)
    unfolding fates drop_stale_arrays
    fates_reset records stale array more e writes resets = rw e (rw (writes, resets) refl)

    pub register_refused :
        (lines : List L) (records : List Entry) (torn : Bool) (array : String) (more : List String)
        → stale_of json opening records ≡ array ∷ more
        → opening.readonly ≡ false
        → opening.reset_stale_cache ≡ false
        → register json opening lines (records, torn)
          ≡ raised (stale_arrays (stale_of json opening records))
    unfolding register fates drop_stale_arrays
    register_refused lines records torn array more e writes keeps =
        let refused : fates json opening records (stale_of json opening records)
            ≡ raised (stale_arrays (stale_of json opening records)) =
          rw e (rw (writes, keeps) refl) in
        rw refused refl

    pub register_stale :
        (lines : List L) (records : List Entry) (torn : Bool) (array : String) (more : List String)
        → stale_of json opening records ≡ array ∷ more
        → opening.readonly ≡ false
        → opening.reset_stale_cache ≡ true
        → let stale = stale_of json opening records in
          let left = kept json opening stale records in
          register json opening lines (records, torn)
          ≡ returned (record {
            survivors = left;
            unlinked = dropped_files json opening stale records;
            log = some (compact json left);
          })
    unfolding register
    register_stale lines records torn array more stale writes resets =
        let shrinks =
          kept-lt json opening (stale_of json opening records) records
            (Covers-stale_of json opening records)
            (λ none_. absurd (let h = sym stale ∙ none_ in cc)) in
        let dirty : (length (kept json opening (stale_of json opening records) records)
              == length records)
            ≡ false =
          ground arith in
        rw (fates_reset records (stale_of json opening records) array more stale writes resets)
          (rw (dirty, writes) refl)

    -- A log of entries none of which is stale: it loads, and stays as it is.
    pub load_log-compact :
        (es : List Entry)
        → IsJson json
        → Bare es
        → stale_of json opening es ≡ []
        → opening.readonly ≡ false
        → load_log json opening (some (compact json es))
          ≡ returned (record { survivors = es; unlinked = []; log = some (compact json es) })
    unfolding compact
    load_log-compact es laws bare fresh writes =
        load_log_lem (header_line json) (map (entry_line json) es)
          (some (json.number manifest_format)) (header_version laws)
        ∙ (load_entries_same (header_line json) (map (entry_line json) es)
              (json.number manifest_format) (es, false) (laws.equals-number manifest_format)
              (parse_entries_lem json es laws bare)
            ∙ register_fresh (compact json es) es false fresh writes)
