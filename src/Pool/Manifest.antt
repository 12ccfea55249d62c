-- ===== src/Pool/Manifest.antt =====
-- src/insitubatch/pool.py: the append-only log of the finished chunk files, when a pool opens it. A
-- file is the list of its lines. The JSON library is a parameter, and with it the text of a line, into
-- which nothing else looks. An entry's index is not negative.
pub mod Entries
pub mod Stale
pub mod Loading
pub mod Reopen
use Prim.Native.String.{String}
use text.Mathlib.Text.{◌==◌ as str_eq}
use insitubatch.Base.Text.{has_char}
use insitubatch.Base.{
  ℕ, suc, ◌+◌, Bool, true, false, not, ◌&&◌, ◌||◌, List, [], ◌∷◌, ◌++◌, map, Option, none, some,
  ◌==◌, if◌then◌else◌, ◌>>=◌, length,
}
use insitubatch.Pool.State.{Entry}

-- The calls of `json`, and of `str`, `isinstance(_, str)`, `int` and `==` on what it reads; none is a failure that the source
-- catches. A negative `chunk_index`, which nothing writes, is left out.
pub record Json (J L : Type 0) : Type 0 where
  pub loads : L → Option J
  pub dumps : J → L
  pub get : J → String → Option J
  pub dict : List (String × J) → J
  pub text : String → J
  pub number : ℕ → J
  pub str : J → String
  pub as_text : J → Option String
  pub int : J → Option ℕ
  pub equals : J → ℕ → Bool

pub data LogError : Type 0 where
  unreadable_header : LogError
  malformed_entry : ℕ → LogError
  not_bare : String → LogError
  stale_format : LogError
  stale_readonly : List String → LogError
  stale_arrays : List String → LogError

pub data Outcome (A : Type 0) : Type 0 where
  returned : A → Outcome A
  raised : LogError → Outcome A

infixl 5 ◌>>>◌
abbrev pub ◌>>>◌ : {A B : Type 0} → Outcome A → (A → Outcome B) → Outcome B
returned a >>> f = f a
raised e >>> f = raised e

-- `_is_bare_filename`, of a string: 47 is "/" and 92 is "\".
unfoldable pub is_bare_filename : String → Bool
is_bare_filename fname =
    not (str_eq fname "" || (str_eq fname "." || str_eq fname ".."))
    && (not (has_char 47 fname) && not (has_char 92 fname))

abbrev pub manifest_format : ℕ
manifest_format = 4

unfoldable pub mem_text : String → List String → Bool
mem_text s [] = false
mem_text s (t ∷ texts) = str_eq t s || mem_text s texts

-- What `__init__` fixes; `pipeline_fp` has the arrays that the run reads.
pub record Opening : Type 0 where
  pub pipeline_fp : String → Option String
  pub readonly : Bool
  pub reset_stale_cache : Bool

-- What loading leaves: the entries that it registers, the files that it deletes, and the log.
pub record Loaded (L : Type 0) : Type 0 where
  pub survivors : List Entry
  pub unlinked : List String
  pub log : Option (List L)

module _ {J L : Type 0} (json : Json J L) where
  -- The fields that `_append_entry` writes and `_compact` writes again.
  unfoldable pub entry_line : Entry → L
  entry_line e = json.dumps (
      json.dict (
        ("array", json.text e.array)
        ∷ ("chunk_index", json.number e.chunk_index)
        ∷ ("file", json.text e.file)
        ∷ ("pipeline", json.text e.pipeline)
        ∷ []))

  unfoldable pub header_line : L
  header_line = json.dumps (json.dict (("format_version", json.number manifest_format) ∷ []))

  -- The `try` of `_parse_entries`, on one line
  unfoldable pub parse_entry : L → Option Entry
  parse_entry line = do
    rec ← json.loads line
    array ← json.get rec "array"
    index ← json.get rec "chunk_index"
    chunk_index ← json.int index
    file ← json.get rec "file"
    pipeline ← json.get rec "pipeline"
    some (record {
      array = json.str array;
      chunk_index = chunk_index;
      file = json.str file;
      pipeline = json.str pipeline;
    })

  -- `_parse_entries`, from the i-th line on, with the records so far
  unfoldable pub parse_from : ℕ → List Entry → List L → Outcome (List Entry × Bool)
  parse_from i records [] = returned (records, false)
  parse_from i records (line ∷ rest) = elim (parse_entry line) [
    | none ↦ elim rest [
      | [] ↦ returned (records, true)
      | ◌∷◌ _ _ ↦ raised (malformed_entry (i + 2))
    ]
    | some entry ↦
        if is_bare_filename entry.file
        then parse_from (suc i) (records ++ entry ∷ []) rest
        else raised (not_bare entry.file)
  ]

  unfoldable pub parse_entries : List L → Outcome (List Entry × Bool)
  parse_entries lines = parse_from 0 [] lines

  -- `_compact`
  unfoldable pub compact : List Entry → List L
  compact survivors = header_line ∷ map entry_line survivors

  module _ (opening : Opening) where
    unfoldable pub is_stale : Entry → Bool
    is_stale r = elim (opening.pipeline_fp r.array) [
      | none ↦ false
      | some fp ↦ not (str_eq r.pipeline fp)
    ]

    -- The set `stale`
    unfoldable pub stale_of : List Entry → List String
    stale_of [] = []
    stale_of (r ∷ records) =
        let rest = stale_of records in if is_stale r then r.array ∷ rest else rest

    unfoldable pub kept : List String → List Entry → List Entry
    kept stale [] = []
    kept stale (r ∷ records) =
        let rest = kept stale records in if mem_text r.array stale then rest else r ∷ rest

    unfoldable pub dropped_files : List String → List Entry → List String
    dropped_files stale [] = []
    dropped_files stale (r ∷ records) =
        let rest = dropped_files stale records in
        if mem_text r.array stale then r.file ∷ rest else rest

    -- `_drop_stale_arrays`: the survivors, and the files that it unlinks
    unfoldable pub drop_stale_arrays : List Entry → List String → Outcome (List Entry × List String)
    drop_stale_arrays records stale =
        if opening.readonly
        then raised (stale_readonly stale)
        else if not opening.reset_stale_cache
        then raised (stale_arrays stale)
        else returned (kept stale records, dropped_files stale records)

    -- The loop of `_reset_stale_format`: the files that the lines name
    unfoldable pub named_files : List L → List String
    named_files [] = []
    named_files (line ∷ lines) =
        let rest = named_files lines in
        elim (json.loads line >>= λ rec. json.get rec "file" >>= json.as_text) [
          | none ↦ rest
          | some fname ↦ if is_bare_filename fname then fname ∷ rest else rest
        ]

    unfoldable pub reset_stale_format : List L → Outcome (Loaded L)
    reset_stale_format entry_lines =
        if not opening.reset_stale_cache
        then raised stale_format
        else returned (record { survivors = []; unlinked = named_files entry_lines; log = none })

    -- `if stale: survivors = self._drop_stale_arrays(records, stale)`
    unfoldable pub fates : List Entry → List String → Outcome (List Entry × List String)
    fates records [] = returned (records, [])
    fates records (array ∷ stale) = drop_stale_arrays records (array ∷ stale)

    -- What follows the entries in `_load_log`
    unfoldable pub register : List L → List Entry × Bool → Outcome (Loaded L)
    register lines (records, torn) =
        let stale = stale_of records in
        fates records stale >>> λ fate.
        (let dirty = not (length fate.0 == length records) || torn in
          returned (record {
            survivors = fate.0;
            unlinked = fate.1;
            log = some (if not opening.readonly && dirty then compact fate.0 else lines);
          }))

    -- `_load_log` from the header's `format_version` on; none if it cannot be read.
    unfoldable pub load_entries : L → List L → Option J → Outcome (Loaded L)
    load_entries header entry_lines none = raised unreadable_header
    load_entries header entry_lines (some fmt) =
        if not (json.equals fmt manifest_format)
        then reset_stale_format entry_lines
        else parse_entries entry_lines >>> register (header ∷ entry_lines)

    -- `_load_log`
    unfoldable pub load_log : Option (List L) → Outcome (Loaded L)
    load_log none = returned (record { survivors = []; unlinked = []; log = none })
    load_log (some []) = returned (record { survivors = []; unlinked = []; log = some [] })
    load_log (some (header ∷ entry_lines)) =
        load_entries header entry_lines (json.loads header >>= λ rec. json.get rec "format_version")
