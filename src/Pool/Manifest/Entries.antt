-- ===== src/Pool/Manifest/Entries.antt =====
-- pool.py, `_parse_entries`: which logs are read, and which are refused.
use Prim.Native.String.{String}
use text.Mathlib.Text.{◌==◌ as str_eq}
use insitubatch.Base.Perms.{append_assoc}
use mathlib.Core.List.{append-nil}
use insitubatch.Base.{
  ℕ, suc, ◌+◌, ◌≡◌, refl, sym, ap, ap₂, ◌∙◌, true, false, List, [], ◌∷◌, ◌++◌, map, Option, none,
  some, length, All, arith, if◌then◌else◌,
}
use insitubatch.Pool.Manifest.{
  Json, returned, raised, malformed_entry, not_bare, is_bare_filename, entry_line, parse_entry,
  parse_from, parse_entries,
}
use insitubatch.Pool.State.{Entry}

-- The last value that a key is given
abbrev pub field {ℓ} : {J : Type ℓ} → String → List (String × J) → Option J
field k [] = none
field k ((q, v) ∷ rest) = elim (field k rest) [
  | some w ↦ some w
  | none ↦ if str_eq q k then some v else none
]

-- What is documented of JSON: a value that is written is read back, a dict has the fields that it was
-- made with, and texts and numbers are themselves.
pub record IsJson {J L : Type 0} (json : Json J L) : Type 0 where
  pub loads-dumps : (j : J) → json.loads (json.dumps j) ≡ some j
  pub get-dict :
      (k : String) (fields : List (String × J)) → json.get (json.dict fields) k ≡ field k fields
  pub str-text : (s : String) → json.str (json.text s) ≡ s
  pub int-number : (n : ℕ) → json.int (json.number n) ≡ some n
  pub equals-number : (n : ℕ) → json.equals (json.number n) n ≡ true

module _ {J L : Type 0} (json : Json J L) where
  pub parse_from_torn :
      (i : ℕ) (records : List Entry) (line : L)
      → parse_entry json line ≡ none
      → parse_from json i records (line ∷ []) ≡ returned (records, true)
  unfolding parse_from
  parse_from_torn i records line bad = rw (bad, parse_from) refl

  pub parse_from_malformed :
      (i : ℕ) (records : List Entry) (line next : L) (rest : List L)
      → parse_entry json line ≡ none
      → parse_from json i records (line ∷ next ∷ rest) ≡ raised (malformed_entry (i + 2))
  unfolding parse_from
  parse_from_malformed i records line next rest bad = rw (bad, parse_from) refl

  pub parse_from_bare :
      (i : ℕ) (records : List Entry) (line : L) (rest : List L) (e : Entry)
      → parse_entry json line ≡ some e
      → is_bare_filename e.file ≡ true
      → parse_from json i records (line ∷ rest) ≡ parse_from json (suc i) (records ++ e ∷ []) rest
  unfolding parse_from
  parse_from_bare i records line rest e good bare = rw (good, parse_from) (rw bare refl)

  pub parse_from_escapes :
      (i : ℕ) (records : List Entry) (line : L) (rest : List L) (e : Entry)
      → parse_entry json line ≡ some e
      → is_bare_filename e.file ≡ false
      → parse_from json i records (line ∷ rest) ≡ raised (not_bare e.file)
  unfolding parse_from
  parse_from_escapes i records line rest e good bare = rw (good, parse_from) (rw bare refl)

  -- A line that was written for an entry is read back as the entry.
  pub parse_entry-entry_line :
      IsJson json → (e : Entry) → parse_entry json (entry_line json e) ≡ some e
  unfolding parse_entry entry_line
  parse_entry-entry_line laws e =
      let fields =
        ("array", json.text e.array)
        ∷ ("chunk_index", json.number e.chunk_index)
        ∷ ("file", json.text e.file)
        ∷ ("pipeline", json.text e.pipeline)
        ∷ [] in
      let read = laws.loads-dumps (json.dict fields) in
      let array : json.get (json.dict fields) "array" ≡ some (json.text e.array) =
        laws.get-dict "array" fields in
      let index : json.get (json.dict fields) "chunk_index" ≡ some (json.number e.chunk_index) =
        laws.get-dict "chunk_index" fields in
      let file : json.get (json.dict fields) "file" ≡ some (json.text e.file) =
        laws.get-dict "file" fields in
      let pipeline : json.get (json.dict fields) "pipeline" ≡ some (json.text e.pipeline) =
        laws.get-dict "pipeline" fields in
      rw read (
        rw (array, index)
          (rw (laws.int-number e.chunk_index) (
            rw (file, pipeline)
              (rw (laws.str-text e.array, laws.str-text e.file, laws.str-text e.pipeline) refl))))

  -- The lines of entries with bare names, whatever follows them.
  parse_from_entries :
      (i : ℕ) (records es : List Entry) (rest : List L)
      → IsJson json
      → All (λ e. is_bare_filename e.file ≡ true) es
      → parse_from json i records (map (entry_line json) es ++ rest)
        ≡ parse_from json (i + length es) (records ++ es) rest
  parse_from_entries i records [] rest laws bare =
      let z : i + 0 ≡ i = omega arith in rw (z, append-nil records) refl
  parse_from_entries i records (e ∷ es) rest laws bare =
      let s : i + suc (length es) ≡ suc i + length es = omega arith in
      let joined : (records ++ e ∷ []) ++ es ≡ records ++ e ∷ es =
        append_assoc records (e ∷ []) es in
      parse_from_bare i records (entry_line json e) (map (entry_line json) es ++ rest) e
        (parse_entry-entry_line laws e) bare.0
      ∙ (parse_from_entries (suc i) (records ++ e ∷ []) es rest laws bare.1
          ∙ ap₂ (λ j rs. parse_from json j rs rest) (sym s) joined)

  pub parse_from_end :
      (i : ℕ) (records : List Entry) → parse_from json i records [] ≡ returned (records, false)
  unfolding parse_from
  parse_from_end i records = refl

  -- The lines of entries with bare names are read back.
  pub parse_entries_lem :
      (es : List Entry)
      → IsJson json
      → All (λ e. is_bare_filename e.file ≡ true) es
      → parse_entries json (map (entry_line json) es) ≡ returned (es, false)
  unfolding parse_entries
  parse_entries_lem es laws bare =
      ap (parse_from json 0 []) (sym (append-nil (map (entry_line json) es)))
      ∙ (parse_from_entries 0 [] es [] laws bare ∙ parse_from_end (0 + length es) es)

  -- Given what JSON documents: a log of entries with bare file names is read back; a last line that is no
  -- entry is dropped, and known to be; one that another line follows raises an error with its line number
  -- in the file; and an entry whose file name is not bare raises an error, wherever it stands.
  pub parse_entries-entries :
      (es : List Entry) (bad next : L) (rest : List L) (bad_entry : Entry)
      → IsJson json
      → All (λ e. is_bare_filename e.file ≡ true) es
      → parse_entry json bad ≡ none
      → is_bare_filename bad_entry.file ≡ false
      → let lines = map (entry_line json) es in
        (parse_entries json lines ≡ returned (es, false))
        × (parse_entries json (lines ++ bad ∷ []) ≡ returned (es, true))
        × (parse_entries json (lines ++ bad ∷ next ∷ rest)
            ≡ raised (malformed_entry (length es + 2)))
        × (parse_entries json (lines ++ entry_line json bad_entry ∷ rest)
            ≡ raised (not_bare bad_entry.file))
  unfolding parse_entries
  parse_entries-entries es bad next rest bad_entry laws bare none_there escapes =
      let lines = map (entry_line json) es in
      let z : 0 + length es ≡ length es = omega arith in
      let upto : (more : List L)
          → parse_from json 0 [] (lines ++ more) ≡ parse_from json (length es) es more =
        λ more. parse_from_entries 0 [] es more laws bare ∙ ap (λ i. parse_from json i es more) z in
      (
        ap (parse_from json 0 []) (sym (append-nil lines))
            ∙ (upto [] ∙ parse_from_end (length es) es),
        upto (bad ∷ []) ∙ parse_from_torn (length es) es bad none_there,
        upto (bad ∷ next ∷ rest) ∙ parse_from_malformed (length es) es bad next rest none_there,
        upto (entry_line json bad_entry ∷ rest)
            ∙ parse_from_escapes (length es) es (entry_line json bad_entry) rest bad_entry
                (parse_entry-entry_line laws bad_entry) escapes,
      )
