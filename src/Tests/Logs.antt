-- ===== src/Tests/Logs.antt =====
-- A cache log with a stale array and a torn last line, and batch buffers that come back.
use Prim.Native.String.{String}
use insitubatch.Base.Text.{has_char}
use insitubatch.Base.{
  ℕ, ◌≡◌, refl, Bool, true, false, List, [], ◌∷◌, ◌++◌, map, Option, none, some, All, ◌==◌,
  if◌then◌else◌, arith,
}
use text.Mathlib.Text.{◌==◌ as str_eq}
use insitubatch.Buffers.{BufferKey, Call, taken, viewed, dropped}
use insitubatch.Pool.Manifest.{
  Json, Opening, returned, raised, malformed_entry, not_bare, Loaded, is_bare_filename, mem_text,
  entry_line, header_line, parse_entry, parse_from, parse_entries, compact, is_stale, stale_of,
  kept, dropped_files, drop_stale_arrays, fates, register, load_entries, load_log,
}
use insitubatch.Pool.Manifest.Entries.{field, IsJson, parse_entries-entries}
use insitubatch.Pool.Manifest.Reopen.{load_log-reopen}
use insitubatch.Pool.State.{Entry}

program : Unit {0}
unfolding has_char is_bare_filename mem_text entry_line header_line parse_entry parse_from
    parse_entries compact is_stale stale_of kept dropped_files drop_stale_arrays fates register
    load_entries load_log
program = tt

-- A JSON library whose lines are the values themselves.
data Value : Type 0 where
  text_value : String → Value
  number_value : ℕ → Value
  object : (String → Bool) → (String → Value) → Value

abbrev get_value : Value → String → Option Value
get_value (object has f) k = if has k then some (f k) else none
get_value _ k = none

abbrev text_of : Value → String
text_of (text_value s) = s
text_of _ = ""

abbrev as_text_value : Value → Option String
as_text_value (text_value s) = some s
as_text_value _ = none

abbrev as_number : Value → Option ℕ
as_number (number_value n) = some n
as_number _ = none

abbrev is_number : Value → ℕ → Bool
is_number (number_value n) m = n == m
is_number _ m = false

abbrev is_there : Option Value → Bool
is_there none = false
is_there (some v) = true

abbrev value_or : Option Value → Value
value_or none = number_value 0
value_or (some v) = v

there_or : (o : Option Value) → (if is_there o then some (value_or o) else none) ≡ o
there_or none = refl
there_or (some v) = refl

abbrev json : Json Value Value
json = record {
  loads = λ line. some line;
  dumps = λ v. v;
  get = get_value;
  dict = λ fields. object (λ k. is_there (field k fields)) (λ k. value_or (field k fields));
  text = text_value;
  number = number_value;
  str = text_of;
  as_text = as_text_value;
  int = as_number;
  equals = is_number;
}

json-IsJson : IsJson json
json-IsJson = record {
  loads-dumps = λ j. refl;
  get-dict = λ k fields. there_or (field k fields);
  str-text = λ s. refl;
  int-number = λ n. refl;
  equals-number = λ n. ground arith;
}

abbrev entry : String → String → String → Entry
entry array file pipeline = record {
  array = array;
  chunk_index = 0;
  file = file;
  pipeline = pipeline;
}

abbrev stale_entry : Entry
stale_entry = entry "t2m" "t2m.0.npy" "old"

abbrev good_entry : Entry
good_entry = entry "u10" "u10.0.npy" "b"

abbrev escaping_entry : Entry
escaping_entry = entry "u10" "../etc" "b"

bare_entries : All (λ e. is_bare_filename e.file ≡ true) (stale_entry ∷ good_entry ∷ [])
unfolding program
bare_entries = (refl, (refl, tt))

torn_line : parse_entry json (number_value 7) ≡ none
unfolding program
torn_line = refl

escapes : is_bare_filename escaping_entry.file ≡ false
unfolding program
escapes = refl

parse_entries-entries_example :
    let lines = map (entry_line json) (stale_entry ∷ good_entry ∷ []) in
    (parse_entries json lines ≡ returned (stale_entry ∷ good_entry ∷ [], false))
    × (parse_entries json (lines ++ number_value 7 ∷ [])
        ≡ returned (stale_entry ∷ good_entry ∷ [], true))
    × (parse_entries json (lines ++ number_value 7 ∷ number_value 8 ∷ [])
        ≡ raised (malformed_entry 4))
    × (parse_entries json (lines ++ entry_line json escaping_entry ∷ [])
        ≡ raised (not_bare "../etc"))
parse_entries-entries_example =
    parse_entries-entries json (stale_entry ∷ good_entry ∷ []) (number_value 7) (number_value 8) []
      escaping_entry json-IsJson bare_entries torn_line escapes

abbrev opening : Opening
opening = record {
  pipeline_fp = λ array.
      if str_eq array "t2m" then some "a" else if str_eq array "u10" then some "b" else none;
  readonly = false;
  reset_stale_cache = true;
}

abbrev lines : List Value
lines =
    header_line json
    ∷ entry_line json stale_entry
    ∷ entry_line json good_entry
    ∷ number_value 7
    ∷ []

abbrev left : List Value
left = header_line json ∷ entry_line json good_entry ∷ []

abbrev loaded : Loaded Value
loaded = record { survivors = good_entry ∷ []; unlinked = "t2m.0.npy" ∷ []; log = some left }

loads : load_log json opening (some lines) ≡ returned loaded
unfolding program
loads = refl

load_log-reopen_example :
    All (λ e. is_bare_filename e.file ≡ true) (good_entry ∷ [])
    × (load_log json opening (some left)
        ≡ returned (record { survivors = good_entry ∷ []; unlinked = []; log = some left }))
load_log-reopen_example = load_log-reopen json opening lines loaded left json-IsJson refl loads refl

abbrev batch : BufferKey
batch = record { inner_shape = 3 ∷ []; dtype = record { name = "float32"; itemsize = 4 } }

-- Two batches, the first of which is kept as a view and the second given back.
abbrev calls : List Call
calls = taken 4 batch ∷ viewed 0 ∷ taken 4 batch ∷ dropped 0 ∷ dropped 1 ∷ []
