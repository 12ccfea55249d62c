-- ===== src/Pool/State.antt =====
-- src/insitubatch/pool.py: the state of a `ChunkPool`, a slot of it, and one pass's counters.
-- The `OrderedDict` of slots is an association list, least recently used first. A dict that is only
-- read through `.get(k, default)` is a function, so `_pinned` maps a key to its owners' counts.
use Prim.Native.String.{String}
use insitubatch.Base.Int.{ℤ, pos, negsuc, pos_part, max_ℤ, scale, int64}
use insitubatch.Base.Text.{String-discrete}
use insitubatch.Base.{
  ℕ, ◌+◌, Bool, true, false, ◌&&◌, ◌||◌, map, List, [], ◌∷◌, ◌++◌, Option, none, some, ite, ◌==◌,
  if◌then◌else◌, product, ℕ_discrete,
}
use insitubatch.Geometry.{ArrayGeometry, chunk_bytes, slot_shape, tile_shape, n_inner_chunks}

-- `(path, chunk_index)`
pub record Key : Type 0 where
  pub path : String
  pub chunk : ℕ

unfoldable pub Key-discrete : Discrete Key
Key-discrete = hlevel (ℕ_discrete, String-discrete)

pub data SlotState : Type 0 where
  filling assembled ready failed : SlotState

abbrev pub is_ready_state : SlotState → Bool
is_ready_state ready = true
is_ready_state _ = false

-- `_Slot`. `ident` tells one slot object from another of the same key; `backing` is the name of its
-- file on the mmap tier; an error is its message.
pub record Slot (T : Type 0) : Type 0 where
  pub ident : ℕ
  pub tiles : List (List ℕ × T)
  pub backing : Option String
  pub writers : ℤ
  pub pending : ℤ
  pub nbytes : ℕ
  pub state : SlotState
  pub error : Option String

abbrev pub is_zero : ℤ → Bool
is_zero (pos n) = n == 0
is_zero (negsuc n) = false

-- `_Slot.quiescent`
abbrev pub quiescent : {T : Type 0} → Slot T → Bool
quiescent slot = is_zero slot.writers

-- `PassCounters`
pub record PassCounters : Type 0 where
  pub hits : ℕ
  pub misses : ℕ
  pub rereads : ℕ
  pub evictions : ℕ
  pub revive_mismatch : ℕ
  pub revive_missing : ℕ
  pub resident : ℤ
  pub resident_bytes : ℤ
  pub max_resident : ℤ
  pub max_resident_bytes : ℤ
  pub seen : List Key

abbrev pub no_counts : PassCounters
no_counts = record {
  hits = 0;
  misses = 0;
  rereads = 0;
  evictions = 0;
  revive_mismatch = 0;
  revive_missing = 0;
  resident = pos 0;
  resident_bytes = pos 0;
  max_resident = pos 0;
  max_resident_bytes = pos 0;
  seen = [];
}

-- `_note_resident`
unfoldable pub note_resident : PassCounters → PassCounters
note_resident c = record c {
  max_resident = max_ℤ c.max_resident c.resident;
  max_resident_bytes = max_ℤ c.max_resident_bytes c.resident_bytes;
}

-- What `__init__` fixes. The transform pipeline is user code: `prepare` is what it makes of a
-- chunk's tiles, and `pipeline_fp` is its fingerprint for each array.
pub record Config (T : Type 0) : Type 0 where
  pub by_path : String → ArrayGeometry
  pub out_by_path : String → ArrayGeometry
  pub whole_chunks : Bool
  pub prepare : Key → List (List ℕ × T) → T
  pub file_name : Key → String
  pub has_dir : Bool
  pub persistent : Bool
  pub readonly : Bool
  pub budget : Option ℕ
  pub iteration_bytes : ℕ
  pub pipeline_fp : String → String

-- One line of the manifest log.
pub record Entry : Type 0 where
  pub array : String
  pub chunk_index : ℕ
  pub file : String
  pub pipeline : String

-- `made` counts the slot objects made so far.
pub record Pool (T : Type 0) : Type 0 where
  pub slots : List (Key × Slot T)
  pub made : ℕ
  pub bytes : ℕ
  pub pinned : Key → List (ℕ × ℕ)
  pub owners : List ℕ
  pub owner_seq : ℕ
  pub per_owner : ℕ → PassCounters
  pub waiting : List ((Key × ℕ) × ℕ)
  pub error : Option String
  pub hits : ℕ
  pub misses : ℕ
  pub rereads : ℕ
  pub evictions : ℕ
  pub revive_mismatch : ℕ
  pub revive_missing : ℕ
  pub max_resident : ℕ
  pub max_resident_bytes : ℕ
  pub persisted : Key → Option String
  pub recorded : List Key
  pub log_open : Bool
  pub log : List Entry
  pub unlinked : List String

-- `slot_charge_bytes`
unfoldable pub slot_charge_bytes : ArrayGeometry → ArrayGeometry → ℕ → Bool → ℤ
slot_charge_bytes src out chunk_index assembles =
    let tiles = chunk_bytes src in
    if assembles
    then max_ℤ tiles (scale out.dtype.itemsize (int64 (product (slot_shape out chunk_index))))
    else tiles

module _ {T : Type 0} (cfg : Config T) where
  -- `_charge`. The byte counts of the pool are not negative here: a charge that `np.prod` wraps below 0,
  -- for a tile of 2^63 elements or more, is 0.
  unfoldable pub charge : Key → ℕ
  unfolding slot_charge_bytes
  charge k =
      pos_part
        (slot_charge_bytes (cfg.by_path k.path) (cfg.out_by_path k.path) k.chunk cfg.whole_chunks)

  -- `_tile_grid`
  unfoldable pub tile_grid : Key → ℕ × List ℕ
  tile_grid k =
      if cfg.whole_chunks
      then (1, slot_shape (cfg.out_by_path k.path) k.chunk)
      else (n_inner_chunks (cfg.by_path k.path), tile_shape (cfg.by_path k.path))

-- A dict that is read with a default, and written at one key.
abbrev pub update {ℓ κ} : {K : Type ℓ} {V : Type κ} → Discrete K → K → V → (K → V) → K → V
update dec k v f j = ite (dec j k) v (f j)

module _ {T : Type 0} where
  -- `_slots.get(key)`
  unfoldable pub find : Key → List (Key × Slot T) → Option (Slot T)
  find k [] = none
  find k ((j, slot) ∷ rest) = ite (Key-discrete j k) (some slot) (find k rest)

  -- `_slots.pop(key)`: the slots that stay
  unfoldable pub remove : Key → List (Key × Slot T) → List (Key × Slot T)
  remove k [] = []
  remove k ((j, slot) ∷ rest) = ite (Key-discrete j k) rest ((j, slot) ∷ remove k rest)

  -- a slot that is mutated in place keeps its position
  unfoldable pub modify : Key → (Slot T → Slot T) → List (Key × Slot T) → List (Key × Slot T)
  modify k f [] = []
  modify k f ((j, slot) ∷ rest) =
      ite (Key-discrete j k) ((j, f slot) ∷ rest) ((j, slot) ∷ modify k f rest)

  -- `_slots.move_to_end(key)`, for a key that is there
  unfoldable pub move_to_end : Key → List (Key × Slot T) → List (Key × Slot T)
  unfolding find remove
  move_to_end k slots = elim (find k slots) [
    | none ↦ slots
    | some slot ↦ remove k slots ++ (k, slot) ∷ []
  ]

-- How many distinct chunk indices are resident: `len(self._positions())`.
unfoldable pub is_in : ℕ → List ℕ → Bool
is_in c [] = false
is_in c (d ∷ rest) = c == d || is_in c rest

unfoldable pub distinct : List ℕ → ℕ
unfolding is_in
distinct [] = 0
distinct (c ∷ rest) = (if is_in c rest then 0 else 1) + distinct rest

unfoldable pub positions {ℓ} : {S : Type ℓ} → List (Key × S) → ℕ
unfolding distinct
positions slots = distinct (map (λ e. e.0.chunk) slots)

-- `owners.get(owner, 0)` and the inner dict's write
unfoldable pub count : ℕ → List (ℕ × ℕ) → ℕ
count o [] = 0
count o ((p, n) ∷ rest) = ite (ℕ_discrete p o) n (count o rest)

unfoldable pub set_count : ℕ → ℕ → List (ℕ × ℕ) → List (ℕ × ℕ)
set_count o n [] = (o, n) ∷ []
set_count o n ((p, m) ∷ rest) = ite (ℕ_discrete p o) ((p, n) ∷ rest) ((p, m) ∷ set_count o n rest)

unfoldable pub pop_count : ℕ → List (ℕ × ℕ) → List (ℕ × ℕ)
pop_count o [] = []
pop_count o ((p, m) ∷ rest) = ite (ℕ_discrete p o) rest ((p, m) ∷ pop_count o rest)

unfoldable pub total : List (ℕ × ℕ) → ℕ
total [] = 0
total ((p, n) ∷ rest) = n + total rest

module _ {T : Type 0} where
  -- `_refs`
  unfoldable pub refs : Pool T → Key → ℕ
  refs s k = total (s.pinned k)

  -- `_evictable`
  unfoldable pub evictable : Pool T → Key × Slot T → Bool
  unfolding refs
  evictable s (k, slot) = quiescent slot && refs s k == 0 && is_ready_state slot.state

  -- A new pool with no log to load and none to write: without a cache directory, or with one that does not
  -- persist. (`_load_log` is `load_log` of Pool/Manifest, on its own.)
  unfoldable pub init : Pool T
  init = record {
    slots = [];
    made = 0;
    bytes = 0;
    pinned = λ _. [];
    owners = [];
    owner_seq = 0;
    per_owner = λ _. no_counts;
    waiting = [];
    error = none;
    hits = 0;
    misses = 0;
    rereads = 0;
    evictions = 0;
    revive_mismatch = 0;
    revive_missing = 0;
    max_resident = 0;
    max_resident_bytes = 0;
    persisted = λ _. none;
    recorded = [];
    log_open = false;
    log = [];
    unlinked = [];
  }
