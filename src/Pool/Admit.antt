-- ===== src/Pool/Admit.antt =====
-- pool.py: taking a chunk for a pass. `try_admit`, `pin_if_ready`, and `_revive`, which brings back
-- a chunk that an earlier run left on disk.
use Prim.Native.String.{String}
use text.Mathlib.Text.{◌==◌ as str_eq}
use insitubatch.Base.Int.{pos, ◌+ℤ◌}
use insitubatch.Base.{
  ℕ, ◌+◌, Bool, true, false, ◌&&◌, not, List, [], ◌∷◌, ◌++◌, Option, none, some, max, ◌==◌,
  if◌then◌else◌, ite, map, ℕ_discrete,
}
use insitubatch.Geometry.{Dtype, inner_coords, inner_chunks, n_inner_chunks}
use insitubatch.Pool.State.{
  Key, Key-discrete, Slot, filling, ready, Config, Pool, PassCounters, note_resident, update, find,
  charge, tile_grid, positions, is_ready_state,
}
use insitubatch.Pool.Pins.{pin}
use insitubatch.Pool.Room.{make_room}

-- What `np.lib.format.open_memmap` finds in a file; `tile i` is `data[i]`.
pub record Stored (T : Type 0) : Type 0 where
  pub shape : List ℕ
  pub dtype : Dtype
  pub nbytes : ℕ
  pub tile : ℕ → T

-- The files of the cache directory, at the time of a call.
abbrev pub Disk : Type 0 → Type 0
Disk T = String → Option (Stored T)

-- What `try_admit` returns, or the error that it raises for a read-only pool.
pub data Admission : Type 0 where
  admitted full readonly_miss : Admission

unfoldable pub has_key : Key → List Key → Bool
has_key k [] = false
has_key k (j ∷ rest) = ite (Key-discrete j k) true (has_key k rest)

unfoldable pub same_shape : List ℕ → List ℕ → Bool
same_shape [] [] = true
same_shape (m ∷ ms) (n ∷ ns) = m == n && same_shape ms ns
same_shape _ _ = false

unfoldable pub same_dtype : Dtype → Dtype → Bool
same_dtype d e = str_eq d.name e.name && d.itemsize == e.itemsize

-- `for held_by in self._pinned.get(key, {})`
unfoldable pub charge_holders : List (ℕ × ℕ) → ℕ → (ℕ → PassCounters) → ℕ → PassCounters
charge_holders [] nbytes per_owner = per_owner
charge_holders ((o, n) ∷ rest) nbytes per_owner =
    let c = per_owner o in
    charge_holders rest nbytes (
      update ℕ_discrete o
        (note_resident (record c { resident_bytes = c.resident_bytes +ℤ pos nbytes })) per_owner)

module _ {T : Type 0} where
  -- `_note_touch`
  unfoldable pub note_touch : Pool T → Key → ℕ → Pool T
  note_touch s k owner =
      let c = s.per_owner owner in
      if has_key k c.seen
      then record s {
        rereads = s.rereads + 1;
        per_owner = update ℕ_discrete owner (record c { rereads = c.rereads + 1 }) s.per_owner;
      }
      else record s {
        per_owner = update ℕ_discrete owner (record c { seen = k ∷ c.seen }) s.per_owner;
      }

  unfoldable pub count_hit : Pool T → ℕ → Pool T
  count_hit s owner =
      let c = s.per_owner owner in
      record s {
        hits = s.hits + 1;
        per_owner = update ℕ_discrete owner (record c { hits = c.hits + 1 }) s.per_owner;
      }

  unfoldable pub count_miss : Pool T → ℕ → Pool T
  count_miss s owner =
      let c = s.per_owner owner in
      record s {
        misses = s.misses + 1;
        per_owner = update ℕ_discrete owner (record c { misses = c.misses + 1 }) s.per_owner;
      }

  unfoldable pub count_missing : Pool T → ℕ → Pool T
  count_missing s owner =
      let c = s.per_owner owner in
      record s {
        revive_missing = s.revive_missing + 1;
        per_owner =
            update ℕ_discrete owner (record c { revive_missing = c.revive_missing + 1 })
              s.per_owner;
      }

  unfoldable pub count_mismatch : Pool T → ℕ → Pool T
  count_mismatch s owner =
      let c = s.per_owner owner in
      record s {
        revive_mismatch = s.revive_mismatch + 1;
        per_owner =
            update ℕ_discrete owner (record c { revive_mismatch = c.revive_mismatch + 1 })
              s.per_owner;
      }

  unfoldable pub forget_persisted : Pool T → Key → Pool T
  forget_persisted s k = record s { persisted = update Key-discrete k none s.persisted }

  -- `self._slots[key] = slot` for a new key, `self._bytes += nbytes`, and the peaks
  unfoldable pub insert_slot : Pool T → Key → Slot T → Pool T
  insert_slot s k slot =
      let slots' = s.slots ++ (k, slot) ∷ [] in
      let bytes' = s.bytes + slot.nbytes in
      record s {
        slots = slots';
        made = s.made + 1;
        bytes = bytes';
        max_resident = max s.max_resident (positions slots');
        max_resident_bytes = max s.max_resident_bytes bytes';
      }

module _ {T : Type 0} where
  unfoldable pub charge_pinned : Pool T → List (ℕ × ℕ) → ℕ → Pool T
  charge_pinned s held nbytes = record s { per_owner = charge_holders held nbytes s.per_owner }

  -- `pin_if_ready`'s last lines, and those of the read-only branch of `try_admit`
  unfoldable pub take_hit : Pool T → Key → ℕ → Pool T
  take_hit s k owner = pin (note_touch (count_hit s owner) k owner) k owner

  -- A slot that is resident and READY
  unfoldable pub is_ready : Pool T → Key → Bool
  is_ready s k = elim (find k s.slots) [ none ↦ false | some slot ↦ is_ready_state slot.state ]

-- `tiles={c: data[i] for i, c in enumerate(coords)}`
unfoldable pub number_tiles : {T : Type 0} → Stored T → ℕ → List (List ℕ) → List (List ℕ × T)
number_tiles data' i [] = []
number_tiles data' i (c ∷ cs) = (c, data'.tile i) ∷ number_tiles data' (i + 1) cs

module _ {T : Type 0} (cfg : Config T) where
  -- The coordinates of a stored file's tiles. (`sorted(..., key=inner_index)` keeps the order of
  -- `inner_coords`, which that key numbers in order.)
  unfoldable pub stored_coords : Key → List (List ℕ)
  stored_coords k =
      if cfg.whole_chunks
      then map (λ _. 0) (inner_chunks (cfg.out_by_path k.path)) ∷ []
      else inner_coords (cfg.by_path k.path)

  -- Does the file still have the shape and dtype that the geometry wants?
  unfoldable pub matches : Key → Stored T → Bool
  matches k data' =
      let (n_tiles, tile_shape) = tile_grid cfg k in
      same_shape data'.shape (n_tiles ∷ tile_shape)
      && same_dtype data'.dtype (cfg.out_by_path k.path).dtype

  unfoldable pub revived_slot : ℕ → Key → String → Stored T → Slot T
  revived_slot ident k file data' = record {
    ident = ident;
    tiles = number_tiles data' 0 (stored_coords k);
    backing = some file;
    writers = pos 0;
    pending = pos 0;
    nbytes = data'.nbytes;
    state = ready;
    error = none;
  }

  -- `_revive` behind its first test, for a file that could be opened
  unfoldable pub revive_file : Pool T → Key → ℕ → String → Stored T → Bool × Pool T
  revive_file s k owner file data' =
      if matches k data'
      then (let room = make_room cfg s data'.nbytes owner in
          if room.0
          then (true, insert_slot room.1 k (revived_slot room.1.made k file data'))
          else (false, room.1))
      else (false, forget_persisted (count_mismatch s owner) k)

  -- `_revive`
  unfoldable pub revive : Disk T → Pool T → Key → ℕ → Bool × Pool T
  revive disk s k owner = if not cfg.persistent then (false, s) else elim (find k s.slots) [
    | some _ ↦ (false, s)
    | none ↦ elim (s.persisted k) [
      | none ↦ (false, s)
      | some file ↦ elim (disk file) [
        | none ↦ (false, forget_persisted (count_missing s owner) k)
        | some data' ↦ revive_file s k owner file data'
      ]
    ]
  ]

  unfoldable pub pin_if_ready : Disk T → Pool T → Key → ℕ → Bool × Pool T
  pin_if_ready disk s k owner =
      if is_ready s k
      then (true, take_hit s k owner)
      else let back = revive disk s k owner in
        if back.0 then (true, take_hit back.1 k owner) else (false, back.1)

  -- A fresh slot: no tile yet, nobody writing.
  unfoldable pub fresh_slot : ℕ → Key → Slot T
  fresh_slot ident k = record {
    ident = ident;
    tiles = [];
    backing = if cfg.has_dir && not cfg.whole_chunks then some (cfg.file_name k) else none;
    writers = pos 0;
    pending = pos (n_inner_chunks (cfg.by_path k.path));
    nbytes = charge cfg k;
    state = filling;
    error = none;
  }

  -- `try_admit` behind `_make_room`
  unfoldable pub admit_fresh : Pool T → Key → ℕ → Pool T
  admit_fresh s k owner =
      let slot = fresh_slot s.made k in
      let s₁ = charge_pinned (insert_slot (count_miss s owner) k slot) (s.pinned k) slot.nbytes in
      pin (note_touch s₁ k owner) k owner

  -- `try_admit` of a chunk that is not resident: the read-only branch, and the other
  unfoldable pub admit_readonly : Disk T → Pool T → Key → ℕ → Admission × Pool T
  admit_readonly disk s k owner =
      let back = revive disk s k owner in
      if back.0 then (admitted, take_hit back.1 k owner) else (readonly_miss, back.1)

  unfoldable pub admit_writable : Pool T → Key → ℕ → Admission × Pool T
  admit_writable s k owner =
      let room = make_room cfg s (charge cfg k) owner in
      if room.0 then (admitted, admit_fresh room.1 k owner) else (full, room.1)

  unfoldable pub try_admit : Disk T → Pool T → Key → ℕ → Admission × Pool T
  try_admit disk s k owner = elim (find k s.slots) [
    | some _ ↦ (admitted, pin (note_touch s k owner) k owner)
    | none ↦ if cfg.readonly then admit_readonly disk s k owner else admit_writable s k owner
  ]
