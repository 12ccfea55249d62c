-- ===== src/Pool/Lifecycle.antt =====
-- pool.py: the life of a slot. A tile task enters `tile_write`, delivers or fails, and releases;
-- `_advance` publishes a slot when its last writer has left and every tile has landed.
use Prim.Native.String.{String}
use insitubatch.Base.Int.{pos, neg, ◌+ℤ◌, leb_ℤ}
use insitubatch.Base.{
  ℕ, Bool, true, false, ◌&&◌, not, List, [], ◌∷◌, Option, none, some, ◌==◌, if◌then◌else◌, map,
}
use insitubatch.Geometry.{inner_chunks}
use insitubatch.Pool.State.{
  Key, Key-discrete, Slot, SlotState, filling, assembled, ready, failed, Config, Pool, Entry,
  update, find, modify, quiescent,
}
use insitubatch.Pool.Admit.{has_key, same_shape}

abbrev pub is_filling : SlotState → Bool
is_filling filling = true
is_filling _ = false

-- `slot.tiles[inner_coord] = tile`
unfoldable pub set_tile : {T : Type 0} → List ℕ → T → List (List ℕ × T) → List (List ℕ × T)
set_tile c t [] = (c, t) ∷ []
set_tile c t ((d, u) ∷ rest) = if same_shape d c then (d, t) ∷ rest else (d, u) ∷ set_tile c t rest

module _ {T : Type 0} where
  -- `tile_write`, on entry
  unfoldable pub enter : Pool T → Key → Pool T
  enter s k = record s {
    slots = modify k (λ slot. record slot { writers = slot.writers +ℤ pos 1 }) s.slots;
  }

  -- `_deliver`; `none` is the KeyError of a slot that is gone.
  unfoldable pub land : Pool T → Key → List ℕ → T → Option (Pool T)
  land s k coord tile = elim (find k s.slots) [
    | none ↦ none
    | some _ ↦ some (record s {
      slots =
          modify k
            (λ slot. record slot {
              tiles = set_tile coord tile slot.tiles;
              pending = slot.pending +ℤ neg (pos 1);
            })
            s.slots;
    })
  ]

  -- `_advance`, its first locked part: may the slot be published?
  unfoldable pub complete : Slot T → Bool
  complete slot = quiescent slot && leb_ℤ slot.pending (pos 0) && is_filling slot.state

  -- The slot that this thread goes on to publish, if any.
  unfoldable pub begin_publish : Pool T → Key → Option (Slot T) × Pool T
  begin_publish s k = elim (find k s.slots) [
    | none ↦ (none, s)
    | some slot ↦
        if complete slot
        then (
          some slot,
          record s { slots = modify k (λ x. record x { state = assembled }) s.slots },
        )
        else (none, s)
  ]

  -- `_TileWrite.release`, its locked part
  unfoldable pub drop_writer : Pool T → Key → Pool T
  drop_writer s k = record s {
    slots = modify k (λ slot. record slot { writers = slot.writers +ℤ neg (pos 1) }) s.slots;
  }

  -- `fail`, its locked part
  unfoldable pub poison : Pool T → Key → String → Pool T
  poison s k error = record s {
    slots = modify k (λ slot. record slot { error = some error; state = failed }) s.slots;
  }

  -- `set_error`: the first error wins.
  unfoldable pub set_error : Pool T → String → Pool T
  set_error s error = record s {
    error = elim s.error [ none ↦ some error | some first ↦ some first ];
  }

module _ {T : Type 0} (cfg : Config T) where
  -- `_record_completed` and `_append_entry`
  unfoldable pub record_completed : Pool T → Key → Option String → Pool T
  record_completed s k backing = if not cfg.persistent then s else elim backing [
    | none ↦ s
    | some file ↦
        let s' = record s { persisted = update Key-discrete k (some file) s.persisted } in
        if s.log_open && not (has_key k s.recorded)
        then record s' { log = entry file ∷ s.log; recorded = k ∷ s.recorded }
        else s'
  ]
    where
      entry : String → Entry
      entry file = record {
        array = k.path;
        chunk_index = k.chunk;
        file = file;
        pipeline = cfg.pipeline_fp k.path;
      }

  -- What is published: the tiles as they are, or, for an array that is transformed, one tile.
  unfoldable pub published : Key → Slot T → Slot T
  published k slot =
      if cfg.whole_chunks
      then record slot {
        tiles =
            (map (λ _. 0) (inner_chunks (cfg.out_by_path k.path)), cfg.prepare k slot.tiles) ∷ [];
        backing = if cfg.has_dir then some (cfg.file_name k) else slot.backing;
        state = ready;
      }
      else record slot { state = ready }

  -- `slot.tiles = ...; slot.state = READY`, on the slot object that the first part saw, if the pool
  -- still holds it. (A write to an object that left the pool is seen by nobody.)
  unfoldable pub publish_in_place : Pool T → Key → Slot T → Pool T
  publish_in_place s k seen = elim (find k s.slots) [
    | none ↦ s
    | some slot ↦
        if slot.ident == seen.ident then record s { slots = modify k (published k) s.slots } else s
  ]

  -- `_advance`, its last part
  unfoldable pub finish_publish : Pool T → Key → Slot T → Pool T
  finish_publish s k seen =
      record_completed (publish_in_place s k seen) k (published k seen).backing

  -- `_advance` with nothing between its two parts
  unfoldable pub advance : Pool T → Key → Pool T
  advance s k =
      let started = begin_publish s k in
      elim started.0 [ none ↦ started.1 | some seen ↦ finish_publish started.1 k seen ]

  -- `_TileWrite.release`, for a claim that is not yet released
  unfoldable pub leave : Pool T → Key → Pool T
  leave s k = advance (drop_writer s k) k

  -- `fail`
  unfoldable pub fail : Pool T → Key → String → Pool T
  fail s k error = advance (poison s k error) k
