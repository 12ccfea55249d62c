-- ===== src/Source/Producer.antt =====
-- source.py, `produce`: the producer thread of a pass, as the sequence of its calls. What each call comes
-- to (`none`, or the error that it raises) and when the consumer stops are parameters. What the
-- transforms make of a batch is left out; and the batch size is not 0, which `range` refuses.
use Prim.Native.String.{String}
use insitubatch.Base.Arith.{ceil_div}
use insitubatch.Base.{
  ℕ, ◌+◌, ◌*◌, Bool, List, [], ◌∷◌, ◌++◌, map, Option, none, some, min, length, range_from,
  if◌then◌else◌, ltb, leb,
}
use insitubatch.Shuffle.{Row}
use insitubatch.Pool.State.{Key}
use insitubatch.Source.{Block, slice}

-- The calls that may raise. A block is told by the number of the blocks behind it, and a batch by its
-- first row.
pub data Site : Type 0 where
  at_start : Site
  at_wait : ℕ → Key → Site
  at_gather : ℕ → Site
  at_unpin : ℕ → Site
  at_transforms : ℕ → Site

pub data Event : Type 0 where
  started : Event
  waited : Key → Event
  gathered : ℕ → ℕ → Event
  unpinned : List Key → Event
  put_batch : List Row → Event
  put_error : String → Event
  put_sentinel : Event

-- `range(0, n, bs)`
unfoldable pub starts : ℕ → ℕ → List ℕ
starts bs n = map (λ k. k * bs) (range_from 0 (ceil_div n bs))

-- `except` and `finally`: what follows a call, unless it raises.
abbrev pub or_fail : Option String → List Event → List Event
or_fail none events = events
or_fail (some error) events = put_error error ∷ put_sentinel ∷ []

-- `for path, cid in block_keys[ready]: wait_ready(path, cid, owner)`
unfoldable pub wait_keys : (Key → Option String) → List Key → List Event × Option String
wait_keys outcome [] = ([], none)
wait_keys outcome (k ∷ keys) =
    let rest = wait_keys outcome keys in
    elim (outcome k) [
      | none ↦ (waited k ∷ rest.0, rest.1)
      | some error ↦ (waited k ∷ [], some error)
    ]

module _ (outcome : Site → Option String) where
  -- The `while` over the blocks behind the frontier `ready`: its calls, the blocks that are still
  -- behind it, and the error that ended it.
  unfoldable pub wait_blocks : ℕ → List Block → List Event × (List Block × Option String)
  wait_blocks stop_row [] = ([], ([], none))
  wait_blocks stop_row (b ∷ waiting) =
      let here = wait_keys (λ k. outcome (at_wait (length waiting) k)) b.read_keys in
      let rest = wait_blocks stop_row waiting in
      if ltb b.start stop_row
      then elim here.1 [
        | none ↦ (here.0 ++ rest.0, rest.1)
        | some error ↦ (here.0, (waiting, some error))
      ]
      else ([], (b ∷ waiting, none))

  -- The `while` over the blocks behind the frontier `freed`: each with what it releases.
  unfoldable pub free_blocks :
      ℕ → List (Block × List Key) → List Event × (List (Block × List Key) × Option String)
  free_blocks stop_row [] = ([], ([], none))
  free_blocks stop_row (b ∷ freeing) =
      let rest = free_blocks stop_row freeing in
      if leb b.0.stop stop_row
      then elim (outcome (at_unpin (length freeing))) [
        | none ↦ (unpinned b.1 ∷ rest.0, rest.1)
        | some error ↦ (unpinned b.1 ∷ [], (freeing, some error))
      ]
      else ([], (b ∷ freeing, none))

  module _ (stopped : ℕ → Bool) (bs : ℕ) (rows : List Row) where
    -- The loop over the batches. Each of its ends is followed by the sentinel.
    unfoldable pub produce_from : List ℕ → List Block → List (Block × List Key) → List Event
    produce_from [] waiting freeing = put_sentinel ∷ []
    produce_from (start ∷ rest) waiting freeing =
        let stop_row = min (start + bs) (length rows) in
        let ready = wait_blocks stop_row waiting in
        let freed = free_blocks stop_row freeing in
        let later = produce_from rest ready.1.0 freed.1.0 in
        let put = put_batch (slice rows start stop_row) ∷ later in
        let transformed = or_fail (outcome (at_transforms start)) put in
        let released = freed.0 ++ or_fail freed.1.1 transformed in
        let batch = gathered start stop_row ∷ or_fail (outcome (at_gather start)) released in
        if stopped start then put_sentinel ∷ [] else ready.0 ++ or_fail ready.1.1 batch

    -- `produce`, for the blocks of the pass, each with what it releases
    unfoldable pub produce : List (Block × List Key) → List Event
    produce plan =
        started
        ∷ or_fail (outcome at_start)
            (produce_from (starts bs (length rows)) (map (λ b. b.0) plan) plan)
