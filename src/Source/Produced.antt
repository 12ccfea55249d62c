-- ===== src/Source/Produced.antt =====
-- source.py, `produce`: what the producer puts on the queue, undisturbed and when a call raises.
use Prim.Native.String.{String}
use insitubatch.Base.Arith.{ceil_div, ceil_div_cover}
use insitubatch.Base.{
  ℕ, zero, suc, ◌+◌, ◌*◌, ◌<◌, ◌≡◌, refl, sym, ap, ◌∙◌, Bool, true, false, List, [], ◌∷◌, ◌++◌, map,
  flatten, Option, none, min, length, take, drop, range_from, arith,
}
use insitubatch.Shuffle.{Row}
use insitubatch.Pool.State.{Key}
use insitubatch.Source.{Block, slice}
use insitubatch.Source.Producer.{
  Site, at_start, at_gather, at_transforms, Event, gathered, put_batch, put_sentinel, free_blocks,
  starts, wait_blocks, or_fail, produce_from, produce,
}
use insitubatch.Source.Rounds.{
  puts, puts-append, ending, Raised, pieces, drop-drop, slice_lem, flatten-pieces, wait_blocks-puts,
  wait_blocks-fine, free_blocks-puts, free_blocks-fine,
}

-- A round that is not stopped, up to the batch that it puts and what follows.
abbrev pub round :
    (Site → Option String)
    → ℕ
    → List Row
    → ℕ
    → List Block
    → List (Block × List Key)
    → List Event
    → List Event
round outcome bs rows start waiting freeing later =
    let stop_row = min (start + bs) (length rows) in
    let ready = wait_blocks outcome stop_row waiting in
    let freed = free_blocks outcome stop_row freeing in
    ready.0
    ++ or_fail ready.1.1 (
        gathered start stop_row
        ∷ or_fail (outcome (at_gather start)) (
            freed.0
            ++ or_fail freed.1.1 (
                or_fail (outcome (at_transforms start))
                  (put_batch (slice rows start stop_row) ∷ later))))

module _ (outcome : Site → Option String) where
  -- The queue gets the first of the batches, and then the ending, behind an error that a call raised.
  abbrev pub Ends : List (List Row) → List Event → Type 0
  Ends batches events =
      (n : ℕ) × (e : Option String) × (puts events ≡ map put_batch (take n batches) ++ ending e)
      × Raised outcome e

  round-puts :
      (bs : ℕ) (rows : List Row) (start : ℕ) (waiting : List Block)
      (freeing : List (Block × List Key)) (later : List Event)
      → ((site : Site) → outcome site ≡ none)
      → puts (round outcome bs rows start waiting freeing later)
        ≡ put_batch (take bs (drop start rows)) ∷ puts later
  round-puts bs rows start waiting freeing later fine =
      let stop_row = min (start + bs) (length rows) in
      let ready = wait_blocks outcome stop_row waiting in
      let freed = free_blocks outcome stop_row freeing in
      let batch = put_batch (slice rows start stop_row) in
      rw
        (
          wait_blocks-fine outcome stop_row waiting fine,
          fine (at_gather start),
          free_blocks-fine outcome stop_row freeing fine,
          fine (at_transforms start),
        )
        (puts-append ready.0 (gathered start stop_row ∷ (freed.0 ++ (batch ∷ later)))
          ∙ (ap (λ es. es ++ puts (freed.0 ++ batch ∷ later))
                (wait_blocks-puts outcome stop_row waiting)
              ∙ (puts-append freed.0 (batch ∷ later)
                  ∙ (ap (λ es. es ++ batch ∷ puts later) (free_blocks-puts outcome stop_row freeing)
                      ∙ ap (λ b. put_batch b ∷ puts later) (slice_lem rows bs start)))))

  module _ (stopped : ℕ → Bool) (bs : ℕ) (rows : List Row) where
    pub produce_from-round :
        (start : ℕ) (rest : List ℕ) (waiting : List Block) (freeing : List (Block × List Key))
        → let stop_row = min (start + bs) (length rows) in
          stopped start ≡ false
          → produce_from outcome stopped bs rows (start ∷ rest) waiting freeing
            ≡ round outcome bs rows start waiting freeing (
                produce_from outcome stopped bs rows rest
                  (wait_blocks outcome stop_row waiting).1.0
                  (free_blocks outcome stop_row freeing).1.0)
    unfolding produce_from
    produce_from-round start rest waiting freeing goes = rw (goes, produce_from) refl

    pub produce_from_stops :
        (start : ℕ) (rest : List ℕ) (waiting : List Block) (freeing : List (Block × List Key))
        → stopped start ≡ true
        → produce_from outcome stopped bs rows (start ∷ rest) waiting freeing ≡ put_sentinel ∷ []
    unfolding produce_from
    produce_from_stops start rest waiting freeing stops = rw (stops, produce_from) refl

    pub produce_from_end :
        (waiting : List Block) (freeing : List (Block × List Key))
        → produce_from outcome stopped bs rows [] waiting freeing ≡ put_sentinel ∷ []
    unfolding produce_from
    produce_from_end waiting freeing = refl

    pieces_next :
        (k m : ℕ)
        → pieces m bs (drop bs (drop (k * bs) rows)) ≡ pieces m bs (drop (suc k * bs) rows)
    pieces_next k m =
        let next : k * bs + bs ≡ suc k * bs = grind arith in
        ap (pieces m bs) (drop-drop bs (k * bs) rows ∙ ap (λ i. drop i rows) next)

    produce_from-puts :
        (k m : ℕ) (waiting : List Block) (freeing : List (Block × List Key))
        → ((start : ℕ) → stopped start ≡ false)
        → ((site : Site) → outcome site ≡ none)
        → puts (
            produce_from outcome stopped bs rows
              (map (λ i. i * bs) (range_from k m))
              waiting
              freeing)
          ≡ map put_batch (pieces m bs (drop (k * bs) rows)) ++ put_sentinel ∷ []
    produce_from-puts k zero waiting freeing goes fine = ap puts (produce_from_end waiting freeing)
    produce_from-puts k (suc m) waiting freeing goes fine =
        ap puts (produce_from-round (k * bs) _ waiting freeing (goes (k * bs)))
        ∙ (round-puts bs rows (k * bs) waiting freeing _ fine
            ∙ ap (◌∷◌ (put_batch (take bs (drop (k * bs) rows)))) (
                produce_from-puts (suc k) m _ _ goes fine
                ∙ ap (λ ps. map put_batch ps ++ put_sentinel ∷ []) (sym (pieces_next k m))))

    -- With a batch size that is not 0, calls that all succeed, and a consumer that does not stop: the
    -- producer puts the draw order on the queue, cut into batches of `batch_size` rows of which only the
    -- last may be shorter, none missed and none twice, and then the sentinel, once.
    pub produce-puts :
        (plan : List (Block × List Key))
        → 0 < bs
        → ((start : ℕ) → stopped start ≡ false)
        → ((site : Site) → outcome site ≡ none)
        → let cut = pieces (ceil_div (length rows) bs) bs rows in
          (puts (produce outcome stopped bs rows plan) ≡ map put_batch cut ++ put_sentinel ∷ [])
          × (flatten cut ≡ rows)
    unfolding produce starts
    produce-puts plan positive goes fine =
        let n = ceil_div (length rows) bs in
        let z : 0 * bs ≡ 0 = omega arith in
        (
          rw (fine at_start) (
              produce_from-puts 0 n (map (λ b. b.0) plan) plan goes fine
              ∙ ap (λ i. map put_batch (pieces n bs (drop i rows)) ++ put_sentinel ∷ []) z),
          flatten-pieces n bs rows (ceil_div_cover (length rows) bs positive),
        )
