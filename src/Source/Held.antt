-- ===== src/Source/Held.antt =====
-- source.py, `produce`: the loop over the batches keeps what a gather needs.
use Prim.Native.String.{String}
use insitubatch.Base.Perms.{append_assoc}
use insitubatch.Base.{
  ℕ, zero, suc, ◌+◌, ◌*◌, ◌≤◌, ◌<◌, ◌≡◌, refl, sym, ap, subst, ◌∙◌, inl, inr, Bool, true, false,
  List, [], ◌∷◌, ◌++◌, map, Option, none, min, length, range_from, All, leb, Bool-cases,
  Option-cases, leb→le, arith,
}
use insitubatch.Shuffle.{Row}
use insitubatch.Pool.State.{Key}
use insitubatch.Source.{Block, key_in, slice}
use insitubatch.Source.Anchors.{All-imply}
use insitubatch.Source.Producer.{
  Site, at_gather, at_unpin, at_transforms, Event, put_batch, free_blocks, wait_blocks, or_fail,
  produce_from,
}
use insitubatch.Source.Produced.{produce_from-round, produce_from_stops, produce_from_end}
use insitubatch.Source.Served.{
  drawn, HeldKey, Served, ReleasedLast, InOrder, All-append, All-drawn, All-both, key_in-append,
  HasKeys, or_fail-Served, wait_blocks-Served,
}

abbrev pub Fresh : List Key → List Block → Type 0
Fresh releases bs = All (λ b. All (λ k. key_in k releases ≡ false) b.read_keys) bs

abbrev pub blocks_of : List (Block × List Key) → List Block
blocks_of plan = map (λ e. e.0) plan

Fresh-release :
    (given releases : List Key) (plan : List (Block × List Key))
    → Fresh releases (blocks_of plan)
    → All (λ later. All (λ k. key_in k given ≡ false) later.0.read_keys) plan
    → Fresh (given ++ releases) (blocks_of plan)
Fresh-release given releases [] h g = tt
Fresh-release given releases (e ∷ plan) h g = (
  All-imply e.0.read_keys (λ k b. key_in-append k given releases b.0 b.1)
      (All-both (λ k. key_in k given ≡ false) (λ k. key_in k releases ≡ false) e.0.read_keys g.0
        h.0),
  Fresh-release given releases plan h.1 g.1,
)

pub Fresh-none : (bs : List Block) → Fresh [] bs
unfolding key_in
Fresh-none [] = tt
Fresh-none (b ∷ bs) = (each b.read_keys, Fresh-none bs)
  where
    each : (keys : List Key) → All (λ k. key_in k [] ≡ false) keys
    each [] = tt
    each (k ∷ keys) = (refl, each keys)

-- What is given back in a round ends where the next batch starts.
pub ended_by :
    (k bs n : ℕ) (gone past : List Block)
    → All (λ b. b.stop ≤ k * bs) gone
    → All (λ b. b.stop ≤ min (k * bs + bs) n) past
    → All (λ b. b.stop ≤ suc k * bs) (gone ++ past)
ended_by k bs n gone past ended ended' =
    let next : k * bs + bs ≡ suc k * bs = grind arith in
    All-append (λ b. b.stop ≤ suc k * bs) gone past
      (All-imply gone (λ b (h : b.stop ≤ k * bs). omega arith) ended)
      (All-imply past (λ b (h : b.stop ≤ min (k * bs + bs) n). omega arith) ended')

module _ (blocks : List Block) where
  module _ (outcome : Site → Option String) where
    -- The calls of the loop over the blocks that are given back, whatever follows them; what holds of
    -- the frontier when none of them raised.
    free_blocks-Served :
        (stop : ℕ) (freeing : List (Block × List Key)) (waits releases : List Key)
        → Fresh releases (blocks_of freeing)
        → ReleasedLast freeing
        → let freed = free_blocks outcome stop freeing in
          (passed : List Block) × (releases' : List Key) × (freed.1.1 ≡ none
            → (blocks_of freeing ≡ passed ++ blocks_of freed.1.0)
              × All (λ b. b.stop ≤ stop) passed
              × Fresh releases' (blocks_of freed.1.0)
              × ReleasedLast freed.1.0)
          × ((events : List Event)
              → Served blocks waits releases' events
              → Served blocks waits releases (freed.0 ++ events))
    unfolding free_blocks
    free_blocks-Served stop [] waits releases fresh last =
        ([], releases, λ _. (refl, tt, tt, tt), λ events h. h)
    free_blocks-Served stop (e ∷ freeing) waits releases fresh last =
        elim (Bool-cases (leb e.0.stop stop)) [
          | inl low ↦ elim (Option-cases (outcome (at_unpin (length freeing)))) [
            | inl fine ↦
                (let (passed, releases', left, serves) =
                    free_blocks-Served stop freeing waits (e.1 ++ releases)
                      (Fresh-release e.1 releases freeing fresh.1 last.0) last.1 in
                  rw (low, fine)
                    (
                      e.0 ∷ passed,
                      releases',
                      λ h.
                          (let (split, ended, fresh', last') = left h in
                            (ap (◌∷◌ e.0) split, (leb→le e.0.stop stop low, ended), fresh', last')),
                      serves,
                    ))
            | inr (x, fails) ↦
                rw (low, fails) ([], e.1 ++ releases, λ h. absurd (let h' = h in cc), λ events h. h)
          ]
          | inr high ↦ rw high ([], releases, λ _. (refl, tt, fresh, last), λ events h. h)
        ]

  -- At a gather: what is waited for, and what is not given back.
  gather_held :
      (start stop : ℕ) (waits releases : List Key) (done waiting gone freeing : List Block)
      → blocks ≡ done ++ waiting
      → blocks ≡ gone ++ freeing
      → All (HasKeys waits) done
      → All (λ b. stop ≤ b.start) waiting
      → All (λ b. b.stop ≤ start) gone
      → Fresh releases freeing
      → All (λ b. All (HeldKey waits releases) b.read_keys) (drawn start stop blocks)
  gather_held start stop waits releases done waiting gone freeing e e' has later ended fresh =
      let Waited : Block → Type 0 = λ b. (b.start < stop → HasKeys waits b) in
      let Kept : Block → Type 0 =
        λ b. (start < b.stop → All (λ k. key_in k releases ≡ false) b.read_keys) in
      let waits_all : All Waited blocks = subst (All Waited) (sym e) (
        All-append Waited done waiting (All-imply done (λ b h _. h) has)
          (All-imply waiting (λ b (h : stop ≤ b.start) l. absurd (omega arith)) later)) in
      let keeps_all : All Kept blocks = subst (All Kept) (sym e') (
        All-append Kept gone freeing
          (All-imply gone (λ b (h : b.stop ≤ start) l. absurd (omega arith)) ended)
          (All-imply freeing (λ b h _. h) fresh)) in
      All-drawn (λ b. All (HeldKey waits releases) b.read_keys) start stop blocks
        (All-imply blocks
          (λ b h low high.
            All-both (λ k. key_in k waits ≡ true) (λ k. key_in k releases ≡ false) b.read_keys
              (h.0 low) (h.1 high))
          (All-both Waited Kept blocks waits_all keeps_all))

  module _ (outcome : Site → Option String) (stopped : ℕ → Bool) (bs : ℕ) (rows : List Row) where
    pub produce_from-Served :
        (k m : ℕ) (waits releases : List Key) (done waiting gone : List Block)
        (freeing : List (Block × List Key))
        → blocks ≡ done ++ waiting
        → blocks ≡ gone ++ blocks_of freeing
        → All (HasKeys waits) done
        → InOrder waiting
        → All (λ b. b.stop ≤ k * bs) gone
        → Fresh releases (blocks_of freeing)
        → ReleasedLast freeing
        → Served blocks waits releases (
            produce_from outcome stopped bs rows
              (map (λ i. i * bs) (range_from k m))
              waiting
              freeing)
    produce_from-Served k zero waits releases done waiting gone freeing e e' has ordered ended fresh
          last =
        rw (produce_from_end outcome stopped bs rows waiting freeing) tt
    produce_from-Served k (suc m) waits releases done waiting gone freeing e e' has ordered ended
          fresh last =
        let start = k * bs in
        let stop = min (start + bs) (length rows) in
        let rest = map (λ i. i * bs) (range_from (suc k) m) in
        let ready = wait_blocks outcome stop waiting in
        let freed = free_blocks outcome stop freeing in
        let (passed, waits', grown, left, serves) =
          wait_blocks-Served blocks outcome stop waiting waits releases ordered in
        let (past, releases', left', serves') =
          free_blocks-Served outcome stop freeing waits' releases fresh last in
        let later = produce_from outcome stopped bs rows rest ready.1.0 freed.1.0 in
        let put = put_batch (slice rows start stop) ∷ later in
        let transformed = or_fail (outcome (at_transforms start)) put in
        let released = freed.0 ++ or_fail freed.1.1 transformed in
        elim (Bool-cases (stopped start)) [
          | inl stops ↦
              rw (produce_from_stops outcome stopped bs rows start rest waiting freeing stops) tt
          | inr goes ↦
              rw (produce_from-round outcome stopped bs rows start rest waiting freeing goes) (
                serves _ (
                  or_fail-Served blocks outcome waits' releases ready.1.1 _ (λ fine.
                    (let (split, has', later_blocks, ordered') = left fine in
                      let done' : blocks ≡ (done ++ passed) ++ ready.1.0 =
                        e ∙ (ap (◌++◌ done) split ∙ sym (append_assoc done passed ready.1.0)) in
                      let all_has : All (HasKeys waits') (done ++ passed) =
                        All-append (HasKeys waits') done passed
                          (All-imply done (λ b h. All-imply b.read_keys grown h) has) has' in
                      let held =
                        gather_held start stop waits' releases (done ++ passed) ready.1.0 gone
                          (blocks_of freeing) done' e' all_has later_blocks ended fresh in
                      (
                        held,
                        or_fail-Served blocks outcome waits' releases (outcome (at_gather start))
                            released
                            (λ _. serves' (or_fail freed.1.1 transformed) (
                              or_fail-Served blocks outcome waits' releases' freed.1.1 transformed
                                (λ fine'.
                                  (let (split', ended', fresh', last') = left' fine' in
                                    let gone' : blocks ≡ (gone ++ past) ++ blocks_of freed.1.0 =
                                      e'
                                      ∙ (ap (◌++◌ gone) split'
                                          ∙ sym (append_assoc gone past (blocks_of freed.1.0))) in
                                    or_fail-Served blocks outcome waits' releases'
                                      (outcome (at_transforms start)) put
                                      (λ _.
                                        produce_from-Served (suc k) m waits' releases'
                                          (done ++ passed) ready.1.0 (gone ++ past) freed.1.0 done'
                                          gone' all_has ordered'
                                          (ended_by k bs (length rows) gone past ended ended')
                                          fresh' last'))))),
                      )))))
        ]
