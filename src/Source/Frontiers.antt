-- ===== src/Source/Frontiers.antt =====
-- source.py, `produce`: the two frontiers, of the blocks that are waited for and those given back.
use Prim.Native.String.{String}
use insitubatch.Base.Perms.{append_assoc, flat_map-append}
use insitubatch.Base.{
  ℕ, zero, suc, ◌+◌, ◌*◌, ◌≤◌, ◌≡◌, refl, sym, ap, subst, ◌∙◌, inl, inr, Bool, false, ◌&&◌, List,
  [], ◌∷◌, ◌++◌, map, flat_map, Option, none, some, min, length, length-append, take, drop,
  range_from, All, ltb, leb, Bool-cases, Option-cases, leb→le, arith,
}
use insitubatch.Shuffle.{Row}
use insitubatch.Pool.State.{Key}
use insitubatch.Source.{Block, slice}
use insitubatch.Source.Anchors.{All-imply}
use insitubatch.Source.Producer.{
  Site, at_gather, at_unpin, at_transforms, Event, started, waited, gathered, unpinned, put_batch,
  put_error, put_sentinel, free_blocks, wait_keys, wait_blocks, or_fail, produce_from,
}
use insitubatch.Source.Rounds.{
  wait_keys_end, wait_keys_fine, wait_keys_fails, wait_blocks_end, wait_blocks_fine,
  wait_blocks_fails, wait_blocks_stays, waits_of,
}
use insitubatch.Source.Produced.{produce_from-round, produce_from_stops, produce_from_end}
use insitubatch.Source.Served.{drawn, InOrder}
use insitubatch.Source.Held.{blocks_of, ended_by}

abbrev pub keys_of : List Block → List Key
keys_of blocks = flat_map (λ b. b.read_keys) blocks

abbrev pub gives_of : List (Block × List Key) → List (List Key)
gives_of plan = map (λ e. e.1) plan

-- Along the calls, with the waits so far, how many blocks are given back, and what the others will give:
-- what is given back is what the next block gives; and at each gather, the waits are for all chunks of
-- the first blocks, in their order, and the rows are drawn from these blocks only, less the ones that
-- are given back.
abbrev pub Frontiers : List Block → List Key → ℕ → List (List Key) → List Event → Type 0
Frontiers blocks waits freed gives [] = Unit
Frontiers blocks waits freed gives (started ∷ events) = Frontiers blocks waits freed gives events
Frontiers blocks waits freed gives (waited k ∷ events) =
    Frontiers blocks (waits ++ k ∷ []) freed gives events
Frontiers blocks waits freed [] (unpinned keys ∷ events) = ⊥
Frontiers blocks waits freed (given ∷ gives) (unpinned keys ∷ events) =
    (keys ≡ given) × Frontiers blocks waits (suc freed) gives events
Frontiers blocks waits freed gives (gathered i j ∷ events) =
    (ready : ℕ) × (waits ≡ keys_of (take ready blocks))
    × (drawn i j (drop ready blocks) ≡ [])
    × (drawn i j (take freed blocks) ≡ [])
    × Frontiers blocks waits freed gives events
Frontiers blocks waits freed gives (put_batch rows ∷ events) =
    Frontiers blocks waits freed gives events
Frontiers blocks waits freed gives (put_error e ∷ events) =
    Frontiers blocks waits freed gives events
Frontiers blocks waits freed gives (put_sentinel ∷ events) =
    Frontiers blocks waits freed gives events

-- Rows are not drawn from blocks that begin behind them, or end before them.
drawn-later : (i j : ℕ) (bs : List Block) → All (λ b. j ≤ b.start) bs → drawn i j bs ≡ []
drawn-later i j [] h = refl
drawn-later i j (b ∷ bs) h =
    let e : ltb b.start j ≡ false = (let l = h.0 in ground arith) in rw e (drawn-later i j bs h.1)

drawn-earlier : (i j : ℕ) (bs : List Block) → All (λ b. b.stop ≤ i) bs → drawn i j bs ≡ []
drawn-earlier i j [] h = refl
drawn-earlier i j (b ∷ bs) h =
    let e : (ltb b.start j && ltb i b.stop) ≡ false = (let l = h.0 in ground arith) in
    rw e (drawn-earlier i j bs h.1)

append-nil : (xs : List Key) → xs ++ [] ≡ xs
append-nil [] = refl
append-nil (x ∷ xs) = ap (◌∷◌ x) (append-nil xs)

take-prefix {ℓ} : {A : Type ℓ} (xs ys : List A) → take (length xs) (xs ++ ys) ≡ xs
take-prefix [] ys = refl
take-prefix (x ∷ xs) ys = ap (◌∷◌ x) (take-prefix xs ys)

drop-prefix {ℓ} : {A : Type ℓ} (xs ys : List A) → drop (length xs) (xs ++ ys) ≡ ys
drop-prefix [] ys = refl
drop-prefix (x ∷ xs) ys = drop-prefix xs ys

module _ (blocks : List Block) where
  pub or_fail-Frontiers :
      (waits : List Key) (freed : ℕ) (gives : List (List Key)) (o : Option String)
      (events : List Event)
      → (o ≡ none → Frontiers blocks waits freed gives events)
      → Frontiers blocks waits freed gives (or_fail o events)
  or_fail-Frontiers waits freed gives none events h = h refl
  or_fail-Frontiers waits freed gives (some e) events h = tt

  wait_keys-Frontiers :
      (outcome : Key → Option String) (keys waits : List Key) (freed : ℕ) (gives : List (List Key))
      → (waits' : List Key) × ((wait_keys outcome keys).1 ≡ none → waits' ≡ waits ++ keys)
        × ((events : List Event)
            → Frontiers blocks waits' freed gives events
            → Frontiers blocks waits freed gives ((wait_keys outcome keys).0 ++ events))
  wait_keys-Frontiers outcome [] waits freed gives =
      (waits, λ _. sym (append-nil waits), λ events h. rw wait_keys_end h)
  wait_keys-Frontiers outcome (k ∷ keys) waits freed gives = elim (Option-cases (outcome k)) [
    | inl fine ↦
        (let (waits', all, serves) =
            wait_keys-Frontiers outcome keys (waits ++ k ∷ []) freed gives in
          (
            waits',
            λ h.
                all (ap (λ r. r.1) (sym (wait_keys_fine outcome k keys fine)) ∙ h)
                ∙ append_assoc waits (k ∷ []) keys,
            λ events h. rw (wait_keys_fine outcome k keys fine) (serves events h),
          ))
    | inr (e, fails) ↦ (
      waits ++ k ∷ [],
      λ h. absurd (let h' = ap (λ r. r.1) (sym (wait_keys_fails outcome k keys e fails)) ∙ h in cc),
      λ events h. rw (wait_keys_fails outcome k keys e fails) h,
    )
  ]

  module _ (outcome : Site → Option String) where
    wait_blocks-Frontiers :
        (stop : ℕ) (waiting : List Block) (waits : List Key) (freed : ℕ) (gives : List (List Key))
        → InOrder waiting
        → let ready = wait_blocks outcome stop waiting in
          (passed : List Block) × (waits' : List Key) × (ready.1.1 ≡ none
            → (waiting ≡ passed ++ ready.1.0)
              × (waits' ≡ waits ++ keys_of passed)
              × All (λ b. stop ≤ b.start) ready.1.0
              × InOrder ready.1.0)
          × ((events : List Event)
              → Frontiers blocks waits' freed gives events
              → Frontiers blocks waits freed gives (ready.0 ++ events))
    unfolding flat_map
    wait_blocks-Frontiers stop [] waits freed gives ordered = (
      [],
      waits,
      λ _. rw (wait_blocks_end outcome stop) (refl, sym (append-nil waits), tt, tt),
      λ events h. rw (wait_blocks_end outcome stop) h,
    )
    wait_blocks-Frontiers stop (b ∷ waiting) waits freed gives ordered =
        let (mid, all, serves) =
          wait_keys-Frontiers (waits_of outcome waiting) b.read_keys waits freed gives in
        let here = wait_keys (waits_of outcome waiting) b.read_keys in
        let rest = wait_blocks outcome stop waiting in
        elim (Bool-cases (ltb b.start stop)) [
          | inl low ↦ elim (Option-cases here.1) [
            | inl fine ↦
                (let (passed, waits', left, serves') =
                    wait_blocks-Frontiers stop waiting mid freed gives ordered.1 in
                  let same = wait_blocks_fine outcome stop b waiting low fine in
                  (
                    b ∷ passed,
                    waits',
                    λ h.
                        (let (split, grown, later, ordered') =
                            left (ap (λ r. r.1.1) (sym same) ∙ h) in
                          rw same (
                            ap (◌∷◌ b) split,
                            grown
                                ∙ (ap (λ ks. ks ++ keys_of passed) (all fine)
                                    ∙ append_assoc waits b.read_keys (keys_of passed)),
                            later,
                            ordered',
                          )),
                    λ events h.
                        (let h' = serves (rest.0 ++ events) (serves' events h) in
                          rw same (
                            subst (Frontiers blocks waits freed gives)
                              (sym (append_assoc here.0 rest.0 events)) h')),
                  ))
            | inr (e, fails) ↦
                (let same = wait_blocks_fails outcome stop b waiting e low fails in
                  (
                    [],
                    mid,
                    λ h. absurd (let h' = ap (λ r. r.1.1) (sym same) ∙ h in cc),
                    λ events h. rw same (serves events h),
                  ))
          ]
          | inr high ↦
              (let same = wait_blocks_stays outcome stop b waiting high in
                let above : stop ≤ b.start = ground arith in
                (
                  [],
                  waits,
                  λ h. rw same (
                    refl,
                    sym (append-nil waits),
                    (above, All-imply waiting (λ c (l : b.start ≤ c.start). omega arith) ordered.0),
                    ordered,
                  ),
                  λ events h. rw same h,
                ))
        ]

    free_blocks-Frontiers :
        (stop : ℕ) (freeing : List (Block × List Key)) (waits : List Key) (n : ℕ)
        → let freed = free_blocks outcome stop freeing in
          (passed : List Block) × (n' : ℕ) × (gives' : List (List Key)) × (freed.1.1 ≡ none
            → (blocks_of freeing ≡ passed ++ blocks_of freed.1.0)
              × (n' ≡ n + length passed)
              × (gives' ≡ gives_of freed.1.0)
              × All (λ b. b.stop ≤ stop) passed)
          × ((events : List Event)
              → Frontiers blocks waits n' gives' events
              → Frontiers blocks waits n (gives_of freeing) (freed.0 ++ events))
    unfolding free_blocks
    free_blocks-Frontiers stop [] waits n =
        ([], n, [], λ _. (refl, omega arith, refl, tt), λ events h. h)
    free_blocks-Frontiers stop (e ∷ freeing) waits n = elim (Bool-cases (leb e.0.stop stop)) [
      | inl low ↦ elim (Option-cases (outcome (at_unpin (length freeing)))) [
        | inl fine ↦
            (let (passed, n', gives', left, serves) =
                free_blocks-Frontiers stop freeing waits (suc n) in
              rw (low, fine)
                (
                  e.0 ∷ passed,
                  n',
                  gives',
                  λ h.
                      (let (split, count, gives, ended) = left h in
                        (
                          ap (◌∷◌ e.0) split,
                          omega (arith, count),
                          gives,
                          (leb→le e.0.stop stop low, ended),
                        )),
                  λ events h. (refl, serves events h),
                ))
        | inr (x, fails) ↦
            rw (low, fails)
              ([], suc n, gives_of freeing, λ h. absurd (let h' = h in cc), λ events h. (refl, h))
      ]
      | inr high ↦
          rw high ([], n, gives_of (e ∷ freeing), λ _. (refl, omega arith, refl, tt), λ events h. h)
    ]

    -- A gather between the two frontiers
    gather_between :
        (start stop : ℕ) (done waiting gone freeing : List Block) (waits : List Key) (n : ℕ)
        → blocks ≡ done ++ waiting
        → blocks ≡ gone ++ freeing
        → waits ≡ keys_of done
        → n ≡ length gone
        → All (λ b. stop ≤ b.start) waiting
        → All (λ b. b.stop ≤ start) gone
        → (ready : ℕ) × (waits ≡ keys_of (take ready blocks))
          × (drawn start stop (drop ready blocks) ≡ [])
          × (drawn start stop (take n blocks) ≡ [])
    gather_between start stop done waiting gone freeing waits n e e' all count later ended =
        let front : take (length done) blocks ≡ done =
          ap (take (length done)) e ∙ take-prefix done waiting in
        let back : drop (length done) blocks ≡ waiting =
          ap (drop (length done)) e ∙ drop-prefix done waiting in
        let given : take n blocks ≡ gone =
          ap (λ m. take m blocks) count ∙ (ap (take (length gone)) e' ∙ take-prefix gone freeing) in
        (
          length done,
          all ∙ ap keys_of (sym front),
          ap (drawn start stop) back ∙ drawn-later start stop waiting later,
          ap (drawn start stop) given ∙ drawn-earlier start stop gone ended,
        )

    module _ (stopped : ℕ → Bool) (bs : ℕ) (rows : List Row) where
      pub produce_from-Frontiers :
          (k m : ℕ) (waits : List Key) (n : ℕ) (done waiting gone : List Block)
          (freeing : List (Block × List Key))
          → blocks ≡ done ++ waiting
          → blocks ≡ gone ++ blocks_of freeing
          → waits ≡ keys_of done
          → n ≡ length gone
          → InOrder waiting
          → All (λ b. b.stop ≤ k * bs) gone
          → Frontiers blocks waits n (gives_of freeing) (
              produce_from outcome stopped bs rows
                (map (λ i. i * bs) (range_from k m))
                waiting
                freeing)
      produce_from-Frontiers k zero waits n done waiting gone freeing e e' all count ordered ended =
          rw (produce_from_end outcome stopped bs rows waiting freeing) tt
      produce_from-Frontiers k (suc m) waits n done waiting gone freeing e e' all count ordered
            ended =
          let start = k * bs in
          let stop = min (start + bs) (length rows) in
          let rest = map (λ i. i * bs) (range_from (suc k) m) in
          let ready = wait_blocks outcome stop waiting in
          let freed = free_blocks outcome stop freeing in
          let gives = gives_of freeing in
          let (passed, waits', left, serves) =
            wait_blocks-Frontiers stop waiting waits n gives ordered in
          let (past, n', gives', left', serves') = free_blocks-Frontiers stop freeing waits' n in
          let later = produce_from outcome stopped bs rows rest ready.1.0 freed.1.0 in
          let put = put_batch (slice rows start stop) ∷ later in
          let transformed = or_fail (outcome (at_transforms start)) put in
          let released = freed.0 ++ or_fail freed.1.1 transformed in
          elim (Bool-cases (stopped start)) [
            | inl stops ↦
                rw (produce_from_stops outcome stopped bs rows start rest waiting freeing stops) tt
            | inr goes ↦
                rw (produce_from-round outcome stopped bs rows start rest waiting freeing goes) (
                  serves _ (
                    or_fail-Frontiers waits' n gives ready.1.1 _ (λ fine.
                      (let (split, grown, later_blocks, ordered') = left fine in
                        let done' : blocks ≡ (done ++ passed) ++ ready.1.0 =
                          e ∙ (ap (◌++◌ done) split ∙ sym (append_assoc done passed ready.1.0)) in
                        let all' : waits' ≡ keys_of (done ++ passed) =
                          grown
                          ∙ (ap (λ ks. ks ++ keys_of passed) all
                              ∙ sym (flat_map-append (λ (b : Block). b.read_keys) done passed)) in
                        let (m', same, after, before) =
                          gather_between start stop (done ++ passed) ready.1.0 gone
                            (blocks_of freeing) waits' n done' e' all' count later_blocks ended in
                        (
                          m',
                          same,
                          after,
                          before,
                          or_fail-Frontiers waits' n gives (outcome (at_gather start)) released
                              (λ _. serves' (or_fail freed.1.1 transformed) (
                                or_fail-Frontiers waits' n' gives' freed.1.1 transformed (λ fine'.
                                  (let (split', count', gives_left, ended') = left' fine' in
                                    let gone' : blocks ≡ (gone ++ past) ++ blocks_of freed.1.0 =
                                      e'
                                      ∙ (ap (◌++◌ gone) split'
                                          ∙ sym (append_assoc gone past (blocks_of freed.1.0))) in
                                    let total = length-append gone past in
                                    or_fail-Frontiers waits' n' gives'
                                      (outcome (at_transforms start)) put
                                      (λ _.
                                        subst (λ gs. Frontiers blocks waits' n' gs later)
                                          (sym gives_left)
                                          (produce_from-Frontiers (suc k) m waits' n'
                                            (done ++ passed) ready.1.0 (gone ++ past) freed.1.0
                                            done' gone' all' (omega (arith, count, count', total))
                                            ordered'
                                            (ended_by k bs (length rows) gone past ended
                                              ended'))))))),
                        )))))
          ]
