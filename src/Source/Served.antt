-- ===== src/Source/Served.antt =====
-- source.py, `produce`: a batch is gathered only from chunks that are waited for and not given back.
use Prim.Native.String.{String}
use insitubatch.Base.Perms.{append_assoc}
use insitubatch.Base.{
  ℕ, ◌≤◌, ◌<◌, ◌≡◌, refl, sym, ap, subst, ◌∙◌, inl, inr, true, false, ◌&&◌, List, [], ◌∷◌, ◌++◌,
  Option, none, some, All, ltb, Bool-cases, Option-cases, ltb→lt, if_pos, if◌then◌else◌, arith,
}
use insitubatch.Pool.State.{Key, Key-discrete}
use insitubatch.Source.{Block, key_in}
use insitubatch.Source.Anchors.{All-imply}
use insitubatch.Source.Producer.{
  Site, Event, started, waited, gathered, unpinned, put_batch, put_error, put_sentinel, or_fail,
  wait_keys, wait_blocks,
}
use insitubatch.Source.Rounds.{
  wait_keys_end, wait_keys_fine, wait_keys_fails, wait_blocks_end, wait_blocks_fine,
  wait_blocks_fails, wait_blocks_stays, waits_of,
}

-- The blocks that the rows between two positions are drawn from.
abbrev pub drawn : ℕ → ℕ → List Block → List Block
drawn start stop [] = []
drawn start stop (b ∷ blocks) =
    let rest = drawn start stop blocks in
    if ltb b.start stop && ltb start b.stop then b ∷ rest else rest

abbrev pub HeldKey : List Key → List Key → Key → Type 0
HeldKey waits releases k = (key_in k waits ≡ true) × (key_in k releases ≡ false)

-- Along the calls, with what has been waited for and what has been given back so far: at each gather,
-- every chunk that a block of its rows reads has been waited for and not been given back.
abbrev pub Served : List Block → List Key → List Key → List Event → Type 0
Served blocks waits releases [] = Unit
Served blocks waits releases (started ∷ events) = Served blocks waits releases events
Served blocks waits releases (waited k ∷ events) = Served blocks (k ∷ waits) releases events
Served blocks waits releases (unpinned ks ∷ events) = Served blocks waits (ks ++ releases) events
Served blocks waits releases (gathered i j ∷ events) =
    All (λ b. All (HeldKey waits releases) b.read_keys) (drawn i j blocks)
    × Served blocks waits releases events
Served blocks waits releases (put_batch rows ∷ events) = Served blocks waits releases events
Served blocks waits releases (put_error e ∷ events) = Served blocks waits releases events
Served blocks waits releases (put_sentinel ∷ events) = Served blocks waits releases events

-- What a block gives back, no later block reads.
abbrev pub ReleasedLast : List (Block × List Key) → Type 0
ReleasedLast [] = Unit
ReleasedLast (e ∷ plan) =
    All (λ later. All (λ k. key_in k e.1 ≡ false) later.0.read_keys) plan × ReleasedLast plan

-- The blocks' rows are in their order.
abbrev pub InOrder : List Block → Type 0
InOrder [] = Unit
InOrder (b ∷ blocks) = All (λ later. b.start ≤ later.start) blocks × InOrder blocks

pub All-append {ℓ κ} :
    {A : Type ℓ} (P : A → Type κ) (xs ys : List A) → All P xs → All P ys → All P (xs ++ ys)
All-append P [] ys h k = k
All-append P (x ∷ xs) ys h k = (h.0, All-append P xs ys h.1 k)

pub All-drawn {κ} :
    (P : Block → Type κ) (i j : ℕ) (blocks : List Block)
    → All (λ b. b.start < j → i < b.stop → P b) blocks
    → All P (drawn i j blocks)
All-drawn P i j [] h = tt
All-drawn P i j (b ∷ blocks) h =
    let ih = All-drawn P i j blocks h.1 in
    elim (Bool-cases (ltb b.start j)) [
      | inl low ↦ elim (Bool-cases (ltb i b.stop)) [
        | inl high ↦ rw (low, high) (h.0 (ltb→lt b.start j low) (ltb→lt i b.stop high), ih)
        | inr high ↦ rw (low, high) ih
      ]
      | inr low ↦ rw low ih
    ]

pub All-both {ℓ κ μ} :
    {A : Type ℓ} (P : A → Type κ) (Q : A → Type μ) (xs : List A)
    → All P xs
    → All Q xs
    → All (λ x. P x × Q x) xs
All-both P Q [] h k = tt
All-both P Q (x ∷ xs) h k = ((h.0, k.0), All-both P Q xs h.1 k.1)

pub key_in-cons : (k q : Key) (keys : List Key) → key_in k keys ≡ true → key_in k (q ∷ keys) ≡ true
unfolding key_in
key_in-cons k q keys h = ground arith

pub key_in-first : (k : Key) (keys : List Key) → key_in k (k ∷ keys) ≡ true
unfolding key_in
key_in-first k keys = if_pos (Key-discrete k k) refl true (key_in k keys)

pub key_in-append :
    (k : Key) (xs ys : List Key)
    → key_in k xs ≡ false
    → key_in k ys ≡ false
    → key_in k (xs ++ ys) ≡ false
unfolding key_in
key_in-append k [] ys h g = g
key_in-append k (x ∷ xs) ys h g = ground (arith, key_in-append k xs ys)

-- More has been waited for.
abbrev pub Grown : List Key → List Key → Type 0
Grown waits waits' = (k : Key) → key_in k waits ≡ true → key_in k waits' ≡ true

abbrev pub HasKeys : List Key → Block → Type 0
HasKeys waits b = All (λ k. key_in k waits ≡ true) b.read_keys

module _ (blocks : List Block) (outcome : Key → Option String) where
  -- The calls of a wait, whatever follows them: what follows is served after all of them.
  wait_keys-Served :
      (keys waits releases : List Key)
      → (waits' : List Key) × Grown waits waits'
        × ((wait_keys outcome keys).1 ≡ none → All (λ k. key_in k waits' ≡ true) keys)
        × ((events : List Event)
            → Served blocks waits' releases events
            → Served blocks waits releases ((wait_keys outcome keys).0 ++ events))
  wait_keys-Served [] waits releases = (waits, λ k h. h, λ _. tt, λ events h. rw wait_keys_end h)
  wait_keys-Served (k ∷ keys) waits releases = elim (Option-cases (outcome k)) [
    | inl fine ↦
        (let (waits', grown, has, serves) = wait_keys-Served keys (k ∷ waits) releases in
          (
            waits',
            λ q h. grown q (key_in-cons q k waits h),
            λ h. (
              grown k (key_in-first k waits),
              has (ap (λ r. r.1) (sym (wait_keys_fine outcome k keys fine)) ∙ h),
            ),
            λ events h. rw (wait_keys_fine outcome k keys fine) (serves events h),
          ))
    | inr (e, fails) ↦ (
      k ∷ waits,
      λ q h. key_in-cons q k waits h,
      λ h. absurd (let h' = ap (λ r. r.1) (sym (wait_keys_fails outcome k keys e fails)) ∙ h in cc),
      λ events h. rw (wait_keys_fails outcome k keys e fails) h,
    )
  ]

module _ (blocks : List Block) (outcome : Site → Option String) where
  -- What follows a call that may raise
  pub or_fail-Served :
      (waits releases : List Key) (o : Option String) (events : List Event)
      → (o ≡ none → Served blocks waits releases events)
      → Served blocks waits releases (or_fail o events)
  or_fail-Served waits releases none events h = h refl
  or_fail-Served waits releases (some e) events h = tt

  -- The same of the loop over the blocks: those that it passes are waited for, and those that are left
  -- begin at the batch's end or later.
  pub wait_blocks-Served :
      (stop : ℕ) (waiting : List Block) (waits releases : List Key)
      → InOrder waiting
      → (passed : List Block) × (waits' : List Key) × Grown waits waits'
        × ((wait_blocks outcome stop waiting).1.1 ≡ none
            → (waiting ≡ passed ++ (wait_blocks outcome stop waiting).1.0)
              × All (HasKeys waits') passed
              × All (λ b. stop ≤ b.start) (wait_blocks outcome stop waiting).1.0
              × InOrder (wait_blocks outcome stop waiting).1.0)
        × ((events : List Event)
            → Served blocks waits' releases events
            → Served blocks waits releases ((wait_blocks outcome stop waiting).0 ++ events))
  wait_blocks-Served stop [] waits releases ordered = (
    [],
    waits,
    λ k h. h,
    λ _. rw (wait_blocks_end outcome stop) (refl, tt, tt, tt),
    λ events h. rw (wait_blocks_end outcome stop) h,
  )
  wait_blocks-Served stop (b ∷ waiting) waits releases ordered =
      let (mid, grown, has, serves) =
        wait_keys-Served blocks (waits_of outcome waiting) b.read_keys waits releases in
      let here = wait_keys (waits_of outcome waiting) b.read_keys in
      let rest = wait_blocks outcome stop waiting in
      elim (Bool-cases (ltb b.start stop)) [
        | inl low ↦ elim (Option-cases here.1) [
          | inl fine ↦
              (let (passed, waits', grown', left, serves') =
                  wait_blocks-Served stop waiting mid releases ordered.1 in
                let same = wait_blocks_fine outcome stop b waiting low fine in
                (
                  b ∷ passed,
                  waits',
                  λ k h. grown' k (grown k h),
                  λ h.
                      (let (split, has', later, ordered') = left (ap (λ r. r.1.1) (sym same) ∙ h) in
                        rw same (
                          ap (◌∷◌ b) split,
                          (All-imply b.read_keys grown' (has fine), has'),
                          later,
                          ordered',
                        )),
                  λ events h.
                      (let h' = serves (rest.0 ++ events) (serves' events h) in
                        rw same (
                          subst (Served blocks waits releases)
                            (sym (append_assoc here.0 rest.0 events)) h')),
                ))
          | inr (e, fails) ↦
              (let same = wait_blocks_fails outcome stop b waiting e low fails in
                (
                  [],
                  mid,
                  grown,
                  λ h. absurd (let h' = ap (λ r. r.1.1) (sym same) ∙ h in cc),
                  λ events h. rw same (serves events h),
                ))
        ]
        | inr high ↦
            (let same = wait_blocks_stays outcome stop b waiting high in
              let above : stop ≤ b.start = ground arith in
              (
                [],
                waits,
                λ k h. h,
                λ h. rw same (
                  refl,
                  tt,
                  (above, All-imply waiting (λ c (l : b.start ≤ c.start). omega arith) ordered.0),
                  ordered,
                ),
                λ events h. rw same h,
              ))
      ]
