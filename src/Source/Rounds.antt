-- ===== src/Source/Rounds.antt =====
-- source.py, `produce`: its calls before a batch, and the rows of one batch.
use Prim.Native.String.{String}
use insitubatch.Base.{
  length-drop, take-append-drop, dec_le, Option-cases, ℕ, zero, suc, ◌+◌, ◌-◌, ◌*◌, ◌≤◌, ◌≡◌, refl,
  sym, ap, ap₂, ◌∙◌, inl, inr, true, false, List, [], ◌∷◌, ◌++◌, flatten, Option, none, some, min,
  length, take, drop, ltb, leb, Bool-cases, arith,
}
use insitubatch.Shuffle.{Row}
use insitubatch.Pool.State.{Key}
use insitubatch.Source.{Block, slice}
use insitubatch.Source.Producer.{
  Site, at_wait, at_unpin, Event, started, waited, gathered, unpinned, put_batch, put_error,
  put_sentinel, free_blocks, wait_keys, wait_blocks,
}

-- What is put on the queue to the consumer
abbrev pub puts : List Event → List Event
puts [] = []
puts (started ∷ events) = puts events
puts (waited k ∷ events) = puts events
puts (gathered i j ∷ events) = puts events
puts (unpinned ks ∷ events) = puts events
puts (event ∷ events) = event ∷ puts events

pub puts-append : (xs ys : List Event) → puts (xs ++ ys) ≡ puts xs ++ puts ys
puts-append [] ys = refl
puts-append (started ∷ xs) ys = puts-append xs ys
puts-append (waited k ∷ xs) ys = puts-append xs ys
puts-append (gathered i j ∷ xs) ys = puts-append xs ys
puts-append (unpinned ks ∷ xs) ys = puts-append xs ys
puts-append (put_batch rows ∷ xs) ys = ap (◌∷◌ (put_batch rows)) (puts-append xs ys)
puts-append (put_error e ∷ xs) ys = ap (◌∷◌ (put_error e)) (puts-append xs ys)
puts-append (put_sentinel ∷ xs) ys = ap (◌∷◌ put_sentinel) (puts-append xs ys)

-- What ends the queue: the sentinel, behind the error if there is one.
abbrev pub ending : Option String → List Event
ending none = put_sentinel ∷ []
ending (some e) = put_error e ∷ put_sentinel ∷ []

-- The error is what some call raises.
abbrev pub Raised : (Site → Option String) → Option String → Type 0
Raised outcome none = Unit
Raised outcome (some e) = (site : Site) × (outcome site ≡ some e)

-- The rows cut into pieces of a size, the last one shorter where it does not divide them.
abbrev pub pieces : ℕ → ℕ → List Row → List (List Row)
pieces zero bs rows = []
pieces (suc n) bs rows = take bs rows ∷ pieces n bs (drop bs rows)

pub drop-drop {ℓ} : {A : Type ℓ} (m n : ℕ) (xs : List A) → drop m (drop n xs) ≡ drop (n + m) xs
drop-drop m zero xs = let e : 0 + m ≡ m = omega arith in rw e refl
drop-drop zero (suc n) [] = let e : suc n + 0 ≡ suc n = omega arith in rw e refl
drop-drop (suc m) (suc n) [] = let e : suc n + suc m ≡ suc (n + suc m) = omega arith in rw e refl
drop-drop m (suc n) (x ∷ xs) =
    let e : suc n + m ≡ suc (n + m) = omega arith in rw e (drop-drop m n xs)

take-all {ℓ} :
    {A : Type ℓ} (m n : ℕ) (xs : List A) → length xs ≤ m → length xs ≤ n → take m xs ≡ take n xs
take-all zero zero xs h k = refl
take-all zero (suc n) [] h k = refl
take-all (suc m) zero [] h k = refl
take-all (suc m) (suc n) [] h k = refl
take-all zero (suc n) (x ∷ xs) h k = absurd (omega arith)
take-all (suc m) zero (x ∷ xs) h k = absurd (omega arith)
take-all (suc m) (suc n) (x ∷ xs) h k = ap (◌∷◌ x) (take-all m n xs (omega arith) (omega arith))

pub slice_lem :
    (rows : List Row) (bs s : ℕ) → slice rows s (min (s + bs) (length rows)) ≡ take bs (drop s rows)
unfolding slice
slice_lem rows bs s =
    let left = length-drop s rows in
    elim (dec_le (s + bs) (length rows)) [
      | yes le ↦ (let e : min (s + bs) (length rows) - s ≡ bs = omega arith in rw e refl)
      | no gt ↦
          take-all (min (s + bs) (length rows) - s) bs (drop s rows) (omega arith) (omega arith)
    ]

pub flatten-pieces :
    (n bs : ℕ) (rows : List Row) → length rows ≤ n * bs → flatten (pieces n bs rows) ≡ rows
unfolding flatten
flatten-pieces zero bs [] h = refl
flatten-pieces zero bs (r ∷ rows) h = absurd (omega arith)
flatten-pieces (suc n) bs rows h =
    let left = length-drop bs rows in
    let e : suc n * bs ≡ bs + n * bs = grind arith in
    ap (◌++◌ (take bs rows)) (flatten-pieces n bs (drop bs rows) (omega arith))
    ∙ take-append-drop bs rows

module _ (outcome : Key → Option String) where
  pub wait_keys_end : wait_keys outcome [] ≡ ([], none)
  unfolding wait_keys
  wait_keys_end = refl

  pub wait_keys_fine :
      (k : Key) (keys : List Key)
      → outcome k ≡ none
      → wait_keys outcome (k ∷ keys)
        ≡ (waited k ∷ (wait_keys outcome keys).0, (wait_keys outcome keys).1)
  unfolding wait_keys
  wait_keys_fine k keys fine = rw (fine, wait_keys) refl

  pub wait_keys_fails :
      (k : Key) (keys : List Key) (e : String)
      → outcome k ≡ some e
      → wait_keys outcome (k ∷ keys) ≡ (waited k ∷ [], some e)
  unfolding wait_keys
  wait_keys_fails k keys e fails = rw (fails, wait_keys) refl

  wait_keys-puts : (keys : List Key) → puts (wait_keys outcome keys).0 ≡ []
  wait_keys-puts [] = rw wait_keys_end refl
  wait_keys-puts (k ∷ keys) = elim (Option-cases (outcome k)) [
    | inl fine ↦ rw (wait_keys_fine k keys fine) (wait_keys-puts keys)
    | inr (e, fails) ↦ rw (wait_keys_fails k keys e fails) refl
  ]

  wait_keys-error :
      (keys : List Key) (e : String)
      → (wait_keys outcome keys).1 ≡ some e
      → (k : Key) × (outcome k ≡ some e)
  wait_keys-error [] e h = absurd (let h' = ap (λ r. r.1) (sym (wait_keys_end)) ∙ h in cc)
  wait_keys-error (k ∷ keys) e h = elim (Option-cases (outcome k)) [
    | inl fine ↦ wait_keys-error keys e (ap (λ r. r.1) (sym (wait_keys_fine k keys fine)) ∙ h)
    | inr (d, fails) ↦ (k, fails ∙ (ap (λ r. r.1) (sym (wait_keys_fails k keys d fails)) ∙ h))
  ]

  pub wait_keys-fine :
      (keys : List Key) → ((k : Key) → outcome k ≡ none) → (wait_keys outcome keys).1 ≡ none
  wait_keys-fine [] fine = rw wait_keys_end refl
  wait_keys-fine (k ∷ keys) fine = rw (wait_keys_fine k keys (fine k)) (wait_keys-fine keys fine)

module _ (outcome : Site → Option String) where
  -- What the waits for the chunks of a block come to, told by the blocks behind it.
  abbrev pub waits_of : List Block → Key → Option String
  waits_of waiting k = outcome (at_wait (length waiting) k)

  pub wait_blocks_end : (stop : ℕ) → wait_blocks outcome stop [] ≡ ([], ([], none))
  unfolding wait_blocks
  wait_blocks_end stop = refl

  pub wait_blocks_fine :
      (stop : ℕ) (b : Block) (waiting : List Block)
      → ltb b.start stop ≡ true
      → (wait_keys (waits_of waiting) b.read_keys).1 ≡ none
      → wait_blocks outcome stop (b ∷ waiting) ≡ (
        (wait_keys (waits_of waiting) b.read_keys).0 ++ (wait_blocks outcome stop waiting).0,
        (wait_blocks outcome stop waiting).1,
      )
  unfolding wait_blocks
  wait_blocks_fine stop b waiting low fine = rw (low, fine, wait_blocks) refl

  pub wait_blocks_fails :
      (stop : ℕ) (b : Block) (waiting : List Block) (e : String)
      → ltb b.start stop ≡ true
      → (wait_keys (waits_of waiting) b.read_keys).1 ≡ some e
      → wait_blocks outcome stop (b ∷ waiting)
        ≡ ((wait_keys (waits_of waiting) b.read_keys).0, (waiting, some e))
  unfolding wait_blocks
  wait_blocks_fails stop b waiting e low fails = rw (low, fails, wait_blocks) refl

  pub wait_blocks_stays :
      (stop : ℕ) (b : Block) (waiting : List Block)
      → ltb b.start stop ≡ false
      → wait_blocks outcome stop (b ∷ waiting) ≡ ([], (b ∷ waiting, none))
  unfolding wait_blocks
  wait_blocks_stays stop b waiting high = rw (high, wait_blocks) refl

  pub wait_blocks-puts :
      (stop : ℕ) (waiting : List Block) → puts (wait_blocks outcome stop waiting).0 ≡ []
  unfolding wait_blocks
  wait_blocks-puts stop [] = refl
  wait_blocks-puts stop (b ∷ waiting) =
      let here = wait_keys-puts (waits_of waiting) b.read_keys in
      let events = wait_keys (waits_of waiting) b.read_keys in
      let rest = wait_blocks outcome stop waiting in
      elim (Bool-cases (ltb b.start stop)) [
        | inl yes_ ↦ elim (Option-cases events.1) [
          | inl fine ↦
              rw (yes_, fine)
                (puts-append events.0 rest.0 ∙ ap₂ ◌++◌ here (wait_blocks-puts stop waiting))
          | inr (e, fails) ↦ rw (yes_, fails) here
        ]
        | inr no_ ↦ rw no_ refl
      ]

  pub wait_blocks-error :
      (stop : ℕ) (waiting : List Block) (e : String)
      → (wait_blocks outcome stop waiting).1.1 ≡ some e
      → (site : Site) × (outcome site ≡ some e)
  unfolding wait_blocks
  wait_blocks-error stop [] e h = absurd cc
  wait_blocks-error stop (b ∷ waiting) e h =
      let events = wait_keys (waits_of waiting) b.read_keys in
      elim (Bool-cases (ltb b.start stop)) [
        | inl yes_ ↦ elim (Option-cases events.1) [
          | inl fine ↦ wait_blocks-error stop waiting e (rw (yes_, fine) at h)
          | inr (d, fails) ↦
              (let (k, raises) =
                  wait_keys-error (waits_of waiting) b.read_keys e
                    (fails ∙ (rw (yes_, fails) at h)) in
                (at_wait (length waiting) k, raises))
        ]
        | inr no_ ↦ absurd (let h' = rw no_ at h in cc)
      ]

  pub wait_blocks-fine :
      (stop : ℕ) (waiting : List Block)
      → ((site : Site) → outcome site ≡ none)
      → (wait_blocks outcome stop waiting).1.1 ≡ none
  unfolding wait_blocks
  wait_blocks-fine stop [] fine = refl
  wait_blocks-fine stop (b ∷ waiting) fine =
      let here =
        wait_keys-fine (waits_of waiting) b.read_keys (λ k. fine (at_wait (length waiting) k)) in
      elim (Bool-cases (ltb b.start stop)) [
        | inl yes_ ↦ rw (yes_, here) (wait_blocks-fine stop waiting fine)
        | inr no_ ↦ rw no_ refl
      ]

  pub free_blocks-puts :
      (stop : ℕ) (freeing : List (Block × List Key))
      → puts (free_blocks outcome stop freeing).0 ≡ []
  unfolding free_blocks
  free_blocks-puts stop [] = refl
  free_blocks-puts stop (b ∷ freeing) = elim (Bool-cases (leb b.0.stop stop)) [
    | inl yes_ ↦ elim (Option-cases (outcome (at_unpin (length freeing)))) [
      | inl fine ↦ rw (yes_, fine) (free_blocks-puts stop freeing)
      | inr (e, fails) ↦ rw (yes_, fails) refl
    ]
    | inr no_ ↦ rw no_ refl
  ]

  pub free_blocks-error :
      (stop : ℕ) (freeing : List (Block × List Key)) (e : String)
      → (free_blocks outcome stop freeing).1.1 ≡ some e
      → (site : Site) × (outcome site ≡ some e)
  unfolding free_blocks
  free_blocks-error stop [] e h = absurd cc
  free_blocks-error stop (b ∷ freeing) e h = elim (Bool-cases (leb b.0.stop stop)) [
    | inl yes_ ↦ elim (Option-cases (outcome (at_unpin (length freeing)))) [
      | inl fine ↦ free_blocks-error stop freeing e (rw (yes_, fine) at h)
      | inr (d, fails) ↦ (at_unpin (length freeing), fails ∙ (rw (yes_, fails) at h))
    ]
    | inr no_ ↦ absurd (let h' = rw no_ at h in cc)
  ]

  pub free_blocks-fine :
      (stop : ℕ) (freeing : List (Block × List Key))
      → ((site : Site) → outcome site ≡ none)
      → (free_blocks outcome stop freeing).1.1 ≡ none
  unfolding free_blocks
  free_blocks-fine stop [] fine = refl
  free_blocks-fine stop (b ∷ freeing) fine =
      let here = fine (at_unpin (length freeing)) in
      elim (Bool-cases (leb b.0.stop stop)) [
        | inl yes_ ↦ rw (yes_, here) (free_blocks-fine stop freeing fine)
        | inr no_ ↦ rw no_ refl
      ]
