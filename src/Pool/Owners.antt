-- ===== src/Pool/Owners.antt =====
-- pool.py: one iteration is one owner. Minting and releasing owners, and the waits for a chunk.
use Prim.Native.String.{String}
use insitubatch.Base.{
  ℕ, ◌+◌, ◌*◌, Bool, true, false, ◌&&◌, not, List, [], ◌∷◌, Option, none, some, ltb, ◌==◌,
  if◌then◌else◌, ite, length, ℕ_discrete,
}
use insitubatch.Pool.State.{
  Key, Slot, Config, Pool, no_counts, update, find, count, pop_count, refs, quiescent,
  is_ready_state,
}
use insitubatch.Pool.Room.{drop_slot}

-- `self._owners.discard(owner)`
unfoldable pub discard : ℕ → List ℕ → List ℕ
discard o [] = []
discard o (p ∷ rest) = ite (ℕ_discrete p o) (discard o rest) (p ∷ discard o rest)

module _ {T : Type 0} where
  -- A slot that `release_owner` reclaims: unfinished, with no writer and no reference.
  unfoldable pub abandoned : Pool T → Key × Slot T → Bool
  abandoned s (k, slot) = not (is_ready_state slot.state) && quiescent slot && refs s k == 0

  unfoldable pub abandoned_keys : Pool T → List (Key × Slot T) → List Key
  abandoned_keys s [] = []
  abandoned_keys s ((k, slot) ∷ rest) =
      if abandoned s (k, slot) then k ∷ abandoned_keys s rest else abandoned_keys s rest

  -- The first loop of `release_owner`.
  unfoldable pub forget_owner : Pool T → ℕ → Pool T
  forget_owner s owner = record s { pinned = λ k. pop_count owner (s.pinned k) }

module _ {T : Type 0} (cfg : Config T) where
  -- `_refuse_if_budget_cannot_hold`: does it raise?
  unfoldable pub refused : ℕ → Bool
  refused iterations = elim cfg.budget [
    | none ↦ false
    | some budget ↦
        not (ltb iterations 2)
        && not (cfg.iteration_bytes == 0)
        && ltb budget (iterations * cfg.iteration_bytes)
  ]

  -- `new_owner`; `none` is its RuntimeError.
  unfoldable pub new_owner : Pool T → Option (ℕ × Pool T)
  new_owner s =
      if refused (length s.owners + 1)
      then none
      else let o = s.owner_seq + 1 in
        some (
          o,
          record s {
            owner_seq = o;
            owners = o ∷ s.owners;
            per_owner = update ℕ_discrete o no_counts s.per_owner;
          },
        )

  unfoldable pub drop_all : Pool T → List Key → Pool T
  drop_all s [] = s
  drop_all s (k ∷ ks) = drop_all (drop_slot cfg s k) ks

  unfoldable pub release_owner : Pool T → ℕ → Pool T
  release_owner s owner =
      let freed = forget_owner s owner in
      let swept = drop_all freed (abandoned_keys freed freed.slots) in
      record swept {
        owners = discard owner swept.owners;
        per_owner = update ℕ_discrete owner no_counts swept.per_owner;
      }

module _ {T : Type 0} where
  -- `_wait_satisfied`
  unfoldable pub wait_satisfied : Pool T → Key → ℕ → Bool
  wait_satisfied s k owner = elim s.error [
    | some _ ↦ true
    | none ↦ elim (find k s.slots) [
      | none ↦ false
      | some slot ↦ elim slot.error [
        | some _ ↦ true
        | none ↦ is_ready_state slot.state && ltb 0 (count owner (s.pinned k))
      ]
    ]
  ]

  -- `blocked_waiters`, of every owner or of one
  unfoldable pub blocked_waiters : Pool T → Option ℕ → List ((Key × ℕ) × ℕ) → List Key
  blocked_waiters s owner [] = []
  blocked_waiters s owner (((k, who), n) ∷ rest) =
      let asked : Bool = elim owner [ none ↦ true | some o ↦ who == o ] in
      if asked && not (wait_satisfied s k who)
      then k ∷ blocked_waiters s owner rest
      else blocked_waiters s owner rest

  -- `wait_ready`, after its wait: the pool's error, or else the slot's, is raised.
  unfoldable pub wait_error : Pool T → Key → Option String
  wait_error s k = elim s.error [
    | some e ↦ some e
    | none ↦ elim (find k s.slots) [ none ↦ none | some slot ↦ slot.error ]
  ]
