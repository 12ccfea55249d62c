-- ===== src/Pool/Holding/Passes.antt =====
-- What a pass relies on between taking a chunk and giving it back, whatever the other passes and the
-- decode threads do meanwhile.
use insitubatch.Base.{ℕ, ◌≡◌, true, List, All}
use insitubatch.Pool.State.{Key, Config}
use insitubatch.Pool.Owners.{wait_satisfied}
use insitubatch.Pool.Admit.{Disk, admitted, pin_if_ready, try_admit}
use insitubatch.Pool.Calls.{Call, pin_ready, admit, start, step, run}
use insitubatch.Pool.Budget.Run.{step-Inv, run-Inv}
use insitubatch.Pool.Holding.{Held}
use insitubatch.Pool.Holding.Run.{Spares, run-Held}
use insitubatch.Pool.Holding.Known.{Settled, Any, Is, Is-Stable, Settled-Stable}
use insitubatch.Pool.Holding.Taking.{Held-wait_satisfied, pin_if_ready-takes, try_admit-takes}

module _ {T : Type 0} (cfg : Config T) (before after : List (Call T)) (k : Key) (o : ℕ) where
  -- What a pass holds it goes on holding, in the same slot object, through any calls of the other
  -- passes, the scheduler and the decode threads, none of which is its own unpinning of the chunk or
  -- its own end: the chunk stays resident and the pass's reference is counted.
  pub run-keeps_slot :
      (i : ℕ)
      → All (Spares k o) after
      → Held (Is i) k o (run cfg start before).pool
      → Held (Is i) k o (run cfg (run cfg start before) after).pool
  run-keeps_slot i spares h =
      run-Held cfg (Is i) (Is-Stable cfg i) k o after (run cfg start before) spares
        (run-Inv cfg before) h

  -- A chunk that `try_admit` admits for a pass, in any state that calls lead to, is resident and
  -- counted for the pass after any later calls that are not its own unpinning of it or its own end.
  pub try_admit-run :
      (disk : Disk T)
      → (try_admit cfg disk (run cfg start before).pool k o).0 ≡ admitted
      → All (Spares k o) after
      → Held Any k o (run cfg (step cfg (run cfg start before) (admit disk k o)) after).pool
  unfolding step
  try_admit-run disk h spares =
      let s = run cfg start before in
      let s₁ = step cfg s (admit disk k o) in
      let v = run-Inv cfg before in
      run-Held cfg Any
        (record {
          enters = λ _ _. tt;
          lands = λ _ _ _ _. tt;
          leaves = λ _ _. tt;
          fails = λ _ _ _. tt;
          begins = λ _ _ _. tt;
          publishes = λ _ _ _. tt;
        })
        k o after s₁ spares (step-Inv cfg s (admit disk k o) v)
        (try_admit-takes cfg k disk s.pool o v h)

  -- After `pin_if_ready` has taken a chunk for a pass, in any state that calls lead to, the wait for
  -- that chunk is satisfied, and no later call undoes this but the pass's own unpinning of the chunk
  -- and its own end.
  pub pin_if_ready-wait_satisfied :
      (disk : Disk T)
      → (pin_if_ready cfg disk (run cfg start before).pool k o).0 ≡ true
      → All (Spares k o) after
      → wait_satisfied
          (run cfg (step cfg (run cfg start before) (pin_ready disk k o)) after).pool
          k
          o
        ≡ true
  unfolding step
  pin_if_ready-wait_satisfied disk h spares =
      let s = run cfg start before in
      let s₁ = step cfg s (pin_ready disk k o) in
      let v = run-Inv cfg before in
      Held-wait_satisfied (run cfg s₁ after).pool k o (
        run-Held cfg Settled (Settled-Stable cfg) k o after s₁ spares
          (step-Inv cfg s (pin_ready disk k o) v) (pin_if_ready-takes cfg k disk s.pool o v h))
