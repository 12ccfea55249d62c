-- ===== src/Pool/Holding/Known.antt =====
-- What may be known of a held slot through other calls: that it is settled, and which one it is.
use insitubatch.Base.{ℕ, ◌≡◌, refl, Bool, true, none, some, arith}
use insitubatch.Pool.State.{Key, Slot, assembled, is_ready_state, Config}
use insitubatch.Pool.Lifecycle.{complete, published}
use insitubatch.Pool.Holding.Run.{Stable}

-- A slot for which a waiter need wait no longer: it is ready, or it has failed.
abbrev pub settled : {T : Type 0} → Slot T → Bool
settled slot = elim slot.error [ some _ ↦ true | none ↦ is_ready_state slot.state ]

abbrev pub Settled : {T : Type 0} → Slot T → Type 0
Settled slot = settled slot ≡ true

abbrev pub Any : {T : Type 0} → Slot T → Type 0
Any slot = Unit

-- A slot object of this identity.
abbrev pub Is : {T : Type 0} → ℕ → Slot T → Type 0
Is i slot = slot.ident ≡ i

module _ {T : Type 0} (cfg : Config T) where
  pub Is-Stable : (i : ℕ) → Stable cfg (Is {T = T} i)
  unfolding published
  Is-Stable i = record {
    enters = λ x p. p;
    lands = λ x c t p. p;
    leaves = λ x p. p;
    fails = λ x e p. p;
    begins = λ x d p. p;
    publishes = λ x k p. ground arith;
  }

  Settled-begins :
      (x : Slot T) → complete x ≡ true → Settled x → Settled (record x { state = assembled })
  unfolding complete
  Settled-begins x d p = ground arith

  Settled-publishes : (x : Slot T) (k : Key) → Settled x → Settled (published cfg k x)
  unfolding published
  Settled-publishes x k p = ground arith

  pub Settled-Stable : Stable cfg (Settled {T = T})
  Settled-Stable = record {
    enters = λ x p. p;
    lands = λ x c t p. p;
    leaves = λ x p. p;
    fails = λ x e p. refl;
    begins = Settled-begins;
    publishes = Settled-publishes;
  }
