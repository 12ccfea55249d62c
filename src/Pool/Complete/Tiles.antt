-- ===== src/Pool/Complete/Tiles.antt =====
-- The tiles of a slot under the calls on a pool: how many have come, of different coordinates.
use Prim.Native.String.{String}
use mathlib.Core.Option.{some-injective}
use insitubatch.Base.Int.{ℤ, pos_part, neg_part}
use insitubatch.Base.{
  ℕ, zero, suc, ◌+◌, ◌≤◌, ◌<◌, ◌≡◌, ◌⊎◌, refl, sym, ap, ap₂, ◌∙◌, inl, inr, Bool, true, false, not,
  map, range_from, List, [], ◌∷◌, Option, some, All, Bool-cases, length, arith,
}
use insitubatch.Geometry.{n_inner_chunks}
use insitubatch.Pool.State.{Key, Slot, SlotState, filling, assembled, Config, Pool, find}
use insitubatch.Pool.Admit.{Stored, same_shape, number_tiles}
use insitubatch.Pool.Calls.{Call, tile_land, System, step}
use insitubatch.Pool.Complete.{Every}

-- Are the slot's tiles those that were delivered? Publication replaces them where chunks are whole.
abbrev pub keeps_tiles : Bool → SlotState → Bool
keeps_tiles whole filling = true
keeps_tiles whole assembled = true
keeps_tiles whole _ = not whole

same_shape-eq : (a b : List ℕ) → same_shape a b ≡ true → a ≡ b
unfolding same_shape
same_shape-eq [] [] e = refl
same_shape-eq [] (n ∷ ns) e = absurd (let x = e in cc)
same_shape-eq (m ∷ ms) [] e = absurd (let x = e in cc)
same_shape-eq (m ∷ ms) (n ∷ ns) e =
    let parts : (m ≡ n) × (same_shape ms ns ≡ true) = ground arith in
    ap₂ ◌∷◌ parts.0 (same_shape-eq ms ns parts.1)

module _ {T : Type 0} where
  -- The tiles do not hold the coordinate.
  abbrev pub Without : List ℕ → List (List ℕ × T) → Type 0
  Without coord tiles = All (λ e. same_shape e.0 coord ≡ false) tiles

  -- No two tiles have the same coordinate.
  abbrev pub Different : List (List ℕ × T) → Type 0
  Different [] = Unit
  Different (e ∷ tiles) = All (λ d. same_shape e.0 d.0 ≡ false) tiles × Different tiles

  -- As many tiles as there are, at coordinates that all differ, if the slot keeps its tiles.
  abbrev pub Full : Bool → ℕ → List (List ℕ × T) → Type 0
  Full true n tiles = (n ≤ length tiles) × Different tiles
  Full false n tiles = Unit

  -- The call does not deliver a tile that the slot holds already.
  abbrev pub NewTile : System T → Call T → Type 0
  NewTile s (tile_land k coord t) =
      (slot : Slot T) → find k s.pool.slots ≡ some slot → Without coord slot.tiles
  NewTile s _ = Unit

  pub length-number_tiles :
      (d : Stored T) (i : ℕ) (cs : List (List ℕ)) → length (number_tiles d i cs) ≡ length cs
  unfolding number_tiles
  length-number_tiles d i [] = refl
  length-number_tiles d i (c ∷ cs) = ap suc (length-number_tiles d (i + 1) cs)

  -- A coordinate is none of those that are numbered above it.
  number_tiles-later :
      (d : Stored T) (number : List ℕ → Option ℕ) (coord : List ℕ) (j i k n : ℕ)
      (cs : List (List ℕ))
      → number coord ≡ some j
      → j < k
      → map number cs ≡ map some (range_from k n)
      → All (λ e. same_shape coord e.0 ≡ false) (number_tiles d i cs)
  unfolding number_tiles
  number_tiles-later d number coord j i k n [] at l e = tt
  number_tiles-later d number coord j i k zero (c ∷ cs) at l e = absurd (let x = e in cc)
  number_tiles-later d number coord j i k (suc n) (c ∷ cs) at l e = (
    other (Bool-cases (same_shape coord c)),
    number_tiles-later d number coord j (i + 1) (suc k) n cs at (omega arith) (let x = e in cc),
  )
    where
      other :
          (same_shape coord c ≡ true) ⊎ (same_shape coord c ≡ false) → same_shape coord c ≡ false
      other (inl same) =
          let q : number coord ≡ number c = ap number (same_shape-eq coord c same) in
          let here : number c ≡ some k = (let x = e in cc) in
          let jk : j ≡ k = some-injective j k (sym at ∙ (q ∙ here)) in absurd (omega arith)
      other (inr differs) = differs

  pub number_tiles-Different :
      (d : Stored T) (number : List ℕ → Option ℕ) (i k n : ℕ) (cs : List (List ℕ))
      → map number cs ≡ map some (range_from k n)
      → Different (number_tiles d i cs)
  unfolding number_tiles
  number_tiles-Different d number i k n [] e = tt
  number_tiles-Different d number i k zero (c ∷ cs) e = absurd (let x = e in cc)
  number_tiles-Different d number i k (suc n) (c ∷ cs) e = (
    number_tiles-later d number c k (i + 1) (suc k) n cs (let x = e in cc) (omega arith)
        (let x = e in cc),
    number_tiles-Different d number (i + 1) (suc k) n cs (let x = e in cc),
  )

-- With the count of what is outstanding, at least so many tiles are accounted for.
abbrev Accounted : ℕ → ℤ → ℕ → Type 0
Accounted n pending there = n + neg_part pending ≤ pos_part pending + there

module _ {T : Type 0} (cfg : Config T) where
  -- No call delivers a tile of a slot a second time.
  abbrev pub NewTiles : System T → List (Call T) → Type 0
  NewTiles s [] = Unit
  NewTiles s (c ∷ cs) = NewTile s c × NewTiles (step cfg s c) cs

  abbrev Counted : ℕ → Key → Slot T → Type 0
  Counted made k slot =
      keeps_tiles cfg.whole_chunks slot.state ≡ true
      → Accounted (n_inner_chunks (cfg.by_path k.path)) slot.pending (length slot.tiles)
        × Different slot.tiles

  abbrev Good : Pool T → Type 0
  Good p = Every (λ _. Unit) Counted p
