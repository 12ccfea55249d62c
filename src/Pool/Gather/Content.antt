-- ===== src/Pool/Gather/Content.antt =====
-- pool.py, `gather`: what stands in a batch, against the arrays.
use mathlib.Core.List.{not-mem-nil, mem_of_ne_of_mem}
use insitubatch.Base.{
  ℕ, zero, suc, ◌+◌, ◌*◌, ◌≤◌, ◌<◌, ◌≡◌, refl, sym, ap, ap₂, subst, ◌∙◌, ◌↔◌, inl, inr, Bool, true,
  false, ◌&&◌, List, [], ◌∷◌, map, ltb, leb, ◌==◌, get_or, All, Bool-cases, ℕ_discrete, ==_iff, ◌⊎◌,
  arith, length, Mem,
}
use insitubatch.Geometry.{
  ArrayGeometry, IsValid, Range, inner_shape, inner_chunks, inner_grid, tile_placement, out_slices,
  at_origin,
}
use insitubatch.Geometry.Tiles.{
  Inside, Below, tile_of, slices-Inside, inner_chunks_pos, same_inner_rank,
}
use insitubatch.Pool.Gather.{selects, taken_from, behind, write_tile, write_tiles}
use insitubatch.Pool.State.{Slot}

selects_iff : (rs : List Range) (ps : List ℕ) → (selects rs ps ≡ true) ↔ Inside ps rs
unfolding selects
selects_iff [] [] = (λ _. tt, λ _. refl)
selects_iff (r ∷ rs) [] = (λ h. absurd cc, λ h. absurd h)
selects_iff [] (p ∷ ps) = (λ h. absurd cc, λ h. absurd h)
selects_iff (r ∷ rs) (p ∷ ps) =
    let ih = selects_iff rs ps in
    (
      λ h. (let (a, b) = split r.start p r.stop (selects rs ps) h in (a.0, a.1, ih.0 b)),
      λ h. join r.start p r.stop (selects rs ps) h.0 h.1 (ih.1 h.2),
    )
  where
    split :
        (a p c : ℕ) (b : Bool)
        → ((leb a p && ltb p c) && b) ≡ true
        → ((a ≤ p) × (p < c)) × (b ≡ true)
    split a p c b h = ground arith

    join : (a p c : ℕ) (b : Bool) → a ≤ p → p < c → b ≡ true → ((leb a p && ltb p c) && b) ≡ true
    join a p c b h k l = ground arith

-- The position of a tile's element in the array.
abbrev pub array_position : List ℕ → List ℕ → List ℕ → List ℕ
array_position (i ∷ coord) (c ∷ cs) (q ∷ qs) = (i * c + q) ∷ array_position coord cs qs
array_position _ _ _ = []

array_position-taken_from :
    (coord cs ss p : List ℕ)
    → Inside p (out_slices coord cs ss)
    → array_position coord cs
        (taken_from (out_slices coord cs ss) (map at_origin (out_slices coord cs ss)) p)
      ≡ p
unfolding out_slices taken_from
array_position-taken_from (i ∷ coord) (c ∷ cs) (s ∷ ss) (x ∷ p) h =
    ap₂ ◌∷◌ (omega arith) (array_position-taken_from coord cs ss p h.2)
array_position-taken_from [] [] [] [] h = refl
array_position-taken_from _ _ _ _ h = ground arith

get_or-mask :
    (cids : List ℕ) (cid i : ℕ)
    → i < length cids
    → get_or (map (λ c. c == cid) cids) i false ≡ (get_or cids i 0 == cid)
get_or-mask [] cid i h = absurd (omega arith)
get_or-mask (c ∷ cids) cid zero h = refl
get_or-mask (c ∷ cids) cid (suc i) h = get_or-mask cids cid i (omega arith)

both_true : (a b : Bool) → (a && b) ≡ true → (a ≡ true) × (b ≡ true)
both_true a b h = ground arith

coord-discrete : Discrete (List ℕ)
coord-discrete = hlevel ℕ_discrete

-- The array's content, at a sample and a position.
module _ {V : Type 0} (content : ℕ → List ℕ → V) (tile_geom : ArrayGeometry) (spc n : ℕ) where
  -- The tile has the array's content where its elements are in the array.
  abbrev pub IsTile : ℕ → List ℕ × (List ℕ → V) → Type 0
  IsTile cid (coord, tile) =
      Below coord (inner_grid tile_geom)
      × ((w : ℕ) (q : List ℕ)
          → cid * spc + w < n
          → Below (array_position coord (inner_chunks tile_geom) q) (inner_shape tile_geom)
          → tile (w ∷ q)
            ≡ content (cid * spc + w) (array_position coord (inner_chunks tile_geom) q))

  -- The slot has every tile of the grid, each with the array's content.
  abbrev pub Holds : ℕ → Slot (List ℕ → V) → Type 0
  Holds cid slot =
      All (IsTile cid) slot.tiles
      × ((coord : List ℕ)
          → Below coord (inner_grid tile_geom)
          → Mem coord (map (λ t. t.0) slot.tiles))

  module _ (valid : IsValid tile_geom) (cids withins : List ℕ) (i : ℕ) (p : List ℕ) where
    abbrev pub Right : (ℕ → List ℕ → V) → Type 0
    Right out = out i p ≡ content (get_or cids i 0 * spc + get_or withins i 0) p

    value-Right :
        (cid : ℕ) (coord : List ℕ) (tile : List ℕ → V)
        → IsTile cid (coord, tile)
        → get_or cids i 0 * spc + get_or withins i 0 < n
        → Below p (inner_shape tile_geom)
        → cid ≡ get_or cids i 0
        → let proj = tile_placement tile_geom cid coord in
          selects (behind proj.out_selection) p ≡ true
          → tile (
              get_or withins i 0
              ∷ taken_from (behind proj.out_selection) (behind proj.chunk_selection) p)
            ≡ content (get_or cids i 0 * spc + get_or withins i 0) p
    unfolding tile_placement
    value-Right cid coord tile ok inside below same sel =
        let ss = inner_shape tile_geom in
        let cs = inner_chunks tile_geom in
        let dst = out_slices coord cs ss in
        let q = taken_from dst (map at_origin dst) p in
        let at : array_position coord cs q ≡ p =
          array_position-taken_from coord cs ss p ((selects_iff dst p).0 sel) in
        let w = get_or withins i 0 in
        let s : cid * spc + w ≡ get_or cids i 0 * spc + w = ap (λ (c : ℕ). c * spc + w) same in
        ok.1 w q (omega arith) (subst (λ r. Below r ss) (sym at) below) ∙ ap₂ content s at

    selects_covers :
        (cid : ℕ) (coord : List ℕ)
        → Below coord (inner_grid tile_geom)
        → Below p (inner_shape tile_geom)
        → coord ≡ tile_of p (inner_chunks tile_geom)
        → selects (behind (tile_placement tile_geom cid coord).out_selection) p ≡ true
    unfolding tile_placement inner_grid
    selects_covers cid coord grid below covers =
        let ss = inner_shape tile_geom in
        let cs = inner_chunks tile_geom in
        (selects_iff (out_slices coord cs ss) p).1 (
          (slices-Inside p coord cs ss (inner_chunks_pos tile_geom valid)
              (same_inner_rank tile_geom valid) below grid).1
            covers)

    -- A tile of the chunk leaves what is right, and makes right what it covers.
    write_tile-Right :
        (cid : ℕ) (out : ℕ → List ℕ → V) (coord : List ℕ) (tile : List ℕ → V)
        → IsTile cid (coord, tile)
        → i < length cids
        → get_or cids i 0 * spc + get_or withins i 0 < n
        → Below p (inner_shape tile_geom)
        → Right out ⊎ ((cid ≡ get_or cids i 0) × (coord ≡ tile_of p (inner_chunks tile_geom)))
        → Right (write_tile tile_geom cid cids withins out (coord, tile))
    unfolding write_tile
    write_tile-Right cid out coord tile ok row inside below h =
        let dst = behind (tile_placement tile_geom cid coord).out_selection in
        let mask = get_or (map (λ c. c == cid) cids) i false in
        let test = get_or-mask cids cid i row in
        elim (Bool-cases (mask && selects dst p)) [
          | inl hit ↦
              (let (on, sel) = both_true mask (selects dst p) hit in
                let same : cid ≡ get_or cids i 0 =
                  sym ((==_iff (get_or cids i 0) cid).0 (sym test ∙ on)) in
                rw hit (value-Right cid coord tile ok inside below same sel))
          | inr miss ↦ elim h [
            | inl right ↦ rw miss right
            | inr (same, covers) ↦ absurd (
                let on : mask ≡ true = test ∙ (==_iff (get_or cids i 0) cid).1 (sym same) in
                let sel = selects_covers cid coord ok.0 below covers in
                clash mask (selects dst p) on sel miss)
          ]
        ]
      where
        clash : (a b : Bool) → a ≡ true → b ≡ true → (a && b) ≡ false → ⊥
        clash a b h k l = ground arith

    pub write_tiles-Right :
        (cid : ℕ) (out : ℕ → List ℕ → V) (tiles : List (List ℕ × (List ℕ → V)))
        → All (IsTile cid) tiles
        → i < length cids
        → get_or cids i 0 * spc + get_or withins i 0 < n
        → Below p (inner_shape tile_geom)
        → Right out
          ⊎ ((cid ≡ get_or cids i 0)
              × Mem (tile_of p (inner_chunks tile_geom)) (map (λ t. t.0) tiles))
        → Right (write_tiles tile_geom cid cids withins tiles out)
    unfolding write_tiles
    write_tiles-Right cid out [] ok row inside below (inl right) = right
    write_tiles-Right cid out [] ok row inside below (inr (same, there)) =
        absurd (not-mem-nil there)
    write_tiles-Right cid out ((coord, tile) ∷ tiles) ok row inside below h =
        let goal = tile_of p (inner_chunks tile_geom) in
        let next =
          write_tiles-Right cid (write_tile tile_geom cid cids withins out (coord, tile)) tiles ok.1
            row inside below in
        let step = write_tile-Right cid out coord tile ok.0 row inside below in
        elim h [
          | inl right ↦ next (inl (step (inl right)))
          | inr (same, there) ↦ elim (coord-discrete goal coord) [
            | yes here ↦ next (inl (step (inr (same, sym here))))
            | no other ↦ next (inr (same, mem_of_ne_of_mem other there))
          ]
        ]
