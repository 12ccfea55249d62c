-- ===== src/Source/Anchors.antt =====
-- source.py, `_drop_edge_anchors`: the rows that it keeps, and their blocks.
use insitubatch.Base.Int.{ℤ, pos, ◌+ℤ◌, ◌≤ℤ◌, ◌<ℤ◌, leb_ℤ, ltb_ℤ, eqb_ℤ}
use insitubatch.Base.{
  ℕ, ◌<◌, ◌≡◌, refl, sym, ap, ap₂, ◌∙◌, ◌↔◌, inl, inr, Bool, true, false, ◌&&◌, List, [], ◌∷◌, map,
  length, All, Bool-cases, arith,
}
use insitubatch.Geometry.{ArrayGeometry}
use insitubatch.Shuffle.{Row, from_blocks}
use insitubatch.Shuffle.Keep.{IsSearchsorted, select, nonempty, keep-from_blocks}
use insitubatch.Source.{anchor_of, in_range, drop_edge_anchors}
use insitubatch.Split.{valid_anchor_range}
use insitubatch.Split.Anchors.{InArray, valid_anchor_range_iff}

-- The row's read is in the array at every variable's offset.
abbrev pub reads_inside : List ArrayGeometry → ℕ → ℕ → Row → Bool
reads_inside [] spc n row = true
reads_inside (g ∷ geometries) spc n row =
    (leb_ℤ (pos 0) (pos (anchor_of spc row) +ℤ g.offset)
      && ltb_ℤ (pos (anchor_of spc row) +ℤ g.offset) (pos n))
    && reads_inside geometries spc n row

range_true : (lo hi x : ℤ) → ((leb_ℤ lo x && ltb_ℤ x hi) ≡ true) ↔ ((lo ≤ℤ x) × (x <ℤ hi))
range_true lo hi x = ground arith

and_true : (a b : Bool) → ((a && b) ≡ true) ↔ ((a ≡ true) × (b ≡ true))
and_true a b = ground arith

same_truth : (a b : Bool) → (a ≡ true) ↔ (b ≡ true) → a ≡ b
same_truth true true h = refl
same_truth true false h = sym (h.0 refl)
same_truth false true h = h.1 refl
same_truth false false h = refl

reads_inside_iff :
    (geometries : List ArrayGeometry) (spc n : ℕ) (row : Row)
    → (reads_inside geometries spc n row ≡ true)
      ↔ All (InArray n (anchor_of spc row)) (map (λ g. g.offset) geometries)
reads_inside_iff [] spc n row = (λ _. tt, λ _. refl)
reads_inside_iff (g ∷ geometries) spc n row =
    let x = pos (anchor_of spc row) +ℤ g.offset in
    let here = range_true (pos 0) (pos n) x in
    let ih = reads_inside_iff geometries spc n row in
    let split = and_true (leb_ℤ (pos 0) x && ltb_ℤ x (pos n)) (reads_inside geometries spc n row) in
    (λ h. (here.0 (split.0 h).0, ih.0 (split.0 h).1), λ h. split.1 (here.1 h.0, ih.1 h.1))

-- On the anchors of the array the test of the mask is the one of the reads.
in_range-reads_inside :
    (geometries : List ArrayGeometry) (spc n : ℕ) (row : Row)
    → anchor_of spc row < n
    → in_range (valid_anchor_range (map (λ g. g.offset) geometries) n) spc row
      ≡ reads_inside geometries spc n row
unfolding in_range
in_range-reads_inside geometries spc n row h =
    let offsets = map (λ (g : ArrayGeometry). g.offset) geometries in
    let ends = valid_anchor_range offsets n in
    let a = anchor_of spc row in
    let mask = range_true ends.0 ends.1 (pos a) in
    let exact = valid_anchor_range_iff offsets n a in
    let reads = reads_inside_iff geometries spc n row in
    same_truth _ _ (λ t. reads.1 (exact.0 (mask.0 t)).1, λ t. mask.1 (exact.1 (h, reads.0 t)))

select-same :
    (p q : Row → Bool) (rows : List Row) → All (λ r. p r ≡ q r) rows → select p rows ≡ select q rows
select-same p q [] h = refl
select-same p q (r ∷ rows) h =
    let ih = select-same p q rows h.1 in
    elim (Bool-cases (q r)) [
      | inl yes_ ↦ (let e = h.0 ∙ yes_ in rw (e, yes_) (ap (◌∷◌ r) ih))
      | inr no_ ↦ (let e = h.0 ∙ no_ in rw (e, no_) ih)
    ]

select-all : (p : Row → Bool) (rows : List Row) → All (λ r. p r ≡ true) rows → select p rows ≡ rows
select-all p [] h = refl
select-all p (r ∷ rows) h = let e = h.0 in rw e (ap (◌∷◌ r) (select-all p rows h.1))

pub All-imply {ℓ κ μ} :
    {A : Type ℓ} {P : A → Type κ} {Q : A → Type μ} (xs : List A)
    → ((x : A) → P x → Q x)
    → All P xs
    → All Q xs
All-imply [] f h = tt
All-imply (x ∷ xs) f h = (f x h.0, All-imply xs f h.1)

map-same {ℓ κ} :
    {A : Type ℓ} {B : Type κ} (f g : A → B) (xs : List A)
    → All (λ x. f x ≡ g x) xs
    → map f xs ≡ map g xs
map-same f g [] h = refl
map-same f g (x ∷ xs) h = ap₂ ◌∷◌ h.0 (map-same f g xs h.1)

nonempty-all :
    (blocks : List (List Row)) → All (λ b. 0 < length b) blocks → nonempty blocks ≡ blocks
nonempty-all [] h = refl
nonempty-all ([] ∷ blocks) h = absurd (omega (arith, h.0))
nonempty-all ((r ∷ b) ∷ blocks) h = ap (◌∷◌ (r ∷ b)) (nonempty-all blocks h.1)

same_ends : (x y : ℤ) → eqb_ℤ x y ≡ true → x ≡ y
same_ends x y h = ground arith

whole : (a n : ℕ) → a < n → (leb_ℤ (pos 0) (pos a) && ltb_ℤ (pos a) (pos n)) ≡ true
whole a n h = ground arith

map_same_id {ℓ} : {A : Type ℓ} (xs : List A) → map (λ x. x) xs ≡ xs
map_same_id [] = refl
map_same_id (x ∷ xs) = ap (◌∷◌ x) (map_same_id xs)

module _ (geometries : List ArrayGeometry) (spc n : ℕ) where
  abbrev mask : Row → Bool
  mask = in_range (valid_anchor_range (map (λ g. g.offset) geometries) n) spc

  selects_mask :
      (blocks : List (List Row))
      → All (All (λ r. anchor_of spc r < n)) blocks
      → map (select mask) blocks ≡ map (select (reads_inside geometries spc n)) blocks
  selects_mask blocks h = map-same _ _ blocks (
      All-imply blocks
        (λ b inside.
          select-same _ _ b
            (All-imply b (λ r l. in_range-reads_inside geometries spc n r l) inside))
        h)

  selects_all :
      (blocks : List (List Row))
      → All (All (λ r. anchor_of spc r < n)) blocks
      → (eqb_ℤ (valid_anchor_range (map (λ g. g.offset) geometries) n).0 (pos 0) ≡ true)
      → (eqb_ℤ (valid_anchor_range (map (λ g. g.offset) geometries) n).1 (pos n) ≡ true)
      → map (select mask) blocks ≡ blocks
  unfolding in_range
  selects_all blocks h lo hi =
      let ends = valid_anchor_range (map (λ g. g.offset) geometries) n in
      let e = same_ends ends.0 (pos 0) lo in
      let e' = same_ends ends.1 (pos n) hi in
      map-same (select mask) (λ b. b) blocks
        (All-imply blocks
          (λ b inside.
            select-all mask b
              (All-imply b (λ r l. rw (e, e') (whole (anchor_of spc r) n l)) inside))
          h)
      ∙ map_same_id blocks

  -- Given a `searchsorted` that counts the entries below a value in an increasing array: of a draw
  -- order whose blocks hold rows, all of them samples of the array, `_drop_edge_anchors` keeps just the
  -- rows whose read is in the array at every variable's offset, each in its block and in order, and the
  -- bounds are those of the blocks that have a row left.
  pub drop_edge_anchors-from_blocks :
      (f : List ℕ → ℕ → ℕ) (blocks : List (List Row))
      → IsSearchsorted f
      → All (λ b. 0 < length b) blocks
      → All (All (λ r. anchor_of spc r < n)) blocks
      → drop_edge_anchors f geometries (from_blocks blocks) spc n
        ≡ from_blocks (nonempty (map (select (reads_inside geometries spc n)) blocks))
  unfolding drop_edge_anchors
  drop_edge_anchors-from_blocks f blocks sorted full inside =
      let ends = valid_anchor_range (map (λ g. g.offset) geometries) n in
      let kept =
        keep-from_blocks f mask blocks sorted
        ∙ ap (λ bs. from_blocks (nonempty bs)) (selects_mask blocks inside) in
      elim (Bool-cases (eqb_ℤ ends.0 (pos 0))) [
        | inl lo ↦ elim (Bool-cases (eqb_ℤ ends.1 (pos n))) [
          | inl hi ↦
              rw (lo, hi)
                (ap from_blocks (
                  sym (nonempty-all blocks full)
                  ∙ ap nonempty
                      (sym (selects_all blocks inside lo hi) ∙ selects_mask blocks inside)))
          | inr hi ↦ rw (lo, hi) kept
        ]
        | inr lo ↦ rw lo kept
      ]
