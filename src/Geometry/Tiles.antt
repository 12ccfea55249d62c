-- ===== src/Geometry/Tiles.antt =====
-- types.py, `tile_placement` and `chunk_bytes`: where a stored tile lands, and what a chunk occupies.
use native.Mathlib.Nat.{mul-le-mul}
use insitubatch.Base.{
  ℕ, zero, suc, ◌+◌, ◌*◌, ◌/◌, ◌^◌, ◌≤◌, ◌<◌, ◌≡◌, refl, sym, ap, ap₂, ◌∙◌, ◌↔◌, List, [], ◌∷◌,
  ◌++◌, map, arith, length, take, drop, product, All,
}
use insitubatch.Base.Int.{pos, scale, int64_fits, scale-pos}
use insitubatch.Base.Arith.{
  ceil_div, lt-ceil_div, ceil_div_cover, div_unique, div-mul-le, lt-suc-div-mul,
}
use insitubatch.Geometry.{
  ArrayGeometry, IsValid, Range, len, at_origin, sample_chunk_size, samples_in_chunk, inner_shape,
  inner_chunks, inner_grid, grid_of, n_inner_chunks, slot_shape, tile_shape, chunk_bytes,
  out_slices, tile_placement,
}

-- The position lies in the rectangle.
abbrev pub Inside : List ℕ → List Range → Type 0
Inside [] [] = Unit
Inside (p ∷ ps) (r ∷ rs) = (r.start ≤ p) × (p < r.stop) × Inside ps rs
Inside _ _ = ⊥

-- The coordinate is below the extents, axis by axis.
abbrev pub Below : List ℕ → List ℕ → Type 0
Below [] [] = Unit
Below (i ∷ is) (n ∷ ns) = (i < n) × Below is ns
Below _ _ = ⊥

-- The coordinate of the tile that holds a position.
abbrev pub tile_of : List ℕ → List ℕ → List ℕ
tile_of (p ∷ ps) (c ∷ cs) = p / c ∷ tile_of ps cs
tile_of _ _ = []

take-All :
    (n : ℕ) (xs : List ℕ) → All (λ c. 0 < c) xs → All (λ c. 0 < c) (take n xs ++ drop (suc n) xs)
take-All zero [] h = tt
take-All zero (x ∷ xs) h = h.1
take-All (suc n) [] h = tt
take-All (suc n) (x ∷ xs) h = (h.0, take-All n xs h.1)

length-cut :
    (n : ℕ) (xs ys : List ℕ)
    → length xs ≡ length ys
    → length (take n xs ++ drop (suc n) xs) ≡ length (take n ys ++ drop (suc n) ys)
length-cut zero [] [] h = refl
length-cut zero (x ∷ xs) (y ∷ ys) h = omega arith
length-cut (suc n) [] [] h = refl
length-cut (suc n) (x ∷ xs) (y ∷ ys) h = ap suc (length-cut n xs ys (omega arith))
length-cut _ [] (y ∷ ys) h = absurd (omega arith)
length-cut _ (x ∷ xs) [] h = absurd (omega arith)

pub inner_chunks_pos : (g : ArrayGeometry) → IsValid g → All (λ c. 0 < c) (inner_chunks g)
unfolding inner_chunks
inner_chunks_pos g v =
    let e : g.sample_axis + 1 ≡ suc g.sample_axis = omega arith in
    rw e (take-All g.sample_axis g.chunks v.positive)

pub same_inner_rank :
    (g : ArrayGeometry) → IsValid g → length (inner_chunks g) ≡ length (inner_shape g)
unfolding inner_chunks inner_shape
same_inner_rank g v =
    let e : g.sample_axis + 1 ≡ suc g.sample_axis = omega arith in
    rw e (length-cut g.sample_axis g.chunks g.shape v.same_rank)

pub slices-Inside :
    (ps is cs ss : List ℕ)
    → All (λ c. 0 < c) cs
    → length cs ≡ length ss
    → Below ps ss
    → Below is (grid_of ss cs)
    → Inside ps (out_slices is cs ss) ↔ (is ≡ tile_of ps cs)
unfolding out_slices grid_of
slices-Inside [] [] [] [] hc e hp hi = (λ _. refl, λ _. tt)
slices-Inside (p ∷ ps) (i ∷ is) (c ∷ cs) (s ∷ ss) hc e hp hi =
    let ih = slices-Inside ps is cs ss hc.1 (omega arith) hp.1 hi.1 in
    (
      λ h. ap₂ ◌∷◌ (sym (div_unique p c i h.0 (grind arith))) (ih.0 h.2),
      λ h.
          let e₁ : i ≡ p / c = cc in
          let e₂ : is ≡ tile_of ps cs = cc in
          let e₃ : i * c ≡ (p / c) * c = ap (λ (t : ℕ). t * c) e₁ in
          (omega (arith, div-mul-le p c, e₃), omega (arith, lt-suc-div-mul p c hc.0, e₃), ih.1 e₂),
    )
slices-Inside _ _ _ _ hc e hp hi = ground arith

pub tile_of-Below :
    (ps cs ss : List ℕ)
    → All (λ c. 0 < c) cs
    → length cs ≡ length ss
    → Below ps ss
    → Below (tile_of ps cs) (grid_of ss cs)
unfolding grid_of
tile_of-Below [] [] [] hc e hp = tt
tile_of-Below (p ∷ ps) (c ∷ cs) (s ∷ ss) hc e hp =
    (lt-ceil_div s c p hc.0 hp.0, tile_of-Below ps cs ss hc.1 (omega arith) hp.1)
tile_of-Below _ _ _ hc e hp = ground arith

-- On a valid array the tiles of an outer chunk split it: a position of the chunk lies in the
-- rectangle where a tile of the grid lands exactly when the tile is the one at the position divided
-- by the chunk shape, and that one is in the grid.
pub tile_placement_iff :
    (g : ArrayGeometry) (c k : ℕ) (position coord : List ℕ)
    → IsValid g
    → k < len (samples_in_chunk g c)
    → Below position (inner_shape g)
    → Below coord (inner_grid g)
    → (Inside (k ∷ position) (tile_placement g c coord).out_selection
        ↔ (coord ≡ tile_of position (inner_chunks g)))
      × Below (tile_of position (inner_chunks g)) (inner_grid g)
unfolding tile_placement inner_grid
tile_placement_iff g c k position coord v hk hp hc =
    let cs = inner_chunks g in
    let ss = inner_shape g in
    let positive = inner_chunks_pos g v in
    let rank = same_inner_rank g v in
    let inside = slices-Inside position coord cs ss positive rank hp hc in
    (
      (λ h. inside.0 h.2, λ h. (omega arith, hk, inside.1 h)),
      tile_of-Below position cs ss positive rank hp,
    )

-- Rectangles of the same size, axis by axis, that fit into a shape.
abbrev pub SameSize : List Range → List Range → List ℕ → Type 0
SameSize [] [] [] = Unit
SameSize (a ∷ xs) (b ∷ ys) (n ∷ ns) =
    (a.start ≡ 0) × (a.stop ≡ len b) × (a.stop ≤ n) × SameSize xs ys ns
SameSize _ _ _ = ⊥

slices-SameSize :
    (is cs ss : List ℕ)
    → length cs ≡ length ss
    → length is ≡ length ss
    → SameSize (map at_origin (out_slices is cs ss)) (out_slices is cs ss) cs
unfolding out_slices
slices-SameSize [] [] [] e d = tt
slices-SameSize (i ∷ is) (c ∷ cs) (s ∷ ss) e d =
    (refl, omega arith, omega arith, slices-SameSize is cs ss (omega arith) (omega arith))
slices-SameSize _ _ _ e d = ground arith

-- The part of a decoded tile that is copied starts at its origin, is as large as the place that it
-- is copied to, and lies within the stored tile.
pub tile_placement-SameSize :
    (g : ArrayGeometry) (c : ℕ) (coord : List ℕ)
    → IsValid g
    → length coord ≡ length (inner_shape g)
    → SameSize
        (tile_placement g c coord).chunk_selection
        (tile_placement g c coord).out_selection
        (tile_shape g)
unfolding tile_placement tile_shape samples_in_chunk
tile_placement-SameSize g c coord v e = (
  refl,
  refl,
  omega arith,
  slices-SameSize coord (inner_chunks g) (inner_shape g) (same_inner_rank g v) e,
)

cover-product :
    (ss cs : List ℕ)
    → All (λ c. 0 < c) cs
    → length cs ≡ length ss
    → product ss ≤ product (grid_of ss cs) * product cs
unfolding grid_of
cover-product [] [] h e = omega arith
cover-product (s ∷ ss) (c ∷ cs) h e =
    let ih = cover-product ss cs h.1 (omega arith) in
    let cover = ceil_div_cover s c h.0 in omega (arith, mul-le-mul cover ih)
cover-product _ _ h e = ground arith

-- The lengths that an axis is stored in: rounded up to whole chunks.
abbrev pub stored : List ℕ → List ℕ → List ℕ
stored (s ∷ ss) (c ∷ cs) = ceil_div s c * c ∷ stored ss cs
stored _ _ = []

stored-product :
    (ss cs : List ℕ)
    → length cs ≡ length ss
    → product (grid_of ss cs) * product cs ≡ product (stored ss cs)
unfolding grid_of
stored-product [] [] e = refl
stored-product (s ∷ ss) (c ∷ cs) e =
    let ih = stored-product ss cs (omega arith) in
    let n = ceil_div s c in
    let p = product (grid_of ss cs) in
    let q = product cs in
    let turn : n * p * (c * q) ≡ n * c * (p * q) = grind arith in
    turn ∙ ap (λ (r : ℕ). n * c * r) ih
stored-product _ _ e = ground arith

chunk_bytes_fits :
    (g : ArrayGeometry)
    → product (tile_shape g) < 2 ^ 63
    → chunk_bytes g ≡ pos (g.dtype.itemsize * (n_inner_chunks g * product (tile_shape g)))
unfolding chunk_bytes
chunk_bytes_fits g h =
    let t = product (tile_shape g) in
    ap (λ a. scale g.dtype.itemsize (scale (n_inner_chunks g) a)) (int64_fits t h)
    ∙ (ap (scale g.dtype.itemsize) (scale-pos (n_inner_chunks g) t)
        ∙ scale-pos g.dtype.itemsize (n_inner_chunks g * t))

-- When the elements of a tile are fewer than 2^63, a resident chunk is charged exactly the bytes of its
-- stored extent: the whole sample chunk, and every other axis rounded up to whole chunks. On a valid
-- array that is at least the bytes of the samples in the chunk.
pub chunk_bytes-stored :
    (g : ArrayGeometry) (c : ℕ)
    → IsValid g
    → product (tile_shape g) < 2 ^ 63
    → let extent = sample_chunk_size g ∷ stored (inner_shape g) (inner_chunks g) in
      (chunk_bytes g ≡ pos (g.dtype.itemsize * product extent))
      × (product (slot_shape g c) ≤ product extent)
unfolding slot_shape tile_shape n_inner_chunks inner_grid samples_in_chunk
chunk_bytes-stored g c v h =
    let rank = same_inner_rank g v in
    let p = product (grid_of (inner_shape g) (inner_chunks g)) in
    let q = product (inner_chunks g) in
    let spc = sample_chunk_size g in
    let whole = stored-product (inner_shape g) (inner_chunks g) rank in
    let turn : p * (spc * q) ≡ spc * (p * q) = grind arith in
    let inner = cover-product (inner_shape g) (inner_chunks g) (inner_chunks_pos g v) rank in
    let rows : len (samples_in_chunk g c) ≤ spc = omega arith in
    (
      chunk_bytes_fits g h
          ∙ ap (λ n. pos (g.dtype.itemsize * n)) (turn ∙ ap (λ (r : ℕ). spc * r) whole),
      rw (← whole) (mul-le-mul rows inner),
    )
