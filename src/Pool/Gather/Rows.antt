-- ===== src/Pool/Gather/Rows.antt =====
-- pool.py, `gather`: a batch's rows, against the samples that its anchors read.
use mathlib.Core.List.{mem-cons_self, mem-cons_of_mem, not-mem-nil, mem_of_ne_of_mem}
use insitubatch.Base.Int.{ℤ, pos, pos_part, ◌+ℤ◌, ◌≤ℤ◌, ◌<ℤ◌, floor_div, pos_of_nonneg}
use insitubatch.Base.{
  ℕ, zero, suc, ◌+◌, ◌*◌, ◌/◌, ◌%◌, ◌<◌, ◌≡◌, refl, sym, ap, ap₂, subst, ◌∙◌, ◌↔◌, ◌⊎◌, inl, inr,
  List, [], ◌∷◌, map, some, get_or, All, arith, length, length-map, Mem, ℕ_discrete,
}
use insitubatch.Geometry.{
  ArrayGeometry, IsValid, sample_chunk_size, inner_shape, inner_chunks, inner_grid,
}
use insitubatch.Geometry.Samples.{sample_chunk_size_pos}
use insitubatch.Geometry.Tiles.{Below, tile_of, tile_of-Below, inner_chunks_pos, same_inner_rank}
use insitubatch.Pool.Gather.{write_tiles, write_chunks, gather_variable, within_of}
use insitubatch.Pool.Gather.Content.{Holds, Right, write_tiles-Right}
use insitubatch.Pool.State.{Key, Slot, find}
use insitubatch.Shuffle.{Row}
use insitubatch.Source.{anchor_of, read_cid}
use insitubatch.Split.Anchors.{InArray}

All-of-Mem {κ} : (P : ℕ → Type κ) (xs : List ℕ) → ((x : ℕ) → Mem x xs → P x) → All P xs
All-of-Mem P [] h = tt
All-of-Mem P (x ∷ xs) h = (h x mem-cons_self, All-of-Mem P xs (λ y m. h y (mem-cons_of_mem x m)))

Mem-of-All {κ} : (P : ℕ → Type κ) (xs : List ℕ) (x : ℕ) → All P xs → Mem x xs → P x
Mem-of-All P [] x h m = absurd (not-mem-nil m)
Mem-of-All P (y ∷ xs) x h m = elim (ℕ_discrete x y) [
  | yes e ↦ subst P (sym e) h.0
  | no ne ↦ Mem-of-All P xs x h.1 (mem_of_ne_of_mem ne m)
]

Mem-get_or : (xs : List ℕ) (i : ℕ) → i < length xs → Mem (get_or xs i 0) xs
Mem-get_or [] i h = absurd (omega arith)
Mem-get_or (x ∷ xs) zero h = mem-cons_self
Mem-get_or (x ∷ xs) (suc i) h = mem-cons_of_mem x (Mem-get_or xs i (omega arith))

get_or-map :
    (f : Row → ℕ) (rows : List Row) (i : ℕ)
    → i < length rows
    → get_or (map f rows) i 0 ≡ f (get_or rows i (0, 0))
get_or-map f [] i h = absurd (omega arith)
get_or-map f (r ∷ rows) zero h = refl
get_or-map f (r ∷ rows) (suc i) h = get_or-map f rows i (omega arith)

All-get_or {κ} :
    (P : Row → Type κ) (rows : List Row) (i : ℕ)
    → i < length rows
    → All P rows
    → P (get_or rows i (0, 0))
All-get_or P [] i h k = absurd (omega arith)
All-get_or P (r ∷ rows) zero h k = k.0
All-get_or P (r ∷ rows) (suc i) h k = All-get_or P rows i (omega arith) k.1

All-map {κ} :
    (P : ℕ → Type κ) (f : Row → ℕ) (rows : List Row) → All (λ r. P (f r)) rows → All P (map f rows)
All-map P f [] h = tt
All-map P f (r ∷ rows) h = (h.0, All-map P f rows h.1)

-- The sample that a row reads.
abbrev pub sample_of : ArrayGeometry → ℕ → Row → ℕ
sample_of geom spc row = pos_part (pos (anchor_of spc row) +ℤ geom.offset)

chunk_and_within :
    (geom : ArrayGeometry) (spc n : ℕ) (row : Row)
    → IsValid geom
    → InArray n (anchor_of spc row) geom.offset
    → (read_cid geom spc row * sample_chunk_size geom + within_of geom spc row
        ≡ sample_of geom spc row)
      × (sample_of geom spc row < n)
unfolding read_cid within_of
chunk_and_within geom spc n row valid inside =
    let x = pos (anchor_of spc row) +ℤ geom.offset in
    let e : x ≡ pos (pos_part x) = pos_of_nonneg x inside.0 in
    let size = sample_chunk_size_pos geom valid in
    let cut = div_mod (pos_part x) (sample_chunk_size geom) size in
    (subst (Cut x) (sym e) cut, nonneg_lt x n inside.0 inside.1)
  where
    Cut : ℤ → ℤ → Type 0
    Cut x y =
        pos_part (floor_div y (sample_chunk_size geom)) * sample_chunk_size geom
          + pos_part x % sample_chunk_size geom
        ≡ pos_part x

    div_mod : (s c : ℕ) → 0 < c → (s / c) * c + s % c ≡ s
    div_mod s c h = grind arith

    nonneg_lt : (x : ℤ) (n : ℕ) → pos 0 ≤ℤ x → x <ℤ pos n → pos_part x < n
    nonneg_lt x n h l = ground arith

module _ {V : Type 0} (content : ℕ → List ℕ → V) (geom tile_geom : ArrayGeometry) (n : ℕ) where
  module _ (slots : List (Key × Slot (List ℕ → V))) where
    -- The chunk is resident, with all its tiles.
    abbrev pub Resident : ℕ → Type 0
    Resident cid =
        (slot : Slot (List ℕ → V)) × (find (record { path = geom.path; chunk = cid }) slots
          ≡ some slot)
        × Holds content tile_geom (sample_chunk_size geom) n cid slot

    module _ (valid : IsValid tile_geom) (cids withins : List ℕ) (i : ℕ) (p : List ℕ)
        (row : i < length cids)
        (inside : get_or cids i 0 * sample_chunk_size geom + get_or withins i 0 < n)
        (below : Below p (inner_shape tile_geom)) (unique : List ℕ → List ℕ) where
      abbrev RightRow : (ℕ → List ℕ → V) → Type 0
      RightRow = Right content tile_geom (sample_chunk_size geom) n valid cids withins i p

      write_chunks-Right :
          (list : List ℕ) (out : ℕ → List ℕ → V)
          → All Resident list
          → RightRow out ⊎ Mem (get_or cids i 0) list
          → (out' : ℕ → List ℕ → V) × (write_chunks slots unique geom.path tile_geom cids withins
                list out
              ≡ some out')
            × RightRow out'
      unfolding write_chunks inner_grid
      write_chunks-Right [] out there (inl right) = (out, refl, right)
      write_chunks-Right [] out there (inr m) = absurd (not-mem-nil m)
      write_chunks-Right (cid ∷ list) out there h =
          let (slot, found, holds) = there.0 in
          let out' = write_tiles tile_geom cid cids withins slot.tiles out in
          let step =
            write_tiles-Right content tile_geom (sample_chunk_size geom) n valid cids withins i p
              cid out slot.tiles holds.0 row inside below in
          let covered = holds.1 (tile_of p (inner_chunks tile_geom)) (
            tile_of-Below p (inner_chunks tile_geom) (inner_shape tile_geom)
              (inner_chunks_pos tile_geom valid) (same_inner_rank tile_geom valid) below) in
          let rest = write_chunks-Right list out' there.1 in
          rw (found, write_chunks)
            (elim h [
              | inl right ↦ rest (inl (step (inl right)))
              | inr m ↦ elim (ℕ_discrete (get_or cids i 0) cid) [
                | yes here ↦ rest (inl (step (inr (sym here, covered))))
                | no other ↦ rest (inr (mem_of_ne_of_mem other m))
              ]
            ])

    -- Given a `unique` that keeps the chunks that occur: on valid arrays, where each row's sample is in
    -- the array and its chunk is resident with all its tiles, `gather` returns an array for the variable,
    -- and row i of it is, at every position, the array's content at the sample that row i of the draw
    -- order reads, its anchor plus the variable's offset, whatever the buffer held before.
    pub gather_variable-content :
        (unique : List ℕ → List ℕ) (spc : ℕ) (rows : List Row) (blank : ℕ → List ℕ → V) (i : ℕ)
        (p : List ℕ)
        → IsValid geom
        → IsValid tile_geom
        → ((xs : List ℕ) (c : ℕ) → Mem c (unique xs) ↔ Mem c xs)
        → All (λ r. InArray n (anchor_of spc r) geom.offset) rows
        → All (λ r. Resident (read_cid geom spc r)) rows
        → i < length rows
        → Below p (inner_shape tile_geom)
        → (out : ℕ → List ℕ → V) × (gather_variable slots unique geom tile_geom spc rows blank
            ≡ some out)
          × (out i p ≡ content (sample_of geom spc (get_or rows i (0, 0))) p)
    unfolding gather_variable
    gather_variable-content unique spc rows blank i p valid tile_valid same_chunks inside resident
          row below =
        let cids = map (read_cid geom spc) rows in
        let withins = map (within_of geom spc) rows in
        let r = get_or rows i (0, 0) in
        let (cut, lt) =
          chunk_and_within geom spc n r valid
            (All-get_or (λ r. InArray n (anchor_of spc r) geom.offset) rows i row inside) in
        let cid_i = get_or-map (read_cid geom spc) rows i row in
        let within_i = get_or-map (within_of geom spc) rows i row in
        let sample : get_or cids i 0 * sample_chunk_size geom + get_or withins i 0
            ≡ sample_of geom spc r =
          ap₂ (λ (c w : ℕ). c * sample_chunk_size geom + w) cid_i within_i ∙ cut in
        let many : i < length cids = omega (arith, length-map (read_cid geom spc) rows) in
        let there : All Resident (unique cids) = All-of-Mem Resident (unique cids) (λ c m.
          Mem-of-All Resident cids c (All-map Resident (read_cid geom spc) rows resident)
            ((same_chunks cids c).0 m)) in
        let (out, found, right) =
          write_chunks-Right tile_valid cids withins i p many (omega arith) below unique
            (unique cids) blank there
            (inr ((same_chunks cids (get_or cids i 0)).1 (Mem-get_or cids i many))) in
        (out, found, right ∙ ap (λ s. content s p) sample)
