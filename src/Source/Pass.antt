-- ===== src/Source/Pass.antt =====
-- source.py, `_iterate`: the blocks of a draw order, what they give back and the producer, together.
use Prim.Native.String.{String}
use insitubatch.Base.{
  ℕ, zero, suc, ◌+◌, ◌*◌, ◌-◌, ◌≤◌, ◌<◌, ◌≡◌, refl, sym, ap, subst, ◌∙◌, Bool, true, false, not,
  ◌&&◌, ◌||◌, List, [], ◌∷◌, map, flat_map, Option, length, drop, get_or, range_from, length-map,
  All, arith,
}
use insitubatch.Geometry.{ArrayGeometry}
use insitubatch.Shuffle.{Row, DrawOrder, n_blocks, block, cumulative, from_blocks}
use insitubatch.Shuffle.Keep.{from_blocks_lem}
use insitubatch.Pool.State.{Key}
use insitubatch.Source.{Block, key_in, block_of, blocks, zip_release, release, release_plan}
use insitubatch.Source.Anchors.{All-imply}
use insitubatch.Source.Producer.{Site, at_start, produce_from, produce, starts}
use insitubatch.Source.LastUse.{reads_any, last_flags}
use insitubatch.Source.Release.{release-last}
use insitubatch.Source.Served.{
  Served, or_fail-Served, ReleasedLast, InOrder, key_in-cons, key_in-first,
}
use insitubatch.Source.Frontiers.{Frontiers, gives_of, or_fail-Frontiers, produce_from-Frontiers}
use insitubatch.Base.Arith.{ceil_div}
use insitubatch.Source.Held.{Fresh-none, blocks_of, produce_from-Served}

all_in : (keys : List Key) → All (λ k. key_in k keys ≡ true) keys
all_in [] = tt
all_in (k ∷ keys) =
    (key_in-first k keys, All-imply keys (λ q h. key_in-cons q k keys h) (all_in keys))

not_given :
    (given : List Key) (bs : List Block) (rel : List (List Key))
    → ((k : Key) → reads_any k (map (λ b. b.read_keys) bs) ≡ true → key_in k given ≡ false)
    → All (λ later. All (λ k. key_in k given ≡ false) later.0.read_keys) (zip_release bs rel)
unfolding zip_release
not_given given [] rel h = tt
not_given given (b ∷ bs) [] h = tt
not_given given (b ∷ bs) (keys ∷ rel) h = (
  All-imply b.read_keys (λ k i. h k (or_left (key_in k b.read_keys) _ i)) (all_in b.read_keys),
  not_given given bs rel (λ k i. h k (or_right (key_in k b.read_keys) _ i)),
)
  where
    or_left : (a b : Bool) → a ≡ true → (a || b) ≡ true
    or_left a b h = ground arith

    or_right : (a b : Bool) → b ≡ true → (a || b) ≡ true
    or_right a b h = ground arith

zip_release-ReleasedLast :
    (bs : List Block) (rel : List (List Key))
    → ((k : Key) → map (key_in k) rel ≡ last_flags k (map (λ b. b.read_keys) bs))
    → ReleasedLast (zip_release bs rel)
unfolding zip_release
zip_release-ReleasedLast [] rel h = tt
zip_release-ReleasedLast (b ∷ bs) [] h = tt
zip_release-ReleasedLast (b ∷ bs) (keys ∷ rel) h = (
  not_given keys bs rel (λ k later.
      ap (λ flags. get_or flags 0 false) (h k) ∙ (rw later (and_false (key_in k b.read_keys)))),
  zip_release-ReleasedLast bs rel (λ k. ap (drop 1) (h k)),
)
  where
    and_false : (b : Bool) → (b && not true) ≡ false
    and_false b = ground arith

blocks_of-zip_release :
    (bs : List Block) (rel : List (List Key))
    → length rel ≡ length bs
    → blocks_of (zip_release bs rel) ≡ bs
unfolding zip_release
blocks_of-zip_release [] rel h = refl
blocks_of-zip_release (b ∷ bs) [] h = absurd (omega arith)
blocks_of-zip_release (b ∷ bs) (keys ∷ rel) h =
    ap (◌∷◌ b) (blocks_of-zip_release bs rel (omega arith))

length-last_flags :
    (k : Key) (block_keys : List (List Key)) → length (last_flags k block_keys) ≡ length block_keys
length-last_flags k [] = refl
length-last_flags k (keys ∷ rest) = ap suc (length-last_flags k rest)

gives_of-zip_release :
    (bs : List Block) (rel : List (List Key))
    → length rel ≡ length bs
    → gives_of (zip_release bs rel) ≡ rel
unfolding zip_release
gives_of-zip_release [] [] h = refl
gives_of-zip_release [] (keys ∷ rel) h = absurd (omega arith)
gives_of-zip_release (b ∷ bs) [] h = absurd (omega arith)
gives_of-zip_release (b ∷ bs) (keys ∷ rel) h =
    ap (◌∷◌ keys) (gives_of-zip_release bs rel (omega arith))

length-release :
    (reread_spill : Bool) (block_keys : List (List Key))
    → length (release reread_spill block_keys) ≡ length block_keys
unfolding release
length-release true block_keys = refl
length-release false block_keys =
    let k : Key = record { path = ""; chunk = 0 } in
    sym (length-map (key_in k) (release false block_keys))
    ∙ (ap length (release-last k block_keys) ∙ length-last_flags k block_keys)

-- The bounds of a draw order rise.
cumulative_from :
    (at j : ℕ) (bs : List (List Row))
    → j < length (cumulative at bs)
    → at ≤ get_or (cumulative at bs) j 0
unfolding cumulative
cumulative_from at zero [] h = omega arith
cumulative_from at (suc j) [] h = absurd (omega arith)
cumulative_from at zero (b ∷ bs) h = omega arith
cumulative_from at (suc j) (b ∷ bs) h =
    omega (arith, cumulative_from (at + length b) j bs (omega arith))

cumulative_rises :
    (at i j : ℕ) (bs : List (List Row))
    → i ≤ j
    → j < length (cumulative at bs)
    → get_or (cumulative at bs) i 0 ≤ get_or (cumulative at bs) j 0
unfolding cumulative
cumulative_rises at zero j [] l h = cumulative_from at j [] h
cumulative_rises at (suc i) zero [] l h = absurd (omega arith)
cumulative_rises at (suc i) (suc j) [] l h = absurd (omega arith)
cumulative_rises at zero j (b ∷ bs) l h = cumulative_from at j (b ∷ bs) h
cumulative_rises at (suc i) zero (b ∷ bs) l h = absurd (omega arith)
cumulative_rises at (suc i) (suc j) (b ∷ bs) l h =
    cumulative_rises (at + length b) i j bs (omega arith) (omega arith)

module _ (unique : List ℕ → List ℕ) (geometries : List ArrayGeometry) (spc : ℕ) where
  blocks_after :
      (order : DrawOrder) (i k n : ℕ)
      → i ≤ k
      → ((j : ℕ) → i ≤ j → j < k + n → get_or order.bounds i 0 ≤ get_or order.bounds j 0)
      → All
          (λ b. get_or order.bounds i 0 ≤ b.start)
          (map (block_of unique geometries order spc) (range_from k n))
  unfolding block_of block
  blocks_after order i k zero l h = tt
  blocks_after order i k (suc n) l h = (
    h k l (omega arith),
    blocks_after order i (suc k) n (omega arith) (λ j a b. h j a (omega arith)),
  )

  blocks-InOrder :
      (order : DrawOrder) (k n : ℕ)
      → ((i j : ℕ) → i ≤ j → j < k + n → get_or order.bounds i 0 ≤ get_or order.bounds j 0)
      → InOrder (map (block_of unique geometries order spc) (range_from k n))
  unfolding block_of block
  blocks-InOrder order k zero h = tt
  blocks-InOrder order k (suc n) h = (
    blocks_after order k (suc k) n (omega arith) (λ j a b. h k j a (omega arith)),
    blocks-InOrder order (suc k) n (λ i j a b. h i j a (omega arith)),
  )

  pass-InOrder :
      (block_rows : List (List Row))
      → InOrder (blocks unique geometries (from_blocks block_rows) spc)
  unfolding blocks n_blocks
  pass-InOrder block_rows =
      let order = from_blocks block_rows in
      let shape : order.bounds ≡ cumulative 0 block_rows =
        ap (λ o. o.bounds) (from_blocks_lem block_rows) in
      blocks-InOrder order 0 (length order.bounds - 1) (λ i j a b.
        rw shape
          (cumulative_rises 0 i j block_rows a (let b' = rw shape at b in omega (arith, b'))))

  module _ (outcome : Site → Option String) (stopped : ℕ → Bool) (bs : ℕ) where
    -- For any draw order made of blocks of rows, in a pass without `reread_spill`, whichever calls of the
    -- producer raise and whenever the consumer stops: when the producer gathers rows, it has waited for
    -- every chunk that the blocks of these rows read, of every variable, and has given none of them back.
    pub produce-Served :
        (block_rows : List (List Row))
        → let order = from_blocks block_rows in
          let pass = blocks unique geometries order spc in
          Served pass [] [] (produce outcome stopped bs order.rows (release_plan false pass))
    unfolding produce starts release_plan blocks n_blocks
    produce-Served block_rows =
        let order = from_blocks block_rows in
        let pass = blocks unique geometries order spc in
        let plan = release_plan false pass in
        let kss = map (λ (b : Block). b.read_keys) pass in
        let ordered = pass-InOrder block_rows in
        let last : ReleasedLast plan =
          zip_release-ReleasedLast pass (release false kss) (λ k. release-last k kss) in
        let same : blocks_of plan ≡ pass =
          blocks_of-zip_release pass (release false kss)
            (length-release false kss ∙ length-map (λ (b : Block). b.read_keys) pass) in
        or_fail-Served pass outcome [] [] (outcome at_start) _ (λ _.
          produce_from-Served pass outcome stopped bs order.rows 0 _ [] [] [] (blocks_of plan) []
            plan (sym same) (sym same) tt (subst InOrder (sym same) ordered) tt
            (Fresh-none (blocks_of plan)) last)

    -- For any draw order made of blocks of rows, in a pass with or without `reread_spill`, whichever calls
    -- of the producer raise and whenever the consumer stops: the producer gives the blocks back in their
    -- order, each with what `release` says; and when it gathers rows, its waits were for all chunks of the
    -- first blocks, in their order, and the rows are drawn only from blocks that are among these and are
    -- not given back.
    pub produce-Frontiers :
        (reread_spill : Bool) (block_rows : List (List Row))
        → let order = from_blocks block_rows in
          let pass = blocks unique geometries order spc in
          Frontiers pass [] 0
            (release reread_spill (map (λ (b : Block). b.read_keys) pass))
            (produce outcome stopped bs order.rows (release_plan reread_spill pass))
    unfolding produce starts release_plan flat_map
    produce-Frontiers reread_spill block_rows =
        let order = from_blocks block_rows in
        let pass = blocks unique geometries order spc in
        let kss = map (λ (b : Block). b.read_keys) pass in
        let rel = release reread_spill kss in
        let plan = release_plan reread_spill pass in
        let size : length rel ≡ length pass =
          length-release reread_spill kss ∙ length-map (λ (b : Block). b.read_keys) pass in
        let same : blocks_of plan ≡ pass = blocks_of-zip_release pass rel size in
        let m = ceil_div (length order.rows) bs in
        let loop =
          produce_from outcome stopped bs order.rows (map (λ i. i * bs) (range_from 0 m))
            (blocks_of plan) plan in
        or_fail-Frontiers pass [] 0 rel (outcome at_start) loop (λ _.
          subst (λ gs. Frontiers pass [] 0 gs loop) (gives_of-zip_release pass rel size)
            (produce_from-Frontiers pass outcome stopped bs order.rows 0 m [] 0 [] (blocks_of plan)
              [] plan (sym same) (sym same) refl refl
              (subst InOrder (sym same) (pass-InOrder block_rows)) tt))
