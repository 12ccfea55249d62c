-- ===== src/Plan/Dedup.antt =====
-- `build_stored_chunk_reads` against a plain account of it: block by block, the first occurrence of
-- each read that the block's chunks want.
use mathlib.Core.List.{append-nil}
use insitubatch.Base.Perms.{append_assoc}
use insitubatch.Base.{
  ℕ, suc, ◌+◌, ◌≤◌, ◌<◌, ◌≡◌, ◌≢◌, refl, sym, ap, ap₂, ◌∙◌, inl, inr, Bool, true, false, ◌&&◌, not,
  List, [], ◌∷◌, ◌++◌, map, flat_map, flatten, if_pos, if◌then◌else◌, length, length-append, All,
  Bool-cases, ◌==◌, arith,
}
use insitubatch.Geometry.{ArrayGeometry}
use insitubatch.Pool.State.{is_in}
use insitubatch.Plan.{
  StoredChunkRead, StoredChunkRead-discrete, wanted, seen_in, Progress, add_read, add_reads,
  boundaries, open_block, plan_from, build_stored_chunk_reads,
}

-- The reads of a list that are not seen before, in order, each at its first occurrence.
unfoldable pub fresh : List StoredChunkRead → List StoredChunkRead → List StoredChunkRead
fresh seen [] = []
fresh seen (r ∷ rest) = if seen_in r seen then fresh seen rest else r ∷ fresh (r ∷ seen) rest

abbrev pub unique : List StoredChunkRead → List StoredChunkRead
unique rs = fresh [] rs

add_reads-reads :
    (rs : List StoredChunkRead) (p : Progress) → (add_reads p rs).reads ≡ p.reads ++ fresh p.seen rs
unfolding add_reads add_read fresh
add_reads-reads [] p = sym (append-nil p.reads)
add_reads-reads (r ∷ rs) p = elim (Bool-cases (seen_in r p.seen)) [
  | inl old ↦ simp old (add_reads-reads rs p)
  | inr new ↦ simp new (
      add_reads-reads rs (record p { reads = p.reads ++ r ∷ []; seen = r ∷ p.seen })
      ∙ append_assoc p.reads (r ∷ []) (fresh (r ∷ p.seen) rs))
]

add_reads-starts :
    (rs : List StoredChunkRead) (p : Progress) → (add_reads p rs).block_starts ≡ p.block_starts
unfolding add_reads add_read
add_reads-starts [] p = refl
add_reads-starts (r ∷ rs) p = elim (Bool-cases (seen_in r p.seen)) [
  | inl old ↦ simp old (add_reads-starts rs p)
  | inr new ↦
      simp new (add_reads-starts rs (record p { reads = p.reads ++ r ∷ []; seen = r ∷ p.seen }))
]

add_reads-append :
    (xs ys : List StoredChunkRead) (p : Progress)
    → add_reads p (xs ++ ys) ≡ add_reads (add_reads p xs) ys
unfolding add_reads
add_reads-append [] ys p = refl
add_reads-append (x ∷ xs) ys p = add_reads-append xs ys (add_read p x)

is_in-boundaries : (j at : ℕ) (groups : List ℕ) → j < at → is_in j (boundaries at groups) ≡ false
unfolding is_in boundaries
is_in-boundaries j at [] h = refl
is_in-boundaries j at (n ∷ groups) h = ground (arith, is_in-boundaries j (at + n) groups)

is_in-first : (i : ℕ) (starts : List ℕ) → is_in i (i ∷ starts) ≡ true
unfolding is_in
is_in-first i starts = ground arith

module _ (geometries : List ArrayGeometry) (ref_spc : ℕ) where
  abbrev wants : List ℕ → List StoredChunkRead
  wants ids = flat_map (wanted geometries ref_spc) ids

  -- A boundary that is behind is not met again.
  plan_from-behind :
      (b : ℕ) (starts : List ℕ) (ids : List ℕ) (i : ℕ) (p : Progress)
      → b < i
      → plan_from geometries ref_spc (b ∷ starts) i ids p
        ≡ plan_from geometries ref_spc starts i ids p
  unfolding plan_from is_in
  plan_from-behind b starts [] i p h = refl
  plan_from-behind b starts (cid ∷ ids) i p h =
      let e : (i == b) ≡ false = ground arith in
      rw e (
        plan_from-behind b starts ids (suc i)
          (add_reads (if is_in i starts then open_block p else p) (wanted geometries ref_spc cid))
          (omega arith))

  -- One round of the loop, inside a block and at its first chunk
  plan_from-goes_on :
      (starts : List ℕ) (i cid : ℕ) (rest : List ℕ) (p : Progress)
      → is_in i starts ≡ false
      → plan_from geometries ref_spc starts i (cid ∷ rest) p
        ≡ plan_from geometries ref_spc starts
            (suc i)
            rest
            (add_reads p (wanted geometries ref_spc cid))
  unfolding plan_from
  plan_from-goes_on starts i cid rest p e = simp e refl

  plan_from-opens :
      (starts : List ℕ) (i cid : ℕ) (rest : List ℕ) (p : Progress)
      → is_in i starts ≡ true
      → plan_from geometries ref_spc starts i (cid ∷ rest) p
        ≡ plan_from geometries ref_spc starts
            (suc i)
            rest
            (add_reads (open_block p) (wanted geometries ref_spc cid))
  unfolding plan_from
  plan_from-opens starts i cid rest p e = simp e refl

  -- A run of chunks with no boundary among them
  plan_from-run :
      (xs rest groups : List ℕ) (i at : ℕ) (p : Progress)
      → i + length xs ≤ at
      → plan_from geometries ref_spc (boundaries at groups) i (xs ++ rest) p
        ≡ plan_from geometries ref_spc
            (boundaries at groups)
            (i + length xs)
            rest
            (add_reads p (wants xs))
  unfolding plan_from flat_map add_reads
  plan_from-run [] rest groups i at p h =
      ap (λ n. plan_from geometries ref_spc (boundaries at groups) n rest p) (omega arith)
  plan_from-run (x ∷ xs) rest groups i at p h =
      let e = is_in-boundaries i at groups (omega arith) in
      let w = wanted geometries ref_spc x in
      let n : suc i + length xs ≡ i + suc (length xs) = omega arith in
      plan_from-goes_on (boundaries at groups) i x (xs ++ rest) p e
      ∙ plan_from-run xs rest groups (suc i) at (add_reads p w) (omega arith)
      ∙ ap₂ (λ k q. plan_from geometries ref_spc (boundaries at groups) k rest q) n
          (sym (add_reads-append w (wants xs) p))

  -- The reads of the blocks, and where each block's reads begin
  abbrev pub block_reads : List ℕ → List StoredChunkRead
  block_reads block = unique (wants block)

  abbrev pub offsets : ℕ → List (List ℕ) → List ℕ
  offsets at [] = []
  offsets at (block ∷ blocks) = at ∷ offsets (at + length (block_reads block)) blocks

  open_block-fresh :
      (p : Progress) (rs : List StoredChunkRead)
      → ((add_reads (open_block p) rs).reads ≡ p.reads ++ unique rs)
        × ((add_reads (open_block p) rs).block_starts ≡ p.block_starts ++ length p.reads ∷ [])
  unfolding open_block
  open_block-fresh p rs = (add_reads-reads rs (open_block p), add_reads-starts rs (open_block p))

  -- One block: its boundary is met at its first chunk, and at no other.
  plan_from-block :
      (x : ℕ) (xs rest groups : List ℕ) (i : ℕ) (p : Progress)
      → plan_from geometries ref_spc
          (boundaries i (length (x ∷ xs) ∷ groups))
          i
          ((x ∷ xs) ++ rest)
          p
        ≡ plan_from geometries ref_spc
            (boundaries (i + length (x ∷ xs)) groups)
            (i + length (x ∷ xs))
            rest
            (add_reads (open_block p) (wants (x ∷ xs)))
  unfolding plan_from is_in boundaries flat_map
  plan_from-block x xs rest groups i p =
      let at = i + length (x ∷ xs) in
      let w = wanted geometries ref_spc x in
      let n : suc i + length xs ≡ at = omega arith in
      plan_from-opens (i ∷ boundaries at groups) i x (xs ++ rest) p
        (is_in-first i (boundaries at groups))
      ∙ plan_from-behind i (boundaries at groups) (xs ++ rest) (suc i) (add_reads (open_block p) w)
          (omega arith)
      ∙ plan_from-run xs rest groups (suc i) at (add_reads (open_block p) w) (omega arith)
      ∙ ap₂ (λ k q. plan_from geometries ref_spc (boundaries at groups) k rest q) n
          (sym (add_reads-append w (wants xs) (open_block p)))

  abbrev pub NonEmpty : List (List ℕ) → Type 0
  NonEmpty blocks = All (λ b. b ≢ []) blocks

  plan_from-blocks :
      (blocks : List (List ℕ)) (i : ℕ) (p : Progress)
      → NonEmpty blocks
      → let q =
          plan_from geometries ref_spc (boundaries i (map length blocks)) i (flatten blocks) p in
        (q.reads ≡ p.reads ++ flat_map block_reads blocks)
        × (q.block_starts ≡ p.block_starts ++ offsets (length p.reads) blocks)
  unfolding plan_from flat_map flatten boundaries
  plan_from-blocks [] i p ne = (sym (append-nil p.reads), sym (append-nil p.block_starts))
  plan_from-blocks ([] ∷ blocks) i p ne = absurd (ne.0 refl)
  plan_from-blocks ((x ∷ xs) ∷ blocks) i p ne =
      let q = add_reads (open_block p) (wants (x ∷ xs)) in
      let (reads, starts) = open_block-fresh p (wants (x ∷ xs)) in
      let ih = plan_from-blocks blocks (i + length (x ∷ xs)) q ne.1 in
      let here = plan_from-block x xs (flatten blocks) (map length blocks) i p in
      let size : length q.reads ≡ length p.reads + length (block_reads (x ∷ xs)) =
        ap length reads ∙ length-append p.reads (block_reads (x ∷ xs)) in
      (
        ap (λ z. z.reads) here
            ∙ ih.0
            ∙ ap (λ l. l ++ flat_map block_reads blocks) reads
            ∙ append_assoc p.reads (block_reads (x ∷ xs)) (flat_map block_reads blocks),
        ap (λ z. z.block_starts) here
            ∙ ih.1
            ∙ ap₂ (λ l n. l ++ offsets n blocks) starts size
            ∙ append_assoc p.block_starts (length p.reads ∷ [])
                (offsets (length p.reads + length (block_reads (x ∷ xs))) blocks),
      )

  -- Given the shuffle-blocks of the draw order as groups, none of them empty, the plan is block by
  -- block the first occurrence of each read that the block's chunks want, so that a chunk that two
  -- blocks read is planned once in each; and `block_starts` says where each block's reads begin.
  pub build_stored_chunk_reads-blocks :
      (blocks : List (List ℕ))
      → NonEmpty blocks
      → build_stored_chunk_reads geometries ref_spc (flatten blocks) (map length blocks)
        ≡ record { reads = flat_map block_reads blocks; block_starts = offsets 0 blocks }
  unfolding build_stored_chunk_reads
  build_stored_chunk_reads-blocks blocks ne =
      let both =
        plan_from-blocks blocks 0 (record { reads = []; block_starts = []; seen = [] }) ne in
      cc (both.0, both.1)

-- A read stands in the list once at most.
abbrev pub NoRepeats : List StoredChunkRead → Type 0
NoRepeats [] = Unit
NoRepeats (r ∷ rs) = (seen_in r rs ≡ false) × NoRepeats rs

fresh-seen_in :
    (q : StoredChunkRead) (seen rs : List StoredChunkRead)
    → seen_in q (fresh seen rs) ≡ seen_in q rs && not (seen_in q seen)
unfolding fresh seen_in
fresh-seen_in q seen [] = refl
fresh-seen_in q seen (r ∷ rs) = elim (StoredChunkRead-discrete r q) [
  | yes same ↦ elim (Bool-cases (seen_in r seen)) [
    | inl old ↦ ground (arith, fresh-seen_in q seen rs)
    | inr new ↦ ground (arith, fresh-seen_in q (r ∷ seen) rs)
  ]
  | no other ↦ elim (Bool-cases (seen_in r seen)) [
    | inl old ↦ ground (arith, fresh-seen_in q seen rs)
    | inr new ↦ ground (arith, fresh-seen_in q (r ∷ seen) rs)
  ]
]

seen_in-first : (r : StoredChunkRead) (seen : List StoredChunkRead) → seen_in r (r ∷ seen) ≡ true
unfolding seen_in
seen_in-first r seen = if_pos (StoredChunkRead-discrete r r) refl true (seen_in r seen)

fresh-NoRepeats : (seen rs : List StoredChunkRead) → NoRepeats (fresh seen rs)
unfolding fresh
fresh-NoRepeats seen [] = tt
fresh-NoRepeats seen (r ∷ rs) = elim (Bool-cases (seen_in r seen)) [
  | inl old ↦ simp old (fresh-NoRepeats seen rs)
  | inr new ↦ simp new (
    fresh-seen_in r (r ∷ seen) rs ∙ hidden (seen_in r rs) (seen_in-first r seen),
    fresh-NoRepeats (r ∷ seen) rs,
  )
]
  where
    hidden : (b : Bool) {c : Bool} → c ≡ true → (b && not c) ≡ false
    hidden b e = ground arith

module _ (geometries : List ArrayGeometry) (ref_spc : ℕ) where
  plan_from-no_groups :
      (ids : List ℕ) (p : Progress)
      → (i : ℕ)
      → plan_from geometries ref_spc [] i ids p
        ≡ add_reads p (flat_map (wanted geometries ref_spc) ids)
  unfolding plan_from flat_map is_in add_reads
  plan_from-no_groups [] p i = refl
  plan_from-no_groups (cid ∷ ids) p i =
      let w = wanted geometries ref_spc cid in
      plan_from-no_groups ids (add_reads p w) (suc i)
      ∙ sym (add_reads-append w (flat_map (wanted geometries ref_spc) ids) p)

  -- Without groups, the plan has no read twice, and it has a read just when some chunk of the draw
  -- order wants it.
  pub build_stored_chunk_reads-once :
      (chunk_ids : List ℕ)
      → NoRepeats (build_stored_chunk_reads geometries ref_spc chunk_ids []).reads
        × ((read : StoredChunkRead)
            → seen_in read (build_stored_chunk_reads geometries ref_spc chunk_ids []).reads
              ≡ seen_in read (flat_map (wanted geometries ref_spc) chunk_ids))
  unfolding build_stored_chunk_reads boundaries seen_in
  build_stored_chunk_reads-once ids =
      let p : Progress = record { reads = []; block_starts = []; seen = [] } in
      let rs = flat_map (wanted geometries ref_spc) ids in
      let e : (plan_from geometries ref_spc [] 0 ids p).reads ≡ unique rs =
        ap (λ q. q.reads) (plan_from-no_groups ids p 0) ∙ add_reads-reads rs p in
      rw e (fresh-NoRepeats [] rs, λ read. fresh-seen_in read [] rs ∙ true_right (seen_in read rs))
    where
      true_right : (b : Bool) → (b && not false) ≡ b
      true_right b = ground arith
