-- ===== src/Split/Partition.antt =====
-- The chunks and the samples of the three splits together, and the chunks that a window selects.
use mathlib.Core.List.Perm as Perm
use mathlib.Core.Option.{some-injective}
use insitubatch.Base.Int.{ℤ, pos, negsuc, ◌+ℤ◌, ◌≤ℤ◌}
use insitubatch.Base.Arith.{ceil_div, ceil_div_start}
use insitubatch.Base.Perms.{flat_map-append, flat_map-Perm, mem-range_from}
use insitubatch.Base.{
  ℕ, zero, suc, ◌+◌, ◌*◌, ◌/◌, ◌-◌, ◌<◌, ◌≤◌, ◌≡◌, ◌↔◌, refl, sym, ap, subst, ◌∙◌, inl, inr, Bool,
  true, false, ◌&&◌, List, [], ◌∷◌, ◌++◌, Option, none, some, Mem, Perm, flat_map, take, drop,
  take-append-drop, range_from, leb, ltb, length, Bool-cases, arith,
}
use insitubatch.Geometry.{
  ArrayGeometry, IsValid, n_samples, n_chunks, sample_chunk_size, samples_in_chunk, to_list,
}
use insitubatch.Geometry.Samples.{samples-of-chunks, sample_chunk_size_pos}
use insitubatch.Split.{
  train, val, test, SplitManifest, sample_indices, insert, sorted, selected, Numerics, divide,
  split_by_chunk, position, slice_of,
}

insert-Perm : (x : ℕ) (ys : List ℕ) → Perm (insert x ys) (x ∷ ys)
unfolding insert
insert-Perm x [] = Perm.refl (x ∷ [])
insert-Perm x (y ∷ ys) = elim (Bool-cases (leb x y)) [
  | inl le ↦ simp le (Perm.refl (x ∷ y ∷ ys))
  | inr gt ↦ simp gt (Perm.trans (Perm.cons y (insert-Perm x ys)) (Perm.swap x y ys))
]

sorted-Perm : (xs : List ℕ) → Perm (sorted xs) xs
unfolding sorted
sorted-Perm [] = Perm.nil
sorted-Perm (x ∷ xs) = Perm.trans (insert-Perm x (sorted xs)) (Perm.cons x (sorted-Perm xs))

abbrev no_chunks : List ℕ
no_chunks = []

drop-nil : (n : ℕ) → drop n no_chunks ≡ no_chunks
drop-nil zero = refl
drop-nil (suc n) = refl

take-nil : (n : ℕ) → take n no_chunks ≡ no_chunks
take-nil zero = refl
take-nil (suc n) = refl

drop-drop : (m n : ℕ) (xs : List ℕ) → drop n (drop m xs) ≡ drop (m + n) xs
drop-drop zero n xs = ap (λ k. drop k xs) (omega arith)
drop-drop (suc m) n [] = drop-nil n ∙ sym (drop-nil (suc m + n))
drop-drop (suc m) n (x ∷ xs) = drop-drop m n xs ∙ sym (ap (λ k. drop k (x ∷ xs)) shift)
  where
    shift : suc m + n ≡ suc (m + n)
    shift = omega arith

drop-take : (a b : ℕ) (l : List ℕ) → drop a (take (a + b) l) ≡ take b (drop a l)
drop-take zero b l = let e : 0 + b ≡ b = omega arith in rw e refl
drop-take (suc a) b [] = let e : suc a + b ≡ suc (a + b) = omega arith in rw e (sym (take-nil b))
drop-take (suc a) b (x ∷ l) =
    let e : suc a + b ≡ suc (a + b) = omega arith in rw e (drop-take a b l)

pos_sum : (a b : ℕ) → pos a +ℤ pos b ≡ pos (a + b)
unfolding ◌+ℤ◌
pos_sum a b = ground arith

-- The three splits' chunks together.
abbrev pub all_chunks : SplitManifest → List ℕ
all_chunks m = m.train_chunks ++ (m.val_chunks ++ m.test_chunks)

module _ (num : Numerics) (geom : ArrayGeometry) (seed : ℕ) where
  cuts-Perm :
      (n_train n_val : ℤ) (order : List ℕ)
      → pos 0 ≤ℤ n_train
      → pos 0 ≤ℤ n_val
      → Perm
          (sorted (take (position n_train order) order)
            ++ (sorted (slice_of n_train (n_train +ℤ n_val) order)
                ++ sorted (drop (position (n_train +ℤ n_val) order) order)))
          order
  unfolding slice_of position
  cuts-Perm (pos a) (pos b) order p q =
      let pieces : take a order ++ (take b (drop a order) ++ drop (a + b) order) ≡ order =
        rw (← drop-drop a b order, take-append-drop b (drop a order)) (take-append-drop a order) in
      rw (pos_sum a b, drop-take a b order)
        (subst
          (λ l.
            Perm
              (sorted (take a order)
                ++ (sorted (take b (drop a order)) ++ sorted (drop (a + b) order)))
              l)
          pieces
          (Perm.append (sorted-Perm (take a order))
            (Perm.append (sorted-Perm (take b (drop a order))) (sorted-Perm (drop (a + b) order)))))
  cuts-Perm (negsuc a) b order p q = absurd (omega arith)
  cuts-Perm (pos a) (negsuc b) order p q = absurd (omega arith)

  -- The fractions of train and val are not negative, so neither are their rounded shares.
  abbrev pub Shares : List ℕ → Type 0
  Shares order = (pos 0 ≤ℤ num.train_share (length order)) × (pos 0 ≤ℤ num.val_share (length order))

  divide-Perm :
      (order : List ℕ) → Shares order → Perm (all_chunks (divide num geom seed order)) order
  unfolding divide
  divide-Perm order h =
      cuts-Perm (num.train_share (length order)) (num.val_share (length order)) order h.0 h.1

  -- When the rounded shares of train and val are not negative, whatever their sizes, and the shuffle
  -- rearranges: the train, val and test chunks of a split that `split_by_chunk` returns are the selected
  -- chunks, each in one split and once.
  pub split_by_chunk-partition :
      (contiguous : Bool) (sample_range : Option (ℕ × ℕ)) (order : List ℕ) (m : SplitManifest)
      → ((n : ℕ) → pos 0 ≤ℤ num.train_share n)
      → ((n : ℕ) → pos 0 ≤ℤ num.val_share n)
      → ((l : List ℕ) → Perm (num.permutation seed l) l)
      → selected geom sample_range ≡ some order
      → split_by_chunk num geom seed contiguous sample_range ≡ some m
      → Perm (all_chunks m) order
  unfolding split_by_chunk
  split_by_chunk-partition contiguous r order m ht hv shuffles s e =
      elim (Bool-cases num.sums_to_one) [
        | inr bad ↦ absurd (let x : none ≡ some m = sym (refuses bad) ∙ e in cc)
        | inl fine ↦ elim (Bool-cases contiguous) [
          | inl c ↦
              subst (λ x. Perm (all_chunks x) order)
                (some-injective _ m (sym (in_order fine c) ∙ e))
                (divide-Perm order (ht (length order), hv (length order)))
          | inr c ↦
              subst (λ x. Perm (all_chunks x) order)
                (some-injective _ m (sym (shuffled fine c) ∙ e))
                (let l = num.permutation seed order in
                  Perm.trans (divide-Perm l (ht (length l), hv (length l))) (shuffles order))
        ]
      ]
    where
      refuses : num.sums_to_one ≡ false → split_by_chunk num geom seed contiguous r ≡ none
      refuses b = simp b refl

      in_order :
          num.sums_to_one ≡ true
          → contiguous ≡ true
          → split_by_chunk num geom seed contiguous r ≡ some (divide num geom seed order)
      in_order f c = simp f (rw s (rw c refl))

      shuffled :
          num.sums_to_one ≡ true
          → contiguous ≡ false
          → split_by_chunk num geom seed contiguous r
            ≡ some (divide num geom seed (num.permutation seed order))
      shuffled f c = simp f (rw s (rw c refl))

  -- Over a whole valid array, when the rounded shares of train and val are not negative and the shuffle
  -- rearranges, the samples of the train, val and test splits together are the samples of the array,
  -- each once.
  pub split_by_chunk-samples :
      (contiguous : Bool) (m : SplitManifest)
      → IsValid geom
      → ((n : ℕ) → pos 0 ≤ℤ num.train_share n)
      → ((n : ℕ) → pos 0 ≤ℤ num.val_share n)
      → ((l : List ℕ) → Perm (num.permutation seed l) l)
      → split_by_chunk num geom seed contiguous none ≡ some m
      → Perm
          (sample_indices m train geom ++ (sample_indices m val geom ++ sample_indices m test geom))
          (range_from 0 (n_samples geom))
  unfolding sample_indices selected
  split_by_chunk-samples contiguous m v ht hv shuffles e =
      let f : ℕ → List ℕ = λ c. to_list (samples_in_chunk geom c) in
      let p =
        split_by_chunk-partition contiguous none (range_from 0 (n_chunks geom)) m ht hv shuffles
          refl e in
      rw
        (
          ← flat_map-append f m.val_chunks m.test_chunks,
          ← flat_map-append f m.train_chunks (m.val_chunks ++ m.test_chunks),
        )
        (subst (λ l. Perm (flat_map f (all_chunks m)) l) (samples-of-chunks geom v)
          (flat_map-Perm f (all_chunks m) (range_from 0 (n_chunks geom)) p))

overlap_low : (start spc c : ℕ) → 0 < spc → (start / spc ≤ c) ↔ (start < (c + 1) * spc)
overlap_low start spc c h = (λ p. grind arith, λ p. grind arith)

overlap_high : (stop spc c : ℕ) → 0 < spc → (c < ceil_div stop spc) ↔ (c * spc < stop)
overlap_high stop spc c h = (λ p. ceil_div_start stop spc c h p, λ p. grind arith)

overlap_iff :
    (start stop spc c : ℕ)
    → 0 < spc
    → start < stop
    → Mem c (range_from (start / spc) (ceil_div stop spc - start / spc))
      ↔ ((c * spc < stop) × (start < (c + 1) * spc))
overlap_iff start stop spc c h l =
    let low = overlap_low start spc c h in
    let high = overlap_high stop spc c h in
    let m = mem-range_from (start / spc) (ceil_div stop spc - start / spc) c in
    (
      λ x. (let b = m.0 x in (high.0 (omega arith), low.0 b.0)),
      λ x. (let a = high.1 x.0 in let b = low.1 x.1 in m.1 (b, omega arith)),
    )

-- A window that `split_by_chunk` accepts selects the chunks that overlap it: those that start before
-- its stop and end after its start.
pub selected_iff :
    (geom : ArrayGeometry) (start stop c : ℕ) (order : List ℕ)
    → IsValid geom
    → selected geom (some (start, stop)) ≡ some order
    → Mem c order
      ↔ ((c * sample_chunk_size geom < stop) × (start < (c + 1) * sample_chunk_size geom))
unfolding selected
selected_iff geom start stop c order v =
    let spc = sample_chunk_size geom in
    let first = start / spc in
    elim (Bool-cases (ltb start stop && leb stop (n_samples geom))) [
      | inr outside ↦ simp outside (λ e. absurd (let x = e in cc))
      | inl inside ↦ simp inside (λ e.
          (let es : range_from first (ceil_div stop spc - first) ≡ order =
              some-injective _ order e in
            rw (← es) (
              overlap_iff start stop spc c (sample_chunk_size_pos geom v)
                (ordered (n_samples geom) inside))))
    ]
  where
    ordered : (n : ℕ) → (ltb start stop && leb stop n) ≡ true → start < stop
    ordered n e = ground arith
