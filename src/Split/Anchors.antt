-- ===== src/Split/Anchors.antt =====
-- `valid_anchor_range` against the reads of a windowed dataset.
use insitubatch.Base.Int.{ℤ, pos, negsuc, neg, max_ℤ, min_ℤ, ◌+ℤ◌, ◌≤ℤ◌, ◌<ℤ◌}
use insitubatch.Base.{ℕ, ◌+◌, ◌<◌, ◌↔◌, List, [], ◌∷◌, All, arith}
use insitubatch.Split.{min_of, max_of, valid_anchor_range}

-- Every offset of the window is between two integers.
abbrev Between : ℤ → ℤ → List ℤ → Type 0
Between lo hi offs = All (λ o. (lo ≤ℤ o) × (o ≤ℤ hi)) offs

-- The read of an anchor at an offset is in the array.
abbrev pub InArray : ℕ → ℕ → ℤ → Type 0
InArray n a o = (pos 0 ≤ℤ (pos a +ℤ o)) × ((pos a +ℤ o) <ℤ pos n)

-- The least and the greatest bound a predicate that holds between them exactly.
min_of-le :
    (o : ℤ) (offs : List ℤ) (a : ℤ) → (a ≤ℤ min_of o offs) ↔ ((a ≤ℤ o) × All (λ p. a ≤ℤ p) offs)
min_of-le o [] a = (λ h. (h, tt), λ h. h.0)
min_of-le o (p ∷ rest) a =
    let ih = min_of-le (min_ℤ o p) rest a in
    (
      λ h. (let (b, r) = ih.0 h in let c = min_split o p a b in (c.0, (c.1, r))),
      λ h. ih.1 (min_join o p a h.0 h.1.0, h.1.1),
    )
  where
    min_split : (x y b : ℤ) → b ≤ℤ min_ℤ x y → (b ≤ℤ x) × (b ≤ℤ y)
    min_split x y b h = ground arith

    min_join : (x y b : ℤ) → b ≤ℤ x → b ≤ℤ y → b ≤ℤ min_ℤ x y
    min_join x y b h k = ground arith

max_of-le :
    (o : ℤ) (offs : List ℤ) (a : ℤ) → (max_of o offs ≤ℤ a) ↔ ((o ≤ℤ a) × All (λ p. p ≤ℤ a) offs)
max_of-le o [] a = (λ h. (h, tt), λ h. h.0)
max_of-le o (p ∷ rest) a =
    let ih = max_of-le (max_ℤ o p) rest a in
    (
      λ h. (let (b, r) = ih.0 h in let c = max_split o p a b in (c.0, (c.1, r))),
      λ h. ih.1 (max_join o p a h.0 h.1.0, h.1.1),
    )
  where
    max_split : (x y b : ℤ) → max_ℤ x y ≤ℤ b → (x ≤ℤ b) × (y ≤ℤ b)
    max_split x y b h = ground arith

    max_join : (x y b : ℤ) → x ≤ℤ b → y ≤ℤ b → max_ℤ x y ≤ℤ b
    max_join x y b h k = ground arith

-- A read at the offset is in the array if the offset is at least -a and at most n - 1 - a.
InArray-iff :
    (n a : ℕ) (o : ℤ)
    → a < n
    → InArray n a o ↔ ((neg (pos a) ≤ℤ o) × (o ≤ℤ (pos n +ℤ neg (pos (a + 1)))))
unfolding ◌+ℤ◌
InArray-iff n a (pos m) h = ground arith
InArray-iff n a (negsuc m) h = ground arith

-- The window's ends, as conditions on the anchor.
low_iff : (a : ℕ) (least : ℤ) → (max_ℤ (pos 0) (neg least) ≤ℤ pos a) ↔ (neg (pos a) ≤ℤ least)
low_iff a (pos l) = ground arith
low_iff a (negsuc l) = ground arith

below_max : (lo hi : ℤ) (a : ℕ) → lo ≤ℤ pos a → (pos a <ℤ max_ℤ lo hi) ↔ (pos a <ℤ hi)
below_max lo hi a h = ground arith

high_iff :
    (n a : ℕ) (greatest : ℤ)
    → (pos a <ℤ (pos n +ℤ neg (max_ℤ (pos 0) greatest)))
      ↔ ((a < n) × (greatest ≤ℤ (pos n +ℤ neg (pos (a + 1)))))
unfolding ◌+ℤ◌
high_iff n a (pos g) = ground arith
high_iff n a (negsuc g) = ground arith

range_iff :
    (n a : ℕ) (least greatest : ℤ)
    → ((max_ℤ (pos 0) (neg least) ≤ℤ pos a)
        × (pos a <ℤ max_ℤ (max_ℤ (pos 0) (neg least)) (pos n +ℤ neg (max_ℤ (pos 0) greatest))))
      ↔ ((a < n) × ((neg (pos a) ≤ℤ least) × (greatest ≤ℤ (pos n +ℤ neg (pos (a + 1))))))
range_iff n a least greatest =
    let lo = max_ℤ (pos 0) (neg least) in
    let hi = pos n +ℤ neg (max_ℤ (pos 0) greatest) in
    let l = low_iff a least in
    let g = high_iff n a greatest in
    (
      λ h. (let x = g.0 ((below_max lo hi a h.0).0 h.1) in (x.0, (l.0 h.0, x.1))),
      λ h. (let low = l.1 h.1.0 in (low, (below_max lo hi a low).1 (g.1 (h.0, h.1.1)))),
    )

both :
    (n a : ℕ) (offs : List ℤ)
    → a < n
    → All (InArray n a) offs
      ↔ (All (λ o. neg (pos a) ≤ℤ o) offs × All (λ o. o ≤ℤ (pos n +ℤ neg (pos (a + 1)))) offs)
both n a [] h = (λ _. (tt, tt), λ _. tt)
both n a (o ∷ offs) h =
    let one = InArray-iff n a o h in
    let ih = both n a offs h in
    (
      λ p. (let x = one.0 p.0 in let xs = ih.0 p.1 in ((x.0, xs.0), (x.1, xs.1))),
      λ p. (one.1 (p.0.0, p.1.0), ih.1 (p.0.1, p.1.1)),
    )

-- `valid_anchor_range` holds exactly the anchors of the array whose read at every offset of the
-- window is in the array, whatever the offsets and however short the array.
pub valid_anchor_range_iff :
    (offsets : List ℤ) (n a : ℕ)
    → (((valid_anchor_range offsets n).0 ≤ℤ pos a) × (pos a <ℤ (valid_anchor_range offsets n).1))
      ↔ ((a < n) × All (InArray n a) offsets)
unfolding valid_anchor_range
valid_anchor_range_iff [] n a =
    (λ h. (omega (arith, h.1), tt), λ h. (omega arith, omega (arith, h.0)))
valid_anchor_range_iff (o ∷ offs) n a =
    let ends = range_iff n a (min_of o offs) (max_of o offs) in
    let low = min_of-le o offs (neg (pos a)) in
    let high = max_of-le o offs (pos n +ℤ neg (pos (a + 1))) in
    (
      λ h.
          (let (inside, (l, g)) = ends.0 h in
            (inside, (both n a (o ∷ offs) inside).1 (low.0 l, high.0 g))),
      λ h. (let (l, g) = (both n a (o ∷ offs) h.0).0 h.1 in ends.1 (h.0, (low.1 l, high.1 g))),
    )
