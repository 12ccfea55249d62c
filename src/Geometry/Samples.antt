-- ===== src/Geometry/Samples.antt =====
-- types.py, the sample axis: which chunk holds a sample, and the physical order of the axes.
use insitubatch.Base.Arith.{lt-ceil_div, ceil_div_start, ceil_div_cover, div_unique}
use mathlib.Core.List.{append-nil}
use insitubatch.Base.{
  ap₂, ◌∙◌, dec_le, ℕ, zero, suc, ◌+◌, ◌-◌, ◌*◌, ◌≤◌, ◌<◌, ◌≡◌, refl, ap, ◌↔◌, List, [], ◌∷◌, ◌++◌,
  flat_map, arith, min, length, get_or, range_from, range_from-append, All,
}
use insitubatch.Geometry.{
  ArrayGeometry, IsValid, n_samples, sample_chunk_size, n_chunks, chunk_of, samples_in_chunk,
  to_list, drop_sample, physical_chunk_coord,
}

get_or_pos : (cs : List ℕ) (i : ℕ) → All (λ c. 0 < c) cs → i < length cs → 0 < get_or cs i 0
get_or_pos [] i p h = absurd (omega arith)
get_or_pos (c ∷ cs) zero p h = p.0
get_or_pos (c ∷ cs) (suc i) p h = get_or_pos cs i p.1 (omega arith)

pub sample_chunk_size_pos : (g : ArrayGeometry) → IsValid g → 0 < sample_chunk_size g
unfolding sample_chunk_size
sample_chunk_size_pos g v =
    get_or_pos g.chunks g.sample_axis v.positive (omega (arith, v.axis, v.same_rank))

-- On a valid array, a sample lies in the range of a chunk exactly when it is on the array and the
-- chunk is the one that `chunk_of` names.
pub samples_in_chunk_iff :
    (g : ArrayGeometry) (c i : ℕ)
    → IsValid g
    → (((samples_in_chunk g c).start ≤ i) × (i < (samples_in_chunk g c).stop))
      ↔ ((i < n_samples g) × (chunk_of g i ≡ c))
unfolding samples_in_chunk chunk_of
samples_in_chunk_iff g c i v =
    let p = sample_chunk_size_pos g v in
    (
      λ h. (omega arith, div_unique i (sample_chunk_size g) c (omega arith) (grind arith)),
      λ h. (grind arith, grind arith),
    )

n_chunks_cover : (g : ArrayGeometry) → IsValid g → n_samples g ≤ n_chunks g * sample_chunk_size g
unfolding n_chunks
n_chunks_cover g v = ceil_div_cover (n_samples g) (sample_chunk_size g) (sample_chunk_size_pos g v)

n_chunks_start :
    (g : ArrayGeometry) (k : ℕ) → IsValid g → k < n_chunks g → k * sample_chunk_size g < n_samples g
unfolding n_chunks
n_chunks_start g k v h = ceil_div_start (n_samples g) _ k (sample_chunk_size_pos g v) h

pub chunk_of-lt :
    (g : ArrayGeometry) (i : ℕ) → IsValid g → i < n_samples g → chunk_of g i < n_chunks g
unfolding chunk_of n_chunks
chunk_of-lt g i v h =
    lt-ceil_div (n_samples g) (sample_chunk_size g) i (sample_chunk_size_pos g v) h

-- One more chunk that starts on the array takes the run of samples one chunk further.
run_step :
    (g : ArrayGeometry) (k e : ℕ)
    → k * sample_chunk_size g ≤ n_samples g
    → suc k * sample_chunk_size g ≤ e
    → to_list (samples_in_chunk g k)
        ++ range_from
            (suc k * sample_chunk_size g)
            (min e (n_samples g) - suc k * sample_chunk_size g)
      ≡ range_from (k * sample_chunk_size g) (min e (n_samples g) - k * sample_chunk_size g)
unfolding samples_in_chunk
run_step g k e h l = elim (dec_le (suc k * sample_chunk_size g) (n_samples g)) [
  | yes fits ↦
      range_from-append (k * sample_chunk_size g) _ _ _ (omega arith)
      ∙ ap (range_from (k * sample_chunk_size g)) (omega arith)
  | no short ↦
      let over : min e (n_samples g) - suc k * sample_chunk_size g ≡ 0 = omega arith in
      rw (over, append-nil) (ap (range_from (k * sample_chunk_size g)) (omega arith))
]

-- The samples of the chunks `k, k + 1, ...`, in order, run on to the end of `m` further chunks.
module _ (g : ArrayGeometry) (v : IsValid g) where
  chunk_runs :
      (m k : ℕ)
      → k + m ≤ n_chunks g
      → flat_map (λ c. to_list (samples_in_chunk g c)) (range_from k m)
        ≡ range_from
            (k * sample_chunk_size g)
            (min ((k + m) * sample_chunk_size g) (n_samples g) - k * sample_chunk_size g)
  unfolding flat_map
  chunk_runs zero k h =
      let e : min ((k + 0) * sample_chunk_size g) (n_samples g) - k * sample_chunk_size g ≡ 0 =
        grind arith in
      rw e refl
  chunk_runs (suc m) k h =
      ap (◌++◌ (to_list (samples_in_chunk g k))) (chunk_runs m (suc k) (omega arith)) ∙ run_end
    where
      run_end :
          to_list (samples_in_chunk g k)
            ++ range_from (suc k * sample_chunk_size g) (
                min ((suc k + m) * sample_chunk_size g) (n_samples g) - suc k * sample_chunk_size g)
          ≡ range_from
              (k * sample_chunk_size g)
              (min ((k + suc m) * sample_chunk_size g) (n_samples g) - k * sample_chunk_size g)
      run_end =
          let e : k + suc m ≡ suc k + m = omega arith in
          rw e (
            run_step g k ((suc k + m) * sample_chunk_size g)
              (omega (arith, n_chunks_start g k v (omega arith))) (omega arith))

  -- The chunks of a valid array, in order, hold every sample of it once, in order.
  pub samples-of-chunks :
      flat_map (λ c. to_list (samples_in_chunk g c)) (range_from 0 (n_chunks g))
      ≡ range_from 0 (n_samples g)
  samples-of-chunks =
      chunk_runs (n_chunks g) 0 (omega arith) ∙ ap₂ range_from (omega arith) (all_covered)
    where
      all_covered :
          min ((0 + n_chunks g) * sample_chunk_size g) (n_samples g) - 0 * sample_chunk_size g
          ≡ n_samples g
      all_covered = omega (arith, n_chunks_cover g v)

-- With the sample axis among the axes, taking it out of a physical chunk coordinate gives the inner
-- coordinate back, and the chunk index stands at it.
pub drop_sample-physical_chunk_coord :
    (ax c : ℕ) (inner : List ℕ)
    → ax ≤ length inner
    → (drop_sample ax (physical_chunk_coord ax c inner) ≡ inner)
      × (get_or (physical_chunk_coord ax c inner) ax 0 ≡ c)
unfolding drop_sample physical_chunk_coord
drop_sample-physical_chunk_coord zero c inner h = (refl, refl)
drop_sample-physical_chunk_coord (suc ax) c [] h = absurd (omega arith)
drop_sample-physical_chunk_coord (suc ax) c (i ∷ inner) h =
    let ih = drop_sample-physical_chunk_coord ax c inner (omega arith) in
    let e : suc ax + 1 ≡ suc (ax + 1) = omega arith in (rw e (ap (◌∷◌ i) ih.0), ih.1)
