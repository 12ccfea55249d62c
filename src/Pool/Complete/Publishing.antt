-- ===== src/Pool/Complete/Publishing.antt =====
-- What the steps of a slot's publication leave of the condition on the slots.
use Prim.Native.String.{String}
use mathlib.Core.Option.{some-injective}
use insitubatch.Base.Int.{ℤ, pos, neg, ◌+ℤ◌, ◌≤ℤ◌}
use insitubatch.Base.{
  ℕ, ◌<◌, ◌≡◌, refl, sym, subst, ap, ◌∙◌, inl, inr, true, false, List, Option, none, some,
  Bool-cases, Option-cases, arith, ◌==◌, ==_iff,
}
use insitubatch.Pool.State.{Key, Slot, assembled, Config, Pool, find, modify}
use insitubatch.Pool.Admit.{fresh_slot, revived_slot}
use insitubatch.Pool.Lifecycle.{
  land, set_tile, complete, begin_publish, published, record_completed, publish_in_place,
  finish_publish,
}
use insitubatch.Pool.Calls.{System, land_or_stay, start_publishing, take_publishing, end_publishing}
use insitubatch.Pool.Budget.{Inv}
use insitubatch.Pool.Complete.{AllSlots, find-AllSlots, Every, Admits}
use insitubatch.Pool.Complete.Slots.{
  is_done, Landed, Made, Sound, Made-later, Made-Matches, Matches-moves, modify-AllSlots,
  begin-AllSlots, take-Matches, end-All, end-Sound,
}

abbrev pub Whole : {T : Type 0} → List (Key × Slot T) → Pool T → Type 0
Whole pubs p = Every (Made pubs) (Sound pubs) p

module _ {T : Type 0} (cfg : Config T) where
  pub Sound-Admits : (pubs : List (Key × Slot T)) → Admits cfg (Made pubs) (Sound pubs)
  unfolding fresh_slot revived_slot
  Sound-Admits pubs = record {
    later = Made-later pubs;
    older = λ n k x h. (h.0, omega (arith, h.1));
    fresh = λ n k g. (
      ((λ e. absurd (let x = e in cc)), Made-Matches pubs k (fresh_slot cfg n k) g),
      omega arith,
    );
    revived = λ n k f d g.
        (((λ e. omega arith), Made-Matches pubs k (revived_slot cfg n k f d) g), omega arith);
  }

  -- A change of one slot that keeps its identity, what has landed, and does not publish it
  pub moves :
      (pubs : List (Key × Slot T)) (p : Pool T) (k : Key) (f : Slot T → Slot T)
      → ((x : Slot T) → (f x).ident ≡ x.ident)
      → ((x : Slot T) → Landed x → Landed (f x))
      → ((x : Slot T) → is_done (f x).state ≡ true → is_done x.state ≡ true)
      → Whole pubs p
      → Whole pubs (record p { slots = modify k f p.slots })
  moves pubs p k f same lands quiet h = (
    h.0,
    modify-AllSlots (Sound pubs p.made) k f p.slots
        (λ x e s. (
          (
            (λ d. lands x (s.0.0 (quiet x d))),
            Matches-moves pubs k x (f x) (same x) (lands x) s.0.1,
          ),
          subst (λ i. i < p.made) (sym (same x)) s.1,
        ))
        h.1,
  )

  landed_more : (x : ℤ) → x ≤ℤ pos 0 → (x +ℤ neg (pos 1)) ≤ℤ pos 0
  unfolding ◌+ℤ◌
  landed_more x h = ground arith

  pub land-Whole :
      (s : System T) (k : Key) (coord : List ℕ) (t : T)
      → Whole s.publishing s.pool
      → Whole (land_or_stay s k coord t).publishing (land_or_stay s k coord t).pool
  unfolding land_or_stay land
  land-Whole s k coord t h = elim (Option-cases (find k s.pool.slots)) [
    | inl e ↦ rw (e, land_or_stay, land) h
    | inr (slot, e) ↦
        rw (e, land_or_stay, land)
          (moves s.publishing s.pool k
            (λ x. record x { tiles = set_tile coord t x.tiles; pending = x.pending +ℤ neg (pos 1) })
            (λ x. refl) (λ x. landed_more x.pending) (λ x d. d) h)
  ]

  complete-Landed : (x : Slot T) → complete x ≡ true → Landed x
  unfolding complete
  complete-Landed x e = ground arith

  abbrev pub SystemWhole : System T → Type 0
  SystemWhole s = Whole s.publishing s.pool

  -- What `_advance` finds: no slot, one that may not be published yet, or one that may.
  pub begin-none : (p : Pool T) (k : Key) → find k p.slots ≡ none → begin_publish p k ≡ (none, p)
  unfolding begin_publish
  begin-none p k e = rw (e, begin_publish) refl

  pub begin-waits :
      (p : Pool T) (k : Key) (slot : Slot T)
      → find k p.slots ≡ some slot
      → complete slot ≡ false
      → begin_publish p k ≡ (none, p)
  unfolding begin_publish
  begin-waits p k slot e w = rw (e, begin_publish) (simp w refl)

  pub begin-some :
      (p : Pool T) (k : Key) (slot : Slot T)
      → find k p.slots ≡ some slot
      → complete slot ≡ true
      → begin_publish p k
        ≡ (some slot, record p { slots = modify k (λ x. record x { state = assembled }) p.slots })
  unfolding begin_publish
  begin-some p k slot e d = rw (e, begin_publish) (simp d refl)

  pub begin-Whole :
      (s : System T) (k : Key)
      → Inv cfg.budget s.pool
      → SystemWhole s
      → SystemWhole (start_publishing s k (begin_publish s.pool k))
  unfolding start_publishing
  begin-Whole s k v h =
      let goal : Option (Slot T) × Pool T → Type 0 = λ r. SystemWhole (start_publishing s k r) in
      elim (Option-cases (find k s.pool.slots)) [
        | inl e ↦ subst goal (sym (begin-none s.pool k e)) h
        | inr (slot, e) ↦ elim (Bool-cases (complete slot)) [
          | inr waits ↦ subst goal (sym (begin-waits s.pool k slot e waits)) h
          | inl done ↦ subst goal (sym (begin-some s.pool k slot e done)) (
            ((find-AllSlots (Sound s.publishing s.pool.made) k s.pool.slots slot e h.1).1, h.0),
            begin-AllSlots s.publishing s.pool.made k slot s.pool.slots v.distinct e
                (complete-Landed slot done) h.1,
          )
        ]
      ]

  published_lem :
      (k : Key) (x : Slot T)
      → ((published cfg k x).ident ≡ x.ident) × ((published cfg k x).pending ≡ x.pending)
  unfolding published
  published_lem k x = ground arith

  publish-Whole :
      (pubs : List (Key × Slot T)) (p : Pool T) (k : Key) (seen : Slot T)
      → take_publishing k pubs ≡ some seen
      → Whole pubs p
      → Whole pubs (publish_in_place cfg p k seen)
  unfolding publish_in_place
  publish-Whole pubs p k seen t h = elim (Option-cases (find k p.slots)) [
    | inl e ↦ rw (e, publish_in_place) h
    | inr (slot, e) ↦ elim (Bool-cases (slot.ident == seen.ident)) [
      | inr other ↦ rw (e, publish_in_place) (simp other h)
      | inl same ↦
          rw (e, publish_in_place)
            (simp same (
              h.0,
              modify-AllSlots (Sound pubs p.made) k (published cfg k) p.slots
                  (λ x q s.
                    publishes p x slot (some-injective slot x (sym e ∙ q))
                      ((==_iff slot.ident seen.ident).0 same) s)
                  h.1,
            ))
    ]
  ]
    where
      publishes :
          (p : Pool T) (x slot : Slot T)
          → slot ≡ x
          → slot.ident ≡ seen.ident
          → Sound pubs p.made k x
          → Sound pubs p.made k (published cfg k x)
      publishes p x slot q i s =
          let c = published_lem k x in
          let landed : Landed x =
            take-Matches pubs k k x seen t refl s.0.1 (ap (λ z. z.ident) (sym q) ∙ i) in
          let now : Landed x → Landed (published cfg k x) =
            λ l. subst (λ z. z ≤ℤ pos 0) (sym c.1) l in
          (
            ((λ _. now landed), Matches-moves pubs k x (published cfg k x) c.0 now s.0.1),
            subst (λ z. z < p.made) (sym c.0) s.1,
          )

  pub frame-Whole :
      (pubs : List (Key × Slot T)) (p q : Pool T)
      → q.made ≡ p.made
      → q.slots ≡ p.slots
      → Whole pubs p
      → Whole pubs q
  frame-Whole pubs p q m e h = (
    subst (Made pubs) (sym m) h.0,
    subst (λ n. AllSlots (Sound pubs n) q.slots) (sym m)
        (subst (AllSlots (Sound pubs p.made)) (sym e) h.1),
  )

  record_completed-Whole :
      (pubs : List (Key × Slot T)) (p : Pool T) (k : Key) (b : Option String)
      → Whole pubs p
      → Whole pubs (record_completed cfg p k b)
  unfolding record_completed
  record_completed-Whole pubs p k none h =
      frame-Whole pubs p (record_completed cfg p k none) (ground arith) (ground arith) h
  record_completed-Whole pubs p k (some file) h =
      frame-Whole pubs p (record_completed cfg p k (some file)) (ground arith) (ground arith) h

  pub finish-Whole :
      (s : System T) (k : Key) (seen : Slot T)
      → take_publishing k s.publishing ≡ some seen
      → Whole s.publishing s.pool
      → Whole (end_publishing k s.publishing) (finish_publish cfg s.pool k seen)
  unfolding finish_publish
  finish-Whole s k seen t h =
      let p = finish_publish cfg s.pool k seen in
      let w : Whole s.publishing p =
        record_completed-Whole s.publishing (publish_in_place cfg s.pool k seen) k _
          (publish-Whole s.publishing s.pool k seen t h) in
      (
        end-All (λ x. x.1.ident < p.made) k s.publishing w.0,
        end-Sound s.publishing p.made k p.slots w.1,
      )
