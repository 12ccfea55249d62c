-- ===== src/Buffers.antt =====
-- src/insitubatch/buffers.py: `BatchBuffers`, the batch outputs that are lent again once nothing refers
-- to them. An allocation is a number. Who holds views of which allocation is the list `held`, and which
-- allocations a local variable of `take` still names is a list as well. The reference count that CPython
-- reports of the owner of an allocation is what the `_Buffer` itself holds (`structural`), and
-- `per_name` for each name and `per_view` for each view; these depend on the allocator and are
-- parameters. (`per_name` is 0 unless the allocated array owns its data.) An allocator that keeps a
-- reference of its own for some time is left out.
pub mod Tracked
pub mod Exclusive
use Prim.Native.String.{String}
use insitubatch.Base.Text.{String-discrete}
use insitubatch.Base.{
  ℕ, suc, ◌+◌, ◌*◌, Bool, true, false, not, ◌&&◌, List, [], ◌∷◌, ◌++◌, ite, length, ltb, leb, ◌==◌,
  if◌then◌else◌, ℕ_discrete, product,
}
use insitubatch.Geometry.{Dtype}

-- `(inner_shape, dtype)`
pub record BufferKey : Type 0 where
  pub inner_shape : List ℕ
  pub dtype : Dtype

unfoldable pub BufferKey-discrete : Discrete BufferKey
BufferKey-discrete = hlevel (ℕ_discrete, String-discrete)

-- `_Buffer`: its allocation, `base.shape[0]`, `base.nbytes` and the idle count
pub record Buffer : Type 0 where
  pub ident : ℕ
  pub rows : ℕ
  pub nbytes : ℕ
  pub idle_refs : ℕ

-- `BatchBuffers`, with the allocator's label, the allocations made so far, and who holds views.
pub record BatchBuffers : Type 0 where
  pub pools : List (BufferKey × List Buffer)
  pub label : String
  pub reuse : Bool
  pub lends : ℕ
  pub allocations : ℕ
  pub made : ℕ
  pub held : List ℕ

-- What `take` comes to: the lent allocation, or one of the two `RuntimeError`s.
pub data Taken : Type 0 where
  lent : ℕ → Taken
  untrackable : Taken
  wrong_baseline : Taken

pub data Search : Type 0 where
  found : ℕ → Search
  no_buffer : Search
  bad_baseline : Search

-- What the producers, the consumers and the owner of the pool do.
pub data Call : Type 0 where
  taken : ℕ → BufferKey → Call
  viewed : ℕ → Call
  dropped : ℕ → Call
  counters_reset : Call
  allocator_set : String → Call
  cleared : Call

abbrev pub occurrences : ℕ → List ℕ → ℕ
occurrences i [] = 0
occurrences i (j ∷ held) = (if i == j then 1 else 0) + occurrences i held

-- A view that is dropped
abbrev pub drop_one : ℕ → List ℕ → List ℕ
drop_one i [] = []
drop_one i (j ∷ held) = let rest = drop_one i held in if i == j then held else j ∷ rest

module _ (structural per_name per_view : ℕ → ℕ) where
  -- `_refs`, for the names that are in scope and the views that are held
  unfoldable pub refs : List ℕ → List ℕ → ℕ → ℕ
  refs names held i =
      structural i + per_name i * occurrences i names + per_view i * occurrences i held

  -- `calibrate`: the idle count, and whether a view can be tracked. `lent` is a view for that long.
  unfoldable pub calibrate : List ℕ → List ℕ → ℕ → ℕ × Bool
  calibrate names held i =
      let idle_refs = refs names held i in
      (idle_refs, not (leb (refs names (i ∷ held) i) idle_refs))

  unfoldable pub buffers_of : BufferKey → List (BufferKey × List Buffer) → List Buffer
  buffers_of key [] = []
  buffers_of key ((k, buffers) ∷ pools) =
      ite (BufferKey-discrete k key) buffers (buffers_of key pools)

  -- `_pools[key] = buffers`
  unfoldable pub set_buffers :
      BufferKey → List Buffer → List (BufferKey × List Buffer) → List (BufferKey × List Buffer)
  set_buffers key buffers [] = (key, buffers) ∷ []
  set_buffers key buffers ((k, old) ∷ pools) =
      let rest = set_buffers key buffers pools in
      ite (BufferKey-discrete k key) ((k, buffers) ∷ pools) ((k, old) ∷ rest)

  -- The loop of `take`, with `free` of each buffer
  unfoldable pub search_free : List ℕ → ℕ → List Buffer → Search
  search_free held n [] = no_buffer
  search_free held n (buf ∷ buffers) =
      let rest = search_free held n buffers in
      let now = refs [] held buf.ident in
      if ltb now buf.idle_refs
      then bad_baseline
      else if leb now buf.idle_refs && leb n buf.rows
      then found buf.ident
      else rest

  -- `_lend`: the view that is handed out is a reference.
  unfoldable pub lend : BatchBuffers → ℕ → Taken × BatchBuffers
  lend s i = (lent i, record s { held = i ∷ s.held })

  -- `allocated = _alloc((n, *inner_shape), dtype)`, `del allocated`, and `calibrate`, `append` and the
  -- count of what it gives
  unfoldable pub allocate : BatchBuffers → ℕ → BufferKey → Taken × BatchBuffers
  allocate s n key =
      let i = s.made in
      let names = i ∷ [] in
      let names_after_del = drop_one i names in
      let (idle_refs, trackable) = calibrate names_after_del s.held i in
      let buf : Buffer = record {
        ident = i;
        rows = n;
        nbytes = n * product key.inner_shape * key.dtype.itemsize;
        idle_refs = idle_refs;
      } in
      let made = record s { made = suc i } in
      if not trackable
      then (untrackable, made)
      else lend
          (record made {
            pools = set_buffers key (buffers_of key s.pools ++ buf ∷ []) s.pools;
            allocations = s.allocations + 1;
          })
          i

  -- What `take` does with what the loop came to
  unfoldable pub serve : BatchBuffers → ℕ → BufferKey → Search → Taken × BatchBuffers
  serve s n key (found i) = lend s i
  serve s n key no_buffer = allocate s n key
  serve s n key bad_baseline = (wrong_baseline, s)

  unfoldable pub take : BatchBuffers → ℕ → BufferKey → Taken × BatchBuffers
  take s n key =
      if not s.reuse
      then lend
          (record s { lends = s.lends + 1; allocations = s.allocations + 1; made = suc s.made })
          s.made
      else let s' = record s {
        lends = s.lends + 1;
        pools = set_buffers key (buffers_of key s.pools) s.pools;
      } in
        serve s' n key (search_free s'.held n (buffers_of key s'.pools))

  -- `take`; another view of an array that is held, and the end of one; `reset_counters`,
  -- `set_allocator` and `clear`.
  unfoldable pub step : BatchBuffers → Call → BatchBuffers
  step s (taken n key) = (take s n key).1
  step s (viewed i) = if ltb 0 (occurrences i s.held) then record s { held = i ∷ s.held } else s
  step s (dropped i) = record s { held = drop_one i s.held }
  step s counters_reset = record s { lends = 0; allocations = 0 }
  step s (allocator_set label) = record s { label = label; pools = [] }
  step s cleared = record s { pools = [] }

  unfoldable pub run : BatchBuffers → List Call → BatchBuffers
  run s [] = s
  run s (call ∷ calls) = run (step s call) calls

-- `__init__`
unfoldable pub new_buffers : String → Bool → BatchBuffers
new_buffers label reuse = record {
  pools = [];
  label = label;
  reuse = reuse;
  lends = 0;
  allocations = 0;
  made = 0;
  held = [];
}

-- `BufferStats` and `stats`
pub record BufferStats : Type 0 where
  pub n_buffers : ℕ
  pub nbytes : ℕ
  pub kind : String
  pub reuse : Bool
  pub lends : ℕ
  pub allocations : ℕ

unfoldable pub n_buffers : List (BufferKey × List Buffer) → ℕ
n_buffers [] = 0
n_buffers (p ∷ pools) = length p.1 + n_buffers pools

unfoldable pub bytes_of : List Buffer → ℕ
bytes_of [] = 0
bytes_of (b ∷ buffers) = b.nbytes + bytes_of buffers

unfoldable pub nbytes : List (BufferKey × List Buffer) → ℕ
nbytes [] = 0
nbytes (p ∷ pools) = bytes_of p.1 + nbytes pools

unfoldable pub stats : BatchBuffers → BufferStats
stats s = record {
  n_buffers = n_buffers s.pools;
  nbytes = nbytes s.pools;
  kind = s.label;
  reuse = s.reuse;
  lends = s.lends;
  allocations = s.allocations;
}
