-- ===== src/Log/Closing.antt =====
-- Log.Close: every segment's bytes come to stand in its own two files.
use dislog.Prelude.{
  ℕ, ◌+◌, ◌^◌, ◌≤◌, ◌<◌, List, [], ◌∷◌, true, ◌≡◌, ◌≢◌, refl, sym, ap, ◌∙◌, arith, length,
  length-append, ok, ◌⊎◌, cons-ne-nil, Bool-cases, inl, inr, ◌==◌,
}
use dislog.Index.{Gommap}
use dislog.Index.Entries.{encode, encode-nil}
use dislog.Dir.{Dir, bytes_of, put_file, store_name, index_name}
use dislog.Dir.Files.{store_name-ne, index_name-ne, store_name-ne-index_name, bytes_of-put_file_ne}
use dislog.Segment
use dislog.Segment.{Segment, Config, publish}
use dislog.Segment.Layout.{IsSegment, frames-nil, layout-nil}
use dislog.Segment.Reopen.{OnDisk, segment_close, publish-OnDisk}
use dislog.Log.{close_each, closed_one}
use dislog.Log.Chain.{Payloads, concat, Chain}
use dislog.Log.Starts.{starts, Filled, Filled-first, Filled-rest}
use dislog.Log.Filed.{Has, HasBoth, IsFiled, IsFiled-put_file, Has-put_file, HasBoth-put_file}

abbrev pub AllOnDisk : Dir → ℕ → List Payloads → Type 0
AllOnDisk d k [] = Unit {0}
AllOnDisk d k (ps ∷ pss) = OnDisk d k ps × AllOnDisk d (k + length ps) pss

-- The two files of the base offset `b` hold the same in both directories.
abbrev pub SameAt : Dir → Dir → ℕ → Type 0
SameAt d d' b =
    (bytes_of (store_name b) d' ≡ bytes_of (store_name b) d)
    × (bytes_of (index_name b) d' ≡ bytes_of (index_name b) d)

-- They hold nothing.
abbrev pub BlankAt : Dir → ℕ → Type 0
BlankAt d b = (bytes_of (store_name b) d ≡ []) × (bytes_of (index_name b) d ≡ [])

pub OnDisk-SameAt :
    (d d' : Dir) (b : ℕ) (ps : Payloads)
    → OnDisk d b ps
    → d'.present ≡ true
    → SameAt d d' b
    → OnDisk d' b ps
OnDisk-SameAt d d' b ps h there (x, y) = record {
  is_there = there;
  store_file = x ∙ h.store_file;
  index_file = y ∙ h.index_file;
}

module _ (s : Segment) (d : Dir) where
  publish_other :
      (b : ℕ) → s.base_offset < 2 ^ 64 → b < 2 ^ 64 → s.base_offset ≢ b → SameAt d (publish s d) b
  unfolding publish
  publish_other b fit fit' ne =
      let k = s.base_offset in
      let d1 = put_file (index_name k) s.index.file.bytes d in
      (
        bytes_of-put_file_ne (store_name k) _ d1 (store_name b) (store_name-ne k b fit fit' ne)
            ∙ bytes_of-put_file_ne (index_name k) _ d (store_name b)
                (λ q. store_name-ne-index_name b k (sym q)),
        bytes_of-put_file_ne (store_name k) _ d1 (index_name b) (store_name-ne-index_name k b)
            ∙ bytes_of-put_file_ne (index_name k) _ d (index_name b)
                (index_name-ne k b fit fit' ne),
      )

  publish-IsFiled :
      (bs : List ℕ)
      → IsFiled d bs
      → Has d (store_name s.base_offset)
      → Has d (index_name s.base_offset)
      → IsFiled (publish s d) bs
  unfolding publish
  publish-IsFiled bs f x y =
      let d1 = put_file (index_name s.base_offset) s.index.file.bytes d in
      IsFiled-put_file (store_name s.base_offset) _ d1 bs
        (IsFiled-put_file (index_name s.base_offset) _ d bs f y)
        (Has-put_file (index_name s.base_offset) (store_name s.base_offset) _ d x)

  publish-HasBoth : (bs : List ℕ) → HasBoth d bs → HasBoth (publish s d) bs
  unfolding publish
  publish-HasBoth bs h =
      let d1 = put_file (index_name s.base_offset) s.index.file.bytes d in
      HasBoth-put_file (store_name s.base_offset) _ d1 bs
        (HasBoth-put_file (index_name s.base_offset) _ d bs h)

OnDisk-BlankAt :
    (d : Dir) (k b : ℕ) (ps : Payloads) → OnDisk d k ps → k ≡ b → length ps ≡ 0 → BlankAt d b
OnDisk-BlankAt d k b [] on at e =
    rw (← at) (on.store_file ∙ frames-nil, on.index_file ∙ ap encode (layout-nil 0 0) ∙ encode-nil)
OnDisk-BlankAt d k b (p ∷ ps) on at e = absurd (omega (arith, e))

-- The files behind the records of a closed segment stay blank.
publish-BlankAt :
    (s : Segment) (d : Dir) (k b : ℕ) (ps : Payloads)
    → s.base_offset ≡ k
    → OnDisk (publish s d) k ps
    → k + length ps ≤ b
    → b < 2 ^ 63
    → BlankAt d b
    → BlankAt (publish s d) b
publish-BlankAt s d k b ps base on far small (x, y) = elim (Bool-cases (s.base_offset == b)) [
  | inl e ↦
      let at : k ≡ b = ground (arith, e, base) in
      OnDisk-BlankAt (publish s d) k b ps on at (omega (arith, at, far))
  | inr e ↦
      let (p, q) =
        publish_other s d b (omega (arith, base, far, small)) (omega (arith, small))
          (λ r. ground (arith, r, e)) in
      (p ∙ x, q ∙ y)
]

module _ ⦃g : Gommap⦄ (c : Config) where
  -- What Log.Close makes of the segments from `k` on and of the directory.
  pub record Closed (k : ℕ) (pss : List Payloads) (bs : List ℕ) (ss : List Segment) (d : Dir)
      : Type 0 where
    pub segments : List Segment
    pub dir : Dir
    pub runs : close_each ss d ≡ (ok tt, (segments, dir))
    pub on_disk : AllOnDisk dir k pss
    pub filed : IsFiled dir bs
    pub still_there : dir.present ≡ true
    pub before : (b : ℕ) → (b < k) ⊎ (pss ≡ []) → SameAt d dir b
    pub behind : (b : ℕ) → k + length (concat pss) ≤ b → b < 2 ^ 63 → BlankAt d b → BlankAt dir b

  module _ (k : ℕ) (ps : Payloads) (pss : List Payloads) (bs : List ℕ) (s : Segment)
      (ss : List Segment) (d : Dir) (base : s.base_offset ≡ k) (h : IsSegment s ps) where
    -- One segment closed, the others after it.
    close_first :
        (s' : Segment)
        → Segment.close s ≡ (ok tt, s')
        → s'.base_offset ≡ k
        → OnDisk (publish s' d) k ps
        → Filled (ps ∷ pss)
        → Closed (k + length ps) pss bs ss (publish s' d)
        → Closed k (ps ∷ pss) bs (s ∷ ss) d
    unfolding close_each closed_one
    close_first s' e base' on full rest = record {
      segments = s' ∷ rest.segments;
      dir = rest.dir;
      runs = rw (e, rest.runs);
      on_disk = (kept, rest.on_disk);
      filed = rest.filed;
      still_there = rest.still_there;
      before = λ b early.
          let lo : b < k = elim early [
            | inl lt ↦ lt
            | inr none ↦ absurd (cons-ne-nil ps pss none)
          ] in
          let (p, q) = rest.before b (inl (omega (arith, lo))) in
          let (p', q') =
            publish_other s' d b (omega (arith, base', small)) (omega (arith, lo, small))
              (λ r. omega (arith, r, lo, base')) in
          (p ∙ p', q ∙ q');
      behind = λ b lo hi x. rest.behind b (omega (arith, lo, length-append ps (concat pss))) hi (
          publish-BlankAt s' d k b ps base' on (omega (arith, lo, length-append ps (concat pss))) hi
            x);
    }
      where
        small : k < 2 ^ 63
        small = omega (arith, base, h.counted, h.in_range)

        kept : OnDisk rest.dir k ps
        kept =
            OnDisk-SameAt (publish s' d) rest.dir k ps on rest.still_there
              (rest.before k (Filled-first k ps pss full))

  -- Log.Close closes the segments one after another, and puts the bytes of each into its files.
  pub closes :
      (k : ℕ) (pss : List Payloads) (bs : List ℕ) (ss : List Segment) (d : Dir)
      → Chain c k ss pss
      → Filled pss
      → IsFiled d bs
      → HasBoth d (starts k pss)
      → d.present ≡ true
      → Closed k pss bs ss d
  unfolding close_each
  closes k [] bs [] d h full f has there = record {
    segments = [];
    dir = d;
    runs = refl;
    on_disk = tt;
    filed = f;
    still_there = there;
    before = λ b early. (refl, refl);
    behind = λ b lo hi x. x;
  }
  closes k [] bs (s ∷ ss) d h full f has there = absurd h
  closes k (ps ∷ pss) bs [] d h full f has there = absurd h
  closes k (ps ∷ pss) bs (s ∷ ss) d (base, _, hs, h) full f has there =
      let (s', e, same, kept, entries) = segment_close hs in
      let at : s'.base_offset ≡ k = same ∙ base in
      let on : OnDisk (publish s' d) k ps = rw at at (publish-OnDisk s' ps d there kept entries) in
      close_first k ps pss bs s ss d base hs s' e at on full (
        closes (k + length ps) pss bs ss (publish s' d) h (Filled-rest ps pss full)
          (publish-IsFiled s' d bs f (rw at has.0) (rw at has.1)) (publish-HasBoth s' d _ has.2)
          on.is_there)
