-- ===== src/Log/Reopening.antt =====
-- NewLog on the directory that a closed log left.
use dislog.Prelude.{
  ℕ, ◌+◌, List, [], ◌∷◌, ◌++◌, true, false, ◌≡◌, ◌≢◌, refl, ap, ◌∙◌, arith, length, ok, ne→==,
  is_empty, inl, inr, Bool-cases, ◌==◌, append_assoc, append-nil, map,
}
use dislog.Index.{Gommap}
use dislog.Dir.{Dir, Text, bytes_of, store_name, index_name, read_dir}
use dislog.Segment.{Segment, Config}
use dislog.Index.Entries.{length-mmap}
use dislog.Segment.Layout.{IsSegment, length-layout}
use dislog.Segment.Reopen.{Fits, new_segment_lem}
use dislog.Log.{Log, new_segment, open_all, setup, new_log, with_defaults, close}
use dislog.Log.Chain.{Payloads, Chain, IsUsable, IsLog, payloads-ne-nil, segments-ne-nil}
use dislog.Log.Filed.{twice, HasBoth, IsFiled, IsFiled-touched, HasBoth-touched}
use dislog.Log.Starts.{starts, Filled}
use dislog.Log.Closing.{AllOnDisk, OnDisk-SameAt, closes}

-- A log that holds the records of `pss` and whose directory has the files of its segments, of which
-- all but the last have a record.
pub record IsDurable (l : Log) (k : ℕ) (pss : List Payloads) : Type 0 where
  pub holds : IsLog l k pss
  pub filed : IsFiled l.dir (starts k pss)
  pub filled : Filled pss

-- A sound segment fits its own configuration.
pub IsSegment-Fits :
    (k : ℕ) (c : Config) (s : Segment) (ps : Payloads)
    → IsUsable c
    → IsSegment s ps
    → s.base_offset ≡ k
    → s.config ≡ c
    → Fits k c ps
IsSegment-Fits k c s ps u h base conf = record {
  some_index = omega (arith, u.one_entry);
  small_index = omega (arith, u.index_small);
  entries_fit = omega (
    arith,
    h.capacity,
    ap (λ (c : Config). c.max_index_bytes) conf,
    length-mmap h.indexed,
    length-layout 0 0 ps,
  );
  few = h.sparse;
  store_fits = h.stored.fits;
  offsets_fit = omega (arith, h.counted, h.in_range, base);
}

abbrev pub AllFit : Config → ℕ → List Payloads → Type 0
AllFit c k [] = Unit {0}
AllFit c k (ps ∷ pss) = Fits k c ps × AllFit c (k + length ps) pss

Chain-AllFit :
    (c : Config) (k : ℕ) (ss : List Segment) (pss : List Payloads)
    → IsUsable c
    → Chain c k ss pss
    → AllFit c k pss
Chain-AllFit c k [] [] u h = tt
Chain-AllFit c k [] (ps ∷ pss) u h = absurd h
Chain-AllFit c k (s ∷ ss) [] u h = tt
Chain-AllFit c k (s ∷ ss) (ps ∷ pss) u (base, conf, hs, h) =
    (IsSegment-Fits k c s ps u hs base conf, Chain-AllFit c (k + length ps) ss pss u h)

AllOnDisk-same :
    (d d' : Dir) (k : ℕ) (pss : List Payloads)
    → AllOnDisk d k pss
    → d'.present ≡ true
    → ((name : Text) → bytes_of name d' ≡ bytes_of name d)
    → AllOnDisk d' k pss
AllOnDisk-same d d' k [] h there same = tt
AllOnDisk-same d d' k (ps ∷ pss) (on, h) there same = (
  OnDisk-SameAt d d' k ps on there (same (store_name k), same (index_name k)),
  AllOnDisk-same d d' (k + length ps) pss h there same,
)

module _ ⦃g : Gommap⦄ where
  -- The log after the segments from `k` on were opened behind those that it had.
  record Opened (k : ℕ) (pss : List Payloads) (bs : List ℕ) (l : Log) : Type 0 where
    segments : List Segment
    dir : Dir
    runs :
        open_all (twice (starts k pss)) l
        ≡ (ok tt, record l { dir = dir; segments = l.segments ++ segments })
    chained : Chain l.config k segments pss
    filed : IsFiled dir bs
    still_there : dir.present ≡ true
    same : (name : Text) → bytes_of name dir ≡ bytes_of name l.dir

  opens :
      (k : ℕ) (pss : List Payloads) (bs : List ℕ) (l : Log)
      → AllOnDisk l.dir k pss
      → AllFit l.config k pss
      → IsFiled l.dir bs
      → HasBoth l.dir (starts k pss)
      → l.dir.present ≡ true
      → Opened k pss bs l
  unfolding open_all new_segment
  opens k [] bs l on fit f has there = record {
    segments = [];
    dir = l.dir;
    runs = rw (append-nil l.segments);
    chained = tt;
    filed = f;
    still_there = there;
    same = λ name. refl;
  }
  opens k (ps ∷ pss) bs l (on, on_rest) (fit, fit_rest) f has there =
      let (s, d', e, hs, base, conf, there', same, path) =
        new_segment_lem k l.config ps l.dir on fit in
      let next = record l { dir = d'; segments = l.segments ++ (s ∷ []) } in
      let rest =
        opens (k + length ps) pss bs next
          (AllOnDisk-same l.dir d' (k + length ps) pss on_rest there' same) fit_rest
          (rw path (IsFiled-touched k l.dir bs f has.0 has.1))
          (rw path (HasBoth-touched k l.dir _ has.2)) there' in
      record {
        segments = s ∷ rest.segments;
        dir = rest.dir;
        runs = rw (e, rest.runs, append_assoc l.segments (s ∷ []) rest.segments);
        chained = (base, conf, hs, rest.chained);
        filed = rest.filed;
        still_there = rest.still_there;
        same = λ name. rest.same name ∙ same name;
      }

  -- The log that NewLog starts from.
  abbrev unopened : Dir → Config → Log
  unopened d c = record { dir = d; config = c; segments = [] }

  pub with_defaults-usable : (c : Config) → IsUsable c → with_defaults c ≡ c
  with_defaults-usable c u = rw (
    ne→== c.max_store_bytes 0 (λ e. omega (arith, e, u.some_store)),
    ne→== c.max_index_bytes 0 (λ e. omega (arith, e, u.one_entry)),
  )

  with_defaults_twice : (c : Config) → with_defaults (with_defaults c) ≡ with_defaults c
  with_defaults_twice c = elim (Bool-cases (c.max_store_bytes == 0)) [
    | inl a ↦ elim (Bool-cases (c.max_index_bytes == 0)) [
      | inl b ↦ rw (a, b) refl
      | inr b ↦ rw (a, b) (rw b refl)
    ]
    | inr a ↦ elim (Bool-cases (c.max_index_bytes == 0)) [
      | inl b ↦ rw (a, b) (rw a refl)
      | inr b ↦ rw (a, b) (rw (a, b) refl)
    ]
  ]

  -- A size that is not set is the default one.
  pub new_log-with_defaults : (d : Dir) (c : Config) → new_log d (with_defaults c) ≡ new_log d c
  unfolding new_log
  new_log-with_defaults d c =
      ap (λ c. setup (record { dir = d; config = c; segments = [] })) (with_defaults_twice c)

  Chain-some :
      (c : Config) (k : ℕ) (ss : List Segment) (pss : List Payloads)
      → Chain c k ss pss
      → pss ≢ []
      → is_empty ss ≡ false
  Chain-some c k [] [] h ne = absurd (ne refl)
  Chain-some c k [] (ps ∷ pss) h ne = absurd h
  Chain-some c k (s ∷ ss) pss h ne = refl

  pub read_dir-present :
      (d : Dir) → d.present ≡ true → read_dir d ≡ (ok (map (λ f. f.0) d.files), d)
  unfolding read_dir
  read_dir-present d there = rw there

  new_log_lem :
      (k : ℕ) (pss : List Payloads) (d : Dir) (c : Config)
      → IsUsable c
      → pss ≢ []
      → IsFiled d (starts k pss)
      → d.present ≡ true
      → (o : Opened k pss (starts k pss) (unopened d c))
      → new_log d c ≡ (ok tt, record { dir = o.dir; config = c; segments = o.segments })
  unfolding new_log setup
  new_log_lem k pss d c u ne f there o = rw (
    with_defaults-usable c u,
    read_dir-present d there,
    f.listed,
    o.runs,
    Chain-some c k o.segments pss o.chained ne,
  )

  -- Closing a log leaves a directory on which NewLog, under the configuration that the log had, gives
  -- the log back: the same records at the same offsets, in the same segments.
  pub reopen_log :
      (l : Log) (k : ℕ) (pss : List Payloads)
      → IsDurable l k pss
      → (l' : Log) × (l'' : Log) × (close l ≡ (ok tt, l'))
        × (new_log l'.dir l.config ≡ (ok tt, l''))
        × IsDurable l'' k pss
        × (l''.config ≡ l.config)
  unfolding close
  reopen_log l k pss h =
      let usable = h.holds.usable in
      let shut =
        closes l.config k pss (starts k pss) l.segments l.dir h.holds.chain h.filled h.filed
          h.filed.has h.holds.present in
      let o =
        opens k pss (starts k pss) (unopened shut.dir l.config) shut.on_disk
          (Chain-AllFit l.config k l.segments pss usable h.holds.chain) shut.filed shut.filed.has
          shut.still_there in
      let some_records =
        payloads-ne-nil l.config k l.segments pss h.holds.chain h.holds.some_segment in
      (
        record l { segments = shut.segments; dir = shut.dir },
        record { dir = o.dir; config = l.config; segments = o.segments },
        rw shut.runs,
        new_log_lem k pss shut.dir l.config usable some_records shut.filed shut.still_there o,
        record {
          holds = record {
            usable = usable;
            chain = o.chained;
            some_segment = λ e. segments-ne-nil l.config k o.segments pss o.chained some_records e;
            present = o.still_there;
            free = λ b lo hi.
                let (x, y) = shut.behind b lo hi (h.holds.free b lo hi) in
                (o.same (store_name b) ∙ x, o.same (index_name b) ∙ y);
          };
          filed = o.filed;
          filled = h.filled;
        },
        refl,
      )
