-- ===== src/Log/Surviving.antt =====
-- A log that was truncated can be closed and opened again.
use dislog.Prelude.{
  ℕ, ◌+◌, ◌^◌, ◌<◌, ◌≤◌, List, [], ◌∷◌, ◌++◌, true, false, ◌≡◌, refl, sym, ap, ◌∙◌, arith, length,
  length-append, Result, ok, err, panic, add64, leb, lt→leb, le→leb,
}
use dislog.Index.{Gommap}
use dislog.Dir.{Dir}
use dislog.Segment.{Segment, Config}
use dislog.Log.{Log, truncate, truncate_each, kept_one, removed_one, close, new_log}
use dislog.Log.Chain.{Payloads, concat, Chain}
use dislog.Log.Dropping.{removed, keeps}
use dislog.Log.Truncate.{truncate_lem, ends_in_range}
use dislog.Log.Starts.{starts, Filled, Filled-rest}
use dislog.Log.Filed.{IsFiled}
use dislog.Log.Unfiled.{Above, IsFiled-removed_both}
use dislog.Log.Reopening.{IsDurable, reopen_log}

starts-Above :
    (k m : ℕ) (pss : List Payloads)
    → k < m
    → m + length (concat pss) < 2 ^ 63
    → Above k (starts m pss)
starts-Above k m [] lo hi = tt
starts-Above k m (ps ∷ pss) lo hi =
    let len = length-append ps (concat pss) in
    (
      lo,
      omega (arith, hi),
      starts-Above k (m + length ps) pss (omega (arith, lo)) (omega (arith, hi, len)),
    )

some_first :
    (qs : Payloads) (front back : List Payloads) (ps : Payloads)
    → Filled (qs ∷ (front ++ (ps ∷ back)))
    → 0 < length qs
some_first qs [] back ps h = h.0
some_first qs (rs ∷ front) back ps h = h.0

Chain-in_range :
    (c : Config) (k : ℕ) (ss : List Segment) (ps : Payloads) (pss : List Payloads)
    → Chain c k ss (ps ∷ pss)
    → k + length (concat (ps ∷ pss)) < 2 ^ 63
Chain-in_range c k [] ps pss h = absurd h
Chain-in_range c k (s ∷ ss) ps [] h =
    omega (arith, h.0, h.2.counted, h.2.in_range, length-append ps [])
Chain-in_range c k (s ∷ ss) ps (qs ∷ pss) h =
    omega
      (arith, length-append ps (concat (qs ∷ pss)), Chain-in_range c (k + length ps) ss qs pss h.3)

dropping-Filled : (front rest : List Payloads) → Filled (front ++ rest) → Filled rest
dropping-Filled [] rest h = h
dropping-Filled (ps ∷ front) rest h = dropping-Filled front rest (Filled-rest ps (front ++ rest) h)

module _ ⦃g : Gommap⦄ (c : Config) (lowest n : ℕ) (ps : Payloads) (back : List Payloads)
    (below : n ≤ add64 lowest 1) (over : add64 lowest 1 < n + length ps) where
  -- The loop of Truncate leaves the files of the segments that it keeps.
  drops-IsFiled :
      (k : ℕ) (front : List Payloads) (ss : List Segment) (d : Dir)
      → Chain c k ss (front ++ (ps ∷ back))
      → n ≡ k + length (concat front)
      → k + length (concat (front ++ (ps ∷ back))) < 2 ^ 63
      → Filled (front ++ (ps ∷ back))
      → IsFiled d (starts k (front ++ (ps ∷ back)))
      → IsFiled (truncate_each lowest ss d).1.1 (starts n (ps ∷ back))
  unfolding truncate_each kept_one removed_one
  drops-IsFiled k [] [] d h at small full f = absurd h
  drops-IsFiled k (qs ∷ front) [] d h at small full f = absurd h
  drops-IsFiled k [] (s ∷ ss) d h at small full f =
      let kept : leb s.next_offset (add64 lowest 1) ≡ false =
        lt→leb s.next_offset (add64 lowest 1) (omega (arith, h.2.counted, h.0, over, at)) in
      let here : k ≡ n = omega (arith, at) in
      rw
        (
          truncate_each,
          kept,
          keeps c lowest (k + length ps) ss back d h.3 (omega (arith, over, at)),
        )
        (rw here at f)
  drops-IsFiled k (qs ∷ front) (s ∷ ss) d h at small full f =
      let (s', d1, e, r) = removed s qs d h.2 in
      let len = length-append qs (concat front) in
      let whole = length-append qs (concat (front ++ (ps ∷ back))) in
      let dropped : leb s.next_offset (add64 lowest 1) ≡ true =
        le→leb s.next_offset (add64 lowest 1) (omega (arith, h.0, h.2.counted, at, len, below)) in
      let (bt, bi, path) = r.path in
      let later = starts (k + length qs) (front ++ (ps ∷ back)) in
      let base : s.base_offset ≡ k = h.0 in
      let above : Above k later =
        starts-Above k (k + length qs) (front ++ (ps ∷ back))
          (omega (arith, some_first qs front back ps full)) (omega (arith, small, whole)) in
      let gone : IsFiled d1 later = rw path (
        IsFiled-removed_both s.base_offset (omega (arith, base, small)) later bt bi d
          (rw base above) (rw base f)) in
      rw (truncate_each, dropped, e)
        (drops-IsFiled (k + length qs) front ss d1 h.3 (omega (arith, at, len))
          (omega (arith, small, whole)) (Filled-rest qs (front ++ (ps ∷ back)) full) gone)

-- Truncate keeps the configuration, and its directory is the one that its loop leaves.
truncate-dir :
    ⦃g : Gommap⦄
    → (lowest : ℕ) (l : Log)
    → ((truncate lowest l).1.dir ≡ (truncate_each lowest l.segments l.dir).1.1)
      × ((truncate lowest l).1.config ≡ l.config)
unfolding truncate
truncate-dir lowest l = go (truncate_each lowest l.segments l.dir) refl
  where
    go :
        (x : Result (List Segment) × (List Segment × Dir))
        → truncate_each lowest l.segments l.dir ≡ x
        → ((truncate lowest l).1.dir ≡ (truncate_each lowest l.segments l.dir).1.1)
          × ((truncate lowest l).1.config ≡ l.config)
    go (ok kept, (ss, d)) e = (rw e, rw e)
    go (err x, (ss, d)) e = (rw e, rw e)
    go (panic, (ss, d)) e = (rw e, rw e)

module _ ⦃g : Gommap⦄ (lowest k : ℕ) (l : Log) (front back : List Payloads) (ps : Payloads)
    (h : IsDurable l k (front ++ (ps ∷ back))) (below : k + length (concat front) ≤ lowest + 1)
    (over : lowest + 1 < k + length (concat front) + length ps) where
  -- Where `lowest + 1` lies inside of a segment, Truncate keeps that segment and the later ones, and the
  -- files of just these; Close then succeeds, and NewLog on the directory that it leaves succeeds, and
  -- gives a log of these segments, with their records at their offsets: what was truncated is gone.
  pub truncate-reopens :
      (l1 l2 l3 : Log) × (truncate lowest l ≡ (ok tt, l1))
      × (close l1 ≡ (ok tt, l2))
      × (new_log l2.dir l.config ≡ (ok tt, l3))
      × IsDurable l3 (k + length (concat front)) (ps ∷ back)
  truncate-reopens =
      let n = k + length (concat front) in
      let (l1, runs, holds) = truncate_lem lowest k l front back ps h.holds below over in
      let small = ends_in_range l.config k l.segments front back ps h.holds.chain in
      let (at, conf) = truncate-dir lowest l in
      let same : (truncate lowest l).1 ≡ l1 = ap (λ y. y.1) runs in
      let filed =
        drops-IsFiled l.config lowest n ps back (omega (arith, below, over, small))
          (omega (arith, over, small)) k front l.segments l.dir h.holds.chain refl
          (in_range l.segments front h.holds.chain) h.filled h.filed in
      let dir : (truncate_each lowest l.segments l.dir).1.1 ≡ l1.dir =
        sym at ∙ ap (λ (x : Log). x.dir) same in
      let config : l1.config ≡ l.config = sym (ap (λ (x : Log). x.config) same) ∙ conf in
      let kept : IsDurable l1 n (ps ∷ back) = record {
        holds = holds;
        filed = rw dir at filed;
        filled = dropping-Filled front (ps ∷ back) h.filled;
      } in
      let (l2, l3, shut, opened, durable, _) = reopen_log l1 n (ps ∷ back) kept in
      (l1, l2, l3, runs, shut, rw config at opened, durable)
    where
      in_range :
          (ss : List Segment) (qss : List Payloads)
          → Chain l.config k ss (qss ++ (ps ∷ back))
          → k + length (concat (qss ++ (ps ∷ back))) < 2 ^ 63
      in_range ss [] c = Chain-in_range l.config k ss ps back c
      in_range ss (qs ∷ qss) c = Chain-in_range l.config k ss qs (qss ++ (ps ∷ back)) c
