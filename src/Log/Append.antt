-- ===== src/Log/Append.antt =====
-- Log.Append: the record gets the next offset of the log, in the active segment or in a new one.
use dislog.Prelude.{
  ℕ, ◌+◌, ◌≤◌, List, [], ◌∷◌, ◌++◌, true, ◌≡◌, inl, inr, refl, sym, ap, ◌∙◌, arith, length,
  length-append, ok, append-nil, Bool-cases,
}
use dislog.Api.{Record, Proto}
use dislog.Index.{Gommap}
use dislog.Segment
use dislog.Segment.{Segment, Config}
use dislog.Log.{Log, active, append}
use dislog.Log.Chain.{Payloads, concat, concat_snoc, IsLog, IsActive, active_lem}
use dislog.Log.Starts.{starts, Filled}
use dislog.Log.Filed.{IsFiled}
use dislog.Log.Limits.{Tight, Tight-snoc}
use dislog.Log.Growing.{Small, Grows, active-Grows}
use dislog.Log.Rollover.{rollover, highest_lem, maxed_next, rolled_files}

module _ ⦃p : Proto⦄ ⦃g : Gommap⦄ (r : Record) (b : List ℕ) (n k : ℕ) where
  -- The log after an Append of `b`.
  pub record Appended (l : Log) (pss : List Payloads) : Type 0 where
    pub log : Log
    pub payloads : List Payloads
    pub runs : append r l ≡ (ok n, log)
    pub holds : IsLog log k payloads
    pub grown : concat payloads ≡ concat pss ++ (b ∷ [])
    pub same_config : log.config ≡ l.config
    pub keeps :
        IsFiled l.dir (starts k pss)
        → Filled pss
        → IsFiled log.dir (starts k payloads) × Filled payloads
    pub keeps_tight : (w : ℕ) → length b ≤ w → Tight l.config w pss → Tight l.config w payloads

  pub grown_log :
      (l : Log) (pss : List Payloads)
      → IsLog l k pss
      → n ≡ k + length (concat pss)
      → (g : Grows r b l.config n k l.segments pss)
      → IsLog (record l { segments = g.segments }) k g.payloads
  grown_log l pss h at g = record {
    usable = h.usable;
    chain = g.chained;
    some_segment = g.some_segment;
    present = h.present;
    free = λ x lo hi.
        h.free x (omega (arith, lo, ap length g.grown, length-append (concat pss) (b ∷ []))) hi;
  }

  append_maxed :
      (l : Log) (pss : List Payloads)
      → IsLog l k pss
      → n ≡ k + length (concat pss)
      → Small l.config n b
      → p.marshal (record r { offset = n }) ≡ ok b
      → (a : Segment) → active l.segments ≡ ok a
      → IsActive l.config (k + length (concat pss)) a
      → Segment.is_maxed a ≡ true
      → Appended l pss
  unfolding append
  append_maxed l pss h at small enc a e is m =
      let roll = rollover n k l pss h at small.offset_fits in
      let same : concat (pss ++ ([] ∷ [])) ≡ concat pss =
        concat_snoc pss [] ∙ append-nil (concat pss) in
      let at' : n ≡ k + length (concat (pss ++ ([] ∷ []))) = rw same at in
      let g =
        active-Grows r b roll.log.config n roll.holds.usable (rw roll.same_config small) enc k
          roll.log.segments (pss ++ ([] ∷ [])) roll.holds.chain roll.is_active roll.has_room at' in
      let next = maxed_next n k l pss h at small.offset_fits a e is m in
      record {
        log = record roll.log { segments = g.segments };
        payloads = g.payloads;
        runs =
            rw (highest_lem l a n e (is.ends ∙ sym at), e)
              (rw (m, next) (rw roll.runs (rw g.runs)));
        holds = grown_log roll.log (pss ++ ([] ∷ [])) roll.holds at' g;
        grown = g.grown ∙ ap (λ t. t ++ (b ∷ [])) same;
        same_config = roll.same_config;
        keeps = λ f full.
            let (f', full') = rolled_files n k l pss h at small.offset_fits a e is m f full in
            (rw (roll.path, g.same_starts) f', g.keeps_filled full');
        keeps_tight = λ w short f. rw roll.same_config at (
            g.keeps_tight w short
              (rw roll.same_config (Tight-snoc l.config w pss h.usable.some_store f)));
      }

  -- A usable log takes every record that can be encoded and is small enough: Append returns the
  -- offset behind the last one, and the log then holds the record behind the others, whether the
  -- active segment had room or a new one was opened.
  pub log_append :
      (l : Log) (pss : List Payloads)
      → IsLog l k pss
      → n ≡ k + length (concat pss)
      → Small l.config n b
      → p.marshal (record r { offset = n }) ≡ ok b
      → Appended l pss
  unfolding append
  log_append l pss h at small enc =
      let (a, e, is) = active_lem l.config k l.segments pss h.chain h.some_segment in
      let ends : a.next_offset ≡ n = is.ends ∙ sym at in
      elim (Bool-cases (Segment.is_maxed a)) [
        | inl m ↦ append_maxed l pss h at small enc a e is m
        | inr m ↦
            let g =
              active-Grows r b l.config n h.usable small enc k l.segments pss h.chain e m at in
            record {
              log = record l { segments = g.segments };
              payloads = g.payloads;
              runs = rw (highest_lem l a n e ends, e) (rw m (rw g.runs));
              holds = grown_log l pss h at g;
              grown = g.grown;
              same_config = refl;
              keeps = λ f full. (rw g.same_starts f, g.keeps_filled full);
              keeps_tight = λ w short f. g.keeps_tight w short f;
            }
      ]
