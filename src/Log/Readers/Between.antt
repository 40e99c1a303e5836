-- ===== src/Log/Readers/Between.antt =====
-- The records of a log through an Append and the reads between its steps.
use dislog.Prelude.{
  panic-ne-ok, ℕ, ◌+◌, ◌-◌, ◌^◌, ◌<◌, List, [], ◌∷◌, ◌++◌, Bool, true, false, ◌≡◌, refl, sym, ap,
  ◌∙◌, length, append-nil, ok, map,
}
use dislog.Api.{Record, Proto}
use dislog.Index.{Gommap}
use dislog.Segment
use dislog.Segment.{Segment, Config}
use dislog.Segment.Layout.{frames}
use dislog.Segment.Bounds.{is_full, is_maxed_lem}
use dislog.Log.{Log, active, append, read}
use dislog.Log.Chain.{Payloads, concat, concat_snoc, Chain, IsLog, active_lem}
use dislog.Log.Growing.{Small, active-Grows}
use dislog.Log.Append.{grown_log, log_append}
use dislog.Log.Rollover.{highest_lem, rollover, maxed_next}
use dislog.Log.Readers.{
  append_check, append_roll, append_write, append_among, roll_after, write_after, reads,
}

-- Whether the last list of records fills its segment.
last_full : Config → List Payloads → Bool
last_full c [] = false
last_full c (ps ∷ []) = is_full c (length (frames ps)) (length ps)
last_full c (ps ∷ qs ∷ pss) = last_full c (qs ∷ pss)

active_full :
    (c : Config) (k : ℕ) (ss : List Segment) (pss : List Payloads) (a : Segment)
    → Chain c k ss pss
    → active ss ≡ ok a
    → Segment.is_maxed a ≡ last_full c pss
unfolding active last_full
active_full c k [] pss a h e = absurd (panic-ne-ok e)
active_full c k (s ∷ []) [] a h e = absurd h
active_full c k (s ∷ []) (ps ∷ qs ∷ pss) a h e = absurd h.3
active_full c k (s ∷ []) (ps ∷ []) a h e =
    let same : s ≡ a = cc in
    rw (← same)
      (is_maxed_lem h.2 ∙ ap (λ (c : Config). is_full c (length (frames ps)) (length ps)) h.1)
active_full c k (s ∷ t ∷ rest) [] a h e = absurd h
active_full c k (s ∷ t ∷ rest) (ps ∷ []) a h e = absurd h.3
active_full c k (s ∷ t ∷ rest) (ps ∷ qs ∷ pss) a h e =
    active_full c (k + length ps) (t ∷ rest) (qs ∷ pss) a h.3 e

module _ ⦃p : Proto⦄ ⦃g : Gommap⦄ (r : Record) (b : List ℕ) (n k : ℕ) where
  -- The first step finds the number before the next one, and whether the last segment is full.
  checked :
      (l : Log) (pss : List Payloads)
      → IsLog l k pss
      → n ≡ k + length (concat pss)
      → append_check l ≡ (ok (n - 1, last_full l.config pss), l)
  unfolding append_check
  checked l pss h at =
      let (a, e, is) = active_lem l.config k l.segments pss h.chain h.some_segment in
      rw (highest_lem l a n e (is.ends ∙ sym at), e)
        (rw (active_full l.config k l.segments pss a h.chain e) refl)

  -- The last step, where the last segment has room
  record Written (l : Log) (pss : List Payloads) : Type 0 where
    log : Log
    payloads : List Payloads
    runs : append_write r l ≡ (ok n, log)
    holds : IsLog log k payloads
    grown : concat payloads ≡ concat pss ++ (b ∷ [])

  written :
      (l : Log) (pss : List Payloads)
      → IsLog l k pss
      → n ≡ k + length (concat pss)
      → Small l.config n b
      → p.marshal (record r { offset = n }) ≡ ok b
      → last_full l.config pss ≡ false
      → Written l pss
  unfolding append_write
  written l pss h at small enc room =
      let (a, e, is) = active_lem l.config k l.segments pss h.chain h.some_segment in
      let g =
        active-Grows r b l.config n h.usable small enc k l.segments pss h.chain e
          (active_full l.config k l.segments pss a h.chain e ∙ room) at in
      record {
        log = record l { segments = g.segments };
        payloads = g.payloads;
        runs = rw g.runs refl;
        holds = grown_log r b n k l pss h at g;
        grown = g.grown;
      }

  -- The second step, for the log as it then is
  record Rolling (l : Log) (pss : List Payloads) (full : Bool) : Type 0 where
    log : Log
    payloads : List Payloads
    runs : append_roll (n - 1, full) l ≡ (ok tt, log)
    holds : IsLog log k payloads
    same : concat payloads ≡ concat pss
    room : last_full log.config payloads ≡ false
    same_config : log.config ≡ l.config

  rolls :
      (full : Bool) (l : Log) (pss : List Payloads)
      → IsLog l k pss
      → n ≡ k + length (concat pss)
      → n + 1 < 2 ^ 63
      → last_full l.config pss ≡ full
      → Rolling l pss full
  unfolding append_roll
  rolls false l pss h at small e = record {
    log = l;
    payloads = pss;
    runs = refl;
    holds = h;
    same = refl;
    room = e;
    same_config = refl;
  }
  rolls true l pss h at small e =
      let (a, ea, is) = active_lem l.config k l.segments pss h.chain h.some_segment in
      let full = active_full l.config k l.segments pss a h.chain ea ∙ e in
      let next = maxed_next n k l pss h at small a ea is full in
      let roll = rollover n k l pss h at small in
      record {
        log = roll.log;
        payloads = pss ++ ([] ∷ []);
        runs = rw next (rw roll.runs refl);
        holds = roll.holds;
        same = concat_snoc pss [] ∙ append-nil (concat pss);
        room =
            sym (
              active_full roll.log.config k roll.log.segments (pss ++ ([] ∷ [])) roll.segment
                roll.holds.chain roll.is_active)
            ∙ roll.has_room;
        same_config = roll.same_config;
      }

  -- An Append between whose steps other goroutines read: it answers the next offset, as it does alone, and
  -- the log then has the record behind the others; each read in between answers what it would have
  -- answered before the Append began, also where a new segment has been opened by then. The log is
  -- usable, protobuf encodes the record with that offset, and the record is small enough.
  pub append_among_lem :
      (early late : List ℕ) (l : Log) (pss : List Payloads)
      → IsLog l k pss
      → n ≡ k + length (concat pss)
      → Small l.config n b
      → p.marshal (record r { offset = n }) ≡ ok b
      → (l' : Log) × (qss : List Payloads) × (append_among r early late l
          ≡ (ok n, map (λ off. (read off l).0) early ++ map (λ off. (read off l).0) late, l'))
        × IsLog l' k qss
        × (concat qss ≡ concat pss ++ (b ∷ []))
        × ((append r l).0 ≡ ok n)
  unfolding append_among roll_after write_after
  append_among_lem early late l pss h at small enc =
      let (l2, e2, h2, conf2) = reads early k l l pss pss h h refl in
      let y =
        rolls (last_full l.config pss) l2 pss h2 at small.offset_fits
          (ap (λ c. last_full c pss) conf2) in
      let (l4, e4, h4, conf4) = reads late k l y.log pss y.payloads h y.holds y.same in
      let conf : l4.config ≡ l.config = conf4 ∙ y.same_config ∙ conf2 in
      let z =
        written l4 y.payloads h4 (at ∙ ap (λ ps. k + length ps) (sym y.same)) (rw conf small) enc
          (ap (λ c. last_full c y.payloads) conf4 ∙ y.room) in
      (
        z.log,
        z.payloads,
        rw (checked l pss h at) (rw e2 (rw y.runs (rw e4 (rw z.runs refl)))),
        z.holds,
        z.grown ∙ ap (λ t. t ++ (b ∷ [])) y.same,
        ap (λ x. x.0) (log_append r b n k l pss h at small enc).runs,
      )
