-- ===== src/Log/Abandoned/Losing.antt =====
-- The reads and the Append of a log that was not closed, before and after NewLog.
use dislog.Prelude.{
  ℕ, ◌+◌, ◌-◌, ◌*◌, ◌/◌, ◌≤◌, List, [], ◌∷◌, ◌++◌, ◌≡◌, refl, ap, ◌∙◌, arith, length, ok, err,
  offset_out_of_range, add64,
}
use dislog.Api.{Record, Proto}
use dislog.Index.{Gommap}
use dislog.Dir.{Dir}
use dislog.Segment
use dislog.Segment.{Segment, Config}
use dislog.Segment.Layout.{IsSegment}
use dislog.Segment.Bounds.{empty_not_maxed}
use dislog.Segment.Reopen.{new_segment_lem}
use dislog.Segment.Abandoned.{leave_open, found}
use dislog.Log.{Log, behind, new_log, append, read, read_in, new_segment, on_active}
use dislog.Log.Chain.{Payloads, IsUsable, active_snoc}
use dislog.Log.Growing.{Small, active-Grows}
use dislog.Log.Rollover.{highest_lem, empty-OnDisk, empty-Fits}
use dislog.Log.Read.{log_read}
use dislog.Log.Reopening.{IsDurable}
use dislog.Log.Abandoned.{
  abandon, abandon_one, only_segment, filed-IsFree, Reopened, reopens, with_found,
}

module _ ⦃g : Gommap⦄ where
  runs_new_segment :
      (n : ℕ) (l : Log) (t : Segment) (d : Dir)
      → Segment.new_segment n l.config l.dir ≡ (ok t, d)
      → new_segment n l ≡ (ok tt, record l { dir = d; segments = l.segments ++ (t ∷ []) })
  unfolding new_segment
  runs_new_segment n l t d e = rw e refl

  module _ ⦃p : Proto⦄ where
    -- It is not read behind its first record.
    read_found :
        (off : ℕ) (d : Dir) (c : Config) (s : Segment)
        → s.base_offset + 1 ≤ off
        → read off (with_found d c s) ≡ (err (offset_out_of_range off), with_found d c s)
    unfolding read read_in
    read_found off d c s lo = ground (arith, lo)

    on_active_behind :
        (r : Record) (n : ℕ) (s t : Segment) (ss : List Segment)
        → on_active (Segment.append r) (t ∷ []) ≡ (ok n, ss)
        → on_active (Segment.append r) (s ∷ t ∷ []) ≡ (ok n, s ∷ ss)
    unfolding on_active behind
    on_active_behind r n s t ss h = ap (behind s) h

    module _ (r : Record) (b : List ℕ) (l : Log) (s : Segment) (o : Reopened l s)
        (u : IsUsable l.config) (small : Small l.config (s.base_offset + 1) b)
        (enc : p.marshal (record r { offset = s.base_offset + 1 }) ≡ ok b) where
      -- The Append, with the segment that it opens.
      append_behind :
          (t : Segment) (d : Dir)
          → Segment.new_segment (s.base_offset + 1) l.config o.dir ≡ (ok t, d)
          → IsSegment t []
          → t.base_offset ≡ s.base_offset + 1
          → t.config ≡ l.config
          → (l' : Log) × (append r (with_found o.dir l.config s) ≡ (ok (s.base_offset + 1), l'))
      unfolding append
      append_behind t d e ht base conf =
          let n : ℕ = s.base_offset + 1 in
          let roomy =
            empty_not_maxed ht
              (omega (arith, u.one_entry, ap (λ (c : Config). c.max_index_bytes) conf))
              (omega (arith, u.some_store, ap (λ (c : Config). c.max_store_bytes) conf)) in
          let g =
            active-Grows r b l.config n u small enc n (t ∷ []) ([] ∷ []) (base, conf, ht, tt)
              (active_snoc [] t) roomy (omega arith) in
          let next : add64 (n - 1) 1 ≡ n = omega (arith, small.offset_fits) in
          let here = active_snoc [] (found s) in
          let rolled = runs_new_segment n (with_found o.dir l.config s) t d e in
          let grown = on_active_behind r n (found s) t g.segments g.runs in
          (
            record { dir = d; config = l.config; segments = found s ∷ g.segments },
            rw (highest_lem (with_found o.dir l.config s) (found s) n here refl, here)
                (rw (o.maxed, next) (rw rolled (rw grown refl))),
          )

      -- The next Append opens a segment behind the first record.
      append_found :
          (l' : Log) × (append r (with_found o.dir l.config s) ≡ (ok (s.base_offset + 1), l'))
      append_found =
          let n : ℕ = s.base_offset + 1 in
          let free = filed-IsFree s.base_offset o.dir o.filed in
          let (t, d, e, ht, base, conf, _, _, _) =
            new_segment_lem n l.config [] o.dir
              (empty-OnDisk o.dir n o.present free (omega (arith, small.offset_fits)))
              (empty-Fits l.config n u small.offset_fits) in
          append_behind t d e ht base conf

    single_loses :
        (l : Log) (off : ℕ) (s : Segment) (r : Record) (b : List ℕ)
        → Reopened l s
        → IsUsable l.config
        → s.base_offset + 1 ≤ off
        → Small l.config (s.base_offset + 1) b
        → p.marshal (record r { offset = s.base_offset + 1 }) ≡ ok b
        → (l' : Log) × (l'' : Log) × (new_log (leave_open s l.dir) l.config ≡ (ok tt, l'))
          × (read off l' ≡ (err (offset_out_of_range off), l'))
          × (append r l' ≡ (ok (s.base_offset + 1), l''))
    single_loses l off s r b o u lo small enc =
        let (l'', e) = append_found r b l s o u small enc in
        (with_found o.dir l.config s, l'', o.runs, read_found off o.dir l.config s lo, e)

    -- A log of a single segment, with two records or more and room for another entry in its index, ends
    -- without being closed. Before, the second record was read from its offset `k + 1`; NewLog succeeds on
    -- the files as the process left them, but its log answers every read from `k + 1` on with an offset
    -- out of range, and the next Append answers `k + 1`, which the second record had. The configuration is
    -- that of the log, and the appended record can be encoded and is small enough.
    pub abandon-loses :
        (l : Log) (k off : ℕ) (b0 b1 : List ℕ) (rest : Payloads) (r : Record) (b : List ℕ)
        → IsDurable l k ((b0 ∷ b1 ∷ rest) ∷ [])
        → 12 * length rest + 36 ≤ l.config.max_index_bytes / 12 * 12
        → k + 1 ≤ off
        → Small l.config (k + 1) b
        → p.marshal (record r { offset = k + 1 }) ≡ ok b
        → ((read (k + 1) l).0 ≡ p.unmarshal b1)
          × (l' : Log) × (l'' : Log) × (new_log (abandon l.segments l.dir) l.config ≡ (ok tt, l'))
          × (read off l' ≡ (err (offset_out_of_range off), l'))
          × (append r l' ≡ (ok (k + 1), l''))
    abandon-loses l k off b0 b1 rest r b h room lo small enc =
        let (s, one, base, conf, hs) =
          only_segment l.config k l.segments (b0 ∷ b1 ∷ rest) h.holds.chain in
        let o =
          reopens l s (b0 ∷ b1 ∷ rest) h.holds.usable hs conf (rw base h.filed) h.holds.present
            (omega (arith, room)) in
        let (_, before, _) =
          log_read (k + 1) k l ((b0 ∷ b1 ∷ rest) ∷ []) (b0 ∷ []) (rest ++ []) b1 h.holds refl
            (omega arith) in
        let (l', l'', e, e', e'') =
          single_loses l off s r b o h.holds.usable (omega (arith, base, lo)) (rw base small)
            (rw base enc) in
        let left : abandon l.segments l.dir ≡ leave_open s l.dir =
          ap (λ ss. abandon ss l.dir) one ∙ abandon_one s l.dir in
        (
          ap (λ x. x.0) before,
          l',
          l'',
          ap (λ d. new_log d l.config) left ∙ e,
          e',
          e'' ∙ ap (λ (n : ℕ). (ok (n + 1), l'')) base,
        )
