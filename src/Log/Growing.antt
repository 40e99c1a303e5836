-- ===== src/Log/Growing.antt =====
-- segment.Append in the active segment of a log.
use dislog.Prelude.{
  ℕ, ◌+◌, ◌^◌, ◌≤◌, ◌<◌, List, [], ◌∷◌, ◌++◌, false, ◌≡◌, ◌≢◌, refl, sym, ap, ◌∙◌, arith, length,
  panic-ne-ok, cons-ne-nil, length-append, ok, append_assoc, append-nil,
}
use dislog.Api.{Record, Proto}
use dislog.Segment
use dislog.Segment.{Segment, Config}
use dislog.Segment.Append as SegmentAppend
use dislog.Segment.Bounds.{not_maxed-HasRoom, not_maxed_space}
use dislog.Segment.Layout.{frames}
use dislog.Log.{active, on_active}
use dislog.Log.Chain.{Payloads, concat, Chain, IsUsable, payloads-ne-nil}
use dislog.Log.Starts.{starts, Filled, Filled-cons, Filled-rest}
use dislog.Log.Limits.{Tight, Tight-grown}

-- The record fits: its bytes beside a full store, and its offset.
pub record Small (c : Config) (n : ℕ) (b : List ℕ) : Type 0 where
  pub bytes_fit : c.max_store_bytes + length b + 8 < 2 ^ 63
  pub offset_fits : n + 1 < 2 ^ 63

module _ ⦃p : Proto⦄ (r : Record) (b : List ℕ) (c : Config) (n : ℕ) where
  -- What an Append of `b` at the offset `n` makes of the segments.
  pub record Grows (k : ℕ) (ss : List Segment) (pss : List Payloads) : Type 0 where
    pub segments : List Segment
    pub payloads : List Payloads
    pub runs : on_active (Segment.append r) ss ≡ (ok n, segments)
    pub chained : Chain c k segments payloads
    pub grown : concat payloads ≡ concat pss ++ (b ∷ [])
    pub some_segment : segments ≢ []
    pub same_starts : starts k payloads ≡ starts k pss
    pub keeps_filled : Filled pss → Filled payloads
    pub keeps_tight : (w : ℕ) → length b ≤ w → Tight c w pss → Tight c w payloads

  -- Appending in the active segment, when that is not maxed.
  module _ (u : IsUsable c) (small : Small c n b)
      (enc : p.marshal (record r { offset = n }) ≡ ok b) where
    last-Grows :
        (k : ℕ) (s : Segment) (ps : Payloads)
        → Chain c k (s ∷ []) (ps ∷ [])
        → Segment.is_maxed s ≡ false
        → n ≡ k + length ps
        → Grows k (s ∷ []) (ps ∷ [])
    unfolding on_active
    last-Grows k s ps h m at =
        let next : s.next_offset ≡ n = omega (arith, h.2.counted, h.0, at) in
        let conf = h.1 in
        let below : length (frames ps) < c.max_store_bytes =
          omega (arith, (not_maxed_space h.2 m).1, ap (λ (c : Config). c.max_store_bytes) conf) in
        let room =
          not_maxed-HasRoom b h.2 m
            (omega (arith, u.index_small, ap (λ (c : Config). c.max_index_bytes) conf))
            (omega (arith, small.bytes_fit, ap (λ (c : Config). c.max_store_bytes) conf))
            (omega (arith, next, small.offset_fits)) in
        let (s', e', hs, base, _, conf') =
          SegmentAppend.segment_append r b h.2 room (rw next enc) in
        record {
          segments = s' ∷ [];
          payloads = (ps ++ (b ∷ [])) ∷ [];
          runs = rw e' (ap (λ n. (ok n, s' ∷ [])) next);
          chained = (base ∙ h.0, conf' ∙ conf, hs, tt);
          grown = rw (append-nil (ps ++ (b ∷ [])), append-nil ps) refl;
          some_segment = cons-ne-nil s' [];
          same_starts = refl;
          keeps_filled = λ f. tt;
          keeps_tight = λ w short f. Tight-grown c w ps b below short;
        }

    pub active-Grows :
        (k : ℕ) (ss : List Segment) (pss : List Payloads) {a : Segment}
        → Chain c k ss pss
        → active ss ≡ ok a
        → Segment.is_maxed a ≡ false
        → n ≡ k + length (concat pss)
        → Grows k ss pss
    unfolding active on_active
    active-Grows k [] pss h e m at = absurd (panic-ne-ok e)
    active-Grows k (s ∷ []) [] h e m at = absurd h
    active-Grows k (s ∷ []) (ps ∷ qs ∷ pss) h e m at = absurd h.3
    active-Grows k (s ∷ []) (ps ∷ []) {a} h e m at =
        last-Grows k s ps h (cc) (omega (arith, at, ap length (append-nil ps)))
    active-Grows k (s ∷ t ∷ rest) [] h e m at = absurd h
    active-Grows k (s ∷ t ∷ rest) (ps ∷ pss) {a} h e m at =
        let g =
          active-Grows (k + length ps) (t ∷ rest) pss h.3 e m
            (omega (arith, at, length-append ps (concat pss))) in
        record {
          segments = s ∷ g.segments;
          payloads = ps ∷ g.payloads;
          runs = rw (g.runs);
          chained = (h.0, h.1, h.2, g.chained);
          grown = ap (λ t. ps ++ t) g.grown ∙ sym (append_assoc ps (concat pss) (b ∷ []));
          some_segment = cons-ne-nil s g.segments;
          same_starts = ap (λ t. k ∷ t) g.same_starts;
          keeps_filled = λ f.
              Filled-cons ps pss g.payloads f
                (payloads-ne-nil c (k + length ps) (t ∷ rest) pss h.3 (cons-ne-nil t rest))
                (g.keeps_filled (Filled-rest ps pss f));
          keeps_tight = λ w short f. (f.0, g.keeps_tight w short f.1);
        }
