-- ===== src/Log/Rejecting.antt =====
-- Log.Append of a record that protobuf cannot encode.
use dislog.Prelude.{
  ℕ, ◌+◌, ◌^◌, ◌<◌, List, [], ◌∷◌, ◌++◌, ◌≡◌, refl, sym, ap, ◌∙◌, length, append-nil, ok, err,
  Error, panic-ne-ok, Bool-cases, inl, inr,
}
use dislog.Api.{Record, Proto}
use dislog.Index.{Gommap}
use dislog.Segment
use dislog.Segment.{Segment, Config}
use dislog.Segment.Append.{append_malformed}
use dislog.Log.{Log, active, on_active, append}
use dislog.Log.Chain.{Payloads, concat, concat_snoc, active_lem}
use dislog.Log.Limits.{Tight, Tight-snoc}
use dislog.Log.Rollover.{rollover, highest_lem, maxed_next, rolled_files}
use dislog.Log.Reopening.{IsDurable}

module _ ⦃p : Proto⦄ (r : Record) (e : Error) (n : ℕ)
    (bad : p.marshal (record r { offset = n }) ≡ err e) where
  on_active_err :
      (ss : List Segment) (a : Segment)
      → active ss ≡ ok a
      → a.next_offset ≡ n
      → on_active (Segment.append r) ss ≡ (err e, ss)
  unfolding active on_active
  on_active_err [] a h at = absurd (panic-ne-ok h)
  on_active_err (s ∷ []) a h at =
      let same : s ≡ a = cc in
      let next : s.next_offset ≡ n = ap (λ (x : Segment). x.next_offset) same ∙ at in
      rw (append_malformed r e s (rw next bad))
  on_active_err (s ∷ t ∷ rest) a h at = rw (on_active_err (t ∷ rest) a h at)

  -- A record that protobuf cannot encode is refused with protobuf's error, and the log keeps its
  -- records; where the active segment was full, the next one has been opened all the same.
  pub append-err_keeps :
      ⦃g : Gommap⦄
      → (k : ℕ) (l : Log) (pss : List Payloads) → IsDurable l k pss
      → n ≡ k + length (concat pss)
      → n + 1 < 2 ^ 63
      → (l' : Log) × (pss' : List Payloads) × (append r l ≡ (err e, l'))
        × IsDurable l' k pss'
        × (concat pss' ≡ concat pss)
        × (l'.config ≡ l.config)
        × ((w : ℕ) → Tight l.config w pss → Tight l.config w pss')
  unfolding append
  append-err_keeps k l pss d at small =
      let h = d.holds in
      let (a, e', is) = active_lem l.config k l.segments pss h.chain h.some_segment in
      let ends : a.next_offset ≡ n = is.ends ∙ sym at in
      elim (Bool-cases (Segment.is_maxed a)) [
        | inr m ↦ (
          l,
          pss,
          rw (highest_lem l a n e' ends, e') (rw m (rw (on_active_err l.segments a e' ends))),
          d,
          refl,
          refl,
          λ w f. f,
        )
        | inl m ↦
            let roll = rollover n k l pss h at small in
            let same : concat (pss ++ ([] ∷ [])) ≡ concat pss =
              concat_snoc pss [] ∙ append-nil (concat pss) in
            let next = maxed_next n k l pss h at small a e' is m in
            let (filed, filled) = rolled_files n k l pss h at small a e' is m d.filed d.filled in
            let ends' = roll.next in
            (
              roll.log,
              pss ++ ([] ∷ []),
              rw (highest_lem l a n e' ends, e')
                  (rw (m, next)
                    (rw roll.runs
                      (rw (on_active_err roll.log.segments roll.segment roll.is_active ends')))),
              record { holds = roll.holds; filed = rw roll.path filed; filled = filled },
              same,
              roll.same_config,
              λ w f. Tight-snoc l.config w pss h.usable.some_store f,
            )
      ]
