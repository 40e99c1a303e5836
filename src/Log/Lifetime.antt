-- ===== src/Log/Lifetime.antt =====
-- What a log answers, whatever calls it has seen.
use dislog.Prelude.{
  ℕ, some, get_elem?, get_elem?-lt, sym, Bool-cases, inl, inr, ltb, leb, ◌-◌, ◌+◌, ◌^◌, ◌≤◌, ◌<◌,
  List, [], ◌∷◌, ◌++◌, ◌≡◌, ◌⊎◌, ap, ◌∙◌, arith, length, ok, err, offset_out_of_range,
}
use dislog.Api.{Record, Proto}
use dislog.Index.{Gommap}
use dislog.Segment.{Config}
use dislog.Log.{Log, new_log, append, read, close}
use dislog.Log.Chain.{concat, IsUsable}
use dislog.Log.Growing.{Small}
use dislog.Log.Append.{log_append}
use dislog.Log.Read.{log_read, read_out_of_range}
use dislog.Log.Reopening.{reopen_log}
use dislog.Log.Records.{Encodes-length, placed}
use dislog.Log.History.{History, appended, reopened, History-Keeps}

module _ ⦃p : Proto⦄ ⦃g : Gommap⦄ (c : Config) (u : IsUsable c)
    (small : c.initial_offset + 1 < 2 ^ 63) where
  -- Whatever appends, refused appends, reads, closings and reopenings a log has seen since NewLog made
  -- it on an empty directory, Read of the initial offset plus `i` answers the record that was appended
  -- as the i-th, with that offset in it. The configuration is usable, with an initial offset below
  -- 2 ^ 63 - 1; each appended record fitted, and protobuf refused the refused ones.
  pub history_reads :
      {l : Log} {rs : List Record}
      → History c l rs
      → (i : ℕ) (r : Record) → get_elem? rs i ≡ some r
      → (read (c.initial_offset + i) l).0 ≡ ok r
  history_reads {l} {rs} h i r e =
      let k = History-Keeps c u small h in
      let q = placed rs (concat k.payloads) i r k.all e in
      ap (λ y. y.0)
        (log_read (c.initial_offset + i) c.initial_offset l k.payloads q.front q.back q.bytes
          k.durable.holds q.whole (omega (arith, q.count))).1
      ∙ p.unmarshal-marshal r q.bytes q.encoded

  -- After the same calls, Read of an offset below the initial one or behind the last record answers
  -- that the offset is out of range, and changes nothing. The configuration is
  -- usable, with an initial offset below 2 ^ 63 - 1.
  pub history_past :
      {l : Log} {rs : List Record} (off : ℕ)
      → History c l rs
      → (off < c.initial_offset) ⊎ (c.initial_offset + length rs ≤ off)
      → read off l ≡ (err (offset_out_of_range off), l)
  history_past {l} {rs} off h out =
      let k = History-Keeps c u small h in
      let count = Encodes-length rs (concat k.payloads) k.all in
      read_out_of_range off c.initial_offset l k.payloads k.durable.holds (rw count at out)

  -- After the same calls, Append takes the next record, if protobuf can encode it and it is small enough:
  -- it answers the offset behind the last one, and the log has the record from then on. The configuration
  -- is usable, with an initial offset below 2 ^ 63 - 1.
  pub history_appends :
      {l : Log} {rs : List Record} (r : Record) (b : List ℕ) (n : ℕ)
      → History c l rs
      → n ≡ c.initial_offset + length rs
      → Small c n b
      → p.marshal (record r { offset = n }) ≡ ok b
      → (l' : Log) × (append r l ≡ (ok n, l')) × History c l' (rs ++ (record r { offset = n } ∷ []))
  history_appends {l} {rs} r b n h at fits enc =
      let k = History-Keeps c u small h in
      let a =
        log_append r b n c.initial_offset l k.payloads k.durable.holds
          (omega (arith, at, Encodes-length rs (concat k.payloads) k.all)) (rw (k.same_config) fits)
          enc in
      (a.log, a.runs, appended r b n n h at fits enc a.runs)

  -- Two logs with the same records answer every Read alike.
  history_same :
      {l l' : Log} {rs : List Record} (off : ℕ)
      → History c l rs
      → History c l' rs
      → (read off l').0 ≡ (read off l).0
  history_same {l} {l'} {rs} off h h' = elim (Bool-cases (ltb off c.initial_offset)) [
    | inl low ↦ outside (inl (ground (arith, low)))
    | inr low ↦ elim (Bool-cases (leb (c.initial_offset + length rs) off)) [
      | inl high ↦ outside (inr (ground (arith, high)))
      | inr high ↦
          let (r, e) = get_elem?-lt rs (off - c.initial_offset) (ground (arith, low, high)) in
          let at : c.initial_offset + (off - c.initial_offset) ≡ off = ground (arith, low) in
          let same =
            history_reads h' (off - c.initial_offset) r e
            ∙ sym (history_reads h (off - c.initial_offset) r e) in
          rw at at same
    ]
  ]
    where
      outside :
          (off < c.initial_offset) ⊎ (c.initial_offset + length rs ≤ off)
          → (read off l').0 ≡ (read off l).0
      outside out =
          ap (λ y. y.0) (history_past off h' out) ∙ sym (ap (λ y. y.0) (history_past off h out))

  -- After the same calls, Close succeeds, and NewLog on the directory that it leaves succeeds and gives
  -- a log that answers every Read, of any offset, as the log did before Close, and that has the same
  -- records. The configuration is usable, with an initial offset below 2 ^ 63 - 1.
  pub history_reopens :
      {l : Log} {rs : List Record}
      → History c l rs
      → (l' : Log) × (l'' : Log) × (close l ≡ (ok tt, l'))
        × (new_log l'.dir c ≡ (ok tt, l''))
        × ((off : ℕ) → (read off l'').0 ≡ (read off l).0)
        × History c l'' rs
  history_reopens {l} {rs} h =
      let k = History-Keeps c u small h in
      let (l', l'', e, e', d, conf) = reopen_log l c.initial_offset k.payloads k.durable in
      let h' = reopened h e e' in
      (l', l'', e, rw (← k.same_config) e', λ off. history_same off h h', h')
