-- ===== src/Cluster/LogStore.antt =====
-- The log that Raft keeps its entries in.
use dislog.Prelude.{
  arith, ℕ, ◌+◌, ◌%◌, List, ◌≡◌, length, ok, err, panic, sym, ap, ◌∙◌, Run-cases, done, failed,
  panicked,
}
use dislog.Api.{Record, Proto}
use dislog.Index.{Gommap}
use dislog.Log
use dislog.Log.{Log}
use dislog.Log.Chain.{Payloads, concat, IsLog}
use dislog.Log.Growing.{Small}
use dislog.Log.Roundtrip.{append_read}
use dislog.Cluster.{Entry, get_log, record_of, store_log, store_logs}

module _ ⦃p : Proto⦄ ⦃g : Gommap⦄ where
  stored :
      (e : Entry) (l l' : Log) (n : ℕ)
      → Log.append (record_of e) l ≡ (ok n, l')
      → store_log e l ≡ (ok tt, l')
  unfolding store_log store_logs
  stored e l l' n h = rw h

  gotten :
      (l : Log) (n : ℕ) (r : Record)
      → (Log.read n l).0 ≡ ok r
      → (get_log n l).0
        ≡ ok (record { data' = r.value; index = r.offset; term = r.term; kind = r.kind % 256 })
  unfolding get_log
  gotten l n r h = elim (Run-cases (Log.read n l)) [
    | done x m e ↦
        let same : ok x ≡ ok r = sym (ap (λ y. y.0) e) ∙ h in let new : x ≡ r = cc in rw (e, new)
    | failed x m e ↦ let same : err x ≡ ok r = sym (ap (λ y. y.0) e) ∙ h in cc
    | panicked m e ↦ let same : panic ≡ ok r = sym (ap (λ y. y.0) e) ∙ h in cc
  ]

  -- In a usable log that ends below `n`, an entry that is stored is got back at index `n`, under the
  -- index `n` whatever its own index was, with its data, its term and the low byte of its type.
  pub store_log-get_log :
      (e : Entry) (b : List ℕ) (n k : ℕ) (l : Log) (pss : List Payloads)
      → IsLog l k pss
      → n ≡ k + length (concat pss)
      → Small l.config n b
      → p.marshal (record (record_of e) { offset = n }) ≡ ok b
      → (l' : Log) × (store_log e l ≡ (ok tt, l'))
        × ((get_log n l').0
            ≡ ok (record { data' = e.data'; index = n; term = e.term; kind = e.kind % 256 }))
  store_log-get_log e b n k l pss h at small enc =
      let (l', runs, reads, _) =
        append_read (record_of e) b n k l pss (n + 1) h at small enc (λ e. omega (arith, e)) in
      (l', stored e l l' n runs, gotten l' n _ reads)
