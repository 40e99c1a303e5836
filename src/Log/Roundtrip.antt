-- ===== src/Log/Roundtrip.antt =====
-- Append and Read of a log together.
use dislog.Prelude.{
  ◌≢◌, Bool-cases, inl, inr, ltb, length-append, zero, suc, ℕ, ◌+◌, ◌-◌, ◌<◌, ◌≤◌, List, [], ◌∷◌,
  ◌++◌, ◌≡◌, refl, sym, ap, ◌∙◌, arith, length, ok, append_assoc,
}
use dislog.Api.{Record, Proto}
use dislog.Index.{Gommap}
use dislog.Log.{Log, append, read}
use dislog.Log.Chain.{Payloads, concat, IsLog}
use dislog.Log.Growing.{Small}
use dislog.Log.Append.{log_append}
use dislog.Log.Read.{log_read, read_out_of_range}

-- A list split at the element `i`.
pub record Split (ps : Payloads) (i : ℕ) : Type 0 where
  pub front : Payloads
  pub elem : List ℕ
  pub back : Payloads
  pub whole : ps ≡ front ++ (elem ∷ back)
  pub count : length front ≡ i

pub split : (ps : Payloads) (i : ℕ) → i < length ps → Split ps i
split [] i h = elim h [ ]
split (x ∷ ps) zero h = record { front = []; elem = x; back = ps; whole = refl; count = refl }
split (x ∷ ps) (suc i) h =
    let s = split ps i (omega arith) in
    record {
      front = x ∷ s.front;
      elem = s.elem;
      back = s.back;
      whole = ap (λ t. x ∷ t) s.whole;
      count = ap suc s.count;
    }

module _ ⦃p : Proto⦄ ⦃g : Gommap⦄ where
  -- Two logs that hold `pss` and that with one more record answer the same at every other offset.
  reads_same :
      (off n k : ℕ) (l l' : Log) (pss pss' : List Payloads) (b : List ℕ)
      → IsLog l k pss
      → IsLog l' k pss'
      → concat pss' ≡ concat pss ++ (b ∷ [])
      → n ≡ k + length (concat pss)
      → off ≢ n
      → (read off l').0 ≡ (read off l).0
  reads_same off n k l l' pss pss' b h h' grown at ne = elim (Bool-cases (ltb off k)) [
    | inl low ↦
        let below : off < k = ground (arith, low) in
        rw (
          read_out_of_range off k l pss h (inl below),
          read_out_of_range off k l' pss' h' (inl below),
        )
    | inr low ↦ elim (Bool-cases (ltb off n)) [
      | inl high ↦
          let s = split (concat pss) (off - k) (ground (arith, low, high, at)) in
          let here : off ≡ k + length s.front = ground (arith, low, s.count) in
          let placed : concat pss' ≡ s.front ++ (s.elem ∷ (s.back ++ (b ∷ []))) =
            grown
            ∙ ap (λ t. t ++ (b ∷ [])) s.whole
            ∙ append_assoc s.front (s.elem ∷ s.back) (b ∷ []) in
          ap (λ x. x.0) (log_read off k l' pss' s.front _ s.elem h' placed here).1
          ∙ sym (ap (λ x. x.0) (log_read off k l pss s.front s.back s.elem h s.whole here).1)
      | inr high ↦
          let past : k + length (concat pss) ≤ off = ground (arith, high, at) in
          let past' : k + length (concat pss') ≤ off =
            ground (arith, high, at, ne, ap length grown, length-append (concat pss) (b ∷ [])) in
          rw (
            read_out_of_range off k l pss h (inr past),
            read_out_of_range off k l' pss' h' (inr past'),
          )
    ]
  ]

  -- A record that was appended to a usable log is read back at the offset that Append answered, with
  -- that offset in it; every other offset is answered as it was before the Append.
  pub append_read :
      (r : Record) (b : List ℕ) (n k : ℕ) (l : Log) (pss : List Payloads) (off : ℕ)
      → IsLog l k pss
      → n ≡ k + length (concat pss)
      → Small l.config n b
      → p.marshal (record r { offset = n }) ≡ ok b
      → off ≢ n
      → (l' : Log) × (append r l ≡ (ok n, l'))
        × ((read n l').0 ≡ ok (record r { offset = n }))
        × ((read off l').0 ≡ (read off l).0)
  append_read r b n k l pss off h at small enc ne =
      let a = log_append r b n k l pss h at small enc in
      (
        a.log,
        a.runs,
        ap (λ x. x.0) (log_read n k a.log a.payloads (concat pss) [] b a.holds a.grown at).1
            ∙ p.unmarshal-marshal (record r { offset = n }) b enc,
        reads_same off n k l a.log pss a.payloads b h a.holds a.grown at ne,
      )
