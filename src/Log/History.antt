-- ===== src/Log/History.antt =====
-- The life of a log: it is created on an empty directory, and is then appended to, read, closed and
-- opened again, in any order.
use dislog.Prelude.{
  ℕ, ◌+◌, ◌-◌, ◌^◌, ◌<◌, List, [], ◌∷◌, ◌++◌, ◌≡◌, inl, inr, refl, sym, ap, ◌∙◌, arith, length,
  Result, ok, err, Error, Bool-cases, ltb,
}
use dislog.Api.{Record, Proto}
use dislog.Index.{Gommap}
use dislog.Segment.{Config}
use dislog.Log.{Log, new_log, append, read, close}
use dislog.Log.Chain.{Payloads, concat, IsUsable, IsLog}
use dislog.Log.Limits.{AtMost, AtMost-init, Tight, Tight-empty}
use dislog.Log.Growing.{Small}
use dislog.Log.Append.{log_append}
use dislog.Log.Rejecting.{append-err_keeps}
use dislog.Log.Read.{log_read, read_out_of_range}
use dislog.Log.Roundtrip.{split}
use dislog.Log.Creating.{empty_dir, new_log_empty}
use dislog.Log.Reopening.{IsDurable, reopen_log}
use dislog.Log.Records.{Encodes, Encodes-length, Encodes-snoc}

module _ ⦃p : Proto⦄ ⦃g : Gommap⦄ (c : Config) where
  -- The logs that the calls can lead to, each with the records that were appended so far, under
  -- the offsets that they got.
  pub data History : Log → List Record → Type 0 where
    created : {l : Log} → new_log empty_dir c ≡ (ok tt, l) → History l []
    appended :
        {l l' : Log} {rs : List Record} (r : Record) (b : List ℕ) (n off : ℕ)
        → History l rs
        → n ≡ c.initial_offset + length rs
        → Small c n b
        → p.marshal (record r { offset = n }) ≡ ok b
        → append r l ≡ (ok off, l')
        → History l' (rs ++ (record r { offset = n } ∷ []))
    refused :
        {l l' : Log} {rs : List Record} (r : Record) (e e' : Error) (n : ℕ)
        → History l rs
        → n ≡ c.initial_offset + length rs
        → n + 1 < 2 ^ 63
        → p.marshal (record r { offset = n }) ≡ err e
        → append r l ≡ (err e', l')
        → History l' rs
    was_read :
        {l l' : Log} {rs : List Record} (off : ℕ) (x : Result Record)
        → History l rs
        → read off l ≡ (x, l')
        → History l' rs
    reopened :
        {l l' l'' : Log} {rs : List Record}
        → History l rs
        → close l ≡ (ok tt, l')
        → new_log l'.dir l.config ≡ (ok tt, l'')
        → History l'' rs

  pub read-config : (off : ℕ) (l : Log) → (read off l).1.config ≡ l.config
  unfolding read
  read-config off l = refl

  read-dir : (off : ℕ) (l : Log) → (read off l).1.dir ≡ l.dir
  unfolding read
  read-dir off l = refl

  pub read-IsLog :
      (off k : ℕ) (l : Log) (pss : List Payloads) → IsLog l k pss → IsLog (read off l).1 k pss
  read-IsLog off k l pss h = elim (Bool-cases (ltb off k)) [
    | inl low ↦ rw (read_out_of_range off k l pss h (inl (ground (arith, low)))) h
    | inr low ↦ elim (Bool-cases (ltb off (k + length (concat pss)))) [
      | inl high ↦
          let s = split (concat pss) (off - k) (ground (arith, low, high)) in
          let (l', e, h') =
            log_read off k l pss s.front s.back s.elem h s.whole (ground (arith, low, s.count)) in
          rw (ap (λ y. y.1) e) h'
      | inr high ↦ rw (read_out_of_range off k l pss h (inr (ground (arith, high)))) h
    ]
  ]

  -- A read of any offset leaves the records and the files of the log.
  pub read-IsDurable :
      (off k : ℕ) (l : Log) (pss : List Payloads)
      → IsDurable l k pss
      → IsDurable (read off l).1 k pss
  read-IsDurable off k l pss d = record {
    holds = read-IsLog off k l pss d.holds;
    filed = rw (read-dir off l) d.filed;
    filled = d.filled;
  }

  -- The log holds the records `rs`, from the initial offset on.
  pub record Keeps (l : Log) (rs : List Record) : Type 0 where
    pub payloads : List Payloads
    pub durable : IsDurable l c.initial_offset payloads
    pub all : Encodes rs (concat payloads)
    pub same_config : l.config ≡ c
    pub tight : (w : ℕ) → AtMost w (concat payloads) → Tight c w payloads

  module _ (u : IsUsable c) (small : c.initial_offset + 1 < 2 ^ 63) where
    Keeps-read :
        (l l' : Log) (rs : List Record) (off : ℕ) (x : Result Record)
        → Keeps l rs
        → read off l ≡ (x, l')
        → Keeps l' rs
    Keeps-read l l' rs off x h e =
        let after : (read off l).1 ≡ l' = ap (λ y. y.1) e in
        record {
          payloads = h.payloads;
          durable = rw (← after) (read-IsDurable off c.initial_offset l h.payloads h.durable);
          all = h.all;
          same_config = rw (← after) (read-config off l ∙ h.same_config);
          tight = h.tight;
        }

    -- Whatever appends, refused appends, reads, closings and reopenings a log has seen since NewLog made it
    -- on an empty directory, it holds the records that were appended, encoded in its segments, and its
    -- directory has the files of those; where no encoding has more than `w` bytes, the frames of each
    -- segment stay below MaxStoreBytes and the frame of such a record. The configuration is usable, with an initial offset below
    -- 2 ^ 63 - 1.
    pub History-Keeps : {l : Log} {rs : List Record} → History l rs → Keeps l rs
    History-Keeps (created {l} e) =
        let (l', e', d, conf) = new_log_empty c u small in
        let same : l' ≡ l = ap (λ y. y.1) (sym e' ∙ e) in
        rw (← same) (record {
          payloads = [] ∷ [];
          durable = d;
          all = tt;
          same_config = conf;
          tight = λ w f. Tight-empty c w u.some_store;
        })
    History-Keeps (appended {l} {l'} {rs} r b n off h at fits enc e) =
        let k = History-Keeps h in
        let a =
          log_append r b n c.initial_offset l k.payloads k.durable.holds
            (omega (arith, at, Encodes-length rs (concat k.payloads) k.all))
            (rw (k.same_config) fits) enc in
        let same : a.log ≡ l' = ap (λ y. y.1) (sym a.runs ∙ e) in
        let (f, full) = a.keeps k.durable.filed k.durable.filled in
        rw (← same) (record {
          payloads = a.payloads;
          durable = record { holds = a.holds; filed = f; filled = full };
          all =
              rw a.grown
                (Encodes-snoc rs (concat k.payloads) (record r { offset = n }) b k.all enc);
          same_config = a.same_config ∙ k.same_config;
          tight = λ w f.
              let (front, last) = AtMost-init w (concat k.payloads) b (rw a.grown at f) in
              rw k.same_config at (a.keeps_tight w last (rw k.same_config (k.tight w front)));
        })
    History-Keeps (refused {l} {l'} {rs} r x x' n h at fits bad e) =
        let k = History-Keeps h in
        let (m, pss, e', d, all, conf, limits) =
          append-err_keeps r x n bad c.initial_offset l k.payloads k.durable
            (omega (arith, at, Encodes-length rs (concat k.payloads) k.all)) fits in
        let same : m ≡ l' = ap (λ y. y.1) (sym e' ∙ e) in
        rw (← same) (record {
          payloads = pss;
          durable = d;
          all = rw all k.all;
          same_config = conf ∙ k.same_config;
          tight =
              λ w f. rw k.same_config at (limits w (rw k.same_config (k.tight w (rw all at f))));
        })
    History-Keeps (was_read {l} {l'} {rs} off x h e) = Keeps-read l l' rs off x (History-Keeps h) e
    History-Keeps (reopened {l} {l'} {l''} {rs} h e e') =
        let k = History-Keeps h in
        let (m, m', f, f', d, conf) = reopen_log l c.initial_offset k.payloads k.durable in
        let same : m ≡ l' = ap (λ y. y.1) (sym f ∙ e) in
        let moved : new_log m.dir l.config ≡ (ok tt, l'') = rw same e' in
        let same' : m' ≡ l'' = ap (λ y. y.1) (sym f' ∙ moved) in
        rw (← same') (record {
          payloads = k.payloads;
          durable = d;
          all = k.all;
          same_config = conf ∙ k.same_config;
          tight = k.tight;
        })
