-- ===== src/Log/Chain.antt =====
-- What a log holds: each segment goes on where the one before it ends, so that the log is one list of
-- records, numbered from the base offset of the first segment.
use dislog.Prelude.{
  ℕ, ◌+◌, ◌^◌, ◌≤◌, ◌<◌, List, [], ◌∷◌, ◌++◌, true, ◌≡◌, ◌≢◌, refl, sym, ap, ◌∙◌, arith, length,
  length-append, ok, append_assoc, append-nil, cons-ne-nil,
}
use dislog.Segment.{Segment, Config}
use dislog.Segment.Layout.{IsSegment}
use dislog.Dir.{Dir, store_name, index_name, bytes_of}
use dislog.Log.{Log, active}

-- The bytes of one segment's records, and those of all segments.
abbrev pub Payloads : Type 0
Payloads = List (List ℕ)

abbrev pub concat : List Payloads → Payloads
concat [] = []
concat (ps ∷ pss) = ps ++ concat pss

abbrev pub Chain : Config → ℕ → List Segment → List Payloads → Type 0
Chain c k [] [] = Unit
Chain c k [] (ps ∷ pss) = ⊥
Chain c k (s ∷ ss) [] = ⊥
Chain c k (s ∷ ss) (ps ∷ pss) =
    (s.base_offset ≡ k) × (s.config ≡ c) × IsSegment s ps × Chain c (k + length ps) ss pss

-- A configuration under which an empty segment has room for a record: an index of one entry at
-- least, and sizes that stay in range.
pub record IsUsable (c : Config) : Type 0 where
  pub one_entry : 12 ≤ c.max_index_bytes
  pub index_small : c.max_index_bytes < 2 ^ 34
  pub some_store : 0 < c.max_store_bytes
  pub store_small : c.max_store_bytes < 2 ^ 62

-- No file stands at or above the offset `n`.
abbrev pub IsFree : Dir → ℕ → Type 0
IsFree d n =
    (b : ℕ)
    → n ≤ b
    → b < 2 ^ 63
    → (bytes_of (store_name b) d ≡ []) × (bytes_of (index_name b) d ≡ [])

-- The log holds the records of `pss`, numbered from `k` on.
pub record IsLog (l : Log) (k : ℕ) (pss : List Payloads) : Type 0 where
  pub usable : IsUsable l.config
  pub chain : Chain l.config k l.segments pss
  pub some_segment : l.segments ≢ []
  pub present : l.dir.present ≡ true
  pub free : IsFree l.dir (k + length (concat pss))

pub concat_snoc :
    (pss : List Payloads) (ps : Payloads) → concat (pss ++ (ps ∷ [])) ≡ concat pss ++ ps
concat_snoc [] ps = append-nil ps
concat_snoc (qs ∷ pss) ps =
    ap (λ t. qs ++ t) (concat_snoc pss ps) ∙ sym (append_assoc qs (concat pss) ps)

-- The active segment, with its records: it ends where the log ends.
pub record IsActive (c : Config) (n : ℕ) (s : Segment) : Type 0 where
  pub records : Payloads
  pub holds : IsSegment s records
  pub under : s.config ≡ c
  pub ends : s.next_offset ≡ n

pub active_lem :
    (c : Config) (k : ℕ) (ss : List Segment) (pss : List Payloads)
    → Chain c k ss pss
    → ss ≢ []
    → (s : Segment) × (active ss ≡ ok s) × IsActive c (k + length (concat pss)) s
unfolding active
active_lem c k [] pss h ne = absurd (ne refl)
active_lem c k (s ∷ []) [] h ne = absurd h
active_lem c k (s ∷ []) (ps ∷ []) h ne = (
  s,
  refl,
  record {
    records = ps;
    holds = h.2;
    under = h.1;
    ends = omega (arith, h.2.counted, h.0, ap length (append-nil ps));
  },
)
active_lem c k (s ∷ []) (ps ∷ qs ∷ pss) h ne = absurd h.3
active_lem c k (s ∷ t ∷ rest) [] h ne = absurd h
active_lem c k (s ∷ t ∷ rest) (ps ∷ pss) h ne =
    let (a, e, is) = active_lem c (k + length ps) (t ∷ rest) pss h.3 (λ e. cc) in
    (
      a,
      e,
      record {
        records = is.records;
        holds = is.holds;
        under = is.under;
        ends = omega (arith, is.ends, length-append ps (concat pss));
      },
    )

-- A new empty segment at the end of the chain.
pub Chain-snoc :
    (c : Config) (k : ℕ) (ss : List Segment) (pss : List Payloads) {s : Segment}
    → Chain c k ss pss
    → IsSegment s []
    → s.base_offset ≡ k + length (concat pss)
    → s.config ≡ c
    → Chain c k (ss ++ (s ∷ [])) (pss ++ ([] ∷ []))
Chain-snoc c k [] [] h hs base conf = (base ∙ omega arith, conf, hs, tt)
Chain-snoc c k [] (ps ∷ pss) h hs base conf = absurd h
Chain-snoc c k (t ∷ ss) [] h hs base conf = absurd h
Chain-snoc c k (t ∷ ss) (ps ∷ pss) h hs base conf = (
  h.0,
  h.1,
  h.2,
  Chain-snoc c (k + length ps) ss pss h.3 hs (omega (arith, base, length-append ps (concat pss)))
      conf,
)

pub active_snoc : (ss : List Segment) (s : Segment) → active (ss ++ (s ∷ [])) ≡ ok s
unfolding active
active_snoc [] s = refl
active_snoc (t ∷ []) s = refl
active_snoc (t ∷ u ∷ rest) s = active_snoc (u ∷ rest) s

-- A chain has as many segments as it has lists of records.
pub payloads-ne-nil :
    (c : Config) (k : ℕ) (ss : List Segment) (pss : List Payloads)
    → Chain c k ss pss
    → ss ≢ []
    → pss ≢ []
payloads-ne-nil c k [] pss h ne e = ne refl
payloads-ne-nil c k (s ∷ ss) [] h ne e = h
payloads-ne-nil c k (s ∷ ss) (ps ∷ pss) h ne e = cons-ne-nil ps pss e

pub segments-ne-nil :
    (c : Config) (k : ℕ) (ss : List Segment) (pss : List Payloads)
    → Chain c k ss pss
    → pss ≢ []
    → ss ≢ []
segments-ne-nil c k ss [] h ne e = ne refl
segments-ne-nil c k [] (ps ∷ pss) h ne e = h
segments-ne-nil c k (s ∷ ss) (ps ∷ pss) h ne e = cons-ne-nil s ss e
