-- ===== src/Grpc/Storing.antt =====
-- ProduceStream over the log on disk.
use dislog.Prelude.{
  ℕ, ◌+◌, ◌≤◌, ◌^◌, ◌<◌, List, [], ◌∷◌, ◌++◌, true, some, get_elem?, get_elem?-behind, String, ◌≡◌,
  refl, ◌∙◌, arith, length, length-append, append_assoc, append-nil, ok, err, Error,
}
use dislog.Api.{Record, Proto}
use dislog.Index.{Gommap}
use dislog.Segment.{Config}
use dislog.Log.{Log, append, read}
use dislog.Log.Chain.{IsUsable}
use dislog.Log.History.{History}
use dislog.Log.Lifetime.{history_appends, history_reads}
use dislog.Snapshot.Frames.{renumbered, Fits}
use dislog.Cluster.Replay.{get_elem?-renumbered}
use dislog.Grpc.{CommitLog, Enforcer, Client, produce_stream, produce_action, object_wildcard}
use dislog.Grpc.Streams.{Takes, acknowledged, produce_stream-Takes}

-- The log of internal/log behind the interface CommitLog
abbrev pub log_service : ⦃p : Proto⦄ → ⦃g : Gommap⦄ → CommitLog Log
log_service = record { append = append; read = read }

module _ ⦃p : Proto⦄ ⦃g : Gommap⦄ (c : Config) (u : IsUsable c)
    (small : c.initial_offset + 1 < 2 ^ 63) (enforce : Enforcer) (subject : String) where
  History-Takes :
      (requests : List Record) (l : Log) (rs : List Record) (n : ℕ)
      → History c l rs
      → n ≡ c.initial_offset + length rs
      → Fits c n requests
      → (l' : Log) × Takes log_service enforce subject n requests l l'
        × History c l' (rs ++ renumbered n requests)
  History-Takes [] l rs n h at fits = (l, refl, rw (append-nil rs) h)
  History-Takes (r ∷ requests) l rs n h at ((b, e, fit), fits) =
      let (m, runs, h') = history_appends c u small r b n h at fit e in
      let (l', takes, h'') =
        History-Takes requests m (rs ++ (record r { offset = n } ∷ [])) (n + 1) h'
          (omega (arith, at, length-append rs (record r { offset = n } ∷ []))) fits in
      (
        l',
        (m, runs, takes),
        rw (append_assoc rs (record r { offset = n } ∷ []) (renumbered (n + 1) requests)) at h'',
      )

  -- A ProduceStream, of a subject that the policy allows to produce, over a log that has seen appends,
  -- refused appends, reads, closings and reopenings only: it appends every request, answers their offsets
  -- one by one from the end of the log on, and ends with the error that Recv gives when the requests are
  -- over. The i-th request is then read at the i-th of these offsets, and the log has all of them behind
  -- its records. The client can be sent that many answers, protobuf can encode the requests and they are
  -- small enough for the log, and the configuration is usable, with an initial offset below 2 ^ 63 - 1.
  pub produce_stream_lem :
      (requests : List Record) (end_error : Error) (l : Log) (rs : List Record) (n : ℕ)
      (client : Client ℕ) (i : ℕ) (r : Record)
      → History c l rs
      → n ≡ c.initial_offset + length rs
      → Fits c n requests
      → enforce subject object_wildcard produce_action ≡ true
      → length requests ≤ client.reachable
      → get_elem? requests i ≡ some r
      → (l' : Log) × (produce_stream log_service enforce subject requests end_error (l, client)
          ≡ (err end_error, (l', acknowledged log_service enforce subject n requests client)))
        × ((read (n + i) l').0 ≡ ok (record r { offset = n + i }))
        × History c l' (rs ++ renumbered n requests)
  produce_stream_lem requests end_error l rs n client i r h at fits allowed reach e =
      let (l', takes, h') = History-Takes requests l rs n h at fits in
      let there : get_elem? (rs ++ renumbered n requests) (length rs + i)
          ≡ some (record r { offset = n + i }) =
        get_elem?-behind rs (renumbered n requests) (length rs + i) i refl
        ∙ get_elem?-renumbered n i requests r e in
      let off : c.initial_offset + (length rs + i) ≡ n + i = omega (arith, at) in
      (
        l',
        produce_stream-Takes log_service enforce subject n requests end_error l l' client allowed
            takes reach,
        rw off at (history_reads c u small h' (length rs + i) _ there),
        h',
      )
