-- ===== src/Tests/Lives.antt =====
-- Runs of theorems on the whole life of a log, and on snapshots of it.
use dislog.Prelude.{
  suc, ◌<◌, ◌^◌, ℕ, List, [], ◌∷◌, ◌++◌, inr, false, true, eof, ◌≡◌, refl, sym, ap, ◌∙◌, arith,
  length, ok, err, offset_out_of_range,
}
use dislog.Segment.Layout.{frames}
use dislog.Prelude.Bytes.{put_uint}
use dislog.Log
use dislog.Log.{Log}
use dislog.Log.Chain.{concat}
use dislog.Log.Records.{Encodes}
use dislog.Log.Creating.{empty_dir, new_log_empty}
use dislog.Log.Reopening.{IsDurable}
use dislog.Log.History.{History, created, Keeps, History-Keeps}
use dislog.Log.Bounds.{AllWithin, History-AllWithin}
use dislog.Log.Lifetime.{history_reads, history_past, history_appends, history_reopens}
use dislog.Cluster.{restore_loop}
use dislog.Grpc.{Client, Enforcer, produce_stream}
use dislog.Grpc.Storing.{log_service, produce_stream_lem}
use dislog.Tests.Logs.{bytes_6}
use dislog.Snapshot.{SnapshotSink, persist}
use dislog.Snapshot.Contents.{Accepts, persist_lem}
use dislog.Snapshot.Replica.{persist-restore_loop}
use dislog.Tests.{codec, plain_map, hello, hello_bytes, config, config-IsUsable, hello-Small}

-- A log that NewLog has made
abbrev made :
    (l : Log) × (Log.new_log empty_dir config ≡ (ok tt, l))
    × IsDurable l 5 ([] ∷ [])
    × (l.config ≡ config)
made = new_log_empty config config-IsUsable (omega arith)

abbrev first : Log
first = made.0

first-History : History config first []
first-History = created made.1

history_appends_example :
    (l' : Log) × (Log.append hello first ≡ (ok 5, l'))
    × History config l' (record hello { offset = 5 } ∷ [])
history_appends_example =
    history_appends config config-IsUsable (omega arith) hello hello_bytes 5 first-History refl
      hello-Small refl

-- The log after one Append
abbrev grown :
    (l' : Log) × (Log.append hello first ≡ (ok 5, l'))
    × History config l' (record hello { offset = 5 } ∷ [])
grown =
    history_appends config config-IsUsable (omega arith) hello hello_bytes 5 first-History refl
      hello-Small refl

abbrev second : Log
second = grown.0

second-History : History config second (record hello { offset = 5 } ∷ [])
second-History = grown.2

history_reads_example : (Log.read 5 second).0 ≡ ok (record hello { offset = 5 })
history_reads_example =
    history_reads config config-IsUsable (omega arith) second-History 0
      (record hello { offset = 5 }) refl

history_past_example : Log.read 6 second ≡ (err (offset_out_of_range 6), second)
history_past_example =
    history_past config config-IsUsable (omega arith) 6 second-History (inr (omega arith))

history_reopens_example :
    (l' : Log) × (l'' : Log) × (Log.close second ≡ (ok tt, l'))
    × (Log.new_log l'.dir config ≡ (ok tt, l''))
    × ((off : ℕ) → (Log.read off l'').0 ≡ (Log.read off second).0)
    × History config l'' (record hello { offset = 5 } ∷ [])
history_reopens_example = history_reopens config config-IsUsable (omega arith) second-History

History-AllWithin_example : AllWithin config 5 second.segments
History-AllWithin_example =
    History-AllWithin config 5 config-IsUsable (omega arith) second-History
      (λ b e. (let same : hello_bytes ≡ b = cc in omega (arith, ap length same)), tt)

History-Keeps_example : Keeps config second (record hello { offset = 5 } ∷ [])
History-Keeps_example = History-Keeps config config-IsUsable (omega arith) second-History

-- A sink in memory
abbrev buffer : SnapshotSink (List ℕ)
buffer = record {
  write = λ bs w. (ok tt, w ++ bs);
  close = λ w. (ok tt, w);
  cancel = λ w. (ok tt, w);
}

buffer-Accepts : Accepts buffer
buffer-Accepts = record {
  out = λ w. w;
  takes = λ bs w. (w ++ bs, refl, refl);
  closes = λ w. (w, refl, refl);
}

one_frame : length (frames (hello_bytes ∷ [])) ≡ 13
unfolding frames put_uint
one_frame = refl

one_payload :
    (bs : List (List ℕ)) → Encodes (record hello { offset = 5 } ∷ []) bs → bs ≡ hello_bytes ∷ []
one_payload [] h = absurd h
one_payload (b ∷ []) (e, h) = let same : hello_bytes ≡ b = cc in ap (λ x. x ∷ []) (sym same)
one_payload (b ∷ b' ∷ bs) (e, h) = absurd h

-- The snapshot of the log with one record
second_bytes :
    (l' : Log) (w' : List ℕ) → persist buffer (second, []) ≡ (ok tt, (l', w')) → length w' < 2 ^ 63
unfolding buffer-Accepts
second_bytes l' w' h =
    let k = History-Keeps config config-IsUsable (omega arith) second-History in
    let (m, w, runs, out, _) =
      persist_lem buffer buffer-Accepts second 5 k.payloads [] k.durable.holds in
    let same : w' ≡ w = ap (λ y. y.1.1) (sym h ∙ runs) in
    let bytes : w' ≡ frames (hello_bytes ∷ []) =
      same ∙ out ∙ ap frames (one_payload (concat k.payloads) k.all) in
    omega (arith, ap length bytes, one_frame)

persist-restore_loop_example :
    (l' : Log) × (w' : List ℕ) × (persist buffer (second, []) ≡ (ok tt, (l', w')))
    × (l'' : Log) × (restore_loop (suc (length w')) false w' first ≡ (ok tt, l''))
    × History config l'' (record hello { offset = 5 } ∷ [])
unfolding buffer-Accepts
persist-restore_loop_example =
    persist-restore_loop config buffer buffer-Accepts second first
      (record hello { offset = 5 } ∷ []) [] config-IsUsable (omega arith) second-History
      first-History refl second_bytes

-- A client that can be sent nine answers
abbrev client : Client ℕ
client = record { sent = []; reachable = 9 }

-- Everyone may do everything.
abbrev open_to_all : Enforcer
open_to_all subject object action = true

produce_stream_lem_example :
    (l' : Log) × (produce_stream log_service open_to_all "root"
        (hello ∷ hello ∷ [])
        eof
        (first, client)
      ≡ (err eof, (l', record { sent = 5 ∷ 6 ∷ []; reachable = 7 })))
    × ((Log.read 6 l').0 ≡ ok (record hello { offset = 6 }))
    × History config l' (record hello { offset = 5 } ∷ record hello { offset = 6 } ∷ [])
produce_stream_lem_example =
    produce_stream_lem config config-IsUsable (omega arith) open_to_all "root" (hello ∷ hello ∷ [])
      eof first [] 5 client 1 hello first-History refl
      (
        (hello_bytes, refl, hello-Small),
        ((bytes_6, refl, record { bytes_fit = omega arith; offset_fits = omega arith }), tt),
      )
      refl (omega arith) refl
