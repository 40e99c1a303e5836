-- ===== src/Snapshot.antt =====
-- Log.Reader of internal/log/log.go, and fsm.Snapshot and snapshot.Persist of
-- internal/log/distributed.go: the bytes of a log's stores, copied to a sink of Raft. The reader shares
-- the stores with the log, so reading flushes their buffers.
pub mod Contents
pub mod Frames
pub mod Replica
use dislog.Prelude.{
  ℕ, suc, zero, ◌+◌, List, [], ◌∷◌, Option, none, some, is_empty, length, if◌then◌else◌, Result, ok,
  err, panic, Error, eof, Exec, pure, lift, fail, gets, modify, ◌>>=◌, ◌>>◌, within,
}
use dislog.Store
use dislog.Store.{Store}
use dislog.Segment.{Segment}
use dislog.Log.{Log}

-- originReader
pub record OriginReader : Type 0 where
  pub store : Store
  pub off : ℕ

-- originReader.Read into a buffer of `n` bytes: the bytes, and the error beside them
unfoldable pub read : ℕ → Exec OriginReader (List ℕ × Option Error)
read n = do
  off ← gets (λ o. o.off)
  (bytes, e) ← within (λ o. o.store) (λ s o. record o { store = s }) (Store.read_at n off)
  modify (λ o. record o { off = o.off + length bytes })
  pure (bytes, e)

-- raft.SnapshotSink, which the program is handed, over its state `W`
pub record SnapshotSink (W : Type 0) : Type 0 where
  pub write : List ℕ → Exec W (Unit {0})
  pub close : Exec W (Unit {0})
  pub cancel : Exec W (Unit {0})

-- The buffer of io.Copy
abbrev pub copy_size : ℕ
copy_size = 32768

module _ {W : Type 0} (sink : SnapshotSink W) where
  abbrev pub on_reader : {A : Type 0} → Exec OriginReader A → Exec (OriginReader × W) A
  on_reader = within (λ st. st.0) (λ o st. (o, st.1))

  abbrev pub on_sink : {A S : Type 0} → Exec W A → Exec (S × W) A
  on_sink = within (λ st. st.1) (λ w st. (st.0, w))

  -- After a round of io.Copy: io.EOF ends this reader, and io.MultiReader goes on with the next one.
  ended : Option Error → Exec (OriginReader × W) (Unit {0}) → Exec (OriginReader × W) (Unit {0})
  ended none next = next
  ended (some eof) next = pure tt
  ended (some e) next = fail e

  -- The rounds of io.Copy on one reader. A round that does not end takes a byte at least, so one more
  -- than the size of the store bounds the rounds.
  unfoldable pub copy_rounds : ℕ → Exec (OriginReader × W) (Unit {0})
  unfolding ended
  copy_rounds zero = lift panic
  copy_rounds (suc fuel) = do
    (bytes, e) ← on_reader (read copy_size)
    if is_empty bytes then pure tt else on_sink (sink.write bytes)
    ended e (copy_rounds fuel)

  -- Log.Reader makes one reader for each segment, from the start of its store.
  abbrev pub copy_store : Store → W → Result (Unit {0}) × (OriginReader × W)
  copy_store s w = copy_rounds (suc s.size) (record { store = s; off = 0 }, w)

  unfoldable pub copy_next :
      Result (Unit {0}) × (OriginReader × W)
      → Segment
      → List Segment
      → (W → Result (Unit {0}) × (List Segment × W))
      → Result (Unit {0}) × (List Segment × W)
  copy_next (ok _, (o, w)) s rest next =
      let (r, (ss, w')) = next w in (r, (record s { store = o.store } ∷ ss, w'))
  copy_next (err e, (o, w)) s rest next = (err e, (record s { store = o.store } ∷ rest, w))
  copy_next (panic, (o, w)) s rest next = (panic, (record s { store = o.store } ∷ rest, w))

  -- io.Copy from Log.Reader
  unfoldable pub copy_all : List Segment → W → Result (Unit {0}) × (List Segment × W)
  unfolding copy_next
  copy_all [] w = (ok tt, ([], w))
  copy_all (s ∷ rest) w = copy_next (copy_store s.store w) s rest (copy_all rest)

  persisted : Result (Unit {0}) × (List Segment × W) → Log → Result (Unit {0}) × (Log × W)
  persisted (ok _, (ss, w)) l = let (r, w') = sink.close w in (r, (record l { segments = ss }, w'))
  persisted (err e, (ss, w)) l = (err e, (record l { segments = ss }, (sink.cancel w).1))
  persisted (panic, (ss, w)) l = (panic, (record l { segments = ss }, w))

  -- fsm.Snapshot and snapshot.Persist: an error of the copy cancels the sink, whatever Cancel answers.
  unfoldable pub persist : Exec (Log × W) (Unit {0})
  unfolding persisted
  persist (l, w) = persisted (copy_all l.segments w) l
