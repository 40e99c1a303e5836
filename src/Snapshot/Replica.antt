-- ===== src/Snapshot/Replica.antt =====
-- A snapshot of one log, read back into another.
use dislog.Prelude.{
  ℕ, suc, ◌+◌, ◌^◌, ◌<◌, List, [], ◌∷◌, ◌++◌, false, ◌≡◌, refl, ap, ◌∙◌, arith, length, ok,
}
use dislog.Api.{Record, Proto}
use dislog.Index.{Gommap}
use dislog.Segment.{Config}
use dislog.Segment.Layout.{frames}
use dislog.Log.{Log}
use dislog.Log.Chain.{concat, IsUsable}
use dislog.Log.Growing.{Small}
use dislog.Log.History.{History, created, appended, refused, was_read, reopened, History-Keeps}
use dislog.Cluster.{restore_loop}
use dislog.Snapshot.{SnapshotSink, persist}
use dislog.Snapshot.Contents.{Accepts, persist_lem}
use dislog.Snapshot.Frames.{renumbered, Fits, restore_rounds}

module _ ⦃p : Proto⦄ ⦃g : Gommap⦄ (c : Config) where
  renumbered-snoc :
      (n m : ℕ) (rs : List Record) (r : Record)
      → m ≡ n + length rs
      → renumbered n (rs ++ (r ∷ [])) ≡ renumbered n rs ++ (record r { offset = m } ∷ [])
  renumbered-snoc n m [] r at =
      let same : n ≡ m = omega (arith, at) in ap (λ (k : ℕ). record r { offset = k } ∷ []) same
  renumbered-snoc n m (x ∷ rs) r at =
      ap (λ t. record x { offset = n } ∷ t) (renumbered-snoc (n + 1) m rs r (omega (arith, at)))

  Fits-snoc :
      (n m : ℕ) (rs : List Record) (r : Record) (b : List ℕ)
      → m ≡ n + length rs
      → Fits c n rs
      → p.marshal (record r { offset = m }) ≡ ok b
      → Small c m b
      → Fits c n (rs ++ (r ∷ []))
  Fits-snoc n m [] r b at h e small =
      let same : m ≡ n = omega (arith, at) in ((b, rw same at e, rw same at small), tt)
  Fits-snoc n m (x ∷ rs) r b at (h, hs) e small =
      (h, Fits-snoc (n + 1) m rs r b (omega (arith, at)) hs e small)

  -- The records of a history have their offsets, from the initial one on, and fit there.
  numbered :
      {l : Log} {rs : List Record}
      → History c l rs
      → (renumbered c.initial_offset rs ≡ rs) × Fits c c.initial_offset rs
  numbered (created e) = (refl, tt)
  numbered (appended {l} {l'} {rs} r b n off h at fits enc e) =
      let (same, all) = numbered h in
      (
        renumbered-snoc c.initial_offset n rs (record r { offset = n }) at
            ∙ ap (λ t. t ++ (record r { offset = n } ∷ [])) same,
        Fits-snoc c.initial_offset n rs (record r { offset = n }) b at all enc fits,
      )
  numbered (refused r x x' n h at fits bad e) = numbered h
  numbered (was_read off x h e) = numbered h
  numbered (reopened h e e') = numbered h

  -- Persist of a log with a past, to a sink that takes every write and is empty, succeeds; and the
  -- rounds of Restore behind the reset, on the bytes that the sink has then and a log under the same
  -- configuration that never had a record, succeed, and leave a log with the same records at the same
  -- offsets. One more round than there are bytes is enough. The configuration is usable, with an initial
  -- offset below 2 ^ 63 - 1, and the snapshot is shorter than 2 ^ 63 bytes.
  pub persist-restore_loop :
      {W : Type 0} (sink : SnapshotSink W) (a : Accepts sink) (l fresh : Log) (rs : List Record)
      (w : W)
      → IsUsable c
      → c.initial_offset + 1 < 2 ^ 63
      → History c l rs
      → History c fresh []
      → a.out w ≡ []
      → ((l' : Log) (w' : W) → persist sink (l, w) ≡ (ok tt, (l', w')) → length (a.out w') < 2 ^ 63)
      → (l' : Log) × (w' : W) × (persist sink (l, w) ≡ (ok tt, (l', w')))
        × (l'' : Log) × (restore_loop (suc (length (a.out w'))) false (a.out w') fresh
            ≡ (ok tt, l''))
        × History c l'' rs
  persist-restore_loop sink a l fresh rs w u small h empty blank whole =
      let k = History-Keeps c u small h in
      let (same, fits) = numbered h in
      let (l', w', runs, out, holds) =
        persist_lem sink a l c.initial_offset k.payloads w k.durable.holds in
      let bytes : a.out w' ≡ frames (concat k.payloads) =
        out ∙ ap (λ t. t ++ frames (concat k.payloads)) blank in
      let (m, back, h') =
        restore_rounds c u small rs (concat k.payloads) fresh [] c.initial_offset
          (suc (length (frames (concat k.payloads)))) empty (omega arith) k.all fits
          (omega (arith, whole l' w' runs, ap length bytes)) (omega arith) in
      (l', w', runs, m, rw bytes back, rw same at h')
