-- ===== src/Cluster/Replay.antt =====
-- The entries of Raft's log applied to the state machine again, as Raft does when a node starts.
use dislog.Prelude.{
  ℕ, zero, suc, ◌+◌, ◌%◌, ◌^◌, ◌<◌, List, [], ◌∷◌, ◌++◌, some, get_elem?, ◌≡◌, ◌≢◌, refl, ap, ◌∙◌,
  arith, length, length-append, append_assoc, append-nil, ok, Exec,
}
use dislog.Api.{Record, Proto, ProtoRequest}
use dislog.Index.{Gommap}
use dislog.Segment.{Config}
use dislog.Log
use dislog.Log.{Log}
use dislog.Log.Chain.{IsUsable}
use dislog.Log.History.{History}
use dislog.Log.Lifetime.{history_appends}
use dislog.Cluster.{Entry, fsm_apply, apply_append, apply_record, answer, append_request_type}
use dislog.Snapshot.Frames.{renumbered, Fits}

-- The entry that GetLog makes of a record of Raft's log.
abbrev pub entry_of : Record → Entry
entry_of r = record { data' = r.value; index = r.offset; term = r.term; kind = r.kind % 256 }

-- raft.LogCommand
abbrev pub log_command : ℕ
log_command = 0

-- Raft catches up: it applies the commands among the entries, in their order, and no other entry.
pub record CatchesUp ⦃p : Proto⦄ ⦃q : ProtoRequest⦄ ⦃g : Gommap⦄
    (catch_up : List Entry → Exec Log (Unit {0})) : Type 0 where
  pub ends : (l : Log) → catch_up [] l ≡ (ok tt, l)
  pub applies :
      (e : Entry) (es : List Entry) (l : Log)
      → e.kind ≡ log_command
      → catch_up (e ∷ es) l ≡ catch_up es (fsm_apply e.data' l).1
  pub skips :
      (e : Entry) (es : List Entry) (l : Log)
      → e.kind ≢ log_command
      → catch_up (e ∷ es) l ≡ catch_up es l

-- The commands among the entries are those that DistributedLog.Append makes of the records.
pub data Commands ⦃q : ProtoRequest⦄ : List Entry → List Record → Type 0 where
  none : Commands [] []
  command :
      (e : Entry) (b : List ℕ) (r : Record) {es : List Entry} {rs : List Record}
      → e.kind ≡ log_command
      → e.data' ≡ append_request_type ∷ b
      → q.marshal r ≡ ok b
      → Commands es rs
      → Commands (e ∷ es) (r ∷ rs)
  other :
      (e : Entry) {es : List Entry} {rs : List Record}
      → e.kind ≢ log_command
      → Commands es rs
      → Commands (e ∷ es) rs

pub get_elem?-renumbered :
    ⦃p : Proto⦄
    → (n i : ℕ) (rs : List Record) (r : Record) → get_elem? rs i ≡ some r
    → get_elem? (renumbered n rs) i ≡ some (record r { offset = n + i })
get_elem?-renumbered n i [] r h = cc
get_elem?-renumbered n zero (x ∷ rs) r h =
    let same : x ≡ r = cc in
    ap (λ (y : Record). some (record y { offset = n })) same
    ∙ ap (λ (k : ℕ). some (record r { offset = k })) (omega arith)
get_elem?-renumbered n (suc i) (x ∷ rs) r h =
    get_elem?-renumbered (n + 1) i rs r h
    ∙ ap (λ (k : ℕ). some (record r { offset = k })) (omega arith)

pub length-renumbered :
    ⦃p : Proto⦄ → (n : ℕ) (rs : List Record) → length (renumbered n rs) ≡ length rs
length-renumbered n [] = refl
length-renumbered n (r ∷ rs) = ap suc (length-renumbered (n + 1) rs)

module _ ⦃p : Proto⦄ ⦃q : ProtoRequest⦄ ⦃g : Gommap⦄ (c : Config) (u : IsUsable c)
    (small : c.initial_offset + 1 < 2 ^ 63) (catch_up : List Entry → Exec Log (Unit {0}))
    (raft : CatchesUp catch_up) where
  applied :
      (b bytes : List ℕ) (r : Record) (l l' : Log) (off : ℕ)
      → bytes ≡ append_request_type ∷ b
      → q.marshal r ≡ ok b
      → Log.append r l ≡ (ok off, l')
      → (fsm_apply bytes l).1 ≡ l'
  unfolding fsm_apply apply_append apply_record answer
  applied b bytes r l l' off at enc h = rw at (rw (q.unmarshal-marshal r b enc) (rw h refl))

  -- The commands are appended behind the records that the log has, whether it had these before or not.
  pub catch_up_lem :
      {es : List Entry} {vs : List Record} (l : Log) (rs : List Record) (n : ℕ)
      → Commands es vs
      → History c l rs
      → n ≡ c.initial_offset + length rs
      → Fits c n vs
      → (l' : Log) × (catch_up es l ≡ (ok tt, l')) × History c l' (rs ++ renumbered n vs)
  catch_up_lem l rs n none h at fits = (l, raft.ends l, rw (append-nil rs) h)
  catch_up_lem l rs n (other e {es} {rs = vs} not rest) h at fits =
      let (l', runs, h') = catch_up_lem l rs n rest h at fits in
      (l', raft.skips e es l not ∙ runs, h')
  catch_up_lem l rs n (command e b r {es} {rs = vs} is at' enc rest) h at ((x, e', fit), fits) =
      let (m, ran, hm) = history_appends c u small r x n h at fit e' in
      let (l', runs, h') =
        catch_up_lem m (rs ++ (record r { offset = n } ∷ [])) (n + 1) rest hm
          (omega (arith, at, length-append rs (record r { offset = n } ∷ []))) fits in
      (
        l',
        raft.applies e es l is ∙ ap (catch_up es) (applied b e.data' r l m n at' enc ran) ∙ runs,
        rw (append_assoc rs (record r { offset = n } ∷ []) (renumbered (n + 1) vs)) at h',
      )
