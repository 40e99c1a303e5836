-- ===== src/Log/Abandoned.antt =====
-- A log that was not closed: NewLog on the files that its segments had when the process ended.
pub mod Losing
use dislog.Prelude.{
  ℕ, ◌+◌, ◌*◌, ◌/◌, ◌≤◌, List, [], ◌∷◌, true, ◌≡◌, refl, ap, ◌∙◌, arith, length, ok, none,
}
use dislog.Index.{Gommap}
use dislog.Dir.{Dir, Text, lookup, bytes_of, store_name, index_name, put_file}
use dislog.Dir.Names.{offset_of_names}
use dislog.Dir.Files.{present-put_file}
use dislog.Segment
use dislog.Segment.{Segment, Config}
use dislog.Segment.Layout.{IsSegment}
use dislog.Segment.Reopen.{touched}
use dislog.Segment.Abandoned.{leave_open, found, new_segment_abandoned}
use dislog.Log.{Log, new_log, new_segment, setup, open_all}
use dislog.Log.Chain.{Payloads, Chain, IsUsable, IsFree}
use dislog.Log.Filed.{IsFiled, IsFiled-put_file, IsFiled-touched, Has-put_file, absent}
use dislog.Log.Reopening.{with_defaults-usable, read_dir-present}

-- The directory that a log leaves which is not closed.
unfoldable pub abandon : List Segment → Dir → Dir
abandon [] d = d
abandon (s ∷ rest) d = abandon rest (leave_open s d)

bytes_of-none : (name : Text) (d : Dir) → lookup name d.files ≡ none → bytes_of name d ≡ []
unfolding bytes_of
bytes_of-none name d h = rw (bytes_of, h) refl

-- Behind a single segment no file stands.
pub filed-IsFree : (k : ℕ) (d : Dir) → IsFiled d (k ∷ []) → IsFree d (k + 1)
filed-IsFree k d f b lo hi =
    let (at, at') = offset_of_names b (omega (arith, hi)) in
    (
      bytes_of-none (store_name b) d
          (absent (store_name b) b d (k ∷ []) f (omega (arith, lo), tt) at),
      bytes_of-none (index_name b) d
          (absent (index_name b) b d (k ∷ []) f (omega (arith, lo), tt) at'),
    )

leave_open-IsFiled :
    (s : Segment) (d : Dir)
    → IsFiled d (s.base_offset ∷ [])
    → IsFiled (leave_open s d) (s.base_offset ∷ [])
unfolding leave_open
leave_open-IsFiled s d f =
    let k = s.base_offset in
    let d1 = put_file (index_name k) s.index.mmap d in
    IsFiled-put_file (store_name k) _ d1 (k ∷ [])
      (IsFiled-put_file (index_name k) _ d (k ∷ []) f f.has.1)
      (Has-put_file (index_name k) (store_name k) _ d f.has.0)

present-leave_open : (s : Segment) (d : Dir) → (leave_open s d).present ≡ d.present
unfolding leave_open
present-leave_open s d =
    present-put_file (store_name s.base_offset) _
      (put_file (index_name s.base_offset) s.index.mmap d)
    ∙ present-put_file (index_name s.base_offset) _ d

pub only_segment :
    (c : Config) (k : ℕ) (ss : List Segment) (ps : Payloads)
    → Chain c k ss (ps ∷ [])
    → (s : Segment) × (ss ≡ s ∷ []) × (s.base_offset ≡ k) × (s.config ≡ c) × IsSegment s ps
only_segment c k [] ps h = absurd h
only_segment c k (s ∷ []) ps h = (s, refl, h.0, h.1, h.2)
only_segment c k (s ∷ t ∷ ss) ps h = absurd h.3

pub abandon_one : (s : Segment) (d : Dir) → abandon (s ∷ []) d ≡ leave_open s d
unfolding abandon
abandon_one s d = refl

module _ ⦃g : Gommap⦄ where
  -- The log that NewLog makes of one segment that was not closed.
  abbrev pub with_found : Dir → Config → Segment → Log
  with_found d c s = record { dir = d; config = c; segments = found s ∷ [] }

  pub record Reopened (l : Log) (s : Segment) : Type 0 where
    pub dir : Dir
    pub runs : new_log (leave_open s l.dir) l.config ≡ (ok tt, with_found dir l.config s)
    pub maxed : Segment.is_maxed (found s) ≡ true
    pub filed : IsFiled dir (s.base_offset ∷ [])
    pub present : dir.present ≡ true

  pub reopens :
      (l : Log) (s : Segment) (ps : Payloads)
      → IsUsable l.config
      → IsSegment s ps
      → s.config ≡ l.config
      → IsFiled l.dir (s.base_offset ∷ [])
      → l.dir.present ≡ true
      → 12 * length ps + 12 ≤ l.config.max_index_bytes / 12 * 12
      → Reopened l s
  unfolding new_log setup open_all new_segment
  reopens l s ps u hs conf f there room =
      let k = s.base_offset in
      let d = leave_open s l.dir in
      let here : d.present ≡ true = present-leave_open s l.dir ∙ there in
      let filed = leave_open-IsFiled s l.dir f in
      let index : s.config.max_index_bytes ≡ l.config.max_index_bytes =
        ap (λ (c : Config). c.max_index_bytes) conf in
      let (e, full) =
        new_segment_abandoned s ps l.dir hs there (omega (arith, index, u.one_entry))
          (omega (arith, index, u.index_small)) (rw index room) in
      record {
        dir = touched k d;
        runs = rw (← conf) (
            rw (with_defaults-usable s.config (rw conf u), read_dir-present d here, filed.listed, e)
              refl);
        maxed = full;
        filed = IsFiled-touched k d (k ∷ []) filed filed.has.0 filed.has.1;
        present = present-put_file (index_name k) _ _ ∙ present-put_file (store_name k) _ d ∙ here;
      }
