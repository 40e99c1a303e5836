-- ===== src/Log.antt =====
-- internal/log/log.go: the list of segments, of which the last is the active one. Log.activeSegment
-- has no field of its own: newSegment sets it to the segment that it appends, and every use of it
-- stands behind a read of the last element of `segments`.
pub mod Chain
pub mod Append
pub mod Read
pub mod Roundtrip
pub mod Truncate
pub mod Unfiled
pub mod Surviving
pub mod Emptied
pub mod Reset
pub mod Dropping
pub mod Listing
pub mod Filed
pub mod Starts
pub mod Limits
pub mod Bounds
pub mod Creating
pub mod Rejecting
pub mod Records
pub mod History
pub mod Lifetime
pub mod Growing
pub mod Readers
pub mod Rollover
pub mod Closing
pub mod Reopening
pub mod Abandoned
use dislog.Prelude.{
  ℕ, ◌-◌, List, [], ◌∷◌, ◌++◌, true, false, ◌&&◌, leb, ltb, ◌==◌, if◌then◌else◌, add64, map,
  is_empty, Result, ok, err, panic, offset_out_of_range, Exec, pure, lift, gets, modify, ◌>>=◌,
  ◌>>◌, within,
}
use dislog.Api.{Record, Proto}
use dislog.Index.{Gommap}
use dislog.Dir.{Dir, offset_of, read_dir, remove_all}
use dislog.Segment
use dislog.Segment.{Segment, Config, publish, remove_files}

pub record Log : Type 0 where
  pub dir : Dir
  pub config : Config
  pub segments : List Segment

abbrev pub on_dir : {A : Type 0} → Exec Dir A → Exec Log A
on_dir = within (λ l. l.dir) (λ d l. record l { dir = d })

abbrev pub on_segments : {A : Type 0} → Exec (List Segment) A → Exec Log A
on_segments = within (λ l. l.segments) (λ ss l. record l { segments = ss })

-- The active segment. There is none when `segments` is empty: the index expressions of the source
-- then panic.
unfoldable pub active : List Segment → Result Segment
active [] = panic
active (s ∷ []) = ok s
active (s ∷ t ∷ rest) = active (t ∷ rest)

behind : {A : Type 0} → Segment → Result A × List Segment → Result A × List Segment
behind s (r, ss) = (r, s ∷ ss)

in_front : {A : Type 0} → List Segment → Result A × Segment → Result A × List Segment
in_front ss (r, s) = (r, s ∷ ss)

unfoldable pub on_active : {A : Type 0} → Exec Segment A → Exec (List Segment) A
unfolding behind in_front
on_active m [] = (panic, [])
on_active m (s ∷ []) = in_front [] (m s)
on_active m (s ∷ t ∷ rest) = behind s (on_active m (t ∷ rest))

-- Log.LowestOffset
lowest_of : List Segment → Result ℕ
lowest_of [] = panic
lowest_of (s ∷ rest) = ok s.base_offset

unfoldable pub lowest_offset : Exec Log ℕ
unfolding lowest_of
lowest_offset = do ss ← gets (λ l. l.segments); lift (lowest_of ss)

-- Log.HighestOffset
unfoldable pub highest_offset : Exec Log ℕ
highest_offset = do
  ss ← gets (λ l. l.segments)
  s ← lift (active ss)
  pure (if s.next_offset == 0 then 0 else s.next_offset - 1)

module _ ⦃g : Gommap⦄ where
  -- Log.newSegment
  unfoldable pub new_segment : ℕ → Exec Log (Unit {0})
  new_segment off = do
    config ← gets (λ l. l.config)
    s ← on_dir (Segment.new_segment off config)
    modify (λ l. record l { segments = l.segments ++ (s ∷ []) })

-- Log.Append
unfoldable pub append : ⦃p : Proto⦄ → ⦃g : Gommap⦄ → Record → Exec Log ℕ
append r = do
  highest ← highest_offset
  ss ← gets (λ l. l.segments)
  s ← lift (active ss)
  if Segment.is_maxed s then new_segment (add64 highest 1) else pure tt
  on_segments (on_active (Segment.append r))

-- The loop of Log.Read: the first segment that has the offset
unfoldable pub read_in : ⦃p : Proto⦄ → ℕ → Exec (List Segment) Record
unfolding behind in_front
read_in off [] = (err (offset_out_of_range off), [])
read_in off (s ∷ rest) =
    if leb s.base_offset off && ltb off s.next_offset
    then (if leb s.next_offset off
        then (err (offset_out_of_range off), s ∷ rest)
        else in_front rest (Segment.read off s))
    else behind s (read_in off rest)

-- Log.Read
unfoldable pub read : ⦃p : Proto⦄ → ℕ → Exec Log Record
read off = on_segments (read_in off)

abbrev pub Files : Type 0
Files = List Segment × Dir

pub closed_one :
    Result (Unit {0})
    → Segment
    → List Segment
    → Dir
    → Result (Unit {0}) × Files
    → Result (Unit {0}) × Files
closed_one (ok _) s rest d (r, (ss, d')) = (r, (s ∷ ss, d'))
closed_one (err e) s rest d later = (err e, (s ∷ rest, d))
closed_one panic s rest d later = (panic, (s ∷ rest, d))

-- The loop of Log.Close: it stops at the first segment that cannot be closed.
unfoldable pub close_each : ⦃g : Gommap⦄ → List Segment → Dir → Result (Unit {0}) × Files
unfolding closed_one
close_each [] d = (ok tt, ([], d))
close_each (s ∷ rest) d =
    let (r, s') = Segment.close s in
    let later = close_each rest (publish s' d) in closed_one r s' rest (publish s' d) later

abbrev pub on_files : {A : Type 0} → (List Segment → Dir → Result A × Files) → Exec Log A
on_files m l = let (r, (ss, d)) = m l.segments l.dir in (r, record l { segments = ss; dir = d })

-- Log.Close
unfoldable pub close : ⦃g : Gommap⦄ → Exec Log (Unit {0})
unfolding close_each
close = on_files close_each

-- segment.Remove
unfoldable pub remove_segment : ⦃g : Gommap⦄ → Exec (Segment × Dir) (Unit {0})
remove_segment = do
  within (λ (f : Segment × Dir). f.0) (λ s f. (s, publish s f.1)) Segment.close
  s ← gets (λ (f : Segment × Dir). f.0)
  within (λ (f : Segment × Dir). f.1) (λ d f. (f.0, d)) (remove_files s)

removed_one :
    Result (Unit {0})
    → Segment
    → List Segment
    → Dir
    → Result (List Segment) × Files
    → Result (List Segment) × Files
removed_one (ok _) s rest d (r, (ss, d')) = (r, (s ∷ ss, d'))
removed_one (err e) s rest d later = (err e, (s ∷ rest, d))
removed_one panic s rest d later = (panic, (s ∷ rest, d))

kept_one : Segment → Result (List Segment) × Files → Result (List Segment) × Files
kept_one s (ok kept, (ss, d)) = (ok (s ∷ kept), (s ∷ ss, d))
kept_one s (err e, (ss, d)) = (err e, (s ∷ ss, d))
kept_one s (panic, (ss, d)) = (panic, (s ∷ ss, d))

-- The loop of Log.Truncate: the segments that are kept, beside the old list as it then is
unfoldable pub truncate_each : ⦃g : Gommap⦄ → ℕ → List Segment → Dir → Result (List Segment) × Files
unfolding removed_one kept_one
truncate_each lowest [] d = (ok [], ([], d))
truncate_each lowest (s ∷ rest) d = elim (leb s.next_offset (add64 lowest 1)) [
  | true ↦
      let (r, (s', d')) = remove_segment (s, d) in
      let later = truncate_each lowest rest d' in removed_one r s' rest d' later
  | false ↦ kept_one s (truncate_each lowest rest d)
]

-- Log.Truncate
unfoldable pub truncate : ⦃g : Gommap⦄ → ℕ → Exec Log (Unit {0})
unfolding truncate_each
truncate lowest = do
  kept ← on_files (truncate_each lowest)
  modify (λ l. record l { segments = kept })

-- Log.Remove
unfoldable pub remove : ⦃g : Gommap⦄ → Exec Log (Unit {0})
remove = do close; on_dir remove_all

-- sort.Slice by `<`
pub insert : ℕ → List ℕ → List ℕ
insert x [] = x ∷ []
insert x (y ∷ ys) = let rest = insert x ys in if leb x y then x ∷ y ∷ ys else y ∷ rest

unfoldable pub sort : List ℕ → List ℕ
unfolding insert
sort [] = []
sort (x ∷ xs) = insert x (sort xs)

-- The loop of setup: each offset stands there twice, for the store and for the index.
unfoldable pub open_all : ⦃g : Gommap⦄ → List ℕ → Exec Log (Unit {0})
open_all [] = pure tt
open_all (off ∷ []) = new_segment off
open_all (off ∷ _ ∷ rest) = new_segment off >> open_all rest

-- Log.setup
unfoldable pub setup : ⦃g : Gommap⦄ → Exec Log (Unit {0})
setup = do
  names ← on_dir read_dir
  open_all (sort (map offset_of names))
  ss ← gets (λ l. l.segments)
  off ← gets (λ l. l.config.initial_offset)
  if is_empty ss then new_segment off else pure tt

-- Log.Reset
unfoldable pub reset : ⦃g : Gommap⦄ → Exec Log (Unit {0})
reset = do remove; setup

-- NewLog: the log comes back beside the error.
abbrev pub with_defaults : Config → Config
with_defaults c = record {
  max_store_bytes = if c.max_store_bytes == 0 then 1024 else c.max_store_bytes;
  max_index_bytes = if c.max_index_bytes == 0 then 1024 else c.max_index_bytes;
  initial_offset = c.initial_offset;
}

unfoldable pub new_log : ⦃g : Gommap⦄ → Dir → Config → Result (Unit {0}) × Log
new_log d c = setup (record { dir = d; config = with_defaults c; segments = [] })
