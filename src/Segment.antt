-- ===== src/Segment.antt =====
-- internal/log/segment.go: a store and its index, for the records from a base offset on.
pub mod Layout
pub mod Append
pub mod Read
pub mod Reopen
pub mod Bounds
pub mod Removal
pub mod Abandoned
use dislog.Prelude.{
  ℕ, ◌*◌, ◌/◌, ◌%◌, ◌^◌, List, [], Bool, ◌||◌, leb, add64, sub64, if◌then◌else◌, Result, ok, err,
  panic, Exec, pure, lift, gets, modify, ◌>>=◌, ◌>>◌, within,
}
use dislog.Api.{Record, Proto}
use dislog.Store
use dislog.Store.{Store, opened, new_store}
use dislog.Index
use dislog.Index.{Index, Gommap, new_index, minus_one}
use dislog.Dir.{Dir, store_name, index_name, open_file, put_file, remove_file}

-- Config.Segment of config.go
pub record Config : Type 0 where
  pub max_store_bytes : ℕ
  pub max_index_bytes : ℕ
  pub initial_offset : ℕ

pub record Segment : Type 0 where
  pub store : Store
  pub index : Index
  pub base_offset : ℕ
  pub next_offset : ℕ
  pub config : Config

abbrev pub on_store : {A : Type 0} → Exec Store A → Exec Segment A
on_store = within (λ s. s.store) (λ st s. record s { store = st })

abbrev pub on_index : {A : Type 0} → Exec Index A → Exec Segment A
on_index = within (λ s. s.index) (λ i s. record s { index = i })

-- The next offset of a segment that is opened: behind the last entry of its index.
next_of : ℕ → Result (ℕ × ℕ) → Result ℕ
next_of base (ok (off, pos)) = ok (add64 (add64 base off) 1)
next_of base (err e) = ok base
next_of base panic = panic

module _ ⦃g : Gommap⦄ where
  -- The index of a segment that is opened, over the bytes that its file has.
  unfoldable pub open_index : List ℕ → ℕ → Result Index
  unfolding new_index
  open_index bytes max = (new_index max (opened bytes)).0

  -- newSegment: opens or creates the two files under `dir`.
  unfoldable pub new_segment : ℕ → Config → Exec Dir Segment
  unfolding next_of
  new_segment base config = do
    store_bytes ← open_file (store_name base)
    index_bytes ← open_file (index_name base)
    index ← lift (open_index index_bytes config.max_index_bytes)
    next ← lift (next_of base (Index.read minus_one index).0)
    pure (record {
      store = new_store (opened store_bytes);
      index = index;
      base_offset = base;
      next_offset = next;
      config = config;
    })

  -- segment.Close
  unfoldable pub close : Exec Segment (Unit {0})
  close = do on_index Index.close; on_store Store.close

module _ ⦃p : Proto⦄ where
  -- segment.Append
  unfoldable pub append : Record → Exec Segment ℕ
  append r = do
    cur ← gets (λ s. s.next_offset)
    bytes ← lift (p.marshal (record r { offset = cur }))
    (_, pos) ← on_store (Store.append bytes)
    base ← gets (λ s. s.base_offset)
    on_index (Index.write (sub64 cur base % 2 ^ 32) pos)
    modify (λ s. record s { next_offset = add64 s.next_offset 1 })
    pure cur

  -- segment.Read
  unfoldable pub read : ℕ → Exec Segment Record
  read off = do
    base ← gets (λ s. s.base_offset)
    (_, pos) ← on_index (Index.read (sub64 off base))
    bytes ← on_store (Store.read pos)
    lift (p.unmarshal bytes)

-- segment.IsMaxed
unfoldable pub is_maxed : Segment → Bool
is_maxed s =
    leb s.config.max_store_bytes s.store.size
    || leb s.config.max_index_bytes s.index.size
    || Index.is_maxed s.index

-- The directory shows the bytes that the segment's files have.
unfoldable pub publish : Segment → Dir → Dir
publish s d =
    put_file (store_name s.base_offset) s.store.writer.file.bytes
      (put_file (index_name s.base_offset) s.index.file.bytes d)

-- os.Remove of the two files, the second half of segment.Remove
unfoldable pub remove_files : Segment → Exec Dir (Unit {0})
remove_files s = do remove_file (index_name s.base_offset); remove_file (store_name s.base_offset)

-- nearestMultiple on uint64: `j >= 0` always holds. A zero `k` divides by zero.
unfoldable pub nearest_multiple : ℕ → ℕ → Result ℕ
nearest_multiple j k = if leb k 0 then panic else ok (j / k * k)
