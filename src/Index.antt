-- ===== src/Index.antt =====
-- internal/log/index.go: the file of fixed-width entries (relative offset, position in the store),
-- read and written through a memory map.
pub mod Entries
pub mod Reading
pub mod Lifecycle
pub mod Abandoned
use dislog.Prelude.{
  ℕ, ◌+◌, ◌-◌, ◌*◌, ◌/◌, ◌%◌, ◌^◌, List, [], ◌++◌, Bool, ◌||◌, ◌≡◌, ◌≢◌, leb, ltb, ◌==◌,
  if◌then◌else◌, add64, sub64, length, take, replicate, slice, write_at, Result, ok, err, panic,
  eof, refused, Exec, pure, lift, gets, modify, ◌>>=◌, ◌>>◌, within,
}
use dislog.Prelude.Bytes.{put_uint, uint}
use dislog.Store.{File, file_close}

-- github.com/tysonmote/gommap, which the program imports: Map shows the bytes of a file that is not
-- empty, and Sync makes the file hold what is mapped.
pub record Gommap : Type 0 where
  pub map : List ℕ → Result (List ℕ)
  pub sync : List ℕ → Result (List ℕ)
  pub map_lem : (bs : List ℕ) → bs ≢ [] → map bs ≡ ok bs
  pub sync_lem : (bs : List ℕ) → sync bs ≡ ok bs

abbrev pub off_width : ℕ
off_width = 4

abbrev pub pos_width : ℕ
pos_width = 8

abbrev pub ent_width : ℕ
ent_width = off_width + pos_width

-- The bytes of `file` are those that Sync and Truncate last left there; the entries are in `mmap`.
pub record Index : Type 0 where
  pub file : File
  pub mmap : List ℕ
  pub size : ℕ

-- Truncate cuts a file, or fills it up with zeros.
abbrev pub resize : ℕ → List ℕ → List ℕ
resize n bs = take n bs ++ replicate (n - length bs) 0

unfoldable pub file_truncate : ℕ → Exec File (Unit {0})
file_truncate n f =
    if f.closed || f.faulty || leb (2 ^ 63) n
    then (err refused, f)
    else (ok tt, record f { bytes = resize n f.bytes })

unfoldable pub file_sync : Exec File (Unit {0})
file_sync f = if f.closed || f.faulty then (err refused, f) else (ok tt, f)

abbrev on_file : {A : Type 0} → Exec File A → Exec Index A
on_file = within (λ i. i.file) (λ f i. record i { file = f })

-- newIndex: the size is that of the file before it is stretched to MaxIndexBytes and mapped.
map_index : ⦃g : Gommap⦄ → ℕ → Exec File Index
map_index ⦃g⦄ size = do
  bytes ← gets (λ f. f.bytes)
  mmap ← lift (g.map bytes)
  file ← gets (λ f. f)
  pure (record { file = file; mmap = mmap; size = size })

unfoldable pub new_index : ⦃g : Gommap⦄ → ℕ → Exec File Index
unfolding file_truncate map_index
new_index max_index_bytes = do
  size ← gets (λ f. length f.bytes)
  file_truncate max_index_bytes
  map_index size

-- The file behind a map after Sync; one that is closed has been cut back to its entries before.
synced : List ℕ → File → File
synced bytes f = if f.closed then f else record f { bytes = bytes }

-- index.Close
unfoldable pub close : ⦃g : Gommap⦄ → Exec Index (Unit {0})
unfolding synced file_truncate file_sync file_close
close ⦃g⦄ = do
  mmap ← gets (λ i. i.mmap)
  bytes ← lift (g.sync mmap)
  modify (λ i. record i { file = synced bytes i.file })
  on_file file_sync
  size ← gets (λ i. i.size)
  on_file (file_truncate size)
  on_file file_close

-- The int64 -1, as a bit pattern.
abbrev pub minus_one : ℕ
minus_one = 2 ^ 64 - 1

-- mmap[from : from + n]
cut : ℕ → ℕ → Exec Index (List ℕ)
cut from n i = if leb (from + n) (length i.mmap) then (ok (slice i.mmap from n), i) else (panic, i)

pub read_entry : ℕ → Exec Index (ℕ × ℕ)
unfolding cut
read_entry pos = do
  out ← cut pos off_width
  at ← cut (pos + off_width) pos_width
  pure (uint out, uint at)

-- index.Read of the entry `in`, an int64 given by its bit pattern
abbrev entry_number : ℕ → Index → ℕ
entry_number n i = if n == minus_one then sub64 (i.size / ent_width) 1 % 2 ^ 32 else n % 2 ^ 32

unfoldable pub read : ℕ → Exec Index (ℕ × ℕ)
unfolding read_entry
read n i =
    if i.size == 0
    then (err eof, i)
    else let pos = entry_number n i * ent_width in
      if ltb i.size (add64 pos ent_width) then (err eof, i) else read_entry pos i

unfoldable pub is_maxed : Index → Bool
is_maxed i = ltb (length i.mmap) (add64 i.size ent_width)

put_bytes : ℕ → List ℕ → Exec Index (Unit {0})
put_bytes from bs i =
    if leb (from + length bs) (length i.mmap)
    then (ok tt, record i { mmap = write_at i.mmap from bs })
    else (panic, i)

write_entry : ℕ → ℕ → Exec Index (Unit {0})
unfolding put_bytes
write_entry off pos = do
  size ← gets (λ i. i.size)
  put_bytes size (put_uint off_width off)
  put_bytes (size + off_width) (put_uint pos_width pos)
  modify (λ i. record i { size = add64 i.size ent_width })

-- index.Write
unfoldable pub write : ℕ → ℕ → Exec Index (Unit {0})
unfolding write_entry is_maxed
write off pos i = if is_maxed i then (err eof, i) else write_entry off pos i
