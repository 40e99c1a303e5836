-- ===== src/Store.antt =====
-- internal/log/store.go: the append-only file of length-prefixed records, behind a buffered writer.
-- `File` and `Writer` are what the store uses of Go's os.File and bufio.Writer.
pub mod Contents
pub mod Append
pub mod Read
pub mod Faults
use dislog.Prelude.{
  ℕ, ◌+◌, ◌-◌, ◌^◌, List, [], ◌++◌, Bool, true, false, ◌||◌, Option, none, some, Error, leb, ltb,
  if◌then◌else◌, add64, length, is_empty, take, drop, slice, Result, ok, err, panic, eof, refused,
  Exec, pure, lift, gets, modify, ◌>>=◌, ◌>>◌, within,
}
use dislog.Prelude.Bytes.{put_uint, uint}

-- A file opened for reading and appending. A faulty file refuses writes: a full or failing disk.
pub record File : Type 0 where
  pub bytes : List ℕ
  pub closed : Bool
  pub faulty : Bool

abbrev pub opened : List ℕ → File
opened bs = record { bytes = bs; closed = false; faulty = false }

-- File.Write under O_APPEND
unfoldable pub file_write : List ℕ → Exec File (Unit {0})
file_write p f =
    if f.closed || f.faulty then (err refused, f) else (ok tt, record f { bytes = f.bytes ++ p })

-- File.ReadAt into a buffer of `n` bytes: the bytes read, with io.EOF if they are fewer. The position
-- is an int64 given by its bit pattern: a negative one is refused.
unfoldable pub pread : ℕ → ℕ → File → List ℕ × Option Error
pread n off f =
    if f.closed || leb (2 ^ 63) off
    then ([], some refused)
    else let got = slice f.bytes off n in (got, if ltb (length got) n then some eof else none)

abbrev pub whole : List ℕ × Option Error → Result (List ℕ)
whole (bs, none) = ok bs
whole (bs, some e) = err e

unfoldable pub file_close : Exec File (Unit {0})
file_close f = if f.closed then (err refused, f) else (ok tt, record f { closed = true })

-- bufio.Writer: after one failed write of the file, every further call fails.
pub record Writer : Type 0 where
  pub file : File
  pub buffered : List ℕ
  pub failed : Bool

abbrev pub buf_size : ℕ
buf_size = 4096

-- The buffer goes to the file, and is kept if the file refuses it.
written : Result (Unit {0}) × File → Writer → Result (Unit {0}) × Writer
written (ok _, f) w = (ok tt, record { file = f; buffered = []; failed = false })
written (err e, f) w = (err e, record w { file = f; failed = true })
written (panic, f) w = (panic, record w { file = f })

unfoldable pub flush : Exec Writer (Unit {0})
unfolding written file_write
flush w =
    if w.failed
    then (err refused, w)
    else if is_empty w.buffered
    then (ok tt, w)
    else written (file_write w.buffered w.file) w

-- Writer.Write on an empty buffer: what does not fit it goes straight to the file.
write_rest : List ℕ → Exec Writer (Unit {0})
unfolding written file_write
write_rest p w =
    if leb (length p) buf_size
    then (ok tt, record w { buffered = p })
    else written (file_write p w.file) w

-- What fits the buffer waits there; else the buffer is filled up and flushed first.
unfoldable pub write : List ℕ → Exec Writer (Unit {0})
unfolding flush write_rest
write p w =
    let room = buf_size - length w.buffered in
    if w.failed
    then (err refused, w)
    else if leb (length p) room
    then (ok tt, record w { buffered = w.buffered ++ p })
    else if is_empty w.buffered
    then write_rest p w
    else (flush >> write_rest (drop room p)) (record w { buffered = w.buffered ++ take room p })

abbrev pub len_width : ℕ
len_width = 8

pub record Store : Type 0 where
  pub writer : Writer
  pub size : ℕ

abbrev pub on_writer : {A : Type 0} → Exec Writer A → Exec Store A
on_writer = within (λ s. s.writer) (λ w s. record s { writer = w })

-- newStore: the size of the file, and a new writer over it
unfoldable pub new_store : File → Store
new_store f = record {
  writer = record { file = f; buffered = []; failed = false };
  size = length f.bytes;
}

-- store.Append returns the bytes written and the position of the record.
unfoldable pub append : List ℕ → Exec Store (ℕ × ℕ)
append p = do
  pos ← gets (λ s. s.size)
  on_writer (write (put_uint len_width (length p)))
  on_writer (write p)
  let w = length p + len_width
  modify (λ s. record s { size = add64 s.size w })
  pure (w, pos)

-- make([]byte, n), which panics for a length that is no int
unfoldable pub buffer : ℕ → Result (Unit {0})
buffer n = if leb (2 ^ 63) n then panic else ok tt

-- store.Read
unfoldable pub read : ℕ → Exec Store (List ℕ)
read pos = do
  on_writer flush
  file ← gets (λ s. s.writer.file)
  size ← lift (whole (pread len_width pos file))
  lift (buffer (uint size))
  lift (whole (pread (uint size) (add64 pos len_width) file))

-- store.ReadAt into a buffer of `n` bytes: the bytes read and the error
unfoldable pub read_at : ℕ → ℕ → Exec Store (List ℕ × Option Error)
read_at n off = do on_writer flush; file ← gets (λ s. s.writer.file); pure (pread n off file)

-- store.Close
unfoldable pub close : Exec Store (Unit {0})
unfolding flush file_close
close = do
  on_writer flush
  on_writer (within (λ w. w.file) (λ f w. record w { file = f }) file_close)
