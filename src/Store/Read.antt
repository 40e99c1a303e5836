-- ===== src/Store/Read.antt =====
-- store.Read on a store whose file takes writes: what was appended is read back.
use dislog.Prelude.{
  add64, ℕ, ◌+◌, ◌^◌, ◌<◌, List, [], ◌++◌, ◌≡◌, refl, sym, ap, arith, ok, err, eof, length,
  length-append, length-take, length-drop, drop, slice, slice_middle, append_assoc, append-nil,
  lt→leb, le→ltb, lt→ltb,
}
use dislog.Prelude.Bytes.{put_uint, uint, length-put_uint, uint-put_uint}
use dislog.Store.{Store, opened, pread, whole, len_width, buffer, read}
use dislog.Store.Contents.{working, flush_lem}
use dislog.Store.Append.{frame, IsSound, length-frame}

-- Reading exactly the bytes between `front` and `back` of a file.
pub pread_middle :
    (front mid back : List ℕ) (n off : ℕ)
    → n ≡ length mid
    → off ≡ length front
    → length front < 2 ^ 63
    → whole (pread n off (opened (front ++ (mid ++ back)))) ≡ ok mid
unfolding pread
pread_middle front mid back n off hn ho fits =
    rw (lt→leb (2 ^ 63) off (omega arith), slice_middle front mid back off n ho hn)
      (rw (le→ltb (length mid) n (omega arith)))

-- The store after a read: its buffer went to the file.
abbrev pub flushed_store : Store → List ℕ → Store
flushed_store s c = record s { writer = working c [] }

pub flushed_store-IsSound : {s : Store} {c : List ℕ} → IsSound s c → IsSound (flushed_store s c) c
flushed_store-IsSound {s} {c} h = record {
  held = record { on_disk = c; waiting = []; works = refl; joined = append-nil c };
  sized = h.sized;
  fits = h.fits;
}

-- The two reads of `store.Read` on a file that holds the frame of `p` behind `front`.
module _ (front p back c : List ℕ) (e : c ≡ front ++ (frame p ++ back))
    (fits : length c < 2 ^ 63) where
  counted : length c ≡ length front + (length p + 8) + length back
  counted = omega (
    arith,
    ap length e,
    length-append front (frame p ++ back),
    length-append (frame p) back,
    length-frame p,
  )

  read_prefix :
      whole (pread len_width (length front) (opened c)) ≡ ok (put_uint len_width (length p))
  read_prefix =
      rw (e, append_assoc)
        (pread_middle front (put_uint len_width (length p)) (p ++ back) len_width (length front)
          (sym (length-put_uint 8 (length p))) refl (omega (arith, counted)))

  read_buffer : buffer (uint (put_uint len_width (length p))) ≡ ok tt
  unfolding buffer
  read_buffer =
      rw
        (
          uint-put_uint 8 (length p) (omega (arith, counted)),
          lt→leb (2 ^ 63) (length p) (omega (arith, counted)),
        )
        refl

  prefixed : length (front ++ put_uint len_width (length p)) ≡ length front + 8
  prefixed =
      omega
        (arith, length-append front (put_uint len_width (length p)), length-put_uint 8 (length p))

  read_payload :
      whole
        (pread (uint (put_uint len_width (length p))) (add64 (length front) len_width) (opened c))
      ≡ ok p
  read_payload =
      rw (e, append_assoc, ← append_assoc front (put_uint len_width (length p)) (p ++ back))
        (pread_middle (front ++ put_uint len_width (length p)) p back _ _
          (uint-put_uint 8 (length p) (omega (arith, counted))) (omega (arith, counted, prefixed))
          (omega (arith, counted, prefixed)))

-- Wherever the frame of `p` stands in a sound store, reading at its position returns `p`, whether
-- the frame is still in the buffer or not, and the store holds what it held.
pub read_frame :
    (front p back : List ℕ) {s : Store} {c : List ℕ}
    → IsSound s c
    → c ≡ front ++ (frame p ++ back)
    → read (length front) s ≡ (ok p, flushed_store s c)
unfolding read
read_frame front p back {s} {c} h e = rw (flush_lem h.held) (
    rw (read_prefix front p back c e h.fits, read_buffer front p back c e h.fits)
      (rw (read_payload front p back c e h.fits)))

slice_short : (pos : ℕ) (c : List ℕ) → length c < pos + 8 → length (slice c pos 8) < 8
slice_short pos c h = omega (arith, length-take 8 (drop pos c), length-drop pos c)

-- Reading where fewer than eight bytes are left is io.EOF.
pub store_read_past :
    (pos : ℕ) {s : Store} {c : List ℕ}
    → IsSound s c
    → pos < 2 ^ 63
    → length c < pos + 8
    → read pos s ≡ (err eof, flushed_store s c)
unfolding read pread
store_read_past pos {s} {c} h lo hi = rw (flush_lem h.held) (
    rw (lt→leb (2 ^ 63) pos (omega arith))
      (rw (lt→ltb (length (slice c pos 8)) 8 (slice_short pos c hi))))
