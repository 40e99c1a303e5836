-- ===== src/Store/Append.antt =====
-- store.Append on a store whose file takes writes: the framing, the position and the size.
use dislog.Prelude.{
  true, ℕ, ◌+◌, ◌^◌, ◌<◌, List, [], ◌++◌, ◌≡◌, refl, ap, arith, ok, length, length-append,
  append_assoc, append-nil, add64,
}
use dislog.Prelude.Bytes.{put_uint, length-put_uint}
use dislog.Store.{Store, opened, len_width, new_store, append, close}
use dislog.Store.Contents.{Holds, working, writer_write, flush_lem}

-- A record as the store lays it out: its length in eight bytes, and the bytes.
abbrev pub frame : List ℕ → List ℕ
frame p = put_uint len_width (length p) ++ p

-- The store works and holds the bytes `c`, and its size counts them. A file is shorter than 2 ^ 63.
pub record IsSound (s : Store) (c : List ℕ) : Type 0 where
  pub held : Holds s.writer c
  pub sized : s.size ≡ length c
  pub fits : length c < 2 ^ 63

pub length-frame : (p : List ℕ) → length (frame p) ≡ length p + 8
length-frame p =
    omega (arith, length-append (put_uint 8 (length p)) p, length-put_uint 8 (length p))

-- A new store over a file holds the bytes of the file.
pub new_store-IsSound : (c : List ℕ) → length c < 2 ^ 63 → IsSound (new_store (opened c)) c
unfolding new_store
new_store-IsSound c h = record {
  held = record { on_disk = c; waiting = []; works = refl; joined = append-nil c };
  sized = refl;
  fits = h;
}

-- Appending `p` to a sound store that has room succeeds: it returns the bytes written and the
-- position, which is the old size, and the store then holds the frame of `p` behind what it held.
pub store_append :
    (p : List ℕ) {s : Store} {c : List ℕ}
    → IsSound s c
    → length c + length p + 8 < 2 ^ 63
    → (s' : Store) × (append p s ≡ (ok (length p + 8, length c), s')) × IsSound s' (c ++ frame p)
unfolding append
store_append p {s} {c} h room =
    let (w, e, hw) = writer_write (put_uint len_width (length p)) h.held in
    let (w', e', hw') = writer_write p hw in
    (
      record { writer = w'; size = add64 s.size (length p + 8) },
      rw (e, e')
          (ap
            (λ n.
              (ok (length p + 8, n), record { writer = w'; size = add64 s.size (length p + 8) }))
            h.sized),
      record {
        held = rw append_assoc at hw';
        sized = omega (arith, h.sized, length-append c (frame p), length-frame p);
        fits = omega (arith, length-append c (frame p), length-frame p);
      },
    )

-- Closing a sound store leaves its bytes in the file.
pub store_close :
    {s : Store} {c : List ℕ}
    → IsSound s c
    → (s' : Store) × (close s ≡ (ok tt, s')) × (s'.writer.file.bytes ≡ c)
unfolding close
store_close {s} {c} h = (
  record {
    writer = record (working c []) { file = record (opened c) { closed = true } };
    size = s.size;
  },
  rw (flush_lem h.held),
  refl,
)
