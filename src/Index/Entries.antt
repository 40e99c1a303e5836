-- ===== src/Index/Entries.antt =====
-- What an index holds, as a list of entries, and index.Write.
use dislog.Prelude.{
  ℕ, ◌+◌, ◌-◌, ◌*◌, ◌^◌, ◌≤◌, ◌<◌, List, [], ◌∷◌, ◌++◌, ◌≡◌, refl, sym, ap, ◌∙◌, arith, ok, err,
  eof, length, drop, replicate, drop-replicate, write_at, length-append, length-drop,
  write_at-append, drop-drop, append_assoc, append-nil, le→ltb, lt→ltb, le→leb, add64,
}
use dislog.Prelude.Bytes.{put_uint, length-put_uint}
use dislog.Store.{opened}
use dislog.Index.{Index, write, write_entry, put_bytes, is_maxed, ent_width}

-- One entry in the file: the offset in four bytes and the position in eight.
abbrev pub entry : ℕ × ℕ → List ℕ
entry (off, pos) = put_uint 4 off ++ put_uint 8 pos

pub encode : List (ℕ × ℕ) → List ℕ
encode [] = []
encode (e ∷ es) = entry e ++ encode es

-- The file is open and takes writes, its map has the entries `es` and then zeros, and the size counts
-- the entries.
pub record Lists (i : Index) (es : List (ℕ × ℕ)) : Type 0 where
  pub image : List ℕ
  pub is_open : i.file ≡ opened image
  pub rest : List ℕ
  pub mapped : i.mmap ≡ encode es ++ rest
  pub unused : rest ≡ replicate (length rest) 0
  pub sized : i.size ≡ 12 * length es
  pub fits : length i.mmap < 2 ^ 63

pub length-entry : (e : ℕ × ℕ) → length (entry e) ≡ 12
length-entry (off, pos) = omega (
  arith,
  length-append (put_uint 4 off) (put_uint 8 pos),
  length-put_uint 4 off,
  length-put_uint 8 pos,
)

pub encode-nil : encode [] ≡ []
unfolding encode
encode-nil = refl

pub length-encode : (es : List (ℕ × ℕ)) → length (encode es) ≡ 12 * length es
unfolding encode
length-encode [] = omega arith
length-encode (e ∷ es) =
    omega (arith, length-append (entry e) (encode es), length-entry e, length-encode es)

pub encode-middle :
    (front back : List (ℕ × ℕ)) (e : ℕ × ℕ)
    → encode (front ++ (e ∷ back)) ≡ encode front ++ (entry e ++ encode back)
unfolding encode
encode-middle [] back e = refl
encode-middle (x ∷ front) back e =
    ap (λ t. entry x ++ t) (encode-middle front back e)
    ∙ sym (append_assoc (entry x) (encode front) (entry e ++ encode back))

pub encode-append : (es : List (ℕ × ℕ)) (e : ℕ × ℕ) → encode (es ++ e ∷ []) ≡ encode es ++ entry e
unfolding encode
encode-append [] e = append-nil (entry e)
encode-append (x ∷ es) e =
    ap (λ t. entry x ++ t) (encode-append es e) ∙ sym (append_assoc (entry x) (encode es) (entry e))

pub length-mmap :
    {i : Index} {es : List (ℕ × ℕ)} (h : Lists i es)
    → length i.mmap ≡ 12 * length es + length h.rest
length-mmap {i} {es} h =
    omega (arith, ap length h.mapped, length-append (encode es) h.rest, length-encode es)

-- Bytes that fit behind `front` overwrite what stood there.
put_bytes_lem :
    (front rest bs : List ℕ) (from : ℕ) (i : Index)
    → i.mmap ≡ front ++ rest
    → from ≡ length front
    → length bs ≤ length rest
    → put_bytes from bs i ≡ (ok tt, record i { mmap = front ++ (bs ++ drop (length bs) rest) })
unfolding put_bytes
put_bytes_lem front rest bs from i e h room =
    rw
      (le→leb (from + length bs) (length i.mmap)
        (omega (arith, ap length e, length-append front rest)))
      (ap (λ m. (ok tt, record i { mmap = m }))
        (ap (λ m. write_at m from bs) e ∙ write_at-append front rest bs from h))

-- The index after an entry was written behind `front`.
abbrev with_entry : Index → List ℕ → List ℕ → ℕ → ℕ → Index
with_entry i front rest off pos = record i {
  mmap = front ++ put_uint 4 off ++ (put_uint 8 pos ++ drop 8 (drop 4 rest));
  size = add64 i.size ent_width;
}

length-with_entry :
    (i : Index) (front rest : List ℕ) (off pos : ℕ)
    → length (with_entry i front rest off pos).mmap ≡ length front + 12 + (length rest - 4 - 8)
length-with_entry i front rest off pos = omega (
  arith,
  length-append (front ++ put_uint 4 off) (put_uint 8 pos ++ drop 8 (drop 4 rest)),
  length-append front (put_uint 4 off),
  length-append (put_uint 8 pos) (drop 8 (drop 4 rest)),
  length-put_uint 4 off,
  length-put_uint 8 pos,
  length-drop 8 (drop 4 rest),
  length-drop 4 rest,
)

write_entry_lem :
    (front rest : List ℕ) (off pos : ℕ) (i : Index)
    → i.mmap ≡ front ++ rest
    → i.size ≡ length front
    → 12 ≤ length rest
    → write_entry off pos i ≡ (ok tt, with_entry i front rest off pos)
unfolding write_entry
write_entry_lem front rest off pos i e h room =
    rw
      (put_bytes_lem front rest (put_uint 4 off) i.size i e h
        (omega (arith, length-put_uint 4 off)))
      (rw
        (put_bytes_lem (front ++ put_uint 4 off) (drop (length (put_uint 4 off)) rest)
          (put_uint 8 pos) (i.size + 4)
          (record i { mmap = front ++ (put_uint 4 off ++ drop (length (put_uint 4 off)) rest) })
          (sym (append_assoc front (put_uint 4 off) (drop (length (put_uint 4 off)) rest)))
          (omega (arith, h, length-append front (put_uint 4 off), length-put_uint 4 off))
          (omega (
            arith,
            length-put_uint 4 off,
            length-put_uint 8 pos,
            length-drop (length (put_uint 4 off)) rest,
          )))
        (rw (length-put_uint 4 off, length-put_uint 8 pos)))

unused_rest :
    (rest : List ℕ)
    → rest ≡ replicate (length rest) 0
    → drop 12 rest ≡ replicate (length (drop 12 rest)) 0
unused_rest rest h =
    ap (drop 12) h
    ∙ drop-replicate 12 (length rest) 0
    ∙ ap (λ (n : ℕ). replicate n 0) (sym (length-drop 12 rest))

-- A write into an index that has room for an entry appends the entry.
pub index_write :
    (off pos : ℕ) {i : Index} {es : List (ℕ × ℕ)}
    → Lists i es
    → 12 * length es + 12 ≤ length i.mmap
    → (i' : Index) × (write off pos i ≡ (ok tt, i'))
      × Lists i' (es ++ (off, pos) ∷ [])
      × (length i'.mmap ≡ length i.mmap)
unfolding write is_maxed
index_write off pos {i} {es} h room = (
  with_entry i (encode es) h.rest off pos,
  rw
      (le→ltb (length i.mmap) (add64 i.size ent_width)
        (omega (arith, h.sized, h.fits, length-mmap h)))
      (write_entry_lem (encode es) h.rest off pos i h.mapped
        (omega (arith, h.sized, length-encode es)) (omega (arith, length-mmap h))),
  record {
    image = h.image;
    is_open = h.is_open;
    rest = drop 12 h.rest;
    mapped = rw (encode-append es (off, pos), drop-drop 4 8 h.rest) (simp append_assoc);
    unused = unused_rest h.rest h.unused;
    sized = omega (arith, h.sized, h.fits, length-mmap h, length-append es ((off, pos) ∷ []));
    fits = omega (
      arith,
      h.fits,
      length-with_entry i (encode es) h.rest off pos,
      length-mmap h,
      length-encode es,
    );
  },
  omega (arith, length-with_entry i (encode es) h.rest off pos, length-mmap h, length-encode es),
)

-- A write into a full index is io.EOF and changes nothing.
pub write_full :
    (off pos : ℕ) {i : Index} {es : List (ℕ × ℕ)}
    → Lists i es
    → length i.mmap < 12 * length es + 12
    → write off pos i ≡ (err eof, i)
unfolding write is_maxed
write_full off pos {i} {es} h full = rw (
    lt→ltb (length i.mmap) (add64 i.size ent_width) (omega (arith, h.sized, h.fits, length-mmap h)))
