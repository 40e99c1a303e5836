-- ===== src/Index/Reading.antt =====
-- index.Read: by number, the last entry, and io.EOF.
use dislog.Prelude.{
  ◌⊎◌, inl, inr, ne→==, ℕ, ◌+◌, ◌*◌, ◌^◌, ◌≤◌, ◌<◌, List, [], ◌∷◌, ◌++◌, ◌≡◌, sym, ap, ◌∙◌, arith,
  ok, err, eof, length, slice, length-append, slice_middle, append_assoc, le→ltb, le→leb, add64,
}
use dislog.Prelude.Bytes.{put_uint, length-put_uint, uint-put_uint}
use dislog.Index.{Index, read, read_entry, cut, minus_one, entry_number, ent_width}
use dislog.Index.Entries.{entry, encode, Lists, length-encode, length-mmap, encode-middle}

cut_middle :
    (front mid back : List ℕ) (from n : ℕ) (i : Index)
    → i.mmap ≡ front ++ (mid ++ back)
    → from ≡ length front
    → n ≡ length mid
    → cut from n i ≡ (ok mid, i)
unfolding cut
cut_middle front mid back from n i e h k =
    rw
      (le→leb (from + n) (length i.mmap)
        (omega (arith, ap length e, length-append front (mid ++ back), length-append mid back)))
      (ap (λ m. (ok m, i)) (ap (λ m. slice m from n) e ∙ slice_middle front mid back from n h k))

-- The entry that stands behind `front` in the map.
pub read_entry_lem :
    (front back : List ℕ) (off pos from : ℕ) (i : Index)
    → i.mmap ≡ front ++ (entry (off, pos) ++ back)
    → from ≡ length front
    → off < 2 ^ 32
    → pos < 2 ^ 64
    → read_entry from i ≡ (ok (off, pos), i)
unfolding read_entry
read_entry_lem front back off pos from i e h lo hi =
    rw
      (cut_middle front (put_uint 4 off) (put_uint 8 pos ++ back) from 4 i (e ∙ simp append_assoc) h
        (sym (length-put_uint 4 off)))
      (rw
        (cut_middle (front ++ put_uint 4 off) (put_uint 8 pos) back (from + 4) 8 i
          (e ∙ simp append_assoc)
          (omega (arith, h, length-append front (put_uint 4 off), length-put_uint 4 off))
          (sym (length-put_uint 8 pos)))
        (rw (uint-put_uint 4 off (omega arith), uint-put_uint 8 pos (omega arith))))

-- A number that names an entry: the position in the list, or -1 for the last entry.
abbrev pub Names : ℕ → List (ℕ × ℕ) → List (ℕ × ℕ) → Type 0
Names n front back = (n ≡ length front) ⊎ ((n ≡ minus_one) × (back ≡ []))

entry_number_lem :
    (n : ℕ) (front back : List (ℕ × ℕ)) (e : ℕ × ℕ) {i : Index}
    → Lists i (front ++ (e ∷ back))
    → length (front ++ (e ∷ back)) < 2 ^ 32
    → Names n front back
    → entry_number n i ≡ length front
entry_number_lem n front back e {i} h small (inl p) = ground (arith, length-append front (e ∷ back))
entry_number_lem n front back e {i} h small (inr (p, q)) =
    ground (arith, h.sized, length-append front (e ∷ back), ap length q)

-- Reading an entry by its number, or the last one by -1, returns what was written.
pub index_read :
    (n : ℕ) (front back : List (ℕ × ℕ)) (off pos : ℕ) {i : Index}
    → Lists i (front ++ ((off, pos) ∷ back))
    → length (front ++ ((off, pos) ∷ back)) < 2 ^ 32
    → off < 2 ^ 32
    → pos < 2 ^ 64
    → Names n front back
    → read n i ≡ (ok (off, pos), i)
unfolding read
index_read n front back off pos {i} h small lo hi named =
    let count = length-append front ((off, pos) ∷ back) in
    rw (ne→== i.size 0 (λ e. omega (arith, h.sized, count))) (
      rw (entry_number_lem n front back (off, pos) h small named) (
        rw
          (le→ltb i.size (add64 (length front * ent_width) ent_width)
            (omega (arith, h.sized, h.fits, length-mmap h, count)))
          (read_entry_lem (encode front) (encode back ++ h.rest) off pos (length front * ent_width)
            i (h.mapped ∙ rw (encode-middle front back (off, pos)) (simp append_assoc))
            (omega (arith, length-encode front)) lo hi)))

-- Numbers past the last entry, up to the width of the offset, are io.EOF.
pub index_read_past :
    (n : ℕ) {i : Index} {es : List (ℕ × ℕ)}
    → Lists i es
    → length es ≤ n
    → n < 2 ^ 32
    → read n i ≡ (err eof, i)
unfolding read
index_read_past n {i} {es} h past small = ground (arith, h.sized, h.fits, length-mmap h)

-- An index without entries answers io.EOF to every number, -1 among them.
pub read_empty : (n : ℕ) {i : Index} → Lists i [] → read n i ≡ (err eof, i)
unfolding read
read_empty n {i} h = ground (arith, h.sized)
