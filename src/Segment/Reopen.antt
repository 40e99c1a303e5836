-- ===== src/Segment/Reopen.antt =====
-- newSegment and segment.Close: opening the files that a closed segment left restores its records.
use dislog.Prelude.{
  ℕ, ◌+◌, ◌*◌, ◌^◌, ◌≤◌, ◌<◌, List, [], ◌∷◌, ◌++◌, true, ◌≡◌, ◌⊎◌, inl, inr, refl, ap, ◌∙◌, arith,
  length, length-append, ok,
}
use dislog.Store.{opened, new_store}
use dislog.Store.Append as StoreAppend
use dislog.Index
use dislog.Index.{Gommap, minus_one}
use dislog.Index.Entries.{encode}
use dislog.Index.Lifecycle
use dislog.Index.Reading
use dislog.Dir.{Dir, store_name, index_name, bytes_of, put_file, open_file}
use dislog.Dir.Files.{
  bytes_of-put_file_self, bytes_of-put_file_ne, bytes_of-put_file_same, present-put_file,
  store_name-ne-index_name,
}
use dislog.Segment.{Segment, Config, new_segment, next_of, open_index, close, publish}
use dislog.Segment.Layout.{frames, layout, length-layout, layout-nil, IsSegment}
use dislog.Segment.Read.{entry_lem}

-- The two files of a segment on disk, when it was closed with the records `ps`.
pub record OnDisk (d : Dir) (base : ℕ) (ps : List (List ℕ)) : Type 0 where
  pub is_there : d.present ≡ true
  pub store_file : bytes_of (store_name base) d ≡ frames ps
  pub index_file : bytes_of (index_name base) d ≡ encode (layout 0 0 ps)

snoc_cases :
    (ps : List (List ℕ))
    → (ps ≡ []) ⊎ ((front : List (List ℕ)) × (b : List ℕ) × (ps ≡ front ++ (b ∷ [])))
snoc_cases [] = inl refl
snoc_cases (p ∷ ps) = elim (snoc_cases ps) [
  | inl e ↦ inr ([], p, ap (λ t. p ∷ t) e)
  | inr (front, b, e) ↦ inr (p ∷ front, b, ap (λ t. p ∷ t) e)
]

-- The sizes under which a segment of the records `ps` can be opened.
pub record Fits (base : ℕ) (config : Config) (ps : List (List ℕ)) : Type 0 where
  pub some_index : 0 < config.max_index_bytes
  pub small_index : config.max_index_bytes < 2 ^ 63
  pub entries_fit : 12 * length ps ≤ config.max_index_bytes
  pub few : length ps < 2 ^ 32
  pub store_fits : length (frames ps) < 2 ^ 63
  pub offsets_fit : base + length ps < 2 ^ 63

pub open_file_lem :
    (name : List ℕ) (d : Dir)
    → d.present ≡ true
    → open_file name d ≡ (ok (bytes_of name d), put_file name (bytes_of name d) d)
unfolding open_file
open_file_lem name d h = rw h

-- The next offset that newSegment reads off an index of the records `ps`.
module _ (base : ℕ) (config : Config) where
  next_of-empty :
      {i : Index.Index}
      → Index.Entries.Lists i (layout 0 0 [])
      → next_of base (Index.read minus_one i).0 ≡ ok base
  unfolding next_of
  next_of-empty h = rw (Reading.read_empty minus_one (rw (layout-nil 0 0) at h))

  next_of-snoc :
      (front : List (List ℕ)) (b : List ℕ) {i : Index.Index}
      → Fits base config (front ++ (b ∷ []))
      → Index.Entries.Lists i (layout 0 0 (front ++ (b ∷ [])))
      → next_of base (Index.read minus_one i).0 ≡ ok (base + length (front ++ (b ∷ [])))
  unfolding next_of
  next_of-snoc front b f h =
      rw (entry_lem minus_one front [] b h f.few f.store_fits (inr (refl, refl)))
        (ap ok (omega (arith, f.offsets_fit, length-append front (b ∷ []))))

  next_of_lem :
      (ps : List (List ℕ)) {i : Index.Index}
      → Fits base config ps
      → Index.Entries.Lists i (layout 0 0 ps)
      → next_of base (Index.read minus_one i).0 ≡ ok (base + length ps)
  next_of_lem ps {i} f h = elim (snoc_cases ps) [
    | inl e ↦ next_of-empty (rw e at h) ∙ ap ok (omega (arith, ap length e))
    | inr (front, b, e) ↦ rw e (next_of-snoc front b (rw e at f) (rw e at h))
  ]

-- The directory after the two files were opened.
abbrev pub touched : ℕ → Dir → Dir
touched base d =
    let d1 = put_file (store_name base) (bytes_of (store_name base) d) d in
    put_file (index_name base) (bytes_of (index_name base) d1) d1

pub bytes_of-touched :
    (base : ℕ) (name : List ℕ) (d : Dir) → bytes_of name (touched base d) ≡ bytes_of name d
bytes_of-touched base name d =
    bytes_of-put_file_same (index_name base) name _
    ∙ bytes_of-put_file_same (store_name base) name d

module _ ⦃g : Gommap⦄ where
  -- Opening the index file that a closed segment of the records `ps` left.
  open_index_lem :
      (base : ℕ) (config : Config) (ps : List (List ℕ))
      → Fits base config ps
      → (i : Index.Index) × (open_index (encode (layout 0 0 ps)) config.max_index_bytes ≡ ok i)
        × Index.Entries.Lists i (layout 0 0 ps)
        × (length i.mmap ≡ config.max_index_bytes)
  unfolding open_index
  open_index_lem base config ps f =
      let (i, e, h, full) =
        Lifecycle.new_index_lem (layout 0 0 ps) config.max_index_bytes f.some_index f.small_index
          (omega (arith, f.entries_fit, length-layout 0 0 ps)) in
      (i, ap (λ r. r.0) e, h, full)

  -- Opening the files of a closed segment, or creating those of a new one, gives a segment with the
  -- records that the files hold, and no file changes.
  pub new_segment_lem :
      (base : ℕ) (config : Config) (ps : List (List ℕ)) (d : Dir)
      → OnDisk d base ps
      → Fits base config ps
      → (s : Segment) × (d' : Dir) × (new_segment base config d ≡ (ok s, d'))
        × IsSegment s ps
        × (s.base_offset ≡ base)
        × (s.config ≡ config)
        × (d'.present ≡ true)
        × ((name : List ℕ) → bytes_of name d' ≡ bytes_of name d)
        × (d' ≡ touched base d)
  unfolding new_segment
  new_segment_lem base config ps d on f =
      let (i, e, h, full) = open_index_lem base config ps f in
      let d1 = put_file (store_name base) (bytes_of (store_name base) d) d in
      let there : d1.present ≡ true = present-put_file (store_name base) _ d ∙ on.is_there in
      (
        record {
          store = new_store (opened (frames ps));
          index = i;
          base_offset = base;
          next_offset = base + length ps;
          config = config;
        },
        touched base d,
        rw (open_file_lem (store_name base) d on.is_there, open_file_lem (index_name base) d1 there)
            (rw
              (
                bytes_of-put_file_same (store_name base) (index_name base) d,
                on.store_file,
                on.index_file,
              )
              (rw (e, next_of_lem base config ps f h))),
        record {
          stored = StoreAppend.new_store-IsSound (frames ps) f.store_fits;
          indexed = h;
          counted = refl;
          in_range = f.offsets_fit;
          sparse = f.few;
          capacity = full;
        },
        refl,
        refl,
        present-put_file (index_name base) _ d1 ∙ there,
        λ name. bytes_of-touched base name d,
        refl,
      )

  -- Closing a segment leaves the frames and the entries of its records in its files.
  pub segment_close :
      {s : Segment} {ps : List (List ℕ)}
      → IsSegment s ps
      → (s' : Segment) × (close s ≡ (ok tt, s'))
        × (s'.base_offset ≡ s.base_offset)
        × (s'.store.writer.file.bytes ≡ frames ps)
        × (s'.index.file.bytes ≡ encode (layout 0 0 ps))
  unfolding close
  segment_close {s} h =
      let (i, e, entries) = Lifecycle.index_close h.indexed in
      let (st, e', kept) = StoreAppend.store_close h.stored in
      (record s { store = st; index = i }, rw (e, e'), refl, kept, entries)

-- The directory that shows the bytes of a closed segment has that segment on disk.
pub publish-OnDisk :
    (s : Segment) (ps : List (List ℕ)) (d : Dir)
    → d.present ≡ true
    → s.store.writer.file.bytes ≡ frames ps
    → s.index.file.bytes ≡ encode (layout 0 0 ps)
    → OnDisk (publish s d) s.base_offset ps
unfolding publish
publish-OnDisk s ps d there kept entries =
    let d1 = put_file (index_name s.base_offset) s.index.file.bytes d in
    record {
      is_there =
          present-put_file (store_name s.base_offset) _ d1
          ∙ present-put_file (index_name s.base_offset) s.index.file.bytes d
          ∙ there;
      store_file = bytes_of-put_file_self (store_name s.base_offset) _ d1 ∙ kept;
      index_file =
          bytes_of-put_file_ne (store_name s.base_offset) _ d1 (index_name s.base_offset)
            (store_name-ne-index_name s.base_offset s.base_offset)
          ∙ bytes_of-put_file_self (index_name s.base_offset) s.index.file.bytes d
          ∙ entries;
    }

module _ ⦃g : Gommap⦄ where
  -- Closing a segment and opening it again, under any configuration that has room for its entries,
  -- restores its records, its base offset and its next offset.
  pub reopen_lem :
      (config : Config) (d : Dir) {s : Segment} {ps : List (List ℕ)}
      → IsSegment s ps
      → d.present ≡ true
      → Fits s.base_offset config ps
      → (s' : Segment) × (closed : Segment) × (d' : Dir) × (close s ≡ (ok tt, closed))
        × (new_segment s.base_offset config (publish closed d) ≡ (ok s', d'))
        × IsSegment s' ps
        × (s'.base_offset ≡ s.base_offset)
        × (s'.next_offset ≡ s.next_offset)
  reopen_lem config d {s} {ps} h there f =
      let (closed, e, same, kept, entries) = segment_close h in
      let disk : OnDisk (publish closed d) s.base_offset ps =
        rw (← same) (publish-OnDisk closed ps d there kept entries) in
      let (s', d', e', h', base, _, _, _, _) =
        new_segment_lem s.base_offset config ps (publish closed d) disk f in
      (s', closed, d', e, e', h', base, omega (arith, h.counted, h'.counted, base))
