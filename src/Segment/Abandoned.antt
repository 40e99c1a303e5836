-- ===== src/Segment/Abandoned.antt =====
-- A segment that was not closed: what its two files hold, and what newSegment makes of them. The map of
-- the index is shared with its file, and the buffer of the store is lost with the process.
use dislog.Prelude.{
  ℕ, ◌+◌, ◌*◌, ◌/◌, ◌^◌, ◌≤◌, ◌<◌, List, true, ◌≡◌, refl, ap, ◌∙◌, arith, length, ok, add64,
}
use dislog.Store.{opened, new_store}
use dislog.Index.{Gommap}
use dislog.Index.Abandoned.{stretched, new_index_abandoned, stretched_maxed, stretched_read}
use dislog.Dir.{Dir, store_name, index_name, bytes_of, put_file}
use dislog.Dir.Files.{
  bytes_of-put_file_self, bytes_of-put_file_ne, bytes_of-put_file_same, present-put_file,
  store_name-ne-index_name,
}
use dislog.Segment.{Segment, new_segment, next_of, open_index, is_maxed}
use dislog.Segment.Layout.{layout, IsSegment, length-layout}
use dislog.Segment.Reopen.{open_file_lem, touched}

-- The directory shows the bytes that the files have while the segment is open.
unfoldable pub leave_open : Segment → Dir → Dir
leave_open s d =
    put_file (store_name s.base_offset) s.store.writer.file.bytes
      (put_file (index_name s.base_offset) s.index.mmap d)

-- The segment that newSegment makes of these files.
abbrev pub found : Segment → Segment
found s = record {
  store = new_store (opened s.store.writer.file.bytes);
  index = stretched s.index.mmap;
  base_offset = s.base_offset;
  next_offset = s.base_offset + 1;
  config = s.config;
}

module _ ⦃g : Gommap⦄ where
  -- A segment that was not closed, and whose index had room, is opened as a segment of one record,
  -- however many it had, and as one that is full.
  pub new_segment_abandoned :
      (s : Segment) (ps : List (List ℕ)) (d : Dir)
      → IsSegment s ps
      → d.present ≡ true
      → 0 < s.config.max_index_bytes
      → s.config.max_index_bytes < 2 ^ 34
      → 12 * length ps + 12 ≤ s.config.max_index_bytes / 12 * 12
      → (new_segment s.base_offset s.config (leave_open s d)
          ≡ (ok (found s), touched s.base_offset (leave_open s d)))
        × (is_maxed (found s) ≡ true)
  unfolding new_segment next_of open_index is_maxed leave_open
  new_segment_abandoned s ps d h there some_index small room =
      let base = s.base_offset in
      let stored = s.store.writer.file.bytes in
      let mapped = s.index.mmap in
      let d1 = put_file (index_name base) mapped d in
      let d2 = leave_open s d in
      let d3 = put_file (store_name base) (bytes_of (store_name base) d2) d2 in
      let there2 : d2.present ≡ true =
        present-put_file (store_name base) stored d1
        ∙ present-put_file (index_name base) mapped d
        ∙ there in
      let there3 : d3.present ≡ true = present-put_file (store_name base) _ d2 ∙ there2 in
      let store_bytes : bytes_of (store_name base) d2 ≡ stored =
        bytes_of-put_file_self (store_name base) stored d1 in
      let index_bytes : bytes_of (index_name base) d3 ≡ mapped =
        bytes_of-put_file_same (store_name base) (index_name base) d2
        ∙ bytes_of-put_file_ne (store_name base) stored d1 (index_name base)
            (store_name-ne-index_name base base)
        ∙ bytes_of-put_file_self (index_name base) mapped d in
      let width = h.capacity in
      let wide : length s.index.mmap < 2 ^ 34 = omega (arith, width, small) in
      let last_slot : 12 * length (layout 0 0 ps) + 12 ≤ length s.index.mmap / 12 * 12 =
        omega (arith, length-layout 0 0 ps, room, ap (λ (n : ℕ). n / 12) width) in
      let next : add64 (add64 base 0) 1 ≡ base + 1 = omega (arith, h.counted, h.in_range) in
      (
        rw (open_file_lem (store_name base) d2 there2, open_file_lem (index_name base) d3 there3)
            (rw (index_bytes, store_bytes)
              (rw
                (
                  open_index,
                  new_index_abandoned s.config.max_index_bytes mapped width some_index
                      (omega (arith, small)),
                )
                (rw (stretched_read h.indexed last_slot wide) (rw next refl)))),
        ground (arith, width, stretched_maxed mapped (omega (arith, wide))),
      )
