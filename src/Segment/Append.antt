-- ===== src/Segment/Append.antt =====
-- segment.Append on a segment with room: the record gets the next offset, and is stored behind the
-- others. The errors: a message that cannot be encoded, and an index that is full.
use dislog.Prelude.{
  ℕ, ◌+◌, ◌*◌, ◌%◌, ◌^◌, ◌≤◌, ◌<◌, List, [], ◌∷◌, ◌++◌, ◌≡◌, refl, ◌∙◌, arith, length,
  length-append, ok, err, Error, eof, add64, sub64,
}
use dislog.Api.{Record, Proto}
use dislog.Store.Append as StoreAppend
use dislog.Store.Append.{frame}
use dislog.Index.Entries
use dislog.Segment.{Segment, append}
use dislog.Segment.Layout.{
  frames, frames-append, frames_single, length-layout, layout_snoc, IsSegment,
}

-- Room for one more record of `p`: an entry in the index, the frame in the store, an offset.
pub record HasRoom (s : Segment) (ps : List (List ℕ)) (p : List ℕ) : Type 0 where
  pub entry_room : 12 * length ps + 12 ≤ s.config.max_index_bytes
  pub store_room : length (frames ps) + length p + 8 < 2 ^ 63
  pub offset_room : s.next_offset + 1 < 2 ^ 63
  pub number_room : length ps + 1 < 2 ^ 32

module _ ⦃p : Proto⦄ where
  -- Where there is room, Append answers the next offset: the segment then holds the encoded record, with
  -- that offset in it, behind the others, under the same base offset and configuration.
  pub segment_append :
      (r : Record) (b : List ℕ) {s : Segment} {ps : List (List ℕ)}
      → IsSegment s ps
      → HasRoom s ps b
      → p.marshal (record r { offset = s.next_offset }) ≡ ok b
      → (s' : Segment) × (append r s ≡ (ok s.next_offset, s'))
        × IsSegment s' (ps ++ (b ∷ []))
        × (s'.base_offset ≡ s.base_offset)
        × (s'.next_offset ≡ s.next_offset + 1)
        × (s'.config ≡ s.config)
  unfolding append
  segment_append r b {s} {ps} h room m =
      let (st, e, hs) = StoreAppend.store_append b h.stored room.store_room in
      let n : ℕ = sub64 s.next_offset s.base_offset % 2 ^ 32 in
      let (ix, e', hi, full) =
        Entries.index_write n (length (frames ps)) h.indexed
          (omega (arith, length-layout 0 0 ps, room.entry_room, h.capacity)) in
      (
        record {
          store = st;
          index = ix;
          base_offset = s.base_offset;
          next_offset = add64 s.next_offset 1;
          config = s.config;
        },
        rw (m, e, e'),
        record {
          stored = rw (frames-append ps (b ∷ []), frames_single b) hs;
          indexed = rw (layout_snoc n ps b (omega (arith, h.counted, h.in_range, h.sparse))) hi;
          counted = omega (arith, h.counted, room.offset_room, length-append ps (b ∷ []));
          in_range = omega (arith, room.offset_room);
          sparse = omega (arith, room.number_room, length-append ps (b ∷ []));
          capacity = full ∙ h.capacity;
        },
        refl,
        omega (arith, room.offset_room),
        refl,
      )

  -- On a message that cannot be encoded Append answers the error, and the segment is as it was.
  pub append_malformed :
      (r : Record) (e : Error) (s : Segment)
      → p.marshal (record r { offset = s.next_offset }) ≡ err e
      → append r s ≡ (err e, s)
  unfolding append
  append_malformed r e s m = rw m

  -- On a full index Append is io.EOF; the offset is not used up, but the frame stays in the store.
  pub append_full :
      (r : Record) (b : List ℕ) {s : Segment} {ps : List (List ℕ)}
      → IsSegment s ps
      → s.config.max_index_bytes < 12 * length ps + 12
      → length (frames ps) + length b + 8 < 2 ^ 63
      → p.marshal (record r { offset = s.next_offset }) ≡ ok b
      → (s' : Segment) × (append r s ≡ (err eof, s'))
        × (s'.next_offset ≡ s.next_offset)
        × (s'.index ≡ s.index)
        × StoreAppend.IsSound s'.store (frames ps ++ frame b)
  unfolding append
  append_full r b {s} {ps} h full room m =
      let (st, e, hs) = StoreAppend.store_append b h.stored room in
      (
        record s { store = st },
        rw (m, e)
            (rw (
              Entries.write_full (sub64 s.next_offset s.base_offset % 2 ^ 32) (length (frames ps))
                h.indexed (omega (arith, length-layout 0 0 ps, h.capacity, full)))),
        refl,
        refl,
        hs,
      )
