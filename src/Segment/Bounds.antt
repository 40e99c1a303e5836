-- ===== src/Segment/Bounds.antt =====
-- segment.IsMaxed in terms of the records, and the room that it leaves.
use dislog.Prelude.{
  ℕ, ◌+◌, ◌*◌, ◌^◌, ◌≤◌, ◌<◌, List, [], ◌∷◌, Bool, true, false, ◌||◌, ◌≡◌, ap, ◌∙◌, arith, length,
  leb, ltb, add64,
}
use dislog.Index
use dislog.Segment.{Segment, Config, is_maxed}
use dislog.Segment.Layout.{frames, frames-nil, length-layout, IsSegment}
use dislog.Segment.Append.{HasRoom}

-- IsMaxed by the bytes of the frames and the number of entries.
abbrev pub is_full : Config → ℕ → ℕ → Bool
is_full c bytes entries =
    leb c.max_store_bytes bytes
    || leb c.max_index_bytes (12 * entries)
    || ltb c.max_index_bytes (12 * entries + 12)

-- IsMaxed answers whether the frames reach MaxStoreBytes, or the entries reach MaxIndexBytes or leave
-- no room for one entry more.
pub is_maxed_lem :
    {s : Segment} {ps : List (List ℕ)}
    → IsSegment s ps
    → is_maxed s ≡ is_full s.config (length (frames ps)) (length ps)
unfolding is_maxed Index.is_maxed
is_maxed_lem {s} {ps} h =
    let entries : s.index.size ≡ 12 * length ps =
      omega (arith, h.indexed.sized, length-layout 0 0 ps) in
    let next : add64 s.index.size 12 ≡ 12 * length ps + 12 = omega (arith, entries, h.sparse) in
    rw (h.stored.sized, h.capacity, next, entries)

-- An empty segment is not maxed, if the configuration has room for one entry and a store at all.
pub empty_not_maxed :
    {s : Segment}
    → IsSegment s []
    → 12 ≤ s.config.max_index_bytes
    → 0 < s.config.max_store_bytes
    → is_maxed s ≡ false
empty_not_maxed {s} h one some_store =
    is_maxed_lem h ∙ none_full s.config (length (frames [])) empty one some_store
  where
    empty : length (frames []) ≡ 0
    empty = ap length frames-nil

    none_full :
        (c : Config) (n : ℕ)
        → n ≡ 0
        → 12 ≤ c.max_index_bytes
        → 0 < c.max_store_bytes
        → is_full c n 0 ≡ false
    none_full c n e one some_store = ground arith

-- A segment that is not maxed has room for one entry, and its frames are below MaxStoreBytes.
pub not_maxed_space :
    {s : Segment} {ps : List (List ℕ)}
    → IsSegment s ps
    → is_maxed s ≡ false
    → (12 * length ps + 12 ≤ s.config.max_index_bytes)
      × (length (frames ps) < s.config.max_store_bytes)
not_maxed_space {s} {ps} h m =
    has_space s.config (length (frames ps)) (length ps) (rw (is_maxed_lem h) at m)
  where
    has_space :
        (c : Config) (n k : ℕ)
        → is_full c n k ≡ false
        → (12 * k + 12 ≤ c.max_index_bytes) × (n < c.max_store_bytes)
    has_space c n k e = ground arith

-- A segment that is not maxed has room for one more record, within the ranges of the machine.
pub not_maxed-HasRoom :
    (b : List ℕ) {s : Segment} {ps : List (List ℕ)}
    → IsSegment s ps
    → is_maxed s ≡ false
    → s.config.max_index_bytes < 2 ^ 34
    → s.config.max_store_bytes + length b + 8 < 2 ^ 63
    → s.next_offset + 1 < 2 ^ 63
    → HasRoom s ps b
not_maxed-HasRoom b {s} {ps} h m small fits offsets =
    let (room, space) = not_maxed_space h m in
    record {
      entry_room = room;
      store_room = omega (arith, space, fits);
      offset_room = offsets;
      number_room = omega (arith, room, small);
    }

-- A maxed segment has a record, under the same conditions.
pub maxed_some :
    (ps : List (List ℕ)) {s : Segment}
    → IsSegment s ps
    → is_maxed s ≡ true
    → 12 ≤ s.config.max_index_bytes
    → 0 < s.config.max_store_bytes
    → 0 < length ps
maxed_some [] h m one some_store = cc (empty_not_maxed h one some_store)
maxed_some (p ∷ ps) h m one some_store = omega arith
