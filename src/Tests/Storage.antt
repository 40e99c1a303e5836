-- ===== src/Tests/Storage.antt =====
-- Runs of the store, the index, the segment and the file names.
use dislog.Prelude.{[], ◌∷◌, ◌++◌, true, ◌≡◌, refl, arith, ok, err, eof}
use dislog.Store.{opened, new_store}
use dislog.Store.Append.{IsSound, frame, new_store-IsSound}
use dislog.Index.{Index}
use dislog.Index.Entries.{Lists, encode-nil}
use dislog.Dir.{Dir}
use dislog.Segment
use dislog.Segment.{Segment, publish, new_segment}
use dislog.Segment.Layout.{IsSegment, frames, frames-nil, layout-nil}
use dislog.Segment.Append.{segment_append, append_full}
use dislog.Segment.Reopen.{reopen_lem, Fits}
use dislog.Tests.{
  codec, plain_map, hello, hello_bytes, config, fresh, fresh-IsSegment, fresh-HasRoom, single,
  single-IsSegment, single_base,
}

-- An index of three bytes
abbrev cramped : Index
cramped = record { file = opened []; mmap = 0 ∷ 0 ∷ 0 ∷ []; size = 0 }

cramped-Lists : Lists cramped []
cramped-Lists = record {
  image = [];
  is_open = refl;
  rest = 0 ∷ 0 ∷ 0 ∷ [];
  unused = refl;
  mapped = rw encode-nil;
  sized = refl;
  fits = omega arith;
}

segment_append_example :
    (s' : Segment) × (Segment.append hello fresh ≡ (ok 5, s'))
    × IsSegment s' (hello_bytes ∷ [])
    × (s'.base_offset ≡ 5)
    × (s'.next_offset ≡ 6)
    × (s'.config ≡ config)
segment_append_example = segment_append hello hello_bytes fresh-IsSegment fresh-HasRoom refl

abbrev narrow : Segment
narrow = record {
  store = new_store (opened []);
  index = cramped;
  base_offset = 5;
  next_offset = 5;
  config = record config { max_index_bytes = 3 };
}

narrow-IsSegment : IsSegment narrow []
narrow-IsSegment = record {
  stored = rw frames-nil (new_store-IsSound [] (omega arith));
  indexed = rw (layout-nil 0 0) cramped-Lists;
  counted = refl;
  in_range = omega arith;
  sparse = omega arith;
  capacity = refl;
}

append_full_example :
    (s' : Segment) × (Segment.append hello narrow ≡ (err eof, s'))
    × (s'.next_offset ≡ 5)
    × (s'.index ≡ cramped)
    × IsSound s'.store (frames [] ++ frame hello_bytes)
append_full_example =
    append_full hello hello_bytes narrow-IsSegment (omega arith) (rw frames-nil (omega arith)) refl

single-Fits : Fits single.base_offset config (hello_bytes ∷ [])
single-Fits = record {
  some_index = omega arith;
  small_index = omega arith;
  entries_fit = omega arith;
  few = omega arith;
  store_fits = single-IsSegment.stored.fits;
  offsets_fit = omega (arith, single_base);
}

reopen_lem_example :
    (s' : Segment) × (closed : Segment) × (d' : Dir) × (Segment.close single ≡ (ok tt, closed))
    × (new_segment single.base_offset config
          (publish closed (record { present = true; files = [] }))
        ≡ (ok s', d'))
    × IsSegment s' (hello_bytes ∷ [])
    × (s'.base_offset ≡ single.base_offset)
    × (s'.next_offset ≡ single.next_offset)
reopen_lem_example =
    reopen_lem config (record { present = true; files = [] }) single-IsSegment refl single-Fits
