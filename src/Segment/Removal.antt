-- ===== src/Segment/Removal.antt =====
-- segment.Remove: the segment's two files go, and no other.
use dislog.Prelude.{ℕ, List, ◌≡◌, ◌≢◌, refl, ok}
use dislog.Dir.{Dir, Text, bytes_of, store_name, index_name}
use dislog.Dir.Files.{store_name-ne-index_name}
use dislog.Dir.Removal.{removed_both, remove_written, bytes_of-removed_both, present-removed_both}
use dislog.Segment.{Segment, publish, remove_files}

-- The directory after the segment's files were removed.
pub record Removed (s : Segment) (d d' : Dir) : Type 0 where
  pub still_there : d'.present ≡ d.present
  pub others :
      (name : Text)
      → store_name s.base_offset ≢ name
      → index_name s.base_offset ≢ name
      → bytes_of name d' ≡ bytes_of name d
  pub path :
      (bs : List ℕ) × (bi : List ℕ) × (d'
        ≡ removed_both
            (store_name s.base_offset)
            (index_name s.base_offset)
            bs
            bi
            d
            (store_name-ne-index_name s.base_offset s.base_offset))

pub remove_files-publish :
    (s : Segment) (d : Dir)
    → (d' : Dir) × (remove_files s (publish s d) ≡ (ok tt, d')) × Removed s d d'
unfolding remove_files publish
remove_files-publish s d =
    let st = store_name s.base_offset in
    let ix = index_name s.base_offset in
    let ne = store_name-ne-index_name s.base_offset s.base_offset in
    let bs = s.store.writer.file.bytes in
    let bi = s.index.file.bytes in
    (
      removed_both st ix bs bi d ne,
      remove_written st ix bs bi d ne,
      record {
        still_there = present-removed_both st ix bs bi d ne;
        others = bytes_of-removed_both st ix bs bi d ne;
        path = (bs, bi, refl);
      },
    )
