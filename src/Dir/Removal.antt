-- ===== src/Dir/Removal.antt =====
-- Removing the files of a segment from the directory.
use dislog.Prelude.{ℕ, List, [], Option, none, some, ap, ◌≡◌, ◌≢◌, refl, sym, ◌∙◌, ok, ◌>>◌}
use dislog.Dir.{Dir, Text, lookup, without, bytes_of, put_file, remove_file, removal}
use dislog.Dir.Files.{same_text_refl, ne→same_text, lookup-without_ne}

pub lookup-put_file_ne :
    (name other : Text) (bytes : List ℕ) (d : Dir)
    → name ≢ other
    → lookup other (put_file name bytes d).files ≡ lookup other d.files
unfolding lookup put_file
lookup-put_file_ne name other bytes d ne =
    let differ = ne→same_text name other ne in
    rw (differ, lookup-without_ne other name d.files differ)

pub lookup-put_file :
    (name : Text) (bytes : List ℕ) (d : Dir)
    → lookup name (put_file name bytes d).files ≡ some bytes
unfolding lookup put_file
lookup-put_file name bytes d = rw (same_text_refl name)

remove_file_lem :
    (name : Text) (bytes : List ℕ) (d : Dir)
    → lookup name d.files ≡ some bytes
    → remove_file name d ≡ (ok tt, record d { files = without name d.files })
unfolding remove_file removal
remove_file_lem name bytes d h = rw h

bytes_of-lookup :
    (name : Text) (d d' : Dir)
    → lookup name d.files ≡ lookup name d'.files
    → bytes_of name d ≡ bytes_of name d'
unfolding bytes_of
bytes_of-lookup name d d' h =
    ap (λ (o : Option (List ℕ)). elim o [ none ↦ [] | some bytes ↦ bytes ]) h

-- Two files that were just written can be removed; every other file is as it was.
module _ (store index : Text) (bs bi : List ℕ) (d : Dir) (ne : store ≢ index) where
  abbrev written : Dir
  written = put_file store bs (put_file index bi d)

  abbrev removed_one : Dir
  removed_one = record written { files = without index written.files }

  abbrev pub removed_both : Dir
  removed_both = record written { files = without store removed_one.files }

  pub remove_written : (remove_file index >> remove_file store) written ≡ (ok tt, removed_both)
  remove_written =
      let first =
        lookup-put_file_ne store index bs (put_file index bi d) ne ∙ lookup-put_file index bi d in
      let back : index ≢ store = λ e. ne (sym e) in
      let second =
        lookup-without_ne store index written.files (ne→same_text index store back)
        ∙ lookup-put_file store bs (put_file index bi d) in
      rw (remove_file_lem index bi written first) (remove_file_lem store bs removed_one second)

  pub bytes_of-removed_both :
      (name : Text) → store ≢ name → index ≢ name → bytes_of name removed_both ≡ bytes_of name d
  bytes_of-removed_both name ne' ne'' = bytes_of-lookup name removed_both d (
      lookup-without_ne name store removed_one.files (ne→same_text store name ne')
      ∙ lookup-without_ne name index written.files (ne→same_text index name ne'')
      ∙ lookup-put_file_ne store name bs (put_file index bi d) ne'
      ∙ lookup-put_file_ne index name bi d ne'')

  pub present-removed_both : removed_both.present ≡ d.present
  unfolding put_file
  present-removed_both = refl
