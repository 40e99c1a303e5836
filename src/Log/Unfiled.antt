-- ===== src/Log/Unfiled.antt =====
-- The directory of a log after Truncate: the files of the removed segments are gone.
use dislog.Prelude.{ℕ, ◌^◌, ◌<◌, List, [], ◌∷◌, ◌≡◌, ◌≢◌, sym, ap, ◌∙◌, arith}
use dislog.Dir.{Dir, Text, without, put_file, store_name, index_name}
use dislog.Dir.Names.{offset_of_names}
use dislog.Dir.Files.{
  ne→same_text, lookup-without_ne, store_name-ne, index_name-ne, store_name-ne-index_name,
}
use dislog.Dir.Removal.{removed_both, lookup-put_file, lookup-put_file_ne}
use dislog.Log.Listing.{offsets, without-Distinct, offsets-delete, delete}
use dislog.Log.Filed.{twice, Has, HasBoth, IsFiled, IsFiled-put_file}

-- All the numbers are above `k`, and are offsets.
abbrev pub Above : ℕ → List ℕ → Type 0
Above k [] = Unit {0}
Above k (x ∷ xs) = (k < x) × (x < 2 ^ 64) × Above k xs

delete-first : (x : ℕ) (l : List ℕ) → delete x (x ∷ l) ≡ l
delete-first x l = ground arith

module _ (k : ℕ) (fits : k < 2 ^ 64) (bs : List ℕ) (bt bi : List ℕ) (d : Dir) where
  abbrev both_gone : Dir
  both_gone = removed_both (store_name k) (index_name k) bt bi d (store_name-ne-index_name k k)

  Has-removed_both :
      (name : Text) → store_name k ≢ name → index_name k ≢ name → Has d name → Has both_gone name
  Has-removed_both name ne ne' (bytes, h) =
      let files = (put_file (store_name k) bt (put_file (index_name k) bi d)).files in
      (
        bytes,
        lookup-without_ne name (store_name k) (without (index_name k) files)
              (ne→same_text (store_name k) name ne)
            ∙ lookup-without_ne name (index_name k) files (ne→same_text (index_name k) name ne')
            ∙ lookup-put_file_ne (store_name k) name bt (put_file (index_name k) bi d) ne
            ∙ lookup-put_file_ne (index_name k) name bi d ne'
            ∙ h,
      )

  HasBoth-removed_both : (cs : List ℕ) → Above k cs → HasBoth d cs → HasBoth both_gone cs
  HasBoth-removed_both [] above h = tt
  HasBoth-removed_both (b ∷ cs) (lo, small, above) (x, y, h) =
      let apart : k ≢ b = λ q. omega (arith, q, lo) in
      (
        Has-removed_both (store_name b) (store_name-ne k b fits small apart)
            (λ e. store_name-ne-index_name b k (sym e)) x,
        Has-removed_both (index_name b) (store_name-ne-index_name k b)
            (index_name-ne k b fits small apart) y,
        HasBoth-removed_both cs above h,
      )

  -- Removing both files of the first segment leaves the files of the others.
  pub IsFiled-removed_both : Above k bs → IsFiled d (k ∷ bs) → IsFiled both_gone bs
  IsFiled-removed_both above f =
      let (at, at') = offset_of_names k fits in
      let st = store_name k in
      let ix = index_name k in
      let d1 = put_file ix bi d in
      let f1 = IsFiled-put_file ix bi d (k ∷ bs) f f.has.1 in
      let f2 = IsFiled-put_file st bt d1 (k ∷ bs) f1 f1.has.0 in
      let files = (put_file st bt d1).files in
      let apart = store_name-ne-index_name k k in
      let has_index = lookup-put_file_ne st ix bt d1 apart ∙ lookup-put_file ix bi d in
      let has_store =
        lookup-without_ne st ix files (ne→same_text ix st (λ e. apart (sym e)))
        ∙ lookup-put_file st bt d1 in
      let once : offsets (without ix files) ≡ k ∷ twice bs =
        offsets-delete ix bi files f2.distinct has_index
        ∙ ap (λ x. delete x (offsets files)) at'
        ∙ ap (delete k) f2.listed
        ∙ delete-first k (k ∷ twice bs) in
      record {
        distinct = without-Distinct st (without ix files) (without-Distinct ix files f2.distinct);
        listed =
            offsets-delete st bt (without ix files) (without-Distinct ix files f2.distinct)
              has_store
            ∙ ap (λ x. delete x (offsets (without ix files))) at
            ∙ ap (delete k) once
            ∙ delete-first k (twice bs);
        has = HasBoth-removed_both bs above f.has.2;
      }
