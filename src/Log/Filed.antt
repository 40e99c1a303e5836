-- ===== src/Log/Filed.antt =====
-- The directory of a log: the two files of each segment, and nothing else.
use mathlib.Core.Bool.{true≢false}
use dislog.Prelude.{
  ℕ, ◌^◌, ◌<◌, List, [], ◌∷◌, ◌++◌, Option, none, some, ◌≡◌, refl, sym, ap, ◌∙◌, arith, Bool-cases,
  inl, inr,
}
use dislog.Dir.{Dir, Text, same_text, lookup, bytes_of, put_file, store_name, index_name, offset_of}
use dislog.Dir.Names.{offset_of_names}
use dislog.Dir.Files.{same_text→eq, same_text_refl, store_name-ne-index_name}
use dislog.Dir.Removal.{lookup-put_file, lookup-put_file_ne}
use dislog.Segment.Reopen.{touched}
use dislog.Log.{insert}
use dislog.Log.Listing.{
  Distinct, listing, offsets-without, put_file-Distinct, listing-put_file, listing-put_new,
}

abbrev pub twice : List ℕ → List ℕ
twice [] = []
twice (b ∷ bs) = b ∷ b ∷ twice bs

-- All the numbers are below `n`.
abbrev pub Below : ℕ → List ℕ → Type 0
Below n [] = Unit {0}
Below n (x ∷ xs) = (x < n) × Below n xs

insert-Below : (n x : ℕ) (l : List ℕ) → Below n (insert x l) → x < n
unfolding insert
insert-Below n x [] h = h.0
insert-Below n x (y ∷ l) h = ground (arith, insert-Below n x l)

insert_last :
    (n : ℕ) (bs : List ℕ) → Below n bs → insert n (insert n (twice bs)) ≡ twice (bs ++ (n ∷ []))
unfolding insert
insert_last n [] h = ground arith
insert_last n (b ∷ bs) (h, hs) = ground (arith, h, insert_last n bs hs)

Below-twice : (n : ℕ) (bs : List ℕ) → Below n bs → Below n (twice bs)
Below-twice n [] h = tt
Below-twice n (b ∷ bs) (h, hs) = (h, (h, Below-twice n bs hs))

-- The directory has the file.
abbrev pub Has : Dir → Text → Type 0
Has d name = (bytes : List ℕ) × (lookup name d.files ≡ some bytes)

abbrev pub HasBoth : Dir → List ℕ → Type 0
HasBoth d [] = Unit {0}
HasBoth d (b ∷ bs) = Has d (store_name b) × Has d (index_name b) × HasBoth d bs

-- The directory has the files of the segments at `bs`, and setup reads just these off it.
pub record IsFiled (d : Dir) (bs : List ℕ) : Type 0 where
  pub distinct : Distinct d.files
  pub listed : listing d ≡ twice bs
  pub has : HasBoth d bs

pub Has-put_file :
    (name other : Text) (bytes : List ℕ) (d : Dir) → Has d other → Has (put_file name bytes d) other
Has-put_file name other bytes d (old, h) = elim (Bool-cases (same_text name other)) [
  | inl e ↦ rw (← same_text→eq name other e) (bytes, lookup-put_file name bytes d)
  | inr e ↦ (
    old,
    lookup-put_file_ne name other bytes d
          (λ q. true≢false (sym (same_text_refl name) ∙ ap (same_text name) q ∙ e))
        ∙ h,
  )
]

pub HasBoth-put_file :
    (name : Text) (bytes : List ℕ) (d : Dir) (bs : List ℕ)
    → HasBoth d bs
    → HasBoth (put_file name bytes d) bs
HasBoth-put_file name bytes d [] h = tt
HasBoth-put_file name bytes d (b ∷ bs) (x, y, h) = (
  Has-put_file name (store_name b) bytes d x,
  Has-put_file name (index_name b) bytes d y,
  HasBoth-put_file name bytes d bs h,
)

-- Writing a file of the log.
pub IsFiled-put_file :
    (name : Text) (bytes : List ℕ) (d : Dir) (bs : List ℕ)
    → IsFiled d bs
    → Has d name
    → IsFiled (put_file name bytes d) bs
IsFiled-put_file name bytes d bs f (old, h) = record {
  distinct = put_file-Distinct name bytes d f.distinct;
  listed = listing-put_file name bytes old d f.distinct h ∙ f.listed;
  has = HasBoth-put_file name bytes d bs f.has;
}

-- No file has the name of a segment behind the others.
pub absent :
    (name : Text) (n : ℕ) (d : Dir) (bs : List ℕ)
    → IsFiled d bs
    → Below n bs
    → offset_of name ≡ n
    → lookup name d.files ≡ none
absent name n d bs f lo at = go (lookup name d.files) refl
  where
    go : (o : Option (List ℕ)) → lookup name d.files ≡ o → lookup name d.files ≡ none
    go none e = e
    go (some old) e =
        let inserted = sym f.listed ∙ offsets-without name old d.files f.distinct e in
        let small = insert-Below n (offset_of name) _ (rw inserted at (Below-twice n bs lo)) in
        absurd (omega (arith, small, at))

HasBoth-snoc :
    (d : Dir) (bs : List ℕ) (n : ℕ)
    → HasBoth d bs
    → Has d (store_name n)
    → Has d (index_name n)
    → HasBoth d (bs ++ (n ∷ []))
HasBoth-snoc d [] n h x y = (x, y, tt)
HasBoth-snoc d (b ∷ bs) n (u, v, h) x y = (u, v, HasBoth-snoc d bs n h x y)

-- Opening the files of a new segment behind the others.
pub IsFiled-touched_new :
    (n : ℕ) (d : Dir) (bs : List ℕ)
    → n < 2 ^ 64
    → IsFiled d bs
    → Below n bs
    → IsFiled (touched n d) (bs ++ (n ∷ []))
IsFiled-touched_new n d bs fits f lo =
    let (at, at') = offset_of_names n fits in
    let st = store_name n in
    let ix = index_name n in
    let d1 = put_file st (bytes_of st d) d in
    let b2 = bytes_of ix d1 in
    let fresh = absent st n d bs f lo at in
    let fresh' =
      lookup-put_file_ne st ix (bytes_of st d) d (store_name-ne-index_name n n)
      ∙ absent ix n d bs f lo at' in
    record {
      distinct = put_file-Distinct ix b2 d1 (put_file-Distinct st (bytes_of st d) d f.distinct);
      listed =
          listing-put_new ix b2 d1 fresh'
          ∙ rw (at', listing-put_new st (bytes_of st d) d fresh, at, f.listed)
              (insert_last n bs lo);
      has =
          HasBoth-snoc (touched n d) bs n
            (HasBoth-put_file ix b2 d1 bs (HasBoth-put_file st (bytes_of st d) d bs f.has))
            (Has-put_file ix st b2 d1 (bytes_of st d, lookup-put_file st (bytes_of st d) d))
            (b2, lookup-put_file ix b2 d1);
    }

-- Opening the files of a segment that is there.
pub IsFiled-touched :
    (b : ℕ) (d : Dir) (bs : List ℕ)
    → IsFiled d bs
    → Has d (store_name b)
    → Has d (index_name b)
    → IsFiled (touched b d) bs
IsFiled-touched b d bs f x y =
    let st = store_name b in
    let d1 = put_file st (bytes_of st d) d in
    IsFiled-put_file (index_name b) _ d1 bs (IsFiled-put_file st (bytes_of st d) d bs f x)
      (Has-put_file st (index_name b) (bytes_of st d) d y)

pub HasBoth-touched : (b : ℕ) (d : Dir) (bs : List ℕ) → HasBoth d bs → HasBoth (touched b d) bs
HasBoth-touched b d bs h =
    let d1 = put_file (store_name b) (bytes_of (store_name b) d) d in
    HasBoth-put_file (index_name b) _ d1 bs (HasBoth-put_file (store_name b) _ d bs h)
