-- ===== src/Log/Listing.antt =====
-- What setup reads off the directory: the base offsets, sorted, each of them twice.
use dislog.Prelude.{
  ℕ, List, [], ◌∷◌, none, some, ◌≡◌, refl, sym, ap, ◌∙◌, ◌==◌, if◌then◌else◌, arith, map,
  Bool-cases, inl, inr,
}
use dislog.Dir.{Dir, Text, same_text, lookup, without, put_file, offset_of}
use dislog.Dir.Files.{same_text→eq}
use dislog.Log.{sort, insert}

pub insert_comm : (x y : ℕ) (l : List ℕ) → insert x (insert y l) ≡ insert y (insert x l)
unfolding insert
insert_comm x y [] = ground arith
insert_comm x y (z ∷ l) = ground (arith, insert_comm x y l)

-- The file names of a directory are all different.
unfoldable pub Distinct : List (Text × List ℕ) → Type 0
Distinct [] = Unit
Distinct ((key, bytes) ∷ files) = (lookup key files ≡ none) × Distinct files

abbrev pub offsets : List (Text × List ℕ) → List ℕ
offsets files = sort (map offset_of (map (λ f. f.0) files))

abbrev pub listing : Dir → List ℕ
listing d = offsets d.files

without_absent :
    (name : Text) (files : List (Text × List ℕ))
    → lookup name files ≡ none
    → without name files ≡ files
unfolding without lookup
without_absent name [] h = refl
without_absent name ((key, bytes) ∷ files) h = elim (Bool-cases (same_text key name)) [
  | inl e ↦ cc (rw e at h)
  | inr e ↦ rw (e, without_absent name files (rw e at h))
]

-- A file that is there takes one place in the list.
pub offsets-without :
    (name : Text) (bytes : List ℕ) (files : List (Text × List ℕ))
    → Distinct files
    → lookup name files ≡ some bytes
    → offsets files ≡ insert (offset_of name) (offsets (without name files))
unfolding without lookup Distinct sort
offsets-without name bytes [] d h = cc
offsets-without name bytes ((key, bs) ∷ files) (fresh, d) h =
    elim (Bool-cases (same_text key name)) [
      | inl e ↦
          let same : key ≡ name = same_text→eq key name e in
          rw (e, without_absent name files (rw same at fresh), same)
      | inr e ↦
          let ih = offsets-without name bytes files d (rw e at h) in
          rw (e, ih) (insert_comm (offset_of key) (offset_of name) (offsets (without name files)))
    ]

lookup-without_absent :
    (name other : Text) (files : List (Text × List ℕ))
    → lookup name files ≡ none
    → lookup name (without other files) ≡ none
unfolding without lookup
lookup-without_absent name other [] h = refl
lookup-without_absent name other ((key, bytes) ∷ files) h = elim (Bool-cases (same_text key name)) [
  | inl e ↦ cc (rw e at h)
  | inr e ↦ elim (Bool-cases (same_text key other)) [
    | inl f ↦ rw f (lookup-without_absent name other files (rw e at h))
    | inr f ↦ rw (f, e) (lookup-without_absent name other files (rw e at h))
  ]
]

lookup-without_self :
    (name : Text) (files : List (Text × List ℕ)) → lookup name (without name files) ≡ none
unfolding without lookup
lookup-without_self name [] = refl
lookup-without_self name ((key, bytes) ∷ files) = elim (Bool-cases (same_text key name)) [
  | inl e ↦ rw e (lookup-without_self name files)
  | inr e ↦ rw (e, e) (lookup-without_self name files)
]

pub without-Distinct :
    (name : Text) (files : List (Text × List ℕ)) → Distinct files → Distinct (without name files)
unfolding without Distinct
without-Distinct name [] d = d
without-Distinct name ((key, bytes) ∷ files) (fresh, d) = elim (Bool-cases (same_text key name)) [
  | inl e ↦ rw e (without-Distinct name files d)
  | inr e ↦ rw e (lookup-without_absent key name files fresh, without-Distinct name files d)
]

pub put_file-Distinct :
    (name : Text) (bytes : List ℕ) (d : Dir)
    → Distinct d.files
    → Distinct (put_file name bytes d).files
unfolding put_file Distinct
put_file-Distinct name bytes d h =
    (lookup-without_self name d.files, without-Distinct name d.files h)

-- Writing a file that is there does not change the list, and a new file adds its offset.
pub listing-put_file :
    (name : Text) (bytes old : List ℕ) (d : Dir)
    → Distinct d.files
    → lookup name d.files ≡ some old
    → listing (put_file name bytes d) ≡ listing d
unfolding put_file sort
listing-put_file name bytes old d h there = sym (offsets-without name old d.files h there)

pub listing-put_new :
    (name : Text) (bytes : List ℕ) (d : Dir)
    → lookup name d.files ≡ none
    → listing (put_file name bytes d) ≡ insert (offset_of name) (listing d)
unfolding put_file sort
listing-put_new name bytes d h = rw (without_absent name d.files h)

-- The list without the first of the numbers that are `x`.
abbrev pub delete : ℕ → List ℕ → List ℕ
delete x [] = []
delete x (y ∷ l) = let rest = delete x l in if x == y then l else y ∷ rest

delete-insert : (x : ℕ) (l : List ℕ) → delete x (insert x l) ≡ l
unfolding insert
delete-insert x [] = ground arith
delete-insert x (y ∷ l) = ground (arith, delete-insert x l)

pub offsets-delete :
    (name : Text) (bytes : List ℕ) (files : List (Text × List ℕ))
    → Distinct files
    → lookup name files ≡ some bytes
    → offsets (without name files) ≡ delete (offset_of name) (offsets files)
offsets-delete name bytes files d h = sym (
    ap (delete (offset_of name)) (offsets-without name bytes files d h)
    ∙ delete-insert (offset_of name) (offsets (without name files)))

-- Removing a file takes its offset out.
pub listing-remove :
    (name : Text) (old : List ℕ) (files : List (Text × List ℕ))
    → Distinct files
    → lookup name files ≡ some old
    → insert (offset_of name) (offsets (without name files)) ≡ offsets files
listing-remove name old files h there = sym (offsets-without name old files h there)
