-- ===== src/Dir/Files.antt =====
-- The files of the directory: reads after writes, and that segments' file names differ.
use dislog.Prelude.{
  ℕ, ◌^◌, ◌<◌, List, [], ◌∷◌, ◌++◌, true, false, ◌≡◌, ◌≢◌, inl, inr, refl, ap, ap₂, ◌∙◌, sym, arith,
  Bool-cases,
}
use mathlib.Core.Bool.{true≢false}
use dislog.Dir.{
  Dir, Text, same_text, lookup, without, bytes_of, put_file, store_name, index_name, decimal,
  offset_of,
}
use dislog.Dir.Names.{offset_of_names}

pub same_text→eq : (a b : Text) → same_text a b ≡ true → a ≡ b
unfolding same_text
same_text→eq [] [] h = refl
same_text→eq [] (y ∷ ys) h = cc
same_text→eq (x ∷ xs) [] h = cc
same_text→eq (x ∷ xs) (y ∷ ys) h =
    ap₂ (λ (a : ℕ) (b : Text). a ∷ b) (ground arith) (same_text→eq xs ys (ground arith))

pub same_text_refl : (a : Text) → same_text a a ≡ true
unfolding same_text
same_text_refl [] = refl
same_text_refl (x ∷ xs) = ground (arith, same_text_refl xs)

-- Two names that differ are told apart.
pub ne→same_text : (a b : Text) → a ≢ b → same_text a b ≡ false
ne→same_text a b h = elim (Bool-cases (same_text a b)) [
  | inl e ↦ absurd (h (same_text→eq a b e))
  | inr e ↦ e
]

pub lookup-without_ne :
    (name other : Text) (files : List (Text × List ℕ))
    → same_text other name ≡ false
    → lookup name (without other files) ≡ lookup name files
unfolding lookup without
lookup-without_ne name other [] h = refl
lookup-without_ne name other ((key, bytes) ∷ files) h = elim (Bool-cases (same_text key other)) [
  | inl e ↦
      let differ : same_text key name ≡ false = rw (same_text→eq key other e) h in
      rw (e, differ) (lookup-without_ne name other files h)
  | inr e ↦ rw (e, lookup-without_ne name other files h)
]

-- Writing a file changes that file, and no other.
module _ (name : Text) (bytes : List ℕ) (d : Dir) where
  pub bytes_of-put_file_self : bytes_of name (put_file name bytes d) ≡ bytes
  unfolding bytes_of put_file lookup
  bytes_of-put_file_self = ground (arith, same_text_refl name)

  pub bytes_of-put_file_ne :
      (other : Text) → name ≢ other → bytes_of other (put_file name bytes d) ≡ bytes_of other d
  unfolding bytes_of put_file lookup
  bytes_of-put_file_ne other h =
      let differ = ne→same_text name other h in
      ground (arith, differ, lookup-without_ne other name d.files differ)

  pub present-put_file : (put_file name bytes d).present ≡ d.present
  unfolding put_file
  present-put_file = refl

-- Writing back what a file holds changes no file.
pub bytes_of-put_file_same :
    (name other : Text) (d : Dir)
    → bytes_of other (put_file name (bytes_of name d) d) ≡ bytes_of other d
bytes_of-put_file_same name other d = elim (Bool-cases (same_text name other)) [
  | inl e ↦ rw (← same_text→eq name other e) (bytes_of-put_file_self name (bytes_of name d) d)
  | inr e ↦
      bytes_of-put_file_ne name (bytes_of name d) d other
        λ q. true≢false (sym (same_text_refl name) ∙ ap (same_text name) q ∙ e)
]

last_of : ℕ → Text → ℕ
last_of c [] = c
last_of c (x ∷ xs) = last_of x xs

last_of-append : (c : ℕ) (xs : Text) (y : ℕ) (ys : Text) → last_of c (xs ++ (y ∷ ys)) ≡ last_of y ys
unfolding last_of
last_of-append c [] y ys = refl
last_of-append c (x ∷ xs) y ys = last_of-append x xs y ys

-- No store file has the name of an index file: one ends in an `e`, the other in an `x`.
pub store_name-ne-index_name : (a b : ℕ) → store_name a ≢ index_name b
unfolding store_name index_name last_of
store_name-ne-index_name a b h = ground (
  arith,
  ap (last_of 0) h,
  last_of-append 0 (decimal a) 46 (115 ∷ 116 ∷ 111 ∷ 114 ∷ 101 ∷ []),
  last_of-append 0 (decimal b) 46 (105 ∷ 110 ∷ 100 ∷ 101 ∷ 120 ∷ []),
)

module _ (a b : ℕ) (fit_a : a < 2 ^ 64) (fit_b : b < 2 ^ 64) (ne : a ≢ b) where
  -- Segments with different base offsets have different files.
  pub store_name-ne : store_name a ≢ store_name b
  store_name-ne h =
      ne (sym (offset_of_names a fit_a).0 ∙ ap offset_of h ∙ (offset_of_names b fit_b).0)

  pub index_name-ne : index_name a ≢ index_name b
  index_name-ne h =
      ne (sym (offset_of_names a fit_a).1 ∙ ap offset_of h ∙ (offset_of_names b fit_b).1)
