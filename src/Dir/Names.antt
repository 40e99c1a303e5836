-- ===== src/Dir/Names.antt =====
-- File names: the offset read off the name of a segment's file is the segment's base offset.
use dislog.Prelude.{
  ℕ, zero, suc, ◌+◌, ◌-◌, ◌*◌, ◌/◌, ◌%◌, ◌^◌, ◌<◌, [], ◌∷◌, ◌++◌, true, false, ◌≡◌, ◌≢◌, refl, ap,
  ◌∙◌, arith, Option, none,
}
use dislog.Dir.{
  Text, digits, decimal, store_name, index_name, has_dot, stem, scan, parse_uint, offset_of,
  ParseError,
}

scan-append : (n m : ℕ) (xs ys : Text) → scan n xs ≡ (m, none) → scan n (xs ++ ys) ≡ scan m ys
unfolding scan
scan-append n m [] ys h = ap (λ (p : ℕ × Option ParseError). scan p.0 ys) h
scan-append n m (x ∷ xs) ys h = ground (arith, scan-append (n * 10 + (x - 48)) m xs ys)

scan-digits : (fuel n : ℕ) → n < fuel → n < 2 ^ 64 → scan 0 (digits fuel n) ≡ (n, none)
unfolding digits scan
scan-digits zero n h k = elim h [ ]
scan-digits (suc fuel) n h k = ground (
  arith,
  scan-digits fuel (n / 10),
  scan-append 0 (n / 10) (digits fuel (n / 10)) ((n % 10 + 48) ∷ []),
)

has_dot-append : (xs ys : Text) → has_dot ys ≡ true → has_dot (xs ++ ys) ≡ true
unfolding has_dot
has_dot-append [] ys h = h
has_dot-append (x ∷ xs) ys h = ground (arith, has_dot-append xs ys h)

stem-append : (xs ext : Text) → has_dot ext ≡ false → stem (xs ++ (46 ∷ ext)) ≡ xs
unfolding stem has_dot
stem-append [] ext h = ground arith
stem-append (x ∷ xs) ext h = ground (arith, stem-append xs ext h, has_dot-append xs (46 ∷ ext))

parse_uint-scan : (t : Text) (n : ℕ) → t ≢ [] → scan 0 t ≡ (n, none) → (parse_uint t).0 ≡ n
unfolding parse_uint
parse_uint-scan [] n ne h = absurd (ne refl)
parse_uint-scan (c ∷ cs) n ne h = ap (λ (p : ℕ × Option ParseError). p.0) h

snoc-ne-nil : (xs : Text) (x : ℕ) → xs ++ (x ∷ []) ≢ []
snoc-ne-nil [] x h = cc
snoc-ne-nil (y ∷ ys) x h = cc

decimal-ne-nil : (n : ℕ) → decimal n ≢ []
unfolding decimal digits
decimal-ne-nil n h = ground (arith, snoc-ne-nil (digits n (n / 10)) (n % 10 + 48))

module _ (base : ℕ) (fits : base < 2 ^ 64) where
  offset_of-name :
      (ext : Text) → has_dot ext ≡ false → offset_of (decimal base ++ (46 ∷ ext)) ≡ base
  unfolding offset_of decimal
  offset_of-name ext h =
      ap (λ t. (parse_uint t).0) (stem-append (decimal base) ext h)
      ∙ parse_uint-scan (decimal base) base (decimal-ne-nil base)
          (scan-digits (suc base) base (omega arith) fits)

  -- Setup reads the base offset back off both file names of a segment.
  pub offset_of_names : (offset_of (store_name base) ≡ base) × (offset_of (index_name base) ≡ base)
  unfolding store_name index_name has_dot
  offset_of_names = (offset_of-name _ refl, offset_of-name _ refl)
