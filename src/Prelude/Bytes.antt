-- ===== src/Prelude/Bytes.antt =====
-- binary.BigEndian of encoding/binary: numbers as bytes, highest byte first. A byte is a number.
use Prim.Native.Nat.{ℕ, zero, suc, ◌+◌, ◌*◌, ◌/◌, ◌%◌, ◌^◌, ◌<◌}
use mathlib.Core.Path.{◌≡◌, refl, ap}
use mathlib.Core.List.{List, [], ◌∷◌, ◌++◌}
use native.Mathlib.Omega.{arith}
use native.Mathlib.Nat.{pow-suc}
use dislog.Prelude.Lists.{length, length-append}

-- PutUint32 at 4 bytes, PutUint64 at 8. The conversion to the width is the remainder that is kept.
unfoldable pub put_uint : ℕ → ℕ → List ℕ
put_uint zero n = []
put_uint (suc w) n = put_uint w (n / 256) ++ (n % 256 ∷ [])

uint_from : ℕ → List ℕ → ℕ
uint_from acc [] = acc
uint_from acc (b ∷ bs) = uint_from (acc * 256 + b) bs

-- Uint32, Uint64
unfoldable pub uint : List ℕ → ℕ
unfolding uint_from
uint bs = uint_from 0 bs

pub length-put_uint : (w n : ℕ) → length (put_uint w n) ≡ w
unfolding put_uint
length-put_uint zero n = refl
length-put_uint (suc w) n =
    omega (arith, length-append (put_uint w (n / 256)) (n % 256 ∷ []), length-put_uint w (n / 256))

uint_from-append :
    (acc : ℕ) (xs ys : List ℕ) → uint_from acc (xs ++ ys) ≡ uint_from (uint_from acc xs) ys
unfolding uint_from
uint_from-append acc [] ys = refl
uint_from-append acc (x ∷ xs) ys = uint_from-append (acc * 256 + x) xs ys

uint_from-put_uint : (w n acc : ℕ) → n < 256 ^ w → uint_from acc (put_uint w n) ≡ acc * 256 ^ w + n
unfolding put_uint uint_from
uint_from-put_uint zero n acc h = omega arith
uint_from-put_uint (suc w) n acc h =
    rw (uint_from-append acc (put_uint w (n / 256)) (n % 256 ∷ [])) (
      rw (uint_from-put_uint w (n / 256) acc (omega (arith, pow-suc 256 w)))
        (omega (arith, pow-suc 256 w, ap (λ (t : ℕ). acc * t) (pow-suc 256 w))))

-- A number that fits the width is read back.
pub uint-put_uint : (w n : ℕ) → n < 256 ^ w → uint (put_uint w n) ≡ n
unfolding uint
uint-put_uint w n h = rw (uint_from-put_uint w n 0 h) (omega arith)
