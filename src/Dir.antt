-- ===== src/Dir.antt =====
-- The log directory: the files of the segments under their names, and what setup reads off a name
-- (internal/log/log.go and segment.go).
pub mod Names
pub mod Files
pub mod Removal
use dislog.Prelude.{
  ℕ, ◌+◌, ◌*◌, ◌-◌, ◌/◌, ◌%◌, ◌^◌, zero, suc, List, [], ◌∷◌, ◌++◌, Bool, true, false, ◌&&◌, ◌||◌,
  not, Option, none, some, leb, ltb, ◌==◌, if◌then◌else◌, ok, err, refused, Exec, map,
}

-- A text as its code points.
abbrev pub Text : Type 0
Text = List ℕ

pub same_text : Text → Text → Bool
same_text [] [] = true
same_text [] (y ∷ ys) = false
same_text (x ∷ xs) [] = false
same_text (x ∷ xs) (y ∷ ys) = x == y && same_text xs ys

-- fmt's "%d". A division by ten takes a digit, so `n + 1` rounds are enough for `n`.
digits : ℕ → ℕ → Text
digits zero n = []
digits (suc fuel) n =
    let front = digits fuel (n / 10) in
    if ltb n 10 then (n + 48) ∷ [] else front ++ ((n % 10 + 48) ∷ [])

pub decimal : ℕ → Text
unfolding digits
decimal n = digits (suc n) n

-- fmt.Sprintf("%d%s", baseOffset, ".store") and the like with ".index"
abbrev pub store_ext : Text
store_ext = 46 ∷ 115 ∷ 116 ∷ 111 ∷ 114 ∷ 101 ∷ []

abbrev pub index_ext : Text
index_ext = 46 ∷ 105 ∷ 110 ∷ 100 ∷ 101 ∷ 120 ∷ []

unfoldable pub store_name : ℕ → Text
unfolding decimal
store_name base = decimal base ++ store_ext

unfoldable pub index_name : ℕ → Text
unfolding decimal
index_name base = decimal base ++ index_ext

-- strings.TrimSuffix(name, path.Ext(name)): what stands before the last dot, or the whole name.
has_dot : Text → Bool
has_dot [] = false
has_dot (c ∷ cs) = c == 46 || has_dot cs

stem : Text → Text
unfolding has_dot
stem [] = []
stem (c ∷ cs) =
    let rest = stem cs in if has_dot cs then c ∷ rest else if c == 46 then [] else c ∷ cs

pub data ParseError : Type 0 where
  syntax range : ParseError

-- strconv.ParseUint(s, 10, 0): the value comes beside the error.
scan : ℕ → Text → ℕ × Option ParseError
scan n [] = (n, none)
scan n (c ∷ cs) =
    let n' = n * 10 + (c - 48) in
    let rest = scan n' cs in
    if not (leb 48 c && leb c 57)
    then (0, some syntax)
    else if leb (2 ^ 64) n'
    then (2 ^ 64 - 1, some range)
    else rest

parse_uint : Text → ℕ × Option ParseError
unfolding scan
parse_uint [] = (0, some syntax)
parse_uint (c ∷ cs) = scan 0 (c ∷ cs)

-- The offset that setup reads off a file name; the parser's error is dropped.
unfoldable pub offset_of : Text → ℕ
unfolding stem parse_uint
offset_of name = (parse_uint (stem name)).0

-- Files under their names. `present` is false once the directory was removed.
pub record Dir : Type 0 where
  pub present : Bool
  pub files : List (Text × List ℕ)

unfoldable pub lookup : Text → List (Text × List ℕ) → Option (List ℕ)
unfolding same_text
lookup name [] = none
lookup name ((key, bytes) ∷ files) =
    let rest = lookup name files in if same_text key name then some bytes else rest

unfoldable pub without : Text → List (Text × List ℕ) → List (Text × List ℕ)
unfolding same_text
without name [] = []
without name ((key, bytes) ∷ files) =
    let rest = without name files in if same_text key name then rest else (key, bytes) ∷ rest

-- What a file holds; one that is not there reads as empty.
unfoldable pub bytes_of : Text → Dir → List ℕ
unfolding lookup
bytes_of name d = elim (lookup name d.files) [ none ↦ [] | some bytes ↦ bytes ]

unfoldable pub put_file : Text → List ℕ → Dir → Dir
unfolding without
put_file name bytes d = record d { files = (name, bytes) ∷ without name d.files }

-- os.OpenFile with O_CREATE: the bytes of the file, which is then there.
unfoldable pub open_file : Text → Exec Dir (List ℕ)
unfolding bytes_of put_file
open_file name d =
    if d.present
    then (ok (bytes_of name d), put_file name (bytes_of name d) d)
    else (err refused, d)

-- os.Remove
removal : Option (List ℕ) → Text → Exec Dir (Unit {0})
removal none name d = (err refused, d)
removal (some bytes) name d = (ok tt, record d { files = without name d.files })

unfoldable pub remove_file : Text → Exec Dir (Unit {0})
unfolding lookup removal without
remove_file name d = removal (lookup name d.files) name d

-- os.RemoveAll of the directory
unfoldable pub remove_all : Exec Dir (Unit {0})
remove_all d = (ok tt, record { present = false; files = [] })

-- ioutil.ReadDir, as the names; it sorts them, and setup sorts what it reads off them.
unfoldable pub read_dir : Exec Dir (List Text)
read_dir d = if d.present then (ok (map (λ f. f.0) d.files), d) else (err refused, d)
