-- ===== src/Prelude/Texts.antt =====
-- Operations of Rust's standard library on texts that the code uses.
use Prim.Native.Nat.{ℕ, zero, suc, ◌+◌, ◌/◌, ◌%◌}
use Prim.Native.String.{String, [], ◌∷◌, ◌++◌, slice}
use Prim.Native.Char.{Char, code}
use mathlib.Core.Bool.{Bool, true, false, ◌&&◌, ◌||◌}
use mathlib.Core.Option.{Option, none, some}
use sovereign_engine.Prelude.Tests.{ltb, leb, eqb, if◌then◌else◌}

-- The second text behind the first.
abbrev pub cat : String → String → String
cat s t = s ++ t

abbrev decimal_digits : ℕ → ℕ → String → String
decimal_digits zero n tail = tail
decimal_digits (suc k) n tail =
    let more = slice "0123456789" (n % 10) (n % 10 + 1) ++ tail in
    let rest = decimal_digits k (n / 10) more in if ltb n 10 then more else rest

-- to_string of a u32, which has at most ten digits.
unfoldable pub decimal_text : ℕ → String
decimal_text n = decimal_digits 10 n ""

-- The code of a character's lower case, where that is one of ASCII: the capitals, and the Kelvin
-- sign, whose lower case is k.
abbrev pub lower_code : ℕ → ℕ
lower_code c = if leb 65 c && leb c 90 then c + 32 else if eqb c 8490 then 107 else c

-- to_lowercase() of the second text is the first, a text of small letters of ASCII.
unfoldable pub lower_is : String → String → Bool
lower_is [] [] = true
lower_is [] (c ∷ s) = false
lower_is (b ∷ t) [] = false
lower_is (b ∷ t) (c ∷ s) = eqb (lower_code (code c)) (code b) && lower_is t s

-- replace('/', "--")
unfoldable pub replace_slash : String → String
replace_slash [] = ""
replace_slash (c ∷ s) =
    let rest = replace_slash s in if eqb (code c) 47 then "--" ++ rest else c ∷ rest

-- The text behind a character.
abbrev pub behind : Char → String → String
behind c s = c ∷ s

abbrev pub is_newline : Char → Bool
is_newline c = eqb (code c) 10

abbrev pub line_behind : Char → Option (String × String) → Option (String × String)
line_behind c none = none
line_behind c (some (l, r)) = some (c ∷ l, r)

-- The text before the first newline, and the text behind it: find('\n') and the two slices.
unfoldable pub split_line : String → Option (String × String)
split_line [] = none
split_line (c ∷ s) =
    let rest = split_line s in if is_newline c then some ("", s) else line_behind c rest

-- char::is_whitespace: the code points with the property White_Space.
abbrev pub is_whitespace : Char → Bool
is_whitespace c =
    leb 9 (code c) && leb (code c) 13
    || eqb (code c) 32
    || eqb (code c) 133
    || eqb (code c) 160
    || eqb (code c) 5760
    || leb 8192 (code c) && leb (code c) 8202
    || eqb (code c) 8232
    || eqb (code c) 8233
    || eqb (code c) 8239
    || eqb (code c) 8287
    || eqb (code c) 12288

unfoldable pub trim_start : String → String
trim_start [] = ""
trim_start (c ∷ s) = let rest = trim_start s in if is_whitespace c then rest else c ∷ s

abbrev keeps_first : Char → String → String
keeps_first c [] = if is_whitespace c then "" else c ∷ ""
keeps_first c (d ∷ s) = c ∷ d ∷ s

unfoldable pub trim_end : String → String
trim_end [] = ""
trim_end (c ∷ s) = keeps_first c (trim_end s)

unfoldable pub trim : String → String
unfolding trim_start trim_end
trim s = trim_end (trim_start s)

-- strip_prefix
unfoldable pub strip_prefix : String → String → Option String
strip_prefix [] s = some s
strip_prefix (c ∷ p) [] = none
strip_prefix (c ∷ p) (d ∷ s) =
    let rest = strip_prefix p s in if eqb (code c) (code d) then rest else none

-- The number of characters.
unfoldable pub count_chars : String → ℕ
count_chars [] = 0
count_chars (c ∷ s) = suc (count_chars s)
