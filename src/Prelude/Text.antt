-- ===== src/Prelude/Text.antt =====
-- Text: the native `String` where whole texts are compared or built, code points where one is read.
use Prim.Native.Nat.{ℕ, zero, suc, ◌+◌, ◌-◌, ◌*◌, ◌/◌, ◌%◌}
use Prim.Native.Char.{code}
use Prim.Native.String
use Prim.Native.String.{String}
pub use text.Mathlib.Text.{◌==◌ as str_eq}
use mathlib.Core.Bool.{Bool, true, false, ◌&&◌, ◌||◌}
use mathlib.Core.List.{List, [], ◌∷◌}
use mathlib.Core.Option.{Option, none, some}
use codarr.Prelude.Tests.{leb, ltb, ◌==◌, if◌then◌else◌}

infixr 66 ◌<>◌
-- Joins two texts.
abbrev pub ◌<>◌ : String → String → String
s <> t = String.◌++◌ s t

-- `slices.Contains` on texts.
abbrev pub contains : List String → String → Bool
contains [] s = false
contains (t ∷ ts) s = str_eq t s || contains ts s

-- The code points of a text: its bytes, if it is ASCII.
abbrev pub codes : String → List ℕ
codes String.[] = []
codes (String.◌∷◌ c s) = code c ∷ codes s

-- `strings.Join`.
abbrev pub join : String → List String → String
join sep [] = ""
join sep (s ∷ []) = s
join sep (s ∷ t ∷ ts) = s <> sep <> join sep (t ∷ ts)

-- Decimal digits of a number, as `%d` prints them.
digit : ℕ → String
digit d = nth ("0" ∷ "1" ∷ "2" ∷ "3" ∷ "4" ∷ "5" ∷ "6" ∷ "7" ∷ "8" ∷ "9" ∷ []) d
  where
    nth : List String → ℕ → String
    nth [] i = ""
    nth (s ∷ ss) zero = s
    nth (s ∷ ss) (suc i) = nth ss i

-- A number below `fuel` is printed whole.
itoa_fuel : ℕ → ℕ → String
unfolding digit
itoa_fuel zero n = ""
itoa_fuel (suc f) n =
    let front = itoa_fuel f (n / 10) in if ltb n 10 then digit n else front <> digit (n % 10)

unfoldable pub itoa : ℕ → String
unfolding itoa_fuel
itoa n = itoa_fuel (suc n) n

-- `%q` on a text with no quotes, backslashes or control characters.
abbrev pub quote : String → String
quote s = "\"" <> s <> "\""

abbrev lower : ℕ → ℕ
lower c = if leb b'A' c && leb c b'Z' then c + 32 else c

-- The code points of `strings.ToLower`, on ASCII.
abbrev pub lower_codes : String → List ℕ
lower_codes String.[] = []
lower_codes (String.◌∷◌ c s) = lower (code c) ∷ lower_codes s

abbrev pub codes_eq : List ℕ → List ℕ → Bool
codes_eq [] [] = true
codes_eq [] (d ∷ ds) = false
codes_eq (c ∷ cs) [] = false
codes_eq (c ∷ cs) (d ∷ ds) = c == d && codes_eq cs ds

-- `strings.HasPrefix text prefix`.
abbrev pub has_prefix : List ℕ → List ℕ → Bool
has_prefix cs [] = true
has_prefix [] (d ∷ ds) = false
has_prefix (c ∷ cs) (d ∷ ds) = c == d && has_prefix cs ds

-- `strings.EqualFold`, on ASCII.
unfoldable pub equal_fold : String → String → Bool
equal_fold s t = codes_eq (lower_codes s) (lower_codes t)

-- A non-negative number that the program holds as a float: `num / den`.
pub record Rat : Type 0 where
  pub num : ℕ
  pub den : ℕ

abbrev is_digit : ℕ → Bool
is_digit c = leb b'0' c && leb c b'9'

read_fraction : List ℕ → ℕ → ℕ → Option Rat
read_fraction [] acc scale = some (record { num = acc; den = scale })
read_fraction (c ∷ cs) acc scale =
    let rest = read_fraction cs (acc * 10 + (c - 48)) (scale * 10) in
    if is_digit c then rest else none

read_whole : List ℕ → ℕ → Option Rat
unfolding read_fraction
read_whole [] acc = some (record { num = acc; den = 1 })
read_whole (c ∷ cs) acc =
    let rest = read_whole cs (acc * 10 + (c - 48)) in
    if c == b'.' then read_fraction cs acc 1 else if is_digit c then rest else none

-- A decimal without sign or exponent.
unfoldable pub parse_decimal : String → Option Rat
unfolding read_whole
parse_decimal s = read_whole (codes s) 0

-- `strings.Cut` at one byte.
abbrev pub cut : ℕ → String → Option (String × String)
cut b String.[] = none
cut b (String.◌∷◌ c s) =
    if code c == b
    then some ("", s)
    else elim (cut b s) [ none ↦ none | some (front, back) ↦ some (String.◌∷◌ c front, back) ]

abbrev push_front : String → List String → List String
push_front c [] = c ∷ []
push_front c (s ∷ ss) = (c <> s) ∷ ss

-- `strings.Split` at one byte.
abbrev pub split_on : ℕ → String → List String
split_on b String.[] = "" ∷ []
split_on b (String.◌∷◌ c s) =
    let rest = split_on b s in if code c == b then "" ∷ rest else push_front (String.◌∷◌ c "") rest

letters : List String
letters =
    "A" ∷ "B" ∷ "C" ∷ "D" ∷ "E" ∷ "F" ∷ "G" ∷ "H" ∷ "I" ∷ "J" ∷ "K" ∷ "L" ∷ "M" ∷ "N" ∷ "O" ∷ "P"
    ∷ "Q" ∷ "R" ∷ "S" ∷ "T" ∷ "U" ∷ "V" ∷ "W" ∷ "X" ∷ "Y" ∷ "Z" ∷ []

nth : List String → ℕ → String
nth [] i = ""
nth (s ∷ ss) zero = s
nth (s ∷ ss) (suc i) = nth ss i

-- `strings.ToUpper`, on ASCII.
unfoldable pub to_upper : String → String
unfolding letters nth
to_upper String.[] = ""
to_upper (String.◌∷◌ c s) =
    (if leb b'a' (code c) && leb (code c) b'z' then nth letters (code c - 97) else String.◌∷◌ c "")
    <> to_upper s

-- `strings.HasPrefix` of a text.
abbrev pub starts : String → String → Bool
starts s prefix = has_prefix (codes s) (codes prefix)

abbrev is_space : ℕ → Bool
is_space c = c == 32 || leb 9 c && leb c 13

trim_left : String → String
trim_left String.[] = ""
trim_left (String.◌∷◌ c s) =
    let rest = trim_left s in if is_space (code c) then rest else String.◌∷◌ c s

trim_right : String → String
trim_right String.[] = ""
trim_right (String.◌∷◌ c s) =
    let rest = trim_right s in if str_eq rest "" && is_space (code c) then "" else String.◌∷◌ c rest

-- `strings.TrimSpace`, on ASCII.
unfoldable pub trim_space : String → String
unfolding trim_left trim_right
trim_space s = trim_right (trim_left s)
