-- ===== src/Prelude/Text.antt =====
-- Text that the program walks or splits, as its list of bytes; decimal printing and parsing of
-- machine integers as the Rust standard library documents them.
use Prim.Native.Nat.{ℕ, ◌+◌, ◌-◌, ◌*◌, ◌/◌, ◌%◌, ◌<◌}
use Prim.Native.Char.{code}
use Prim.Native.String.{String}
use mathlib.Core.Path.{◌≡◌, refl, ap}
use mathlib.Core.Logic.{◌↔◌}
use mathlib.Core.Bool.{Bool, true, false, ◌&&◌, ◌||◌}
use mathlib.Core.List.{List, [], ◌∷◌, ◌++◌}
use mathlib.Core.Option.{Option, none, some}
use native.Mathlib.Omega.{arith}
use cs2_opt.Prelude.Tests.{ltb, leb, ◌==◌, if◌then◌else◌}
use cs2_opt.Prelude.Lists.{holds_for, holds_for_lem}

abbrev pub Text : Type 0
Text = List ℕ

abbrev pub codes : String → Text
codes String.[] = []
codes (String.◌∷◌ c s) = code c ∷ codes s

unfoldable pub text_eq : Text → Text → Bool
text_eq [] [] = true
text_eq (a ∷ s) (b ∷ t) = a == b && text_eq s t
text_eq _ _ = false

pub text_eq_iff : (s t : Text) → (text_eq s t ≡ true) ↔ (s ≡ t)
unfolding text_eq
text_eq_iff [] [] = ground arith
text_eq_iff [] (b ∷ t) = ground arith
text_eq_iff (a ∷ s) [] = ground arith
text_eq_iff (a ∷ s) (b ∷ t) = ground (arith, text_eq_iff s t)

pub text_eq_refl : (s : Text) → text_eq s s ≡ true
text_eq_refl s = (text_eq_iff s s).1 refl

abbrev pub is_ascii_digit : ℕ → Bool
is_ascii_digit c = leb b'0' c && leb c b'9'

-- `Display` of a `u8`.
unfoldable pub show_u8 : ℕ → Text
show_u8 n =
    if ltb n 10
    then (b'0' + n) ∷ []
    else if ltb n 100
    then (b'0' + n / 10) ∷ (b'0' + n % 10) ∷ []
    else (b'0' + n / 100) ∷ (b'0' + n / 10 % 10) ∷ (b'0' + n % 10) ∷ []

-- One step of `from_str_radix`: a bad digit or an overflow ends the parse.
push_digit : ℕ → ℕ → ℕ → Option ℕ
push_digit most acc c =
    if is_ascii_digit c
    then (if leb (acc * 10 + (c - b'0')) most then some (acc * 10 + (c - b'0')) else none)
    else none

parse_digits : ℕ → ℕ → Text → Option ℕ
parse_digits most acc [] = some acc
parse_digits most acc (c ∷ s) = elim (push_digit most acc c) [
  | none ↦ none
  | some acc' ↦ parse_digits most acc' s
]

-- `str::parse` of an unsigned integer with the greatest value `most`: one leading `+` is allowed.
unfoldable pub parse_unsigned : ℕ → Text → Option ℕ
unfolding push_digit parse_digits
parse_unsigned most [] = none
parse_unsigned most (c ∷ []) = parse_digits most 0 (c ∷ [])
parse_unsigned most (c ∷ d ∷ s) = parse_digits most 0 (if c == b'+' then d ∷ s else c ∷ d ∷ s)

abbrev reads_back : ℕ → Bool
reads_back n = elim (parse_unsigned 255 (show_u8 n)) [ none ↦ false | some m ↦ m == n ]

reads_back_table : holds_for reads_back 256 0 ≡ true
unfolding holds_for parse_unsigned show_u8
reads_back_table = refl

reads_back_lem : (n : ℕ) → reads_back n ≡ true → parse_unsigned 255 (show_u8 n) ≡ some n
reads_back_lem n h = ground arith

-- A printed `u8` parses back.
pub parse_unsigned-show_u8 : (n : ℕ) → n < 256 → parse_unsigned 255 (show_u8 n) ≡ some n
parse_unsigned-show_u8 n h =
    reads_back_lem n (holds_for_lem reads_back 256 0 n (omega arith) (omega arith) reads_back_table)

pub show_u8-injective : (m n : ℕ) → m < 256 → n < 256 → show_u8 m ≡ show_u8 n → m ≡ n
show_u8-injective m n hm hn e =
    ground (arith, parse_unsigned-show_u8 m, parse_unsigned-show_u8 n, ap (parse_unsigned 255) e)

-- `str::split` at one byte; the result has at least one part.
unfoldable pub push_first : ℕ → List Text → List Text
push_first c [] = (c ∷ []) ∷ []
push_first c (w ∷ ws) = (c ∷ w) ∷ ws

unfoldable pub split_on : ℕ → Text → List Text
unfolding push_first
split_on sep [] = [] ∷ []
split_on sep (c ∷ s) =
    let rest = split_on sep s in if c == sep then [] ∷ rest else push_first c rest

-- `char::is_ascii_hexdigit`, and its lowercase half.
abbrev pub is_lower_hex : ℕ → Bool
is_lower_hex c = is_ascii_digit c || leb b'a' c && leb c b'f'

abbrev pub is_hex : ℕ → Bool
is_hex c = is_lower_hex c || leb b'A' c && leb c b'F'

-- `u8::to_ascii_lowercase`, over a text.
unfoldable pub lower : ℕ → ℕ
lower c = if leb b'A' c && leb c b'Z' then c + 32 else c

unfoldable pub to_ascii_lowercase : Text → Text
unfolding lower
to_ascii_lowercase [] = []
to_ascii_lowercase (c ∷ s) = lower c ∷ to_ascii_lowercase s

-- The order of `String`: bytewise, the shorter text first.
unfoldable pub text_lt : Text → Text → Bool
text_lt [] [] = false
text_lt [] (b ∷ t) = true
text_lt (a ∷ s) [] = false
text_lt (a ∷ s) (b ∷ t) = let rest = text_lt s t in ltb a b || a == b && rest

abbrev pub IsPresent : List Text → Type 0
IsPresent [] = ⊥
IsPresent (part ∷ rest) = Unit {0}

pub split_on-IsPresent : (sep : ℕ) (s : Text) → IsPresent (split_on sep s)
unfolding split_on
split_on-IsPresent sep [] = tt
split_on-IsPresent sep (c ∷ s) = go (c == sep) (split_on sep s)
  where
    go : (b : Bool) (rest : List Text) → IsPresent (if b then [] ∷ rest else push_first c rest)
    go true rest = tt
    go false [] = tt
    go false (w ∷ ws) = tt

push_first-append :
    (c : ℕ) (xs ys : List Text) → IsPresent xs → push_first c (xs ++ ys) ≡ push_first c xs ++ ys
unfolding push_first
push_first-append c [] ys h = absurd h
push_first-append c (x ∷ xs) ys h = refl

-- Splitting at a separator splits what stands on its two sides.
pub split_on-append :
    (sep : ℕ) (s t : Text) → split_on sep (s ++ sep ∷ t) ≡ split_on sep s ++ split_on sep t
unfolding split_on
split_on-append sep [] t = ground arith
split_on-append sep (c ∷ s) t = ground (
  arith,
  split_on-append sep s t,
  push_first-append c (split_on sep s) (split_on sep t) (split_on-IsPresent sep s),
)
