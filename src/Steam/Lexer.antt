-- ===== src/Steam/Lexer.antt =====
-- `VdfLexer` of crates/frametime-domain/src/steam.rs. What is left of the source stands for the
-- offset into it.
use cs2_opt.Prelude.{
  ℕ, zero, suc, Bool, true, false, not, ◌&&◌, ◌||◌, List, [], ◌∷◌, Option, none, some, ◌==◌, ltb,
  length, Result, ok, err, String, if◌then◌else◌,
}
use cs2_opt.Prelude.Text.{Text}

pub data SteamError : Type 0 where
  invalid_vdf : String → SteamError
  duplicate_key : Text → SteamError

pub data VdfToken : Type 0 where
  text : Text → VdfToken
  open_brace close_brace : VdfToken

abbrev pub quote : ℕ
quote = 34

abbrev pub backslash : ℕ
backslash = 92

-- `u8::is_ascii_whitespace`
unfoldable pub is_ascii_whitespace : ℕ → Bool
is_ascii_whitespace c = c == 32 || (c == 9 || (c == 10 || (c == 12 || c == 13)))

-- What follows the blanks and comments; the Boolean says that a comment is being skipped.
unfoldable pub skip_space_and_comments : Bool → Text → Result SteamError Text
skip_space_and_comments commented [] = ok []
skip_space_and_comments true (c ∷ s) = skip_space_and_comments (not (c == 10)) s
skip_space_and_comments false (c ∷ []) =
    if is_ascii_whitespace c
    then ok []
    else if c == b'/'
    then err (invalid_vdf "unsupported VDF comment")
    else ok (c ∷ [])
skip_space_and_comments false (c ∷ d ∷ s) =
    let blank = skip_space_and_comments false (d ∷ s) in
    let comment = skip_space_and_comments true s in
    if is_ascii_whitespace c
    then blank
    else if c == b'/' && d == b'/'
    then comment
    else if c == b'/'
    then err (invalid_vdf "unsupported VDF comment")
    else ok (c ∷ d ∷ s)

-- A read text and what follows its closing quote.
abbrev pub Quoted : Type 0
Quoted = Result SteamError (Text × Text)

abbrev pub push_front : ℕ → Quoted → Quoted
push_front c (ok (result, rest)) = ok (c ∷ result, rest)
push_front c (err e) = err e

-- The rest of a quoted text, after its opening quote.
unfoldable pub quoted : Text → Quoted
quoted [] = err (invalid_vdf "unclosed VDF string")
quoted (c ∷ []) =
    if c == quote
    then ok ([], [])
    else if c == backslash
    then err (invalid_vdf "unclosed VDF string")
    else if c == 0
    then err (invalid_vdf "NUL in VDF")
    else if ltb c 128
    then err (invalid_vdf "unclosed VDF string")
    else err (invalid_vdf "non-ASCII VDF text is unsupported")
quoted (c ∷ d ∷ s) =
    let plain = quoted (d ∷ s) in
    let escaped = quoted s in
    if c == quote
    then ok ([], d ∷ s)
    else if c == backslash
    then (if d == quote || d == backslash
        then push_front d escaped
        else err (invalid_vdf "unsupported VDF escape"))
    else if c == 0
    then err (invalid_vdf "NUL in VDF")
    else if ltb c 128
    then push_front c plain
    else err (invalid_vdf "non-ASCII VDF text is unsupported")

-- A result that may still be out of fuel.
abbrev pub Bounded : Type 0 → Type 0
Bounded A = Option (Result SteamError A)

abbrev pub after_token : VdfToken → Bounded (List VdfToken) → Bounded (List VdfToken)
after_token t none = none
after_token t (some (ok ts)) = some (ok (t ∷ ts))
after_token t (some (err e)) = some (err e)

-- One round of the loop of `tokens`, with the rounds after it.
abbrev pub quoted_token : (Text → Bounded (List VdfToken)) → Quoted → Bounded (List VdfToken)
quoted_token again (err e) = some (err e)
quoted_token again (ok (result, s)) = after_token (text result) (again s)

abbrev pub next_token :
    (Text → Bounded (List VdfToken)) → Result SteamError Text → Bounded (List VdfToken)
next_token again (err e) = some (err e)
next_token again (ok []) = some (ok [])
next_token again (ok (c ∷ s)) =
    if c == b'{'
    then after_token open_brace (again s)
    else if c == b'}'
    then after_token close_brace (again s)
    else if c == quote
    then quoted_token again (quoted s)
    else some (err (invalid_vdf "VDF values must be quoted"))

unfoldable pub tokens_within : ℕ → Text → Bounded (List VdfToken)
tokens_within zero s = none
tokens_within (suc fuel) s =
    next_token (λ rest. tokens_within fuel rest) (skip_space_and_comments false s)

unfoldable pub tokens : Text → Bounded (List VdfToken)
tokens source = tokens_within (suc (length source)) source
