-- ===== src/Handoff/Format.antt =====
-- The formats that crates/frametime-domain/src/handoff.rs accepts for identifiers and paths.
use cs2_opt.Prelude.{
  ℕ, ◌-◌, ◌^◌, Bool, false, not, ◌&&◌, ◌||◌, List, [], ◌∷◌, leb, ◌==◌, length, all, any, is_empty,
  is_some, Result, ok, err, String, if◌then◌else◌,
}
use cs2_opt.Prelude.Text.{
  Text, codes, text_eq, is_ascii_digit, is_lower_hex, is_hex, split_on, parse_unsigned,
}

-- A text of 32 lowercase hexadecimal digits: generations and transaction identities.
unfoldable pub valid_generation_id : Text → Bool
unfolding all
valid_generation_id value = length value == 32 && all is_lower_hex value

unfoldable pub valid_sha256 : Text → Bool
unfolding all
valid_sha256 value = length value == 64 && all is_hex value

-- `TransactionId` wraps its text; `parse` is the only way to make one.
pub record TransactionId : Type 0 where
  pub text : Text

unfoldable pub transaction_id_parse : Text → Result String TransactionId
unfolding all
transaction_id_parse value =
    if length value == 32 && all is_lower_hex value
    then ok (record { text = value })
    else err "transaction id must be 32 lowercase hexadecimal characters"

abbrev pub starts_with_any : List ℕ → Text → Bool
starts_with_any cs [] = false
starts_with_any cs (c ∷ s) = any (λ d. c == d) cs

abbrev pub contains_any : List ℕ → Text → Bool
contains_any cs s = any (λ c. any (λ d. c == d) cs) s

abbrev pub is_plain_part : Text → Bool
is_plain_part part =
    not (is_empty part) && not (text_eq part (codes ".") || text_eq part (codes ".."))

unfoldable pub valid_relative_path : Text → Bool
unfolding all any split_on text_eq
valid_relative_path value =
    not (is_empty value)
    && (not (starts_with_any (b'/' ∷ 92 ∷ []) value)
        && (not (contains_any (92 ∷ b':' ∷ 0 ∷ []) value)
            && all is_plain_part (split_on b'/' value)))

unfoldable pub canonical_decimal : Text → Bool
unfolding all text_eq
canonical_decimal value =
    not (is_empty value)
    && (all is_ascii_digit value
        && (text_eq value (codes "0") || not (starts_with_any (b'0' ∷ []) value)))

abbrev fits : ℕ → Text → Bool
fits most part = canonical_decimal part && is_some (parse_unsigned most part)

unfoldable pub sid_parts : List Text → Bool
unfolding canonical_decimal parse_unsigned
sid_parts (prefix ∷ revision ∷ authority ∷ subauthorities) =
    text_eq prefix (codes "S")
    && (text_eq revision (codes "1")
        && (fits (2 ^ 64 - 1) authority
            && (leb 1 (length subauthorities)
                && (leb (length subauthorities) 15 && all (fits (2 ^ 32 - 1)) subauthorities))))
sid_parts _ = false

unfoldable pub valid_user_sid : Text → Bool
unfolding sid_parts split_on
valid_user_sid value = sid_parts (split_on b'-' value)
