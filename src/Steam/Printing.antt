-- ===== src/Steam/Printing.antt =====
-- Objects printed as Steam writes them, and read by crates/frametime-domain/src/steam.rs.
use cs2_opt.Prelude.{
  ◌∙◌, ◌≡◌, ◌<◌, refl, ℕ, zero, suc, true, false, ◌||◌, List, [], ◌∷◌, ◌++◌, some, length, ok,
  arith, ap, ◌==◌, Bool-cases, inl, inr, length-append, if◌then◌else◌, All,
}
use cs2_opt.Prelude.Text.{Text, text_lt}
use cs2_opt.Steam.Lexer.{
  VdfToken, text, open_brace, close_brace, quote, backslash, quoted, tokens_within,
  skip_space_and_comments, push_front, is_ascii_whitespace, after_token,
}
use cs2_opt.Steam.Parser.{VdfValue, VdfObject, string, object, nil, entry}

-- A text between quotes; a quote and a backslash are escaped.
escaped : Text → Text
escaped [] = []
escaped (c ∷ t) =
    let rest = escaped t in if c == quote || c == backslash then backslash ∷ c ∷ rest else c ∷ rest

unfoldable pub render : List VdfToken → Text
unfolding escaped
render [] = []
render (text t ∷ ts) = quote ∷ (escaped t ++ (quote ∷ render ts))
render (open_brace ∷ ts) = b'{' ∷ render ts
render (close_brace ∷ ts) = b'}' ∷ render ts

-- Texts of ASCII characters but NUL.
abbrev pub IsPlain : Text → Type 0
IsPlain [] = Unit {0}
IsPlain (c ∷ t) = (0 < c) × (c < 128) × IsPlain t

abbrev pub IsPlainToken : VdfToken → Type 0
IsPlainToken (text t) = IsPlain t
IsPlainToken open_brace = Unit {0}
IsPlainToken close_brace = Unit {0}

quoted-plain :
    (c : ℕ) (t rest : Text)
    → 0 < c
    → c < 128
    → c == quote || c == backslash ≡ false
    → quoted (c ∷ (t ++ (quote ∷ rest))) ≡ push_front c (quoted (t ++ (quote ∷ rest)))
unfolding quoted
quoted-plain c [] rest above below plain = ground arith
quoted-plain c (x ∷ t) rest above below plain = ground arith

quoted-backslash :
    (c : ℕ) (s : Text)
    → c == quote || c == backslash ≡ true
    → quoted (backslash ∷ c ∷ s) ≡ push_front c (quoted s)
unfolding quoted
quoted-backslash c s special = rw special refl

quoted-escaped : (t rest : Text) → IsPlain t → quoted (escaped t ++ (quote ∷ rest)) ≡ ok (t, rest)
unfolding quoted escaped
quoted-escaped [] [] h = refl
quoted-escaped [] (d ∷ rest) h = refl
quoted-escaped (c ∷ t) rest (above, below, h) =
    let pushed = ap (push_front c) (quoted-escaped t rest h) in
    elim (Bool-cases (c == quote || c == backslash)) [
      | inl special ↦ rw special (quoted-backslash c (escaped t ++ (quote ∷ rest)) special ∙ pushed)
      | inr plain ↦ rw plain (quoted-plain c (escaped t) rest above below plain ∙ pushed)
    ]

skip-nil : skip_space_and_comments false [] ≡ ok []
unfolding skip_space_and_comments
skip-nil = refl

skip-solid :
    (c : ℕ) (s : Text)
    → is_ascii_whitespace c ≡ false
    → (c == b'/') ≡ false
    → skip_space_and_comments false (c ∷ s) ≡ ok (c ∷ s)
unfolding skip_space_and_comments
skip-solid c [] h h' = rw (h, h') refl
skip-solid c (d ∷ s) h h' = rw (h, h') refl

pub tokens_within-render :
    (fuel : ℕ) (ts : List VdfToken)
    → All IsPlainToken ts
    → length (render ts) < fuel
    → tokens_within fuel (render ts) ≡ some (ok ts)
unfolding tokens_within render is_ascii_whitespace
tokens_within-render zero ts plain h = absurd (omega (arith, h))
tokens_within-render (suc fuel) [] plain h = rw skip-nil refl
tokens_within-render (suc fuel) (open_brace ∷ ts) (_, plain) h =
    rw (skip-solid b'{' (render ts) refl refl)
      (ap (after_token open_brace) (tokens_within-render fuel ts plain (omega (arith, h))))
tokens_within-render (suc fuel) (close_brace ∷ ts) (_, plain) h =
    rw (skip-solid b'}' (render ts) refl refl)
      (ap (after_token close_brace) (tokens_within-render fuel ts plain (omega (arith, h))))
tokens_within-render (suc fuel) (text t ∷ ts) (here, plain) h =
    let shorter : length (render ts) < fuel =
      omega (arith, h, length-append (escaped t) (quote ∷ render ts)) in
    rw
      (
        skip-solid quote (escaped t ++ (quote ∷ render ts)) refl refl,
        quoted-escaped t (render ts) here,
      )
      (ap (after_token (text t)) (tokens_within-render fuel ts plain shorter))

-- The tokens of an object's entries.
unfoldable mutual
  pub print_value : VdfValue → List VdfToken
  print_value (string t) = text t ∷ []
  print_value (object o) = open_brace ∷ (print_object o ++ (close_brace ∷ []))

  pub print_object : VdfObject → List VdfToken
  print_object nil = []
  print_object (entry k v o) = text k ∷ (print_value v ++ print_object o)

abbrev pub append_object : VdfObject → VdfObject → VdfObject
append_object nil o = o
append_object (entry k v o') o = entry k v (append_object o' o)

-- A key comes before all keys of an object.
abbrev pub IsBefore : Text → VdfObject → Type 0
IsBefore key nil = Unit {0}
IsBefore key (entry k v o) = (text_lt key k ≡ true) × IsBefore key o

-- The keys rise in the object and in every object inside it, and all texts are plain.
unfoldable mutual
  pub IsOrderedValue : VdfValue → Type 0
  IsOrderedValue (string t) = IsPlain t
  IsOrderedValue (object o) = IsOrdered o

  pub IsOrdered : VdfObject → Type 0
  IsOrdered nil = Unit {0}
  IsOrdered (entry k v o) = IsPlain k × IsBefore k o × IsOrderedValue v × IsOrdered o
