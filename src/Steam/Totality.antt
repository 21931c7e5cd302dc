-- ===== src/Steam/Totality.antt =====
-- The fuel of the reader of crates/frametime-domain/src/steam.rs.
use mathlib.Core.Path.{subst}
use cs2_opt.Prelude.{
  refl, zero, ◌≡◌, suc, ◌<◌, none, sym, ◌≤◌, ℕ, Bool, true, false, [], ◌∷◌, length, Result, ok, err,
  arith, not, if◌then◌else◌, ◌==◌, ltb, ◌&&◌, ◌||◌, Option, some, List,
}
use cs2_opt.Prelude.Text.{Text}
use cs2_opt.Steam.Parser.{nil, object, string, whole_object, parse_vdf, parse_tokens}
use cs2_opt.Steam.Lexer.{
  text, open_brace, close_brace, SteamError, skip_space_and_comments, Quoted, push_front, quoted,
  quote, is_ascii_whitespace, backslash, invalid_vdf, Bounded, VdfToken, tokens_within,
  quoted_token, next_token, after_token, tokens,
}
use cs2_opt.Steam.Parser.{Parsed, VdfObject, parse_object, parse_rest, parse_nested, inserted}

-- What is left, if anything was read, is no longer than a bound.
module _ {A : Type 0} (size : A → ℕ) where
  abbrev Bound : ℕ → Result SteamError A → Type 0
  Bound n (ok a) = size a ≤ n
  Bound n (err e) = Unit {0}

  record Within (n : ℕ) (r : Result SteamError A) : Type 0 where
    bound : Bound n r

  Within-if :
      {n : ℕ} (b : Bool) {yes no : Result SteamError A}
      → Within n yes
      → Within n no
      → Within n (if b then yes else no)
  Within-if true h h' = h
  Within-if false h h' = h'

  Within-err : {n : ℕ} (e : SteamError) → Within n (err e)
  Within-err e = record { bound = tt }

  Within-ok : {n : ℕ} (a : A) → size a ≤ n → Within n (ok a)
  Within-ok a h = record { bound = h }

  Within-le : {m n : ℕ} {r : Result SteamError A} → m ≤ n → Within m r → Within n r
  Within-le {r = ok a} le h = record { bound = omega (arith, h.bound, le) }
  Within-le {r = err e} le h = record { bound = tt }

abbrev rest_length : Text × Text → ℕ
rest_length q = length q.1

skip-Within : (b : Bool) (s : Text) → Within length (length s) (skip_space_and_comments b s)
unfolding skip_space_and_comments
skip-Within true [] = Within-ok length [] (omega arith)
skip-Within false [] = Within-ok length [] (omega arith)
skip-Within true (c ∷ s) = Within-le length (omega arith) (skip-Within (not (c == 10)) s)
skip-Within false (c ∷ []) =
    Within-if length (is_ascii_whitespace c) (Within-ok length [] (omega arith)) (
      Within-if length (c == b'/') (Within-err length (invalid_vdf "unsupported VDF comment"))
        (Within-ok length (c ∷ []) (omega arith)))
skip-Within false (c ∷ d ∷ s) =
    Within-if length (is_ascii_whitespace c)
      (Within-le length (omega arith) (skip-Within false (d ∷ s)))
      (Within-if length (c == b'/' && d == b'/')
        (Within-le length (omega arith) (skip-Within true s))
        (Within-if length (c == b'/') (Within-err length (invalid_vdf "unsupported VDF comment"))
          (Within-ok length (c ∷ d ∷ s) (omega arith))))

push_front-Within :
    {m n : ℕ} (c : ℕ) (q : Quoted)
    → m ≤ n
    → Within rest_length m q
    → Within rest_length n (push_front c q)
push_front-Within c (ok (result, rest)) le h =
    Within-ok rest_length (c ∷ result, rest) (omega (arith, h.bound, le))
push_front-Within c (err e) le h = Within-err rest_length e

quoted-Within : (s : Text) → Within rest_length (length s) (quoted s)
unfolding quoted
quoted-Within [] = Within-err rest_length (invalid_vdf "unclosed VDF string")
quoted-Within (c ∷ []) =
    let unclosed = Within-err rest_length (invalid_vdf "unclosed VDF string") in
    Within-if rest_length (c == quote) (Within-ok rest_length ([], []) (omega arith)) (
      Within-if rest_length (c == backslash) unclosed (
        Within-if rest_length (c == 0) (Within-err rest_length (invalid_vdf "NUL in VDF")) (
          Within-if rest_length (ltb c 128) unclosed
            (Within-err rest_length (invalid_vdf "non-ASCII VDF text is unsupported")))))
quoted-Within (c ∷ d ∷ s) =
    Within-if rest_length (c == quote) (Within-ok rest_length ([], d ∷ s) (omega arith)) (
      Within-if rest_length (c == backslash)
        (Within-if rest_length (d == quote || d == backslash)
          (push_front-Within d (quoted s) (omega arith) (quoted-Within s))
          (Within-err rest_length (invalid_vdf "unsupported VDF escape")))
        (Within-if rest_length (c == 0) (Within-err rest_length (invalid_vdf "NUL in VDF")) (
          Within-if rest_length (ltb c 128)
            (push_front-Within c (quoted (d ∷ s)) (omega arith) (quoted-Within (d ∷ s)))
            (Within-err rest_length (invalid_vdf "non-ASCII VDF text is unsupported")))))

-- A bounded result that did not run out of fuel.
abbrev Returns : {A : Type 0} → Bounded A → Type 0
Returns {A} m = (r : Result SteamError A) × (m ≡ some r)

if-Returns :
    {A : Type 0} (b : Bool) (first second : Bounded A)
    → Returns first
    → Returns second
    → Returns (if b then first else second)
if-Returns true first second h h' = h
if-Returns false first second h h' = h'

after_token-Returns :
    (t : VdfToken) (m : Bounded (List VdfToken)) → Returns m → Returns (after_token t m)
after_token-Returns t (some (ok ts)) h = (ok (t ∷ ts), refl)
after_token-Returns t (some (err e)) h = (err e, refl)
after_token-Returns t none (r, e) = ground arith

module _ (again : Text → Bounded (List VdfToken)) (n : ℕ)
    (total : (s : Text) → length s < n → Returns (again s)) where
  quoted_token-Returns :
      (q : Quoted) (m : ℕ) → m < n → Within rest_length m q → Returns (quoted_token again q)
  quoted_token-Returns (ok (result, s)) m le h =
      after_token-Returns (text result) (again s) (total s (omega (arith, h.bound, le)))
  quoted_token-Returns (err e) m le h = (err e, refl)

  next_token-Returns :
      (r : Result SteamError Text) → Within length n r → Returns (next_token again r)
  next_token-Returns (err e) h = (err e, refl)
  next_token-Returns (ok []) h = (ok [], refl)
  next_token-Returns (ok (c ∷ s)) h =
      let shorter : length s < n = omega (arith, h.bound) in
      let rest : Returns (again s) = total s shorter in
      if-Returns (c == b'{') _ _ (after_token-Returns open_brace (again s) rest) (
        if-Returns (c == b'}') _ _ (after_token-Returns close_brace (again s) rest) (
          if-Returns (c == quote) _ _
            (quoted_token-Returns (quoted s) (length s) shorter (quoted-Within s))
            (err (invalid_vdf "VDF values must be quoted"), refl)))

tokens_within-Returns : (fuel : ℕ) (s : Text) → length s < fuel → Returns (tokens_within fuel s)
unfolding tokens_within
tokens_within-Returns zero s h = absurd (omega (arith, h))
tokens_within-Returns (suc fuel) s h =
    next_token-Returns (λ rest. tokens_within fuel rest) fuel
      (λ rest shorter. tokens_within-Returns fuel rest shorter) (skip_space_and_comments false s)
      (Within-le length (omega (arith, h)) (skip-Within false s))

abbrev tokens_left : VdfObject × List VdfToken → ℕ
tokens_left p = length p.1

-- A parse that did not run out of fuel and leaves at most so many tokens.
abbrev Parses : ℕ → Parsed → Type 0
Parses n m =
    (r : Result SteamError (VdfObject × List VdfToken)) × ((m ≡ some r) × Within tokens_left n r)

some-injective : {A : Type 0} {a b : A} → Path (Option A) (some a) (some b) → a ≡ b
some-injective h = ground arith

refuses : (n : ℕ) (e : SteamError) → Parses n (some (err e))
refuses n e = (err e, (refl, Within-err tokens_left e))

module _ (again : VdfObject → List VdfToken → Parsed) (n : ℕ)
    (total : (o : VdfObject) (ts : List VdfToken)
      → length ts < n
      → Parses (length ts) (again o ts)) where
  parse_rest-Parses :
      (m : ℕ) (r : Result SteamError VdfObject) (ts : List VdfToken)
      → length ts < n
      → length ts ≤ m
      → Parses m (parse_rest again r ts)
  parse_rest-Parses m (err e) ts h le = refuses m e
  parse_rest-Parses m (ok o) ts h le =
      let (r, (e, w)) = total o ts h in (r, (e, Within-le tokens_left le w))

  parse_nested-Parses :
      (m : ℕ) (key : Text) (o : VdfObject) (p : Parsed)
      → m < n
      → Parses m p
      → Parses m (parse_nested again key o p)
  parse_nested-Parses m key o none le (r, (e, w)) = ground arith
  parse_nested-Parses m key o (some (err x)) le h = refuses m x
  parse_nested-Parses m key o (some (ok (value, ts))) le (r, (e, w)) =
      let left : length ts ≤ m =
        (subst (λ x. Within tokens_left m x) (sym (some-injective e)) w).bound in
      parse_rest-Parses m (inserted key (object value) o) ts (omega (arith, le, left)) left

parse_object-Parses :
    (fuel : ℕ) (expect_close : Bool) (o : VdfObject) (ts : List VdfToken)
    → length ts < fuel
    → Parses (length ts) (parse_object fuel expect_close o ts)
unfolding parse_object
parse_object-Parses zero expect_close o ts h = absurd (omega (arith, h))
parse_object-Parses (suc fuel) true o [] h = refuses _ _
parse_object-Parses (suc fuel) false o [] h =
    (ok (o, []), (refl, Within-ok tokens_left (o, []) (omega arith)))
parse_object-Parses (suc fuel) true o (close_brace ∷ ts) h =
    (ok (o, ts), (refl, Within-ok tokens_left (o, ts) (omega arith)))
parse_object-Parses (suc fuel) false o (close_brace ∷ ts) h = refuses _ _
parse_object-Parses (suc fuel) expect_close o (open_brace ∷ ts) h = refuses _ _
parse_object-Parses (suc fuel) expect_close o (text key ∷ []) h = refuses _ _
parse_object-Parses (suc fuel) expect_close o (text key ∷ close_brace ∷ ts) h = refuses _ _
parse_object-Parses (suc fuel) expect_close o (text key ∷ text value ∷ ts) h =
    parse_rest-Parses (λ o' ts'. parse_object fuel expect_close o' ts') fuel
      (λ o' ts' le. parse_object-Parses fuel expect_close o' ts' le)
      (length (text key ∷ text value ∷ ts)) (inserted key (string value) o) ts (omega (arith, h))
      (omega arith)
parse_object-Parses (suc fuel) expect_close o (text key ∷ open_brace ∷ ts) h =
    let (r, (e, w)) = parse_object-Parses fuel true nil ts (omega (arith, h)) in
    let (r', (e', w')) =
      parse_nested-Parses (λ o' ts'. parse_object fuel expect_close o' ts') fuel
        (λ o' ts' le. parse_object-Parses fuel expect_close o' ts' le) (length ts) key o
        (parse_object fuel true nil ts) (omega (arith, h)) (r, (e, w)) in
    (r', (e', Within-le tokens_left (omega arith) w'))

whole_object-Returns : (n : ℕ) (m : Parsed) → Parses n m → Returns (whole_object m)
whole_object-Returns n none (r, (e, w)) = ground arith
whole_object-Returns n (some (err x)) h = (err x, refl)
whole_object-Returns n (some (ok (o, []))) h = (ok o, refl)
whole_object-Returns n (some (ok (o, t ∷ ts))) h = (err (invalid_vdf "trailing VDF tokens"), refl)

parse_tokens-Returns : (m : Bounded (List VdfToken)) → Returns m → Returns (parse_tokens m)
parse_tokens-Returns none (r, e) = ground arith
parse_tokens-Returns (some (err x)) h = (err x, refl)
parse_tokens-Returns (some (ok ts)) h =
    whole_object-Returns (length ts) _
      (parse_object-Parses (suc (length ts)) false nil ts (omega arith))

-- Reading a text ends, with an object or an error, before the fuel does: one more than the length of
-- the text for the tokens and one more than their number for the objects.
pub parse_vdf-Returns :
    (source : Text) → (r : Result SteamError VdfObject) × (parse_vdf source ≡ some r)
unfolding parse_vdf tokens
parse_vdf-Returns source =
    parse_tokens-Returns (tokens source)
      (tokens_within-Returns (suc (length source)) source (omega arith))
