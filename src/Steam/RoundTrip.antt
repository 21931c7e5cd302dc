-- ===== src/Steam/RoundTrip.antt =====
-- An object that was printed is read back: crates/frametime-domain/src/steam.rs.
use mathlib.Core.Path.{subst}
use mathlib.Core.List.{append_assoc, append-nil}
use cs2_opt.Prelude.{
  length-append, ◌∙◌, ◌≡◌, ◌<◌, refl, sym, ℕ, zero, suc, Bool, true, false, List, [], ◌∷◌, ◌++◌,
  some, length, ok, arith, ap, length-append, All,
}
use cs2_opt.Steam.Printing.{IsOrdered, IsPlainToken, render, tokens_within-render}
use cs2_opt.Prelude.Text.{Text, text_lt, text_eq}
use cs2_opt.Steam.Lexer.{VdfToken, close_brace, tokens}
use cs2_opt.Steam.Parser.{
  VdfValue, VdfObject, string, object, nil, entry, insert_entry, parse_object, inserted, parse_vdf,
}
use cs2_opt.Steam.Printing.{append_object, IsOrdered, print_object, IsBefore, IsOrderedValue}

text_lt-apart : (s t : Text) → text_lt s t ≡ true → text_eq s t ≡ false
unfolding text_lt text_eq
text_lt-apart [] [] h = ground arith
text_lt-apart [] (b ∷ t) h = refl
text_lt-apart (a ∷ s) [] h = refl
text_lt-apart (a ∷ s) (b ∷ t) h = ground (arith, text_lt-apart s t)

text_lt-asym : (s t : Text) → text_lt s t ≡ true → text_lt t s ≡ false
unfolding text_lt
text_lt-asym [] [] h = ground arith
text_lt-asym [] (b ∷ t) h = refl
text_lt-asym (a ∷ s) [] h = ground arith
text_lt-asym (a ∷ s) (b ∷ t) h = ground (arith, text_lt-asym s t)

IsBefore-append_object :
    (key k : Text) (v : VdfValue) (done o : VdfObject)
    → IsBefore key (append_object done (entry k v o))
    → text_lt key k ≡ true
IsBefore-append_object key k v nil o h = h.0
IsBefore-append_object key k v (entry a w done) o h = IsBefore-append_object key k v done o h.1

-- An entry that comes last is inserted at the end.
insert_entry-append_object :
    (k : Text) (v : VdfValue) (done o : VdfObject)
    → IsOrdered (append_object done (entry k v o))
    → insert_entry k v done ≡ some (append_object done (entry k v nil))
unfolding insert_entry IsOrdered
insert_entry-append_object k v nil o h = refl
insert_entry-append_object k v (entry a w done) o h =
    let before : text_lt a k ≡ true = IsBefore-append_object a k v done o h.1 in
    rw
      (text_lt-apart a k before, text_lt-asym a k before, insert_entry-append_object k v done o h.3)
      refl

append_object-entry :
    (k : Text) (v : VdfValue) (done o : VdfObject)
    → append_object (append_object done (entry k v nil)) o ≡ append_object done (entry k v o)
append_object-entry k v nil o = refl
append_object-entry k v (entry a w done) o = ap (entry a w) (append_object-entry k v done o)

append_object-nil : (o : VdfObject) → append_object o nil ≡ o
append_object-nil nil = refl
append_object-nil (entry k v o) = ap (entry k v) (append_object-nil o)

IsOrdered-value :
    (k : Text) (v : VdfValue) (done o : VdfObject)
    → IsOrdered (append_object done (entry k v o))
    → IsOrderedValue v
unfolding IsOrdered
IsOrdered-value k v nil o h = h.2
IsOrdered-value k v (entry a w done) o h = IsOrdered-value k v done o h.3

inserted-append_object :
    (k : Text) (v : VdfValue) (done o : VdfObject)
    → IsOrdered (append_object done (entry k v o))
    → inserted k v done ≡ ok (append_object done (entry k v nil))
inserted-append_object k v done o h = rw (inserted, insert_entry-append_object k v done o h) refl

closing :
    (inside others rest : List VdfToken)
    → ((inside ++ (close_brace ∷ [])) ++ others) ++ rest
      ≡ inside ++ (close_brace ∷ (others ++ rest))
closing inside others rest =
    append_assoc (inside ++ (close_brace ∷ [])) others rest
    ∙ append_assoc inside (close_brace ∷ []) (others ++ rest)

-- Where a parse has got to, with the fuel that is left.
abbrev Reaches : ℕ → Bool → VdfObject → List VdfToken → VdfObject → List VdfToken → Type 0
Reaches fuel expect_close done ts o rest =
    (left : ℕ) × ((length rest < left)
      × (parse_object fuel expect_close done ts ≡ parse_object left expect_close o rest))

parse_object-closed :
    (left : ℕ) (o : VdfObject) (rest : List VdfToken)
    → length (close_brace ∷ rest) < left
    → parse_object left true o (close_brace ∷ rest) ≡ some (ok (o, rest))
unfolding parse_object
parse_object-closed zero o rest h = absurd (omega (arith, h))
parse_object-closed (suc left) o rest h = refl

parse_object-print_object :
    (o : VdfObject) (fuel : ℕ) (expect_close : Bool) (done : VdfObject) (rest : List VdfToken)
    → IsOrdered (append_object done o)
    → length (print_object o ++ rest) < fuel
    → Reaches fuel expect_close done (print_object o ++ rest) (append_object done o) rest
unfolding parse_object print_object IsOrdered IsOrderedValue
parse_object-print_object nil fuel expect_close done rest h le =
    (fuel, (le, ap (λ d. parse_object fuel expect_close d rest) (sym (append_object-nil done))))
parse_object-print_object (entry k v o) zero expect_close done rest h le =
    absurd (omega (arith, le))
parse_object-print_object (entry k (string t) o) (suc fuel) expect_close done rest h le =
    let next : VdfObject = append_object done (entry k (string t) nil) in
    let same : append_object next o ≡ append_object done (entry k (string t) o) =
      append_object-entry k (string t) done o in
    let (left, (more, e)) =
      parse_object-print_object o fuel expect_close next rest (subst IsOrdered (sym same) h)
        (omega (arith, le)) in
    (
      left,
      (
        more,
        rw (inserted-append_object k (string t) done o h)
            (e ∙ ap (λ d. parse_object left expect_close d rest) same),
      ),
    )
parse_object-print_object (entry k (object p) o) (suc fuel) expect_close done rest h le =
    let next : VdfObject = append_object done (entry k (object p) nil) in
    let same : append_object next o ≡ append_object done (entry k (object p) o) =
      append_object-entry k (object p) done o in
    let after : List VdfToken = print_object o ++ rest in
    let fits : length (print_object p ++ (close_brace ∷ after)) < fuel =
      omega (arith, le, ap length (closing (print_object p) (print_object o) rest)) in
    let (inner, (more, e)) =
      parse_object-print_object p fuel true nil (close_brace ∷ after)
        (IsOrdered-value k (object p) done o h) fits in
    let nested : parse_object fuel true nil
          (((print_object p ++ (close_brace ∷ [])) ++ print_object o) ++ rest)
        ≡ some (ok (p, after)) =
      ap (parse_object fuel true nil) (closing (print_object p) (print_object o) rest)
      ∙ (e ∙ parse_object-closed inner p after more) in
    let room : length after < fuel =
      omega (arith, fits, length-append (print_object p) (close_brace ∷ after)) in
    let (left, (still_more, e')) =
      parse_object-print_object o fuel expect_close next rest (subst IsOrdered (sym same) h) room in
    (
      left,
      (
        still_more,
        rw (nested, inserted-append_object k (object p) done o h)
            (e' ∙ ap (λ d. parse_object left expect_close d rest) same),
      ),
    )

All-append :
    (xs ys : List VdfToken)
    → All IsPlainToken xs
    → All IsPlainToken ys
    → All IsPlainToken (xs ++ ys)
All-append [] ys h h' = h'
All-append (x ∷ xs) ys (here, h) h' = (here, All-append xs ys h h')

plain_object : (o : VdfObject) → IsOrdered o → All IsPlainToken (print_object o)
unfolding IsOrdered print_object
plain_object nil h = tt
plain_object (entry k (string t) o) (key, _, value, h) = (key, (value, plain_object o h))
plain_object (entry k (object p) o) (key, _, inner, h) = (
  key,
  (
    tt,
    All-append (print_object p ++ (close_brace ∷ [])) (print_object o)
        (All-append (print_object p) (close_brace ∷ []) (plain_object p inner) (tt, tt))
        (plain_object o h),
  ),
)

parse_object-end :
    (left : ℕ) (o : VdfObject) → 0 < left → parse_object left false o [] ≡ some (ok (o, []))
unfolding parse_object
parse_object-end zero o h = absurd (omega (arith, h))
parse_object-end (suc left) o h = refl

parse_object-whole :
    (o : VdfObject)
    → IsOrdered o
    → parse_object (suc (length (print_object o))) false nil (print_object o) ≡ some (ok (o, []))
parse_object-whole o h =
    let ts : List VdfToken = print_object o in
    let (left, (more, e)) =
      parse_object-print_object o (suc (length ts)) false nil [] h
        (omega (arith, ap length (append-nil ts))) in
    ap (parse_object (suc (length ts)) false nil) (sym (append-nil ts))
    ∙ (e ∙ parse_object-end left o more)

-- An object whose keys rise, in it and in all objects inside it, and whose texts are of ASCII
-- characters but NUL, is read back as it is from what it prints.
pub parse_vdf-render :
    (o : VdfObject) → IsOrdered o → parse_vdf (render (print_object o)) ≡ some (ok o)
unfolding parse_vdf tokens
parse_vdf-render o h =
    let ts : List VdfToken = print_object o in
    rw
      (
        tokens_within-render (suc (length (render ts))) ts (plain_object o h) (omega arith),
        parse_object-whole o h,
      )
      refl
