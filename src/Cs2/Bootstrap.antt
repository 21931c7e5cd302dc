-- ===== src/Cs2/Bootstrap.antt =====
-- What `ensure_autoexec_line` of crates/frametime-domain/src/cs2.rs does to a text.
use mathlib.Core.Path.{subst}
use mathlib.Core.List.{append-nil, append_assoc}
use cs2_opt.Prelude.{
  false, ◌∙◌, refl, any, last, ◌≡◌, Bool, ◌++◌, true, List, ◌∷◌, [], arith, ap, sym, last-append,
  if◌then◌else◌, is_empty,
}
use cs2_opt.Cs2.Autoexec.{
  lines, ends_with_line_feed, terminated, is_optimization_exec, line_feed, last_line,
  trim_end_matches, is_whitespace, with_line_feed, ensure_autoexec_line, new_autoexec,
  has_blank_final_line,
}
use cs2_opt.Prelude.Text.{
  Text, IsPresent, split_on-append, split_on, split_on-IsPresent, text_eq, to_ascii_lowercase,
}

any-terminated :
    (p : Text → Bool) (xs ys : List Text)
    → IsPresent ys
    → any p (terminated ys) ≡ true
    → any p (terminated (xs ++ ys)) ≡ true
unfolding any terminated
any-terminated p [] ys present h = h
any-terminated p (x ∷ []) [] present h = absurd present
any-terminated p (x ∷ []) (y ∷ ys) present h = ground (arith, h)
any-terminated p (x ∷ x' ∷ xs) ys present h =
    ground (arith, any-terminated p (x' ∷ xs) ys present h)

last_line_runs : any is_optimization_exec (terminated (split_on line_feed last_line)) ≡ true
unfolding any is_optimization_exec split_on terminated text_eq to_ascii_lowercase trim_end_matches
    is_whitespace
last_line_runs = refl

-- The line, and what comes after it, counts wherever it starts a line.
runs-append : (u : Text) → any is_optimization_exec (lines (u ++ (line_feed ∷ last_line))) ≡ true
unfolding lines
runs-append u =
    subst (λ parts. any is_optimization_exec (terminated parts) ≡ true)
      (sym (split_on-append line_feed u last_line))
      (any-terminated is_optimization_exec (split_on line_feed u) (split_on line_feed last_line)
        (split_on-IsPresent line_feed last_line) last_line_runs)

ends_with_line_feed-split :
    (s : Text) → ends_with_line_feed s ≡ true → (u : Text) × (s ≡ u ++ (line_feed ∷ []))
unfolding ends_with_line_feed last
ends_with_line_feed-split [] h = ground arith
ends_with_line_feed-split (c ∷ []) h = ([], ground arith)
ends_with_line_feed-split (c ∷ d ∷ s) h =
    let (u, e) = ends_with_line_feed-split (d ∷ s) h in (c ∷ u, ap (λ t. c ∷ t) e)

-- A text that ends with a line feed, and then the line.
runs-after :
    (s : Text)
    → ends_with_line_feed s ≡ true
    → any is_optimization_exec (lines (s ++ last_line)) ≡ true
runs-after s h =
    let (u, e) = ends_with_line_feed-split s h in
    subst (λ t. any is_optimization_exec (lines (t ++ last_line)) ≡ true) (sym e)
      (subst (λ t. any is_optimization_exec (lines t) ≡ true)
        (sym (append_assoc u (line_feed ∷ []) last_line)) (runs-append u))

ends_with_line_feed-append : (s : Text) → ends_with_line_feed (s ++ (line_feed ∷ [])) ≡ true
unfolding ends_with_line_feed
ends_with_line_feed-append s = rw (ends_with_line_feed, last-append s line_feed) refl

with_line_feed-ends :
    (b : Bool) (s : Text)
    → (b ≡ true → ends_with_line_feed s ≡ true)
    → ends_with_line_feed (with_line_feed b s) ≡ true
with_line_feed-ends true s h = h refl
with_line_feed-ends false s h = ends_with_line_feed-append s

with_line_feed-keeps : (b : Bool) (s : Text) → (t : Text) × (with_line_feed b s ≡ s ++ t)
with_line_feed-keeps true s = ([], sym (append-nil s))
with_line_feed-keeps false s = (line_feed ∷ [], refl)

new_autoexec_runs : any is_optimization_exec (lines new_autoexec) ≡ true
unfolding any is_optimization_exec split_on terminated lines new_autoexec text_eq to_ascii_lowercase
    trim_end_matches is_whitespace
new_autoexec_runs = refl

abbrev extended : Text → Text
extended s =
    with_line_feed (has_blank_final_line s) (with_line_feed (ends_with_line_feed s) s) ++ last_line

runs-extended : (s : Text) → any is_optimization_exec (lines (extended s)) ≡ true
runs-extended s = runs-after _ (
    with_line_feed-ends (has_blank_final_line s) _
      (λ _. with_line_feed-ends (ends_with_line_feed s) s (λ h. h)))

runs-ensure : (s : Text) → any is_optimization_exec (lines (ensure_autoexec_line s)) ≡ true
unfolding ensure_autoexec_line
runs-ensure s = go (any is_optimization_exec (lines s)) refl (is_empty s)
  where
    go :
        (runs : Bool)
        → any is_optimization_exec (lines s) ≡ runs
        → (empty : Bool)
        → any is_optimization_exec
            (lines (if runs then s else if empty then new_autoexec else extended s))
          ≡ true
    go true e empty = e
    go false e true = new_autoexec_runs
    go false e false = runs-extended s

keeps-extended : (s : Text) → (t : Text) × (extended s ≡ s ++ t)
keeps-extended s =
    let (t, e) = with_line_feed-keeps (ends_with_line_feed s) s in
    let (t', e') =
      with_line_feed-keeps (has_blank_final_line s) (with_line_feed (ends_with_line_feed s) s) in
    (
      t ++ (t' ++ last_line),
      ap (λ x. x ++ last_line) (e' ∙ ap (λ x. x ++ t') e)
          ∙ (append_assoc (s ++ t) t' last_line ∙ append_assoc s t (t' ++ last_line)),
    )

keeps-ensure : (s : Text) → (t : Text) × (ensure_autoexec_line s ≡ s ++ t)
unfolding ensure_autoexec_line
keeps-ensure [] = go (any is_optimization_exec (lines []))
  where
    go : (runs : Bool) → (t : Text) × ((if runs then [] else new_autoexec) ≡ t)
    go true = ([], refl)
    go false = (new_autoexec, refl)
keeps-ensure (c ∷ s) = go (any is_optimization_exec (lines (c ∷ s)))
  where
    go : (runs : Bool) → (t : Text) × ((if runs then c ∷ s else extended (c ∷ s)) ≡ (c ∷ s) ++ t)
    go true = ([], sym (append-nil (c ∷ s)))
    go false = keeps-extended (c ∷ s)

-- The user's text is kept and at most added to, the result has a line that runs the generated file,
-- and doing it again changes nothing.
pub ensure_autoexec_line_lem :
    (s : Text)
    → ((t : Text) × (ensure_autoexec_line s ≡ s ++ t))
      × (any is_optimization_exec (lines (ensure_autoexec_line s)) ≡ true)
      × (ensure_autoexec_line (ensure_autoexec_line s) ≡ ensure_autoexec_line s)
unfolding ensure_autoexec_line
ensure_autoexec_line_lem s =
    (keeps-ensure s, runs-ensure s, unchanged (ensure_autoexec_line s) (runs-ensure s))
  where
    unchanged : (t : Text) → any is_optimization_exec (lines t) ≡ true → ensure_autoexec_line t ≡ t
    unchanged t h = rw (ensure_autoexec_line, h) refl
