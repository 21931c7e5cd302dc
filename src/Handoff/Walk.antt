-- ===== src/Handoff/Walk.antt =====
-- Where Windows gets to with a relative path that crates/frametime-domain/src/handoff.rs accepts. The
-- walk is lexical: links are not followed, and a name is taken as it is written.
use cs2_opt.Prelude.{
  ℕ, zero, suc, ◌+◌, ◌≤◌, ◌≡◌, ◌↔◌, refl, Bool, true, false, ◌||◌, List, [], ◌∷◌, Option, none,
  some, arith, ◌==◌, length, all, any, is_empty, if◌then◌else◌,
}
use cs2_opt.Prelude.Text.{Text, codes, text_eq, split_on, push_first}
use cs2_opt.Handoff.Format.{valid_relative_path, contains_any, starts_with_any, is_plain_part}

abbrev pub is_backslash : ℕ → Bool
is_backslash c = c == 92

-- Windows takes both slashes.
abbrev is_separator : ℕ → Bool
is_separator c = c == b'/' || is_backslash c

-- A colon names a drive or a stream; a zero byte ends the text for the system.
abbrev is_forbidden : ℕ → Bool
is_forbidden c = c == b':' || c == 0

unfoldable pub windows_parts : Text → List Text
windows_parts [] = [] ∷ []
windows_parts (c ∷ s) =
    let rest = windows_parts s in if is_separator c then [] ∷ rest else push_first c rest

-- The depth below a root that the parts lead to from a depth below it: `none` when they leave the
-- root or name another drive, a stream or a cut text.
unfoldable pub walk : ℕ → List Text → Option ℕ
unfolding any text_eq
walk depth [] = some depth
walk depth (part ∷ parts) =
    let stay = walk depth parts in
    let down = walk (suc depth) parts in
    let up : Option ℕ = elim depth [ zero ↦ none | suc d ↦ walk d parts ] in
    if any is_forbidden part
    then none
    else if is_empty part || text_eq part (codes ".")
    then stay
    else if text_eq part (codes "..")
    then up
    else down

abbrev is_rooted : Text → Bool
is_rooted [] = false
is_rooted (c ∷ s) = is_separator c

unfoldable pub windows_walk : ℕ → Text → Option ℕ
unfolding walk windows_parts
windows_walk depth value = if is_rooted value then none else walk depth (windows_parts value)

any-contains :
    (s : Text) → contains_any (92 ∷ b':' ∷ 0 ∷ []) s ≡ (any is_backslash s || any is_forbidden s)
unfolding any
any-contains [] = refl
any-contains (c ∷ s) = ground (arith, any-contains s)

windows_parts-split_on : (s : Text) → any is_backslash s ≡ false → windows_parts s ≡ split_on b'/' s
unfolding any windows_parts split_on
windows_parts-split_on [] h = refl
windows_parts-split_on (c ∷ s) h = ground (arith, windows_parts-split_on s)

any-push_first :
    (c : ℕ) (ws : List Text)
    → any (any is_forbidden) (push_first c ws) ≡ (is_forbidden c || any (any is_forbidden) ws)
unfolding any push_first
any-push_first c [] = ground arith
any-push_first c (w ∷ ws) = ground arith

any-windows_parts : (s : Text) → any (any is_forbidden) (windows_parts s) ≡ any is_forbidden s
unfolding any windows_parts
any-windows_parts [] = refl
any-windows_parts (c ∷ s) = ground (arith, any-windows_parts s, any-push_first c (windows_parts s))

walk_bound :
    (depth n : ℕ) (parts : List Text) → walk depth parts ≡ some n → n ≤ depth + length parts
unfolding walk
walk_bound depth n [] h = ground arith
walk_bound zero n (part ∷ parts) h =
    ground (arith, walk_bound zero n parts, walk_bound (suc zero) n parts)
walk_bound (suc d) n (part ∷ parts) h =
    ground
      (arith, walk_bound d n parts, walk_bound (suc d) n parts, walk_bound (suc (suc d)) n parts)

-- Parts that lead down by as many levels as there are of them are all plain.
walk_plain :
    (depth : ℕ) (parts : List Text)
    → walk depth parts ≡ some (depth + length parts)
    → (all is_plain_part parts ≡ true) × (any (any is_forbidden) parts ≡ false)
unfolding walk all any
walk_plain depth [] h = (refl, refl)
walk_plain zero (part ∷ parts) h =
    ground
      (arith, walk_plain (suc zero) parts, walk_bound zero (zero + length (part ∷ parts)) parts)
walk_plain (suc d) (part ∷ parts) h = ground (
  arith,
  walk_plain (suc (suc d)) parts,
  walk_bound d (suc d + length (part ∷ parts)) parts,
  walk_bound (suc d) (suc d + length (part ∷ parts)) parts,
)

plain_walk :
    (depth : ℕ) (parts : List Text)
    → all is_plain_part parts ≡ true
    → any (any is_forbidden) parts ≡ false
    → walk depth parts ≡ some (depth + length parts)
unfolding walk all any
plain_walk depth [] h g = ground arith
plain_walk depth (part ∷ parts) h g = ground (arith, plain_walk (suc depth) parts)

-- A path that starts with a slash has an empty first part.
rooted_part :
    (s : Text)
    → any is_backslash s ≡ false
    → is_rooted s ≡ true
    → all is_plain_part (split_on b'/' s) ≡ false
unfolding any all split_on
rooted_part [] h g = ground arith
rooted_part (c ∷ s) h g = ground arith

starts_with_any_lem : (s : Text) → starts_with_any (b'/' ∷ 92 ∷ []) s ≡ is_rooted s
unfolding any
starts_with_any_lem [] = refl
starts_with_any_lem (c ∷ s) = ground arith

empty_part : (s : Text) → is_empty s ≡ true → all is_plain_part (split_on b'/' s) ≡ false
unfolding all split_on
empty_part [] h = refl
empty_part (c ∷ s) h = ground arith

-- A path is accepted exactly if it has no backslash and Windows, which takes a backslash for a slash
-- and a colon for a drive or a stream, goes one level down for each part between slashes, from any
-- depth.
pub valid_relative_path_iff :
    (value : Text) (depth : ℕ)
    → (valid_relative_path value ≡ true) ↔ (
        (any is_backslash value ≡ false)
        × (windows_walk depth value ≡ some (depth + length (split_on b'/' value))))
unfolding valid_relative_path windows_walk
valid_relative_path_iff value depth = ground (
  arith,
  any-contains value,
  windows_parts-split_on value,
  any-windows_parts value,
  rooted_part value,
  starts_with_any_lem value,
  empty_part value,
  plain_walk depth (windows_parts value),
  walk_plain depth (windows_parts value),
)
