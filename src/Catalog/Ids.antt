-- ===== src/Catalog/Ids.antt =====
-- Stable identities of catalog actions: crates/frametime-domain/src/catalog/definitions.rs.
use mathlib.Core.Option.{some-injective}
use cs2_opt.Prelude.{
  ℕ, ◌<◌, ◌≡◌, refl, sym, ap, ◌∙◌, ◌↔◌, Bool, true, false, ◌&&◌, [], ◌∷◌, ◌++◌, Option, none, some,
  arith, ltb, ◌==◌, if◌then◌else◌,
}
use cs2_opt.Prelude.Text.{Text, text_eq, codes, show_u8, parse_unsigned, parse_unsigned-show_u8}

pub data Phase : Type 0 where
  one two three : Phase

abbrev pub phase_number : Phase → ℕ
phase_number one = 1
phase_number two = 2
phase_number three = 3

abbrev pub phase_eq : Phase → Phase → Bool
phase_eq one one = true
phase_eq two two = true
phase_eq three three = true
phase_eq _ _ = false

pub phase_eq_iff : (a b : Phase) → (phase_eq a b ≡ true) ↔ (a ≡ b)
phase_eq_iff a b = ground arith

-- `number` is a `u8`.
pub record StepId : Type 0 where
  pub phase : Phase
  pub number : ℕ

abbrev pub step_id_eq : StepId → StepId → Bool
step_id_eq a b = phase_eq a.phase b.phase && a.number == b.number

pub step_id_eq_iff : (a b : StepId) → (step_id_eq a b ≡ true) ↔ (a ≡ b)
step_id_eq_iff a b = ground arith

-- `format!("P{}:{}", …)`.
unfoldable pub progress_key : StepId → Text
progress_key id = b'P' ∷ show_u8 (phase_number id.phase) ++ b':' ∷ show_u8 id.number

-- `value.split_once(':')`.
unfoldable pub split_colon : Text → Option (Text × Text)
split_colon [] = none
split_colon (c ∷ s) =
    let rest = split_colon s in
    if c == b':' then some ([], s) else elim rest [ none ↦ none | some (a, b) ↦ some (c ∷ a, b) ]

unfoldable pub phase_of_text : Text → Option Phase
phase_of_text s =
    if text_eq s (codes "1")
    then some one
    else if text_eq s (codes "2")
    then some two
    else if text_eq s (codes "3")
    then some three
    else none

unfoldable pub step_number : Phase → Text → Option StepId
step_number phase text = elim (parse_unsigned 255 text) [
  | none ↦ none
  | some number ↦ if ltb 0 number then some (record { phase = phase; number = number }) else none
]

step_of_parts : Text × Text → Option StepId
step_of_parts (phase, number) = elim (phase_of_text phase) [
  | none ↦ none
  | some p ↦ step_number p number
]

step_of_parts_lem :
    (phase number : Text)
    → step_of_parts (phase, number)
      ≡ elim (phase_of_text phase) [ none ↦ none | some p ↦ step_number p number ]
step_of_parts_lem phase number = unfold step_of_parts in refl

unfoldable pub from_progress_key : Text → Option StepId
unfolding split_colon step_of_parts phase_of_text step_number
from_progress_key [] = none
from_progress_key (c ∷ s) =
    if c == b'P'
    then elim (split_colon s) [ none ↦ none | some parts ↦ step_of_parts parts ]
    else none

-- A step number that the source can hold and a key can name.
abbrev pub IsStepNumber : ℕ → Type 0
IsStepNumber n = (0 < n) × (n < 256)

phase_of_text-show_u8 : (p : Phase) → phase_of_text (show_u8 (phase_number p)) ≡ some p
unfolding phase_of_text show_u8 text_eq
phase_of_text-show_u8 one = refl
phase_of_text-show_u8 two = refl
phase_of_text-show_u8 three = refl

step_number-show_u8 :
    (p : Phase) (n : ℕ)
    → IsStepNumber n
    → step_number p (show_u8 n) ≡ some (record { phase = p; number = n })
unfolding step_number
step_number-show_u8 p n h = ground (arith, parse_unsigned-show_u8 n)

step_of_parts-show_u8 :
    (p : Phase) (n : ℕ)
    → IsStepNumber n
    → step_of_parts (show_u8 (phase_number p), show_u8 n) ≡ some (record { phase = p; number = n })
step_of_parts-show_u8 p n h =
    rw (step_of_parts_lem (show_u8 (phase_number p)) (show_u8 n), phase_of_text-show_u8 p)
      (step_number-show_u8 p n h)

split_colon-key :
    (p : Phase) (s : Text)
    → split_colon (show_u8 (phase_number p) ++ b':' ∷ s) ≡ some (show_u8 (phase_number p), s)
unfolding split_colon show_u8
split_colon-key one s = refl
split_colon-key two s = refl
split_colon-key three s = refl

-- Printing an identity with a number from 1 to 255 and reading the key back gives the identity.
pub from_progress_key-progress_key :
    (id : StepId) → IsStepNumber id.number → from_progress_key (progress_key id) ≡ some id
unfolding from_progress_key progress_key
from_progress_key-progress_key id h = ground (
  arith,
  split_colon-key id.phase (show_u8 id.number),
  step_of_parts-show_u8 id.phase id.number h,
)

-- Two identities with numbers from 1 to 255 share a key only if they are equal.
pub progress_key-injective :
    (a b : StepId)
    → IsStepNumber a.number
    → IsStepNumber b.number
    → progress_key a ≡ progress_key b
    → a ≡ b
progress_key-injective a b ha hb e = some-injective _ _ (
    sym (from_progress_key-progress_key a ha)
    ∙ ap from_progress_key e
    ∙ from_progress_key-progress_key b hb)
