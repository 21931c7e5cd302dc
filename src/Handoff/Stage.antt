-- ===== src/Handoff/Stage.antt =====
-- `RebootStage` of crates/frametime-domain/src/handoff.rs and its persisted spelling.
use cs2_opt.Prelude.{◌≡◌, refl, ◌↔◌, Bool, true, false, arith, if◌then◌else◌}
use cs2_opt.Prelude.Text.{Text, codes, text_eq, text_eq_iff}

pub data RebootStage : Type 0 where
  phase_one_safe_mode_armed phase_two_safe_mode phase_three_armed : RebootStage
  phase_three_complete recovery_required : RebootStage
  unknown : Text → RebootStage

unfoldable pub stage_parse : Text → RebootStage
stage_parse value =
    if text_eq value (codes "phase1SafeModeArmed")
    then phase_one_safe_mode_armed
    else if text_eq value (codes "phase2SafeMode")
    then phase_two_safe_mode
    else if text_eq value (codes "phase3Armed")
    then phase_three_armed
    else if text_eq value (codes "phase3Complete")
    then phase_three_complete
    else if text_eq value (codes "recoveryRequired")
    then recovery_required
    else unknown value

unfoldable pub stage_as_str : RebootStage → Text
stage_as_str phase_one_safe_mode_armed = codes "phase1SafeModeArmed"
stage_as_str phase_two_safe_mode = codes "phase2SafeMode"
stage_as_str phase_three_armed = codes "phase3Armed"
stage_as_str phase_three_complete = codes "phase3Complete"
stage_as_str recovery_required = codes "recoveryRequired"
stage_as_str (unknown value) = value

unfoldable pub stage_eq : RebootStage → RebootStage → Bool
unfolding text_eq
stage_eq phase_one_safe_mode_armed phase_one_safe_mode_armed = true
stage_eq phase_two_safe_mode phase_two_safe_mode = true
stage_eq phase_three_armed phase_three_armed = true
stage_eq phase_three_complete phase_three_complete = true
stage_eq recovery_required recovery_required = true
stage_eq (unknown a) (unknown b) = text_eq a b
stage_eq _ _ = false

pub stage_eq_iff : (a b : RebootStage) → (stage_eq a b ≡ true) ↔ (a ≡ b)
stage_eq_iff (unknown a) (unknown b) = unfold stage_eq in ground (arith, text_eq_iff a b)
stage_eq_iff phase_one_safe_mode_armed _ = unfold stage_eq in ground arith
stage_eq_iff _ _ = unfold stage_eq in ground arith

unfoldable pub allows_transition_to : RebootStage → RebootStage → Bool
allows_transition_to phase_one_safe_mode_armed phase_two_safe_mode = true
allows_transition_to phase_two_safe_mode phase_three_armed = true
allows_transition_to phase_three_armed phase_three_complete = true
allows_transition_to _ recovery_required = true
allows_transition_to _ _ = false

-- The five stages that the code recognises.
abbrev pub is_known : RebootStage → Bool
is_known (unknown value) = false
is_known _ = true

stage_as_str-parse : (value : Text) → stage_as_str (stage_parse value) ≡ value
unfolding stage_as_str stage_parse
stage_as_str-parse value = ground (
  arith,
  text_eq_iff value (codes "phase1SafeModeArmed"),
  text_eq_iff value (codes "phase2SafeMode"),
  text_eq_iff value (codes "phase3Armed"),
  text_eq_iff value (codes "phase3Complete"),
  text_eq_iff value (codes "recoveryRequired"),
)

stage_parse-as_str : (s : RebootStage) → is_known s ≡ true → stage_parse (stage_as_str s) ≡ s
unfolding stage_as_str stage_parse text_eq
stage_parse-as_str phase_one_safe_mode_armed h = refl
stage_parse-as_str phase_two_safe_mode h = refl
stage_parse-as_str phase_three_armed h = refl
stage_parse-as_str phase_three_complete h = refl
stage_parse-as_str recovery_required h = refl
stage_parse-as_str (unknown value) h = cc

-- The spelling of a stage that was read is the text that was read, whatever the text is; and a
-- recognised stage reads back from its spelling.
pub stage_round_trip :
    (value : Text) (stage : RebootStage)
    → is_known stage ≡ true
    → (stage_as_str (stage_parse value) ≡ value) × (stage_parse (stage_as_str stage) ≡ stage)
stage_round_trip value stage h = (stage_as_str-parse value, stage_parse-as_str stage h)
