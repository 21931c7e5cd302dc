-- ===== src/Progress/Resolution.antt =====
-- Progress of crates/frametime-domain/src/state.rs seen as a map from actions to what became of them.
use cs2_opt.Prelude.{◌||◌, ◌≡◌, refl, ap, false, ◌&&◌, arith, if◌then◌else◌, true, Bool}
use cs2_opt.Prelude.Text.{Text, text_eq, text_eq_iff, text_eq_refl}
use cs2_opt.Prelude.Keys.{
  contains, contains_key, contains-insert, contains-remove, lookup-put, lookup-delete,
}
use cs2_opt.Catalog.Ids.{
  StepId, step_id_eq, step_id_eq_iff, phase_number, progress_key, progress_key-injective,
  IsStepNumber,
}
use cs2_opt.Progress.{
  is_resolved, Progress, key, is_completed, is_skipped, has_advisory, complete_step, skip_step,
  acknowledge_step_advisory, is_resolved,
}

pub data Resolution : Type 0 where
  pending completed skipped acknowledged : Resolution

-- The three ways in which the workflow records an action.
pub data Mark : Type 0 where
  completes : Text → Mark
  skips : Mark
  acknowledges : Text → Mark

abbrev pub outcome : Mark → Resolution
outcome (completes timestamp) = completed
outcome skips = skipped
outcome (acknowledges reason) = acknowledged

key-eq-progress_key : (id : StepId) → key (phase_number id.phase) id.number ≡ progress_key id
unfolding key progress_key
key-eq-progress_key id = refl

-- Keys compare as the identities that they print.
pub text_eq-progress_key :
    (a b : StepId)
    → IsStepNumber a.number
    → IsStepNumber b.number
    → text_eq (progress_key a) (progress_key b) ≡ step_id_eq a b
text_eq-progress_key a b ha hb = ground (
  arith,
  text_eq_iff (progress_key a) (progress_key b),
  progress_key-injective a b ha hb,
  step_id_eq_iff a b,
  λ (e : a ≡ b). ap progress_key e,
)

ruleset key_laws =
    (contains-insert, contains-remove, lookup-put, lookup-delete, key-eq-progress_key)

module _ {V : Type 0} where
  abbrev pub resolution : Progress V → StepId → Resolution
  resolution p id =
      if is_completed p id
      then completed
      else if is_skipped p id
      then skipped
      else if has_advisory p id
      then acknowledged
      else pending

  unfoldable pub mark : Progress V → StepId → Mark → Progress V
  mark p id (completes timestamp) = complete_step p id timestamp
  mark p id skips = skip_step p id
  mark p id (acknowledges reason) = acknowledge_step_advisory p id reason

  -- For actions with numbers from 1 to 255, recording an action sets what became of that action and
  -- of no other.
  pub resolution-mark :
      (p : Progress V) (id j : StepId) (m : Mark)
      → IsStepNumber id.number
      → IsStepNumber j.number
      → resolution (mark p id m) j ≡ (if step_id_eq id j then outcome m else resolution p j)
  unfolding mark complete_step skip_step acknowledge_step_advisory is_completed is_skipped
      has_advisory
  resolution-mark p id j (completes t) hi hj =
      simp (key_laws, text_eq-progress_key id j hi hj) (ground arith)
  resolution-mark p id j skips hi hj =
      simp (key_laws, text_eq-progress_key id j hi hj) (ground arith)
  resolution-mark p id j (acknowledges r) hi hj =
      simp (key_laws, text_eq-progress_key id j hi hj) (ground arith)

  -- An action is recorded in one way at most.
  abbrev pub IsExclusive : Progress V → Type 0
  IsExclusive p =
      (k : Text)
      → (contains k p.completed_steps && contains k p.skipped_steps ≡ false)
        × (contains k p.completed_steps && contains_key k p.advisories ≡ false)
        × (contains k p.skipped_steps && contains_key k p.advisories ≡ false)

  -- If no key is recorded in two ways, then none is after recording an action.
  pub mark-IsExclusive :
      (p : Progress V) (id : StepId) (m : Mark) → IsExclusive p → IsExclusive (mark p id m)
  unfolding mark complete_step skip_step acknowledge_step_advisory
  mark-IsExclusive p id (completes t) h k = simp key_laws (ground (arith, h k))
  mark-IsExclusive p id skips h k = simp key_laws (ground (arith, h k))
  mark-IsExclusive p id (acknowledges r) h k = simp key_laws (ground (arith, h k))

  -- What the engine takes as done: recorded in one of the three ways.
  abbrev pub is_recorded : Progress V → StepId → Bool
  is_recorded p id = is_resolved p id || has_advisory p id

  pub is_recorded-mark :
      (p : Progress V) (id : StepId) (m : Mark) → is_recorded (mark p id m) id ≡ true
  unfolding mark complete_step skip_step acknowledge_step_advisory is_completed is_skipped
      has_advisory
  is_recorded-mark p id (completes t) =
      simp (key_laws, text_eq_refl (progress_key id)) (ground arith)
  is_recorded-mark p id skips = simp (key_laws, text_eq_refl (progress_key id)) (ground arith)
  is_recorded-mark p id (acknowledges r) =
      simp (key_laws, text_eq_refl (progress_key id)) (ground arith)

  pub is_recorded-mark_keeps :
      (p : Progress V) (id j : StepId) (m : Mark)
      → is_recorded p j ≡ true
      → is_recorded (mark p id m) j ≡ true
  unfolding mark complete_step skip_step acknowledge_step_advisory is_completed is_skipped
      has_advisory
  is_recorded-mark_keeps p id j (completes t) h = simp key_laws (ground (arith, h))
  is_recorded-mark_keeps p id j skips h = simp key_laws (ground (arith, h))
  is_recorded-mark_keeps p id j (acknowledges r) h = simp key_laws (ground (arith, h))
