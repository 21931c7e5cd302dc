-- ===== src/Progress.antt =====
-- Durable workflow progress: `Progress` of crates/frametime-domain/src/state.rs and its
-- acknowledgements in crates/frametime-domain/src/state/progress.rs. `V` stands for the JSON
-- values of fields that the program keeps without reading them.
pub mod Resolution
use Prim.Native.Nat.{max}
use cs2_opt.Prelude.{
  ℕ, ◌<◌, Bool, true, false, ◌&&◌, ◌||◌, List, [], ◌∷◌, ◌++◌, Option, none, some, ltb, filter,
  length, is_some,
}
use cs2_opt.Prelude.Text.{Text, show_u8}
use cs2_opt.Prelude.Keys.{contains, insert, remove, contains_key, put, delete}
use cs2_opt.Catalog.Ids.{Phase, phase_eq, phase_number, StepId, progress_key, from_progress_key}
use cs2_opt.Catalog.Steps.{Step, step_catalog, step_by_id}

pub record AdvisoryResolution (V : Type 0) : Type 0 where
  pub reason : Text
  pub unknown_fields : List (Text × V)

pub record Progress (V : Type 0) : Type 0 where
  pub phase : ℕ  -- u8
  pub last_completed_step : ℕ  -- u8
  pub last_skipped_step : ℕ  -- u8
  pub completed_steps : List Text
  pub skipped_steps : List Text
  pub timestamps : List (Text × Text)
  pub advisories : List (Text × AdvisoryResolution V)
  pub unknown_fields : List (Text × V)

abbrev pub default_progress : (V : Type 0) → Progress V
default_progress V = record {
  phase = 0;
  last_completed_step = 0;
  last_skipped_step = 0;
  completed_steps = [];
  skipped_steps = [];
  timestamps = [];
  advisories = [];
  unknown_fields = [];
}

-- Keys read from a file are kept only if they name an action of the catalog.
unfoldable pub valid_progress_key : Text → Bool
valid_progress_key text = elim (from_progress_key text) [
  | none ↦ false
  | some id ↦ is_some (step_by_id id)
]

-- `format!("P{phase}:{step}")`
unfoldable pub key : ℕ → ℕ → Text
key phase step = b'P' ∷ show_u8 phase ++ b':' ∷ show_u8 step

-- `format!("{phase}-{step}")`
unfoldable pub timestamp_key : ℕ → ℕ → Text
timestamp_key phase step = show_u8 phase ++ b'-' ∷ show_u8 step

module _ {V : Type 0} where
  unfoldable pub is_completed : Progress V → StepId → Bool
  is_completed p id = contains (progress_key id) p.completed_steps

  unfoldable pub is_skipped : Progress V → StepId → Bool
  is_skipped p id = contains (progress_key id) p.skipped_steps

  unfoldable pub has_advisory : Progress V → StepId → Bool
  has_advisory p id = contains_key (progress_key id) p.advisories

  abbrev pub is_resolved : Progress V → StepId → Bool
  is_resolved p id = is_completed p id || is_skipped p id

  unfoldable pub resolved_count_in_phase : Progress V → Phase → ℕ
  resolved_count_in_phase p phase = length (
      filter (λ (s : Step). is_resolved p s.id)
        (filter (λ (s : Step). phase_eq s.id.phase phase) step_catalog))

  unfoldable pub has_resolved_in_phase : Progress V → Phase → Bool
  has_resolved_in_phase p phase = ltb 0 (resolved_count_in_phase p phase)

  unfoldable pub complete : Progress V → ℕ → ℕ → Text → Progress V
  complete p phase step timestamp = record p {
    skipped_steps = remove (key phase step) p.skipped_steps;
    advisories = delete (key phase step) p.advisories;
    completed_steps = insert (key phase step) p.completed_steps;
    timestamps = put (timestamp_key phase step) timestamp p.timestamps;
    phase = phase;
    last_completed_step = step;
  }

  unfoldable pub skip : Progress V → ℕ → ℕ → Progress V
  skip p phase step = record p {
    completed_steps = remove (key phase step) p.completed_steps;
    advisories = delete (key phase step) p.advisories;
    skipped_steps = insert (key phase step) p.skipped_steps;
    phase = phase;
    last_skipped_step = max p.last_skipped_step step;
  }

  unfoldable pub acknowledge_advisory : Progress V → ℕ → ℕ → Text → Progress V
  acknowledge_advisory p phase step reason = record p {
    completed_steps = remove (key phase step) p.completed_steps;
    skipped_steps = remove (key phase step) p.skipped_steps;
    advisories =
        put (key phase step) (record { reason = reason; unknown_fields = [] }) p.advisories;
    phase = phase;
  }

  unfoldable pub complete_step : Progress V → StepId → Text → Progress V
  unfolding complete
  complete_step p id timestamp = complete p (phase_number id.phase) id.number timestamp

  unfoldable pub skip_step : Progress V → StepId → Progress V
  unfolding skip
  skip_step p id = skip p (phase_number id.phase) id.number

  unfoldable pub acknowledge_step_advisory : Progress V → StepId → Text → Progress V
  unfolding acknowledge_advisory
  acknowledge_step_advisory p id reason =
      acknowledge_advisory p (phase_number id.phase) id.number reason
