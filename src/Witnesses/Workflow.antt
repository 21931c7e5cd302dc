-- ===== src/Witnesses/Workflow.antt =====
-- The end of a workflow: clearing its last handoff.
use cs2_opt.Handoff.Format.{
  sid_parts, valid_generation_id, valid_sha256, valid_relative_path, canonical_decimal,
}
use cs2_opt.Prelude.{◌≡◌, refl, ok, all, any}
use cs2_opt.Orchestration.Facts.{PhaseRequest, Transition}
use cs2_opt.Orchestration.Authorize.{
  authorize, authorize_clear_handoff, require_persisted_benchmark,
}
use cs2_opt.Orchestration.Permits.{Permits}
use cs2_opt.Orchestration.Soundness.{authorize_iff}
use cs2_opt.Witnesses.Data.{complete_state, complete_progress, complete_facts}
use cs2_opt.Orchestration.Guards.{
  require_transaction_stage, require_stage, require_phase_three_handoff, require_same_user,
  require_completed,
}
use cs2_opt.Progress.{is_completed}
use cs2_opt.Catalog.Ids.{progress_key}
use cs2_opt.Prelude.Keys.{contains}
use cs2_opt.Prelude.Text.{text_eq, split_on, parse_unsigned, show_u8}
use cs2_opt.Handoff.Transaction.{is_authorized_at, is_complete}
use cs2_opt.Handoff.Format.{valid_user_sid, sid_parts}
use cs2_opt.Handoff.Stage.{stage_eq}

clear_is_granted :
    authorize PhaseRequest.clear_phase_three_handoff complete_state complete_progress complete_facts
    ≡ ok Transition.clear_phase_three_handoff
unfolding authorize authorize_clear_handoff require_transaction_stage require_stage
    require_phase_three_handoff require_same_user require_completed require_persisted_benchmark
    is_completed progress_key contains text_eq is_authorized_at valid_user_sid sid_parts is_complete
    valid_generation_id valid_sha256 valid_relative_path stage_eq split_on all canonical_decimal
    parse_unsigned show_u8 any
clear_is_granted = refl

authorize_iff_example :
    Permits PhaseRequest.clear_phase_three_handoff complete_state complete_progress complete_facts
      Transition.clear_phase_three_handoff
authorize_iff_example =
    (authorize_iff complete_state complete_progress complete_facts
        Transition.clear_phase_three_handoff PhaseRequest.clear_phase_three_handoff).0
      clear_is_granted
