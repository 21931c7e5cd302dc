-- ===== src/Engine/Guarantees.antt =====
-- A run of crates/frametime-domain/src/engine.rs with its conversation, and two invariants of it.
use cs2_opt.Prelude.{Result, refl, ◌∙◌, sym, true, ◌≡◌, List, [], ◌∷◌, ok, arith, Result}
use cs2_opt.Progress.{Progress}
use cs2_opt.Policy.{Profile}
use cs2_opt.Catalog.Steps.{Step}
use cs2_opt.Engine.Defs.{
  RunReport, EngineError, World, Backend, Control, default_report, EngineError,
}
use cs2_opt.Engine.Run.{run_with_control}
use cs2_opt.Engine.Log.{Entry, recording, quiet_control, progress_saved}
use cs2_opt.Engine.Kept.{Kept, is_ordinary}
use cs2_opt.Engine.Safety.{Safe}
use cs2_opt.Engine.Triple.{either_way, then-Triple, tally-Triple}
use cs2_opt.Engine.Trace.{run_steps-Safe}
use cs2_opt.Engine.Defs.{RunReport, EngineError, Operation, default_report}
use cs2_opt.Audit.Rebuildable.{RecoveryRequirement}
use cs2_opt.Engine.Guarded.{Guarded}
use cs2_opt.Engine.Kept.{is_ordinary}

module _ {S V B R : Type 0} (b : Backend S V B R) (c : Control S R) (profile : Profile)
    (steps : List Step) (s : S) (p : Progress V) where
  -- The world after a run from `s` and `p`, with the whole conversation beside the outside.
  unfoldable pub after_run : World (S × List (Entry V B R)) V
  unfolding run_with_control
  after_run =
      (run_with_control (recording b) (quiet_control c) profile steps
        (record { outside = (s, []); progress = p; report = default_report })).1

  -- What the same run returns.
  unfoldable pub run_result : Result EngineError RunReport
  unfolding run_with_control
  run_result =
      (run_with_control (recording b) (quiet_control c) profile steps
        (record { outside = (s, []); progress = p; report = default_report })).0

  abbrev pub conversation : List (Entry V B R)
  conversation = after_run.outside.1

module _ {V B R : Type 0} where
  -- The progress that was last written with success, at first `start`.
  unfoldable pub last_saved : Progress V → List (Entry V B R) → Progress V
  last_saved start [] = start
  last_saved start (progress_saved p (ok u) ∷ log) = p
  last_saved start (_ ∷ log) = last_saved start log

  ordinary-last_saved :
      (start : Progress V) (e : Entry V B R) (log : List (Entry V B R))
      → is_ordinary e ≡ true
      → last_saved start (e ∷ log) ≡ last_saved start log
  unfolding last_saved
  ordinary-last_saved start e log h = ground arith

  ordinary-Guarded :
      (needs : Operation → RecoveryRequirement) (e : Entry V B R) (log : List (Entry V B R))
      → is_ordinary e ≡ true
      → Guarded needs log
      → Guarded needs (e ∷ log)
  unfolding Guarded
  ordinary-Guarded needs e log h g = ground arith

module _ {S V B R : Type 0} (b : Backend S V B R) where
  guarded-Kept : Kept b
  unfolding Guarded
  guarded-Kept = record {
    Inv = λ _ log. Guarded b.recovery_requirement log;
    ordinary = λ e h _ log. ordinary-Guarded b.recovery_requirement e log h;
    applying = λ _ _ _ _ secured g. (secured, g);
    committing = λ _ _ _ _ g. g;
    not_committing = λ _ _ _ _ g. g;
  }

  saved-Kept : Progress V → Kept b
  unfolding last_saved
  saved-Kept start = record {
    Inv = λ q log. q ≡ last_saved start log;
    ordinary = λ e h q log g. g ∙ sym (ordinary-last_saved start e log h);
    applying = λ _ _ _ _ _ g. g;
    committing = λ _ _ _ _ _. refl;
    not_committing = λ _ _ _ _ g. g;
  }

  run-Kept :
      (kept : Kept b) (c : Control S R) (profile : Profile) (steps : List Step) (s : S)
      (p : Progress V)
      → kept.Inv p []
      → kept.Inv (after_run b c profile steps s p).progress (conversation b c profile steps s p)
  unfolding after_run run_with_control
  run-Kept kept c profile steps s p h =
      either_way
        (then-Triple {Q = Safe b kept} (tally-Triple (λ _. default_report))
          (then-Triple (run_steps-Safe b kept c profile steps) (record { run = λ w q. q })))
        (record { outside = (s, []); progress = p; report = default_report }) h

module _ {S V B R : Type 0} (b : Backend S V B R) (c : Control S R) (profile : Profile)
    (steps : List Step) (s : S) (p : Progress V) where
  -- Whatever the backend answers, every attempt to apply an operation comes directly after the
  -- capture and the saving, both successful, of what the operation's recovery requirement asks for:
  -- at least one backup entry; or an audit that is pending and bound to the step; or, for `mixed`, the
  -- backups and then the audit. The entries saved are the entries captured.
  pub conversation-Guarded : Guarded b.recovery_requirement (conversation b c profile steps s p)
  unfolding guarded-Kept Guarded
  conversation-Guarded = run-Kept b (guarded-Kept b) c profile steps s p tt

  -- However a run ends, the engine's progress is the one that it last wrote with success, or the one
  -- it began with if there is none.
  pub progress_is_saved :
      (after_run b c profile steps s p).progress ≡ last_saved p (conversation b c profile steps s p)
  unfolding saved-Kept last_saved
  progress_is_saved = run-Kept b (saved-Kept b p) c profile steps s p refl
