-- ===== src/Engine/Safety.antt =====
-- Invariants through the mutating operations of crates/frametime-domain/src/engine.rs.
use cs2_opt.Prelude.{refl, ap, ◌≡◌, List, ◌∷◌, Result, ok, err, String, is_empty, not, true}
use cs2_opt.Prelude.Text.{Text}
use cs2_opt.Progress.{Progress}
use cs2_opt.Audit.Rebuildable.{
  RecoveryRequirement, lossless_backup, rebuildable_audit, manual_recovery_audit, mixed,
  rebuildable_is_valid_pending_for, rebuildable_finalized,
}
use cs2_opt.Audit.Manual.{IrreversibleAudit, is_valid_pending_for, finalized, failed_audit}
use cs2_opt.Engine.Defs.{Operation, World, Backend, Call, Event, EngineError}
use cs2_opt.Engine.Exec.{call}
use cs2_opt.Engine.Log.{
  Entry, recording, noted, applied, backups_captured, backups_saved, audit_captured, audit_saved,
  manual_failed, audit_finalized, manual_captured, manual_saved, manual_finalized,
}
use cs2_opt.Engine.Operations.{
  capture_lossless_backups, apply_and_verify, run_lossless_operation, run_rebuildable_operation,
  apply_or_fail_audit, run_pending_irreversible_audit, fail_audit_and_raise,
  run_irreversible_operation, run_mutation,
}
use cs2_opt.Engine.Guarded.{Secured, HasBackups, op_key, HasRebuildable, HasManual}
use cs2_opt.Engine.Triple.{
  Condition, Triple, then-Triple, call-Triple, event-Triple, bind-Triple, check-Triple, ask-Triple,
  Post, raise-Triple, weaken-Triple, pure-Triple,
}
use cs2_opt.Engine.Kept.{Kept, is_ordinary}

module _ {S V B R : Type 0} (b : Backend S V B R) (kept : Kept b) where
  abbrev pub T : Type 0
  T = Entry V B R

  abbrev pub Safe : Condition V T
  Safe = kept.Inv

  abbrev pub recorder : Backend (S × List T) V B R
  recorder = recording b

  -- A call that is not `apply`.
  pub told :
      {A : Type 0} (f : Call S A) (entry : Result String A → T) (wrap : String → EngineError)
      → ((r : Result String A) → is_ordinary (entry r) ≡ true)
      → Triple Safe Safe (call (noted f entry) wrap) (λ _. Safe)
  told f entry wrap keeps =
      call-Triple f entry wrap (λ a. kept.ordinary (entry (ok a)) (keeps (ok a)))
        (λ m. kept.ordinary (entry (err m)) (keeps (err m)))

  -- `apply` may be called when its recovery is secured.
  apply_and_verify-Safe :
      {P : Condition V T} (op : Operation) (k : Text)
      → ((q : Progress V) (log : List T)
          → P q log
          → Secured (b.recovery_requirement op) op log × Safe q log)
      → Triple Safe P (apply_and_verify recorder op k) (λ _. Safe)
  unfolding apply_and_verify
  apply_and_verify-Safe op k secured =
      then-Triple
        (call-Triple (b.apply op) (applied op) (EngineError.apply k)
          (λ a q log p. kept.applying op (ok a) q log (secured q log p).0 (secured q log p).1)
          (λ m q log p. kept.applying op (err m) q log (secured q log p).0 (secured q log p).1))
        (then-Triple (event-Triple (Event.apply k)) (
          then-Triple (told (b.verify op) (Entry.verified op) (EngineError.verify k) (λ _. refl))
            (event-Triple (Event.verify k))))

  Ends : T → Condition V T
  Ends entry q log = ((rest : List T) × (log ≡ entry ∷ rest)) × Safe q log

  capture_lossless_backups-Safe :
      (op : Operation) (k : Text)
      → Triple Safe Safe
          (capture_lossless_backups recorder op k)
          (λ _ q log. HasBackups op log × Safe q log)
  unfolding capture_lossless_backups Ends
  capture_lossless_backups-Safe op k = then-Triple (event-Triple (Event.capture_backup k)) (
      bind-Triple {Q = λ bs. Ends (backups_captured op (ok bs))}
        (call-Triple (b.capture_backups op) (backups_captured op) (EngineError.backup k)
          (λ a q log p. ((log, refl), kept.ordinary _ refl q log p))
          (λ m q log p. kept.ordinary _ refl q log p))
        λ bs. then-Triple (check-Triple (not (is_empty bs)) _ (λ _ _ p. p.1)) (
          then-Triple
            (call-Triple (b.persist_backups bs) (backups_saved bs) (EngineError.persist k)
              (λ _ q log p. (
                (bs, p.0.0.0, ap (backups_saved bs (ok tt) ∷◌) p.0.0.1, p.1),
                kept.ordinary _ refl q log p.0.1,
              ))
              (λ m q log p. kept.ordinary _ refl q log p.0.1))
            (event-Triple (Event.persist_backup k))))

  run_lossless_operation-Safe :
      (op : Operation) (k : Text)
      → b.recovery_requirement op ≡ lossless_backup
      → Triple Safe Safe (run_lossless_operation recorder op k) (λ _. Safe)
  unfolding run_lossless_operation Secured
  run_lossless_operation-Safe op k e =
      then-Triple (capture_lossless_backups-Safe op k)
        (apply_and_verify-Safe op k (λ q log p. (rw e p.0, p.1)))

  run_rebuildable_operation-Safe :
      (op : Operation)
      → b.recovery_requirement op ≡ rebuildable_audit
      → Triple Safe Safe (run_rebuildable_operation recorder op (op_key op)) (λ _. Safe)
  unfolding run_rebuildable_operation Secured Ends
  run_rebuildable_operation-Safe op e =
      let k = op_key op in
      then-Triple (event-Triple (Event.capture_audit k)) (
        bind-Triple {Q = λ a. Ends (audit_captured op (ok a))}
          (call-Triple (b.capture_pending_audit op) (audit_captured op)
            (EngineError.audit_capture k) (λ a q log p. ((log, refl), kept.ordinary _ refl q log p))
            (λ m q log p. kept.ordinary _ refl q log p))
          λ a. then-Triple (check-Triple (rebuildable_is_valid_pending_for a k) _ (λ _ _ p. p.1)) (
            then-Triple {Q = λ q log. HasRebuildable op log × Safe q log}
              (call-Triple (b.persist_pending_audit a) (audit_saved a) (EngineError.audit_persist k)
                (λ _ q log p. (
                  (a, p.0.0.0, ap (audit_saved a (ok tt) ∷◌) p.0.0.1, p.1),
                  kept.ordinary _ refl q log p.0.1,
                ))
                (λ m q log p. kept.ordinary _ refl q log p.0.1))
              (then-Triple (event-Triple (Event.persist_audit k)) (
                then-Triple (apply_and_verify-Safe op k (λ q log p. (rw e p.0, p.1))) (
                  bind-Triple (ask-Triple b.timestamp) λ now.
                    then-Triple
                      (told (b.finalize_audit (rebuildable_finalized a now))
                        (audit_finalized (rebuildable_finalized a now))
                        (EngineError.audit_finalize k) (λ _. refl))
                      (event-Triple (Event.finalize_audit k)))))))

  -- Either way out of the error path is safe.
  fail_audit_and_raise-Safe :
      (a : IrreversibleAudit V) (k : Text) (error : EngineError)
      → Triple Safe Safe (fail_audit_and_raise recorder a k error) (λ _. Safe)
  unfolding fail_audit_and_raise
  fail_audit_and_raise-Safe a k error = bind-Triple (ask-Triple b.timestamp) λ now.
      then-Triple
        (told (b.fail_irreversible_audit (failed_audit a now)) (manual_failed (failed_audit a now))
          (EngineError.audit_failure_persist k) (λ _. refl))
        (then-Triple (event-Triple (Event.fail_audit k)) (raise-Triple error (λ _ _ p. p)))

  apply_or_fail_audit-Safe :
      {P : Condition V T} (op : Operation) (k : Text) (a : IrreversibleAudit V)
      → ((q : Progress V) (log : List T)
          → P q log
          → Secured (b.recovery_requirement op) op log × Safe q log)
      → Triple Safe P (apply_or_fail_audit recorder op k a) (λ _. Safe)
  unfolding apply_or_fail_audit
  apply_or_fail_audit-Safe {P} op k a secured = record {
    run = λ w p.
        after (apply_and_verify recorder op k w)
          ((apply_and_verify-Safe {P = P} op k secured).run w p);
  }
    where
      after :
          (o : Result EngineError (Unit {0}) × World (S × List T) V)
          → Post {S = S} {A = Unit {0}} Safe (λ _. Safe) o
          → Post {S = S} {A = Unit {0}} Safe
              (λ _. Safe)
              (elim o.0 [
                | ok u ↦ (ok tt, o.1)
                | err error ↦ fail_audit_and_raise recorder a k error o.1
              ])
      after (ok u, w) p = p
      after (err error, w) p = (fail_audit_and_raise-Safe a k error).run w p

  run_pending_irreversible_audit-Safe :
      {Before : List T → Type 0} (op : Operation) (requirement : RecoveryRequirement)
      → ((log : List T)
          → HasManual op requirement Before log
          → Secured (b.recovery_requirement op) op log)
      → Triple Safe
          (λ q log. Before log × Safe q log)
          (run_pending_irreversible_audit recorder op (op_key op) requirement)
          (λ _. Safe)
  unfolding run_pending_irreversible_audit
  run_pending_irreversible_audit-Safe {Before} op requirement secured =
      let k = op_key op in
      then-Triple (event-Triple (Event.capture_audit k)) (
        bind-Triple
          {Q = λ a q log.
            ((rest : List T) × (log ≡ manual_captured op (ok a) ∷ rest) × Before rest) × Safe q log}
          (call-Triple (b.capture_pending_irreversible_audit op) (manual_captured op)
            (EngineError.audit_capture k)
            (λ a q log p. ((log, refl, p.0), kept.ordinary _ refl q log p.1))
            (λ m q log p. kept.ordinary _ refl q log p.1))
          λ a. then-Triple (check-Triple (is_valid_pending_for a requirement k) _ (λ _ _ p. p.1)) (
            then-Triple {Q = λ q log. HasManual op requirement Before log × Safe q log}
              (call-Triple (b.persist_pending_irreversible_audit a) (manual_saved a)
                (EngineError.audit_persist k)
                (λ _ q log p. (
                  (a, p.0.0.0, ap (manual_saved a (ok tt) ∷◌) p.0.0.1, p.1, p.0.0.2),
                  kept.ordinary _ refl q log p.0.1,
                ))
                (λ m q log p. kept.ordinary _ refl q log p.0.1))
              (then-Triple (event-Triple (Event.persist_audit k)) (
                then-Triple (apply_or_fail_audit-Safe op k a (λ q log p. (secured log p.0, p.1))) (
                  bind-Triple (ask-Triple b.timestamp) λ now.
                    then-Triple
                      (told (b.finalize_irreversible_audit (finalized a now))
                        (manual_finalized (finalized a now)) (EngineError.audit_finalize k)
                        (λ _. refl))
                      (event-Triple (Event.finalize_audit k)))))))

  run_irreversible_operation-Safe-manual :
      (op : Operation)
      → b.recovery_requirement op ≡ manual_recovery_audit
      → Triple Safe Safe (run_irreversible_operation recorder op (op_key op)) (λ _. Safe)
  unfolding run_irreversible_operation Secured
  run_irreversible_operation-Safe-manual op e = rw (e) (
      weaken-Triple {P = λ q log. Unit {0} × Safe q log} (λ _ _ p. (tt, p))
        (then-Triple (pure-Triple tt)
          (run_pending_irreversible_audit-Safe op manual_recovery_audit (λ log p. rw (e) p))))

  run_irreversible_operation-Safe-mixed :
      (op : Operation)
      → b.recovery_requirement op ≡ mixed
      → Triple Safe Safe (run_irreversible_operation recorder op (op_key op)) (λ _. Safe)
  unfolding run_irreversible_operation Secured
  run_irreversible_operation-Safe-mixed op e = rw (e) (
      then-Triple (capture_lossless_backups-Safe op (op_key op))
        (run_pending_irreversible_audit-Safe op mixed (λ log p. rw (e) p)))

  pub run_mutation-Safe :
      (op : Operation) → Triple Safe Safe (run_mutation recorder op (op_key op)) (λ _. Safe)
  unfolding run_mutation
  run_mutation-Safe op = by_requirement (b.recovery_requirement op) refl
    where
      by_requirement :
          (requirement : RecoveryRequirement)
          → b.recovery_requirement op ≡ requirement
          → Triple Safe Safe (run_mutation recorder op (op_key op)) (λ _. Safe)
      by_requirement lossless_backup e =
          rw (e, run_mutation) (run_lossless_operation-Safe op (op_key op) e)
      by_requirement rebuildable_audit e =
          rw (e, run_mutation) (run_rebuildable_operation-Safe op e)
      by_requirement manual_recovery_audit e =
          rw (e, run_mutation) (run_irreversible_operation-Safe-manual op e)
      by_requirement mixed e = rw (e, run_mutation) (run_irreversible_operation-Safe-mixed op e)
