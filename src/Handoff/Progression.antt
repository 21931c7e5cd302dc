-- ===== src/Handoff/Progression.antt =====
-- Histories of requested transitions of a reboot transaction: crates/frametime-domain/src/handoff.rs.
use cs2_opt.Prelude.{ℕ, ◌≤◌, ◌≡◌, ap, ◌≢◌, false, List, [], ◌∷◌, arith, Result, ok, err, String}
use cs2_opt.Handoff.Stage.{
  RebootStage, phase_one_safe_mode_armed, phase_two_safe_mode, phase_three_armed,
  phase_three_complete, recovery_required, unknown, stage_eq_iff, allows_transition_to,
}
use cs2_opt.Handoff.Transaction.{RebootTransaction, is_authorized_at, transition_to}

-- Later stages rank higher; what is not recognised ranks lowest.
abbrev pub stage_rank : RebootStage → ℕ
stage_rank (unknown value) = 0
stage_rank phase_one_safe_mode_armed = 1
stage_rank phase_two_safe_mode = 2
stage_rank phase_three_armed = 3
stage_rank phase_three_complete = 4
stage_rank recovery_required = 5

last_rank : (s : RebootStage) → 5 ≤ stage_rank s → s ≡ recovery_required
last_rank s h = ground arith

module _ {V : Type 0} where
  abbrev settle : RebootTransaction V → Result String (RebootTransaction V) → RebootTransaction V
  settle t (ok u) = u
  settle t (err e) = t

  -- A history of requested stages, refused ones included.
  pub advance : RebootTransaction V → List RebootStage → RebootTransaction V
  advance t [] = t
  advance t (next ∷ rest) = advance (settle t (transition_to t next)) rest

  settle-rank :
      (t : RebootTransaction V) (next : RebootStage)
      → stage_rank t.stage ≤ stage_rank (settle t (transition_to t next)).stage
  unfolding transition_to allows_transition_to
  settle-rank t next = ground arith

  -- No sequence of requests moves a transaction to an earlier stage.
  pub advance-rank :
      (t : RebootTransaction V) (requests : List RebootStage)
      → stage_rank t.stage ≤ stage_rank (advance t requests).stage
  unfolding advance
  advance-rank t [] = omega arith
  advance-rank t (next ∷ rest) =
      omega (arith, settle-rank t next, advance-rank (settle t (transition_to t next)) rest)

  -- Once recovery is required no sequence of requests authorizes work at any other stage again.
  pub recovery_required-final :
      (t : RebootTransaction V) (requests : List RebootStage) (stage : RebootStage)
      → t.stage ≡ recovery_required
      → stage ≢ recovery_required
      → is_authorized_at (advance t requests) stage ≡ false
  unfolding is_authorized_at
  recovery_required-final t requests stage e n =
      let u = advance t requests in
      let last : u.stage ≡ recovery_required =
        last_rank u.stage (omega (arith, advance-rank t requests, ap stage_rank e)) in
      ground (arith, stage_eq_iff u.stage stage)
