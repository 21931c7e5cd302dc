-- ===== src/Policy.antt =====
-- The consent policy of crates/frametime-domain/src/policy.rs.
pub mod Consent
use cs2_opt.Prelude.{ℕ, Bool, true, false, ◌&&◌, ltb, ◌==◌, if◌then◌else◌}
use cs2_opt.Catalog.Kinds.{Risk, moderate, aggressive, critical, rank}

pub data Profile : Type 0 where
  safe recommended competitive custom yolo : Profile

pub data Decision : Type 0 where
  auto prompt skip : Decision

unfoldable pub maximum_risk : Profile → Risk
maximum_risk safe = Risk.safe
maximum_risk recommended = moderate
maximum_risk competitive = aggressive
maximum_risk yolo = aggressive
maximum_risk custom = critical

-- `matches!(risk, Risk::Safe)`
is_safe_risk : Risk → Bool
is_safe_risk Risk.safe = true
is_safe_risk _ = false

tier_one_decision : Profile → Decision
tier_one_decision custom = prompt
tier_one_decision _ = auto

profile_decision : Profile → ℕ → Risk → Decision
unfolding is_safe_risk
profile_decision safe tier risk = if tier == 2 && is_safe_risk risk then auto else skip
profile_decision recommended tier risk = if tier == 2 then prompt else skip
profile_decision competitive tier risk = prompt
profile_decision custom tier risk = prompt
profile_decision yolo tier risk = auto

unfoldable pub decision : Profile → ℕ → Risk → Decision
unfolding maximum_risk tier_one_decision profile_decision
decision p tier risk =
    if tier == 1
    then tier_one_decision p
    else if ltb (rank (maximum_risk p)) (rank risk)
    then skip
    else profile_decision p tier risk
