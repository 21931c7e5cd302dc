-- ===== src/Policy/Consent.antt =====
-- The decisions of crates/frametime-domain/src/policy.rs, by profile and risk.
use cs2_opt.Prelude.{ℕ, ◌≤◌, ◌≡◌, ◌≢◌, ◌↔◌, ◌⊎◌, arith}
use cs2_opt.Catalog.Kinds.{Risk, rank}
use cs2_opt.Policy.{Profile, safe, recommended, competitive, custom, yolo, auto, skip, decision}

-- An action runs unasked exactly in three cases: it is a tier 1 baseline and the profile is not
-- custom; or the profile is yolo and the action is at most aggressive; or the profile is safe and
-- the action is tier 2 and safe.
pub decision-auto_iff :
    (p : Profile) (tier : ℕ) (risk : Risk)
    → (decision p tier risk ≡ auto) ↔ (
        (tier ≡ 1) × (p ≢ custom)
        ⊎ (p ≡ yolo) × (rank risk ≤ 2)
        ⊎ (p ≡ safe) × (tier ≡ 2) × (risk ≡ Risk.safe))
unfolding decision
decision-auto_iff p tier risk = ground arith

-- How much a profile lets through.
abbrev boldness : Profile → ℕ
boldness safe = 0
boldness recommended = 1
boldness competitive = 2
boldness yolo = 2
boldness custom = 3

-- A bolder profile skips no action of lower or equal risk that a more careful profile runs or
-- offers at the same tier.
pub decision-skip_mono :
    (p q : Profile) (tier : ℕ) (r s : Risk)
    → boldness p ≤ boldness q
    → rank s ≤ rank r
    → decision q tier s ≡ skip
    → decision p tier r ≡ skip
unfolding decision
decision-skip_mono p q tier r s b h e = ground arith
