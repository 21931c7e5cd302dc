-- ===== src/Cs2/Apart.antt =====
-- The files of crates/frametime-domain/src/cs2_config.rs stand apart.
use cs2_opt.Prelude.{
  ◌≡◌, ◌≢◌, Bool, false, ◌||◌, refl, ap, arith, last, last-append, List, [], ◌∷◌, All,
}
use cs2_opt.Prelude.Text.{Text, codes, text_eq, text_eq_refl}
use cs2_opt.Cs2.Targets.{
  OptionalCfgAsset, file_name, net_stable, net_high_ping, net_unstable, net_bad, debug_hud,
  debug_hud_off, audio_stable, audio_low_latency_025, audio_low_latency_001, frame_baseline_400,
  frame_raw_uncapped, audio_eq_crisp, audio_eq_smooth, audio_legacy_lr_isolation, competitive_2026,
}
use cs2_opt.Cs2.Apply.{Coding, deployments_for_assets}
use cs2_opt.Cs2.Files.{FilePath, joined, normal}
use cs2_opt.Cs2.Controller.{Cs2Paths, CfgAssetDeployment}

pub joined-injective : (p : FilePath) (a b : Text) → joined p a ≡ joined p b → a ≡ b
joined-injective p a b e =
    ground (arith, last-append p (normal a), last-append p (normal b), ap last e)

-- Files of one directory whose names differ.
pub joined-apart : (p : FilePath) (a b : Text) → text_eq a b ≡ false → joined p a ≢ joined p b
joined-apart p a b differ e =
    ground (arith, ap (text_eq a) (joined-injective p a b e), text_eq_refl a)

-- The names of the generated and the user's file and of their backups.
abbrev pub is_reserved : Text → Bool
is_reserved name =
    text_eq name (codes "autoexec.cfg")
    || (text_eq name (codes "autoexec.cfg.bak")
        || (text_eq name (codes "optimization.cfg") || text_eq name (codes "optimization.cfg.bak")))

is_reserved-file_name : (asset : OptionalCfgAsset) → is_reserved (file_name asset) ≡ false
unfolding file_name text_eq
is_reserved-file_name net_stable = refl
is_reserved-file_name net_high_ping = refl
is_reserved-file_name net_unstable = refl
is_reserved-file_name net_bad = refl
is_reserved-file_name debug_hud = refl
is_reserved-file_name debug_hud_off = refl
is_reserved-file_name audio_stable = refl
is_reserved-file_name audio_low_latency_025 = refl
is_reserved-file_name audio_low_latency_001 = refl
is_reserved-file_name frame_baseline_400 = refl
is_reserved-file_name frame_raw_uncapped = refl
is_reserved-file_name audio_eq_crisp = refl
is_reserved-file_name audio_eq_smooth = refl
is_reserved-file_name audio_legacy_lr_isolation = refl
is_reserved-file_name competitive_2026 = refl

pub deployments-apart :
    (coding : Coding) (p : Cs2Paths) (assets : List OptionalCfgAsset) (name : Text)
    → ((asset : OptionalCfgAsset) → text_eq (file_name asset) name ≡ false)
    → All
        (λ (d : CfgAssetDeployment). d.target ≢ joined p.cfg_directory name)
        (deployments_for_assets coding p assets)
deployments-apart coding p [] name h = tt
deployments-apart coding p (asset ∷ assets) name h = (
  joined-apart p.cfg_directory (file_name asset) name (h asset),
  deployments-apart coding p assets name h,
)

pub autoexec_unused :
    (asset : OptionalCfgAsset) → text_eq (file_name asset) (codes "autoexec.cfg") ≡ false
autoexec_unused asset = ground (arith, is_reserved-file_name asset)

pub autoexec_backup_unused :
    (asset : OptionalCfgAsset) → text_eq (file_name asset) (codes "autoexec.cfg.bak") ≡ false
autoexec_backup_unused asset = ground (arith, is_reserved-file_name asset)

pub optimization_backup_unused :
    (asset : OptionalCfgAsset) → text_eq (file_name asset) (codes "optimization.cfg.bak") ≡ false
optimization_backup_unused asset = ground (arith, is_reserved-file_name asset)

pub optimization_unused :
    (asset : OptionalCfgAsset) → text_eq (file_name asset) (codes "optimization.cfg") ≡ false
optimization_unused asset = ground (arith, is_reserved-file_name asset)
