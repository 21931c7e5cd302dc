-- ===== src/Cs2/Names.antt =====
-- Names of the files of crates/frametime-domain/src/cs2_config.rs and cs2_config/targets.rs.
use cs2_opt.Prelude.{◌∙◌, sym, arith, map, ◌∷◌, List, ◌≡◌, refl, some, Option, find, ap}
use cs2_opt.Prelude.Text.{Text, text_eq}
use cs2_opt.Cs2.Targets.{
  OptionalCfgAsset, Cs2ConfigTarget, file_name, cli_token, from_cli_token, from_optional_asset,
  optional_asset, target_file_name, all_assets, net_stable, net_high_ping, net_unstable, net_bad,
  debug_hud, debug_hud_off, audio_stable, audio_low_latency_025, audio_low_latency_001,
  frame_baseline_400, frame_raw_uncapped, audio_eq_crisp, audio_eq_smooth,
  audio_legacy_lr_isolation, competitive_2026, on_net_stable, on_net_high_ping, on_net_unstable,
  on_net_bad, on_debug_hud, on_debug_hud_off, on_audio_stable, on_audio_low_latency_025,
  on_audio_low_latency_001, on_frame_baseline_400, on_frame_raw_uncapped, on_audio_eq_crisp,
  on_audio_eq_smooth, on_audio_legacy_lr_isolation, on_competitive_2026, optimization, autoexec,
}

-- A token reads back as its file.
from_cli_token-cli_token :
    (asset : OptionalCfgAsset) → from_cli_token (cli_token asset) ≡ some asset
unfolding from_cli_token cli_token find text_eq
from_cli_token-cli_token net_stable = refl
from_cli_token-cli_token net_high_ping = refl
from_cli_token-cli_token net_unstable = refl
from_cli_token-cli_token net_bad = refl
from_cli_token-cli_token debug_hud = refl
from_cli_token-cli_token debug_hud_off = refl
from_cli_token-cli_token audio_stable = refl
from_cli_token-cli_token audio_low_latency_025 = refl
from_cli_token-cli_token audio_low_latency_001 = refl
from_cli_token-cli_token frame_baseline_400 = refl
from_cli_token-cli_token frame_raw_uncapped = refl
from_cli_token-cli_token audio_eq_crisp = refl
from_cli_token-cli_token audio_eq_smooth = refl
from_cli_token-cli_token audio_legacy_lr_isolation = refl
from_cli_token-cli_token competitive_2026 = refl

abbrev all_targets : List Cs2ConfigTarget
all_targets = optimization ∷ autoexec ∷ map from_optional_asset all_assets

-- The file with a name, if there is one.
abbrev target_named : Text → Option Cs2ConfigTarget
target_named name = find (λ t. text_eq (target_file_name t) name) all_targets

target_named-target_file_name : (t : Cs2ConfigTarget) → target_named (target_file_name t) ≡ some t
unfolding target_file_name find text_eq from_optional_asset
target_named-target_file_name optimization = refl
target_named-target_file_name autoexec = refl
target_named-target_file_name on_net_stable = refl
target_named-target_file_name on_net_high_ping = refl
target_named-target_file_name on_net_unstable = refl
target_named-target_file_name on_net_bad = refl
target_named-target_file_name on_debug_hud = refl
target_named-target_file_name on_debug_hud_off = refl
target_named-target_file_name on_audio_stable = refl
target_named-target_file_name on_audio_low_latency_025 = refl
target_named-target_file_name on_audio_low_latency_001 = refl
target_named-target_file_name on_frame_baseline_400 = refl
target_named-target_file_name on_frame_raw_uncapped = refl
target_named-target_file_name on_audio_eq_crisp = refl
target_named-target_file_name on_audio_eq_smooth = refl
target_named-target_file_name on_audio_legacy_lr_isolation = refl
target_named-target_file_name on_competitive_2026 = refl

pub target_file_name-injective :
    (a b : Cs2ConfigTarget) → target_file_name a ≡ target_file_name b → a ≡ b
target_file_name-injective a b e =
    ground
      (arith, target_named-target_file_name a, target_named-target_file_name b, ap target_named e)

pub optional_asset-from_optional_asset :
    (asset : OptionalCfgAsset) → optional_asset (from_optional_asset asset) ≡ some asset
unfolding optional_asset from_optional_asset
optional_asset-from_optional_asset net_stable = refl
optional_asset-from_optional_asset net_high_ping = refl
optional_asset-from_optional_asset net_unstable = refl
optional_asset-from_optional_asset net_bad = refl
optional_asset-from_optional_asset debug_hud = refl
optional_asset-from_optional_asset debug_hud_off = refl
optional_asset-from_optional_asset audio_stable = refl
optional_asset-from_optional_asset audio_low_latency_025 = refl
optional_asset-from_optional_asset audio_low_latency_001 = refl
optional_asset-from_optional_asset frame_baseline_400 = refl
optional_asset-from_optional_asset frame_raw_uncapped = refl
optional_asset-from_optional_asset audio_eq_crisp = refl
optional_asset-from_optional_asset audio_eq_smooth = refl
optional_asset-from_optional_asset audio_legacy_lr_isolation = refl
optional_asset-from_optional_asset competitive_2026 = refl

pub target_file_name-from_optional_asset :
    (asset : OptionalCfgAsset) → target_file_name (from_optional_asset asset) ≡ file_name asset
unfolding target_file_name from_optional_asset file_name
target_file_name-from_optional_asset net_stable = refl
target_file_name-from_optional_asset net_high_ping = refl
target_file_name-from_optional_asset net_unstable = refl
target_file_name-from_optional_asset net_bad = refl
target_file_name-from_optional_asset debug_hud = refl
target_file_name-from_optional_asset debug_hud_off = refl
target_file_name-from_optional_asset audio_stable = refl
target_file_name-from_optional_asset audio_low_latency_025 = refl
target_file_name-from_optional_asset audio_low_latency_001 = refl
target_file_name-from_optional_asset frame_baseline_400 = refl
target_file_name-from_optional_asset frame_raw_uncapped = refl
target_file_name-from_optional_asset audio_eq_crisp = refl
target_file_name-from_optional_asset audio_eq_smooth = refl
target_file_name-from_optional_asset audio_legacy_lr_isolation = refl
target_file_name-from_optional_asset competitive_2026 = refl

-- A token reads back as its file, no two targets share a file name, and a file keeps its name and
-- is found again as a target.
pub targets_are_closed :
    (asset : OptionalCfgAsset) (a b : Cs2ConfigTarget)
    → target_file_name a ≡ target_file_name b
    → (a ≡ b)
      × (from_cli_token (cli_token asset) ≡ some asset)
      × (target_file_name (from_optional_asset asset) ≡ file_name asset)
      × (optional_asset (from_optional_asset asset) ≡ some asset)
targets_are_closed asset a b e = (
  target_file_name-injective a b e,
  from_cli_token-cli_token asset,
  target_file_name-from_optional_asset asset,
  optional_asset-from_optional_asset asset,
)

pub file_name-injective : (a b : OptionalCfgAsset) → file_name a ≡ file_name b → a ≡ b
file_name-injective a b e = ground (
  arith,
  optional_asset-from_optional_asset a,
  optional_asset-from_optional_asset b,
  ap optional_asset (
      target_file_name-injective (from_optional_asset a) (from_optional_asset b) (
        target_file_name-from_optional_asset a
        ∙ (e ∙ sym (target_file_name-from_optional_asset b)))),
)
