-- ===== src/Cs2/Targets.antt =====
-- The closed set of files that may be written: `OptionalCfgAsset` of
-- crates/frametime-domain/src/cs2_config.rs and `Cs2ConfigTarget` of cs2_config/targets.rs.
use cs2_opt.Prelude.{ℕ, List, [], ◌∷◌, Option, none, some, find, ltb, ◌==◌, if◌then◌else◌}
use cs2_opt.Prelude.Text.{Text, codes, text_eq}

pub data OptionalCfgAsset : Type 0 where
  net_stable net_high_ping net_unstable net_bad debug_hud debug_hud_off audio_stable :
      OptionalCfgAsset
  audio_low_latency_025 audio_low_latency_001 frame_baseline_400 frame_raw_uncapped :
      OptionalCfgAsset
  audio_eq_crisp audio_eq_smooth audio_legacy_lr_isolation competitive_2026 : OptionalCfgAsset

pub data Cs2ConfigTarget : Type 0 where
  optimization autoexec : Cs2ConfigTarget
  on_net_stable on_net_high_ping on_net_unstable on_net_bad on_debug_hud on_debug_hud_off :
      Cs2ConfigTarget
  on_audio_stable on_audio_low_latency_025 on_audio_low_latency_001 on_frame_baseline_400 :
      Cs2ConfigTarget
  on_frame_raw_uncapped on_audio_eq_crisp on_audio_eq_smooth on_audio_legacy_lr_isolation :
      Cs2ConfigTarget
  on_competitive_2026 : Cs2ConfigTarget

abbrev pub all_assets : List OptionalCfgAsset
all_assets =
    net_stable ∷ net_high_ping ∷ net_unstable ∷ net_bad ∷ debug_hud ∷ debug_hud_off ∷ audio_stable
    ∷ audio_low_latency_025 ∷ audio_low_latency_001 ∷ frame_baseline_400 ∷ frame_raw_uncapped
    ∷ audio_eq_crisp ∷ audio_eq_smooth ∷ audio_legacy_lr_isolation ∷ competitive_2026 ∷ []

-- The derived order of the enum.
abbrev pub asset_rank : OptionalCfgAsset → ℕ
asset_rank net_stable = 0
asset_rank net_high_ping = 1
asset_rank net_unstable = 2
asset_rank net_bad = 3
asset_rank debug_hud = 4
asset_rank debug_hud_off = 5
asset_rank audio_stable = 6
asset_rank audio_low_latency_025 = 7
asset_rank audio_low_latency_001 = 8
asset_rank frame_baseline_400 = 9
asset_rank frame_raw_uncapped = 10
asset_rank audio_eq_crisp = 11
asset_rank audio_eq_smooth = 12
asset_rank audio_legacy_lr_isolation = 13
asset_rank competitive_2026 = 14

-- Insertion into a `BTreeSet`.
unfoldable pub insert_asset : OptionalCfgAsset → List OptionalCfgAsset → List OptionalCfgAsset
insert_asset a [] = a ∷ []
insert_asset a (b ∷ bs) =
    let rest = insert_asset a bs in
    if ltb (asset_rank a) (asset_rank b)
    then a ∷ b ∷ bs
    else if asset_rank a == asset_rank b
    then b ∷ bs
    else b ∷ rest

-- `collect` into a `BTreeSet`: in order, each once.
unfoldable pub collected_assets : List OptionalCfgAsset → List OptionalCfgAsset
unfolding insert_asset
collected_assets [] = []
collected_assets (a ∷ as_) = insert_asset a (collected_assets as_)

unfoldable pub file_name : OptionalCfgAsset → Text
file_name net_stable = codes "net_stable.cfg"
file_name net_high_ping = codes "net_highping.cfg"
file_name net_unstable = codes "net_unstable.cfg"
file_name net_bad = codes "net_bad.cfg"
file_name debug_hud = codes "debug_hud.cfg"
file_name debug_hud_off = codes "debug_hud_off.cfg"
file_name audio_stable = codes "audio_stable.cfg"
file_name audio_low_latency_025 = codes "audio_lowlatency_025.cfg"
file_name audio_low_latency_001 = codes "audio_lowlatency_001.cfg"
file_name frame_baseline_400 = codes "frame_baseline_400.cfg"
file_name frame_raw_uncapped = codes "frame_raw_uncapped.cfg"
file_name audio_eq_crisp = codes "audio_eq_crisp.cfg"
file_name audio_eq_smooth = codes "audio_eq_smooth.cfg"
file_name audio_legacy_lr_isolation = codes "audio_legacy_lr_isolation.cfg"
file_name competitive_2026 = codes "competitive_2026.cfg"

unfoldable pub cli_token : OptionalCfgAsset → Text
cli_token net_stable = codes "net-stable"
cli_token net_high_ping = codes "net-highping"
cli_token net_unstable = codes "net-unstable"
cli_token net_bad = codes "net-bad"
cli_token debug_hud = codes "debug-hud"
cli_token debug_hud_off = codes "debug-hud-off"
cli_token audio_stable = codes "audio-stable"
cli_token audio_low_latency_025 = codes "audio-lowlatency-025"
cli_token audio_low_latency_001 = codes "audio-lowlatency-001"
cli_token frame_baseline_400 = codes "frame-baseline-400"
cli_token frame_raw_uncapped = codes "frame-raw-uncapped"
cli_token audio_eq_crisp = codes "audio-eq-crisp"
cli_token audio_eq_smooth = codes "audio-eq-smooth"
cli_token audio_legacy_lr_isolation = codes "audio-legacy-lr-isolation"
cli_token competitive_2026 = codes "competitive-2026"

unfoldable pub display_label : OptionalCfgAsset → Text
display_label net_stable = codes "Network stable"
display_label net_high_ping = codes "Network high ping"
display_label net_unstable = codes "Network unstable"
display_label net_bad = codes "Network loss diagnostics"
display_label debug_hud = codes "Debug HUD on"
display_label debug_hud_off = codes "Debug HUD off"
display_label audio_stable = codes "Audio stable"
display_label audio_low_latency_025 = codes "Audio low latency 0.025"
display_label audio_low_latency_001 = codes "Audio auto latency / 0.001 alias"
display_label frame_baseline_400 = codes "Frame baseline 400"
display_label frame_raw_uncapped = codes "Frame raw uncapped"
display_label audio_eq_crisp = codes "Audio EQ crisp"
display_label audio_eq_smooth = codes "Audio EQ smooth"
display_label audio_legacy_lr_isolation = codes "Audio legacy L/R isolation"
display_label competitive_2026 = codes "Competitive 2026"

unfoldable pub from_cli_token : Text → Option OptionalCfgAsset
from_cli_token value = find (λ asset. text_eq (cli_token asset) value) all_assets

unfoldable pub from_optional_asset : OptionalCfgAsset → Cs2ConfigTarget
from_optional_asset net_stable = on_net_stable
from_optional_asset net_high_ping = on_net_high_ping
from_optional_asset net_unstable = on_net_unstable
from_optional_asset net_bad = on_net_bad
from_optional_asset debug_hud = on_debug_hud
from_optional_asset debug_hud_off = on_debug_hud_off
from_optional_asset audio_stable = on_audio_stable
from_optional_asset audio_low_latency_025 = on_audio_low_latency_025
from_optional_asset audio_low_latency_001 = on_audio_low_latency_001
from_optional_asset frame_baseline_400 = on_frame_baseline_400
from_optional_asset frame_raw_uncapped = on_frame_raw_uncapped
from_optional_asset audio_eq_crisp = on_audio_eq_crisp
from_optional_asset audio_eq_smooth = on_audio_eq_smooth
from_optional_asset audio_legacy_lr_isolation = on_audio_legacy_lr_isolation
from_optional_asset competitive_2026 = on_competitive_2026

unfoldable pub optional_asset : Cs2ConfigTarget → Option OptionalCfgAsset
optional_asset optimization = none
optional_asset autoexec = none
optional_asset on_net_stable = some net_stable
optional_asset on_net_high_ping = some net_high_ping
optional_asset on_net_unstable = some net_unstable
optional_asset on_net_bad = some net_bad
optional_asset on_debug_hud = some debug_hud
optional_asset on_debug_hud_off = some debug_hud_off
optional_asset on_audio_stable = some audio_stable
optional_asset on_audio_low_latency_025 = some audio_low_latency_025
optional_asset on_audio_low_latency_001 = some audio_low_latency_001
optional_asset on_frame_baseline_400 = some frame_baseline_400
optional_asset on_frame_raw_uncapped = some frame_raw_uncapped
optional_asset on_audio_eq_crisp = some audio_eq_crisp
optional_asset on_audio_eq_smooth = some audio_eq_smooth
optional_asset on_audio_legacy_lr_isolation = some audio_legacy_lr_isolation
optional_asset on_competitive_2026 = some competitive_2026

unfoldable pub target_file_name : Cs2ConfigTarget → Text
target_file_name optimization = codes "optimization.cfg"
target_file_name autoexec = codes "autoexec.cfg"
target_file_name on_net_stable = codes "net_stable.cfg"
target_file_name on_net_high_ping = codes "net_highping.cfg"
target_file_name on_net_unstable = codes "net_unstable.cfg"
target_file_name on_net_bad = codes "net_bad.cfg"
target_file_name on_debug_hud = codes "debug_hud.cfg"
target_file_name on_debug_hud_off = codes "debug_hud_off.cfg"
target_file_name on_audio_stable = codes "audio_stable.cfg"
target_file_name on_audio_low_latency_025 = codes "audio_lowlatency_025.cfg"
target_file_name on_audio_low_latency_001 = codes "audio_lowlatency_001.cfg"
target_file_name on_frame_baseline_400 = codes "frame_baseline_400.cfg"
target_file_name on_frame_raw_uncapped = codes "frame_raw_uncapped.cfg"
target_file_name on_audio_eq_crisp = codes "audio_eq_crisp.cfg"
target_file_name on_audio_eq_smooth = codes "audio_eq_smooth.cfg"
target_file_name on_audio_legacy_lr_isolation = codes "audio_legacy_lr_isolation.cfg"
target_file_name on_competitive_2026 = codes "competitive_2026.cfg"
