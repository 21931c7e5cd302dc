-- ===== src/Config/Rules.antt =====
-- Which configurations of crates/frametime-domain/src/config.rs are valid.
use cs2_opt.Prelude.{refl, ◌≡◌, ◌↔◌, ◌⊎◌, ◌≤◌, ◌<◌, List, [], ◌∷◌, true, false, ok, arith, ◌≢◌}
use cs2_opt.Prelude.Text.{Text, to_ascii_lowercase, text_eq_iff}
use cs2_opt.Prelude.Keys.{contains, insert, contains-insert}
use cs2_opt.Config.{
  Config, FpsCap, config_validate, FpsCapMode, raw_mode, vrr_mode, cs2_shader_cache_templates,
  nvidia_dx_cache_template, nvidia_gl_cache_template, directx_shader_cache_template,
  check_shader_caches,
}

abbrev pub AreTemplates : List Text → Type 0
AreTemplates [] = Unit {0}
AreTemplates (path ∷ rest) = (contains path cs2_shader_cache_templates ≡ true) × AreTemplates rest

-- No path is among the lowercase texts, whatever its case.
abbrev pub AreFresh : List Text → List Text → Type 0
AreFresh seen [] = Unit {0}
AreFresh seen (path ∷ rest) = (contains (to_ascii_lowercase path) seen ≡ false) × AreFresh seen rest

-- No two paths differ by case alone, or not at all.
abbrev pub AreDistinct : List Text → Type 0
AreDistinct [] = Unit {0}
AreDistinct (path ∷ rest) = AreFresh (to_ascii_lowercase path ∷ []) rest × AreDistinct rest

AreFresh-insert :
    (k : Text) (seen paths : List Text)
    → AreFresh (insert k seen) paths ↔ AreFresh (k ∷ []) paths × AreFresh seen paths
unfolding contains
AreFresh-insert k seen [] = ground arith
AreFresh-insert k seen (path ∷ rest) = ground (
  arith,
  contains-insert k (to_ascii_lowercase path) seen,
  (AreFresh-insert k seen rest).0,
  (AreFresh-insert k seen rest).1,
)

AreFresh-nil : (paths : List Text) → AreFresh [] paths
unfolding contains
AreFresh-nil [] = tt
AreFresh-nil (path ∷ rest) = (refl, AreFresh-nil rest)

check_shader_caches_iff :
    (seen paths : List Text)
    → (check_shader_caches seen paths ≡ ok tt)
      ↔ AreTemplates paths × AreFresh seen paths × AreDistinct paths
unfolding check_shader_caches
check_shader_caches_iff seen [] = ground arith
check_shader_caches_iff seen (path ∷ rest) =
    let low : Text = to_ascii_lowercase path in
    ground (
      arith,
      (check_shader_caches_iff (insert low seen) rest).0,
      (check_shader_caches_iff (insert low seen) rest).1,
      (AreFresh-insert low seen rest).0,
      (AreFresh-insert low seen rest).1,
    )

-- What the strategy needs of the three numbers.
abbrev pub FitsMode : FpsCapMode → FpsCap → Type 0
FitsMode raw_mode c = Unit {0}
FitsMode vrr_mode c =
    (30 ≤ c.refresh_hz)
    × (c.refresh_hz ≤ 1000)
    × (0 < c.ceiling_margin_hz)
    × (c.ceiling_margin_hz < c.refresh_hz)

abbrev pub IsConfig : Config → Type 0
IsConfig c =
    (c.fps_cap.measured_cap ≡ 0 ⊎ (30 ≤ c.fps_cap.measured_cap) × (c.fps_cap.measured_cap ≤ 1000))
    × FitsMode c.fps_cap.strategy c.fps_cap
    × (c.paths.shader_cache ≢ [])
    × AreTemplates c.paths.shader_cache
    × AreDistinct c.paths.shader_cache
    × (c.paths.nvidia_dx_cache ≡ nvidia_dx_cache_template)
    × (c.paths.nvidia_gl_cache ≡ nvidia_gl_cache_template)
    × (c.paths.directx_shader_cache ≡ directx_shader_cache_template)

-- A configuration is valid exactly if its cap is zero or from 30 to 1000, a variable refresh rate is
-- from 30 to 1000 with a positive margin below it, the shader caches are some of the compiled
-- templates with no two alike but for case, and the other paths are the compiled ones.
pub config_validate_iff : (c : Config) → (config_validate c ≡ ok tt) ↔ IsConfig c
unfolding config_validate
config_validate_iff c = ground (
  arith,
  (check_shader_caches_iff [] c.paths.shader_cache).0,
  (check_shader_caches_iff [] c.paths.shader_cache).1,
  AreFresh-nil c.paths.shader_cache,
  (text_eq_iff c.paths.nvidia_dx_cache nvidia_dx_cache_template).0,
  (text_eq_iff c.paths.nvidia_dx_cache nvidia_dx_cache_template).1,
  (text_eq_iff c.paths.nvidia_gl_cache nvidia_gl_cache_template).0,
  (text_eq_iff c.paths.nvidia_gl_cache nvidia_gl_cache_template).1,
  (text_eq_iff c.paths.directx_shader_cache directx_shader_cache_template).0,
  (text_eq_iff c.paths.directx_shader_cache directx_shader_cache_template).1,
)
