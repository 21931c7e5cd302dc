-- ===== src/Config.antt =====
-- The runtime configuration: crates/frametime-domain/src/config.rs. Reading TOML is a library's part.
pub mod Rules
use cs2_opt.Prelude.{
  ℕ, Bool, true, false, not, ◌&&◌, ◌||◌, List, [], ◌∷◌, ◌++◌, Option, none, some, ltb, leb, ◌==◌,
  is_empty, Result, ok, err, ◌>>=◌, ◌>>◌, ensure, if◌then◌else◌,
}
use cs2_opt.Prelude.Text.{Text, codes, text_eq, to_ascii_lowercase}
use cs2_opt.Prelude.Keys.{contains, insert}
use cs2_opt.Fps.{FpsCapStrategy, raw_latency, vrr}

pub data FpsCapMode : Type 0 where
  raw_mode vrr_mode : FpsCapMode

pub record FpsCap : Type 0 where
  pub strategy : FpsCapMode
  pub measured_cap : ℕ
  pub refresh_hz : ℕ
  pub ceiling_margin_hz : ℕ

abbrev pub default_vrr_margin_hz : ℕ
default_vrr_margin_hz = 3

strategy_of : FpsCapMode → FpsCap → FpsCapStrategy
strategy_of raw_mode c = raw_latency (if c.measured_cap == 0 then none else some c.measured_cap)
strategy_of vrr_mode c = vrr c.refresh_hz c.ceiling_margin_hz

unfoldable pub fps_cap_strategy : FpsCap → FpsCapStrategy
unfolding strategy_of
fps_cap_strategy c = strategy_of c.strategy c

pub record RuntimePaths : Type 0 where
  pub shader_cache : List Text
  pub nvidia_dx_cache : Text
  pub nvidia_gl_cache : Text
  pub directx_shader_cache : Text

pub record Config : Type 0 where
  pub fps_cap : FpsCap
  pub paths : RuntimePaths
  pub autostart_remove : List Text

pub data ConfigError : Type 0 where
  fps_measured_cap fps_vrr : ConfigError
  cache_path shader_cache_path : Text → ConfigError

-- A Windows path is written with `/` here and holds `\`.
backslashes : Text → Text
backslashes [] = []
backslashes (c ∷ s) = (if c == b'/' then 92 else c) ∷ backslashes s

unfoldable pub nvidia_dx_cache_template : Text
unfolding backslashes
nvidia_dx_cache_template = backslashes (codes "%LOCALAPPDATA%/NVIDIA/DXCache")

unfoldable pub nvidia_gl_cache_template : Text
unfolding backslashes
nvidia_gl_cache_template = backslashes (codes "%LOCALAPPDATA%/NVIDIA/GLCache")

unfoldable pub directx_shader_cache_template : Text
unfolding backslashes
directx_shader_cache_template = backslashes (codes "%LOCALAPPDATA%/D3DSCache")

unfoldable pub cs2_shader_cache_templates : List Text
unfolding backslashes
cs2_shader_cache_templates =
    backslashes (codes "%ProgramFiles(x86)%/Steam/steamapps/shadercache/730")
    ∷ backslashes (codes "%ProgramFiles%/Steam/steamapps/shadercache/730")
    ∷ backslashes (codes "D:/Steam/steamapps/shadercache/730")
    ∷ backslashes (codes "E:/Steam/steamapps/shadercache/730")
    ∷ backslashes (codes "F:/Steam/steamapps/shadercache/730")
    ∷ []

-- `(30..=1000).contains(&n)`
abbrev pub in_cap_range : ℕ → Bool
in_cap_range n = leb 30 n && leb n 1000

is_vrr : FpsCapMode → Bool
is_vrr vrr_mode = true
is_vrr raw_mode = false

-- The loop over the shader caches, with the lowercase paths seen so far.
unfoldable pub check_shader_caches : List Text → List Text → Result ConfigError (Unit {0})
check_shader_caches seen [] = ok tt
check_shader_caches seen (path ∷ rest) =
    let low = to_ascii_lowercase path in
    let later = check_shader_caches (insert low seen) rest in
    if not (contains path cs2_shader_cache_templates) || contains low seen
    then err (shader_cache_path path)
    else later

check_template : Text → Text → Result ConfigError (Unit {0})
check_template path expected = ensure (text_eq path expected) (cache_path path)

unfoldable pub config_validate : Config → Result ConfigError (Unit {0})
unfolding is_vrr check_template
config_validate c = do
  ensure (c.fps_cap.measured_cap == 0 || in_cap_range c.fps_cap.measured_cap) fps_measured_cap
  ensure
      (not (
        is_vrr c.fps_cap.strategy
        && (not (in_cap_range c.fps_cap.refresh_hz)
            || (c.fps_cap.ceiling_margin_hz == 0
                || leb c.fps_cap.refresh_hz c.fps_cap.ceiling_margin_hz))))
      fps_vrr
  ensure (not (is_empty c.paths.shader_cache))
      (shader_cache_path (codes "at least one CS2 shader-cache template is required"))
  check_shader_caches [] c.paths.shader_cache
  check_template c.paths.nvidia_dx_cache nvidia_dx_cache_template
  check_template c.paths.nvidia_gl_cache nvidia_gl_cache_template
  check_template c.paths.directx_shader_cache directx_shader_cache_template
