-- ===== src/Fps.antt =====
-- Choosing a frame cap from measured data: crates/frametime-domain/src/fps.rs.
pub mod Headroom
use cs2_opt.Prelude.{ℕ, ◌-◌, Bool, true, false, ◌&&◌, Option, none, some, ltb, leb, if◌then◌else◌}
use cs2_opt.Prelude.Float.{F64}

pub record BenchmarkCapture (F : Type 0) : Type 0 where
  pub average_fps : F
  pub p1_fps : F
  pub runs : ℕ

pub data FpsCapStrategy : Type 0 where
  raw_latency : Option ℕ → FpsCapStrategy
  vrr : ℕ → ℕ → FpsCapStrategy  -- refresh_hz, ceiling_margin_hz

-- `u32::checked_sub`
abbrev pub checked_sub : ℕ → ℕ → Option ℕ
checked_sub a b = if leb b a then some (a - b) else none

module _ {F : Type 0} ⦃f : F64 F⦄ where
  unfoldable pub sustainable_cap : ℕ → BenchmarkCapture F → Option ℕ
  sustainable_cap cap capture =
      if ltb 0 cap
        && (f.is_finite capture.average_fps
            && (f.lt f.zero_f64 capture.average_fps
                && (f.is_finite capture.p1_fps
                    && (f.le (f.from_u32 cap) capture.p1_fps && leb 5 capture.runs))))
      then some cap
      else none

  vrr_cap : Option ℕ → BenchmarkCapture F → Option ℕ
  unfolding sustainable_cap
  vrr_cap none capture = none
  vrr_cap (some cap) capture = if ltb 0 cap then sustainable_cap cap capture else none

  unfoldable pub measured_fps_cap : FpsCapStrategy → BenchmarkCapture F → Option ℕ
  unfolding vrr_cap
  measured_fps_cap (raw_latency none) capture = some 0
  measured_fps_cap (raw_latency (some cap)) capture = sustainable_cap cap capture
  measured_fps_cap (vrr refresh_hz ceiling_margin_hz) capture =
      vrr_cap (checked_sub refresh_hz ceiling_margin_hz) capture
