-- ===== src/Fps/Headroom.antt =====
-- The measurement behind a cap of crates/frametime-domain/src/fps.rs.
use cs2_opt.Prelude.{ℕ, ◌+◌, ◌≤◌, ◌<◌, ◌≡◌, ◌↔◌, ◌⊎◌, true, none, some, arith}
use cs2_opt.Prelude.Float.{F64}
use cs2_opt.Fps.{BenchmarkCapture, FpsCapStrategy, raw_latency, vrr, measured_fps_cap}

-- The cap that a strategy asks for.
abbrev pub Requests : FpsCapStrategy → ℕ → Type 0
Requests (raw_latency none) ceiling = ⊥
Requests (raw_latency (some asked)) ceiling = asked ≡ ceiling
Requests (vrr refresh_hz ceiling_margin_hz) ceiling = refresh_hz ≡ ceiling + ceiling_margin_hz

module _ {F : Type 0} ⦃f : F64 F⦄ where
  -- The measurement that carries a cap: five runs at least, finite numbers, a positive average, and
  -- the slowest percentile at the cap or above.
  abbrev pub Sustains : ℕ → BenchmarkCapture F → Type 0
  Sustains ceiling capture =
      (5 ≤ capture.runs)
      × (f.is_finite capture.average_fps ≡ true)
      × (f.lt f.zero_f64 capture.average_fps ≡ true)
      × (f.is_finite capture.p1_fps ≡ true)
      × (f.le (f.from_u32 ceiling) capture.p1_fps ≡ true)

  -- A cap above zero is recommended exactly if the strategy asks for it and the measurement
  -- sustains it; zero is recommended exactly for the uncapped strategy, whatever was measured.
  pub measured_fps_cap_iff :
      (strategy : FpsCapStrategy) (capture : BenchmarkCapture F) (ceiling : ℕ)
      → (measured_fps_cap strategy capture ≡ some ceiling) ↔ (
          (strategy ≡ raw_latency none) × (ceiling ≡ 0)
          ⊎ (0 < ceiling) × Requests strategy ceiling × Sustains ceiling capture)
  unfolding measured_fps_cap
  measured_fps_cap_iff (raw_latency none) capture ceiling = ground arith
  measured_fps_cap_iff (raw_latency (some asked)) capture ceiling = ground arith
  measured_fps_cap_iff (vrr refresh_hz margin) capture ceiling = ground arith
