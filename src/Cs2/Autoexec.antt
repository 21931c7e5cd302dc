-- ===== src/Cs2/Autoexec.antt =====
-- The generated file and the line that runs it: crates/frametime-domain/src/cs2.rs. A text is its
-- list of code points here.
use cs2_opt.Prelude.{
  ℕ, Bool, true, false, ◌&&◌, ◌||◌, List, [], ◌∷◌, ◌++◌, none, some, leb, ◌==◌, any, last, is_empty,
  if◌then◌else◌,
}
use cs2_opt.Prelude.Text.{Text, codes, text_eq, split_on, to_ascii_lowercase}

abbrev pub line_feed : ℕ
line_feed = 10

abbrev pub carriage_return : ℕ
carriage_return = 13

-- `char::is_whitespace`
unfoldable pub is_whitespace : ℕ → Bool
is_whitespace c =
    leb 9 c && leb c 13
    || (c == 32
        || (c == 133
            || (c == 160
                || (c == 5760
                    || (leb 8192 c && leb c 8202
                        || (c == 8232
                            || (c == 8233 || (c == 8239 || (c == 8287 || c == 12288)))))))))

unfoldable pub trim_start : Text → Text
trim_start [] = []
trim_start (c ∷ s) = let rest = trim_start s in if is_whitespace c then rest else c ∷ s

-- `str::trim_end_matches` of a test.
unfoldable pub trim_end_matches : (ℕ → Bool) → Text → Text
trim_end_matches p [] = []
trim_end_matches p (c ∷ s) =
    let rest = trim_end_matches p s in if is_empty rest && p c then [] else c ∷ rest

unfoldable pub trim : Text → Text
unfolding trim_start
trim s = trim_end_matches is_whitespace (trim_start s)

strip_carriage_return : Text → Text
strip_carriage_return [] = []
strip_carriage_return (c ∷ []) = if c == carriage_return then [] else c ∷ []
strip_carriage_return (c ∷ d ∷ s) = c ∷ strip_carriage_return (d ∷ s)

-- The lines of a text that was split at its line feeds: what follows the last one counts if it is
-- not empty.
unfoldable pub terminated : List Text → List Text
unfolding strip_carriage_return
terminated [] = []
terminated (part ∷ []) = if is_empty part then [] else part ∷ []
terminated (part ∷ next ∷ rest) = strip_carriage_return part ∷ terminated (next ∷ rest)

-- `str::lines`
unfoldable pub lines : Text → List Text
unfolding terminated
lines s = terminated (split_on line_feed s)

-- What stands before the first `//`.
unfoldable pub before_comment : Text → Text
before_comment [] = []
before_comment (c ∷ []) = c ∷ []
before_comment (c ∷ d ∷ s) =
    let rest = before_comment (d ∷ s) in if c == b'/' && d == b'/' then [] else c ∷ rest

abbrev pub autoexec_line : Text
autoexec_line = codes "exec optimization.cfg"

abbrev pub last_line : Text
last_line = autoexec_line ++ (line_feed ∷ [])

unfoldable pub is_optimization_exec : Text → Bool
unfolding before_comment trim
is_optimization_exec line =
    text_eq (to_ascii_lowercase (trim (before_comment line))) (to_ascii_lowercase autoexec_line)

abbrev pub is_line_end : ℕ → Bool
is_line_end c = c == carriage_return || c == line_feed

-- `rsplit(['\r', '\n']).next()`
last_segment : Text → Text
last_segment [] = []
last_segment (c ∷ s) =
    let rest = last_segment s in
    if any is_line_end s then rest else if is_line_end c then s else c ∷ s

-- `str::ends_with` of a text that is given backwards.
starts_with : Text → Text → Bool
starts_with [] s = true
starts_with (c ∷ p) [] = false
starts_with (c ∷ p) (d ∷ s) = c == d && starts_with p s

backwards : Text → Text → Text
backwards done [] = done
backwards done (c ∷ s) = backwards (c ∷ done) s

unfoldable pub has_blank_final_line : Text → Bool
unfolding last_segment starts_with backwards trim
has_blank_final_line s =
    starts_with (line_feed ∷ line_feed ∷ []) (backwards [] s)
    || (starts_with (line_feed ∷ carriage_return ∷ line_feed ∷ carriage_return ∷ [])
          (backwards [] s)
        || is_empty (trim (last_segment (trim_end_matches is_line_end s))))

unfoldable pub ends_with_line_feed : Text → Bool
ends_with_line_feed s = elim (last s) [ none ↦ false | some c ↦ c == line_feed ]

unfoldable pub new_autoexec : Text
new_autoexec =
    codes "// Optional frametime.cfg bootstrap. Keep personal CVars in this file."
    ++ (line_feed
        ∷ (codes
              "// Add a temporary sentinel to prove CS2 executed the line; this does not guarantee precedence."
            ++ (line_feed ∷ (line_feed ∷ last_line))))

abbrev pub with_line_feed : Bool → Text → Text
with_line_feed true s = s
with_line_feed false s = s ++ (line_feed ∷ [])

unfoldable pub ensure_autoexec_line : Text → Text
ensure_autoexec_line existing =
    if any is_optimization_exec (lines existing)
    then existing
    else if is_empty existing
    then new_autoexec
    else with_line_feed (has_blank_final_line existing)
        (with_line_feed (ends_with_line_feed existing) existing)
      ++ last_line

-- The header of the generated file after its second line. A `\` of the file names is written `|` here.
header_lines : List Text
header_lines =
    codes "// Optional autoexec bootstrap; command order can vary with other configs."
    ∷ codes "// Prove the active cfg with a temporary sentinel before relying on it."
    ∷ codes "// Keep personal settings in your own autoexec or separate cfg."
    ∷ codes "//"
    ∷ codes "// Optional standalone CFGs (also in game|csgo|cfg|, use from console as needed):"
    ∷ codes "//   exec net_stable     - buffering None / reset"
    ∷ codes "//   exec net_highping   - buffering None; high RTT cannot be buffered away"
    ∷ codes "//   exec net_unstable   - 1 Packet trial for measured jitter/misses"
    ∷ codes "//   exec net_bad        - 2 Packets only when misses persist at 1"
    ∷ codes "//   exec debug_hud      - temporary telemetry and network diagnostics"
    ∷ codes "//   exec debug_hud_off  - restore normal conditional telemetry"
    ∷ codes "//   exec frame_baseline_400 - restore the configured 400 FPS baseline"
    ∷ codes "//   exec frame_raw_uncapped - raw-latency branch; run before connecting"
    ∷ codes "//   exec audio_stable   - restore Natural EQ and automatic audio"
    ∷ codes "//   exec audio_eq_crisp - optional mid/high emphasis"
    ∷ codes "//   exec audio_eq_smooth - optional reduced mid/high energy"
    ∷ codes "//   exec audio_legacy_lr_isolation - legacy hard L/R trial"
    ∷ codes "//   exec audio_lowlatency_025 - manual larger-buffer compatibility test"
    ∷ codes "//   exec audio_lowlatency_001 - compatibility alias for current defaults"
    ∷ []

with_backslashes : Text → Text
with_backslashes [] = []
with_backslashes (c ∷ s) = (if c == b'|' then 92 else c) ∷ with_backslashes s

with_line_feeds : List Text → Text
with_line_feeds [] = []
with_line_feeds (line ∷ rest) = with_backslashes line ++ (line_feed ∷ with_line_feeds rest)

-- The compiled template, which ends with a line feed.
abbrev pub optimization_template : Text
optimization_template = codes "fps_max 400" ++ (line_feed ∷ [])

unfoldable pub render_optimization_cfg_at : Text → Text
unfolding header_lines with_line_feeds with_backslashes
render_optimization_cfg_at timestamp =
    codes "// frametime.cfg - optimization.cfg"
    ++ (line_feed
        ∷ (codes "// Generated: "
            ++ (timestamp
                ++ (line_feed
                    ∷ (with_line_feeds header_lines ++ (line_feed ∷ optimization_template))))))
