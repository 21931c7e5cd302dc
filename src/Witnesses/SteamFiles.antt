-- ===== src/Witnesses/SteamFiles.antt =====
-- Steam's text files, each property at one input.
use cs2_opt.Prelude.{◌≡◌, refl, Bool, true, ◌&&◌, [], ◌∷◌, some, ok, Result, arith, ltb}
use cs2_opt.Prelude.Text.{Text, codes, text_eq, text_eq}
use cs2_opt.Steam.Parser.{
  VdfObject, string, object, nil, entry, parse_vdf, app_manifest_is_cs2, get, get,
}
use cs2_opt.Steam.Printing.{render, IsOrdered, IsPlain, print_object}
use cs2_opt.Steam.Lexer.{SteamError}
use cs2_opt.Steam.Totality.{parse_vdf-Returns}
use cs2_opt.Steam.RoundTrip.{parse_vdf-render}

is_plain : Text → Bool
is_plain [] = true
is_plain (c ∷ t) = ltb 0 c && (ltb c 128 && is_plain t)

plain_lem : (t : Text) → is_plain t ≡ true → IsPlain t
unfolding is_plain
plain_lem [] h = tt
plain_lem (c ∷ t) h = ground (arith, plain_lem t)

abbrev manifest : VdfObject
manifest = entry (codes "AppState") (object (entry (codes "appid") (string (codes "730")) nil)) nil

manifest-IsOrdered : IsOrdered manifest
unfolding IsOrdered is_plain
manifest-IsOrdered = (
  plain_lem (codes "AppState") refl,
  tt,
  (plain_lem (codes "appid") refl, tt, plain_lem (codes "730") refl, tt),
  tt,
)

parse_vdf-render_example : parse_vdf (render (print_object manifest)) ≡ some (ok manifest)
parse_vdf-render_example = parse_vdf-render manifest manifest-IsOrdered

parse_vdf-Returns_example : (r : Result SteamError VdfObject) × (parse_vdf (codes "{") ≡ some r)
parse_vdf-Returns_example = parse_vdf-Returns (codes "{")

-- The source's own test.
manifest_is_recognized : app_manifest_is_cs2 (render (print_object manifest)) ≡ true
unfolding app_manifest_is_cs2 get text_eq
manifest_is_recognized = rw parse_vdf-render_example refl
