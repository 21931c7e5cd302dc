-- ===== src/Steam/Parser.antt =====
-- `parse_vdf` of crates/frametime-domain/src/steam.rs and what is read from the parsed files. What is
-- left of the tokens stands for the cursor.
use cs2_opt.Prelude.{
  ℕ, zero, suc, Bool, true, false, List, [], ◌∷◌, Option, none, some, length, Result, ok, err,
  if◌then◌else◌,
}
use cs2_opt.Prelude.Text.{Text, codes, text_eq, text_lt}
use cs2_opt.Steam.Lexer.{
  SteamError, invalid_vdf, duplicate_key, VdfToken, text, open_brace, close_brace, Bounded, tokens,
}

-- `BTreeMap<String, VdfValue>`: the entries rise strictly by their keys.
mutual
  pub data VdfValue : Type 0 where
    string : Text → VdfValue
    object : VdfObject → VdfValue

  pub data VdfObject : Type 0 where
    nil : VdfObject
    entry : Text → VdfValue → VdfObject → VdfObject

unfoldable pub get : Text → VdfObject → Option VdfValue
get key nil = none
get key (entry k v o) = if text_eq k key then some v else get key o

-- An insertion in the order of the keys; `none` if the key is there.
abbrev entered : Text → VdfValue → Option VdfObject → Option VdfObject
entered k v none = none
entered k v (some o) = some (entry k v o)

unfoldable pub insert_entry : Text → VdfValue → VdfObject → Option VdfObject
insert_entry key value nil = some (entry key value nil)
insert_entry key value (entry k v o) =
    let later = insert_entry key value o in
    if text_eq k key
    then none
    else if text_lt key k
    then some (entry key value (entry k v o))
    else entered k v later

-- A parsed object and the tokens after it.
abbrev pub Parsed : Type 0
Parsed = Bounded (VdfObject × List VdfToken)

abbrev pub inserted : Text → VdfValue → VdfObject → Result SteamError VdfObject
inserted key value o = elim (insert_entry key value o) [
  | none ↦ err (duplicate_key key)
  | some o' ↦ ok o'
]

-- The rest of the loop, after a value was read.
abbrev pub parse_rest :
    (VdfObject → List VdfToken → Parsed) → Result SteamError VdfObject → List VdfToken → Parsed
parse_rest again (err e) ts = some (err e)
parse_rest again (ok o) ts = again o ts

abbrev pub parse_nested : (VdfObject → List VdfToken → Parsed) → Text → VdfObject → Parsed → Parsed
parse_nested again key o none = none
parse_nested again key o (some (err e)) = some (err e)
parse_nested again key o (some (ok (value, ts))) =
    parse_rest again (inserted key (object value) o) ts

-- The loop of `parse_object`, with the entries so far.
unfoldable pub parse_object : ℕ → Bool → VdfObject → List VdfToken → Parsed
parse_object zero expect_close o ts = none
parse_object (suc fuel) true o [] = some (err (invalid_vdf "unclosed VDF object"))
parse_object (suc fuel) false o [] = some (ok (o, []))
parse_object (suc fuel) true o (close_brace ∷ ts) = some (ok (o, ts))
parse_object (suc fuel) false o (close_brace ∷ ts) =
    some (err (invalid_vdf "unexpected VDF close brace"))
parse_object (suc fuel) expect_close o (open_brace ∷ ts) =
    some (err (invalid_vdf "VDF key must be quoted"))
parse_object (suc fuel) expect_close o (text key ∷ []) =
    some (err (invalid_vdf "VDF key has no value"))
parse_object (suc fuel) expect_close o (text key ∷ close_brace ∷ ts) =
    some (err (invalid_vdf "VDF key has no value"))
parse_object (suc fuel) expect_close o (text key ∷ text value ∷ ts) =
    parse_rest (λ o' ts'. parse_object fuel expect_close o' ts') (inserted key (string value) o) ts
parse_object (suc fuel) expect_close o (text key ∷ open_brace ∷ ts) =
    parse_nested (λ o' ts'. parse_object fuel expect_close o' ts') key o
      (parse_object fuel true nil ts)

abbrev pub whole_object : Parsed → Bounded VdfObject
whole_object none = none
whole_object (some (err e)) = some (err e)
whole_object (some (ok (o, []))) = some (ok o)
whole_object (some (ok (o, t ∷ ts))) = some (err (invalid_vdf "trailing VDF tokens"))

abbrev pub parse_tokens : Bounded (List VdfToken) → Bounded VdfObject
parse_tokens none = none
parse_tokens (some (err e)) = some (err e)
parse_tokens (some (ok ts)) = whole_object (parse_object (suc (length ts)) false nil ts)

unfoldable pub parse_vdf : Text → Bounded VdfObject
parse_vdf source = parse_tokens (tokens source)

path_of : Option VdfValue → List Text → List Text
path_of (some (string path)) rest = path ∷ rest
path_of _ rest = rest

library_path : VdfValue → List Text → List Text
library_path (string path) rest = path ∷ rest
library_path (object fields) rest = path_of (get (codes "path") fields) rest

paths_of : VdfObject → List Text
paths_of nil = []
paths_of (entry k v o) = library_path v (paths_of o)

libraries_of : Option VdfValue → List Text
libraries_of (some (object libraries)) = paths_of libraries
libraries_of _ = []

library_paths : Bounded VdfObject → Bounded (List Text)
library_paths none = none
library_paths (some (err e)) = some (err e)
library_paths (some (ok root)) = some (ok (libraries_of (get (codes "libraryfolders") root)))

unfoldable pub library_paths_from_vdf : Text → Bounded (List Text)
unfolding library_paths libraries_of paths_of library_path path_of
library_paths_from_vdf source = library_paths (parse_vdf source)

abbrev pub cs2_app_id : Text
cs2_app_id = codes "730"

is_cs2_id : Option VdfValue → Bool
is_cs2_id (some (string value)) = text_eq value cs2_app_id
is_cs2_id _ = false

is_cs2_state : Option VdfValue → Bool
is_cs2_state (some (object app_state)) = is_cs2_id (get (codes "appid") app_state)
is_cs2_state _ = false

-- Whatever is not read is no manifest of the game.
is_cs2_root : Bounded VdfObject → Bool
is_cs2_root (some (ok root)) = is_cs2_state (get (codes "AppState") root)
is_cs2_root _ = false

unfoldable pub app_manifest_is_cs2 : Text → Bool
unfolding is_cs2_root is_cs2_state is_cs2_id
app_manifest_is_cs2 source = is_cs2_root (parse_vdf source)
