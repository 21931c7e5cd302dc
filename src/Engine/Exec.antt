-- ===== src/Engine/Exec.antt =====
-- Methods of crates/frametime-domain/src/engine.rs: they read and write the world and may fail. What was written before a
-- failure stays written, so the world comes back beside the error too.
use cs2_opt.Prelude.{Bool, true, false, [], ◌∷◌, ◌++◌, Result, ok, err, String}
use cs2_opt.Progress.{Progress}
use cs2_opt.Engine.Defs.{Event, EngineError, Call, World}

abbrev pub Exec : Type 0 → Type 0 → Type 0 → Type 0
Exec S V A = World S V → Result EngineError A × World S V

module _ {A : Type 0} where
  abbrev pub map_err : (String → EngineError) → Result String A → Result EngineError A
  map_err wrap (ok a) = ok a
  map_err wrap (err message) = err (wrap message)

module _ {S V A B : Type 0} where
  abbrev pub continue : Result EngineError A → (A → Exec S V B) → Exec S V B
  continue (ok a) f w = f a w
  continue (err e) f w = (err e, w)

  infixl 5 ◌>>=◌
  abbrev pub ◌>>=◌ : Exec S V A → (A → Exec S V B) → Exec S V B
  ◌>>=◌ m f w = let (r, w') = m w in continue r f w'

module _ {S V B : Type 0} where
  infixl 5 ◌>>◌
  abbrev pub ◌>>◌ : Exec S V (Unit {0}) → Exec S V B → Exec S V B
  m >> k = m >>= λ _. k

module _ {S V A : Type 0} where
  abbrev pub pure : A → Exec S V A
  pure a w = (ok a, w)

  abbrev pub raise : EngineError → Exec S V A
  raise e w = (err e, w)

  -- `self.backend.f(…).map_err(…)?`
  abbrev pub call : Call S A → (String → EngineError) → Exec S V A
  call f wrap w = let (r, s) = f w.outside in (map_err wrap r, record w { outside = s })

  -- A callback or a clock that cannot fail.
  abbrev pub ask : (S → A × S) → Exec S V A
  ask f w = let (a, s) = f w.outside in (ok a, record w { outside = s })

module _ {S V : Type 0} where
  -- `report.events.push(…)`
  abbrev pub event : Event → Exec S V (Unit {0})
  event e w = (ok tt, record w { report = record w.report { events = w.report.events ++ e ∷ [] } })

  abbrev pub set_progress : Progress V → Exec S V (Unit {0})
  set_progress p w = (ok tt, record w { progress = p })

  abbrev pub check : Bool → EngineError → Exec S V (Unit {0})
  check true e w = (ok tt, w)
  check false e w = (err e, w)
