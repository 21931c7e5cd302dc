-- ===== src/Engine/Kept.antt =====
-- Invariants of the progress and the conversation of an engine: crates/frametime-domain/src/engine.rs.
use cs2_opt.Prelude.{◌≡◌, List, ◌∷◌, ok, err, String, Bool, true, false}
use cs2_opt.Progress.{Progress}
use cs2_opt.Progress.Resolution.{Mark, mark}
use cs2_opt.Catalog.Ids.{StepId}
use cs2_opt.Engine.Defs.{Operation, Backend}
use cs2_opt.Engine.Log.{Entry, applied, Answer, progress_saved}
use cs2_opt.Engine.Guarded.{Secured}
use cs2_opt.Engine.Triple.{Condition}

-- Neither an attempt to apply nor one to write progress.
abbrev pub is_ordinary : {V B R : Type 0} → Entry V B R → Bool
is_ordinary (applied _ _) = false
is_ordinary (progress_saved _ _) = false
is_ordinary _ = true

-- An invariant of progress and conversation that each kind of call keeps, `apply` when secured.
pub record Kept {S V B R : Type 0} (b : Backend S V B R) : Type 1 where
  pub Inv : Condition V (Entry V B R)
  pub ordinary :
      (e : Entry V B R)
      → is_ordinary e ≡ true
      → (q : Progress V) (log : List (Entry V B R)) → Inv q log
      → Inv q (e ∷ log)
  pub applying :
      (op : Operation) (r : Answer) (q : Progress V) (log : List (Entry V B R))
      → Secured (b.recovery_requirement op) op log
      → Inv q log
      → Inv q (applied op r ∷ log)
  pub committing :
      (q : Progress V) (id : StepId) (m : Mark) (log : List (Entry V B R))
      → Inv q log
      → Inv (mark q id m) (progress_saved (mark q id m) (ok tt) ∷ log)
  pub not_committing :
      (p q : Progress V) (m : String) (log : List (Entry V B R))
      → Inv q log
      → Inv q (progress_saved p (err m) ∷ log)
