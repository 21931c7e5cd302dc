-- ===== src/Catalog/Schedule.antt =====
-- The table of actions of crates/frametime-domain/src/catalog.rs, as its clients read it.
use mathlib.Core.Path.{subst}
use cs2_opt.Prelude.{◌≡◌, refl, ◌↔◌, Bool, true, not, ◌&&◌, some, arith, ltb, ◌||◌, all, find}
use cs2_opt.Prelude.Members.{In, all-In, find-In, distinct_by, find-distinct}
use cs2_opt.Catalog.Ids.{StepId, step_id_eq, step_id_eq_iff, IsStepNumber}
use cs2_opt.Catalog.Kinds.{is_mutating}
use cs2_opt.Catalog.Steps.{Step, step_catalog, step_by_id}

abbrev same_id : Step → Step → Bool
same_id a b = step_id_eq a.id b.id

step_catalog_distinct : distinct_by same_id step_catalog ≡ true
unfolding distinct_by step_catalog
step_catalog_distinct = refl

-- Looking up an identity finds exactly the row of the table that carries it.
pub step_by_id_iff :
    (id : StepId) (s : Step) → (step_by_id id ≡ some s) ↔ (In s step_catalog × (s.id ≡ id))
unfolding step_by_id
step_by_id_iff id s = (found, listed)
  where
    found :
        find (λ (t : Step). step_id_eq t.id id) step_catalog ≡ some s
        → In s step_catalog × (s.id ≡ id)
    found h =
        let (m, e) = find-In (λ (t : Step). step_id_eq t.id id) step_catalog s h in
        (m, (step_id_eq_iff s.id id).0 e)

    listed :
        In s step_catalog × (s.id ≡ id)
        → find (λ (t : Step). step_id_eq t.id id) step_catalog ≡ some s
    listed (m, e) =
        subst (λ i. find (λ (t : Step). step_id_eq t.id i) step_catalog ≡ some s) e
          (find-distinct same_id step_catalog s ((step_id_eq_iff s.id s.id).1 refl)
            step_catalog_distinct m)

abbrev well_typed_row : Step → Bool
well_typed_row s =
    (ltb 0 s.id.number && ltb s.id.number 256)
    && (is_mutating s.intent && not s.check_only || not (is_mutating s.intent) && s.check_only)

step_catalog_rows : all well_typed_row step_catalog ≡ true
unfolding all step_catalog
step_catalog_rows = refl

-- Every row has a number that a key can name, and is check-only exactly if its intent does not
-- change the machine.
pub step_catalog_check_only :
    (s : Step)
    → In s step_catalog
    → IsStepNumber s.id.number × (s.check_only ≡ not (is_mutating s.intent))
step_catalog_check_only s m =
    ground (arith, all-In well_typed_row step_catalog {a = s} step_catalog_rows m)
