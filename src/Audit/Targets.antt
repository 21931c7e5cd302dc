-- ===== src/Audit/Targets.antt =====
-- The order of the target list of a rebuildable audit: crates/frametime-domain/src/audit.rs.
use mathlib.Core.List.{append-nil, append_assoc}
use mathlib.Core.Path.{subst}
use cs2_opt.Prelude.{
  ◌∙◌, ◌++◌, suc, sym, is_empty, ◌==◌, ℕ, ◌<◌, ◌≡◌, refl, ◌↔◌, true, false, List, [], ◌∷◌, arith,
  ◌++◌, suc, is_empty, ◌==◌, sym,
}
use cs2_opt.Audit.Rebuildable.{
  targets_are_unique_and_nonempty, RebuildableTarget, insert_target, deduplicate_from,
  deduplicated_targets, target_rank, targets_eq,
}

-- Targets in strictly rising order, the first above a bound.
abbrev RisesFrom : ℕ → List RebuildableTarget → Type 0
RisesFrom n [] = Unit {0}
RisesFrom n (t ∷ ts) = (n < suc (target_rank t)) × RisesFrom (suc (target_rank t)) ts

abbrev pub IsRising : List RebuildableTarget → Type 0
IsRising ts = RisesFrom 0 ts

insert-RisesFrom :
    (n : ℕ) (t : RebuildableTarget) (ts : List RebuildableTarget)
    → n < suc (target_rank t)
    → RisesFrom n ts
    → RisesFrom n (insert_target t ts)
unfolding insert_target
insert-RisesFrom n t [] h r = ground arith
insert-RisesFrom n t (u ∷ us) h r = ground (arith, insert-RisesFrom (suc (target_rank u)) t us)

deduplicate_from-IsRising :
    (known ts : List RebuildableTarget) → IsRising known → IsRising (deduplicate_from known ts)
unfolding deduplicate_from
deduplicate_from-IsRising known [] r = r
deduplicate_from-IsRising known (t ∷ ts) r =
    deduplicate_from-IsRising (insert_target t known) ts
      (insert-RisesFrom 0 t known (omega arith) r)

rises_bound :
    (n : ℕ) (known : List RebuildableTarget) (t : RebuildableTarget) (ts : List RebuildableTarget)
    → RisesFrom n (known ++ t ∷ ts)
    → n < suc (target_rank t)
rises_bound n [] t ts r = r.0
rises_bound n (u ∷ us) t ts r = omega (arith, rises_bound (suc (target_rank u)) us t ts r.1, r.0)

insert_last :
    (n : ℕ) (known : List RebuildableTarget) (t : RebuildableTarget) (ts : List RebuildableTarget)
    → RisesFrom n (known ++ t ∷ ts)
    → insert_target t known ≡ known ++ t ∷ []
unfolding insert_target
insert_last n [] t ts r = refl
insert_last n (u ∷ us) t ts r = ground (
  arith,
  rises_bound (suc (target_rank u)) us t ts r.1,
  insert_last (suc (target_rank u)) us t ts r.1,
)

-- A list that rises is not changed.
deduplicate_from_rising :
    (known ts : List RebuildableTarget)
    → IsRising (known ++ ts)
    → deduplicate_from known ts ≡ known ++ ts
unfolding deduplicate_from
deduplicate_from_rising known [] r = simp append-nil
deduplicate_from_rising known (t ∷ ts) r =
    let shift = append_assoc known (t ∷ []) ts in
    rw (insert_last 0 known t ts r)
      (deduplicate_from_rising (known ++ t ∷ []) ts (rw shift r) ∙ shift)

target_rank_iff : (a b : RebuildableTarget) → (target_rank a == target_rank b ≡ true) ↔ (a ≡ b)
target_rank_iff a b = ground arith

targets_eq_iff : (a b : List RebuildableTarget) → (targets_eq a b ≡ true) ↔ (a ≡ b)
unfolding targets_eq
targets_eq_iff [] [] = ground arith
targets_eq_iff [] (y ∷ ys) = ground arith
targets_eq_iff (x ∷ xs) [] = ground arith
targets_eq_iff (x ∷ xs) (y ∷ ys) = ground (arith, target_rank_iff x y, targets_eq_iff xs ys)

-- An audit names its targets in the canonical form exactly if there are some and they rise strictly
-- in the order of the enumeration; what `deduplicated_targets` returns always rises.
pub targets_are_unique_and_nonempty_iff :
    (ts : List RebuildableTarget)
    → ((targets_are_unique_and_nonempty ts ≡ true) ↔ ((is_empty ts ≡ false) × IsRising ts))
      × IsRising (deduplicated_targets ts)
unfolding targets_are_unique_and_nonempty deduplicated_targets
targets_are_unique_and_nonempty_iff ts = ((accepted, listed), rising)
  where
    rising : IsRising (deduplicate_from [] ts)
    rising = deduplicate_from-IsRising [] ts tt

    accepted : targets_are_unique_and_nonempty ts ≡ true → (is_empty ts ≡ false) × IsRising ts
    accepted h = (
      ground arith,
      subst IsRising (sym ((targets_eq_iff ts (deduplicate_from [] ts)).0 (ground arith))) rising,
    )

    listed : (is_empty ts ≡ false) × IsRising ts → targets_are_unique_and_nonempty ts ≡ true
    listed (n, r) = rw (deduplicate_from_rising [] ts r, n) ((targets_eq_iff ts ts).1 refl)
