-- ===== src/Benchmark/Retention.antt =====
-- What a run of appends leaves in the bounded history of crates/frametime-domain/src/benchmark.rs.
use cs2_opt.Prelude.{
  ℕ, zero, suc, ◌+◌, ◌-◌, ◌≤◌, ◌≡◌, ◌∙◌, refl, sym, ap, arith, List, [], ◌∷◌, ◌++◌, length,
  length-append, drop, drop-append, length-drop,
}
use mathlib.Core.List.{append_assoc, append-nil}
use cs2_opt.Benchmark.Receipt.{max_benchmark_history}
use cs2_opt.Benchmark.History.{append_benchmark_record, append_benchmark_record_lem, older_kept}

module _ {A : Type 0} where
  unfoldable pub append_all : List A → List A → List A
  append_all history [] = history
  append_all history (item ∷ items) = append_all (append_benchmark_record history item) items

  -- The newest entries of a list, as many as are kept.
  abbrev pub newest : List A → List A
  newest xs = drop (length xs - max_benchmark_history) xs

  drop_nil : (n : ℕ) → drop {A = A} n [] ≡ []
  unfolding drop
  drop_nil zero = refl
  drop_nil (suc n) = refl

  drop-drop : (m n : ℕ) (xs : List A) → drop m (drop n xs) ≡ drop (n + m) xs
  unfolding drop
  drop-drop m zero xs = ap (λ k. drop k xs) (omega arith)
  drop-drop m (suc n) [] = drop_nil m ∙ sym (drop_nil (suc n + m))
  drop-drop m (suc n) (x ∷ xs) =
      drop-drop m n xs ∙ ap (λ k. drop k (x ∷ xs)) {x = suc (n + m)} (omega arith)

  length-newest : (xs : List A) → length (newest xs) ≤ max_benchmark_history
  length-newest xs = omega (arith, length-drop (length xs - max_benchmark_history) xs)

  append_all-newest :
      (history items : List A)
      → length history ≤ max_benchmark_history
      → append_all history items ≡ newest (history ++ items)
  unfolding append_all drop
  append_all-newest history [] h =
      let fits : length history - max_benchmark_history ≡ 0 = omega (arith, h) in
      rw append-nil (rw fits refl)
  append_all-newest history (item ∷ items) h =
      let old : ℕ = length history + 1 - max_benchmark_history in
      let all : List A = history ++ item ∷ items in
      let kept : List A = append_benchmark_record history item in
      let made : kept ≡ older_kept history ++ item ∷ [] =
        append_benchmark_record_lem history item in
      let bound : length kept ≤ max_benchmark_history = rw made (
        rw (length-append (older_kept history) (item ∷ []), length-drop old history)
          (omega (arith, h))) in
      let shift : kept ++ items ≡ drop old all =
        ap (λ xs. xs ++ items) made
        ∙ append_assoc (older_kept history) (item ∷ []) items
        ∙ sym (drop-append old history (item ∷ items) (omega (arith, h))) in
      let count : old + (length all - old - max_benchmark_history)
          ≡ length all - max_benchmark_history =
        rw (length-append history (item ∷ items)) (omega (arith, h)) in
      append_all-newest kept items bound
      ∙ ap newest shift
      ∙ rw (length-drop old all) (
          drop-drop (length all - old - max_benchmark_history) old all ∙ ap (λ k. drop k all) count)

  -- A history that is within its bound holds exactly the newest of its records and of those that are
  -- appended one after another, and stays within its bound.
  pub append_all_bounded :
      (history items : List A)
      → length history ≤ max_benchmark_history
      → (append_all history items ≡ newest (history ++ items))
        × (length (append_all history items) ≤ max_benchmark_history)
  append_all_bounded history items h =
      let e = append_all-newest history items h in (e, rw e (length-newest (history ++ items)))
