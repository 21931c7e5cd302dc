-- ===== src/Witnesses/Histories.antt =====
-- A benchmark history that is full, and two records more.
use cs2_opt.Prelude.{ℕ, zero, suc, ◌≤◌, ◌≡◌, List, [], ◌∷◌, ◌++◌, length, arith}
use cs2_opt.Benchmark.Receipt.{max_benchmark_history}
use cs2_opt.Benchmark.Retention.{append_all, newest, append_all_bounded}

abbrev count_down : ℕ → List ℕ
count_down zero = []
count_down (suc n) = n ∷ count_down n

abbrev full : List ℕ
full = count_down 200

abbrev later : List ℕ
later = 7 ∷ 8 ∷ []

full_fits : length full ≤ max_benchmark_history
full_fits = omega arith

append_all_bounded_example :
    (append_all full later ≡ newest (full ++ later))
    × (length (append_all full later) ≤ max_benchmark_history)
append_all_bounded_example = append_all_bounded full later full_fits
