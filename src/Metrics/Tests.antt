-- ===== src/Metrics/Tests.antt =====
-- A few calls, and the theorems at them.
use junon.Shared.{◌≡◌, refl, some, none, List, [], ◌∷◌, text_discrete}
use junon.Metrics.Data.{query_ring, new_metrics, take}
use junon.Metrics.Counts.{
  Call, answers, refuses, asks, forgets, run, answered, asked, run-new_metrics_queries,
}

abbrev calls : List Call
calls =
    asks "old" "symbol/find" 1
    ∷ forgets
    ∷ answers "symbol/find" (some 12)
    ∷ asks "  " "symbol/find" 2
    ∷ answers "symbol/find" none
    ∷ refuses "TIMEOUT" none
    ∷ asks "new" "symbol/find" 3
    ∷ []

twice : answered "symbol/find" calls ≡ 2
unfolding answered text_discrete
twice = refl

run-new_metrics_queries_example : (run new_metrics calls).queries ≡ take query_ring (asked [] calls)
run-new_metrics_queries_example = run-new_metrics_queries calls
