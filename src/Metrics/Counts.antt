-- ===== src/Metrics/Counts.antt =====
-- What the counters, the samples and the queries of
-- packages/bridge-daemon/src/observability/metrics-registry.ts are after any calls.
use junon.Shared.{
  ℕ, zero, suc, ◌+◌, ◌≤◌, String, ◌≡◌, refl, ap, ◌∙◌, Option, none, some, List, [], ◌∷◌, arith,
  ◌==◌, length, length-append, if◌then◌else◌, Bool-cases, inl, inr,
}
use junon.Shared.Maps.{Map, get, get-set}
use junon.Metrics.Data.{
  latency_samples, query_ring, RecentQuery, Metrics, new_metrics, or_zero, or_empty, bump, shift,
  push_sample, add_sample, record_call, record_refusal, record_incomplete, is_blank, take, ring,
  record_query, forget_queries,
}

pub data Call : Type 0 where
  answers : String → Option ℕ → Call
  refuses : String → Option String → Call
  truncates : String → Call
  asks : String → String → ℕ → Call
  forgets : Call

unfoldable pub step : Metrics → Call → Metrics
step s (answers method duration) = record_call method duration s
step s (refuses refusal method) = record_refusal refusal method s
step s (truncates method) = record_incomplete method s
step s (asks query method at) = record_query query method at s
step s forgets = forget_queries s

unfoldable pub run : Metrics → List Call → Metrics
run s [] = s
run s (c ∷ cs) = run (step s c) cs

-- How often a method was answered.
unfoldable pub answered : String → List Call → ℕ
answered method [] = 0
answered method (answers m d ∷ cs) =
    if m == method then suc (answered method cs) else answered method cs
answered method (refuses _ _ ∷ cs) = answered method cs
answered method (truncates _ ∷ cs) = answered method cs
answered method (asks _ _ _ ∷ cs) = answered method cs
answered method (forgets ∷ cs) = answered method cs

or_zero-bump :
    (k j : String) (m : Map ℕ)
    → or_zero (get j (bump k m)) ≡ (if k == j then or_zero (get j m) + 1 else or_zero (get j m))
unfolding bump
or_zero-bump k j m = ground (arith, get-set k j (or_zero (get k m) + 1) m)

run-calls :
    (method : String) (s : Metrics) (cs : List Call)
    → or_zero (get method (run s cs).calls) ≡ or_zero (get method s.calls) + answered method cs
unfolding run step answered record_call record_refusal record_incomplete record_query forget_queries
run-calls method s [] = omega arith
run-calls method s (answers m d ∷ cs) =
    ground (arith, run-calls method (step s (answers m d)) cs, or_zero-bump m method s.calls)
run-calls method s (refuses r m ∷ cs) = ground (arith, run-calls method (step s (refuses r m)) cs)
run-calls method s (truncates m ∷ cs) = ground (arith, run-calls method (step s (truncates m)) cs)
run-calls method s (asks q m t ∷ cs) = ground (arith, run-calls method (step s (asks q m t)) cs)
run-calls method s (forgets ∷ cs) = ground (arith, run-calls method (step s forgets) cs)

-- The count of a method is the number of its answers.
pub run-new_metrics_calls :
    (method : String) (cs : List Call)
    → or_zero (get method (run new_metrics cs).calls) ≡ answered method cs
unfolding get
run-new_metrics_calls method cs = omega (arith, run-calls method new_metrics cs)

-- The queries since the last forgetting, blank ones left out, the newest first, without a limit.
unfoldable pub asked : List RecentQuery → List Call → List RecentQuery
asked qs [] = qs
asked qs (asks q m t ∷ cs) =
    asked (if is_blank q then qs else record { query = q; method = m; at = t } ∷ qs) cs
asked qs (forgets ∷ cs) = asked [] cs
asked qs (answers _ _ ∷ cs) = asked qs cs
asked qs (refuses _ _ ∷ cs) = asked qs cs
asked qs (truncates _ ∷ cs) = asked qs cs

take_short {ℓ} : {A : Type ℓ} (n : ℕ) (xs : List A) → length xs ≤ n → take n xs ≡ xs
unfolding take
take_short zero [] h = refl
take_short zero (x ∷ xs) h = absurd (omega (arith, h))
take_short (suc n) [] h = refl
take_short (suc n) (x ∷ xs) h = ap (λ ys. x ∷ ys) (take_short n xs (omega (arith, h)))

take_more {ℓ} : {A : Type ℓ} (n : ℕ) (xs : List A) → take n (take (suc n) xs) ≡ take n xs
unfolding take
take_more zero xs = refl
take_more (suc n) [] = refl
take_more (suc n) (x ∷ xs) = ap (λ ys. x ∷ ys) (take_more n xs)

ring-take : (qs : List RecentQuery) → ring qs ≡ take query_ring qs
unfolding ring
ring-take qs = ground (arith, take_short query_ring qs)

ring-push :
    (q : RecentQuery) (qs : List RecentQuery)
    → ring (q ∷ take query_ring qs) ≡ take query_ring (q ∷ qs)
unfolding take
ring-push q qs = ring-take (q ∷ take query_ring qs) ∙ ap (λ ys. q ∷ ys) (take_more 49 qs)

run-queries :
    (qs : List RecentQuery) (s : Metrics) (cs : List Call)
    → s.queries ≡ take query_ring qs
    → (run s cs).queries ≡ take query_ring (asked qs cs)
unfolding run step asked record_call record_refusal record_incomplete record_query forget_queries
run-queries qs s [] h = h
run-queries qs s (answers m d ∷ cs) h = run-queries qs (step s (answers m d)) cs h
run-queries qs s (refuses r m ∷ cs) h = run-queries qs (step s (refuses r m)) cs h
run-queries qs s (truncates m ∷ cs) h = run-queries qs (step s (truncates m)) cs h
run-queries qs s (forgets ∷ cs) h = run-queries [] (step s forgets) cs (unfold take in refl)
run-queries qs s (asks q m t ∷ cs) h = elim (Bool-cases (is_blank q)) [
  | inl blank ↦ rw (blank, asked, step, record_query, run) (run-queries qs s cs h)
  | inr text ↦
      let new : RecentQuery = record { query = q; method = m; at = t } in
      let pushed : (step s (asks q m t)).queries ≡ take query_ring (new ∷ qs) =
        rw text (rw h (ring-push new qs)) in
      rw text (run-queries (new ∷ qs) (step s (asks q m t)) cs pushed)
]

-- The queries that are kept are the newest fifty of those that are not blank, since the last time that
-- they were forgotten, the newest first.
pub run-new_metrics_queries :
    (cs : List Call) → (run new_metrics cs).queries ≡ take query_ring (asked [] cs)
unfolding take
run-new_metrics_queries cs = run-queries [] new_metrics cs refl

-- The samples of every method.
abbrev pub IsSampled : Metrics → Type 0
IsSampled s = (k : String) → length (or_empty (get k s.latency)) ≤ latency_samples

length-push_sample :
    (n : ℕ) (ns : List ℕ)
    → length ns ≤ latency_samples
    → length (push_sample n ns) ≤ latency_samples
unfolding push_sample shift
length-push_sample n [] h = omega arith
length-push_sample n (m ∷ ms) h =
    ground (arith, h, length-append ms (n ∷ []), length-append (m ∷ ms) (n ∷ []))

add_sample-bounded :
    (method : String) (d : Option ℕ) (m : Map (List ℕ)) (k : String)
    → ((j : String) → length (or_empty (get j m)) ≤ latency_samples)
    → length (or_empty (get k (add_sample method d m))) ≤ latency_samples
unfolding add_sample
add_sample-bounded method none m k h = h k
add_sample-bounded method (some n) m k h =
    let new = push_sample n (or_empty (get method m)) in
    ground (
      arith,
      get-set method k new m,
      h k,
      length-push_sample n (or_empty (get method m)) (h method),
    )

run-IsSampled : (s : Metrics) (cs : List Call) → IsSampled s → IsSampled (run s cs)
unfolding run step record_call record_refusal record_incomplete record_query forget_queries
run-IsSampled s [] h = h
run-IsSampled s (answers m d ∷ cs) h =
    run-IsSampled (step s (answers m d)) cs (λ k. add_sample-bounded m d s.latency k h)
run-IsSampled s (refuses r m ∷ cs) h = run-IsSampled (step s (refuses r m)) cs h
run-IsSampled s (truncates m ∷ cs) h = run-IsSampled (step s (truncates m)) cs h
run-IsSampled s (asks q m t ∷ cs) h =
    run-IsSampled (step s (asks q m t)) cs (λ k. ground (arith, h k))
run-IsSampled s (forgets ∷ cs) h = run-IsSampled (step s forgets) cs h

-- No method keeps more than 256 samples of its durations, after any calls.
pub run-new_metrics-IsSampled :
    (cs : List Call) (method : String)
    → length (or_empty (get method (run new_metrics cs).latency)) ≤ latency_samples
unfolding get
run-new_metrics-IsSampled cs method = run-IsSampled new_metrics cs (λ k. omega arith) method
