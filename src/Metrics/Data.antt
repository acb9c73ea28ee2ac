-- ===== src/Metrics/Data.antt =====
-- `MetricsRegistry` of packages/bridge-daemon/src/observability/metrics-registry.ts. A duration is `none`
-- where it is not finite or is negative, and a natural number of the clock's units otherwise.
use Prim.Native.Char.{code}
use junon.Shared.{
  ℕ, zero, suc, ◌+◌, String, Bool, true, ◌&&◌, ◌||◌, Option, none, some, List, [], ◌∷◌, ◌++◌, leb,
  ltb, eqb, length, if◌then◌else◌,
}
use junon.Shared.Maps.{Map, get, set}

abbrev pub latency_samples : ℕ
latency_samples = 256

abbrev pub query_ring : ℕ
query_ring = 50

pub record RecentQuery : Type 0 where
  pub query : String
  pub method : String
  pub at : ℕ

pub record Metrics : Type 0 where
  pub calls : Map ℕ
  pub refusals_by_method : Map ℕ
  pub refusals_by_code : Map ℕ
  pub incomplete : Map ℕ
  pub latency : Map (List ℕ)
  pub queries : List RecentQuery

abbrev pub new_metrics : Metrics
new_metrics = record {
  calls = [];
  refusals_by_method = [];
  refusals_by_code = [];
  incomplete = [];
  latency = [];
  queries = [];
}

-- `value ?? 0`
abbrev pub or_zero : Option ℕ → ℕ
or_zero none = 0
or_zero (some n) = n

abbrev pub or_empty : Option (List ℕ) → List ℕ
or_empty none = []
or_empty (some ns) = ns

-- `map.set(key, (map.get(key) ?? 0) + 1)`
unfoldable pub bump : String → Map ℕ → Map ℕ
bump k m = set k (or_zero (get k m) + 1) m

-- `samples.shift()`
unfoldable pub shift : List ℕ → List ℕ
shift [] = []
shift (n ∷ ns) = ns

unfoldable pub push_sample : ℕ → List ℕ → List ℕ
push_sample n samples =
    (if leb latency_samples (length samples) then shift samples else samples) ++ (n ∷ [])

unfoldable pub add_sample : String → Option ℕ → Map (List ℕ) → Map (List ℕ)
add_sample method none m = m
add_sample method (some n) m = set method (push_sample n (or_empty (get method m))) m

unfoldable pub record_call : String → Option ℕ → Metrics → Metrics
record_call method duration s = record s {
  calls = bump method s.calls;
  latency = add_sample method duration s.latency;
}

unfoldable pub bump_if : Option String → Map ℕ → Map ℕ
bump_if none m = m
bump_if (some k) m = bump k m

unfoldable pub record_refusal : String → Option String → Metrics → Metrics
record_refusal refusal method s = record s {
  refusals_by_code = bump refusal s.refusals_by_code;
  refusals_by_method = bump_if method s.refusals_by_method;
}

unfoldable pub record_incomplete : String → Metrics → Metrics
record_incomplete method s = record s { incomplete = bump method s.incomplete }

-- The characters that `trim` takes away.
is_white : ℕ → Bool
is_white c =
    leb 9 c && leb c 13
    || eqb c 32
    || eqb c 160
    || eqb c 5760
    || leb 8192 c && leb c 8202
    || eqb c 8232
    || eqb c 8233
    || eqb c 8239
    || eqb c 8287
    || eqb c 12288
    || eqb c 65279

-- `query.trim().length === 0`
unfoldable pub is_blank : String → Bool
unfolding is_white
is_blank String.[] = true
is_blank (String.◌∷◌ c s) = is_white (code c) && is_blank s

-- `xs.slice(0, n)`
unfoldable pub take {ℓ} : {A : Type ℓ} → ℕ → List A → List A
take zero xs = []
take (suc n) [] = []
take (suc n) (x ∷ xs) = x ∷ take n xs

unfoldable pub ring : List RecentQuery → List RecentQuery
ring queries = if ltb query_ring (length queries) then take query_ring queries else queries

unfoldable pub record_query : String → String → ℕ → Metrics → Metrics
record_query query method at s = if is_blank query then s else record s {
  queries = ring (record { query = query; method = method; at = at } ∷ s.queries);
}

unfoldable pub forget_queries : Metrics → Metrics
forget_queries s = record s { queries = [] }
