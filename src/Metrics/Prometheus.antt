-- ===== src/Metrics/Prometheus.antt =====
-- What the program uses of prometheus-cpp, as an interface. Values are doubles that are whole numbers.
use repo_init.Base.Doubles.{exact_max}
use repo_init.Base.{[], ℕ, ◌+◌, ◌≤◌, min, max, ◌≡◌, List, ◌∷◌}

pub record Prometheus : Type 1 where
  pub Counter : Type 0
  pub Gauge : Type 0
  pub Summary : Type 0
  pub new_counter : Counter
  pub new_gauge : Gauge
  pub new_summary : Summary
  pub counter_value : Counter → ℕ
  pub increment : ℕ → Counter → Counter
  pub gauge_value : Gauge → ℕ
  pub set_gauge : ℕ → Gauge → Gauge
  pub observations : Summary → List ℕ
  pub observe : ℕ → Summary → Summary

-- The documented behaviour: metrics start at zero or empty, Increment adds, which is exact as long as
-- doubles hold the sum and all numbers below it, Set replaces, and Observe adds an observation.
pub record IsPrometheus (p : Prometheus) : Type 0 where
  pub new_counter_value : p.counter_value p.new_counter ≡ 0
  pub new_gauge_value : p.gauge_value p.new_gauge ≡ 0
  pub new_summary_empty : p.observations p.new_summary ≡ []
  pub increment_value :
      (n : ℕ) (c : p.Counter)
      → p.counter_value c + n ≤ exact_max
      → p.counter_value (p.increment n c) ≡ p.counter_value c + n
  pub set_gauge_value : (v : ℕ) (g : p.Gauge) → p.gauge_value (p.set_gauge v g) ≡ v
  pub observe_adds : (v : ℕ) (s : p.Summary) → p.observations (p.observe v s) ≡ v ∷ p.observations s

-- std::numeric_limits<int>::max(), at which each minimum starts.
abbrev pub int_max : ℕ
int_max = 2_147_483_647

-- The largest and the smallest of some observations, the latter capped at `int_max`.
abbrev pub largest : List ℕ → ℕ
largest [] = 0
largest (v ∷ vs) = max (largest vs) v

abbrev pub smallest : List ℕ → ℕ
smallest [] = int_max
smallest (v ∷ vs) = min (smallest vs) v
