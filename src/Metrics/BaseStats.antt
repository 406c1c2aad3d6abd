-- ===== src/Metrics/BaseStats.antt =====
-- src/utils/BaseServerStats.cpp: the command counters and the processing times of a server.
use repo_init.Base.{
  ℕ, ◌+◌, ◌≤◌, min, max, ◌≡◌, ap, inl, inr, arith, ltb, if◌then◌else◌, Bool-cases, add_size,
}
use repo_init.Base.Doubles.{exact_max, to_double, to_double-exact}
use repo_init.Metrics.Prometheus.{Prometheus, IsPrometheus, int_max, largest, smallest}

pub record BaseServerStats (p : Prometheus) : Type 0 where
  pub succeeded_command : p.Counter
  pub failed_command : p.Counter
  pub total_command : p.Counter
  pub processing_time : p.Summary
  pub max_processing_time : p.Gauge
  pub min_processing_time : p.Gauge

module _ (p : Prometheus) where
  open p use {
    new_counter, new_gauge, new_summary, counter_value, increment, gauge_value, set_gauge,
    observations, observe,
  }

  unfoldable pub init_base_stats : BaseServerStats p
  init_base_stats = record {
    succeeded_command = new_counter;
    failed_command = new_counter;
    total_command = new_counter;
    processing_time = new_summary;
    max_processing_time = new_gauge;
    min_processing_time = set_gauge int_max new_gauge;
  }

  -- Processing times are doubles, in ticks; zero says that none was taken.
  unfoldable pub observe_time : BaseServerStats p → ℕ → BaseServerStats p
  observe_time b time =
      if ltb 0 time
      then record b {
        processing_time = observe time b.processing_time;
        max_processing_time =
            set_gauge (max (gauge_value b.max_processing_time) time) b.max_processing_time;
        min_processing_time =
            set_gauge (min (gauge_value b.min_processing_time) time) b.min_processing_time;
      }
      else b

  unfoldable pub consume_base_stats : BaseServerStats p → ℕ → ℕ → ℕ → BaseServerStats p
  unfolding observe_time
  consume_base_stats b succeeded failed time =
      observe_time
        (record b {
          succeeded_command = increment (to_double succeeded) b.succeeded_command;
          failed_command = increment (to_double failed) b.failed_command;
          total_command = increment (to_double (add_size succeeded failed)) b.total_command;
        })
        time

  -- The total is the sum of the other two counters, and the gauges hold the largest and the smallest
  -- of the times observed.
  pub record IsConsistent (b : BaseServerStats p) : Type 0 where
    pub total :
        counter_value b.total_command
        ≡ counter_value b.succeeded_command + counter_value b.failed_command
    pub greatest : gauge_value b.max_processing_time ≡ largest (observations b.processing_time)
    pub least : gauge_value b.min_processing_time ≡ smallest (observations b.processing_time)

  module _ (laws : IsPrometheus p) where
    pub init_base_stats-IsConsistent : IsConsistent init_base_stats
    unfolding init_base_stats
    init_base_stats-IsConsistent = record {
      total = omega (arith, laws.new_counter_value);
      greatest = rw laws.new_summary_empty laws.new_gauge_value;
      least = rw laws.new_summary_empty (laws.set_gauge_value int_max new_gauge);
    }

    observe_time-IsConsistent :
        (b : BaseServerStats p) (time : ℕ) → IsConsistent b → IsConsistent (observe_time b time)
    unfolding observe_time
    observe_time-IsConsistent b time v = elim (Bool-cases (ltb 0 time)) [
      | inr n ↦ rw n v
      | inl y ↦ rw y (record {
        total = v.total;
        greatest = rw (laws.set_gauge_value, laws.observe_adds) (ap (λ m. max m time) v.greatest);
        least = rw (laws.set_gauge_value, laws.observe_adds) (ap (λ m. min m time) v.least);
      })
    ]

    -- Consuming keeps the statistics consistent, as long as doubles hold the total with both counts and
    -- all numbers below it.
    pub consume_base_stats-IsConsistent :
        (b : BaseServerStats p) (succeeded failed time : ℕ)
        → counter_value b.total_command + (succeeded + failed) ≤ exact_max
        → IsConsistent b
        → IsConsistent (consume_base_stats b succeeded failed time)
    unfolding consume_base_stats
    consume_base_stats-IsConsistent b succeeded failed time h v =
        let whole : add_size succeeded failed ≡ succeeded + failed = omega (arith, h) in
        let s = to_double-exact succeeded (omega (arith, h)) in
        let f = to_double-exact failed (omega (arith, h)) in
        let t = to_double-exact (succeeded + failed) (omega (arith, h)) in
        let good = laws.increment_value succeeded b.succeeded_command (omega (arith, h, v.total)) in
        let bad = laws.increment_value failed b.failed_command (omega (arith, h, v.total)) in
        let all = laws.increment_value (succeeded + failed) b.total_command h in
        observe_time-IsConsistent _ time (record {
          total = rw (whole, s, f, t) (omega (arith, good, bad, all, v.total));
          greatest = v.greatest;
          least = v.least;
        })
