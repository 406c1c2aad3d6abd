-- ===== src/Metrics/Trackers.antt =====
-- src/metrics/Performance.cpp: the timing of a piece of code.
use repo_init.Base.{[], ℕ, ◌-◌, ◌≡◌, List, ◌∷◌, arith, ltb, if◌then◌else◌}
use repo_init.Base.Doubles.{to_double}
use repo_init.Metrics.Prometheus.{Prometheus, IsPrometheus, int_max, largest, smallest}

pub record PerformanceTracker (p : Prometheus) : Type 0 where
  pub start_time : ℕ
  pub perf_timing : p.Summary
  pub max_timing : p.Gauge
  pub min_timing : p.Gauge

module _ (p : Prometheus) where
  open p use {new_gauge, new_summary, gauge_value, set_gauge, observations, observe}

  -- The constructor; `start_time` is a time point's default.
  unfoldable pub performance_tracker : PerformanceTracker p
  performance_tracker = record {
    start_time = 0;
    perf_timing = new_summary;
    max_timing = new_gauge;
    min_timing = set_gauge int_max new_gauge;
  }

  unfoldable pub start_timer : ℕ → PerformanceTracker p → PerformanceTracker p
  start_timer now t = record t { start_time = now }

  -- endTimer with the clock at it, which does not run backwards: the tracker and the result.
  unfoldable pub end_timer : ℕ → PerformanceTracker p → PerformanceTracker p × ℕ
  end_timer now t =
      let val = to_double (now - t.start_time) in
      (
        record t {
          perf_timing = observe val t.perf_timing;
          min_timing =
              if ltb val (gauge_value t.min_timing)
              then set_gauge val t.min_timing
              else t.min_timing;
          max_timing =
              if ltb (gauge_value t.max_timing) val
              then set_gauge val t.max_timing
              else t.max_timing;
        },
        val,
      )

  -- The uses of a tracker: a start or an end, at a time.
  pub data TimerCall : Type 0 where
    starts ends : ℕ → TimerCall

  unfoldable pub run_timer : List TimerCall → PerformanceTracker p → PerformanceTracker p
  unfolding start_timer end_timer
  run_timer [] t = t
  run_timer (starts now ∷ cs) t = run_timer cs (start_timer now t)
  run_timer (ends now ∷ cs) t = run_timer cs (end_timer now t).0

  -- The gauges hold the longest and the shortest time observed, the latter capped.
  pub record IsTimed (t : PerformanceTracker p) : Type 0 where
    pub longest : gauge_value t.max_timing ≡ largest (observations t.perf_timing)
    pub shortest : gauge_value t.min_timing ≡ smallest (observations t.perf_timing)

  module _ (laws : IsPrometheus p) where
    end_timer-IsTimed :
        (now : ℕ) (t : PerformanceTracker p) → IsTimed t → IsTimed (end_timer now t).0
    unfolding end_timer
    end_timer-IsTimed now t v =
        let val = to_double (now - t.start_time) in
        record {
          longest =
              rw laws.observe_adds
                (ground (arith, laws.set_gauge_value val t.max_timing, v.longest));
          shortest =
              rw laws.observe_adds
                (ground (arith, laws.set_gauge_value val t.min_timing, v.shortest));
        }

    run_timer-IsTimed :
        (cs : List TimerCall) (t : PerformanceTracker p) → IsTimed t → IsTimed (run_timer cs t)
    unfolding run_timer start_timer
    run_timer-IsTimed [] t v = v
    run_timer-IsTimed (starts now ∷ cs) t v =
        run_timer-IsTimed cs (start_timer now t)
          (record { longest = v.longest; shortest = v.shortest })
    run_timer-IsTimed (ends now ∷ cs) t v =
        run_timer-IsTimed cs (end_timer now t).0 (end_timer-IsTimed now t v)

    -- After any starts and ends of a new tracker, its gauges hold the longest time observed and the
    -- shortest one, the latter at most the largest int.
    pub performance_tracker-IsTimed :
        (cs : List TimerCall) → IsTimed (run_timer cs performance_tracker)
    unfolding performance_tracker
    performance_tracker-IsTimed cs = run_timer-IsTimed cs performance_tracker (record {
      longest = rw laws.new_summary_empty laws.new_gauge_value;
      shortest = rw laws.new_summary_empty (laws.set_gauge_value int_max new_gauge);
    })
