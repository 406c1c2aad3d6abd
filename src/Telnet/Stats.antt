-- ===== src/Telnet/Stats.antt =====
-- src/telnet/TelnetStats.cpp. Clocks do not run backwards, so that a duration is not negative.
use repo_init.Base.{◌∙◌, ℕ, ◌+◌, ◌-◌, ◌/◌, ◌≤◌, ◌≡◌, Bool, true, false, arith, ltb, if◌then◌else◌}
use repo_init.Base.Doubles.{exact_max, to_double, to_double-exact}
use repo_init.Metrics.Prometheus.{Prometheus, IsPrometheus, int_max, largest, smallest}
use repo_init.Metrics.BaseStats.{
  BaseServerStats, init_base_stats, consume_base_stats, IsConsistent, init_base_stats-IsConsistent,
  consume_base_stats-IsConsistent,
}
use repo_init.Telnet.Session.{Session, ticks_per_second}

pub record TelnetStats (p : Prometheus) : Type 0 where
  pub base : BaseServerStats p
  pub active_connection : p.Gauge
  pub refused_connection : p.Counter
  pub total_connection : p.Counter
  pub total_upload_bytes : p.Counter
  pub total_download_bytes : p.Counter
  pub session_duration : p.Summary
  pub max_session_duration : p.Gauge
  pub min_session_duration : p.Gauge

-- TelnetServerStats; `processing_time` is the difference of its two time points.
pub record TelnetServerStats : Type 0 where
  pub processing_time : ℕ
  pub active_connection_ctr : ℕ
  pub accepted_connection_ctr : ℕ
  pub refused_connection_ctr : ℕ

module _ (p : Prometheus) where
  open p use {
    new_counter, new_gauge, new_summary, counter_value, increment, gauge_value, set_gauge,
    observations, observe,
  }

  -- The constructor, with a registry.
  unfoldable pub init_telnet_stats : TelnetStats p
  init_telnet_stats = record {
    base = init_base_stats p;
    active_connection = new_gauge;
    refused_connection = new_counter;
    total_connection = new_counter;
    total_upload_bytes = new_counter;
    total_download_bytes = new_counter;
    session_duration = new_summary;
    max_session_duration = new_gauge;
    min_session_duration = set_gauge int_max new_gauge;
  }

  unfoldable pub observe_duration : TelnetStats p → ℕ → TelnetStats p
  observe_duration t duration = record t {
    session_duration = observe duration t.session_duration;
    min_session_duration =
        if ltb duration (gauge_value t.min_session_duration)
        then set_gauge duration t.min_session_duration
        else t.min_session_duration;
    max_session_duration =
        if ltb (gauge_value t.max_session_duration) duration
        then set_gauge duration t.max_session_duration
        else t.max_session_duration;
  }

  -- consumeStats of a session.
  unfoldable pub consume_session : TelnetStats p → Session → Bool → TelnetStats p
  consume_session t s session_closed =
      let t₁ = record t {
        base = consume_base_stats p t.base s.success_cmd_ctr s.fail_cmd_ctr 0;
        total_upload_bytes = increment (to_double s.upload_bytes) t.total_upload_bytes;
        total_download_bytes = increment (to_double s.download_bytes) t.total_download_bytes;
      } in
      if session_closed
      then observe_duration t₁ (to_double ((s.disconnect_time - s.connect_time) / ticks_per_second))
      else t₁

  -- consumeStats of the server.
  unfoldable pub consume_server : TelnetStats p → TelnetServerStats → TelnetStats p
  consume_server t stat = record t {
    active_connection = set_gauge (to_double stat.active_connection_ctr) t.active_connection;
    refused_connection = increment (to_double stat.refused_connection_ctr) t.refused_connection;
    total_connection = increment (to_double stat.accepted_connection_ctr) t.total_connection;
    base =
        if ltb 0 stat.active_connection_ctr
        then consume_base_stats p t.base 0 0 (to_double stat.processing_time)
        else t.base;
  }

  -- The counters of commands agree, and the gauges hold the extremes of what was observed.
  pub record IsTelnetConsistent (t : TelnetStats p) : Type 0 where
    pub base_consistent : IsConsistent p t.base
    pub longest : gauge_value t.max_session_duration ≡ largest (observations t.session_duration)
    pub shortest : gauge_value t.min_session_duration ≡ smallest (observations t.session_duration)

  module _ (laws : IsPrometheus p) where
    pub init_telnet_stats-IsTelnetConsistent : IsTelnetConsistent init_telnet_stats
    unfolding init_telnet_stats
    init_telnet_stats-IsTelnetConsistent = record {
      base_consistent = init_base_stats-IsConsistent p laws;
      longest = rw laws.new_summary_empty laws.new_gauge_value;
      shortest = rw laws.new_summary_empty (laws.set_gauge_value int_max new_gauge);
    }

    observe_duration-IsTelnetConsistent :
        (t : TelnetStats p) (d : ℕ)
        → IsTelnetConsistent t
        → IsTelnetConsistent (observe_duration t d)
    unfolding observe_duration
    observe_duration-IsTelnetConsistent t d v = record {
      base_consistent = v.base_consistent;
      longest =
          rw laws.observe_adds
            (ground (arith, laws.set_gauge_value d t.max_session_duration, v.longest));
      shortest =
          rw laws.observe_adds
            (ground (arith, laws.set_gauge_value d t.min_session_duration, v.shortest));
    }

    -- Consuming a session keeps the statistics consistent, as long as doubles hold the total of commands
    -- with its two counts and all numbers below it: up to 2 ^ 53.
    pub consume_session-IsTelnetConsistent :
        (t : TelnetStats p) (s : Session) (session_closed : Bool)
        → counter_value t.base.total_command + (s.success_cmd_ctr + s.fail_cmd_ctr) ≤ exact_max
        → IsTelnetConsistent t
        → IsTelnetConsistent (consume_session t s session_closed)
    unfolding consume_session
    consume_session-IsTelnetConsistent t s closed h v =
        elim closed as (λ b. IsTelnetConsistent (consume_session t s b)) [
          | true ↦ observe_duration-IsTelnetConsistent _ _ v₁
          | false ↦ v₁
        ]
      where
        v₁ : IsTelnetConsistent (consume_session t s false)
        v₁ = record {
          base_consistent =
              consume_base_stats-IsConsistent p laws t.base s.success_cmd_ctr s.fail_cmd_ctr 0 h
                v.base_consistent;
          longest = v.longest;
          shortest = v.shortest;
        }

    -- Consuming the server's own numbers keeps the statistics consistent; the active connections
    -- replace their gauge, and the accepted and the refused ones are added to their counters, as long as
    -- doubles hold them and all numbers below them.
    pub consume_server-IsTelnetConsistent :
        (t : TelnetStats p) (stat : TelnetServerStats)
        → counter_value t.base.total_command ≤ exact_max
        → stat.active_connection_ctr ≤ exact_max
        → counter_value t.refused_connection + stat.refused_connection_ctr ≤ exact_max
        → counter_value t.total_connection + stat.accepted_connection_ctr ≤ exact_max
        → IsTelnetConsistent t
        → let t' = consume_server t stat in
          IsTelnetConsistent t'
          × (gauge_value t'.active_connection ≡ stat.active_connection_ctr)
          × (counter_value t'.refused_connection
              ≡ counter_value t.refused_connection + stat.refused_connection_ctr)
          × (counter_value t'.total_connection
              ≡ counter_value t.total_connection + stat.accepted_connection_ctr)
    unfolding consume_server
    consume_server-IsTelnetConsistent t stat room active refused accepted v = (
      record {
        base_consistent = served (ltb 0 stat.active_connection_ctr);
        longest = v.longest;
        shortest = v.shortest;
      },
      laws.set_gauge_value (to_double stat.active_connection_ctr) t.active_connection
          ∙ to_double-exact stat.active_connection_ctr active,
      rw (to_double-exact stat.refused_connection_ctr (omega (arith, refused)))
          (laws.increment_value stat.refused_connection_ctr t.refused_connection refused),
      rw (to_double-exact stat.accepted_connection_ctr (omega (arith, accepted)))
          (laws.increment_value stat.accepted_connection_ctr t.total_connection accepted),
    )
      where
        served :
            (b : Bool)
            → IsConsistent p (
                if b
                then consume_base_stats p t.base 0 0 (to_double stat.processing_time)
                else t.base)
        served true =
            consume_base_stats-IsConsistent p laws t.base 0 0 (to_double stat.processing_time)
              (omega (arith, room)) v.base_consistent
        served false = v.base_consistent
