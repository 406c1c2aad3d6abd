-- ===== src/Main/Watch/Rounds.antt =====
-- Which rounds of the threads of src/main.cpp come to their end, told from what they meet and not from
-- what they do to the check flags.
use repo_init.Base.{
  ◌≡◌, subst, inl, inr, Bool, true, false, not, ◌&&◌, ◌||◌, Option, none, some, List, [], ◌∷◌,
  arith, Bool-cases, Option-cases, is_just, is_empty, Bytes,
}
use repo_init.Main.Start.{Machine, Program}
use repo_init.Main.Watch.{
  Part, crash_part, monitor_part, zeromq_part, telnet_part, Event, alarm, crash_round,
  monitor_round, zeromq_round, telnet_round, act,
}
use repo_init.Metrics.Process as Process
use repo_init.Metrics.Process.{ProcessMetrics, get_disk_io}
use repo_init.Metrics.Prometheus.{Prometheus}
use repo_init.Telnet.Server.{Server}
use repo_init.Telnet.Session.{World}
use repo_init.ZeroMq.Commands.{ZeroMqEnv}
use repo_init.ZeroMq.Server.{Round, ZeroMqServer, After, answer, deliver}
use repo_init.ZeroMq.Server as ZeroMq
use repo_init.ZeroMq.Socket.{recv_messages}

-- A measurement throws just where a number of the process's input and output is none.
abbrev pub measures : Process.System → Option ProcessMetrics → Bool
measures system none = false
measures system (some t) =
    is_just (get_disk_io system.io_for_read system.io_for_write t.old_read_bytes t.old_write_bytes)

-- Neither the receiving nor, where there is a message, the sending throws.
abbrev pub comes_back : Round → Bool
comes_back r = elim r.incoming [ none ↦ false | some parts ↦ is_empty parts || is_just r.sending ]

module _ (p : Prometheus) where
  abbrev serves_zeromq : Option (ZeroMqServer p) → Bool
  serves_zeromq none = false
  serves_zeromq (some z) = z.thread_running

  abbrev serves_telnet : Option (Server p) → Bool
  serves_telnet none = false
  serves_telnet (some v) = v.thread_running

  -- What is to be seen of an event in the flags: they are cleared, or a part has come to the end of a
  -- round, or nothing.
  pub data Mark : Type 0 where
    cleared unmarked : Mark
    alive : Part → Mark

  abbrev pub alive_if : Part → Bool → Mark
  alive_if part true = alive part
  alive_if part false = unmarked

  abbrev pub mark_of : Event p → Program p → Mark
  mark_of alarm s = cleared
  mark_of (crash_round h) s = alive_if crash_part (is_just s.crashpad_controller)
  mark_of (monitor_round system) s = alive_if monitor_part (measures system s.self_monitor)
  mark_of (zeromq_round r) s = alive_if zeromq_part (serves_zeromq s.zmq_controller && comes_back r)
  mark_of (telnet_round k) s = alive_if telnet_part (serves_telnet s.telnet_controller)

  -- The marks of the events of a run.
  unfoldable pub marks : Machine → List (Event p) → Program p → List Mark
  unfolding act
  marks m [] s = []
  marks m (e ∷ es) s = mark_of e s ∷ (elim (act p m e s) [ none ↦ [] | some s' ↦ marks m es s' ])

  -- Whether a part has had a round that it came to the end of since the last alarm.
  abbrev same_part : Part → Part → Bool
  same_part crash_part crash_part = true
  same_part monitor_part monitor_part = true
  same_part zeromq_part zeromq_part = true
  same_part telnet_part telnet_part = true
  same_part _ _ = false

  abbrev pub is_alive : Part → Bool → List Mark → Bool
  is_alive part b [] = b
  is_alive part b (cleared ∷ ks) = is_alive part false ks
  is_alive part b (unmarked ∷ ks) = is_alive part b ks
  is_alive part b (alive q ∷ ks) = is_alive part (same_part part q || b) ks

  deliver-failed :
      (r : Round) (z : ZeroMqServer p) (w : World) (parts reply : List Bytes) (good : Bool)
      → (deliver p r z w parts reply good).failed ≡ not (is_just r.sending)
  unfolding deliver
  deliver-failed r z w parts reply good = ground arith

  -- A round of an active control server fails just where it does not come back.
  pub update-comes_back :
      (env : ZeroMqEnv) (r : Round) (z : ZeroMqServer p) (w : World) (a : After p)
      → z.socket.is_active ≡ true
      → ZeroMq.update p env r z w ≡ some a
      → a.failed ≡ not (comes_back r)
  unfolding ZeroMq.update recv_messages
  update-comes_back env r z w a active e = elim (Option-cases r.incoming) [
    | inl n ↦ ground (arith, n, e)
    | inr (parts, n) ↦ elim (Bool-cases (is_empty parts)) [
      | inl m ↦ ground (arith, n, m, active, e)
      | inr m ↦ elim (Option-cases (answer env z.callback w parts)) [
        | inl q ↦ ground (arith, n, m, active, q, e)
        | inr ((w', reply, good), q) ↦
            let same : deliver p r z w' parts reply good ≡ a = ground (arith, n, m, active, q, e) in
            simp (comes_back, n, m)
              (subst (λ (a : After p). a.failed ≡ not (is_just r.sending)) same
                (deliver-failed r z w' parts reply good))
      ]
    ]
  ]
