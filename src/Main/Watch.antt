-- ===== src/Main/Watch.antt =====
-- The running program of src/main.cpp: the rounds of its threads and the alarm, one after the other, and
-- what the check flags of include/utils/ErrorHelpers.hpp say of the threads.
use repo_init.Base.{
  Bool, true, false, Option, none, some, List, [], ◌∷◌, if◌then◌else◌, Bytes, codes, str_eq,
  is_just,
}
use repo_init.Main.{alarm_func}
use repo_init.Main.Start.{Machine, Program}
use repo_init.Metrics.Process as Process
use repo_init.Metrics.Process.{ProcessMetrics}
use repo_init.Metrics.Prometheus.{Prometheus}
use repo_init.Telnet.Server as Telnet
use repo_init.Telnet.Server.{Server, Tick, update_server}
use repo_init.Telnet.Session.{World}
use repo_init.Utils.Tracer.{Handler, thread_loop}
use repo_init.ZeroMq.Server as ZeroMq
use repo_init.ZeroMq.Server.{Round, ZeroMqServer}
pub mod Host
pub mod Rounds
pub mod Steps
pub mod Laws

-- The parts with a flag, in the order of vCheckFlag.
pub data Part : Type 0 where
  crash_part monitor_part zeromq_part telnet_part : Part

abbrev pub part_name : Part → Bytes
part_name crash_part = codes "Crashpad Handler"
part_name monitor_part = codes "Self Monitor"
part_name zeromq_part = codes "ZeroMQ Server"
part_name telnet_part = codes "Telnet Server"

-- test_and_set on the flag of a name.
abbrev pub test_and_set : Bytes → List (Bytes × Bool) → List (Bytes × Bool)
test_and_set name [] = []
test_and_set name ((n, flag) ∷ flags) =
    if str_eq n name then (n, true) ∷ flags else (n, flag) ∷ test_and_set name flags

abbrev pub mark : Part → World → World
mark part w = record w { check_flags = test_and_set (part_name part) w.check_flags }

-- Whether a flag is there and set.
abbrev pub sets : Option Bool → Bool
sets none = false
sets (some b) = b

module _ (p : Prometheus) where
  -- A round of a thread with what it meets, or the alarm.
  pub data Event : Type 0 where
    alarm : Event
    crash_round : Option Handler → Event
    monitor_round : Process.System → Event
    zeromq_round : Round → Event
    telnet_round : Tick p → Event

  -- A round of Tracer::threadFunc, whose counter is 0: it sets the flag in the loop.
  unfoldable pub crash_step : Option Handler → Program p → Program p
  unfolding thread_loop
  crash_step h s =
      if sets (thread_loop (h ∷ []) 0 (some false)).1
      then record s { world = mark crash_part s.world }
      else s

  -- A round of ProcessMetrics::threadRunner.
  unfoldable pub monitor_step : Process.System → ProcessMetrics → Program p → Program p
  unfolding Process.update
  monitor_step system monitor s =
      let (monitor', finished) = Process.update system monitor in
      let s' : Program p = record s { self_monitor = some monitor' } in
      if finished then record s' { world = mark monitor_part s'.world } else s'

  -- A round of ZeroMQServer::threadFunc; `none` is undefined behaviour.
  unfoldable pub zeromq_step : Machine → Round → ZeroMqServer p → Program p → Option (Program p)
  unfolding ZeroMq.update
  zeromq_step m r z s = elim (ZeroMq.update p m.zeromq_env r z s.world) [
    | none ↦ none
    | some a ↦
        let s' : Program p = record s { zmq_controller = some a.server; world = a.world } in
        some (if a.failed then s' else record s' { world = mark zeromq_part s'.world })
  ]

  -- A round of TelnetServer::threadFunc; `none` is undefined behaviour.
  unfoldable pub telnet_step : Machine → Tick p → Server p → Program p → Option (Program p)
  unfolding update_server
  telnet_step m k v s = elim (update_server p m.telnet_env k v s.world) [
    | none ↦ none
    | some (v', w') ↦ some (record s { telnet_controller = some v'; world = mark telnet_part w' })
  ]

  -- An event. A thread that has not been started has no rounds.
  unfoldable pub act : Machine → Event → Program p → Option (Program p)
  unfolding alarm_func crash_step monitor_step zeromq_step telnet_step
  act m alarm s = some (record s { world = alarm_func s.world })
  act m (crash_round h) s = some (if is_just s.crashpad_controller then crash_step h s else s)
  act m (monitor_round system) s = elim s.self_monitor [
    | none ↦ some s
    | some monitor ↦ some (monitor_step system monitor s)
  ]
  act m (zeromq_round r) s = elim s.zmq_controller [
    | none ↦ some s
    | some z ↦ if z.thread_running then zeromq_step m r z s else some s
  ]
  act m (telnet_round k) s = elim s.telnet_controller [
    | none ↦ some s
    | some v ↦ if v.thread_running then telnet_step m k v s else some s
  ]

  -- Any events in their order.
  unfoldable pub run : Machine → List Event → Program p → Option (Program p)
  run m [] s = some s
  run m (e ∷ es) s = elim (act m e s) [ none ↦ none | some s' ↦ run m es s' ]
