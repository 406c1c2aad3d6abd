-- ===== src/Main/End.antt =====
-- The end of main of src/main.cpp behind its loop: the destructors of its parts, the last part first.
use repo_init.Base.{ℕ, ◌+◌, ◌-◌, Bool, Option, none, some, List, ◌==◌, if◌then◌else◌, length}
use repo_init.Main.Start.{Program}
use repo_init.Metrics.Prometheus.{Prometheus}
use repo_init.Telnet.Server as Telnet
use repo_init.Telnet.Server.{Server}
use repo_init.Telnet.Session.{Session}
use repo_init.ZeroMq.Server as ZeroMq
use repo_init.ZeroMq.Server.{ZeroMqServer}
use repo_init.ZeroMq.Socket as Socket
use repo_init.ZeroMq.Socket.{threw, returned}
pub mod Laws

-- How main ends behind its loop: it returns, or a destructor throws.
pub data Exit : Type 0 where
  exit_success terminated : Exit

module _ (p : Prometheus) where
  -- The owners of a TelnetServer between its rounds: the pointer of main, and that of each session.
  abbrev pub owners : Server p → ℕ
  owners v = 1 + length v.sessions

  -- What the end of main leaves: a Telnet server that is still owned, one that its destructor has shut
  -- down, with the sessions that it closed, the control server, and how main ends.
  pub record End : Type 0 where
    pub telnet_left : Option (Server p)
    pub telnet_shut : Option (Server p × List Session)
    pub zeromq_shut : Option (ZeroMqServer p)
    pub exit : Exit

  -- The pointer of main to the Telnet server goes away; the last owner runs the destructor.
  unfoldable pub release_telnet :
      ℕ → Option (Server p) → Option (Server p) × Option (Server p × List Session)
  release_telnet now none = (none, none)
  release_telnet now (some v) =
      if owners v - 1 == 0 then (none, some (Telnet.shutdown p now v)) else (some v, none)

  -- ~ZeroMQServer and then ~ZeroMQ; `first` and `second` say whether their calls of unbind come back. The
  -- first destructor catches no exception.
  unfoldable pub destroy_zeromq :
      Bool → Bool → Option (ZeroMqServer p) → Option (ZeroMqServer p) × Exit
  destroy_zeromq first second none = (none, exit_success)
  destroy_zeromq first second (some z) =
      let (z', outcome) = ZeroMq.shutdown p first z in
      elim outcome [
        | threw ↦ (some z', terminated)
        | returned b ↦
            (some (record z' { socket = (Socket.stop second z'.socket).0 }), exit_success)
      ]

  unfoldable pub finish : ℕ → Bool → Bool → Program p → End
  finish now first second s =
      let (left, shut) = release_telnet now s.telnet_controller in
      let (control, exit) = destroy_zeromq first second s.zmq_controller in
      record { telnet_left = left; telnet_shut = shut; zeromq_shut = control; exit = exit }
