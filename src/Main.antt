-- ===== src/Main.antt =====
-- src/main.cpp: what the command line selects, and the signals.
pub mod Start
pub mod End
pub mod Watch
use repo_init.Base.{
  [], ℕ, ◌≤◌, ◌≡◌, ◌↔◌, Bool, true, false, ◌||◌, none, some, List, ◌∷◌, arith, ltb, if◌then◌else◌,
  Bytes, codes,
}
use repo_init.Base.Numbers.{stoull}
use repo_init.Logging.Level.{Level, trace, debug, info}
use repo_init.Telnet.Session.{World}
use repo_init.Utils.InputParser.{get_cmd_option, cmd_option_exists}

-- Clears or sets nothing but the flags.
abbrev pub clear_flags : List (Bytes × Bool) → List (Bytes × Bool)
clear_flags [] = []
clear_flags ((name, flag) ∷ flags) = (name, false) ∷ clear_flags flags

-- alarmFunc.
unfoldable pub alarm_func : World → World
alarm_func w = record w { check_flags = clear_flags w.check_flags }

-- The level that the options ask for, tested in this order.
unfoldable pub adjust_log_level : List Bytes → Level → Level
adjust_log_level tokens level =
    let l₁ = if cmd_option_exists (codes "-v") tokens then info else level in
    let l₂ = if cmd_option_exists (codes "-vv") tokens then debug else l₁ in
    if cmd_option_exists (codes "-vvv") tokens then trace else l₂

-- The Telnet server's part of the start: not wanted, refused with a failure, or a port.
pub data TelnetStart : Type 0 where
  not_wanted refused : TelnetStart
  port : ℕ → TelnetStart

unfoldable pub telnet_start : List Bytes → TelnetStart
telnet_start tokens =
    if cmd_option_exists (codes "--enable-telnet") tokens
    then (elim (stoull (get_cmd_option (codes "--enable-telnet") tokens)) as (λ _. TelnetStart) [
      | none ↦ refused
      | some n ↦ if ltb n 1 || ltb 65535 n then refused else port n
    ])
    else not_wanted

-- A port is used only if it is 1 to 65535 and the number of the option's value; the start fails where
-- the option stands without such a value, and does without the server where it does not stand.
pub telnet_start-port :
    (tokens : List Bytes) (n : ℕ)
    → ((telnet_start tokens ≡ port n) ↔ (
        (cmd_option_exists (codes "--enable-telnet") tokens ≡ true)
        × (stoull (get_cmd_option (codes "--enable-telnet") tokens) ≡ some n)
        × (1 ≤ n)
        × (n ≤ 65535)))
      × ((telnet_start tokens ≡ not_wanted)
          ↔ (cmd_option_exists (codes "--enable-telnet") tokens ≡ false))
unfolding telnet_start
telnet_start-port tokens n = ground arith

-- The most verbose of the three options decides; without one the level stays.
pub adjust_log_level-verbose :
    (tokens : List Bytes) (level : Level)
    → let v = cmd_option_exists (codes "-v") tokens in
      let vv = cmd_option_exists (codes "-vv") tokens in
      let vvv = cmd_option_exists (codes "-vvv") tokens in
      let result = adjust_log_level tokens level in
      (vvv ≡ true → result ≡ trace)
      × (vvv ≡ false → vv ≡ true → result ≡ debug)
      × (vvv ≡ false → vv ≡ false → v ≡ true → result ≡ info)
      × (vvv ≡ false → vv ≡ false → v ≡ false → result ≡ level)
unfolding adjust_log_level
adjust_log_level-verbose tokens level = ground arith
