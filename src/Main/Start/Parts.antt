-- ===== src/Main/Start/Parts.antt =====
-- What runs when main has come to its loop.
use repo_init.Base.{
  ◌≡◌, refl, sym, ◌∙◌, ◌↔◌, Bool, true, false, not, none, some, List, [], ◌∷◌, ◌++◌, arith,
  is_empty, Bytes, codes,
}
use repo_init.Logging.Level.{Level, info, default_level}
use repo_init.Main.{adjust_log_level}
use repo_init.Main.Start.{
  Machine, config_path, Program, Step, ◌then_do◌, empty_program, check_config, set_up_log,
  set_signals, start_tracer, start_prometheus, start_monitor, start_zeromq, start_telnet, start,
}
use repo_init.Metrics.Prometheus.{Prometheus}
use repo_init.Utils.ConfigParser.{ConfigParser, config_parser}
use repo_init.Utils.InputParser.{get_cmd_option, cmd_option_exists}
use repo_init.Main.Start.Laws.{can_start, goes_on, start-goes_on}
use repo_init.Main.Start.Steps.{
  HasStarted, check_config-HasStarted, set_up_log-HasStarted, set_signals-HasStarted,
  start_tracer-HasStarted, start_prometheus-HasStarted, start_monitor-HasStarted,
  start_zeromq-HasStarted, start_telnet-HasStarted,
}

abbrev pub all_flags : List (Bytes × Bool)
all_flags =
    (codes "Crashpad Handler", false)
    ∷ (codes "Self Monitor", false)
    ∷ (codes "ZeroMQ Server", false)
    ∷ (codes "Telnet Server", false)
    ∷ []

module _ (p : Prometheus) where
  -- A property that a part of main makes of another, if main goes on.
  carry :
      (P Q : Program p → Type 0) (a : Step p) (f : Program p → Step p)
      → (goes_on p a ≡ true → P a.0)
      → ((s : Program p) → P s → goes_on p (f s) ≡ true → Q (f s).0)
      → goes_on p (◌then_do◌ p a f) ≡ true
      → Q (◌then_do◌ p a f).0
  carry P Q (s, none) f before step g = step s (before refl) g
  carry P Q (s, some e) f before step g = cc

  goes_on-none : (a : Step p) → (a.1 ≡ none) ↔ (goes_on p a ≡ true)
  goes_on-none (s, none) = ((λ e. refl), (λ e. refl))
  goes_on-none (s, some e) = ground arith

  -- main up to the crash handler.
  abbrev prepare : Machine → List Bytes → ConfigParser → Step p
  prepare m tokens config =
      ◌then_do◌ p
        (◌then_do◌ p
          (◌then_do◌ p (check_config p m config (empty_program p info)) (set_up_log p m tokens))
          (set_signals p m))
        (start_tracer p m config)

  abbrev level_of : Machine → List Bytes → Level
  level_of m tokens = adjust_log_level tokens (default_level m.ndebug)

  prepare-HasStarted :
      (m : Machine) (tokens : List Bytes) (config : ConfigParser)
      → goes_on p (prepare m tokens config) ≡ true
      → HasStarted p
          ((codes "Crashpad Handler", false) ∷ [])
          (level_of m tokens)
          true
          true
          false
          false
          false
          false
          (prepare m tokens config).0
  prepare-HasStarted m tokens config =
      let level = level_of m tokens in
      let first = (codes "Crashpad Handler", false) ∷ [] in
      let at₁ : Program p → Type 0 = HasStarted p [] info false false false false false false in
      let at₂ : Program p → Type 0 = HasStarted p [] level false false false false false false in
      let at₃ : Program p → Type 0 = HasStarted p [] level true false false false false false in
      let at₄ : Program p → Type 0 = HasStarted p first level true true false false false false in
      let a₁ = check_config p m config (empty_program p info) in
      let a₂ = ◌then_do◌ p a₁ (set_up_log p m tokens) in
      let a₃ = ◌then_do◌ p a₂ (set_signals p m) in
      let h₂ =
        carry at₁ at₂ a₁ (set_up_log p m tokens) (λ g. check_config-HasStarted p m config info)
          (λ s h g. set_up_log-HasStarted p [] info s m tokens h) in
      let h₃ =
        carry at₂ at₃ a₂ (set_signals p m) h₂
          (λ s h g. set_signals-HasStarted p [] level s m h g) in
      carry at₃ at₄ a₃ (start_tracer p m config) h₃
        (λ s h g. start_tracer-HasStarted p [] level s m config h g)

  start-carried :
      (m : Machine) (tokens : List Bytes)
      → goes_on p (start p m tokens) ≡ true
      → HasStarted p all_flags
          (level_of m tokens)
          true
          true
          (not (is_empty (get_cmd_option (codes "--enable-prometheus") tokens)))
          (not (is_empty (get_cmd_option (codes "--enable-prometheus") tokens)))
          (not (is_empty (get_cmd_option (codes "--enable-zeromq") tokens)))
          (cmd_option_exists (codes "--enable-telnet") tokens)
          (start p m tokens).0
  unfolding start
  start-carried m tokens =
      let config = config_parser (config_path tokens) (m.files (config_path tokens)) in
      let level = level_of m tokens in
      let reports = not (is_empty (get_cmd_option (codes "--enable-prometheus") tokens)) in
      let controls = not (is_empty (get_cmd_option (codes "--enable-zeromq") tokens)) in
      let serves = cmd_option_exists (codes "--enable-telnet") tokens in
      let first = (codes "Crashpad Handler", false) ∷ [] in
      let second = first ++ (codes "Self Monitor", false) ∷ [] in
      let third = second ++ (codes "ZeroMQ Server", false) ∷ [] in
      let at₄ : Program p → Type 0 = HasStarted p first level true true false false false false in
      let at₅ : Program p → Type 0 = HasStarted p first level true true reports false false false in
      let at₆ : Program p → Type 0 =
        HasStarted p second level true true reports reports false false in
      let at₇ : Program p → Type 0 =
        HasStarted p third level true true reports reports controls false in
      let at₈ : Program p → Type 0 =
        HasStarted p all_flags level true true reports reports controls serves in
      let a₄ = prepare m tokens config in
      let a₅ = ◌then_do◌ p a₄ (start_prometheus p m tokens) in
      let a₆ = ◌then_do◌ p a₅ (start_monitor p m) in
      let a₇ = ◌then_do◌ p a₆ (start_zeromq p m tokens) in
      let h₅ =
        carry at₄ at₅ a₄ (start_prometheus p m tokens) (prepare-HasStarted m tokens config)
          (λ s h g. start_prometheus-HasStarted p first level s m tokens h g) in
      let h₆ =
        carry at₅ at₆ a₅ (start_monitor p m) h₅
          (λ s h g. start_monitor-HasStarted p first level s m reports h) in
      let h₇ =
        carry at₆ at₇ a₆ (start_zeromq p m tokens) h₆
          (λ s h g. start_zeromq-HasStarted p second level s m tokens reports h g) in
      carry at₇ at₈ a₇ (start_telnet p m tokens) h₇
        (λ s h g. start_telnet-HasStarted p third level s m tokens reports controls h g)

  -- Main comes to its loop just if curl and the configuration are fine, the three signals are set, the
  -- crash handler starts, and each server that the command line asks for has what it needs. Then the
  -- check flags are the four of its parts, all clear, in the order in which they are started, the level
  -- is that of the options, the alarm and the crash handler are there, and so is each server that was
  -- asked for and no other; the self monitor is there just if the Prometheus server is.
  pub start-HasStarted :
      (m : Machine) (tokens : List Bytes)
      → let r = start p m tokens in
        (((r.1 ≡ none) ↔ (can_start m tokens ≡ true)))
        × (can_start m tokens ≡ true
            → HasStarted p all_flags
                (adjust_log_level tokens (default_level m.ndebug))
                true
                true
                (not (is_empty (get_cmd_option (codes "--enable-prometheus") tokens)))
                (not (is_empty (get_cmd_option (codes "--enable-prometheus") tokens)))
                (not (is_empty (get_cmd_option (codes "--enable-zeromq") tokens)))
                (cmd_option_exists (codes "--enable-telnet") tokens)
                r.0)
  start-HasStarted m tokens =
      let runs = start-goes_on p m tokens in
      let ended = goes_on-none (start p m tokens) in
      (
        ((λ e. sym runs ∙ ended.0 e), (λ e. ended.1 (runs ∙ e))),
        (λ e. start-carried m tokens (runs ∙ e)),
      )
