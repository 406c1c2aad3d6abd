-- ===== src/Telnet/Commands/Switch.antt =====
-- TelnetMessageCallback: which lines run which command, and what a command changes.
use repo_init.Base.{
  ℕ, ◌<◌, ap, sym, ◌∙◌, All, [], ◌+◌, ◌-◌, ◌≡◌, refl, ◌≢◌, ◌↔◌, inl, inr, false, Option, none, some,
  ◌∷◌, arith, if◌then◌else◌, Bool-cases, is_just, is_empty, Bytes,
}
use repo_init.Telnet.Session.{Env, World, Session, send_line}
use repo_init.Telnet.Commands.{
  Command, test_message, disable_log, disable_log_all, enable_log_v, enable_log_vv, enable_log_vvv,
  label, switch_on, run_command, message_callback,
}
use repo_init.Utils.Hasher.{const_hasher, const_hasher_collision}
use repo_init.Logging.Level.{Level, trace, debug, info, off, default_level}

-- The labels have distinct hashes: each one selects its own case.
pub switch_on-label : (c : Command) → switch_on (const_hasher (label c)) ≡ some c
unfolding switch_on
switch_on-label test_message = refl
switch_on-label _ = refl

-- A label with its first byte lowered by 33 and its second raised by 1.
abbrev pub disguise : Bytes → Bytes
disguise [] = []
disguise (c ∷ []) = c ∷ []
disguise (c ∷ d ∷ s) = (c - 33) ∷ (d + 1) ∷ s

-- Each label has such a line for its own command.
label-disguise :
    (c : Command)
    → (disguise (label c) ≢ label c) × (switch_on (const_hasher (disguise (label c))) ≡ some c)
unfolding switch_on
label-disguise test_message = (λ e. ground arith, refl)
label-disguise _ = (λ e. ground arith, refl)

-- The level that a command sets; the others leave it.
abbrev pub level_after : Env → Option Command → Level → Level
level_after env (some disable_log) l = default_level env.ndebug
level_after env (some disable_log_all) l = off
level_after env (some enable_log_v) l = info
level_after env (some enable_log_vv) l = debug
level_after env (some enable_log_vvv) l = trace
level_after env c l = l

-- What a line asks for: an empty one for nothing.
abbrev pub asked : Bytes → Option Command
asked line = if is_empty line then none else switch_on (const_hasher line)

run_command-world :
    (env : Env) (prompt : Bytes) (s : Session) (w : World) (c : Option Command)
    → (run_command env prompt s w c).1 ≡ record w { log_level = level_after env c w.log_level }
unfolding run_command
run_command-world env prompt s w (some test_message) = refl
run_command-world env prompt s w (some _) = refl
run_command-world env prompt s w none = refl

-- A line changes the log level as the command that it asks for says, and no check flag.
pub message_callback-world :
    (env : Env) (prompt : Bytes) (s : Session) (w : World) (line : Bytes)
    → (message_callback env prompt s w line).1
      ≡ record w { log_level = level_after env (asked line) w.log_level }
unfolding message_callback
message_callback-world env prompt s w line = elim (Bool-cases (is_empty line)) [
  | inl e ↦ rw e
  | inr n ↦
      rw n (
        run_command-world env prompt (send_line env prompt s line) w
          (switch_on (const_hasher line)))
]

run_command-fails :
    (env : Env) (prompt : Bytes) (s : Session) (w : World) (c : Option Command)
    → (run_command env prompt s w c).2 ≡ is_just c
unfolding run_command
run_command-fails env prompt s w (some test_message) = refl
run_command-fails env prompt s w (some _) = refl
run_command-fails env prompt s w none = refl

-- A line is counted as failed exactly when it is not empty and its hash is that of no label.
pub message_callback-fails :
    (env : Env) (prompt : Bytes) (s : Session) (w : World) (line : Bytes)
    → ((message_callback env prompt s w line).2 ≡ false)
      ↔ ((line ≢ []) × (switch_on (const_hasher line) ≡ none))
unfolding message_callback
message_callback-fails env prompt s w [] = (λ e. cc, λ p. absurd (p.0 refl))
message_callback-fails env prompt s w (c ∷ line) =
    let f =
      run_command-fails env prompt (send_line env prompt s (c ∷ line)) w
        (switch_on (const_hasher (c ∷ line))) in
    (λ e. (λ x. cc, ground (arith, f)), λ p. ground (arith, f))

-- A byte that is ASCII and not null.
abbrev pub IsAscii : ℕ → Type 0
IsAscii c = (0 < c) × (c < 128)

disguise-hash :
    (c d : ℕ) (s : Bytes)
    → 33 < c
    → c < 128
    → 0 < d
    → d < 127
    → const_hasher (disguise (c ∷ d ∷ s)) ≡ const_hasher (c ∷ d ∷ s)
disguise-hash c d s hc hc' hd hd' =
    let whole : c - 33 + 33 ≡ c = omega (arith, hc) in
    const_hasher_collision (c - 33) d s (omega (arith, hc)) (omega (arith, hc')) hd
      (omega (arith, hd'))
    ∙ ap (λ b. const_hasher (b ∷ d ∷ s)) whole

-- Any line that starts with a byte from 34 to 127 and one from 1 to 126 has another beside it, the first
-- byte lowered by 33 and the second raised by 1, which selects the same command: in every session it has
-- the same result and the same effect on the log level and the check flags. Behind the two bytes the
-- lines agree, and if the one is all ASCII without a null byte, so is the other.
pub switch_on-disguise :
    (env : Env) (prompt : Bytes) (s : Session) (w : World) (c d : ℕ) (rest : Bytes)
    → 33 < c
    → c < 128
    → 0 < d
    → d < 127
    → let line = c ∷ d ∷ rest in
      let r = message_callback env prompt s w line in
      let r' = message_callback env prompt s w (disguise line) in
      (disguise line ≢ line)
      × (switch_on (const_hasher (disguise line)) ≡ switch_on (const_hasher line))
      × (r'.1 ≡ r.1)
      × (r'.2 ≡ r.2)
      × (All IsAscii line → All IsAscii (disguise line))
unfolding message_callback
switch_on-disguise env prompt s w c d rest hc hc' hd hd' =
    let line : Bytes = c ∷ d ∷ rest in
    let same = ap switch_on (disguise-hash c d rest hc hc' hd hd') in
    let world = message_callback-world env prompt s w in
    let result = λ (l : Bytes).
      run_command-fails env prompt (send_line env prompt s l) w (switch_on (const_hasher l)) in
    (
      (λ e. ground (arith, e, hc)),
      same,
      world (disguise line)
          ∙ ap (λ k. record w { log_level = level_after env k w.log_level }) same
          ∙ sym (world line),
      result (disguise line) ∙ ap is_just same ∙ sym (result line),
      (λ h. ((omega (arith, hc), omega (arith, hc')), ((omega arith, omega (arith, hd')), h.1.1))),
    )
