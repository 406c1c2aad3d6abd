-- ===== src/Telnet/Session/Frame.antt =====
-- What the sending operations of a session leave alone.
use repo_init.Base.{
  [], ◌≡◌, inl, inr, Bool, true, false, not, ◌||◌, ◌∷◌, ◌++◌, arith, ◌==◌, if◌then◌else◌,
  Bool-cases, is_empty, Bytes,
}
use repo_init.Telnet.Session.{
  Env, Session, interactive_prompt, transmit, send_prompt_and_buffer, erase_line, send_line,
  echo_back,
}

-- `s` and `t` differ in what was sent and in the count of uploaded bytes alone.
pub record Frame (s t : Session) : Type 0 where
  pub connect_time : t.connect_time ≡ s.connect_time
  pub disconnect_time : t.disconnect_time ≡ s.disconnect_time
  pub download_bytes : t.download_bytes ≡ s.download_bytes
  pub success_cmd_ctr : t.success_cmd_ctr ≡ s.success_cmd_ctr
  pub fail_cmd_ctr : t.fail_cmd_ctr ≡ s.fail_cmd_ctr
  pub last_seen_time : t.last_seen_time ≡ s.last_seen_time
  pub socket : t.socket ≡ s.socket
  pub buffer : t.buffer ≡ s.buffer
  pub history : t.history ≡ s.history
  pub history_cursor : t.history_cursor ≡ s.history_cursor
  pub closes : t.closes ≡ s.closes

pub Frame-refl : (s : Session) → Frame s s
Frame-refl s = ground arith

pub Frame-trans : {s t u : Session} → Frame s t → Frame t u → Frame s u
Frame-trans f g = ground arith

pub transmit-Frame : (env : Env) (s : Session) (text : Bytes) → Frame s (transmit env s text)
unfolding transmit
transmit-Frame env s text = ground arith

pub erase_line-Frame : (env : Env) (s : Session) → Frame s (erase_line env s)
unfolding erase_line
erase_line-Frame env s = Frame-trans (transmit-Frame env s _) (transmit-Frame env _ _)

pub send_prompt_and_buffer-Frame :
    (env : Env) (prompt : Bytes) (s : Session) → Frame s (send_prompt_and_buffer env prompt s)
unfolding send_prompt_and_buffer
send_prompt_and_buffer-Frame env prompt s =
    let s₁ : Session = transmit env s prompt in
    let f = transmit-Frame env s prompt in
    elim (Bool-cases (is_empty s₁.buffer)) [
      | inl e ↦ rw e f
      | inr n ↦ rw n (Frame-trans f (transmit-Frame env s₁ s₁.buffer))
    ]

pub send_line-Frame :
    (env : Env) (prompt : Bytes) (s : Session) (text : Bytes)
    → Frame s (send_line env prompt s text)
unfolding send_line
send_line-Frame env prompt s text = wiped (interactive_prompt prompt || not (is_empty s.buffer))
  where
    prompted :
        (b : Bool) (s₁ : Session)
        → Frame s s₁
        → Frame s (
            if b
            then send_prompt_and_buffer env prompt (transmit env s₁ (text ++ 0x0d ∷ 0x0a ∷ []))
            else transmit env s₁ (text ++ 0x0d ∷ 0x0a ∷ []))
    prompted true s₁ f =
        Frame-trans f
          (Frame-trans (transmit-Frame env s₁ _) (send_prompt_and_buffer-Frame env prompt _))
    prompted false s₁ f = Frame-trans f (transmit-Frame env s₁ _)

    wiped :
        (b : Bool)
        → Frame s (
            let s₁ = if b then erase_line env s else s in
            let s₂ = transmit env s₁ (text ++ 0x0d ∷ 0x0a ∷ []) in
            if interactive_prompt prompt then send_prompt_and_buffer env prompt s₂ else s₂)
    wiped true = prompted (interactive_prompt prompt) (erase_line env s) (erase_line-Frame env s)
    wiped false = prompted (interactive_prompt prompt) s (Frame-refl s)

pub echo_back-Frame : (env : Env) (s : Session) (text : Bytes) → Frame s (echo_back env s text)
unfolding echo_back
echo_back-Frame env s [] = Frame-refl s
echo_back-Frame env s (c ∷ text) = elim (Bool-cases (c == 0xff)) [
  | inl e ↦ rw e (Frame-refl s)
  | inr n ↦ rw n (transmit-Frame env s (c ∷ text))
]
