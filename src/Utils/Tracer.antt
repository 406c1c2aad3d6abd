-- ===== src/Utils/Tracer.antt =====
-- src/utils/Tracer.cpp: the watch over the crash handler.
pub mod Start
use repo_init.Base.{
  [], ℕ, suc, ◌<◌, ◌≡◌, refl, ap, ◌∙◌, ◌≢◌, ◌↔◌, inl, inr, Bool, true, false, not, ◌&&◌, Option,
  none, some, List, ◌∷◌, arith, ltb, ◌==◌, if◌then◌else◌, Bool-cases, is_just, is_empty,
}

-- What crashpad and the kernel say of the handler: its socket and its process, if it has been started,
-- and the checks of the two. A socket or a process below the numbers tested is none.
pub record Handler : Type 0 where
  pub socket : Option ℕ
  pub process : Option ℕ
  pub getsockopt_ok : Bool
  pub socket_error : ℕ
  pub recv_result : Option ℕ
  pub signal_ok : Bool

abbrev is_zero : Option ℕ → Bool
is_zero none = false
is_zero (some n) = n == 0

-- checkSocketIsRunning; `recv_result` is none for -1.
unfoldable pub check_socket_is_running : Handler → Bool
check_socket_is_running h = h.getsockopt_ok && (h.socket_error == 0) && not (is_zero h.recv_result)

-- isRunning of what GetHandlerSocket gives.
unfoldable pub is_running : Option Handler → Bool
unfolding check_socket_is_running
is_running none = false
is_running (some h) =
    if is_just h.socket && not (check_socket_is_running h)
    then false
    else if is_just h.process && not h.signal_ok
    then false
    else true

abbrev pub crashpad_retry_count : ℕ
crashpad_retry_count = 10

abbrev pub set_flag : Option Bool → Option Bool
set_flag none = none
set_flag (some b) = some true

-- How the loop of `thread_func` ended: by `return` at the limit of retries, or by the stop request.
pub data Ending : Type 0 where
  gave_up stop_requested : Ending

-- A round behind its first test: the flag is set and the counter starts again.
unfoldable pub thread_loop : List (Option Handler) → ℕ → Option Bool → Ending × Option Bool
thread_loop [] stop_counter flag = (stop_requested, flag)
thread_loop (h ∷ hs) stop_counter flag =
    let rest = thread_loop hs 0 (set_flag flag) in
    if not (is_running h)
    then (if ltb crashpad_retry_count (suc stop_counter) then (gave_up, flag) else rest)
    else rest

unfoldable pub thread_func : List (Option Handler) → Option Bool → Ending × Option Bool
unfolding thread_loop
thread_func hs flag = thread_loop hs 0 flag

pub thread_loop-step :
    (h : Option Handler) (hs : List (Option Handler)) (stop_counter : ℕ) (flag : Option Bool)
    → stop_counter < crashpad_retry_count
    → thread_loop (h ∷ hs) stop_counter flag ≡ thread_loop hs 0 (set_flag flag)
unfolding thread_loop
thread_loop-step h hs stop_counter flag below =
    let n : ltb crashpad_retry_count (suc stop_counter) ≡ false = ground arith in
    elim (Bool-cases (is_running h)) [ inl y ↦ rw y refl | inr m ↦ rw (m, n) refl ]

set_flag_twice : (flag : Option Bool) → set_flag (set_flag flag) ≡ set_flag flag
set_flag_twice none = refl
set_flag_twice (some b) = refl

thread_loop-ending :
    (hs : List (Option Handler)) (stop_counter : ℕ) (flag : Option Bool)
    → stop_counter < crashpad_retry_count
    → thread_loop hs stop_counter flag
      ≡ (stop_requested, if is_empty hs then flag else set_flag flag)
thread_loop-ending [] stop_counter flag h = unfold thread_loop in refl
thread_loop-ending (g ∷ []) stop_counter flag h =
    thread_loop-step g [] stop_counter flag h
    ∙ thread_loop-ending [] 0 (set_flag flag) (omega arith)
thread_loop-ending (g ∷ k ∷ hs) stop_counter flag h =
    thread_loop-step g (k ∷ hs) stop_counter flag h
    ∙ thread_loop-ending (k ∷ hs) 0 (set_flag flag) (omega arith)
    ∙ ap (λ f. (stop_requested, f)) (set_flag_twice flag)

-- The limit of retries is never reached: however long the handler is gone, the thread goes on until it
-- is told to stop, and its flag is set after one round or more.
pub thread_func-never_gives_up :
    (hs : List (Option Handler)) (flag : Option Bool)
    → thread_func hs flag ≡ (stop_requested, if is_empty hs then flag else set_flag flag)
unfolding thread_func
thread_func-never_gives_up hs flag = thread_loop-ending hs 0 flag (omega arith)

-- The handler counts as running exactly when crashpad knows it, its socket, if it has one, is without
-- error and not at its end, and its process, if it has one, takes a signal.
pub is_running_iff :
    (h : Handler)
    → (is_running (some h) ≡ true) ↔ (
        (h.socket ≢ none
          → (h.getsockopt_ok ≡ true) × (h.socket_error ≡ 0) × (h.recv_result ≢ some 0))
        × (h.process ≢ none → h.signal_ok ≡ true))
unfolding is_running check_socket_is_running
is_running_iff h = ground arith
