-- ===== src/Utils/FileMonitor.antt =====
-- FileMonitor of src/utils/FileHelpers.cpp: the watch over one file with inotify.
use repo_init.Base.{
  ℕ, zero, suc, ◌+◌, ◌-◌, ◌*◌, Bool, true, false, not, ◌&&◌, ◌||◌, Option, none, some, List, [],
  ◌∷◌, ◌++◌, ltb, ◌==◌, if◌then◌else◌, length, replicate, drop, Bytes,
}
use Prim.Native.Nat.{bit_and}
use repo_init.Base.Descriptors.{Descriptors, close}
pub mod Laws

pub record FileMonitor : Type 0 where
  pub f_descriptor : ℕ
  pub w_descriptor : ℕ
  pub file_path : Bytes
  pub has_callback : Bool
  pub notify_events : ℕ

-- What the constructor's system calls answer; `none` and `false` are the negative results.
pub record Inotify : Type 0 where
  pub init : Option ℕ
  pub add_watch : Option ℕ
  pub get_flags : Bool
  pub set_flags : Bool

pub data Failure : Type 0 where
  no_inotify no_watch not_non_blocking : Failure

pub data Made : Type 0 where
  threw : Failure → Made
  made : FileMonitor → Made

-- The constructor behind `inotify_init`.
abbrev watch : Inotify → ℕ → Bytes → ℕ → Descriptors → Made × Descriptors
watch calls fd path events fds = elim calls.add_watch [
  | none ↦ (threw no_watch, close fd fds)
  | some wd ↦
      if not calls.get_flags || not calls.set_flags
      then (threw not_non_blocking, close fd fds)
      else (
        made (record {
          f_descriptor = fd;
          w_descriptor = wd;
          file_path = path;
          has_callback = false;
          notify_events = events;
        }),
        fds,
      )
]

unfoldable pub file_monitor : Inotify → Bytes → ℕ → Descriptors → Made × Descriptors
file_monitor calls path events fds = elim calls.init [
  | none ↦ (threw no_inotify, fds)
  | some fd ↦ watch calls fd path events (fd ∷ fds)
]

-- notifyCallback.
unfoldable pub notify_callback : Bool → FileMonitor → FileMonitor
notify_callback given m = record m { has_callback = given }

-- The destructor: the failures of its calls are only logged, and `close` frees the descriptor all the
-- same.
unfoldable pub destroy : FileMonitor → Descriptors → Descriptors
destroy m fds = close m.f_descriptor fds

-- The 32 bits at a position, the lowest byte first; `none` is a read outside the buffer.
abbrev pub read_u32 : Bytes → Option ℕ
read_u32 (a ∷ b ∷ c ∷ d ∷ s) = some (a + 256 * b + 65536 * c + 16777216 * d)
read_u32 _ = none

-- The sizes of an inotify_event: its head, and where its mask and its length stand.
abbrev pub event_size : ℕ
event_size = 16

-- The loop over the events: whether the callback is called, `none` for a read outside the buffer. Each
-- round goes at least `event_size` bytes further.
unfoldable pub event_loop : ℕ → FileMonitor → Bytes → ℕ → ℕ → Option Bool
event_loop zero m buffer n_read idx = none
event_loop (suc fuel) m buffer n_read idx =
    if m.has_callback && ltb idx n_read
    then (elim (read_u32 (drop (idx + 4) buffer)) as (λ _. Option Bool) [
      | none ↦ none
      | some mask ↦
          if not (bit_and mask m.notify_events == 0)
          then some true
          else (elim (read_u32 (drop (idx + 12) buffer)) as (λ _. Option Bool) [
            | none ↦ none
            | some len ↦ event_loop fuel m buffer n_read (idx + (event_size + len))
          ])
    ])
    else some false

-- What FIONREAD and `read` give in a round, `none` for a failure.
pub record Poll : Type 0 where
  pub available : Option ℕ
  pub received : Option Bytes

abbrev value_or_zero : Option ℕ → ℕ
value_or_zero none = 0
value_or_zero (some n) = n

-- A round of threadFunc: whether the callback is called.
unfoldable pub poll_events : FileMonitor → Poll → Option Bool
unfolding event_loop
poll_events m p = elim p.received [
  | none ↦ some false
  | some bytes ↦
      let buffer = bytes ++ replicate (value_or_zero p.available + 1 - length bytes) 0 in
      event_loop (suc (length bytes)) m buffer (length bytes) 0
]

-- threadFunc until its stop is requested: how often the callback is called.
unfoldable pub thread_func : FileMonitor → List Poll → Option ℕ
unfolding poll_events
thread_func m [] = some 0
thread_func m (p ∷ ps) = elim (poll_events m p) [
  | none ↦ none
  | some called ↦ elim (thread_func m ps) [
    | none ↦ none
    | some calls ↦ some (if called then suc calls else calls)
  ]
]
