-- ===== src/Utils/FileMonitor/Laws.antt =====
-- What the watch over a file does with the events of the kernel, and with its descriptors.
use repo_init.Base.{
  ℕ, zero, suc, ◌+◌, ◌/◌, ◌%◌, ◌^◌, ◌<◌, ◌≡◌, refl, ap, subst, ◌∙◌, ◌≢◌, Bool, true, false, not,
  ◌&&◌, ◌||◌, Option, none, some, List, [], ◌∷◌, ◌++◌, map, append_assoc, arith, ltb, ◌==◌,
  if◌then◌else◌, is_just, length, drop, length-append, drop-length, All, Bytes, drop-add,
}
use Prim.Native.Nat.{bit_and}
use repo_init.Base.Descriptors.{Descriptors}
use repo_init.Utils.FileMonitor.{
  FileMonitor, Inotify, Failure, threw, made, file_monitor, destroy, read_u32, event_size,
  event_loop, Poll, poll_events, thread_func,
}

-- An event as the kernel writes it, with its name padded.
pub record Event : Type 0 where
  pub wd : ℕ
  pub mask : ℕ
  pub cookie : ℕ
  pub name : Bytes

abbrev pub write_u32 : ℕ → Bytes
write_u32 n = n % 256 ∷ n / 256 % 256 ∷ n / 65536 % 256 ∷ n / 16777216 % 256 ∷ []

unfoldable pub write_event : Event → Bytes
write_event e =
    write_u32 e.wd
    ++ (write_u32 e.mask ++ (write_u32 e.cookie ++ (write_u32 (length e.name) ++ e.name)))

unfoldable pub write_events : List Event → Bytes
unfolding write_event
write_events [] = []
write_events (e ∷ es) = write_event e ++ write_events es

abbrev pub IsEvent : Event → Type 0
IsEvent e = (e.mask < 2 ^ 32) × (length e.name < 2 ^ 32)

-- Some event has a bit of the mask.
abbrev pub any_matches : ℕ → List Event → Bool
any_matches events [] = false
any_matches events (e ∷ es) = not (bit_and e.mask events == 0) || any_matches events es

read_u32-write_u32 : (n : ℕ) (s : Bytes) → n < 2 ^ 32 → read_u32 (write_u32 n ++ s) ≡ some n
read_u32-write_u32 n s h = ap some (omega arith)

read_mask :
    (e : Event) (s : Bytes) → IsEvent e → read_u32 (drop 4 (write_event e ++ s)) ≡ some e.mask
unfolding write_event
read_mask e s h = ap some (omega (arith, h.0))

read_length :
    (e : Event) (s : Bytes)
    → IsEvent e
    → read_u32 (drop 12 (write_event e ++ s)) ≡ some (length e.name)
unfolding write_event
read_length e s h = ap some (omega (arith, h.1))

length-write_event : (e : Event) → length (write_event e) ≡ event_size + length e.name
unfolding write_event
length-write_event e = omega arith

drop-write_event :
    (e : Event) (s : Bytes) → drop (event_size + length e.name) (write_event e ++ s) ≡ s
drop-write_event e s =
    subst (λ n. drop n (write_event e ++ s) ≡ s) (length-write_event e)
      (drop-length (write_event e) s)

event_loop-any_matches :
    (fuel : ℕ) (m : FileMonitor) (buffer tail : Bytes) (n_read idx : ℕ) (es : List Event)
    → m.has_callback ≡ true
    → All IsEvent es
    → drop idx buffer ≡ write_events es ++ tail
    → n_read ≡ idx + length (write_events es)
    → length (write_events es) < fuel
    → event_loop fuel m buffer n_read idx ≡ some (any_matches m.notify_events es)
unfolding event_loop write_events
event_loop-any_matches zero m buffer tail n_read idx es hc h hb hn hf = absurd (omega (arith, hf))
event_loop-any_matches (suc fuel) m buffer tail n_read idx [] hc h hb hn hf = ground (arith, hc, hn)
event_loop-any_matches (suc fuel) m buffer tail n_read idx (e ∷ es) hc h hb hn hf =
    let rest : Bytes = write_events es ++ tail in
    let at : drop idx buffer ≡ write_event e ++ rest =
      hb ∙ append_assoc (write_event e) (write_events es) tail in
    let mask : read_u32 (drop (idx + 4) buffer) ≡ some e.mask =
      ap read_u32 (drop-add idx 4 buffer ∙ ap (drop 4) at) ∙ read_mask e rest h.0 in
    let len : read_u32 (drop (idx + 12) buffer) ≡ some (length e.name) =
      ap read_u32 (drop-add idx 12 buffer ∙ ap (drop 12) at) ∙ read_length e rest h.0 in
    let size = event_size + length e.name in
    let after : drop (idx + size) buffer ≡ rest =
      drop-add idx size buffer ∙ (ap (drop size) at ∙ drop-write_event e rest) in
    let long = length-append (write_event e) (write_events es) in
    let head = length-write_event e in
    let ih =
      event_loop-any_matches fuel m buffer tail n_read (idx + size) es hc h.1 after
        (omega (arith, hn, long, head)) (omega (arith, hf, long, head)) in
    let more : ltb idx n_read ≡ true = ground (arith, hn, long, head) in
    rw (hc, more, mask, len) (ground (arith, ih))

event_loop-start :
    (m : FileMonitor) (tail : Bytes) (es : List Event)
    → m.has_callback ≡ true
    → All IsEvent es
    → event_loop
        (suc (length (write_events es)))
        m
        (write_events es ++ tail)
        (length (write_events es))
        0
      ≡ some (any_matches m.notify_events es)
event_loop-start m tail es hc h =
    event_loop-any_matches (suc (length (write_events es))) m (write_events es ++ tail) tail
      (length (write_events es)) 0 es hc h refl (omega arith) (omega arith)

-- A round: what FIONREAD gives, and the events that are read, or that the reading failed.
abbrev pub Round : Type 0
Round = Option ℕ × Option (List Event)

unfoldable pub written : Option (List Event) → Option Bytes
unfolding write_events
written none = none
written (some es) = some (write_events es)

unfoldable pub poll_of : Round → Poll
unfolding written
poll_of r = record { available = r.0; received = written r.1 }

abbrev IsRead : Option (List Event) → Type 0
IsRead none = Unit
IsRead (some es) = All IsEvent es

abbrev pub IsRound : Round → Type 0
IsRound r = IsRead r.1

abbrev pub is_call : ℕ → Round → Bool
is_call events (available, none) = false
is_call events (available, some es) = any_matches events es

abbrev pub count_calls : ℕ → List Round → ℕ
count_calls events [] = 0
count_calls events (r ∷ rs) =
    let calls = count_calls events rs in if is_call events r then suc calls else calls

poll_events-is_call :
    (m : FileMonitor) (r : Round)
    → IsRound r
    → (m.has_callback ≡ true → poll_events m (poll_of r) ≡ some (is_call m.notify_events r))
      × (m.has_callback ≡ false → poll_events m (poll_of r) ≡ some false)
unfolding poll_events poll_of written event_loop
poll_events-is_call m (available, none) h = ground arith
poll_events-is_call m (available, some es) h =
    ((λ e. event_loop-start m _ es e h), (λ e. ground (arith, e)))

-- Where each reading gives whole events or fails, the thread reads nothing outside its buffer and
-- calls the callback, if it has been given, once for each reading that has an event with a bit of the
-- mask, whatever number of such events it has.
pub thread_func-counts :
    (m : FileMonitor) (rs : List Round)
    → All IsRound rs
    → (m.has_callback ≡ true
        → thread_func m (map poll_of rs) ≡ some (count_calls m.notify_events rs))
      × (m.has_callback ≡ false → thread_func m (map poll_of rs) ≡ some 0)
unfolding thread_func
thread_func-counts m [] h = ground arith
thread_func-counts m (r ∷ rs) h =
    let round = poll_events-is_call m r h.0 in
    let rest = thread_func-counts m rs h.1 in ground (arith, round.0, round.1, rest.0, rest.1)

-- A construction that throws leaves the descriptors of the process as they were; one that does not has
-- one more open, which the destructor closes. It throws unless each of its calls succeeds.
pub file_monitor-balanced :
    (calls : Inotify) (path : Bytes) (events : ℕ) (fds : Descriptors) (f : Failure)
    (m : FileMonitor)
    → let r = file_monitor calls path events fds in
      (r.0 ≡ threw f → r.1 ≡ fds)
      × (r.0 ≡ made m
          → (r.1 ≡ m.f_descriptor ∷ fds) × (destroy m r.1 ≡ fds) × (m.notify_events ≡ events))
      × (is_just calls.init && (is_just calls.add_watch && (calls.get_flags && calls.set_flags))
            ≡ true
          → (r.0 ≢ threw f))
unfolding file_monitor destroy
file_monitor-balanced calls path events fds f m = ground arith
