-- ===== src/Connection/RawSocket.antt =====
-- src/connection/RawSocket.cpp: frames to and from one network interface.
use repo_init.Base.{
  ℕ, ◌+◌, ◌-◌, ◌%◌, ◌^◌, Bool, true, not, ◌||◌, Option, none, some, ◌∷◌, ltb, ◌==◌, if◌then◌else◌,
  length, take, Bytes, add_size,
}
use repo_init.Base.Int.{ℤ, pos, negsuc, sub_ℕ}
use repo_init.Base.Descriptors.{Descriptors, close}
pub mod Laws

-- Times are whole numbers of nanoseconds that a double holds exactly.
pub record RawSocketStats : Type 0 where
  pub sent_bytes : ℕ
  pub received_bytes : ℕ
  pub processing_time : ℕ

-- `sll_ifindex` is of the socket's address; `device` is the name that SO_BINDTODEVICE was given.
pub record RawSocket : Type 0 where
  pub is_ready : Bool
  pub write_mode : Bool
  pub sock_fd : ℕ
  pub i_face : Bytes
  pub sll_ifindex : ℕ
  pub device : Option Bytes
  pub stats : RawSocketStats

abbrev no_stats : RawSocketStats
no_stats = record { sent_bytes = 0; received_bytes = 0; processing_time = 0 }

-- What the constructor's calls answer: an index of 0 is none, and `none` and `false` are the negative
-- results.
pub record Opening : Type 0 where
  pub ifindex : ℕ
  pub socket : Option ℕ
  pub bind_ok : Bool
  pub setsockopt_ok : Bool

pub data Failure : Type 0 where
  no_interface no_socket bind_failed no_option : Failure

pub data Made : Type 0 where
  threw : Failure → Made
  made : RawSocket → Made

-- init: the descriptor, with that the socket is open after it.
pub data Bound : Type 0 where
  unbound : Failure → Bound
  bound : ℕ → Bound

unfoldable pub init : Opening → Descriptors → Bound × Descriptors
init calls fds = elim calls.socket [
  | none ↦ (unbound no_socket, fds)
  | some fd ↦ if calls.bind_ok then (bound fd, fd ∷ fds) else (unbound bind_failed, fd ∷ fds)
]

-- The name in the interface request: IFNAMSIZ is 16.
abbrev pub ifr_name : Bytes → Bytes
ifr_name iface = take (if ltb (length iface) 15 then length iface else 15) iface

abbrev ready : Opening → Bytes → Bool → ℕ → Option Bytes → RawSocket
ready calls iface is_write fd device = record {
  is_ready = true;
  write_mode = is_write;
  sock_fd = fd;
  i_face = iface;
  sll_ifindex = calls.ifindex;
  device = device;
  stats = no_stats;
}

-- The constructor behind `init`.
abbrev finish : Opening → Bytes → Bool → Bound → Made
finish calls iface is_write (unbound f) = threw f
finish calls iface is_write (bound fd) =
    if is_write
    then (if calls.setsockopt_ok
        then made (ready calls iface is_write fd (some (ifr_name iface)))
        else threw no_option)
    else made (ready calls iface is_write fd none)

-- The constructor: where it throws, the destructor does not run.
unfoldable pub raw_socket : Opening → Bytes → Bool → Descriptors → Made × Descriptors
unfolding init
raw_socket calls iface is_write fds =
    if calls.ifindex == 0
    then (threw no_interface, fds)
    else let (b, fds') = init calls fds in (finish calls iface is_write b, fds')

unfoldable pub destroy : RawSocket → Descriptors → Descriptors
destroy s fds = close s.sock_fd fds

-- A conversion to int.
abbrev low_word : ℤ → ℕ
low_word (pos n) = n % 2 ^ 32
low_word (negsuc n) = 2 ^ 32 - 1 - n % 2 ^ 32

abbrev pub to_int : ℤ → ℤ
to_int x = let w = low_word x in if ltb w (2 ^ 31) then pos w else sub_ℕ w (2 ^ 32)

-- The result of `write` or `recvfrom`, and the time that it took.
pub record Io : Type 0 where
  pub result : ℤ
  pub elapsed : ℕ

-- What a result adds to a count.
abbrev pub positive : ℤ → ℕ
positive (pos n) = n
positive (negsuc n) = 0

-- -EPERM.
abbrev pub not_permitted : ℤ
not_permitted = negsuc 0

unfoldable pub write_data : Io → RawSocket → RawSocket × ℤ
write_data io s =
    if not s.is_ready || not s.write_mode
    then (s, not_permitted)
    else let retval = to_int io.result in
      (
        record s {
          stats = record {
            sent_bytes = add_size s.stats.sent_bytes (positive retval);
            received_bytes = s.stats.received_bytes;
            processing_time = s.stats.processing_time + io.elapsed;
          };
        },
        retval,
      )

unfoldable pub read_data : Io → RawSocket → RawSocket × ℤ
read_data io s =
    if not s.is_ready || s.write_mode
    then (s, not_permitted)
    else let retval = to_int io.result in
      (
        record s {
          stats = record {
            sent_bytes = s.stats.sent_bytes;
            received_bytes = add_size s.stats.received_bytes (positive retval);
            processing_time = s.stats.processing_time + io.elapsed;
          };
        },
        retval,
      )

unfoldable pub get_stats : Bool → RawSocket → RawSocket × RawSocketStats
get_stats reset s = (if reset then record s { stats = no_stats } else s, s.stats)
