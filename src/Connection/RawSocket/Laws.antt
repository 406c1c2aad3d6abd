-- ===== src/Connection/RawSocket/Laws.antt =====
-- The counts of a raw socket over its use, and its descriptor.
use repo_init.Base.{
  ℕ, ◌+◌, ◌%◌, ◌≡◌, refl, ◌∙◌, ◌⊎◌, Bool, true, false, some, List, [], ◌∷◌, arith, Bytes, size_mod,
}
use repo_init.Base.Descriptors.{Descriptors}
use repo_init.Connection.RawSocket.{
  RawSocket, Opening, no_interface, no_socket, bind_failed, no_option, threw, made, init,
  raw_socket, destroy, Io, positive, write_data, read_data, get_stats,
}

-- A construction that succeeds opens one descriptor, which the destructor closes; one that fails before
-- the socket is there opens none; but a failure to bind, or to set the option, leaves the descriptor of
-- the socket open, which nothing closes any more.
pub raw_socket-descriptors :
    (calls : Opening) (iface : Bytes) (is_write : Bool) (fds : Descriptors) (s : RawSocket) (fd : ℕ)
    → let r = raw_socket calls iface is_write fds in
      (r.0 ≡ made s
        → (r.1 ≡ s.sock_fd ∷ fds)
          × (destroy s r.1 ≡ fds)
          × (s.is_ready ≡ true)
          × (s.write_mode ≡ is_write))
      × ((r.0 ≡ threw no_interface) ⊎ (r.0 ≡ threw no_socket) → r.1 ≡ fds)
      × (calls.socket ≡ some fd
          → (r.0 ≡ threw bind_failed) ⊎ (r.0 ≡ threw no_option)
          → r.1 ≡ fd ∷ fds)
unfolding raw_socket init destroy
raw_socket-descriptors calls iface is_write fds s fd = ground arith

-- The uses of a socket.
pub data Use : Type 0 where
  writes reads : Io → Use
  asks : Bool → Use

unfoldable pub use_socket : Use → RawSocket → RawSocket
unfolding write_data read_data get_stats
use_socket (writes io) s = (write_data io s).0
use_socket (reads io) s = (read_data io s).0
use_socket (asks reset) s = (get_stats reset s).0

unfoldable pub use_all : List Use → RawSocket → RawSocket
unfolding use_socket
use_all [] s = s
use_all (u ∷ us) s = use_all us (use_socket u s)

-- The bytes that a use has written and read, by what it returned.
unfoldable pub moved : Use → RawSocket → ℕ × ℕ
unfolding write_data read_data
moved (writes io) s = (positive (write_data io s).1, 0)
moved (reads io) s = (0, positive (read_data io s).1)
moved (asks reset) s = (0, 0)

-- The counts that a use has taken out, by a reset.
unfoldable pub taken : Use → RawSocket → ℕ × ℕ
unfolding get_stats
taken (writes io) s = (0, 0)
taken (reads io) s = (0, 0)
taken (asks true) s = ((get_stats true s).1.sent_bytes, (get_stats true s).1.received_bytes)
taken (asks false) s = (0, 0)

abbrev add_pairs : ℕ × ℕ → ℕ × ℕ → ℕ × ℕ
add_pairs a b = (a.0 + b.0, a.1 + b.1)

unfoldable pub total : (Use → RawSocket → ℕ × ℕ) → List Use → RawSocket → ℕ × ℕ
unfolding use_socket
total f [] s = (0, 0)
total f (u ∷ us) s = add_pairs (f u s) (total f us (use_socket u s))

-- The counts of 64 bits after something: those before it, with what was moved, less what was taken out.
pub record IsBalanced (s s' : RawSocket) (m t : ℕ × ℕ) : Type 0 where
  pub sent : (s.stats.sent_bytes + m.0) % size_mod ≡ (s'.stats.sent_bytes + t.0) % size_mod
  pub received :
      (s.stats.received_bytes + m.1) % size_mod ≡ (s'.stats.received_bytes + t.1) % size_mod
  pub same_mode : s'.write_mode ≡ s.write_mode
  pub still_ready : s'.is_ready ≡ s.is_ready
  pub one_way : (s.write_mode ≡ true → m.1 ≡ 0) × (s.write_mode ≡ false → m.0 ≡ 0)

use_socket-IsBalanced :
    (u : Use) (s : RawSocket) → IsBalanced s (use_socket u s) (moved u s) (taken u s)
unfolding use_socket moved taken write_data read_data get_stats
use_socket-IsBalanced (writes io) s = record {
  sent = ground arith;
  received = ground arith;
  same_mode = ground arith;
  still_ready = ground arith;
  one_way = ground arith;
}
use_socket-IsBalanced (reads io) s = record {
  sent = ground arith;
  received = ground arith;
  same_mode = ground arith;
  still_ready = ground arith;
  one_way = ground arith;
}
use_socket-IsBalanced (asks true) s = record {
  sent = ground arith;
  received = ground arith;
  same_mode = refl;
  still_ready = refl;
  one_way = ground arith;
}
use_socket-IsBalanced (asks false) s = record {
  sent = ground arith;
  received = ground arith;
  same_mode = refl;
  still_ready = refl;
  one_way = ground arith;
}

IsBalanced-trans :
    (s s' s'' : RawSocket) (m t m' t' : ℕ × ℕ)
    → IsBalanced s s' m t
    → IsBalanced s' s'' m' t'
    → IsBalanced s s'' (add_pairs m m') (add_pairs t t')
IsBalanced-trans s s' s'' m t m' t' x y = record {
  sent = omega (arith, x.sent, y.sent);
  received = omega (arith, x.received, y.received);
  same_mode = y.same_mode ∙ x.same_mode;
  still_ready = y.still_ready ∙ x.still_ready;
  one_way = (
    (λ e. omega (arith, x.one_way.0 e, y.one_way.0 (x.same_mode ∙ e))),
    (λ e. omega (arith, x.one_way.1 e, y.one_way.1 (x.same_mode ∙ e))),
  );
}

-- Over any writes, reads and requests for the statistics, the bytes that the calls returned are counted
-- once each: those in the counts before, with those returned since, are those in the counts after and
-- those that resets have handed out, in 64 bits. A socket for writing moves nothing in, and one for
-- reading nothing out.
pub use_all-IsBalanced :
    (us : List Use) (s : RawSocket)
    → IsBalanced s (use_all us s) (total moved us s) (total taken us s)
unfolding use_all total
use_all-IsBalanced [] s = record {
  sent = refl;
  received = refl;
  same_mode = refl;
  still_ready = refl;
  one_way = ((λ e. refl), (λ e. refl));
}
use_all-IsBalanced (u ∷ us) s =
    IsBalanced-trans s (use_socket u s) (use_all us (use_socket u s)) (moved u s) (taken u s)
      (total moved us (use_socket u s)) (total taken us (use_socket u s))
      (use_socket-IsBalanced u s) (use_all-IsBalanced us (use_socket u s))
