-- ===== src/ZeroMq/Socket.antt =====
-- ZeroMQ of src/zeromq/ZeroMQ.cpp: a socket that is started, used and stopped.
use repo_init.Base.{
  [], ℕ, ◌≡◌, refl, subst, inl, inr, Bool, true, false, not, Option, none, some, List, ◌∷◌, ◌++◌,
  arith, if◌then◌else◌, Bool-cases, Bytes,
}

-- The calls on the library's socket that came back, in order.
pub data SocketCall : Type 0 where
  bind connect unbind disconnect : SocketCall

pub record ZeroMq : Type 0 where
  pub socket_addr : Bytes
  pub is_binded : Bool
  pub is_active : Bool
  pub calls : List SocketCall

-- The outcome of a function whose call of the library may throw.
pub data Outcome : Type 0 where
  threw : Outcome
  returned : Bool → Outcome

-- `init`, without the socket's options.
unfoldable pub init : Bytes → Bool → ZeroMq
init addr is_bind = record {
  socket_addr = addr;
  is_binded = is_bind;
  is_active = false;
  calls = [];
}

-- `succeeds` says whether bind or connect comes back.
unfoldable pub start : Bool → ZeroMq → ZeroMq × Outcome
start succeeds z =
    if z.is_active
    then (z, returned false)
    else if succeeds
    then (
      record z {
        calls = z.calls ++ (if z.is_binded then bind else connect) ∷ [];
        is_active = true;
      },
      returned true,
    )
    else (z, threw)

-- `succeeds` says whether unbind or disconnect comes back. `stop` returns nothing: here `true`.
unfoldable pub stop : Bool → ZeroMq → ZeroMq × Outcome
stop succeeds z =
    if not z.is_active
    then (z, returned true)
    else if succeeds
    then (
      record z {
        calls = z.calls ++ (if z.is_binded then unbind else disconnect) ∷ [];
        is_active = false;
      },
      returned true,
    )
    else (z, threw)

-- `incoming` is what recv_multipart stores: the parts of a message, or nothing when it times out.
unfoldable pub recv_messages : ZeroMq → List Bytes → List Bytes
recv_messages z incoming = if not z.is_active then [] else incoming

abbrev value_or : ℕ → Option ℕ → ℕ
value_or d none = d
value_or d (some n) = n

-- What reaches the network, and the result. `sent` is the value of send_multipart.
unfoldable pub send_messages : ZeroMq → Option ℕ → List Bytes → List Bytes × ℕ
send_messages z sent msg = if not z.is_active then ([], 0) else (msg, value_or 0 sent)

-- A use of the socket: `start` or `stop`, with what its call of the library does.
pub data Use : Type 0 where
  starts stops : Bool → Use

unfoldable pub apply : Use → ZeroMq → ZeroMq
unfolding start stop
apply (starts succeeds) z = (start succeeds z).0
apply (stops succeeds) z = (stop succeeds z).0

unfoldable pub apply_all : List Use → ZeroMq → ZeroMq
unfolding apply
apply_all [] z = z
apply_all (u ∷ us) z = apply_all us (apply u z)

-- The calls alternate between attaching and detaching, all of them in the socket's own direction,
-- and `attached` is what they leave.
pub data Alternates (is_bind : Bool) : List SocketCall → Bool → Type 0 where
  fresh : {cs : List SocketCall} → cs ≡ [] → Alternates is_bind cs false
  attach :
      {cs before : List SocketCall}
      → Alternates is_bind before false
      → cs ≡ before ++ (if is_bind then bind else connect) ∷ []
      → Alternates is_bind cs true
  detach :
      {cs before : List SocketCall}
      → Alternates is_bind before true
      → cs ≡ before ++ (if is_bind then unbind else disconnect) ∷ []
      → Alternates is_bind cs false

apply-Alternates :
    (u : Use) (z : ZeroMq)
    → Alternates z.is_binded z.calls z.is_active
    → Alternates (apply u z).is_binded (apply u z).calls (apply u z).is_active
      × ((apply u z).is_binded ≡ z.is_binded)
unfolding apply start stop
apply-Alternates (starts true) z h = elim (Bool-cases z.is_active) [
  | inl y ↦ rw y (rw y at h, refl)
  | inr n ↦ rw n (attach (rw n at h) refl, refl)
]
apply-Alternates (starts false) z h = elim (Bool-cases z.is_active) [
  | inl y ↦ rw y (rw y at h, refl)
  | inr n ↦ rw n (rw n at h, refl)
]
apply-Alternates (stops true) z h = elim (Bool-cases z.is_active) [
  | inl y ↦ rw y (detach (rw y at h) refl, refl)
  | inr n ↦ rw n (rw n at h, refl)
]
apply-Alternates (stops false) z h = elim (Bool-cases z.is_active) [
  | inl y ↦ rw y (rw y at h, refl)
  | inr n ↦ rw n (rw n at h, refl)
]

apply_all-Alternates :
    (us : List Use) (z : ZeroMq)
    → Alternates z.is_binded z.calls z.is_active
    → Alternates z.is_binded (apply_all us z).calls (apply_all us z).is_active
unfolding apply_all
apply_all-Alternates [] z h = h
apply_all-Alternates (u ∷ us) z h =
    let one = apply-Alternates u z h in
    subst (λ b. Alternates b (apply_all us (apply u z)).calls (apply_all us (apply u z)).is_active)
      one.1 (apply_all-Alternates us (apply u z) one.0)

-- Whatever is done with a new socket, and whichever of the library's calls throw, the calls that came
-- back alternate between attaching and detaching, in the socket's own direction, and the socket is
-- active exactly when the last one attached it.
pub init-Alternates :
    (addr : Bytes) (is_bind : Bool) (us : List Use)
    → let z = apply_all us (init addr is_bind) in Alternates is_bind z.calls z.is_active
unfolding init
init-Alternates addr is_bind us = apply_all-Alternates us (init addr is_bind) (fresh refl)

-- A socket that is not active gives no message and sends none, whatever the network holds; an active
-- one passes on what the library gives, and 0 where the library gives no count.
pub messages_active :
    (z : ZeroMq) (incoming msg : List Bytes) (sent : Option ℕ)
    → (z.is_active ≡ false → (recv_messages z incoming ≡ []) × (send_messages z sent msg ≡ ([], 0)))
      × (z.is_active ≡ true
          → (recv_messages z incoming ≡ incoming)
            × ((send_messages z sent msg).0 ≡ msg)
            × (sent ≡ none → (send_messages z sent msg).1 ≡ 0))
unfolding recv_messages send_messages
messages_active z incoming msg sent = ground arith
