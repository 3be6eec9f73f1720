-- ===== src/Server/Sockets.antt =====
-- `create_optimized_listener` of src/main.rs. Sockets are a parameter: any step may fail.
use Prim.Native.Nat.{min}
use harbor_router.Common.{
  ℕ, ◌*◌, ◌≤◌, ◌<◌, ◌^◌, ◌-◌, ◌≡◌, arith, Bool, true, Text, Outcome, ok, err, ◌>>=◌, >>=_inverse,
  if◌then◌else◌,
}

pub data Domain : Type 0 where
  ipv4 ipv6 : Domain

pub data SocketOption : Type 0 where
  reuse_address : (enabled : Bool) → SocketOption
  reuse_port : (enabled : Bool) → SocketOption
  nodelay : (enabled : Bool) → SocketOption
  recv_buffer_size : (bytes : ℕ) → SocketOption
  send_buffer_size : (bytes : ℕ) → SocketOption
  keepalive : (enabled : Bool) → SocketOption
  nonblocking : (enabled : Bool) → SocketOption

pub record Sockets : Type 1 where
  pub Address : Type 0
  pub Socket : Type 0
  pub Listener : Type 0
  pub socket_addr : Text → Outcome Address
  pub is_ipv4 : Address → Bool
  pub new_tcp : Domain → Outcome Socket
  pub set : SocketOption → Socket → Outcome Socket
  pub bind : Address → Socket → Outcome Socket
  pub listen : (backlog : ℕ) → Socket → Outcome Socket
  pub from_std : Socket → Outcome Listener
  pub bind_default : Address → Outcome Listener

-- A hint: its failure is ignored.
abbrev pub hint : (net : Sockets) → SocketOption → net.Socket → net.Socket
hint net option socket = elim (net.set option socket) [ ok changed ↦ changed | err e ↦ socket ]

unfoldable pub create_optimized_listener :
    (net : Sockets) → net.Address → (backlog : ℕ) → Outcome net.Listener
create_optimized_listener net addr backlog = do
  socket ← net.new_tcp (if net.is_ipv4 addr then ipv4 else ipv6)
  reusable ← net.set (reuse_address true) socket
  shared ← net.set (reuse_port true) reusable
  prompt ← net.set (nodelay true) shared
  let sized =
      hint net (send_buffer_size (4 * 1024 * 1024))
        (hint net (recv_buffer_size (4 * 1024 * 1024)) prompt)
  kept ← net.set (keepalive true) sized
  bound ← net.bind addr kept
  listening ← net.listen (min backlog (2 ^ 31 - 1)) bound
  async ← net.set (nonblocking true) listening
  net.from_std async

-- The listener is that of a socket which was made to listen with a backlog that fits an `i32`.
pub record IsListening (net : Sockets) (backlog : ℕ) (listener : net.Listener) : Type 0 where
  pub length : ℕ
  pub bound : net.Socket
  pub socket : net.Socket
  pub listened : net.listen length bound ≡ ok socket
  pub within : length ≤ backlog
  pub fits : length < 2 ^ 31

min_within : (n k : ℕ) → min n k ≤ n
min_within n k = omega arith

min_fits : (n : ℕ) → min n (2 ^ 31 - 1) < 2 ^ 31
min_fits n = omega arith

pub create_optimized_listener-IsListening :
    (net : Sockets) (addr : net.Address) (backlog : ℕ) {listener : net.Listener}
    → create_optimized_listener net addr backlog ≡ ok listener
    → IsListening net backlog listener
unfolding create_optimized_listener
create_optimized_listener-IsListening net addr backlog e =
    let (socket, _, e1) = >>=_inverse (net.new_tcp _) _ e in
    let (reusable, _, e2) = >>=_inverse (net.set _ socket) _ e1 in
    let (shared, _, e3) = >>=_inverse (net.set _ reusable) _ e2 in
    let (prompt, _, e4) = >>=_inverse (net.set _ shared) _ e3 in
    let (kept, _, e5) = >>=_inverse (net.set (keepalive true) _) _ e4 in
    let (bound, _, e6) = >>=_inverse (net.bind addr kept) _ e5 in
    let (listening, listened, _) = >>=_inverse (net.listen _ bound) _ e6 in
    record {
      length = _;
      bound = bound;
      socket = listening;
      listened = listened;
      within = min_within backlog (2 ^ 31 - 1);
      fits = min_fits backlog;
    }
