-- ===== src/Socket.antt =====
-- include/Socket.h and src/Socket.cpp: a TCP socket, with the sockets of the client and the server,
-- include/ClientSocket.h, src/ClientSocket.cpp, include/ServerSocket.h and src/ServerSocket.cpp. A
-- constructor that throws runs the destructor of its base class.
pub mod Opened
pub mod Received
pub mod Programs
pub mod Lifetimes
use kadpeer.Prelude.{◌-◌, Bool, true, false, not, [], if◌then◌else◌}
use kadpeer.Prelude.Int.{ℤ, pos, negsuc, ◌==ℤ◌, ltb_ℤ}
use kadpeer.Sockets.{
  System, Address, no_address, any_address, minus_one, max_recv, received, target, Attempt, attempt,
  ◌>>=◌, returned, thrown, SocketException, could_not_create, could_not_bind, could_not_listen,
  could_not_write, could_not_read, could_not_accept,
}
use kadpeer.Text.{Text}
use Prim.Native.Nat.{bit_and, bit_or}

pub record Socket : Type 0 where
  pub m_sock : ℤ
  pub m_addr : Address

abbrev pub new_socket : Socket
new_socket = record { m_sock = minus_one; m_addr = no_address }

-- The copy constructor.
abbrev pub copy_socket : Socket → Socket
copy_socket sock = record { m_sock = sock.m_sock; m_addr = sock.m_addr }

-- `operator =`, to another socket: the descriptor that it had stays open.
abbrev pub assign_socket : Socket → Socket → Socket
assign_socket this sock = record this { m_sock = sock.m_sock; m_addr = sock.m_addr }

abbrev pub is_valid : Socket → Bool
is_valid s = not (s.m_sock ==ℤ minus_one)

module _ {W : Type 0} (sys : System W) where
  -- `~Socket`
  unfoldable pub destroy : Socket → W → W
  destroy s w = if is_valid s then sys.close_call s.m_sock w else w

  unfoldable pub create : Socket → W → Bool × Socket × W
  create s w =
      let (fd, opened) = sys.socket_call w in
      let s' = record s { m_sock = fd } in
      let (status, set_up) = sys.setsockopt_call fd opened in
      if not (is_valid s') then (false, s', opened) else (not (status ==ℤ minus_one), s', set_up)

  unfoldable pub bind : ℤ → Socket → W → Bool × Socket × W
  bind port s w =
      let addr = any_address port in
      let (status, w') = sys.bind_call s.m_sock addr w in
      if not (is_valid s)
      then (false, s, w)
      else (not (status ==ℤ minus_one), record s { m_addr = addr }, w')

  unfoldable pub listen : Socket → W → Bool × W
  listen s w =
      let (status, w') = sys.listen_call s.m_sock w in
      if not (is_valid s) then (false, w) else (not (status ==ℤ minus_one), w')

  -- Into `new_socket`; the address of the other end goes into the address of this socket.
  unfoldable pub accept : Socket → Socket → W → Bool × Socket × Socket × W
  accept s sock w =
      let (fd, addr, w') = sys.accept_call s.m_sock w in
      (ltb_ℤ (pos 0) fd, record s { m_addr = addr }, record sock { m_sock = fd }, w')

  unfoldable pub send : Text → Socket → W → Bool × W
  send t s w = let (status, w') = sys.send_call s.m_sock t w in (not (status ==ℤ minus_one), w')

  -- The result, and the text.
  unfoldable pub recv : Socket → W → ℤ × Text × W
  recv s w =
      let (status, bytes, w') = sys.recv_call s.m_sock max_recv w in
      if status ==ℤ minus_one
      then (pos 0, [], w')
      else if status ==ℤ pos 0
      then (pos 0, [], w')
      else (status, received bytes, w')

  -- `errno` is read whatever `inet_pton` returned.
  unfoldable pub connect : Text → ℤ → Socket → W → Bool × Socket × W
  connect host port s w =
      let (read, parsed) = sys.inet_pton_call host w in
      let addr = target read port s.m_addr in
      let s' = record s { m_addr = addr } in
      let (status, w') = sys.connect_call s.m_sock addr parsed in
      if not (is_valid s)
      then (false, s, w)
      else if sys.unsupported parsed
      then (false, s', parsed)
      else (status ==ℤ pos 0, s', w')

  -- `set_non_blocking`, with 2048 for `O_NONBLOCK`.
  unfoldable pub set_non_blocking : Bool → Socket → W → W
  set_non_blocking b s w = elim (sys.get_flags_call s.m_sock w) [
    | negsuc n ↦ w
    | pos opts ↦
        sys.set_flags_call s.m_sock (if b then bit_or opts 2048 else opts - bit_and opts 2048) w
  ]

  unfoldable pub listen_step : Socket → W → Bool × Socket × W
  unfolding listen
  listen_step s w = let (listens, w') = listen s w in (listens, s, w')

  -- `ClientSocket(host, port)`
  unfoldable pub client_socket : Text → ℤ → W → Attempt Socket × W
  unfolding create connect destroy attempt
  client_socket host port w =
      attempt destroy create could_not_create new_socket w
      >>= attempt destroy (connect host port) could_not_bind

  -- `ServerSocket(port)`
  unfoldable pub server_socket : ℤ → W → Attempt Socket × W
  unfolding create bind listen_step destroy attempt
  server_socket port w =
      attempt destroy create could_not_create new_socket w
      >>= attempt destroy (bind port) could_not_bind
      >>= attempt destroy listen_step could_not_listen

  -- `operator <<` and `operator >>` of both.
  unfoldable pub write : Text → Socket → W → Attempt (Unit {0}) × W
  unfolding send
  write t s w =
      let (sent, w') = send t s w in (if sent then returned tt else thrown could_not_write, w')

  unfoldable pub read : Socket → W → Attempt Text × W
  unfolding recv
  read s w =
      let (status, t, w') = recv s w in
      (if status ==ℤ pos 0 then thrown could_not_read else returned t, w')

  -- `ServerSocket::accept`: both sockets are left as `accept` left them, also where it throws.
  unfoldable pub server_accept : Socket → Socket → W → Attempt (Unit {0}) × Socket × Socket × W
  unfolding accept
  server_accept s sock w =
      let (accepted, s', sock', w') = accept s sock w in
      (if accepted then returned tt else thrown could_not_accept, s', sock', w')
