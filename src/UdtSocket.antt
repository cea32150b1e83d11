-- ===== src/UdtSocket.antt =====
-- include/UDTSocket.h and src/UDTSocket.cpp: a socket of the library UDT, with the sockets of the
-- client and the server, include/UDTClientSocket.h, src/UDTClientSocket.cpp,
-- include/UDTServerSocket.h and src/UDTServerSocket.cpp. The constructor leaves the descriptor unset:
-- what it holds is an argument.
pub mod Opened
use kadpeer.Prelude.{Bool, true, false, not, [], if◌then◌else◌}
use kadpeer.Prelude.Int.{ℤ, pos, ◌==ℤ◌}
use kadpeer.Sockets.{
  System, Address, no_address, any_address, minus_one, max_recv, received, target, Attempt, attempt,
  ◌>>=◌, returned, thrown, SocketException, could_not_create, could_not_bind, could_not_listen,
  could_not_write, could_not_read, could_not_accept,
}
use kadpeer.Text.{Text}

pub record UdtSocket : Type 0 where
  pub m_usock : ℤ
  pub m_addr : Address

abbrev pub unset_socket : ℤ → UdtSocket
unset_socket held = record { m_usock = held; m_addr = no_address }

abbrev pub is_valid : UdtSocket → Bool
is_valid s = not (s.m_usock ==ℤ minus_one)

module _ {W : Type 0} (sys : System W) where
  -- `~UDTSocket`
  unfoldable pub destroy : UdtSocket → W → W
  destroy s w = if is_valid s then sys.close_call s.m_usock w else w

  -- Only a socket whose descriptor happens to be valid makes a new one.
  unfoldable pub create : UdtSocket → W → Bool × UdtSocket × W
  create s w =
      let (fd, opened) = sys.socket_call w in
      let s' = record s { m_usock = fd } in
      let (status, set_up) = sys.setsockopt_call fd opened in
      if not (is_valid s)
      then (false, s, w)
      else if fd ==ℤ minus_one
      then (false, s', opened)
      else (not (status ==ℤ minus_one), s', set_up)

  unfoldable pub bind : ℤ → UdtSocket → W → Bool × UdtSocket × W
  bind port s w =
      let addr = any_address port in
      let (status, w') = sys.bind_call s.m_usock addr w in
      if not (is_valid s)
      then (false, s, w)
      else (not (status ==ℤ minus_one), record s { m_addr = addr }, w')

  unfoldable pub listen : UdtSocket → W → Bool × W
  listen s w =
      let (status, w') = sys.listen_call s.m_usock w in
      if not (is_valid s) then (false, w) else (not (status ==ℤ minus_one), w')

  -- Into `new_socket`; the address of the other end goes into the address of this socket.
  unfoldable pub accept : UdtSocket → UdtSocket → W → Bool × UdtSocket × UdtSocket × W
  accept s sock w =
      let (fd, addr, w') = sys.accept_call s.m_usock w in
      (not (fd ==ℤ minus_one), record s { m_addr = addr }, record sock { m_usock = fd }, w')

  unfoldable pub send : Text → UdtSocket → W → Bool × W
  send t s w = let (status, w') = sys.send_call s.m_usock t w in (not (status ==ℤ minus_one), w')

  -- The result, which is no count, and the text.
  unfoldable pub recv : UdtSocket → W → ℤ × Text × W
  recv s w =
      let (status, bytes, w') = sys.recv_call s.m_usock max_recv w in
      if status ==ℤ minus_one then (pos 0, [], w') else (pos 1, received bytes, w')

  -- `errno` is read whatever `inet_pton` returned.
  unfoldable pub connect : Text → ℤ → UdtSocket → W → Bool × UdtSocket × W
  connect host port s w =
      let (read, parsed) = sys.inet_pton_call host w in
      let addr = target read port s.m_addr in
      let s' = record s { m_addr = addr } in
      let (status, w') = sys.connect_call s.m_usock addr parsed in
      if not (is_valid s)
      then (false, s, w)
      else if sys.unsupported parsed
      then (false, s', parsed)
      else (not (status ==ℤ minus_one), s', w')

  unfoldable pub listen_step : UdtSocket → W → Bool × UdtSocket × W
  unfolding listen
  listen_step s w = let (listens, w') = listen s w in (listens, s, w')

  -- `UDTClientSocket(host, port)`
  unfoldable pub udt_client_socket : ℤ → Text → ℤ → W → Attempt UdtSocket × W
  unfolding create connect destroy attempt
  udt_client_socket held host port w =
      attempt destroy create could_not_create (unset_socket held) w
      >>= attempt destroy (connect host port) could_not_bind

  -- `UDTServerSocket(port)`
  unfoldable pub udt_server_socket : ℤ → ℤ → W → Attempt UdtSocket × W
  unfolding create bind listen_step destroy attempt
  udt_server_socket held port w =
      attempt destroy create could_not_create (unset_socket held) w
      >>= attempt destroy (bind port) could_not_bind
      >>= attempt destroy listen_step could_not_listen

  -- `operator <<` and `operator >>` of both.
  unfoldable pub write : Text → UdtSocket → W → Attempt (Unit {0}) × W
  unfolding send
  write t s w =
      let (sent, w') = send t s w in (if sent then returned tt else thrown could_not_write, w')

  unfoldable pub read : UdtSocket → W → Attempt Text × W
  unfolding recv
  read s w =
      let (status, t, w') = recv s w in
      (if status ==ℤ pos 0 then thrown could_not_read else returned t, w')

  -- `UDTServerSocket::accept`: both sockets are left as `accept` left them, also where it throws.
  unfoldable pub server_accept :
      UdtSocket → UdtSocket → W → Attempt (Unit {0}) × UdtSocket × UdtSocket × W
  unfolding accept
  server_accept s sock w =
      let (accepted, s', sock', w') = accept s sock w in
      (if accepted then returned tt else thrown could_not_accept, s', sock', w')
