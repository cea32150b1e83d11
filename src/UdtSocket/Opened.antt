-- ===== src/UdtSocket/Opened.antt =====
-- The descriptors that the constructors of src/ClientSocket.cpp and src/ServerSocket.cpp leave open.
use kadpeer.Prelude.{◌≡◌, Bool, true, false, arith, refl}
use kadpeer.Prelude.Int.{ℤ, ◌==ℤ◌, ==ℤ_iff}
use kadpeer.Sockets.{
  System, target, minus_one, could_not_bind, could_not_create, could_not_listen, attempt,
}
use kadpeer.Sockets.Descriptors.{
  Laws, Holds, Constructed, Holds-close, attempt-Constructed, >>=-Constructed,
}
use kadpeer.UdtSocket.{
  UdtSocket, unset_socket, destroy, create, bind, connect, listen, listen_step, udt_client_socket,
  udt_server_socket,
}
use kadpeer.Text.{Text}

abbrev pub descriptor : UdtSocket → ℤ
descriptor s = s.m_usock

module _ {W : Type 0} (sys : System W) {is_open : W → ℤ → Bool} (laws : Laws sys is_open) where
  bind-m_usock : (port : ℤ) (s : UdtSocket) (w : W) → (bind sys port s w).1.m_usock ≡ s.m_usock
  unfolding bind
  bind-m_usock port s w = ground arith

  bind_opens :
      (port : ℤ) (s : UdtSocket) (w : W) (d : ℤ) → is_open (bind sys port s w).2 d ≡ is_open w d
  unfolding bind
  bind_opens port s w d = grind (arith, laws.bind_keeps)

  listen_opens : (s : UdtSocket) (w : W) (d : ℤ) → is_open (listen_step sys s w).2 d ≡ is_open w d
  unfolding listen_step listen
  listen_opens s w d = ground (arith, laws.listen_keeps w s.m_usock d)

  connect-m_usock :
      (host : Text) (port : ℤ) (s : UdtSocket) (w : W)
      → (connect sys host port s w).1.m_usock ≡ s.m_usock
  unfolding connect
  connect-m_usock host port s w = ground arith

  connect_opens :
      (host : Text) (port : ℤ) (s : UdtSocket) (w : W) (d : ℤ)
      → is_open (connect sys host port s w).2 d ≡ is_open w d
  unfolding connect
  connect_opens host port s w d =
      let (read, parsed) = sys.inet_pton_call host w in
      ground (
        arith,
        laws.connect_keeps parsed s.m_usock d (target read port s.m_addr),
        laws.inet_pton_keeps w host d,
      )

  listen-m_usock : (s : UdtSocket) (w : W) → (listen_step sys s w).1.m_usock ≡ s.m_usock
  unfolding listen_step
  listen-m_usock s w = refl

  destroy_closes :
      (s : UdtSocket) (w w' : W)
      → Holds is_open s.m_usock w w'
      → (d : ℤ) → is_open (destroy sys s w') d ≡ is_open w d
  unfolding destroy
  destroy_closes s w w' h = Holds-close laws h

  create-valid :
      (s : UdtSocket) (w : W)
      → (create sys s w).0 ≡ true
      → (create sys s w).1.m_usock ==ℤ minus_one ≡ false
  unfolding create
  create-valid s w h = ground arith

  create-Holds :
      (s : UdtSocket) (w : W) → Holds is_open (create sys s w).1.m_usock w (create sys s w).2
  unfolding create
  create-Holds s w =
      let (fd, opened) = sys.socket_call w in
      record {
        fresh =
            ground
              (arith, laws.minus_one_closed w, laws.socket_fresh w, ==ℤ_iff s.m_usock minus_one);
        opens = λ d. ground (
          arith,
          laws.socket_opens w d,
          laws.setsockopt_keeps opened fd d,
          ==ℤ_iff s.m_usock minus_one,
          ==ℤ_iff d s.m_usock,
          ==ℤ_iff d minus_one,
        );
      }

  attempt-create-Constructed :
      (s : UdtSocket) (w : W)
      → Constructed is_open descriptor w (attempt (destroy sys) (create sys) could_not_create s w)
  attempt-create-Constructed s w =
      attempt-Constructed descriptor (destroy sys) destroy_closes w (create sys) could_not_create s
        w (create-Holds s w) (create-valid s w)

  -- UDTClientSocket either throws and leaves the same descriptors open as before, or returns a socket
  -- with a descriptor that was not open, and opens no other.
  pub udt_client_socket-Constructed :
      (held : ℤ) (host : Text) (port : ℤ) (w : W)
      → Constructed is_open descriptor w (udt_client_socket sys held host port w)
  unfolding udt_client_socket
  udt_client_socket-Constructed held host port w =
      >>=-Constructed descriptor (destroy sys) destroy_closes w _ (connect sys host port)
        could_not_bind (attempt-create-Constructed (unset_socket held) w)
        (connect-m_usock host port) (connect_opens host port)

  -- So does UDTServerSocket.
  pub udt_server_socket-Constructed :
      (held : ℤ) (port : ℤ) (w : W)
      → Constructed is_open descriptor w (udt_server_socket sys held port w)
  unfolding udt_server_socket
  udt_server_socket-Constructed held port w =
      >>=-Constructed descriptor (destroy sys) destroy_closes w _ (listen_step sys) could_not_listen
        (>>=-Constructed descriptor (destroy sys) destroy_closes w _ (bind sys port) could_not_bind
          (attempt-create-Constructed (unset_socket held) w) (bind-m_usock port) (bind_opens port))
        listen-m_usock listen_opens

-- A socket whose descriptor happens to be -1 is never created.
pub create_unset :
    {W : Type 0} (sys : System W) (s : UdtSocket) (w : W)
    → s.m_usock ≡ minus_one
    → create sys s w ≡ (false, s, w)
unfolding create
create_unset sys s w h = ground arith
