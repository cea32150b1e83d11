-- ===== src/Socket/Opened.antt =====
-- The descriptors that the constructors of src/ClientSocket.cpp and src/ServerSocket.cpp leave open.
use kadpeer.Prelude.{◌≡◌, Bool, true, false, arith, refl}
use kadpeer.Prelude.Int.{ℤ, ◌==ℤ◌}
use kadpeer.Sockets.{
  System, target, minus_one, could_not_bind, could_not_create, could_not_listen, attempt,
}
use kadpeer.Sockets.Descriptors.{
  Laws, Holds, Constructed, Holds-keeps, Holds-close, socket-Holds, attempt-Constructed,
  >>=-Constructed,
}
use kadpeer.Socket.{
  Socket, new_socket, destroy, create, bind, connect, listen, listen_step, client_socket,
  server_socket,
}
use kadpeer.Text.{Text}

abbrev pub descriptor : Socket → ℤ
descriptor s = s.m_sock

module _ {W : Type 0} (sys : System W) {is_open : W → ℤ → Bool} (laws : Laws sys is_open) where
  create-m_sock : (s : Socket) (w : W) → (create sys s w).1.m_sock ≡ (sys.socket_call w).0
  unfolding create
  create-m_sock s w = ground arith

  create_opens :
      (s : Socket) (w : W) (d : ℤ) → is_open (create sys s w).2 d ≡ is_open (sys.socket_call w).1 d
  unfolding create
  create_opens s w d =
      ground (arith, laws.setsockopt_keeps (sys.socket_call w).1 (sys.socket_call w).0 d)

  bind-m_sock : (port : ℤ) (s : Socket) (w : W) → (bind sys port s w).1.m_sock ≡ s.m_sock
  unfolding bind
  bind-m_sock port s w = ground arith

  bind_opens :
      (port : ℤ) (s : Socket) (w : W) (d : ℤ) → is_open (bind sys port s w).2 d ≡ is_open w d
  unfolding bind
  bind_opens port s w d = grind (arith, laws.bind_keeps)

  listen_opens : (s : Socket) (w : W) (d : ℤ) → is_open (listen_step sys s w).2 d ≡ is_open w d
  unfolding listen_step listen
  listen_opens s w d = ground (arith, laws.listen_keeps w s.m_sock d)

  connect-m_sock :
      (host : Text) (port : ℤ) (s : Socket) (w : W)
      → (connect sys host port s w).1.m_sock ≡ s.m_sock
  unfolding connect
  connect-m_sock host port s w = ground arith

  connect_opens :
      (host : Text) (port : ℤ) (s : Socket) (w : W) (d : ℤ)
      → is_open (connect sys host port s w).2 d ≡ is_open w d
  unfolding connect
  connect_opens host port s w d =
      let (read, parsed) = sys.inet_pton_call host w in
      ground (
        arith,
        laws.connect_keeps parsed s.m_sock d (target read port s.m_addr),
        laws.inet_pton_keeps w host d,
      )

  listen-m_sock : (s : Socket) (w : W) → (listen_step sys s w).1.m_sock ≡ s.m_sock
  unfolding listen_step
  listen-m_sock s w = refl

  destroy_closes :
      (s : Socket) (w w' : W)
      → Holds is_open s.m_sock w w'
      → (d : ℤ) → is_open (destroy sys s w') d ≡ is_open w d
  unfolding destroy
  destroy_closes s w w' h = Holds-close laws h

  pub create-valid :
      (s : Socket) (w : W)
      → (create sys s w).0 ≡ true
      → (create sys s w).1.m_sock ==ℤ minus_one ≡ false
  unfolding create
  create-valid s w h = ground arith

  pub create-Holds :
      (s : Socket) (w : W) → Holds is_open (create sys s w).1.m_sock w (create sys s w).2
  create-Holds s w = Holds-keeps (socket-Holds laws w) (create-m_sock s w) (create_opens s w)

  attempt-create-Constructed :
      (s : Socket) (w : W)
      → Constructed is_open descriptor w (attempt (destroy sys) (create sys) could_not_create s w)
  attempt-create-Constructed s w =
      attempt-Constructed descriptor (destroy sys) destroy_closes w (create sys) could_not_create s
        w (create-Holds s w) (create-valid s w)

  -- ClientSocket either throws and leaves the same descriptors open as before, or returns a socket
  -- with a descriptor that was not open, and opens no other.
  pub client_socket-Constructed :
      (host : Text) (port : ℤ) (w : W)
      → Constructed is_open descriptor w (client_socket sys host port w)
  unfolding client_socket
  client_socket-Constructed host port w =
      >>=-Constructed descriptor (destroy sys) destroy_closes w _ (connect sys host port)
        could_not_bind (attempt-create-Constructed new_socket w) (connect-m_sock host port)
        (connect_opens host port)

  -- So does ServerSocket.
  pub server_socket-Constructed :
      (port : ℤ) (w : W) → Constructed is_open descriptor w (server_socket sys port w)
  unfolding server_socket
  server_socket-Constructed port w =
      >>=-Constructed descriptor (destroy sys) destroy_closes w _ (listen_step sys) could_not_listen
        (>>=-Constructed descriptor (destroy sys) destroy_closes w _ (bind sys port) could_not_bind
          (attempt-create-Constructed new_socket w) (bind-m_sock port) (bind_opens port))
        listen-m_sock listen_opens
