-- ===== src/Socket/Received.antt =====
-- What `Socket::recv` and the operators `>>` of src/Socket.cpp, src/ClientSocket.cpp and
-- src/ServerSocket.cpp make of the bytes that arrive, and where the classes go wrong.
use kadpeer.Prelude.{
  ℕ, zero, suc, ◌≡◌, ◌≢◌, ◌⊎◌, ◌≤◌, ◌++◌, inl, inr, refl, Bool, true, false, [], ◌∷◌, none, arith,
  All, ap, sym, subst, length, length-append,
}
use kadpeer.Prelude.Int.{ℤ, pos, ==ℤ_iff}
use kadpeer.Socket.{
  Socket, new_socket, copy_socket, is_valid, create, destroy, connect, client_socket, recv, read,
}
use kadpeer.Socket.Opened.{create-Holds, create-valid}
use kadpeer.Sockets.{System, returned, any_address, max_recv, target, attempt, conclude}
use kadpeer.Sockets.Descriptors.{Laws}
use kadpeer.Text.{Text, c_str}

abbrev NotZero : ℕ → Type 0
NotZero b = b ≢ 0

-- A text without zeros that a text begins with, up to its first zero or to its end.
pub record IsCut (whole cut : Text) : Type 0 where
  pub rest : Text
  pub begins : whole ≡ cut ++ rest
  pub ends : (rest ≡ []) ⊎ ((rest' : Text) × (rest ≡ 0 ∷ rest'))
  pub without_zero : All NotZero cut

c_str-IsCut : (t : Text) → IsCut t (c_str t)
unfolding c_str
c_str-IsCut [] = record { rest = []; begins = refl; ends = inl refl; without_zero = tt }
c_str-IsCut (zero ∷ t) = record {
  rest = 0 ∷ t;
  begins = refl;
  ends = inr (t, refl);
  without_zero = tt;
}
c_str-IsCut (suc b ∷ t) =
    let cut = c_str-IsCut t in
    record {
      rest = cut.rest;
      begins = ground (arith, cut.begins);
      ends = cut.ends;
      without_zero = ((λ e. omega arith), cut.without_zero);
    }

length-IsCut : (whole cut : Text) → IsCut whole cut → length cut ≤ length whole
length-IsCut whole cut c = omega (arith, ap length c.begins, length-append {0} cut c.rest)

module _ {W : Type 0} (sys : System W) where
  read_lem :
      (s : Socket) (w w' : W) (t : Text)
      → read sys s w ≡ (returned t, w')
      → t ≡ c_str (sys.recv_call s.m_sock max_recv w).1
  unfolding read recv
  read_lem s w w' t e = ground arith

  -- The text that >> reads is what arrived up to its first zero, and has at most 500 bytes where the
  -- system writes no more than it is asked for; the rest of what arrived is lost.
  pub read-IsCut :
      (s : Socket) (w w' : W) (t : Text)
      → ((d : ℤ) (n : ℕ) (w : W) → length (sys.recv_call d n w).1 ≤ n)
      → read sys s w ≡ (returned t, w')
      → IsCut (sys.recv_call s.m_sock max_recv w).1 t × (length t ≤ 500)
  read-IsCut s w w' t fits e =
      let bytes = (sys.recv_call s.m_sock max_recv w).1 in
      let cut : IsCut bytes t =
        subst (λ u. IsCut bytes u) (sym (read_lem s w w' t e)) (c_str-IsCut bytes) in
      (cut, omega (arith, length-IsCut bytes t cut, fits s.m_sock max_recv w))

  -- Where two sockets have one descriptor, since one is a copy, and the first was destroyed, the end
  -- of the copy closes the descriptor of a socket that was created in between, if it got that number.
  pub destroy-copy :
      (is_open : W → ℤ → Bool) (s : Socket) (w : W)
      → Laws sys is_open
      → is_valid s ≡ true
      → let (made, t, w') = create sys new_socket (destroy sys s w) in
        made ≡ true
        → t.m_sock ≡ s.m_sock
        → (is_open w' t.m_sock ≡ true) × (is_open (destroy sys (copy_socket s) w') t.m_sock ≡ false)
  unfolding destroy
  destroy-copy is_open s w laws v made same =
      let ended = destroy sys s w in
      let (_, t, w') = create sys new_socket ended in
      let holds = create-Holds sys laws new_socket ended in
      let valid = create-valid sys laws new_socket ended made in
      (
        ground (arith, holds.opens t.m_sock, ==ℤ_iff t.m_sock t.m_sock),
        ground (arith, laws.close_closes w' s.m_sock t.m_sock, ==ℤ_iff t.m_sock s.m_sock),
      )

  -- ClientSocket of a text that is no address connects to the address 0, where errno does not name an
  -- unsupported family.
  pub client_socket_no_address :
      (host : Text) (port : ℤ) (w : W)
      → let (created, s, w') = create sys new_socket w in
        let (parsed, w'') = sys.inet_pton_call host w' in
        let (status, connected) = sys.connect_call s.m_sock (any_address port) w'' in
        created ≡ true
        → parsed ≡ none
        → sys.unsupported w'' ≡ false
        → status ≡ pos 0
        → client_socket sys host port w
          ≡ (returned (record { m_sock = s.m_sock; m_addr = any_address port }), connected)
  unfolding client_socket create connect attempt conclude target
  client_socket_no_address host port w made parsed errno status = ground arith
