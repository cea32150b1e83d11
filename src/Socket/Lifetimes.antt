-- ===== src/Socket/Lifetimes.antt =====
-- The descriptors that a program over the sockets of src/ClientSocket.cpp and src/ServerSocket.cpp leaves
-- open.
use kadpeer.Prelude.{
  ℕ, ◌≡◌, ◌∙◌, inl, inr, refl, sym, ap, subst, ◌&&◌, Bool, not, Option, none, some, false, List, [],
  ◌∷◌, arith, ==_iff, Bool-cases,
}
use kadpeer.Prelude.Int.{ℤ, ◌==ℤ◌, ==ℤ_iff}
use mathlib.Core.Option.{some-injective, none-ne-some}
use kadpeer.Socket.{
  Socket, new_socket, destroy, client_socket, server_socket, server_accept, accept,
}
use kadpeer.Socket.Opened.{client_socket-Constructed, server_socket-Constructed, descriptor}
use kadpeer.Sockets.{System, Attempt, returned, thrown, minus_one}
use kadpeer.Sockets.Accounts.{
  Accounts, Accounts-opens, Accounts-closes, Accounts-congr, losing, losing-minus_one,
}
use kadpeer.Sockets.Descriptors.{Laws, Constructed}
use kadpeer.Threads.{put}
use kadpeer.Socket.Programs.{
  LiveSockets, SocketAction, make_client, make_server, make_unconnected, accept_into, finish_socket,
  held, place_one, place_both, make_socket, accept_socket, end_socket, perform, perform_all,
  no_sockets,
}

abbrev pub fds : {W : Type 0} → LiveSockets W → ℕ → ℤ
fds p i = held (p.object i)

held-put :
    (f : ℕ → Option Socket) (i : ℕ) (o : Option Socket) (j : ℕ)
    → held (put f i o j) ≡ put (λ k. held (f k)) i (held o) j
held-put f i o j = ground arith

module _ {W : Type 0} (sys : System W) {is_open : W → ℤ → Bool} (laws : Laws sys is_open)
    (w0 : W) where
  abbrev Keeps : LiveSockets W → Type 0
  Keeps p = Accounts (fds p) p.lost (is_open w0) (is_open p.world)

  Constructed-Keeps :
      (i : ℕ) (r : Attempt Socket × W) (p : LiveSockets W)
      → p.object i ≡ none
      → Constructed is_open descriptor p.world r
      → Keeps p
      → Keeps (place_one i r p)
  Constructed-Keeps i (returned s, w) p empty (v, h) a =
      Accounts-congr
        (subst (λ l. Accounts (put (fds p) i s.m_sock) l (is_open w0) (is_open w))
          (losing-minus_one (fds p i) p.lost (ap held empty))
          (Accounts-opens a (laws.minus_one_closed p.world) (is_open w) i s.m_sock h.fresh h.opens))
        (held-put p.object i (some s)) (λ d. refl)
  Constructed-Keeps i (thrown e, w) p empty same a =
      Accounts-congr a (λ j. ground (arith, ==_iff j i)) same

  destroy_closes :
      (s : Socket) (w : W) (d : ℤ)
      → is_open (destroy sys s w) d ≡ (is_open w d && not (d ==ℤ s.m_sock))
  unfolding destroy
  destroy_closes s w d = ground (
    arith,
    laws.close_closes w s.m_sock d,
    laws.minus_one_closed w,
    ==ℤ_iff s.m_sock minus_one,
    ==ℤ_iff d s.m_sock,
  )

  finish-Keeps :
      (i : ℕ) (s : Socket) (p : LiveSockets W)
      → p.object i ≡ some s
      → Keeps p
      → Keeps (record p { object = put p.object i none; world = destroy sys s p.world })
  finish-Keeps i s p lives a =
      Accounts-congr
        (Accounts-closes a (laws.minus_one_closed p.world) (is_open (destroy sys s p.world)) i
          (λ d. rw lives (destroy_closes s p.world d)))
        (held-put p.object i none) (λ d. refl)

  accept-Keeps :
      (i j : ℕ) (s t : Socket) (p : LiveSockets W)
      → p.object i ≡ some s
      → p.object j ≡ some t
      → Keeps p
      → Keeps (place_both i j t.m_sock (server_accept sys s t p.world) p)
  unfolding server_accept accept
  accept-Keeps i j s t p lives lives' a =
      Accounts-congr
        (subst
          (λ d.
            Accounts (put (fds p) j (sys.accept_call s.m_sock p.world).0) (losing d p.lost)
              (is_open w0) (is_open (sys.accept_call s.m_sock p.world).2))
          (ap held lives')
          (Accounts-opens a (laws.minus_one_closed p.world)
            (is_open (sys.accept_call s.m_sock p.world).2) j (sys.accept_call s.m_sock p.world).0
            (laws.accept_fresh p.world s.m_sock) (laws.accept_opens p.world s.m_sock)))
        (λ k. ground (arith, ==_iff k i, ==_iff k j)) (λ d. refl)

  make_socket-Keeps :
      (o : Option Socket) (i : ℕ) (r : Attempt Socket × W) (p p' : LiveSockets W)
      → p.object i ≡ o
      → (p.object i ≡ none → Keeps (place_one i r p))
      → make_socket o i r p ≡ some p'
      → Keeps p'
  unfolding make_socket
  make_socket-Keeps none i r p p' at keeps e = subst Keeps (some-injective _ _ e) (keeps at)
  make_socket-Keeps (some s) i r p p' at keeps e = absurd (none-ne-some _ e)

  end_socket-Keeps :
      (o : Option Socket) (i : ℕ) (p p' : LiveSockets W)
      → p.object i ≡ o
      → Keeps p
      → end_socket sys o i p ≡ some p'
      → Keeps p'
  unfolding end_socket
  end_socket-Keeps none i p p' at a e = absurd (none-ne-some _ e)
  end_socket-Keeps (some s) i p p' at a e =
      subst Keeps (some-injective _ _ e) (finish-Keeps i s p at a)

  accept_socket-Keeps :
      (o q : Option Socket) (i j : ℕ) (p p' : LiveSockets W)
      → p.object i ≡ o
      → p.object j ≡ q
      → Keeps p
      → accept_socket sys o q i j p ≡ some p'
      → Keeps p'
  unfolding accept_socket
  accept_socket-Keeps none q i j p p' at at' a e = absurd (none-ne-some _ e)
  accept_socket-Keeps (some s) none i j p p' at at' a e = absurd (none-ne-some _ e)
  accept_socket-Keeps (some s) (some t) i j p p' at at' a e =
      subst Keeps (some-injective _ _ e) (accept-Keeps i j s t p at at' a)

  perform-Keeps :
      (c : SocketAction) (p p' : LiveSockets W) → Keeps p → perform sys c p ≡ some p' → Keeps p'
  unfolding perform
  perform-Keeps (make_client i host port) p p' a =
      make_socket-Keeps (p.object i) i (client_socket sys host port p.world) p p' refl (λ empty.
        Constructed-Keeps i (client_socket sys host port p.world) p empty
          (client_socket-Constructed sys laws host port p.world) a)
  perform-Keeps (make_server i port) p p' a =
      make_socket-Keeps (p.object i) i (server_socket sys port p.world) p p' refl (λ empty.
        Constructed-Keeps i (server_socket sys port p.world) p empty
          (server_socket-Constructed sys laws port p.world) a)
  perform-Keeps (make_unconnected i) p p' a =
      make_socket-Keeps (p.object i) i (returned new_socket, p.world) p p' refl
        (λ empty. Accounts-congr a (λ j. ground (arith, ==_iff j i)) (λ d. refl))
  perform-Keeps (accept_into i j) p p' a =
      accept_socket-Keeps (p.object i) (p.object j) i j p p' refl refl a
  perform-Keeps (finish_socket i) p p' a = end_socket-Keeps (p.object i) i p p' refl a

  next-Keeps :
      (o : Option (LiveSockets W)) (next : LiveSockets W → Option (LiveSockets W))
      (p' : LiveSockets W)
      → ((q : LiveSockets W) → o ≡ some q → Keeps q)
      → ((q : LiveSockets W) → Keeps q → next q ≡ some p' → Keeps p')
      → elim o [ none ↦ none | some q ↦ next q ] ≡ some p'
      → Keeps p'
  next-Keeps none next p' now later e = absurd (none-ne-some _ e)
  next-Keeps (some q) next p' now later e = later q (now q refl) e

  perform_all-Keeps :
      (as_ : List SocketAction) (p p' : LiveSockets W)
      → Keeps p
      → perform_all sys as_ p ≡ some p'
      → Keeps p'
  unfolding perform_all
  perform_all-Keeps [] p p' a = λ e. subst Keeps (some-injective _ _ e) a
  perform_all-Keeps (c ∷ as_) p p' a =
      next-Keeps (perform sys c p) (perform_all sys as_) p' (λ q. perform-Keeps c p q a)
        (λ q. perform_all-Keeps as_ q p')

  no_sockets-Keeps : Keeps (no_sockets w0)
  no_sockets-Keeps = record {
    mine = λ i ne. absurd (ne refl);
    apart = λ i j ne e. refl;
    owned = λ d on. inl on;
    older = λ d on. on;
  }

  -- However a program makes, accepts into and ends sockets, where it makes none over another and copies
  -- none: each that lives and has a descriptor has one that is open, was not open before the program
  -- and is no other's. Every other open descriptor was open before the program, or was lost when its
  -- object accepted another connection, and none of those that were open before was closed.
  pub perform_all-Accounts :
      (as_ : List SocketAction) (p : LiveSockets W)
      → perform_all sys as_ (no_sockets w0) ≡ some p
      → Accounts (fds p) p.lost (is_open w0) (is_open p.world)
  perform_all-Accounts as_ p = perform_all-Keeps as_ (no_sockets w0) p no_sockets-Keeps

  -- Once every socket has ended, the same descriptors are open as before, and those that were lost.
  pub perform_all_ended :
      (as_ : List SocketAction) (p : LiveSockets W)
      → perform_all sys as_ (no_sockets w0) ≡ some p
      → ((i : ℕ) → p.object i ≡ none)
      → (d : ℤ) → p.lost d ≡ false
      → is_open p.world d ≡ is_open w0 d
  perform_all_ended as_ p e over d none_lost =
      let a = perform_all-Accounts as_ p e in
      elim (Bool-cases (is_open p.world d)) [
        | inl on ↦ elim (a.owned d on) [
          | inl before ↦ on ∙ sym before
          | inr (inl l) ↦ cc
          | inr (inr (i, f)) ↦ ground (arith, over i, f, laws.minus_one_closed p.world)
        ]
        | inr off ↦ ground (arith, a.older d, off)
      ]
