-- ===== src/Socket/Programs.antt =====
-- Programs over several sockets of src/ClientSocket.cpp and src/ServerSocket.cpp. A program ends only
-- what lives, makes no object over another, and copies none.
use kadpeer.Prelude.{ℕ, Option, none, some, List, [], ◌∷◌}
use kadpeer.Prelude.{Bool, false}
use kadpeer.Prelude.Int.{ℤ}
use kadpeer.Socket.{Socket, new_socket, destroy, client_socket, server_socket, server_accept}
use kadpeer.Sockets.{System, Attempt, returned, thrown, minus_one}
use kadpeer.Sockets.Accounts.{losing}
use kadpeer.Text.{Text}
use kadpeer.Threads.{put}

-- The objects that live, by number, and the state of the system.
pub record LiveSockets (W : Type 0) : Type 0 where
  pub object : ℕ → Option Socket
  -- The descriptors that an `accept` into their objects has written over.
  pub lost : ℤ → Bool
  pub world : W

-- What a program does; `accept_into` is `accept` of the first into the second.
pub data SocketAction : Type 0 where
  make_client : ℕ → Text → ℤ → SocketAction
  make_server : ℕ → ℤ → SocketAction
  make_unconnected : ℕ → SocketAction
  accept_into : ℕ → ℕ → SocketAction
  finish_socket : ℕ → SocketAction

-- The descriptor of an object, -1 for one that does not live.
abbrev pub held : Option Socket → ℤ
held none = minus_one
held (some s) = s.m_sock

abbrev pub kept : Attempt Socket → Option Socket
kept (returned s) = some s
kept (thrown e) = none

module _ {W : Type 0} where
  abbrev pub place_one : ℕ → Attempt Socket × W → LiveSockets W → LiveSockets W
  place_one i (r, w) p = record p { object = put p.object i (kept r); world = w }

  -- `gone` is the descriptor that the second object had.
  abbrev pub place_both :
      ℕ → ℕ → ℤ → Attempt (Unit {0}) × Socket × Socket × W → LiveSockets W → LiveSockets W
  place_both i j gone (r, s, t, w) p = record {
    object = put (put p.object i (some s)) j (some t);
    lost = losing gone p.lost;
    world = w;
  }

  -- Each takes what the numbers stand for; `none` where the program breaks the rules.
  unfoldable pub make_socket :
      Option Socket → ℕ → Attempt Socket × W → LiveSockets W → Option (LiveSockets W)
  make_socket none i r p = some (place_one i r p)
  make_socket (some s) i r p = none

  unfoldable pub accept_socket :
      System W → Option Socket → Option Socket → ℕ → ℕ → LiveSockets W → Option (LiveSockets W)
  accept_socket sys none o i j p = none
  accept_socket sys (some s) none i j p = none
  accept_socket sys (some s) (some t) i j p =
      some (place_both i j t.m_sock (server_accept sys s t p.world) p)

  unfoldable pub end_socket : System W → Option Socket → ℕ → LiveSockets W → Option (LiveSockets W)
  end_socket sys none i p = none
  end_socket sys (some s) i p =
      some (record p { object = put p.object i none; world = destroy sys s p.world })

  unfoldable pub perform : System W → SocketAction → LiveSockets W → Option (LiveSockets W)
  unfolding make_socket accept_socket end_socket
  perform sys (make_client i host port) p =
      make_socket (p.object i) i (client_socket sys host port p.world) p
  perform sys (make_server i port) p = make_socket (p.object i) i (server_socket sys port p.world) p
  perform sys (make_unconnected i) p = make_socket (p.object i) i (returned new_socket, p.world) p
  perform sys (accept_into i j) p = accept_socket sys (p.object i) (p.object j) i j p
  perform sys (finish_socket i) p = end_socket sys (p.object i) i p

  unfoldable pub perform_all : System W → List SocketAction → LiveSockets W → Option (LiveSockets W)
  unfolding perform
  perform_all sys [] p = some p
  perform_all sys (a ∷ as_) p = elim (perform sys a p) [
    | none ↦ none
    | some p' ↦ perform_all sys as_ p'
  ]

  abbrev pub no_sockets : W → LiveSockets W
  no_sockets w = record { object = λ i. none; lost = λ d. false; world = w }
