-- ===== src/Tests/Endpoints.antt =====
-- A system with one descriptor, 3, where every text but one is an address, and the theorems on sockets.
use kadpeer.Prelude.{
  ℕ, ◌≡◌, ◌≤◌, ◌&&◌, ◌||◌, not, refl, Bool, true, false, [], ◌∷◌, none, arith, length, take,
  length-take, List, some,
}
use kadpeer.Prelude.Int.{ℤ, pos, ◌==ℤ◌, ==ℤ_iff}
use kadpeer.Socket.{Socket, new_socket, destroy, create, client_socket, recv, read, copy_socket}
use kadpeer.Socket.Lifetimes.{perform_all-Accounts, fds}
use kadpeer.Socket.Programs.{SocketAction, make_client, finish_socket, LiveSockets, perform_all}
use kadpeer.Sockets.Accounts.{Accounts}
use kadpeer.Threads.{put}
use kadpeer.Socket.Received.{IsCut, read-IsCut, destroy-copy, client_socket_no_address}
use kadpeer.Sockets.{System, returned, minus_one, any_address, no_address}
use kadpeer.Sockets.Descriptors.{Laws}
use kadpeer.Text.{Text, c_str}

-- Whether the descriptor is open.
abbrev is_open : Bool → ℤ → Bool
is_open w d = w && d ==ℤ pos 3

abbrev opened : Bool → ℤ
opened true = minus_one
opened false = pos 3

-- What arrives is always the same: 5, 6, 0, 7.
abbrev arriving : Text
arriving = 5 ∷ 6 ∷ 0 ∷ 7 ∷ []

abbrev one_descriptor : System Bool
one_descriptor = record {
  socket_call = λ w. (opened w, true);
  setsockopt_call = λ d w. (pos 0, w);
  bind_call = λ d a w. (pos 0, w);
  listen_call = λ d w. (pos 0, w);
  accept_call = λ d w. (opened w, no_address, true);
  connect_call = λ d a w. (pos 0, w);
  send_call = λ d t w. (pos (length t), w);
  recv_call = λ d n w. (pos (length (take n arriving)), take n arriving, w);
  close_call = λ d w. w && not (d ==ℤ pos 3);
  inet_pton_call = λ t w. (none, w);
  unsupported = λ w. false;
  get_flags_call = λ d w. pos 0;
  set_flags_call = λ d n w. w;
}

abbrev closed_one : ℤ → Bool → Bool
closed_one d w = w && not (d ==ℤ pos 3)

opens_lem :
    (w : Bool) (d : ℤ) → is_open true d ≡ (is_open w d || (d ==ℤ opened w && not (d ==ℤ minus_one)))
opens_lem true d = ground arith
opens_lem false d = ground (arith, ==ℤ_iff d (pos 3), ==ℤ_iff d minus_one)

fresh_lem : (w : Bool) → is_open w (opened w) ≡ false
fresh_lem true = refl
fresh_lem false = refl

one_descriptor-Laws : Laws one_descriptor is_open
one_descriptor-Laws = record {
  minus_one_closed = λ w. ground arith;
  socket_fresh = fresh_lem;
  socket_opens = opens_lem;
  accept_fresh = λ w s. fresh_lem w;
  accept_opens = λ w s d. opens_lem w d;
  close_closes = λ w s d. ground (arith, ==ℤ_iff d (pos 3), ==ℤ_iff s (pos 3), ==ℤ_iff d s);
  setsockopt_keeps = λ w s d. refl;
  bind_keeps = λ w s d a. refl;
  listen_keeps = λ w s d. refl;
  connect_keeps = λ w s d a. refl;
  inet_pton_keeps = λ w t d. refl;
}

abbrev connected_socket : Socket
connected_socket = record { m_sock = pos 3; m_addr = any_address (pos 80) }

-- The second client finds no descriptor, and the third the one of the first.
abbrev reused : List SocketAction
reused =
    make_client 0 [] (pos 80)
    ∷ make_client 1 [] (pos 81)
    ∷ finish_socket 0
    ∷ make_client 2 [] (pos 82)
    ∷ []

abbrev third : Socket
third = record { m_sock = pos 3; m_addr = any_address (pos 82) }

abbrev after_reuse : LiveSockets Bool
after_reuse = record {
  object = put (put (put (put (λ i. none) 0 (some connected_socket)) 1 none) 0 none) 2 (some third);
  lost = λ d. false;
  world = true;
}

perform_all-Accounts_example :
    Accounts (fds after_reuse) after_reuse.lost (is_open false) (is_open true)
unfolding perform_all client_socket kadpeer.Sockets.conclude kadpeer.Sockets.target
perform_all-Accounts_example =
    perform_all-Accounts one_descriptor one_descriptor-Laws false reused after_reuse refl

length-arriving : (n : ℕ) → length (take n arriving) ≤ n
length-arriving n = omega (arith, length-take {0} n arriving)

read-IsCut_example : IsCut arriving (5 ∷ 6 ∷ []) × (length {A = ℕ} (5 ∷ 6 ∷ []) ≤ 500)
unfolding read recv c_str
read-IsCut_example =
    read-IsCut one_descriptor connected_socket true true (5 ∷ 6 ∷ []) (λ d n w. length-arriving n)
      refl

-- The copy of a socket that was destroyed closes the descriptor of the next one.
destroy-copy_example :
    let (made, t, w') =
      create one_descriptor new_socket (destroy one_descriptor connected_socket true) in
    (is_open w' t.m_sock ≡ true)
    × (is_open (destroy one_descriptor (copy_socket connected_socket) w') t.m_sock ≡ false)
unfolding create destroy
destroy-copy_example =
    destroy-copy one_descriptor is_open connected_socket true one_descriptor-Laws refl refl refl

client_socket_no_address_example :
    client_socket one_descriptor [] (pos 80) false ≡ (returned connected_socket, true)
unfolding create
client_socket_no_address_example =
    client_socket_no_address one_descriptor [] (pos 80) false refl refl refl refl
