-- ===== src/Sockets.antt =====
-- What the classes for sockets share: the calls of the system, or of the library UDT, that they make,
-- over a state `W` of the system, the address of a socket, and the exceptions of
-- include/SocketException.h.
pub mod Accounts
pub mod Descriptors
use kadpeer.Prelude.{ℕ, Bool, true, false, Option, none, some}
use kadpeer.Prelude.Int.{ℤ, negsuc}
use kadpeer.Text.{Text, c_str}
use kadpeer.Word.{to_u16}

-- A `sockaddr_in`, with the port and the address in the order of bytes of the machine.
pub record Address : Type 0 where
  pub family : ℕ
  pub ip : ℕ
  pub port : ℕ

-- After `memset`, and `AF_INET`.
abbrev pub no_address : Address
no_address = record { family = 0; ip = 0; port = 0 }

abbrev pub af_inet : ℕ
af_inet = 2

-- `INADDR_ANY` with a port.
abbrev pub any_address : ℤ → Address
any_address port = record { family = af_inet; ip = 0; port = to_u16 port }

-- The address that `connect` uses: an address that was not read stays as it was.
unfoldable pub target : Option ℕ → ℤ → Address → Address
target none port addr = record { family = af_inet; ip = addr.ip; port = to_u16 port }
target (some ip) port addr = record { family = af_inet; ip = ip; port = to_u16 port }

-- -1, which is also `UDT::INVALID_SOCK` and `UDT::ERROR`.
abbrev pub minus_one : ℤ
minus_one = negsuc 0

-- The calls, each with what it returns. `accept` also writes the address of the other end, `recv` what
-- it received, and `inet_pton` the address, if the text is one. `unsupported` is the test of `errno`
-- for `EAFNOSUPPORT`, and the last two are those of `fcntl`.
pub record System (W : Type 0) : Type 0 where
  pub socket_call : W → ℤ × W
  pub setsockopt_call : ℤ → W → ℤ × W
  pub bind_call : ℤ → Address → W → ℤ × W
  pub listen_call : ℤ → W → ℤ × W
  pub accept_call : ℤ → W → ℤ × Address × W
  pub connect_call : ℤ → Address → W → ℤ × W
  pub send_call : ℤ → Text → W → ℤ × W
  pub recv_call : ℤ → ℕ → W → ℤ × Text × W
  pub close_call : ℤ → W → W
  pub inet_pton_call : Text → W → Option ℕ × W
  pub unsupported : W → Bool
  pub get_flags_call : ℤ → W → ℤ
  pub set_flags_call : ℤ → ℕ → W → W

-- The descriptions of the exceptions that are thrown.
pub data SocketException : Type 0 where
  could_not_create : SocketException
  could_not_bind : SocketException
  could_not_listen : SocketException
  could_not_write : SocketException
  could_not_read : SocketException
  could_not_accept : SocketException

pub data Attempt (A : Type 0) : Type 0 where
  returned : A → Attempt A
  thrown : SocketException → Attempt A

-- A step of a constructor, `if ( ! step() ) throw SocketException(e)`: the destructor of the base
-- class runs before the exception leaves.
module _ {S W : Type 0} (destroy : S → W → W) where
  unfoldable pub conclude : SocketException → Bool × S × W → Attempt S × W
  conclude e (true, s, w) = (returned s, w)
  conclude e (false, s, w) = (thrown e, destroy s w)

  unfoldable pub attempt : (S → W → Bool × S × W) → SocketException → S → W → Attempt S × W
  attempt step e s w = conclude e (step s w)

module _ {S W : Type 0} where
  infixl 5 ◌>>=◌
  abbrev pub ◌>>=◌ : Attempt S × W → (S → W → Attempt S × W) → Attempt S × W
  (returned s, w) >>= f = f s w
  (thrown e, w) >>= f = (thrown e, w)

-- What `recv` leaves in `s = buf`: the buffer is filled with zeros before the call.
abbrev pub received : Text → Text
received t = c_str t

-- `MAXRECV`
abbrev pub max_recv : ℕ
max_recv = 500
