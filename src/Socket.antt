-- ===== src/Socket.antt =====
-- Socket and Acceptor of Sever_final/Sever.hpp. What a system call returned is a parameter of the
-- functions that make it, and `calls` lists the calls that were made. The descriptor -1 is `none`.
pub mod Owner
mod Tests
use high_concurrency_server.Common.{
  ℕ, Bool, true, false, not, ◌||◌, Option, none, some, List, [], ◌∷◌, ◌++◌, leb, ◌==◌,
  if◌then◌else◌,
}

-- The system calls: `socket` with what it returned, and those on the descriptor of the Socket,
-- whatever it is. `close` is only called on one.
pub data SysCall : Type 0 where
  socket_call reuse_call no_block_call bind_call listen_call connect_call : Option ℕ → SysCall
  close_call : ℕ → SysCall

pub record Socket : Type 0 where
  pub sockfd : Option ℕ
  pub calls : List SysCall

unfoldable pub init : Socket
init = record { sockfd = none; calls = [] }

-- `Socket(int fd)`
unfoldable pub of_fd : ℕ → Socket
of_fd fd = record { sockfd = some fd; calls = [] }

-- What `recv` and `send` return, with `errno`; `none` is a negative number.
pub record IoResult : Type 0 where
  pub ret : Option ℕ
  pub errno : ℕ

abbrev pub eintr : ℕ
eintr = 4

abbrev pub eagain : ℕ
eagain = 11

-- `ret <= 0`
abbrev pub positive : Option ℕ → Bool
positive none = false
positive (some n) = not (n == 0)

-- `Recv` and `Send`, which are the same behind their system call; `none` is -1.
unfoldable pub transfer : IoResult → Option ℕ
transfer r =
    if positive r.ret
    then r.ret
    else if (r.errno == eagain) || (r.errno == eintr)
    then some 0
    else none

-- A call on the socket's descriptor, which is made also when this is -1.
abbrev pub on_fd : (Option ℕ → SysCall) → Socket → Socket
on_fd call s = record s { calls = s.calls ++ call s.sockfd ∷ [] }

-- `SocketCreate`: `fd` is what `socket` returned.
unfoldable pub socket_create : Option ℕ → Socket → Socket × Bool
socket_create none s = (record s { sockfd = none; calls = s.calls ++ socket_call none ∷ [] }, false)
socket_create (some fd) s =
    (record s { sockfd = some fd; calls = s.calls ++ socket_call (some fd) ∷ [] }, true)

unfoldable pub close : Socket → Socket
close s = elim s.sockfd [
  | none ↦ s
  | some fd ↦ record { sockfd = none; calls = s.calls ++ close_call fd ∷ [] }
]

-- What the system calls of a set-up return: `bind`, `listen` and `connect` succeed or not.
pub record Answers : Type 0 where
  pub fd : Option ℕ
  pub bound : Bool
  pub listening : Bool
  pub connected : Bool

abbrev pub bind : Answers → Socket → Socket × Bool
bind a s = (on_fd bind_call s, a.bound)

abbrev pub listen : Answers → Socket → Socket × Bool
listen a s = (on_fd listen_call s, a.listening)

abbrev pub connect : Answers → Socket → Socket × Bool
connect a s = (on_fd connect_call s, a.connected)

-- One call stands for the two of the source.
abbrev pub set_address_reuse : Socket → Socket
set_address_reuse s = on_fd reuse_call s

abbrev pub set_no_block : Socket → Socket
set_no_block s = on_fd no_block_call s

-- `Bind`, then `Listen`.
unfoldable pub bind_listen : Answers → Socket → Socket × Bool
bind_listen a s = let (s1, bound) = bind a s in if not bound then (s1, false) else listen a s1

-- The rest of `CreateServerConnect` behind `SocketCreate`.
unfoldable pub serve : Answers → Bool → Socket × Bool → Socket × Bool
unfolding bind_listen
serve a is_block (s, false) = (s, false)
serve a is_block (s, true) =
    let s1 = if is_block then set_no_block s else s in bind_listen a (set_address_reuse s1)

unfoldable pub create_server_connect : Answers → Bool → Socket → Socket × Bool
unfolding serve socket_create
create_server_connect a is_block s = serve a is_block (socket_create a.fd s)

-- The rest of `CreateClientConnect` behind `SocketCreate`.
unfoldable pub reach : Answers → Socket × Bool → Socket × Bool
reach a (s, false) = (s, false)
reach a (s, true) = connect a s

unfoldable pub create_client_connect : Answers → Socket → Socket × Bool
unfolding reach socket_create
create_client_connect a s = reach a (socket_create a.fd s)

-- `HanderRead` of Acceptor: what `accept` returned, handed to the callback if it is a descriptor.
unfoldable pub hander_read {ℓ} : {S : Type ℓ} → (S → ℕ → Option S) → S → Option ℕ → Option S
hander_read acceptor_cb s none = some s
hander_read acceptor_cb s (some newfd) = acceptor_cb s newfd
