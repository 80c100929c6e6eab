-- ===== src/Socket/Owner.antt =====
-- Who owns the descriptor of a Socket: its calls against the rules for descriptors, and what the
-- set-up of a server and `Recv` return.
use high_concurrency_server.Common.{
  ℕ, ◌≡◌, Bool, Option, none, some, List, [], ◌∷◌, ◌==◌, if◌then◌else◌, ◌>>=◌,
}
use high_concurrency_server.Socket.{
  Socket, SysCall, Answers, socket_create, close, create_server_connect, create_client_connect,
  socket_call, reuse_call, no_block_call, bind_call, listen_call, connect_call, close_call,
}

-- The descriptor that is open behind a call, if the call obeys the rules: `socket` is called with
-- none open, every other call is on the open one, and `close` is its last.
unfoldable pub track : Option ℕ → SysCall → Option (Option ℕ)
track none (socket_call r) = some r
track (some fd) (reuse_call (some d)) = if d == fd then some (some fd) else none
track (some fd) (no_block_call (some d)) = if d == fd then some (some fd) else none
track (some fd) (bind_call (some d)) = if d == fd then some (some fd) else none
track (some fd) (listen_call (some d)) = if d == fd then some (some fd) else none
track (some fd) (connect_call (some d)) = if d == fd then some (some fd) else none
track (some fd) (close_call d) = if d == fd then some none else none
track _ _ = none

unfoldable pub tracks : Option ℕ → List SysCall → Option (Option ℕ)
unfolding track
tracks o [] = some o
tracks o (c ∷ cs) = do o' ← track o c; tracks o' cs

-- A Socket holds the descriptor that its calls have left open, and they all obeyed the rules.
-- `start` is the descriptor that it was made with.
abbrev pub Obeys : Option ℕ → Socket → Type 0
Obeys start s = tracks start s.calls ≡ some s.sockfd

-- The calls on a Socket; a descriptor is only made while it holds none.
pub data SocketStep (s : Socket) : Socket → Type 0 where
  create : (r : Option ℕ) → s.sockfd ≡ none → SocketStep s (socket_create r s).0
  server :
      (a : Answers) (is_block : Bool)
      → s.sockfd ≡ none
      → SocketStep s (create_server_connect a is_block s).0
  client : (a : Answers) → s.sockfd ≡ none → SocketStep s (create_client_connect a s).0
  shut : SocketStep s (close s)

pub data SocketRun (s : Socket) : Socket → Type 0 where
  here : SocketRun s s
  next : {t u : Socket} → SocketRun s t → SocketStep t u → SocketRun s u
