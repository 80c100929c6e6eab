-- ===== src/Socket/Tests.antt =====
-- A server socket whose `bind` fails, and one that listens.
use high_concurrency_server.Common.{◌≡◌, refl, true, false, some, none, [], ◌∷◌}
use high_concurrency_server.Socket.{
  Socket, Answers, init, close, create_server_connect, bind_listen, socket_call, reuse_call,
  bind_call, listen_call, close_call,
}

-- The port is in use.
abbrev taken_port : Answers
taken_port = record { fd = some 7; bound = false; listening = true; connected = true }

abbrev free_port : Answers
free_port = record taken_port { bound = true }

-- A failed set-up is closed, and the second one succeeds.
abbrev served : Socket
served =
    (create_server_connect free_port false
      (close (create_server_connect taken_port false init).0)).0

served-calls :
    served.calls
    ≡ socket_call (some 7)
      ∷ reuse_call (some 7)
      ∷ bind_call (some 7)
      ∷ close_call 7
      ∷ socket_call (some 7)
      ∷ reuse_call (some 7)
      ∷ bind_call (some 7)
      ∷ listen_call (some 7)
      ∷ []
unfolding create_server_connect init close
served-calls = refl

-- Without a descriptor `Bind` is called on -1, which no rule allows.
bind_no_fd : (bind_listen taken_port init).0.calls ≡ bind_call none ∷ []
unfolding bind_listen init
bind_no_fd = refl
