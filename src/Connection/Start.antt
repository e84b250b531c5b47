-- ===== src/Connection/Start.antt =====
-- connection.c and network_server.c: the start of a connection and its end. The answers of the system are
-- arguments.
use craftsman_console.Base.{
  ℕ, Bool, true, false, ◌≡◌, List, [], ◌∷◌, Option, none, some, Outcome, ok, ◌>>=◌,
}
use craftsman_console.Base.Int.{ℤ}
use craftsman_console.Network.{
  PollFlags, Polled, interrupted, failed, events, EndPoint, Connected, is_flagged, endpoint_term,
  network_connect, network_ready,
}
use craftsman_console.Network.Open.{network_configure, network_socketpair}

-- The end points, and the one that the server's thread runs on, where there is a thread.
pub record EndPoints : Type 0 where
  pub client_ep : EndPoint
  pub server_ep : EndPoint
  pub thread : Option EndPoint

unfoldable pub server_init : EndPoint → Option EndPoint → Option EndPoint
server_init ep none = some ep
server_init ep (some running) = some running

-- The loop, on what poll answers: `none` where the answers end before it does.
unfoldable pub await_ready : PollFlags → List Polled → EndPoint → Option (Bool × EndPoint)
unfolding network_ready
await_ready flags [] ep = none
await_ready flags (answer ∷ answers) ep =
    let (ready, ep') = network_ready flags answer ep in
    elim ready [
      | true ↦ some (true, ep')
      | false ↦ elim ep'.disconnected [
        | true ↦ some (false, ep')
        | false ↦ await_ready flags answers ep'
      ]
    ]

-- Without a host.
unfoldable pub connection_init_local : Option (ℤ × ℤ) → EndPoints → EndPoints
unfolding network_socketpair server_init
connection_init_local pair c =
    let (paired, client, server) = network_socketpair pair c.client_ep c.server_ep in
    record { client_ep = client; server_ep = server; thread = server_init server c.thread }

-- With a host: what getaddrinfo, socket, connect and poll answer. Neither return value is looked at.
unfoldable pub connection_init_host :
    PollFlags
    → Option (List ℕ)
    → ℤ
    → Connected
    → List Polled
    → EndPoints
    → Outcome (Option (Bool × EndPoint))
unfolding network_configure network_connect await_ready
connection_init_host flags found sfd answer answers c =
    network_configure found sfd c.client_ep >>= λ (configured, ep).
    ok (await_ready flags answers (network_connect answer ep).1)

-- The descriptors that are closed, and the end points.
unfoldable pub connection_term : EndPoints → Option ℤ × Option ℤ × EndPoints
unfolding endpoint_term
connection_term c =
    let (client_fd, client) = endpoint_term c.client_ep in
    let (server_fd, server) = endpoint_term c.server_ep in
    (client_fd, server_fd, record c { client_ep = client; server_ep = server })

-- None of the answers has POLLERR.
abbrev pub NoError : PollFlags → List Polled → Type 0
NoError flags [] = Unit
NoError flags (interrupted ∷ answers) = NoError flags answers
NoError flags (failed errno ∷ answers) = NoError flags answers
NoError flags (events revents ∷ answers) =
    (is_flagged revents flags.poll_err ≡ false) × NoError flags answers
