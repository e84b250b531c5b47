-- ===== src/Connection/Waiting.antt =====
-- connection_init of connection.c on a host that is not found.
use Prim.Native.Nat.{bit_or}
use craftsman_console.Base.{
  ℕ, Bool-cases, inl, inr, false, ◌≡◌, refl, ap, ◌∙◌, List, [], ◌∷◌, none, ok,
}
use craftsman_console.Base.Int.{ℤ}
use craftsman_console.Network.{
  PollFlags, Polled, interrupted, failed, events, EndPoint, Connected, is_flagged, endpoint_from_fd,
  endpoint_init, network_connect, network_poll, network_ready,
}
use craftsman_console.Network.Open.{network_configure}
use craftsman_console.Connection.Start.{EndPoints, await_ready, connection_init_host, NoError}

-- No connection is made or on its way, and none has failed.
record IsUnconnected (ep : EndPoint) : Type 0 where
  connected : ep.connected ≡ false
  connecting : ep.connecting ≡ false
  up : ep.disconnected ≡ false

await_round :
    (flags : PollFlags) (answer : Polled) (answers : List Polled) (ep : EndPoint)
    → IsUnconnected (network_poll flags answer ep).1
    → await_ready flags (answer ∷ answers) ep
      ≡ await_ready flags answers (network_poll flags answer ep).1
unfolding await_ready network_ready
await_round flags answer answers ep u = rw (await_ready, network_ready, u.connected, u.up) refl

poll-IsUnconnected :
    (flags : PollFlags) (revents : ℕ) (ep : EndPoint)
    → is_flagged revents flags.poll_err ≡ false
    → IsUnconnected ep
    → IsUnconnected (network_poll flags (events revents) ep).1
unfolding network_poll
poll-IsUnconnected flags revents ep no_error u = record {
  connected = elim (Bool-cases (is_flagged revents (bit_or flags.poll_in flags.poll_out))) [
    | inl e ↦ simp (e, u.connecting)
    | inr e ↦ simp (e, u.connected)
  ];
  connecting = u.connecting;
  up = simp (no_error, u.up);
}

await_ready-unconnected :
    (flags : PollFlags) (answers : List Polled) (ep : EndPoint)
    → NoError flags answers
    → IsUnconnected ep
    → await_ready flags answers ep ≡ none
unfolding network_poll
await_ready-unconnected flags [] ep n u = unfold await_ready in refl
await_ready-unconnected flags (interrupted ∷ answers) ep n u =
    await_round flags interrupted answers ep u ∙ await_ready-unconnected flags answers ep n u
await_ready-unconnected flags (failed errno ∷ answers) ep n u =
    await_round flags (failed errno) answers ep u ∙ await_ready-unconnected flags answers ep n u
await_ready-unconnected flags (events revents ∷ answers) ep n u =
    let next = poll-IsUnconnected flags revents ep n.0 u in
    await_round flags (events revents) answers ep next
    ∙ await_ready-unconnected flags answers (network_poll flags (events revents) ep).1 n.1 next

-- Where getaddrinfo finds no address for the host, `connection_init` does not return, however often poll
-- answers and whatever connect would have answered, as long as poll reports no error of the
-- descriptor 0 that the end point is left with.
pub connection_init_host-unresolved :
    (flags : PollFlags) (sfd : ℤ) (answer : Connected) (answers : List Polled) (c : EndPoints)
    → NoError flags answers
    → connection_init_host flags none sfd answer answers c ≡ ok none
unfolding connection_init_host network_configure network_connect endpoint_init endpoint_from_fd
connection_init_host-unresolved flags sfd answer answers c n = ap ok (
    await_ready-unconnected flags answers (endpoint_init c.client_ep) n
      (record { connected = refl; connecting = refl; up = refl }))
