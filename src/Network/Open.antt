-- ===== src/Network/Open.antt =====
-- network.c: opening an end point, on what the system answers.
use Prim.Native.Nat.{bit_or}
use craftsman_console.Base.{
  ℕ, Bool, true, false, List, Option, none, some, if◌then◌else◌, length, memcpy, Outcome, ok, ◌>>=◌,
}
use craftsman_console.Base.Int.{ℤ, pos, negsuc}
use craftsman_console.Network.{EndPoint, is_standard, endpoint_init, endpoint_from_fd}

-- `o_nonblock` is fcntl.h's flag and `flags` what fcntl answers first, `none` for -1. The value returned,
-- and the flags that are set.
unfoldable pub network_non_blocking : ℕ → Option ℕ → ℤ → Bool × Option ℕ
network_non_blocking o_nonblock flags fd = if is_standard fd then (false, none) else set flags
  where
    set : Option ℕ → Bool × Option ℕ
    set none = (false, none)
    set (some old) = (true, some (bit_or old o_nonblock))

-- What getaddrinfo finds, as the bytes of the first address, and socket's answer. The options that are
-- set on the socket leave the end point as it is.
unfoldable pub network_configure : Option (List ℕ) → ℤ → EndPoint → Outcome (Bool × EndPoint)
unfolding endpoint_init
network_configure none sfd ep = ok (false, endpoint_init ep)
network_configure (some addr) (negsuc n) ep =
    ok (false, record (endpoint_init ep) { sfd = negsuc n })
network_configure (some addr) (pos fd) ep =
    memcpy (endpoint_init ep).storage 0 (length addr) addr >>= λ storage. ok (
      true,
      record (endpoint_init ep) { sfd = pos fd; storage = storage; used_storage = length addr },
    )

-- socketpair's answer. The value returned, the client and the server.
unfoldable pub network_socketpair :
    Option (ℤ × ℤ) → EndPoint → EndPoint → Bool × EndPoint × EndPoint
unfolding endpoint_from_fd
network_socketpair none client_ep server_ep = (false, client_ep, server_ep)
network_socketpair (some (fd₀, fd₁)) client_ep server_ep =
    (true, endpoint_from_fd fd₀ client_ep, endpoint_from_fd fd₁ server_ep)
