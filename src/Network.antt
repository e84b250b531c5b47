-- ===== src/Network.antt =====
-- network.c: the end points, and what the program reads of poll's and connect's answers. The
-- system's answers are arguments of the operations.
pub mod Open
use Prim.Native.Nat.{bit_and, bit_or}
use craftsman_console.Base.{
  ℕ, Bool, true, false, not, ◌&&◌, List, map, Option, none, some, leb, ◌==◌, if◌then◌else◌,
}
use craftsman_console.Base.Int.{ℤ, pos, negsuc}

-- `EndPoint_t`
pub record EndPoint : Type 0 where
  pub sfd : ℤ
  pub storage : List ℕ
  pub used_storage : ℕ
  pub connected : Bool
  pub connecting : Bool
  pub disconnected : Bool

-- poll.h's flags
pub record PollFlags : Type 0 where
  pub poll_in : ℕ
  pub poll_out : ℕ
  pub poll_err : ℕ
  pub poll_hup : ℕ
  pub poll_nval : ℕ

-- The values of Linux.
abbrev pub linux_flags : PollFlags
linux_flags = record { poll_in = 1; poll_out = 4; poll_err = 8; poll_hup = 16; poll_nval = 32 }

-- What poll answers: an interruption, another error with its `errno`, or the events.
pub data Polled : Type 0 where
  interrupted : Polled
  failed : ℕ → Polled
  events : ℕ → Polled

-- `FLAGGED` of macro.h as a test
abbrev pub is_flagged : ℕ → ℕ → Bool
is_flagged test_bits set_bit = not (bit_and test_bits set_bit == 0)

abbrev pub stderr_fileno : ℕ
stderr_fileno = 2

-- `fd <= STDERR_FILENO`
abbrev pub is_standard : ℤ → Bool
is_standard (pos fd) = leb fd stderr_fileno
is_standard (negsuc n) = true

unfoldable pub endpoint_from_fd : ℤ → EndPoint → EndPoint
endpoint_from_fd fd ep = record {
  sfd = fd;
  storage = storage_of_zeros ep.storage;
  used_storage = 0;
  connected = false;
  connecting = false;
  disconnected = false;
}
  where
    storage_of_zeros : List ℕ → List ℕ
    storage_of_zeros s = map (λ _. 0) s

unfoldable pub endpoint_init : EndPoint → EndPoint
unfolding endpoint_from_fd
endpoint_init ep = endpoint_from_fd (pos 0) ep

-- The new end point, and the descriptor that is closed.
unfoldable pub endpoint_term : EndPoint → Option ℤ × EndPoint
endpoint_term ep = (if is_standard ep.sfd then none else some ep.sfd, record ep { sfd = pos 0 })

-- connect's answer: success, an interruption (EINTR or EINPROGRESS), or another error.
pub data Connected : Type 0 where
  done in_progress refused : Connected

unfoldable pub network_connect : Connected → EndPoint → Bool × EndPoint
network_connect answer ep = if is_standard ep.sfd then (false, ep) else after answer
  where
    after : Connected → Bool × EndPoint
    after refused = (false, ep)
    after _ = (true, record ep { connecting = true })

-- The value returned, and the end point after it. An error of poll is returned as its `errno`.
unfoldable pub network_poll : PollFlags → Polled → EndPoint → ℕ × EndPoint
network_poll flags interrupted ep = (0, ep)
network_poll flags (failed errno) ep = (errno, ep)
network_poll flags (events revents) ep = (
  revents,
  record ep {
    connected =
        if is_flagged revents (bit_or flags.poll_in flags.poll_out)
        then ep.connecting
        else ep.connected;
    disconnected = if is_flagged revents flags.poll_err then true else ep.disconnected;
  },
)

unfoldable pub network_ready : PollFlags → Polled → EndPoint → Bool × EndPoint
unfolding network_poll
network_ready flags answer ep =
    let ep' = (network_poll flags answer ep).1 in (ep'.connected && not ep'.disconnected, ep')
