-- ===== src/Input.antt =====
-- input.c: standard input, cut into lines. The answers of poll and read are arguments.
pub mod Lines
pub mod Drain
pub mod Poll
pub mod Stream
mod Tests
use craftsman_console.Base.{
  ℕ, zero, suc, ◌-◌, Bool, true, false, List, [], ◌∷◌, Option, none, some, ◌==◌, if◌then◌else◌,
  length, take, set, replicate, memcpy, memmove, Outcome, ok, fault, ◌>>=◌,
}
use craftsman_console.Base.Int.{ℤ, pos, negsuc, ◌+ℤ◌, ◌-ℤ◌}
use craftsman_console.Network.{PollFlags, Polled, is_flagged}

-- `sizeof(buf)`
abbrev pub buf_size : ℕ
buf_size = 4096

abbrev pub buf_len : ℕ
buf_len = buf_size - 1

-- The statics of input.c that change; `polled` is whether `fds[0]` names standard input.
pub record Input : Type 0 where
  pub buf : List ℕ
  pub used_buf : ℤ
  pub polled : Bool

unfoldable pub input_init : Input → Bool × Input
input_init inp = (true, record inp { buf = set inp.buf buf_len 0; polled = true })

unfoldable pub input_shutdown : Input → Bool × Input
input_shutdown inp = (true, record inp { used_buf = pos 0; polled = false })

abbrev next_index : Option ℕ → Option ℕ
next_index none = none
next_index (some i) = some (suc i)

-- `strchr(buf, '\n')` as an index; the search leaves an object without a terminator.
unfoldable pub find_newline : List ℕ → Outcome (Option ℕ)
find_newline [] = fault
find_newline (c ∷ cs) =
    let rest = find_newline cs >>= λ found. ok (next_index found) in
    if c == 10 then ok (some 0) else if c == 0 then ok none else rest

-- The loop over the lines in the buffer, and the lines that the handler is called with. A round takes
-- a byte at least from the string in the buffer, so `buf_size` rounds are enough.
unfoldable pub drain : ℕ → Input → Outcome (List (List ℕ) × Input)
unfolding find_newline
drain zero inp = fault
drain (suc fuel) inp = find_newline inp.buf >>= λ found. elim found [
  | none ↦ ok ([], inp)
  | some end ↦ memmove (suc end) (buf_size - suc end) (set inp.buf end 0) >>= λ moved.
      drain fuel (record inp { buf = moved; used_buf = inp.used_buf -ℤ pos (suc end) })
      >>= λ (later, inp'). ok (take end inp.buf ∷ later, inp')
]

-- The call of read at `buf + used_buf`: the buffer and the count after it. `none` is -1. Below the
-- buffer there is nothing to read into.
unfoldable pub read_from : ℤ → Option (List ℕ) → Input → Outcome Input
read_from (negsuc n) answer inp = fault
read_from (pos used) none inp = ok (record inp { used_buf = pos used -ℤ pos 1 })
read_from (pos used) (some bytes) inp = memcpy inp.buf used (length bytes) bytes >>= λ filled.
    ok (record inp { buf = filled; used_buf = pos used +ℤ pos (length bytes) })

unfoldable pub read_input : Option (List ℕ) → Input → Outcome Input
unfolding read_from
read_input answer inp = read_from inp.used_buf answer inp

-- `used_buf == buf_len`
abbrev pub is_full : ℤ → Bool
is_full (pos used) = used == buf_len
is_full (negsuc n) = false

unfoldable pub drop_long : Input → Input
drop_long inp = if is_full inp.used_buf then record inp { used_buf = pos 0 } else inp

-- The value returned, the lines that the handler is called with, and the state after the call.
unfoldable pub input_poll :
    PollFlags → Polled → Option (List ℕ) → Input → Outcome (Bool × List (List ℕ) × Input)
unfolding read_input drain drop_long
input_poll flags Polled.interrupted answer inp = ok (true, [], inp)
input_poll flags (Polled.failed errno) answer inp = ok (false, [], inp)
input_poll flags (Polled.events revents) answer inp =
    if is_flagged revents flags.poll_in
    then (read_input answer inp >>= λ filled.
        drain buf_size filled >>= λ (lines, inp'). ok (true, lines, drop_long inp'))
    else ok (true, [], inp)
