-- ===== src/Connection/Print.antt =====
-- connection.c: the statistics of the connection that are printed at the end of the program.
use craftsman_console.Base.{ℕ, zero, suc, ◌+◌, Bool, true, false, List, [], ◌∷◌, get_or}
use craftsman_console.Print.{number, Printed, printf, puts}
use craftsman_console.Connection.{Connection, max_player}

abbrev bit : Bool → ℕ
bit true = 1
bit false = 0

-- The loop over the players, from player `i` on.
print_players : ℕ → ℕ → Connection → List Printed
print_players zero i c = []
print_players (suc left) i c =
    printf "player %d: %d messages_processed %d bytes\n" (
      number i
      ∷ number (get_or c.messages_processed i 0)
      ∷ number (get_or c.bytes_processed i 0)
      ∷ [])
    ∷ print_players left (i + 1) c

unfoldable pub connection_print_stats : Connection → List Printed
unfolding print_players
connection_print_stats c =
    puts "--net stats"
    ∷ printf "[ Received_bytes %d ]  [ unprocessed %zu ] [write buffering state %d]\n"
        (number c.bytes_received ∷ number c.used_receive_buffer ∷ number (bit c.buffering) ∷ [])
    ∷ print_players max_player 0 c
