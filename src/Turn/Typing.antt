-- ===== src/Turn/Typing.antt =====
-- main.c: what is typed ends in the player's own record.
use craftsman_console.Base.{
  ℕ, ◌+◌, ◌^◌, ◌<◌, ◌≡◌, refl, ap, sym, subst, ◌∙◌, Bool, false, List, [], ◌∷◌, ◌++◌, append_assoc,
  append-nil, some, arith, ◌==◌, length, length-append, ok, ◌>>=◌,
}
use craftsman_console.Record.{initial_bytes, Allocator, Record, Offset, record_append, advance}
use craftsman_console.Record.Log.{encode, Holds}
use craftsman_console.Record.Read.{length-encode_snoc}
use craftsman_console.Record.Growth.{IsModerate, IsPlentiful, record_append-short}
use craftsman_console.Connection.Frames.{record_append-prefix}
use craftsman_console.Turn.{Game, input_callback}
use craftsman_console.Turn.Iteration.{handle_lines}

-- `*input == '!'`
abbrev is_meta : List ℕ → Bool
is_meta [] = false
is_meta (c ∷ line) = c == b'!'

abbrev pub NoMeta : List (List ℕ) → Type 0
NoMeta [] = Unit
NoMeta (line ∷ lines) = (is_meta line ≡ false) × NoMeta lines

abbrev pub with_input : Record → Offset → Game → Game
with_input rec off g = record g {
  input_rw = record g.input_rw { rec = some rec; write_offset = off };
}

callback_appends :
    (m : Allocator) (line : List ℕ) (g : Game) (rec rec' : Record) (off : Offset)
    → is_meta line ≡ false
    → g.input_rw.rec ≡ some rec
    → record_append m (length line) (line ++ 0 ∷ []) rec g.input_rw.write_offset ≡ ok (rec', off)
    → input_callback m (length line) (line ++ 0 ∷ []) g ≡ ok (with_input rec' off g)
unfolding input_callback
callback_appends m [] g rec rec' off n there e = simp (there, e)
callback_appends m (c ∷ line) g rec rec' off n there e = simp (n, there, e)

handle_round :
    (m : Allocator) (line : List ℕ) (lines : List (List ℕ)) (g g' : Game)
    → input_callback m (length line) (line ++ 0 ∷ []) g ≡ ok g'
    → handle_lines m (line ∷ lines) g ≡ handle_lines m lines g'
unfolding handle_lines
handle_round m line lines g g' e = rw (handle_lines, e, ◌>>=◌) refl

-- Each line is shorter than a record's first block.
abbrev pub AllShort : List (List ℕ) → Type 0
AllShort [] = Unit
AllShort (line ∷ lines) = (length line < initial_bytes) × AllShort lines

-- Lines that are typed and do not begin with `!` are appended to the player's record, in order and
-- whatever else they hold, and nothing else of the game changes. The record's block is moderate, the lines
-- are shorter than 4096 bytes, fewer than 2 ^ 28 bytes are used in all, and the allocator does not run
-- out.
pub handle_lines-records :
    (lines cmds : List (List ℕ)) (m : Allocator) (g : Game) (rec : Record)
    → IsPlentiful m
    → g.input_rw.rec ≡ some rec
    → Holds rec g.input_rw.write_offset cmds
    → IsModerate rec
    → NoMeta lines
    → AllShort lines
    → rec.used_bytes + length (encode lines) < 2 ^ 28
    → (rec' : Record) × (off : Offset) × (handle_lines m lines g ≡ ok (with_input rec' off g))
      × Holds rec' off (cmds ++ lines)
      × IsModerate rec'
unfolding handle_lines
handle_lines-records [] cmds m g rec plenty there h moderate n short room = (
  rec,
  g.input_rw.write_offset,
  ap (λ r. ok (record g { input_rw = record g.input_rw { rec = r } })) there,
  subst (Holds rec g.input_rw.write_offset) (sym (append-nil cmds)) h,
  moderate,
)
handle_lines-records (line ∷ lines) cmds m g rec plenty there h moderate n short room =
    let off = g.input_rw.write_offset in
    let body : length (encode (line ∷ lines)) ≡ length line + 1 + length (encode lines) =
      omega (arith, length-append line (0 ∷ encode lines)) in
    let (next, appended, h', moderate') =
      record_append-short m rec off cmds line plenty h moderate short.0 (omega (arith, room)) in
    let used : next.used_bytes ≡ rec.used_bytes + length line + 1 =
      omega (arith, h.used, h'.used, length-encode_snoc cmds line) in
    let called =
      callback_appends m line g rec next (advance off (length line)) n.0 there
        (record_append-prefix m line (0 ∷ []) rec off ∙ appended) in
    let (last, end, later, held, kept) =
      handle_lines-records lines (cmds ++ line ∷ []) m
        (with_input next (advance off (length line)) g) next plenty refl h' moderate' n.1 short.1
        (omega (arith, used, body, room)) in
    (
      last,
      end,
      handle_round m line lines g _ called ∙ later,
      subst (Holds last end) (append_assoc cmds (line ∷ []) lines) held,
      kept,
    )
