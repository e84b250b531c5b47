-- ===== src/Turn/Frame.antt =====
-- command_frame of main.c gathers the next command of each player.
use craftsman_console.Base.{
  ◌>>=◌, ℕ, ◌+◌, ◌≤◌, ◌<◌, ◌≡◌, refl, ap, sym, ◌∙◌, false, List, [], ◌∷◌, ◌++◌, append_assoc, some,
  arith, leb, length, length-append, drop, drop-cons, memcpy, store, memcpy-append, store-append,
  ok,
}
use craftsman_console.Record.{Record, RecordRw, Offset, record_read}
use craftsman_console.Record.Log.{encode}
use craftsman_console.Turn.{frame_buf_len, Framed, prepend, frame_from, command_frame}

-- A player's part in a turn: the record, the command that is next in it, and the record read past it.
pub record Part : Type 0 where
  pub entry : RecordRw
  pub command : List ℕ
  pub moved : RecordRw

abbrev pub entries : List Part → List RecordRw
entries [] = []
entries (p ∷ parts) = p.entry ∷ entries parts

abbrev pub commands_of : List Part → List (List ℕ)
commands_of [] = []
commands_of (p ∷ parts) = p.command ∷ commands_of parts

abbrev pub moved_of : List Part → List RecordRw
moved_of [] = []
moved_of (p ∷ parts) = p.moved ∷ moved_of parts

-- `record_read` gives the player's command.
pub record IsNext (p : Part) : Type 0 where
  pub held : Record
  pub there : p.entry.rec ≡ some held
  pub off : Offset
  pub reads : record_read held p.entry.read_offset ≡ ok (some p.command, off)
  pub moves : p.moved ≡ record p.entry { read_offset = off }

abbrev pub AllNext : List Part → Type 0
AllNext [] = Unit
AllNext (p ∷ parts) = IsNext p × AllNext parts

-- Where the commands stand that are written from an offset on, each with its terminator.
abbrev pub places : ℕ → List (List ℕ) → List (ℕ × ℕ)
places write [] = []
places write (c ∷ cs) = (write, length c) ∷ places (write + length c + 1) cs

frame_from-step :
    (p : Part) (rest : List RecordRw) (write : ℕ) (pre gap ys : List ℕ) (y : ℕ) (framed : Framed)
    → IsNext p
    → write ≡ length pre
    → length p.command < length gap
    → length pre + length gap ≡ frame_buf_len
    → drop (length p.command) gap ≡ y ∷ ys
    → frame_from rest (write + length p.command + 1) ((pre ++ p.command) ++ 0 ∷ ys) ≡ ok framed
    → frame_from (p.entry ∷ rest) write (pre ++ gap)
      ≡ ok (prepend (write, length p.command) p.moved framed)
unfolding frame_from
frame_from-step p rest write pre gap ys y framed n at room whole e later =
    rw (n.there, n.reads, ◌>>=◌)
      (rw fits (
        rw copied (
          rw ended
            (rw later (ap (λ m. ok (prepend (write, length p.command) m framed)) (sym n.moves))))))
  where
    fits : leb frame_buf_len (write + length p.command) ≡ false
    fits = ground arith

    copied :
        memcpy (pre ++ gap) write (length p.command) p.command ≡ ok ((pre ++ p.command) ++ y ∷ ys)
    copied =
        memcpy-append pre gap p.command write (length p.command) at refl (omega arith)
        ∙ ap (λ t. ok (pre ++ (p.command ++ t))) e
        ∙ ap ok (sym (append_assoc pre p.command (y ∷ ys)))

    ended :
        store ((pre ++ p.command) ++ y ∷ ys) (write + length p.command) 0
        ≡ ok ((pre ++ p.command) ++ 0 ∷ ys)
    ended =
        store-append (pre ++ p.command) ys y 0 (write + length p.command)
          (omega (arith, length-append pre p.command))

frame_from-all :
    (parts : List Part) (write : ℕ) (pre gap : List ℕ)
    → AllNext parts
    → write ≡ length pre
    → length (encode (commands_of parts)) ≤ length gap
    → length pre + length gap ≡ frame_buf_len
    → (spare : List ℕ) × (frame_from (entries parts) write (pre ++ gap)
        ≡ ok (record {
          commands = some (places write (commands_of parts));
          buffer = pre ++ (encode (commands_of parts) ++ spare);
          recording = moved_of parts;
        }))
unfolding frame_from
frame_from-all [] write pre gap n at room whole = (gap, refl)
frame_from-all (p ∷ parts) write pre gap n at room whole =
    let (y, ys, e, l) =
      drop-cons (length p.command) gap
        (omega (arith, length-append p.command (0 ∷ encode (commands_of parts)))) in
    let (spare, later) =
      frame_from-all parts (write + length p.command + 1) ((pre ++ p.command) ++ 0 ∷ []) ys n.1
        (omega (arith, written)) (omega (arith, l, body)) (omega (arith, l, written)) in
    (
      spare,
      frame_from-step p (entries parts) write pre gap ys y _ n.0 at (omega (arith, body)) whole e (
            ap (frame_from (entries parts) (write + length p.command + 1))
              (sym (append_assoc (pre ++ p.command) (0 ∷ []) ys))
            ∙ later)
          ∙ ap
              (λ b. ok (record {
                commands = some (places write (commands_of (p ∷ parts)));
                buffer = b;
                recording = moved_of (p ∷ parts);
              }))
              (regroup (encode (commands_of parts)) spare),
    )
  where
    body :
        length (encode (commands_of (p ∷ parts)))
        ≡ length p.command + 1 + length (encode (commands_of parts))
    body = omega (arith, length-append p.command (0 ∷ encode (commands_of parts)))

    written : length ((pre ++ p.command) ++ 0 ∷ []) ≡ length pre + length p.command + 1
    written = omega (arith, length-append (pre ++ p.command) (0 ∷ []), length-append pre p.command)

    regroup :
        (later spare : List ℕ)
        → ((pre ++ p.command) ++ 0 ∷ []) ++ (later ++ spare)
          ≡ pre ++ ((p.command ++ 0 ∷ later) ++ spare)
    regroup later spare = simp append_assoc

-- Where every player has a command to read and the commands with their terminators fit the buffer,
-- `command_frame` returns true: the commands stand in the buffer one behind the other, each at its
-- offset and with its length, in the order of the players, and each player's record is read past
-- its command.
pub command_frame-all :
    (parts : List Part) (buffer : List ℕ)
    → AllNext parts
    → length buffer ≡ frame_buf_len
    → length (encode (commands_of parts)) ≤ frame_buf_len
    → (spare : List ℕ) × (command_frame (entries parts) buffer
        ≡ ok (record {
          commands = some (places 0 (commands_of parts));
          buffer = encode (commands_of parts) ++ spare;
          recording = moved_of parts;
        }))
unfolding command_frame
command_frame-all parts buffer n whole room =
    frame_from-all parts 0 [] buffer n refl (omega (arith, whole)) (omega (arith, whole))
