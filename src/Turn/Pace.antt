-- ===== src/Turn/Pace.antt =====
-- main.c: the empty commands that keep a player's record in step, and the turns that wait for others.
use craftsman_console.Base.{
  ℕ, Bool, if◌then◌else◌, ◌-◌, zero, suc, ◌+◌, ◌*◌, ◌^◌, ◌≤◌, ◌<◌, ◌≡◌, refl, ap, sym, subst, ◌∙◌,
  inl, true, List, [], ◌∷◌, ◌++◌, append_assoc, append-nil, some, arith, lt→ltb, le→ltb, ◌==◌, min,
  length, length-append, get_elem?, take, replicate, ok, ◌>>=◌,
}
use craftsman_console.Record.{Allocator, Record, RecordRw, Offset, record_append, advance}
use craftsman_console.Record.Log.{IsAllocator, Holds, Fits, record_append-Holds}
use craftsman_console.Loop.{loop_input_queue_max}
use craftsman_console.Turn.{turns_ahead, command_preview}
use craftsman_console.Turn.Preview.{command_preview-bounds}
use craftsman_console.Turn.Step.{Runtime, Play, stalled, stall, take_turn}
use craftsman_console.Turn.Lockstep.{shared_of}
use craftsman_console.Turn.Iteration.{pad_input}

pad_done :
    (fuel : ℕ) (m : Allocator) (target : ℕ) (rw' : RecordRw)
    → target ≤ rw'.write_offset.command_count
    → pad_input fuel m target rw' ≡ ok rw'
unfolding pad_input
pad_done zero m target w h = rw (pad_input, le→ltb _ _ h) refl
pad_done (suc fuel) m target w h = rw (pad_input, le→ltb _ _ h) refl

pad_round :
    (fuel : ℕ) (m : Allocator) (target : ℕ) (entry : RecordRw) (rec rec' : Record) (off : Offset)
    → entry.write_offset.command_count < target
    → entry.rec ≡ some rec
    → record_append m 0 [] rec entry.write_offset ≡ ok (rec', off)
    → pad_input (suc fuel) m target entry
      ≡ pad_input fuel m target (record entry { rec = some rec'; write_offset = off })
unfolding pad_input
pad_round fuel m target entry rec rec' off h there e =
    rw (pad_input, lt→ltb _ _ h, there, ◌>>=◌) (rw (e, ◌>>=◌) refl)

-- Where `k` commands are missing up to the target and the record's block has room for their terminators,
-- `k` rounds of the loop are enough to end it: the record holds the commands that it held and `k`
-- empty ones, and the writer stands at the target. The target is below 2 ^ 32, and twice the block's size below
-- 2 ^ 31.
pub pad_input-fills :
    (k fuel target : ℕ) (m : Allocator) (entry : RecordRw) (rec : Record) (cmds : List (List ℕ))
    → IsAllocator m
    → entry.rec ≡ some rec
    → Holds rec entry.write_offset cmds
    → length cmds + k ≡ target
    → k ≤ fuel
    → target < 2 ^ 32
    → rec.used_bytes + k ≤ rec.alloc_bytes
    → rec.alloc_bytes * 2 < 2 ^ 31
    → (rec' : Record) × (off : Offset) × (pad_input fuel m target entry
        ≡ ok (record entry { rec = some rec'; write_offset = off }))
      × Holds rec' off (cmds ++ replicate k [])
      × (off.command_count ≡ target)
pad_input-fills zero fuel target m entry rec cmds a there h all enough few room small = (
  rec,
  entry.write_offset,
  pad_done fuel m target entry (omega (arith, all, h.counted))
      ∙ ap (λ r. ok (record entry { rec = r })) there,
  subst (Holds rec entry.write_offset) (sym (append-nil cmds)) h,
  omega (arith, all, h.counted),
)
pad_input-fills (suc k) zero target m entry rec cmds a there h all enough few room small =
    absurd (omega (arith, enough))
pad_input-fills (suc k) (suc fuel) target m entry rec cmds a there h all enough few room small =
    let fits : Fits rec entry.write_offset 0 = record {
      one_doubling = omega (arith, h.at_end, room);
      in_range = small;
      count_in_range = omega (arith, h.counted, all, few);
    } in
    let (next, appended, h', kept) =
      record_append-Holds m rec entry.write_offset cmds [] a h fits
        (inl (omega (arith, h.at_end, room))) in
    let block : next.alloc_bytes ≡ rec.alloc_bytes =
      kept
      ∙ ap (λ (t : Bool). if t then rec.alloc_bytes * 2 else rec.alloc_bytes)
          (le→ltb _ _ (omega (arith, h.at_end, room))) in
    let snoc : length (cmds ++ [] ∷ []) ≡ length cmds + 1 = length-append cmds ([] ∷ []) in
    let used : next.used_bytes ≡ rec.used_bytes + 1 =
      omega (arith, h'.at_end, h.at_end, room, small) in
    let (last, off, e, held, count) =
      pad_input-fills k fuel target m
        (record entry { rec = some next; write_offset = advance entry.write_offset 0 }) next
        (cmds ++ [] ∷ []) a refl h' (omega (arith, all, snoc)) (omega (arith, enough)) few
        (omega (arith, used, block, room)) (omega (arith, block, small)) in
    (
      last,
      off,
      pad_round fuel m target entry rec next (advance entry.write_offset 0)
            (omega (arith, all, h.counted)) there appended
          ∙ e,
      subst (Holds last off) (append_assoc cmds ([] ∷ []) (replicate k [])) held,
      count,
    )

pub take_turn-stalls :
    (env : Runtime) (p : Play) (i : ℕ) (entry : RecordRw)
    → get_elem? (take p.player_count p.game_record) i ≡ some entry
    → turns_ahead entry ≡ 0
    → take_turn env p ≡ ok (stalled, stall p)
unfolding take_turn loop_input_queue_max
take_turn-stalls env p i entry at behind =
    let bounds =
      command_preview-bounds (loop_input_queue_max p.game.loop) (take p.player_count p.game_record)
        i entry at in
    let nearest : ((command_preview (loop_input_queue_max p.game.loop)
            (take p.player_count p.game_record)).turn_nearest
          == 0)
        ≡ true =
      ground (arith, bounds.1, behind) in
    rw (take_turn, nearest) refl

-- Where a player has no command that is not read, the turn waits: neither the goal, the world, the frame
-- and the frame store change, nor the records, what is typed, and whether the program ends; and the
-- input queue grows by one, up to its maximum.
pub take_turn-waits :
    (env : Runtime) (p : Play) (i : ℕ) (entry : RecordRw)
    → get_elem? (take p.player_count p.game_record) i ≡ some entry
    → turns_ahead entry ≡ 0
    → p.game.loop.input_queue < 2 ^ 32 - 1
    → (p' : Play) × (take_turn env p ≡ ok (stalled, p'))
      × (shared_of p' ≡ shared_of p)
      × (p'.game_record ≡ p.game_record)
      × (p'.game.input_rw ≡ p.game.input_rw)
      × (p'.game.exiting ≡ p.game.exiting)
      × (p'.game.loop ≡ record p.game.loop {
        input_queue = min (p.game.loop.input_queue + 1) p.game.loop.input_queue_max;
      })
unfolding stall loop_input_queue_max
take_turn-waits env p i entry at behind queue = (
  stall p,
  take_turn-stalls env p i entry at behind,
  refl,
  refl,
  refl,
  refl,
  ap (λ (n : ℕ). record p.game.loop { input_queue = n }) (omega (arith, queue)),
)
