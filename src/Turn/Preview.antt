-- ===== src/Turn/Preview.antt =====
-- command_preview of main.c finds the players with the fewest and the most commands ahead.
use craftsman_console.Base.{
  ℕ, zero, suc, ◌≤◌, ◌≡◌, refl, ◌∙◌, ◌⊎◌, inl, inr, List, [], ◌∷◌, some, arith, get_elem?, min, max,
}
use craftsman_console.Record.{RecordRw}
use craftsman_console.Turn.{CommandPreview, turns_ahead, preview_from, command_preview}

-- `n` is what some player is ahead.
abbrev pub IsAhead : ℕ → List RecordRw → Type 0
IsAhead n recording =
    (i : ℕ) × (entry : RecordRw) × (get_elem? recording i ≡ some entry) × (n ≡ turns_ahead entry)

-- The bounds that a preview gives, and that each is a player's or that of the state before.
record Bounds (state : CommandPreview) (recording : List RecordRw) (out : CommandPreview)
    : Type 0 where
  nearest : out.turn_nearest ≤ state.turn_nearest
  farthest : state.turn_farthest ≤ out.turn_farthest
  between :
      (i : ℕ) (entry : RecordRw)
      → get_elem? recording i ≡ some entry
      → (out.turn_nearest ≤ turns_ahead entry) × (turns_ahead entry ≤ out.turn_farthest)
  nearest_of : (out.turn_nearest ≡ state.turn_nearest) ⊎ IsAhead out.turn_nearest recording
  farthest_of : (out.turn_farthest ≡ state.turn_farthest) ⊎ IsAhead out.turn_farthest recording

later :
    (n : ℕ) (e : RecordRw) (recording : List RecordRw)
    → IsAhead n recording
    → IsAhead n (e ∷ recording)
later n e recording (i, entry, at, same) = (suc i, entry, at, same)

min_of : (a b : ℕ) → (min a b ≡ b) ⊎ (min a b ≡ a)
min_of a b = omega arith

max_of : (a b : ℕ) → (max a b ≡ b) ⊎ (max a b ≡ a)
max_of a b = omega arith

preview_from-Bounds :
    (state : CommandPreview) (recording : List RecordRw)
    → Bounds state recording (preview_from state recording)
unfolding preview_from
preview_from-Bounds state [] = record {
  nearest = omega arith;
  farthest = omega arith;
  between = λ i entry e. cc;
  nearest_of = inl refl;
  farthest_of = inl refl;
}
preview_from-Bounds state (e ∷ recording) =
    let state' : CommandPreview = record {
      turn_nearest = min (turns_ahead e) state.turn_nearest;
      turn_farthest = max (turns_ahead e) state.turn_farthest;
    } in
    let rest = preview_from-Bounds state' recording in
    record {
      nearest = omega (arith, rest.nearest);
      farthest = omega (arith, rest.farthest);
      between =
          between_cons e recording state (preview_from state' recording) rest.nearest rest.farthest
            rest.between;
      nearest_of = elim rest.nearest_of [
        | inr ahead ↦ inr (later _ e recording ahead)
        | inl same ↦ elim (min_of (turns_ahead e) state.turn_nearest) [
          | inl old ↦ inl (same ∙ old)
          | inr new ↦ inr (0, e, refl, same ∙ new)
        ]
      ];
      farthest_of = elim rest.farthest_of [
        | inr ahead ↦ inr (later _ e recording ahead)
        | inl same ↦ elim (max_of (turns_ahead e) state.turn_farthest) [
          | inl old ↦ inl (same ∙ old)
          | inr new ↦ inr (0, e, refl, same ∙ new)
        ]
      ];
    }
  where
    between_cons :
        (e : RecordRw) (recording : List RecordRw) (state out : CommandPreview)
        → out.turn_nearest ≤ min (turns_ahead e) state.turn_nearest
        → max (turns_ahead e) state.turn_farthest ≤ out.turn_farthest
        → ((i : ℕ) (entry : RecordRw)
            → get_elem? recording i ≡ some entry
            → (out.turn_nearest ≤ turns_ahead entry) × (turns_ahead entry ≤ out.turn_farthest))
        → (i : ℕ) (entry : RecordRw) → get_elem? (e ∷ recording) i ≡ some entry
        → (out.turn_nearest ≤ turns_ahead entry) × (turns_ahead entry ≤ out.turn_farthest)
    between_cons e recording state out n f rest zero entry at = ground arith
    between_cons e recording state out n f rest (suc i) entry at = rest i entry at

-- What any player is ahead is between `turn_nearest` and `turn_farthest`; the first is at most the
-- length of the queue, and each is what some player is ahead, unless it is the length of the queue or
-- 0.
pub command_preview-bounds :
    (queue_max : ℕ) (recording : List RecordRw) (i : ℕ) (entry : RecordRw)
    → get_elem? recording i ≡ some entry
    → ((command_preview queue_max recording).turn_nearest ≤ queue_max)
      × ((command_preview queue_max recording).turn_nearest ≤ turns_ahead entry)
      × (turns_ahead entry ≤ (command_preview queue_max recording).turn_farthest)
      × (((command_preview queue_max recording).turn_nearest ≡ queue_max)
          ⊎ IsAhead (command_preview queue_max recording).turn_nearest recording)
      × (((command_preview queue_max recording).turn_farthest ≡ 0)
          ⊎ IsAhead (command_preview queue_max recording).turn_farthest recording)
unfolding command_preview
command_preview-bounds queue_max recording i entry at =
    let b =
      preview_from-Bounds (record { turn_nearest = queue_max; turn_farthest = 0 }) recording in
    (b.nearest, (b.between i entry at).0, (b.between i entry at).1, b.nearest_of, b.farthest_of)
