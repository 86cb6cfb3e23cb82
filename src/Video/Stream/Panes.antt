-- ===== src/Video/Stream/Panes.antt =====
-- When a camera's pane is told to clear.
use robocol.Prelude.{
  ◌≡◌, Bool, true, false, ◌&&◌, ◌||◌, not, List, [], ◌∷◌, Option, none, some, if◌then◌else◌,
}
use robocol.Video.Io.{Io}
use robocol.Video.Frames.{Pumped}
use robocol.Video.Stream.{VideoEvent}

abbrev is_empty {ℓ} : {A : Type ℓ} → List A → Bool
is_empty [] = true
is_empty (x ∷ xs) = false

-- What is said to be delivered is just whether there is a frame, now or before.
Tells : Bool → Option Pumped → Type 0
Tells before none = Unit
Tells before (some p) = p.delivered ≡ (before || not (is_empty p.frames))

-- Whether each clearing comes right behind a frame; `shown` tells whether a frame was the last event.
abbrev pub clears_shown : Bool → List VideoEvent → Bool
clears_shown shown [] = true
clears_shown shown (VideoEvent.frame jpeg ∷ es) = clears_shown true es
clears_shown shown (VideoEvent.disconnected ∷ es) = shown && clears_shown false es

-- The word that the pane should clear, where there was a frame and somebody listens.
abbrev clearing : Bool → Bool → List VideoEvent
clearing listens delivered =
    if delivered then (if listens then VideoEvent.disconnected ∷ [] else []) else []

-- Every list of events of the rounds, if there is one.
Clears : Option (List VideoEvent) → Type 0
Clears none = Unit
Clears (some es) = (shown : Bool) → clears_shown shown es ≡ true
