-- ===== src/Video/Stream.antt =====
-- `stream_once`, `run_stream` and `sleep_or_stop`: one connection, and the loop over connections.
use robocol.Prelude.{
  ℕ, zero, suc, Bool, true, false, List, [], ◌∷◌, ◌++◌, map, Option, none, some, if◌then◌else◌,
}
use robocol.Prelude.Text.{codes}
use robocol.Wire.{Bytes}
use robocol.Video.Io.{Source, Io, ok, err, panicked}
use robocol.Video.Head.{ResponseHead, read_response_head}
use robocol.Video.Chunked.{unchunk}
use robocol.Video.Frames.{Host, Pumped, pump_frames, pump_sources}
pub mod Panes
pub mod Ends

-- A connection on which the request was written: the response, and how much of it the k-th read of a chunk
-- finds on offer.
pub record Connection : Type 0 where
  pub response : Source
  pub offered : ℕ → ℕ

-- The capacity of a `BufReader`.
abbrev pub buffer_size : ℕ
buffer_size = 8192

abbrev pub pump_unchunked : Host → Bytes → Option (Source × List Source) → Option Pumped
pump_unchunked host delim none = none
pump_unchunked host delim (some (s, later)) = pump_sources host delim s later

unfoldable pub pump_body : Host → Connection → Bool → Bytes → Source → Option Pumped
unfolding unchunk pump_frames pump_sources
pump_body host conn true delim s = pump_unchunked host delim (unchunk buffer_size conn.offered s)
pump_body host conn false delim s = pump_frames host delim s

abbrev pub as_ok : Option Pumped → Option (Io Pumped)
as_ok none = none
as_ok (some p) = some (ok p)

-- The rest of the response behind its head; the delimiter is the boundary behind two hyphens.
unfoldable pub after_head :
    Host → Connection → Option (Io ResponseHead × Source) → Option (Io Pumped)
unfolding pump_body
after_head host conn none = none
after_head host conn (some (err e, s)) = some (err e)
after_head host conn (some (panicked, s)) = none
after_head host conn (some (ok head, s)) =
    as_ok (pump_body host conn head.chunked (codes "--" ++ head.boundary) s)

-- `none` is a panic, or the fuel run out.
unfoldable pub stream_once : Host → Connection → Option (Io Pumped)
unfolding read_response_head after_head
stream_once host conn = after_head host conn (read_response_head conn.response)

pub data VideoEvent : Type 0 where
  frame : Bytes → VideoEvent
  disconnected : VideoEvent

-- The checks of `stop` from the k-th on, one for each of the steps that are left, and one behind them.
unfoldable pub sleep_from : ℕ → (ℕ → Bool) → ℕ → Bool
sleep_from zero stops k = stops k
sleep_from (suc steps) stops k = if stops k then true else sleep_from steps stops (suc k)

-- A second in steps of 50 ms.
unfoldable pub sleep_or_stop : (ℕ → Bool) → Bool
unfolding sleep_from
sleep_or_stop stops = sleep_from 20 stops 0

-- One round of the loop: whether `stop` is set before it, the connection, or none where there is an error
-- before the request is written, the host during it, whether the receiver is still there behind it, and the
-- checks of `stop` while the loop waits.
pub record Attempt : Type 0 where
  pub stopped : Bool
  pub connection : Option Connection
  pub host : Host
  pub listens : Bool
  pub stops : ℕ → Bool

-- `unwrap_or_else`: an error is no frame.
abbrev pub nothing_delivered : Pumped
nothing_delivered = record { frames = []; delivered = false }

unfoldable pub outcome : Option (Io Pumped) → Option Pumped
outcome none = none
outcome (some (ok p)) = some p
outcome (some (err e)) = some nothing_delivered
outcome (some panicked) = none

unfoldable pub attempt : Attempt → Option Pumped
unfolding stream_once outcome
attempt a = elim a.connection [
  | none ↦ some nothing_delivered
  | some conn ↦ outcome (stream_once a.host conn)
]

-- The events of a round: its frames, and the word that the pane should clear.
abbrev pub events_of : Bool → Pumped → List VideoEvent
events_of listens p =
    map VideoEvent.frame p.frames
    ++ (if p.delivered then (if listens then VideoEvent.disconnected ∷ [] else []) else [])

abbrev pub then_events : List VideoEvent → Option (List VideoEvent) → Option (List VideoEvent)
then_events es none = none
then_events es (some later) = some (es ++ later)

-- What a round's outcome makes of the rounds behind it.
unfoldable pub continue :
    Attempt → Option Pumped → Option (List VideoEvent) → Option (List VideoEvent)
unfolding sleep_or_stop
continue a none later = none
continue a (some p) later =
    if sleep_or_stop a.stops
    then some (events_of a.listens p)
    else then_events (events_of a.listens p) later

-- The events of a run of the loop, over the rounds that it takes.
unfoldable pub run_stream : List Attempt → Option (List VideoEvent)
unfolding attempt continue
run_stream [] = some []
run_stream (a ∷ rest) =
    let later = run_stream rest in if a.stopped then some [] else continue a (attempt a) later
