-- ===== src/Video/Frames.antt =====
-- `pump_frames`: the frames of a multipart stream, one after another.
pub mod Parts
pub mod Delivery
pub mod Ends
use robocol.Prelude.{
  ℕ, zero, suc, ◌+◌, Bool, true, false, List, [], ◌∷◌, Option, none, some, ◌==◌, length,
  if◌then◌else◌,
}
use robocol.Wire.{Bytes}
use robocol.Video.Io.{Source, Io, IoError, ok, err, panicked}
use robocol.Video.Lines.{read_header_line}
use robocol.Video.Head.{skip_part_headers}
use robocol.Video.Delim.{read_until_delim}

-- The host: whether it has asked to stop before the k-th frame, and whether it still takes that frame.
pub record Host : Type 0 where
  pub stops : ℕ → Bool
  pub takes : ℕ → Bool

-- The frames that were sent, and `Ok(delivered)`.
pub record Pumped : Type 0 where
  pub frames : List Bytes
  pub delivered : Bool

-- `if jpeg.ends_with(b"\r\n") { jpeg.truncate(jpeg.len() - 2); }`.
unfoldable pub strip_crlf : Bytes → Bytes
strip_crlf [] = []
strip_crlf (a ∷ []) = a ∷ []
strip_crlf (a ∷ b ∷ []) = if a == 0x0d then (if b == 0x0a then [] else a ∷ b ∷ []) else a ∷ b ∷ []
strip_crlf (a ∷ b ∷ c ∷ s) = a ∷ strip_crlf (b ∷ c ∷ s)

abbrev pub stopped : Bool → Pumped
stopped delivered = record { frames = []; delivered = delivered }

abbrev pub after_frame : Bytes → Option Pumped → Option Pumped
after_frame jpeg none = none
after_frame jpeg (some p) = some (record p { frames = jpeg ∷ p.frames })

-- The body of a part, once its headers are read; `none` stands for a panic.
unfoldable pub read_body : Bytes → Io (Option ℕ) → Source → Option (Option Bytes × Source)
unfolding read_until_delim strip_crlf
read_body delim panicked s = none
read_body delim (err e) s = some (none, s)
read_body delim (ok content_length) s =
    let (body, s') = read_until_delim delim s in
    elim body [
      | panicked ↦ none
      | err e ↦ some (none, s')
      | ok bytes ↦ some (some (strip_crlf bytes), s')
    ]

unfoldable pub read_frame : Bytes → Source → Option (Option Bytes × Source)
unfolding skip_part_headers read_body
read_frame delim s = elim (skip_part_headers s) [
  | none ↦ none
  | some (headers, s') ↦ read_body delim headers s'
]

-- Where `let _ = read_header_line(reader)` leaves off: an error of a chunked reader is passed over, and the
-- reader goes on with what is behind it, if anything is.
abbrev pub after_line : List Source → Io Bytes × Source → Source × List Source
after_line [] (line, s) = (s, [])
after_line (t ∷ ts) (err IoError.of_chunks, s) = (t, ts)
after_line (t ∷ ts) (line, s) = (s, t ∷ ts)

-- The loop from the k-th frame on, in a source and those behind it. `none` is a panic, or the fuel run out.
unfoldable pub frames_from : ℕ → Host → Bytes → ℕ → Bool → List Source → Source → Option Pumped
unfolding read_frame read_header_line
frames_from zero host delim k delivered later s = none
frames_from (suc fuel) host delim k delivered later s =
    let next = elim (read_frame delim s) as (λ _. Option Pumped) [
      | none ↦ none
      | some (frame, s') ↦ elim frame [
        | none ↦ some (stopped delivered)
        | some jpeg ↦
            let next = after_line later (read_header_line s') in
            let rest = frames_from fuel host delim (suc k) true next.1 next.0 in
            if host.takes k then after_frame jpeg rest else some (stopped delivered)
      ]
    ] in
    if host.stops k then some (stopped delivered) else next

-- The bytes of a source and of those behind it.
abbrev pub total : List Source → Source → ℕ
total [] s = length s.content
total (t ∷ ts) s = length s.content + total ts t

-- After the first line, without which no frame comes. A frame takes a byte of the stream at least, so its
-- length is fuel enough.
unfoldable pub pump_after : Host → Bytes → List Source → Io Bytes → Source → Option Pumped
unfolding frames_from
pump_after host delim later (err e) s = some (stopped false)
pump_after host delim later panicked s = none
pump_after host delim later (ok line) s =
    frames_from (suc (total later s)) host delim 0 false later s

-- On a reader that goes on behind an error: the bytes up to it are a source that fails, and those behind it
-- are the next one.
unfoldable pub pump_sources : Host → Bytes → Source → List Source → Option Pumped
unfolding read_header_line pump_after
pump_sources host delim s later =
    let (line, s') = read_header_line s in pump_after host delim later line s'

unfoldable pub pump_frames : Host → Bytes → Source → Option Pumped
unfolding pump_sources
pump_frames host delim s = pump_sources host delim s []
