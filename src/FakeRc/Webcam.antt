-- ===== src/FakeRc/Webcam.antt =====
-- The webcam of the simulated controller: `set_webcam_available` and `send_webcam_frame`.
use robocol.Prelude.{
  ℕ, zero, suc, ◌+◌, ◌%◌, ◌^◌, Bool, true, false, not, List, [], ◌∷◌, length, ltb, take, drop, ◌-◌,
  if◌then◌else◌,
}
use robocol.Prelude.Text.{codes}
use robocol.Wire.{Bytes}
use robocol.Cmd
use robocol.Cmd.{FrameBegin, FrameChunk, frame_chunk_size}
use robocol.Base64.{encode}
use robocol.Client.State.{Clock}
use robocol.FakeRc.Outside.{Outside}
use robocol.FakeRc.State.{FakeRc, send_command}

abbrev pub same : Bool → Bool → Bool
same true b = b
same false b = not b

unfoldable pub set_webcam_available : Clock → Bool → FakeRc → FakeRc
unfolding send_command
set_webcam_available clk available rc =
    if same rc.webcam_available available
    then rc
    else send_command clk Cmd.stream_change (codes (if available then "true" else "false"))
        (record rc { webcam_available = available })

-- `chunks(n)` on `fuel` bytes at most, which is enough where the list is no longer.
unfoldable pub chunks : ℕ → ℕ → Bytes → List Bytes
chunks n zero bs = []
chunks n (suc fuel) [] = []
chunks n (suc fuel) (b ∷ bs) = let rest = chunks n fuel (drop n (b ∷ bs)) in take n (b ∷ bs) ∷ rest

unfoldable pub send_chunks : Outside → Clock → ℕ → ℕ → List Bytes → FakeRc → FakeRc
unfolding send_command
send_chunks out clk frame_num chunk_num [] rc = rc
send_chunks out clk frame_num chunk_num (chunk ∷ rest) rc =
    send_chunks out clk frame_num (chunk_num + 1) rest (
      send_command clk Cmd.receive_frame_chunk
        (out.frame_chunk_string (record {
          frame_num = frame_num;
          chunk_num = chunk_num % 2 ^ 32;
          encoded_data = encode chunk;
        }))
        rc)

-- The frame number is an `i32`, here its 32-bit pattern; `as u64` extends its sign.
unfoldable pub sign_extend : ℕ → ℕ
sign_extend n = if ltb n (2 ^ 31) then n else n + (2 ^ 64 - 2 ^ 32)

unfoldable pub begin_frame : Outside → Clock → ℕ → Bytes → FakeRc → FakeRc
unfolding send_command
begin_frame out clk frame_num jpeg rc =
    send_command clk Cmd.receive_frame_begin
      (out.frame_begin_string (record { frame_num = frame_num; length = length jpeg % 2 ^ 32 })) rc

unfoldable pub send_frame : Outside → Clock → ℕ → Bytes → FakeRc → FakeRc
unfolding begin_frame send_chunks chunks
send_frame out clk frame_num jpeg rc =
    send_chunks out clk frame_num 0 (chunks frame_chunk_size (length jpeg) jpeg)
      (begin_frame out clk frame_num jpeg rc)

unfoldable pub send_webcam_frame : Outside → Clock → FakeRc → FakeRc
unfolding send_frame sign_extend
send_webcam_frame out clk rc =
    send_frame out clk rc.webcam_frame_num
      (out.render_frame (codes "webcam") (sign_extend rc.webcam_frame_num))
      (record rc { webcam_frame_num = (rc.webcam_frame_num + 1) % 2 ^ 32 })
