-- ===== src/Client/Invariant.antt =====
-- The invariant of the worker, and the methods that send.
pub mod Webcam
pub mod Receiving
pub mod Always
use robocol.Prelude.{
  ℕ, zero, suc, ◌+◌, ◌-◌, ◌*◌, ◌/◌, ◌%◌, ◌^◌, ◌≤◌, ◌<◌, ◌≡◌, refl, ap, Bool, true, false, List, [],
  ◌∷◌, ◌++◌, Option, none, some, arith, length, length-append, set, get_or, All, leb, ltb, ◌==◌,
  if◌then◌else◌, Option-cases, inl, inr,
}
use robocol.Wire.{Bytes}
use robocol.Types.{RobotState}
use robocol.Packets.Command.{Command}
use robocol.Packets.Packet.{Packet}
use robocol.Packets.Gamepad.{Gamepad}
use robocol.Packets.PeerDiscovery
use robocol.Client.State.{
  SocketAddr, Event, Clock, Worker, PendingCommand, PartialFrame, emit, send_to, next_seq,
  drop_peer, update_robot_state,
}
use robocol.Client.Commands.{
  stamped, make_room, drop_oldest, push_pending, queue_command, Scan, scan, scan_one, send_all,
  report_dropped, retransmit_to, retransmit_pending, transmit_gamepad, discover, beat, tick,
}

-- Chunks that are still missing.
abbrev pub missing : List Bool → ℕ
missing [] = 0
missing (true ∷ r) = missing r
missing (false ∷ r) = suc (missing r)

-- A frame under assembly: `remaining` counts the chunks that are missing.
abbrev pub IsPartial : ℕ × PartialFrame → Type 0
IsPartial e = e.1.remaining ≡ missing e.1.received

pub record IsValid (w : Worker) : Type 0 where
  pub pending_bounded : length w.pending ≤ 64
  pub seen_bounded : length w.seen ≤ 64
  pub frames_bounded : length w.webcam_frames ≤ 5
  pub frames_partial : All IsPartial w.webcam_frames
  pub seq_u16 : w.seq < 2 ^ 16

pub emit-IsValid : (e : Event) (w : Worker) → IsValid w → IsValid (emit e w).0
unfolding emit
emit-IsValid e w v = ground arith

pub drop_peer-IsValid : (w : Worker) → IsValid w → IsValid (drop_peer w)
unfolding drop_peer
drop_peer-IsValid w v = ground arith

pub update_robot_state-IsValid :
    (s : RobotState) (w : Worker) → IsValid w → IsValid (update_robot_state s w).0
unfolding update_robot_state
update_robot_state-IsValid s w v = ground arith

drop_oldest-IsValid :
    (ps : List PendingCommand) (w : Worker)
    → ps ≡ w.pending
    → 64 ≤ length ps
    → IsValid w
    → IsValid (drop_oldest ps w) × (length (drop_oldest ps w).pending ≤ 63)
unfolding drop_oldest
drop_oldest-IsValid [] w e h v = absurd (omega arith)
drop_oldest-IsValid (p ∷ ps) w e h v = ground (arith, ap length e)

make_room-IsValid :
    (w : Worker) → IsValid w → IsValid (make_room w) × (length (make_room w).pending ≤ 63)
unfolding make_room
make_room-IsValid w v = ground (arith, drop_oldest-IsValid w.pending w refl)

push_pending-IsValid :
    (c : Command) (w : Worker) → IsValid w → length w.pending ≤ 63 → IsValid (push_pending c w)
unfolding push_pending
push_pending-IsValid c w v h =
    ground
      (arith, length-append w.pending (record { command = c; last_sent = none; attempts = 0 } ∷ []))

pub queue_command-IsValid :
    (clk : Clock) (c : Command) (w : Worker) → IsValid w → IsValid (queue_command clk c w)
unfolding queue_command
queue_command-IsValid clk c w v =
    let (valid, room) = make_room-IsValid w v in
    push_pending-IsValid (stamped clk c) (make_room w) valid room

pub send_to-IsValid :
    (a : SocketAddr) (p : Packet) (w : Worker) → IsValid w → IsValid (send_to a p w)
unfolding send_to
send_to-IsValid a p w v = ground arith

next_seq-IsValid : (w : Worker) → IsValid w → IsValid (next_seq w)
unfolding next_seq
next_seq-IsValid w v = ground arith

length-scan :
    (retry max : ℕ) (clk : Clock) (ps : List PendingCommand)
    → length (scan retry max clk ps).kept ≤ length ps
unfolding scan
length-scan retry max clk [] = omega arith
length-scan retry max clk (p ∷ ps) = ground (arith, length-scan retry max clk ps)

send_all-IsValid :
    (peer : SocketAddr) (cs : List Command) (w : Worker) → IsValid w → IsValid (send_all peer cs w)
unfolding send_all
send_all-IsValid peer [] w v = v
send_all-IsValid peer (c ∷ cs) w v = send_all-IsValid peer cs _ (
    send_to-IsValid peer (Packet.command (record c { seq = (next_seq w).seq })) (next_seq w)
      (next_seq-IsValid w v))

report_dropped-IsValid :
    (names : List Bytes) (w : Worker) → IsValid w → IsValid (report_dropped names w).0
unfolding report_dropped
report_dropped-IsValid [] w v = v
report_dropped-IsValid (n ∷ ns) w v = grind (
  arith,
  emit-IsValid (Event.command_dropped n) w,
  report_dropped-IsValid ns (emit (Event.command_dropped n) w).0,
)

pub keep_pending :
    (w : Worker) (ps : List PendingCommand)
    → IsValid w
    → length ps ≤ 64
    → IsValid (record w { pending = ps })
keep_pending w ps v h = ground arith

retransmit_to-IsValid :
    (peer : SocketAddr) (clk : Clock) (w : Worker)
    → IsValid w
    → IsValid (retransmit_to peer clk w).0
unfolding retransmit_to
retransmit_to-IsValid peer clk w v =
    let s = scan w.cfg.command_retry_interval w.cfg.command_max_attempts clk w.pending in
    report_dropped-IsValid s.dropped _ (
      send_all-IsValid peer s.to_send (record w { pending = s.kept })
        (keep_pending w s.kept v (
          omega (
            arith,
            length-scan w.cfg.command_retry_interval w.cfg.command_max_attempts clk w.pending,
          ))))

pub retransmit_pending-IsValid :
    (clk : Clock) (w : Worker) → IsValid w → IsValid (retransmit_pending clk w).0
unfolding retransmit_pending
retransmit_pending-IsValid clk w v = elim (Option-cases w.peer) [
  | inl e ↦ rw (e, retransmit_pending) v
  | inr (peer, e) ↦ rw (e, retransmit_pending) (retransmit_to-IsValid peer clk w v)
]

pub transmit_gamepad-IsValid :
    (clk : Clock) (g : Gamepad) (w : Worker) → IsValid w → IsValid (transmit_gamepad clk g w)
unfolding transmit_gamepad
transmit_gamepad-IsValid clk g w v = ground arith

discover-IsValid :
    (ips : List ℕ) (port : ℕ) (w : Worker) → IsValid w → IsValid (discover ips port w)
unfolding discover
discover-IsValid [] port w v = v
discover-IsValid (ip ∷ ips) port w v = discover-IsValid ips port _ (
    send_to-IsValid (record { ip = ip; port = port }) (Packet.peer_discovery PeerDiscovery.default)
      w v)

pub tick-IsValid : (clk : Clock) (w : Worker) → IsValid w → IsValid (tick clk w)
unfolding tick
tick-IsValid clk w v = ground (arith, discover-IsValid w.cfg.peer_addrs w.cfg.peer_port w)
