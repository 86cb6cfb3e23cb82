-- ===== src/Client/Receive.antt =====
-- Datagrams on their way in: `handle_datagram` and `handle_command`.
use robocol.Prelude.{
  ℕ, Bool, true, false, not, ◌&&◌, ◌||◌, List, [], ◌∷◌, ◌++◌, Option, none, some, ok, err, panicked,
  ◌==◌, ltb, length, if◌then◌else◌,
}
use robocol.Prelude.Text.{bytes_eq}
use robocol.Wire.{Bytes}
use robocol.Cmd
use robocol.Cmd.{Json, parse_opmode_list}
use robocol.Packets.Command.{Command, create, ack_of}
use robocol.Packets.PeerDiscovery.{PeerType}
use robocol.Packets.Packet.{Packet}
use robocol.Packets.Packet
use robocol.Client.State.{
  SocketAddr, Event, Problem, PendingCommand, Clock, Worker, addr_eq, emit, send_to,
  update_robot_state,
}
use robocol.Client.Commands.{queue_command}
use robocol.Client.Frames.{handle_stream_change, handle_frame_begin, handle_frame_chunk}

-- `retain`: all but the commands that the acknowledgement names.
unfoldable pub matches_ack : Command → PendingCommand → Bool
matches_ack ack p = bytes_eq p.command.name ack.name && (p.command.timestamp == ack.timestamp)

unfoldable pub retain_unacked : Command → List PendingCommand → List PendingCommand
unfolding matches_ack
retain_unacked ack [] = []
retain_unacked ack (p ∷ ps) =
    let rest = retain_unacked ack ps in if matches_ack ack p then rest else p ∷ rest

unfoldable pub handle_ack : Clock → Command → Worker → Worker
unfolding retain_unacked queue_command create
handle_ack clk c w =
    let w' = record w { pending = retain_unacked c w.pending } in
    if bytes_eq c.name Cmd.activate_configuration
    then queue_command clk (create Cmd.restart_robot [] 0) w'
    else w'

unfoldable pub is_seen : Bytes → ℕ → List (Bytes × ℕ) → Bool
is_seen name timestamp [] = false
is_seen name timestamp ((n, t) ∷ seen) =
    bytes_eq n name && (t == timestamp) || is_seen name timestamp seen

abbrev tail : List (Bytes × ℕ) → List (Bytes × ℕ)
tail [] = []
tail (x ∷ xs) = xs

-- `push_back`, and `pop_front` beyond 64 entries.
unfoldable pub remember : Bytes → ℕ → List (Bytes × ℕ) → List (Bytes × ℕ)
remember name timestamp seen =
    let longer = seen ++ (name, timestamp) ∷ [] in
    if ltb 64 (length longer) then tail longer else longer

unfoldable pub is_frame : Bytes → Bool
is_frame name = bytes_eq name Cmd.receive_frame_begin || bytes_eq name Cmd.receive_frame_chunk

-- The notices that become an event and change nothing else.
unfoldable pub notice : Json → Command → Option Event
notice json c =
    if bytes_eq c.name Cmd.notify_op_mode_list
    then some (Event.op_mode_list (parse_opmode_list json c.extra))
    else if bytes_eq c.name Cmd.notify_init_op_mode
    then some (Event.op_mode_inited c.extra)
    else if bytes_eq c.name Cmd.notify_run_op_mode
    then some (Event.op_mode_running c.extra)
    else if bytes_eq c.name Cmd.notify_active_configuration
    then some (Event.active_configuration c.extra)
    else if bytes_eq c.name Cmd.request_configurations_resp
    then some (Event.configuration_list c.extra)
    else if bytes_eq c.name Cmd.request_particular_configuration_resp
    then some (Event.configuration c.extra)
    else if bytes_eq c.name Cmd.notify_user_device_list
    then some (Event.user_device_list c.extra)
    else if bytes_eq c.name Cmd.scan_resp
    then some (Event.scan_result c.extra)
    else if bytes_eq c.name Cmd.discover_lynx_modules_resp
    then some (Event.lynx_modules c.extra)
    else if bytes_eq c.name Cmd.show_stacktrace
    then some (Event.stacktrace c.extra)
    else none

abbrev also_some : Worker × Event → Worker × Option Event
also_some (w, e) = (w, some e)

-- The webcam's commands, and every command that is not known.
unfoldable pub webcam_command : Json → Clock → Command → Worker → Worker × Option Event
webcam_command json clk c w =
    if bytes_eq c.name Cmd.stream_change
    then also_some (handle_stream_change clk c.extra w)
    else if bytes_eq c.name Cmd.receive_frame_begin
    then (handle_frame_begin json c.extra w, none)
    else if bytes_eq c.name Cmd.receive_frame_chunk
    then handle_frame_chunk json clk c.extra w
    else (w, some (Event.command c.name c.extra))

unfoldable pub dispatch : Json → Clock → Command → Worker → Worker × Option Event
unfolding notice webcam_command
dispatch json clk c w = elim (notice json c) [
  | some e ↦ (w, some e)
  | none ↦ webcam_command json clk c w
]

abbrev pub emit_option : Worker × Option Event → Worker × Bool
emit_option (w, none) = (w, true)
emit_option (w, some e) = emit e w

unfoldable pub handle_request : Json → Clock → Command → SocketAddr → Worker → Worker × Bool
unfolding dispatch emit send_to ack_of is_seen remember is_frame
handle_request json clk c from w =
    let w' = send_to from (Packet.command (ack_of c)) w in
    if is_frame c.name
    then emit_option (dispatch json clk c w')
    else if is_seen c.name c.timestamp w'.seen
    then (w', true)
    else emit_option
        (dispatch json clk c (record w' { seen = remember c.name c.timestamp w'.seen }))

unfoldable pub handle_command : Json → Clock → Command → SocketAddr → Worker → Worker × Bool
unfolding handle_request handle_ack
handle_command json clk c from w =
    if c.acknowledged then (handle_ack clk c w, true) else handle_request json clk c from w

-- `&&` on the outcome of a send: the next step is taken only if the receiver is there.
abbrev pub and_then : Worker × Bool → (Worker → Worker × Bool) → Worker × Bool
and_then (w, false) f = (w, false)
and_then (w, true) f = f w

unfoldable pub handle_packet : Json → Clock → Packet → SocketAddr → Worker → Worker × Bool
unfolding handle_command update_robot_state emit
handle_packet json clk (Packet.heartbeat h) from w = update_robot_state h.robot_state w
handle_packet json clk (Packet.gamepad g) from w = (w, true)
handle_packet json clk (Packet.peer_discovery p) from w = (w, true)
handle_packet json clk (Packet.command c) from w = handle_command json clk c from w
handle_packet json clk (Packet.telemetry t) from w =
    and_then (update_robot_state t.robot_state w) (emit (Event.telemetry t))
handle_packet json clk (Packet.keep_alive k) from w = (w, true)

unfoldable pub is_busy : Packet → Bool
is_busy (Packet.heartbeat h) = false
is_busy (Packet.gamepad g) = false
is_busy (Packet.peer_discovery p) = elim p.peer_type [
  | PeerType.unset ↦ false
  | PeerType.peer ↦ false
  | PeerType.group_owner ↦ false
  | PeerType.not_connected_due_to_preexisting_connection ↦ true
]
is_busy (Packet.command c) = false
is_busy (Packet.telemetry t) = false
is_busy (Packet.keep_alive k) = false

-- The three requests that follow a new connection.
unfoldable pub greet : Clock → Worker → Worker
unfolding queue_command create
greet clk w = queue_command clk (create Cmd.request_op_mode_list [] 0) (
    queue_command clk (create Cmd.request_configurations [] 0)
      (queue_command clk (create Cmd.request_active_config [] 0) w))

-- A packet that is met with no peer: the sender is busy with another, or becomes the peer.
unfoldable pub adopt : Json → Clock → Packet → SocketAddr → Worker → Worker × Bool
unfolding handle_packet is_busy greet emit
adopt json clk p from w =
    if is_busy p
    then emit (Event.peer_busy from) (record w { discovering = false })
    else and_then (emit (Event.connected from) (record w { peer = some from }))
        (λ w'. handle_packet json clk p from (greet clk w'))

unfoldable pub receive : Json → Clock → Packet → SocketAddr → Worker → Worker × Bool
unfolding handle_packet adopt
receive json clk p from w = elim w.peer [
  | none ↦ adopt json clk p from w
  | some peer ↦ handle_packet json clk p from w
]

unfoldable pub decode_datagram : Json → Clock → Bytes → SocketAddr → Worker → Worker × Bool
unfolding receive emit
decode_datagram json clk buf from w = elim (Packet.parse buf) [
  | ok p ↦ receive json clk p from w
  | err e ↦ emit (Event.protocol_error (Problem.undecodable e)) w
  | panicked ↦ (w, false)
]

unfoldable pub handle_datagram : Json → Clock → Bytes → SocketAddr → Worker → Worker × Bool
unfolding decode_datagram addr_eq emit
handle_datagram json clk buf from w = elim w.peer [
  | some peer ↦
      if not (addr_eq peer from)
      then emit (Event.protocol_error (Problem.ignored_packet from peer)) w
      else decode_datagram json clk buf from (record w { last_rx = clk.now })
  | none ↦
      if not w.discovering
      then (w, true)
      else decode_datagram json clk buf from (record w { last_rx = clk.now })
]
