-- ===== src/Examples/FakeRc.antt =====
-- Runs of the simulated controller.
use robocol.Prelude.{
  ℕ, ◌*◌, ok, err, panicked, ◌≡◌, refl, false, List, [], ◌∷◌, ◌++◌, Option, none, some, arith,
  if◌then◌else◌,
}
use robocol.Prelude.Text.{codes}
use robocol.Wire.{Bytes}
use robocol.Cmd
use robocol.Cmd.{Json, ConfigMeta, FrameBegin, FrameChunk}
use robocol.Packets.Command.{Command, create, ack_of}
use robocol.Packets.PeerDiscovery
use robocol.Packets.Packet.{Packet}
use robocol.Packets.Packet
use robocol.Client.State.{SocketAddr, Clock, Event, Worker, ClientConfig, addr_eq}
use robocol.Client.State
use robocol.FakeRc.Outside.{pos, Floats, Outside}
use robocol.FakeRc.State.{FakeRc, start, send, send_command}
use robocol.FakeRc.Webcam.{send_frame}
use robocol.FakeRc.Configs.{config_key, key_eq, particular_xml}
use robocol.FakeRc.Commands.{handle_command}
use robocol.FakeRc.Run.{Loop, turns}
use robocol.FakeRc.Life.{life, Reach, told_over}
use robocol.FakeRc.Life.Refines.{turns-Reach}
use robocol.FakeRc.Life.Sound.{IsSound, turns-IsSound}
use robocol.FakeRc.Lock.{settled, refusals, datagrams, datagrams-locked}
use robocol.FakeRc.Replies.{handle_command-Sends}
use robocol.FakeRc.Replies.Log.{Sends, addressed}
use robocol.FakeRc.Saved.{save-served}
use robocol.FakeRc.Delivered.{Agree, dispatch_all, send_frame-delivered}
use robocol.FakeRc.Pixels.{cam_width, cam_height}
use robocol.FakeRc.Pixels.Bounds.{IsImage, Fits}
use robocol.FakeRc.Pattern.{swing, test_pattern}
use robocol.FakeRc.Pattern.Painted.{IsTame, test_pattern-IsImage}

abbrev floats : Floats
floats = record {
  literal = λ m d. m;
  of_int = λ x. 0;
  of_u64 = λ n. n;
  seconds = λ n. n;
  neg = λ x. x;
  add = λ x y. x;
  sub = λ x y. x;
  mul = λ x y. y;
  rem = λ x y. x;
  rem_euclid = λ x y. x;
  floor = λ x. x;
  sin = λ x. x;
  cos = λ x. x;
  to_degrees = λ x. x;
  to_i32 = λ x. pos x;
  to_u8 = λ x. 7;
  fixed = λ d x. codes "1.0";
}

-- JSON that is only the name of a configuration, or the fields of a frame one after another.
abbrev named : Bytes → ConfigMeta
named name = record { is_dirty = false; location = []; name = name; resource_id = 5 }

abbrev out : Outside
out = record {
  floats = floats;
  config_meta = λ name. some (named name);
  config_meta_string = λ m. m.name;
  config_metas_string = λ l. [];
  frame_begin_string = λ b. b.frame_num ∷ b.length ∷ [];
  frame_chunk_string = λ c. c.frame_num ∷ c.chunk_num ∷ c.encoded_data;
  render_frame = λ source n. codes "picture";
}

abbrev read_begin : Bytes → Option FrameBegin
read_begin (n ∷ l ∷ []) = some (record { frame_num = n; length = l })
read_begin bs = none

abbrev read_chunk : Bytes → Option FrameChunk
read_chunk (n ∷ i ∷ bs) = some (record { frame_num = n; chunk_num = i; encoded_data = bs })
read_chunk bs = none

abbrev json : Json
json = record {
  frame_begin = read_begin;
  frame_chunk = read_chunk;
  op_mode_metas = λ bs. none;
  names = λ bs. none;
  config_metas = λ bs. none;
  config_string = λ m. none;
}

json-Agree : Agree json out
json-Agree = record { begin_back = λ b. refl; chunk_back = λ c. refl }

abbrev at : ℕ → Clock
at t = record { now = t; nanos = t; millis = t }

abbrev station : SocketAddr
station = record { ip = 1; port = 40 }

abbrev stranger : SocketAddr
stranger = record { ip = 2; port = 40 }

-- The controller with a driver station.
abbrev taken : FakeRc
taken = record (start none (at 0)) { ds = some station }

abbrev fresh : Loop
fresh = record { rc = taken; last_telemetry = 0; last_rc_battery = 0 }

abbrev init_bytes : Bytes
init_bytes = elim (Packet.serialize (Packet.command (create Cmd.init_op_mode (codes "Solo") 9))) [
  | ok bs ↦ bs
  | err e ↦ []
  | panicked ↦ []
]

turns-Reach_example :
    Reach
      (told_over ((at 5, some (init_bytes, station)) ∷ []))
      (life taken)
      (life (turns out ((at 5, some (init_bytes, station)) ∷ []) fresh).rc)
turns-Reach_example = turns-Reach out ((at 5, some (init_bytes, station)) ∷ []) fresh

turns-IsSound_example : IsSound (
    life
      (turns out
        ((at 5, some (init_bytes, station)) ∷ (at 6, none) ∷ [])
        (record { rc = start none (at 0); last_telemetry = 0; last_rc_battery = 0 })).rc)
turns-IsSound_example =
    turns-IsSound out none (at 0) ((at 5, some (init_bytes, station)) ∷ (at 6, none) ∷ [])

abbrev knock : Bytes
knock = elim (PeerDiscovery.serialize PeerDiscovery.default) [
  | ok bs ↦ bs
  | err e ↦ []
  | panicked ↦ []
]

abbrev knocks : List (Clock × (Bytes × SocketAddr))
knocks = (at 7, (knock, stranger)) ∷ (at 8, (init_bytes, stranger)) ∷ []

datagrams-locked_example :
    (settled (datagrams out knocks taken) ≡ settled taken)
    × ((datagrams out knocks taken).sent ≡ taken.sent ++ refusals knocks)
unfolding start addr_eq
datagrams-locked_example =
    datagrams-locked out knocks station taken refl ((refl, refl), ((refl, refl), tt))

abbrev scan_command : Command
scan_command = create Cmd.scan [] 3

handle_command-Sends_example :
    Sends station
      (taken.sent ++ addressed station (ack_of scan_command) ∷ [])
      taken.seq
      (handle_command out (at 4) scan_command taken)
unfolding create start
handle_command-Sends_example = handle_command-Sends out (at 4) scan_command station taken refl refl

abbrev ask : Command
ask = create Cmd.request_particular_configuration (codes "bot") 5

abbrev saved : FakeRc
saved =
    handle_command out (at 4) (create Cmd.save_configuration (codes "bot" ++ b';' ∷ codes "<a/>") 3)
      taken

save-served_example :
    handle_command out (at 6) ask saved
    ≡ send_command
        (at 6)
        Cmd.request_particular_configuration_resp
        (if key_eq (config_key (named (codes "bot"))) (config_key (named (codes "bot")))
          then codes "<a/>"
          else particular_xml out (codes "bot") taken)
        (send (Packet.command (ack_of ask)) saved)
save-served_example =
    save-served out (at 4) (at 6) (codes "bot") (codes "<a/>") (codes "bot") (named (codes "bot"))
      (named (codes "bot")) 3 5 taken refl refl refl

abbrev client_config : ClientConfig
client_config = record {
  bind_port = 0;
  peer_addrs = [];
  peer_port = 0;
  heartbeat_interval = 1;
  disconnect_timeout = 1;
  command_retry_interval = 1;
  command_max_attempts = 1;
  webcam_min_frame_interval = 1;
}

abbrev client : Worker
client = State.start client_config none (at 0)

send_frame-delivered_example :
    (sent : List (SocketAddr × Packet)) × ((send_frame out (at 2) 6 (codes "picture") taken).sent
      ≡ taken.sent ++ sent)
    × ((dispatch_all json (at 3) sent client).1 ≡ Event.webcam_frame (codes "picture") ∷ [])
unfolding start State.start
send_frame-delivered_example =
    send_frame-delivered json out (at 3) (at 2) 6 (codes "picture") station taken client json-Agree
      (
        omega arith,
        (
          omega arith,
          (omega arith, (omega arith, (omega arith, (omega arith, (omega arith, tt))))),
        ),
      )
      (omega arith) (omega arith) refl (omega arith)

floats-IsTame : IsTame floats
unfolding swing Fits
floats-IsTame = record {
  crosshair = λ t room near. (omega arith, omega arith);
  square = λ t room near. (omega arith, omega arith);
}

test_pattern-IsImage_example :
    IsImage (cam_width * cam_height * 3) (test_pattern floats (codes "limelight") 3)
test_pattern-IsImage_example =
    test_pattern-IsImage floats (codes "limelight") 3 floats-IsTame (omega arith)
