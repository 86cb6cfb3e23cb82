-- ===== src/Examples.antt =====
-- The theorems at concrete packets, states and datagrams, and runs whose results the sources' tests name.
mod Video
mod Capture
mod FakeRc
mod Pcap
mod DsCli
use robocol.Prelude.{
  ℕ, zero, suc, ◌+◌, ◌*◌, ◌<◌, ◌≡◌, ◌≢◌, refl, ap, sym, ◌∙◌, true, false, List, [], ◌∷◌, none, some,
  ok, panicked, arith, length, replicate,
}
use robocol.Prelude.Text.{codes, bytes_eq, bytes_eq_iff}
use robocol.Wire.{Bytes, is_utf8, write_at, to_be_bytes, from_be_bytes, from_be_bytes-to_be_bytes}
use robocol.Base64.{encode, decode, is_space, digit, sextet0, sextet1, sextet2, sextet3}
use robocol.Base64.RoundTrip.{decode-encode, strip}
use robocol.Cmd.{Json}
use robocol.Cmd
use robocol.Packets.PeerDiscovery
use robocol.Packets.Command.{Command, ack_of}
use robocol.Packets.Packet.{Packet, parse, serialize}
use robocol.Packets.Packet.RoundTrip.{IsValid, parse-serialize}
use robocol.Packets.Packet.Safety.{parse-ne-panicked}
use robocol.Client.State.{
  SocketAddr, addr_eq, ClientConfig, Event, Clock, Worker, PendingCommand, PartialFrame, start,
  send_to,
}
use robocol.Client.Commands.{scan}
use robocol.Client.Frames.{begin_frame, chunk_count, accept_chunk}
use robocol.Client.Receive.{handle_command, is_frame, matches_ack}
use robocol.Client.Run.{Round, Incoming, Control, run}
use robocol.Client.Invariant.Always.{run-start-IsValid}
use robocol.Client.Invariant
use robocol.Client.Delivery.{store_all, contains, frame-delivered}
use robocol.Client.AtMostOnce.{IsNamesake, handle_command-twice, handle_command-ack}
use robocol.Client.PeerLock.{datagrams, quiet, datagrams-peer, datagrams-strangers}
use robocol.Client.Retry.{Accounts, passes, together, scan-Accounts, passes-exhaust}
use robocol.Client.Assembly.Accepted.{accept_chunk-write_at}
use robocol.Cmd.{frame_chunk_size}

abbrev init_command : Command
init_command = record {
  seq = 7;
  timestamp = 1_700_000_000;
  acknowledged = false;
  name = Cmd.init_op_mode;
  extra = codes "TeleOp";
}

false_ne_true : false ≢ true
false_ne_true e = cc

init_command-IsValid : IsValid (Packet.command init_command)
unfolding is_utf8
init_command-IsValid = record {
  seq_u16 = omega arith;
  timestamp_i64 = omega arith;
  name_short = omega arith;
  name_utf8 = refl;
  extra_short = omega arith;
  extra_utf8 = refl;
  ack_bare = λ e. absurd (false_ne_true e);
}

parse-serialize_example :
    (bytes : Bytes) × (serialize (Packet.command init_command) ≡ ok bytes)
    × (parse bytes ≡ ok (Packet.command init_command))
parse-serialize_example = parse-serialize (Packet.command init_command) init_command-IsValid

-- A telemetry packet that is cut off in its tag.
abbrev cut_off : Bytes
cut_off = 5 ∷ 0 ∷ 20 ∷ 0 ∷ 1 ∷ 0 ∷ 0 ∷ 0 ∷ 0 ∷ 0 ∷ 0 ∷ 0 ∷ 9 ∷ 1 ∷ 3 ∷ 200 ∷ 65 ∷ []

parse-ne-panicked_example : parse cut_off ≢ panicked
parse-ne-panicked_example = parse-ne-panicked cut_off

abbrev no_json : Json
no_json = record {
  frame_begin = λ s. some (record { frame_num = 4; length = 8000 });
  frame_chunk = λ s. none;
  op_mode_metas = λ s. none;
  names = λ s. some (codes "TeleOp" ∷ []);
  config_metas = λ s. none;
  config_string = λ m. none;
}

abbrev config : ClientConfig
config = record {
  bind_port = 20884;
  peer_addrs = 3_232_246_529 ∷ 3_232_248_065 ∷ [];
  peer_port = 20884;
  heartbeat_interval = 100_000_000;
  disconnect_timeout = 3_000_000_000;
  command_retry_interval = 500_000_000;
  command_max_attempts = 10;
  webcam_min_frame_interval = 33_333_333;
}

abbrev robot : SocketAddr
robot = record { ip = 3_232_246_529; port = 20884 }

abbrev other : SocketAddr
other = record { ip = 3_232_246_600; port = 20884 }

abbrev at : ℕ → Clock
at n = record { now = n; nanos = 1_700_000_000_000_000_000 + n; millis = 1_700_000_000_000 }

abbrev rounds : List Round
rounds =
    record {
      controls = Control.send_command init_command ∷ [];
      before = at 1;
      incoming = Incoming.datagram cut_off robot;
      after = at 2;
    }
    ∷ record { controls = []; before = at 3; incoming = Incoming.quiet; after = at 4_000_000_000 }
    ∷ []

run-start-IsValid_example : Invariant.IsValid (run no_json rounds (start config none (at 0))).0
run-start-IsValid_example = run-start-IsValid no_json config none (at 0) rounds

abbrev idle : Worker
idle = start config none (at 0)

abbrev connected : Worker
connected = record idle { peer = some robot }

abbrev jpeg : Bytes
jpeg = replicate 5000 171

both_chunks : (i : ℕ) → i < chunk_count (length jpeg) → contains i (1 ∷ 0 ∷ 1 ∷ []) ≡ true
unfolding chunk_count contains
both_chunks zero h = refl
both_chunks (suc zero) h = refl
both_chunks (suc (suc i)) h = absurd (omega arith)

frame-delivered_example :
    (store_all (at 9) 4 jpeg (1 ∷ 0 ∷ 1 ∷ []) (begin_frame 4 (length jpeg) connected)).1
    ≡ Event.webcam_frame jpeg ∷ []
unfolding start
frame-delivered_example =
    frame-delivered (at 9) 4 jpeg (1 ∷ 0 ∷ 1 ∷ []) connected (omega arith) (omega arith)
      (omega arith) both_chunks

handle_command-twice_example :
    handle_command no_json
      (at 6)
      init_command
      robot
      (handle_command no_json (at 5) init_command robot connected).0
    ≡ (
      send_to robot
          (Packet.command (ack_of init_command))
          (handle_command no_json (at 5) init_command robot connected).0,
      true,
    )
unfolding is_frame bytes_eq
handle_command-twice_example =
    handle_command-twice no_json (at 5) (at 6) init_command robot robot connected refl refl

abbrev waiting : PendingCommand
waiting = record { command = init_command; last_sent = some 5; attempts = 1 }

abbrev config_request : PendingCommand
config_request = record {
  command = record {
    seq = 0;
    timestamp = 6;
    acknowledged = false;
    name = Cmd.request_configurations;
    extra = [];
  };
  last_sent = none;
  attempts = 0;
}

abbrev busy : Worker
busy = record connected { pending = waiting ∷ config_request ∷ [] }

config_request-other : ¬ IsNamesake waiting config_request
config_request-other same = absurd (omega (arith, same.1))

handle_command-ack_example :
    handle_command no_json (at 6) (ack_of (record waiting.command { seq = 8 })) robot busy
    ≡ (record busy { pending = config_request ∷ [] }, true)
unfolding matches_ack bytes_eq ack_of
handle_command-ack_example =
    handle_command-ack no_json (at 6) waiting [] (config_request ∷ []) 8 robot busy refl
      (config_request-other, tt) refl

abbrev flood : List (Bytes × SocketAddr)
flood = (cut_off, other) ∷ ([], other) ∷ []

datagrams-strangers_example : quiet (datagrams no_json (at 7) flood connected) ≡ quiet connected
unfolding addr_eq
datagrams-strangers_example =
    datagrams-strangers no_json (at 7) flood robot connected refl (refl, (refl, tt))

datagrams-peer_example :
    (datagrams no_json (at 7) ((cut_off, robot) ∷ flood) connected).peer ≡ some robot
datagrams-peer_example =
    datagrams-peer no_json (at 7) ((cut_off, robot) ∷ flood) robot connected refl

scan-Accounts_example :
    Accounts
      (waiting ∷ config_request ∷ [])
      (scan 500_000_000 10 (at 9) (waiting ∷ config_request ∷ []))
      10
scan-Accounts_example =
    scan-Accounts 500_000_000 10 (at 9) (waiting ∷ config_request ∷ [])
      (omega arith, (omega arith, tt))

passes-exhaust_example :
    passes 500 2 (at 9 ∷ at 509 ∷ at 1100 ∷ []) (
      config_request
      ∷ record { command = init_command; last_sent = none; attempts = 0 }
      ∷ waiting
      ∷ [])
    ≡ together (passes 500 2 (at 9 ∷ at 509 ∷ at 1100 ∷ []) (config_request ∷ [])) (
        together
          ((init_command ∷ [], []) ∷ (init_command ∷ [], []) ∷ ([], Cmd.init_op_mode ∷ []) ∷ [])
          (passes 500 2 (at 9 ∷ at 509 ∷ at 1100 ∷ []) (waiting ∷ [])))
passes-exhaust_example =
    passes-exhaust 500 2 (config_request ∷ []) (waiting ∷ []) init_command (at 9)
      (at 509 ∷ at 1100 ∷ []) (omega arith) refl (omega arith, (omega arith, tt))

abbrev wrapped : Bytes
wrapped = 10 ∷ 84 ∷ 87 ∷ 10 ∷ 70 ∷ 117 ∷ []

decode-encode_example : decode wrapped ≡ some (77 ∷ 97 ∷ 110 ∷ [])
unfolding strip encode is_space digit sextet0 sextet1 sextet2 sextet3
decode-encode_example =
    decode-encode wrapped (77 ∷ 97 ∷ 110 ∷ []) (omega arith, (omega arith, (omega arith, tt))) refl

abbrev half_frame : PartialFrame
half_frame = record { content = 1 ∷ 2 ∷ 3 ∷ 4 ∷ []; received = false ∷ []; remaining = 1 }

abbrev filled_frame : PartialFrame
filled_frame = record { content = 8 ∷ 9 ∷ 3 ∷ 4 ∷ []; received = true ∷ []; remaining = 0 }

accepts_run : accept_chunk half_frame 0 (8 ∷ 9 ∷ []) ≡ some filled_frame
unfolding accept_chunk
accepts_run = refl

accept_chunk-write_at_example :
    (0 < length half_frame.received)
    × (write_at half_frame.content (0 * frame_chunk_size) (8 ∷ 9 ∷ []) ≡ ok filled_frame.content)
accept_chunk-write_at_example =
    accept_chunk-write_at half_frame filled_frame 0 (8 ∷ 9 ∷ []) accepts_run

-- `golden_bytes` in robocol/src/packets/peer_discovery.rs.
golden_bytes :
    PeerDiscovery.serialize PeerDiscovery.default
    ≡ ok (3 ∷ 0 ∷ 10 ∷ 124 ∷ 1 ∷ 0 ∷ 0 ∷ 7 ∷ 7 ∷ 234 ∷ 11 ∷ 2 ∷ 0 ∷ [])
unfolding PeerDiscovery.serialize PeerDiscovery.peer_type_to_byte
golden_bytes = refl

-- One of the vectors of `matches_known_vectors` in robocol/src/base64.rs.
known_vector : encode (codes "foob") ≡ codes "Zm9vYg=="
unfolding encode digit sextet0 sextet1 sextet2 sextet3
known_vector = refl
