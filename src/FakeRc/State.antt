-- ===== src/FakeRc/State.antt =====
-- The state of the simulated robot controller, what sends and the small methods (fake_rc/src/main.rs).
use robocol.Prelude.{
  ℕ, ◌+◌, ◌%◌, ◌^◌, Bool, false, not, ◌&&◌, ◌||◌, List, [], ◌∷◌, ◌++◌, Option, none, some, ltb,
}
use robocol.Prelude.Text.{codes}
use robocol.Wire.{Bytes}
use robocol.Types.{RobotState}
use robocol.Cmd.{ConfigMeta}
use robocol.Packets.Command.{create}
use robocol.Packets.Packet.{Packet}
use robocol.Client.State.{SocketAddr, Clock, addr_eq, elapsed}

abbrev pub ds_timeout : ℕ
ds_timeout = 3_000_000_000

-- `sent` logs each datagram as its destination and the packet that was serialized into it; the map of
-- saved files is the list of its entries. Instants are nanoseconds.
pub record FakeRc : Type 0 where
  pub ds : Option SocketAddr
  pub ds_seen : ℕ
  pub phantom_until : Option ℕ
  pub state : RobotState
  pub opmode : Bytes
  pub alliance : Bytes
  pub start_position : Bytes
  pub prev_x : Bool
  pub prev_y : Bool
  pub left_stick_y : ℕ
  pub seq : ℕ
  pub started : ℕ
  pub run_started : Option ℕ
  pub configs : List ConfigMeta
  pub active_config : ConfigMeta
  pub saved_xml : List ((Bytes × Bytes) × Bytes)
  pub next_resource_id : ℕ
  pub pending_activation : Option ConfigMeta
  pub webcam_available : Bool
  pub webcam_frame_num : ℕ
  pub sent : List (SocketAddr × Packet)

abbrev pub practice_bot : ConfigMeta
practice_bot = record {
  is_dirty = false;
  location = codes "LOCAL_STORAGE";
  name = codes "practice_bot";
  resource_id = 1;
}

abbrev pub starter_bot : ConfigMeta
starter_bot = record {
  is_dirty = false;
  location = codes "RESOURCE";
  name = codes "goBILDA Starter Bot";
  resource_id = 2132017159;
}

abbrev pub no_config : ConfigMeta
no_config = record {
  is_dirty = false;
  location = codes "NONE";
  name = codes "<No Config Set>";
  resource_id = 0;
}

-- The fields that `main` gives the controller; `phantom_until` comes from the environment.
unfoldable pub start : Option ℕ → Clock → FakeRc
start phantom_until clk = record {
  ds = none;
  ds_seen = clk.now;
  phantom_until = phantom_until;
  state = RobotState.not_started;
  opmode = [];
  alliance = codes "RED";
  start_position = codes "LEFT";
  prev_x = false;
  prev_y = false;
  left_stick_y = 0;
  seq = 0;
  started = clk.now;
  run_started = none;
  configs = practice_bot ∷ starter_bot ∷ [];
  active_config = no_config;
  saved_xml = [];
  next_resource_id = 1;
  pending_activation = none;
  webcam_available = false;
  webcam_frame_num = 0;
  sent = [];
}

unfoldable pub held_by_phantom : Clock → FakeRc → Bool
held_by_phantom clk rc = elim rc.phantom_until [ none ↦ false | some t ↦ ltb clk.now t ]

unfoldable pub held_by_other : Clock → SocketAddr → FakeRc → Bool
unfolding addr_eq
held_by_other clk from rc = elim rc.ds [
  | none ↦ false
  | some ds ↦ not (addr_eq ds from) && ltb (elapsed clk rc.ds_seen) ds_timeout
]

unfoldable pub held_against : Clock → SocketAddr → FakeRc → Bool
unfolding held_by_phantom held_by_other
held_against clk from rc = held_by_phantom clk rc || held_by_other clk from rc

-- `self.seq.wrapping_add(1)`, which is then the sequence number.
unfoldable pub next_seq : FakeRc → FakeRc
next_seq rc = record rc { seq = (rc.seq + 1) % 2 ^ 16 }

-- `socket.send_to`, whose outcome is ignored.
unfoldable pub send_to : SocketAddr → Packet → FakeRc → FakeRc
send_to addr p rc = record rc { sent = rc.sent ++ (addr, p) ∷ [] }

unfoldable pub send : Packet → FakeRc → FakeRc
unfolding send_to
send p rc = elim rc.ds [ none ↦ rc | some ds ↦ send_to ds p rc ]

-- `self.started.elapsed().as_nanos() as i64`, as a 64-bit pattern.
unfoldable pub uptime : Clock → FakeRc → ℕ
uptime clk rc = elapsed clk rc.started % 2 ^ 64

unfoldable pub send_command : Clock → Bytes → Bytes → FakeRc → FakeRc
unfolding next_seq send uptime create
send_command clk name extra rc =
    let rc' = next_seq rc in
    send (Packet.command (record (create name extra (uptime clk rc)) { seq = rc'.seq })) rc'
