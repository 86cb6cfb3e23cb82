-- ===== src/FakeRc/Lock.antt =====
-- The driver station that holds the simulated controller, and the datagrams of others.
use robocol.Prelude.{
  ◌≡◌, refl, sym, subst, ap, ◌∙◌, true, false, List, [], ◌∷◌, ◌++◌, some, ℕ, ltb, append-nil,
  append_assoc, Result, ok, err, panicked, arith, take, All,
}
use robocol.Wire.{Bytes}
use robocol.Packets.PeerDiscovery
use robocol.Packets.PeerDiscovery.{PeerType}
use robocol.Packets.Gamepad.{Gamepad}
use robocol.Packets.Packet.{Packet}
use robocol.Packets.Packet
use robocol.Client.State.{SocketAddr, Clock, addr_eq, elapsed}
use robocol.FakeRc.Outside.{Outside}
use robocol.FakeRc.State.{FakeRc, ds_timeout, held_against, held_by_other, send_to}
use robocol.FakeRc.Run.{
  handle_packet, handle_datagram, handle_discovery, handle_gamepad, press_x, press_y, see, dispatch,
  is_ds,
}

-- The state without the log and without what the gamepads set, which any sender may use.
abbrev pub settled : FakeRc → FakeRc
settled rc = record rc {
  alliance = [];
  start_position = [];
  prev_x = false;
  prev_y = false;
  left_stick_y = 0;
  sent = [];
}

abbrev pub refusal : SocketAddr → SocketAddr × Packet
refusal from = (
  from,
  Packet.peer_discovery (record PeerDiscovery.default {
    peer_type = PeerType.not_connected_due_to_preexisting_connection;
  }),
)

-- One refusal for each datagram that is a peer discovery.
abbrev pub refused : Result Packet → SocketAddr → List (SocketAddr × Packet)
refused (ok (Packet.peer_discovery p)) from = refusal from ∷ []
refused r from = []

abbrev pub refusals : List (Clock × (Bytes × SocketAddr)) → List (SocketAddr × Packet)
refusals [] = []
refusals ((clk, (buf, from)) ∷ rest) = refused (Packet.parse (take 4096 buf)) from ++ refusals rest

unfoldable pub datagrams : Outside → List (Clock × (Bytes × SocketAddr)) → FakeRc → FakeRc
datagrams out [] rc = rc
datagrams out ((clk, (buf, from)) ∷ rest) rc =
    datagrams out rest (handle_datagram out clk buf from rc)

-- Another sender, less than three seconds after the driver station was heard.
abbrev pub IsLocked : SocketAddr → ℕ → Clock × (Bytes × SocketAddr) → Type 0
IsLocked ds seen (clk, (buf, from)) =
    (addr_eq ds from ≡ false) × (ltb (elapsed clk seen) ds_timeout ≡ true)

-- What a step keeps, and what it sends.
abbrev Outcome : FakeRc → FakeRc → List (SocketAddr × Packet) → Type 0
Outcome rc rc' replies = (settled rc' ≡ settled rc) × (rc'.sent ≡ rc.sent ++ replies)

handle_gamepad-settled : (g : Gamepad) (rc : FakeRc) → Outcome rc (handle_gamepad g rc) []
unfolding handle_gamepad press_x press_y
handle_gamepad-settled g rc = ground (arith, append-nil rc.sent)

is_ds_other :
    (ds from : SocketAddr) (rc : FakeRc)
    → rc.ds ≡ some ds
    → addr_eq ds from ≡ false
    → is_ds from rc ≡ false
unfolding is_ds
is_ds_other ds from rc held other = rw (held, other) refl

held_against_other :
    (clk : Clock) (ds from : SocketAddr) (rc : FakeRc)
    → rc.ds ≡ some ds
    → addr_eq ds from ≡ false
    → ltb (elapsed clk rc.ds_seen) ds_timeout ≡ true
    → held_against clk from rc ≡ true
unfolding held_against held_by_other
held_against_other clk ds from rc held other soon = ground arith

handle_packet-locked :
    (out : Outside) (clk : Clock) (p : Packet) (ds from : SocketAddr) (rc : FakeRc)
    → is_ds from rc ≡ false
    → held_against clk from rc ≡ true
    → Outcome rc (handle_packet out clk p from rc) (refused (ok p) from)
unfolding handle_packet handle_discovery send_to
handle_packet-locked out clk (Packet.peer_discovery p) ds from rc other held = rw held (refl, refl)
handle_packet-locked out clk (Packet.heartbeat hb) ds from rc other held =
    rw other (refl, sym (append-nil rc.sent))
handle_packet-locked out clk (Packet.command c) ds from rc other held =
    rw other (refl, sym (append-nil rc.sent))
handle_packet-locked out clk (Packet.gamepad g) ds from rc other held = handle_gamepad-settled g rc
handle_packet-locked out clk (Packet.telemetry t) ds from rc other held =
    (refl, sym (append-nil rc.sent))
handle_packet-locked out clk (Packet.keep_alive k) ds from rc other held =
    (refl, sym (append-nil rc.sent))

dispatch-locked :
    (out : Outside) (clk : Clock) (r : Result Packet) (ds from : SocketAddr) (rc : FakeRc)
    → is_ds from rc ≡ false
    → held_against clk from rc ≡ true
    → Outcome rc (dispatch out clk r from rc) (refused r from)
unfolding dispatch
dispatch-locked out clk (ok p) ds from rc other held =
    handle_packet-locked out clk p ds from rc other held
dispatch-locked out clk (err e) ds from rc other held = (refl, sym (append-nil rc.sent))
dispatch-locked out clk panicked ds from rc other held = (refl, sym (append-nil rc.sent))

see_other :
    (clk : Clock) (from : SocketAddr) (rc : FakeRc) → is_ds from rc ≡ false → see clk from rc ≡ rc
unfolding see
see_other clk from rc other = rw other refl

handle_datagram-locked :
    (out : Outside) (clk : Clock) (buf : Bytes) (ds from : SocketAddr) (rc : FakeRc)
    → rc.ds ≡ some ds
    → IsLocked ds rc.ds_seen (clk, (buf, from))
    → Outcome rc (handle_datagram out clk buf from rc) (refused (Packet.parse (take 4096 buf)) from)
unfolding handle_datagram
handle_datagram-locked out clk buf ds from rc held (other, soon) =
    let stranger = is_ds_other ds from rc held other in
    let r = Packet.parse (take 4096 buf) in
    subst (λ seen. Outcome rc (dispatch out clk r from seen) (refused r from))
      (sym (see_other clk from rc stranger))
      (dispatch-locked out clk r ds from rc stranger
        (held_against_other clk ds from rc held other soon))

-- While the controller has a driver station, datagrams of other senders that all arrive within three seconds
-- of the time in `ds_seen` change nothing but what the gamepads set, and are answered by exactly one refusal
-- for each peer discovery among them, in order.
pub datagrams-locked :
    (out : Outside) (run : List (Clock × (Bytes × SocketAddr))) (ds : SocketAddr) (rc : FakeRc)
    → rc.ds ≡ some ds
    → All (IsLocked ds rc.ds_seen) run
    → (settled (datagrams out run rc) ≡ settled rc)
      × ((datagrams out run rc).sent ≡ rc.sent ++ refusals run)
unfolding datagrams
datagrams-locked out [] ds rc held locked = (refl, sym (append-nil rc.sent))
datagrams-locked out ((clk, (buf, from)) ∷ run) ds rc held (now, later) =
    let step = handle_datagram-locked out clk buf ds from rc held now in
    let next = handle_datagram out clk buf from rc in
    let rest =
      datagrams-locked out run ds next (ap (λ (r : FakeRc). r.ds) step.0 ∙ held)
        (rw (ap (λ (r : FakeRc). r.ds_seen) step.0) later) in
    (
      rest.0 ∙ step.0,
      rest.1
          ∙ ap (λ l. l ++ refusals run) step.1
          ∙ append_assoc rc.sent (refused (Packet.parse (take 4096 buf)) from) (refusals run),
    )
