-- ===== src/FakeRc/Replies/Log.antt =====
-- What goes to the driver station, as a log of commands that are numbered one after another.
use robocol.Prelude.{
  ℕ, ◌+◌, ◌%◌, ◌^◌, ◌≡◌, refl, ap, ◌∙◌, Bool, true, false, List, [], ◌∷◌, ◌++◌, map, some,
  append-nil, append_assoc, if◌then◌else◌, sym, subst,
}
use robocol.Wire.{Bytes}
use robocol.Packets.Command.{Command, create}
use robocol.Packets.Packet.{Packet}
use robocol.Client.State.{SocketAddr, Clock}
use robocol.FakeRc.State.{FakeRc, send, send_to, send_command, next_seq, uptime}

-- The sequence numbers go up by one from `before`, modulo 2^16, to `after`; nothing is an acknowledgement.
abbrev pub IsNumbered : ℕ → List Command → ℕ → Type 0
IsNumbered before [] after = after ≡ before
IsNumbered before (c ∷ cs) after =
    (c.seq ≡ (before + 1) % 2 ^ 16) × (c.acknowledged ≡ false) × IsNumbered c.seq cs after

abbrev pub addressed : SocketAddr → Command → SocketAddr × Packet
addressed ds c = (ds, Packet.command c)

-- From a log and a sequence number to `rc`, the commands `msgs` went to the driver station, and nothing else.
pub record Sends (ds : SocketAddr) (log : List (SocketAddr × Packet)) (seq : ℕ) (rc : FakeRc)
    : Type 0 where
  pub msgs : List Command
  pub logged : rc.sent ≡ log ++ map (addressed ds) msgs
  pub numbered : IsNumbered seq msgs rc.seq
  pub held : rc.ds ≡ some ds

-- What `send_command` sends.
abbrev pub issued : Clock → Bytes → Bytes → FakeRc → Command
issued clk name extra rc = record (create name extra (uptime clk (next_seq rc))) {
  seq = (rc.seq + 1) % 2 ^ 16;
}

pub map-append :
    (ds : SocketAddr) (xs ys : List Command)
    → map (addressed ds) (xs ++ ys) ≡ map (addressed ds) xs ++ map (addressed ds) ys
map-append ds [] ys = refl
map-append ds (x ∷ xs) ys = ap (λ l. addressed ds x ∷ l) (map-append ds xs ys)

pub IsNumbered-append :
    (a b c : ℕ) (xs ys : List Command)
    → IsNumbered a xs b
    → IsNumbered b ys c
    → IsNumbered a (xs ++ ys) c
IsNumbered-append a b c [] ys e h = subst (λ n. IsNumbered n ys c) e h
IsNumbered-append a b c (x ∷ xs) ys (e, new, g) h = (e, new, IsNumbered-append x.seq b c xs ys g h)

module _ (ds : SocketAddr) where
  pub nothing : (rc : FakeRc) → rc.ds ≡ some ds → Sends ds rc.sent rc.seq rc
  nothing rc held = record {
    msgs = [];
    logged = sym (append-nil rc.sent);
    numbered = refl;
    held = held;
  }

  pub Sends-trans :
      {log : List (SocketAddr × Packet)} {seq : ℕ} (mid : FakeRc) {rc : FakeRc}
      → Sends ds log seq mid
      → Sends ds mid.sent mid.seq rc
      → Sends ds log seq rc
  Sends-trans {log = log} {seq = seq} mid {rc = rc} f g = record {
    msgs = f.msgs ++ g.msgs;
    logged =
        g.logged
        ∙ ap (λ l. l ++ map (addressed ds) g.msgs) f.logged
        ∙ append_assoc log (map (addressed ds) f.msgs) (map (addressed ds) g.msgs)
        ∙ ap (λ l. log ++ l) (sym (map-append ds f.msgs g.msgs));
    numbered = IsNumbered-append seq mid.seq rc.seq f.msgs g.msgs f.numbered g.numbered;
    held = g.held;
  }

  pub send_command-Sends :
      (clk : Clock) (name extra : Bytes) (rc : FakeRc)
      → rc.ds ≡ some ds
      → Sends ds rc.sent rc.seq (send_command clk name extra rc)
  unfolding send_command send send_to next_seq create
  send_command-Sends clk name extra rc held = record {
    msgs = issued clk name extra rc ∷ [];
    logged = rw held refl;
    numbered = rw held (refl, refl, refl);
    held = rw held refl;
  }

  -- A second command after what went before.
  pub then_command :
      {log : List (SocketAddr × Packet)} {seq : ℕ} (clk : Clock) (name extra : Bytes) {mid : FakeRc}
      → Sends ds log seq mid
      → Sends ds log seq (send_command clk name extra mid)
  then_command clk name extra {mid = mid} f =
      Sends-trans mid f (send_command-Sends clk name extra mid f.held)

  -- The two branches of a test.
  pub either_Sends :
      (b : Bool) {log : List (SocketAddr × Packet)} {seq : ℕ} {yes_rc no_rc : FakeRc}
      → Sends ds log seq yes_rc
      → Sends ds log seq no_rc
      → Sends ds log seq (if b then yes_rc else no_rc)
  either_Sends true f g = f
  either_Sends false f g = g
