-- ===== src/Client/AtMostOnce.antt =====
-- A request that arrives again, and the acknowledgement of a command (`handle_command`).
use robocol.Prelude.{
  ℕ, ◌≡◌, refl, ap, ◌∙◌, true, false, List, [], ◌∷◌, ◌++◌, arith, Bool-cases, inl, inr, All,
}
use robocol.Prelude.Text.{bytes_eq, bytes_eq_iff}
use robocol.Wire.{Bytes}
use robocol.Cmd
use robocol.Cmd.{Json}
use robocol.Packets.Command.{Command, ack_of}
use robocol.Packets.Packet.{Packet}
use robocol.Client.State.{SocketAddr, Clock, Worker, PendingCommand, send_to}
use robocol.Client.Receive.{
  handle_request, handle_command, is_frame, is_seen, remember, matches_ack, retain_unacked,
  handle_ack,
}
use robocol.Client.Kept.{answer-Kept}

bytes_eq_refl : (a : Bytes) → bytes_eq a a ≡ true
bytes_eq_refl a = (bytes_eq_iff a a).1 refl

is_seen_last :
    (name : Bytes) (t : ℕ) (seen : List (Bytes × ℕ))
    → is_seen name t (seen ++ (name, t) ∷ []) ≡ true
unfolding is_seen
is_seen_last name t [] = ground (arith, bytes_eq_refl name)
is_seen_last name t ((n, u) ∷ seen) = ground (arith, is_seen_last name t seen)

is_seen-remember :
    (name : Bytes) (t : ℕ) (seen : List (Bytes × ℕ)) → is_seen name t (remember name t seen) ≡ true
unfolding is_seen remember
is_seen-remember name t [] = ground (arith, bytes_eq_refl name)
is_seen-remember name t ((n, u) ∷ seen) = ground (arith, is_seen_last name t seen)

-- The request is on record once it was handled, whether or not it was before.
handle_request-seen :
    (json : Json) (clk : Clock) (c : Command) (from : SocketAddr) (w : Worker)
    → is_frame c.name ≡ false
    → is_seen c.name c.timestamp (handle_request json clk c from w).0.seen ≡ true
unfolding handle_request send_to
handle_request-seen json clk c from w other =
    let acked = send_to from (Packet.command (ack_of c)) w in
    elim (Bool-cases (is_seen c.name c.timestamp w.seen)) [
      | inl old ↦ rw (other, old) old
      | inr new ↦
          rw (other, new)
            (ap (is_seen c.name c.timestamp)
                (answer-Kept json clk c
                  (record acked { seen = remember c.name c.timestamp w.seen })).1
              ∙ is_seen-remember c.name c.timestamp w.seen)
    ]

handle_request-old :
    (json : Json) (clk : Clock) (c : Command) (from : SocketAddr) (w : Worker)
    → is_frame c.name ≡ false
    → is_seen c.name c.timestamp w.seen ≡ true
    → handle_request json clk c from w ≡ (send_to from (Packet.command (ack_of c)) w, true)
unfolding handle_request send_to
handle_request-old json clk c from w other old = ground (arith, other, old)

-- A request other than a frame's, handled right after it was handled before, in any state and from whatever
-- address, is acknowledged once more, and that is all: no event is raised, no other state changes.
pub handle_command-twice :
    (json : Json) (clk clk' : Clock) (c : Command) (from from' : SocketAddr) (w : Worker)
    → c.acknowledged ≡ false
    → is_frame c.name ≡ false
    → handle_command json clk' c from' (handle_command json clk c from w).0
      ≡ (send_to from' (Packet.command (ack_of c)) (handle_command json clk c from w).0, true)
unfolding handle_command
handle_command-twice json clk clk' c from from' w request other = rw request (
    handle_request-old json clk' c from' (handle_request json clk c from w).0 other
      (handle_request-seen json clk c from w other))

matches-ack_of : (p : PendingCommand) → matches_ack (ack_of p.command) p ≡ true
unfolding matches_ack ack_of
matches-ack_of p = ground (arith, bytes_eq_refl p.command.name)

retain_unacked_none :
    (ack : Command) (ps : List PendingCommand)
    → All (λ p. matches_ack ack p ≡ false) ps
    → retain_unacked ack ps ≡ ps
unfolding retain_unacked
retain_unacked_none ack [] a = refl
retain_unacked_none ack (p ∷ ps) (n, a) = ground (arith, retain_unacked_none ack ps a)

retain_unacked_one :
    (ack : Command) (p : PendingCommand) (ps qs : List PendingCommand)
    → matches_ack ack p ≡ true
    → All (λ q. matches_ack ack q ≡ false) (ps ++ qs)
    → retain_unacked ack (ps ++ p ∷ qs) ≡ ps ++ qs
unfolding retain_unacked
retain_unacked_one ack p [] qs hit others = ground (arith, retain_unacked_none ack qs others)
retain_unacked_one ack p (q ∷ ps) qs hit (other, others) =
    ground (arith, retain_unacked_one ack p ps qs hit others)

-- Two entries whose commands have the same name and the same time.
abbrev pub IsNamesake : PendingCommand → PendingCommand → Type 0
IsNamesake p q = (q.command.name ≡ p.command.name) × (q.command.timestamp ≡ p.command.timestamp)

other-matches_ack :
    (p q : PendingCommand) → ¬ IsNamesake p q → matches_ack (ack_of p.command) q ≡ false
unfolding matches_ack ack_of
other-matches_ack p q other = ground (arith, bytes_eq_iff q.command.name p.command.name, other)

others-match_no_ack :
    (p : PendingCommand) (qs : List PendingCommand)
    → All (λ q. ¬ IsNamesake p q) qs
    → All (λ q. matches_ack (ack_of p.command) q ≡ false) qs
others-match_no_ack p [] a = tt
others-match_no_ack p (q ∷ qs) (other, a) =
    (other-matches_ack p q other, others-match_no_ack p qs a)

-- The acknowledgement of a command under way, made from the command as it was sent, with the sequence number
-- of that sending, takes just this command out of the queue and changes nothing else, when no other entry has
-- its name and time and it is not the one that activates a configuration.
pub handle_command-ack :
    (json : Json) (clk : Clock) (p : PendingCommand) (ps qs : List PendingCommand)
    → (seq : ℕ) (from : SocketAddr) (w : Worker) → w.pending ≡ ps ++ p ∷ qs
    → All (λ q. ¬ IsNamesake p q) (ps ++ qs)
    → bytes_eq p.command.name Cmd.activate_configuration ≡ false
    → handle_command json clk (ack_of (record p.command { seq = seq })) from w
      ≡ (record w { pending = ps ++ qs }, true)
unfolding handle_command handle_ack ack_of
handle_command-ack json clk p ps qs seq from w at others plain =
    let ack = ack_of (record p.command { seq = seq }) in
    let gone =
      ap (retain_unacked ack) at
      ∙ retain_unacked_one ack p ps qs (matches-ack_of p)
          (others-match_no_ack p (ps ++ qs) others) in
    rw plain (ap (λ (l : List PendingCommand). (record w { pending = l }, true)) gone)
