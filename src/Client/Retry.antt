-- ===== src/Client/Retry.antt =====
-- Retransmission: what `retransmit_pending` does to the queue, once and round after round.
use robocol.Prelude.{
  ℕ, zero, suc, ◌+◌, ◌*◌, ◌≤◌, ◌<◌, ◌≡◌, refl, ap, ◌∙◌, true, List, [], ◌∷◌, ◌++◌, Option, none,
  some, arith, length, All,
}
use robocol.Wire.{Bytes}
use robocol.Packets.Command.{Command}
use robocol.Client.State.{Clock, PendingCommand, is_due}
use robocol.Client.Commands.{Scan, scan, scan_one}

-- The attempts that a queue has made, all told.
abbrev pub attempts_of : List PendingCommand → ℕ
attempts_of [] = 0
attempts_of (p ∷ ps) = p.attempts + attempts_of ps

-- Every entry is kept or given up, and every sending is an attempt of an entry that is kept.
pub record Accounts (ps : List PendingCommand) (s : Scan) (max_attempts : ℕ) : Type 0 where
  pub none_lost : length s.kept + length s.dropped ≡ length ps
  pub counted :
      length s.to_send + attempts_of ps ≡ attempts_of s.kept + length s.dropped * max_attempts
  pub bounded : All (λ p. p.attempts ≤ max_attempts) s.kept

distr : (d m : ℕ) → suc d * m ≡ m + d * m
distr d m = grind arith

-- A pass over a queue whose entries made `max_attempts` attempts at most: no entry is lost, each sending is
-- counted, and the entries that stay made `max_attempts` attempts at most.
pub scan-Accounts :
    (retry max_attempts : ℕ) (clk : Clock) (ps : List PendingCommand)
    → All (λ p. p.attempts ≤ max_attempts) ps
    → Accounts ps (scan retry max_attempts clk ps) max_attempts
unfolding scan scan_one
scan-Accounts retry max_attempts clk [] a = record {
  none_lost = refl;
  counted = omega arith;
  bounded = tt;
}
scan-Accounts retry max_attempts clk (p ∷ ps) (b, a) =
    let rest = scan-Accounts retry max_attempts clk ps a in
    record {
      none_lost = ground (arith, rest.none_lost);
      counted = ground (
        arith,
        rest.counted,
        distr (length (scan retry max_attempts clk ps).dropped) max_attempts,
      );
      bounded = ground (arith, rest.bounded);
    }

-- What two queues leave, send and give up, one behind the other.
abbrev joined : Scan → Scan → Scan
joined s t = record {
  kept = s.kept ++ t.kept;
  to_send = s.to_send ++ t.to_send;
  dropped = s.dropped ++ t.dropped;
}

scan_one-joined :
    (retry max_attempts : ℕ) (clk : Clock) (p : PendingCommand) (s t : Scan)
    → scan_one retry max_attempts clk p (joined s t)
      ≡ joined (scan_one retry max_attempts clk p s) t
unfolding scan_one
scan_one-joined retry max_attempts clk p s t = ground arith

-- A pass treats each entry for itself.
scan-append :
    (retry max_attempts : ℕ) (clk : Clock) (ps qs : List PendingCommand)
    → scan retry max_attempts clk (ps ++ qs)
      ≡ joined (scan retry max_attempts clk ps) (scan retry max_attempts clk qs)
unfolding scan
scan-append retry max_attempts clk [] qs = refl
scan-append retry max_attempts clk (p ∷ ps) qs =
    ap (scan_one retry max_attempts clk p) (scan-append retry max_attempts clk ps qs)
    ∙ scan_one-joined retry max_attempts clk p (scan retry max_attempts clk ps)
        (scan retry max_attempts clk qs)

-- Pass after pass, what was sent and what was given up.
unfoldable pub passes : ℕ → ℕ → List Clock → List PendingCommand → List (List Command × List Bytes)
unfolding scan
passes retry max_attempts [] ps = []
passes retry max_attempts (clk ∷ clks) ps =
    let s = scan retry max_attempts clk ps in
    (s.to_send, s.dropped) ∷ passes retry max_attempts clks s.kept

-- Pass for pass, what both have.
abbrev pub together :
    List (List Command × List Bytes)
    → List (List Command × List Bytes)
    → List (List Command × List Bytes)
together [] later = []
together (x ∷ xs) [] = []
together ((sent, dropped) ∷ xs) ((sent', dropped') ∷ ys) =
    (sent ++ sent', dropped ++ dropped') ∷ together xs ys

-- Readings of the clock of which each is `retry` at least after the one before.
abbrev pub Spaced : ℕ → ℕ → List Clock → Type 0
Spaced retry last [] = Unit
Spaced retry last (clk ∷ clks) = (last + retry ≤ clk.now) × Spaced retry clk.now clks

passes_step :
    (retry max_attempts : ℕ) (clk : Clock) (clks : List Clock) (ps : List PendingCommand) (s : Scan)
    → scan retry max_attempts clk ps ≡ s
    → passes retry max_attempts (clk ∷ clks) ps
      ≡ (s.to_send, s.dropped) ∷ passes retry max_attempts clks s.kept
unfolding passes
passes_step retry max_attempts clk clks ps s e =
    ap (λ (t : Scan). (t.to_send, t.dropped) ∷ passes retry max_attempts clks t.kept) e

passes-append :
    (retry max_attempts : ℕ) (clks : List Clock) (ps qs : List PendingCommand)
    → passes retry max_attempts clks (ps ++ qs)
      ≡ together (passes retry max_attempts clks ps) (passes retry max_attempts clks qs)
unfolding passes
passes-append retry max_attempts [] ps qs = refl
passes-append retry max_attempts (clk ∷ clks) ps qs =
    let s = scan retry max_attempts clk ps in
    let t = scan retry max_attempts clk qs in
    passes_step retry max_attempts clk clks (ps ++ qs) (joined s t)
      (scan-append retry max_attempts clk ps qs)
    ∙ ap (λ l. (s.to_send ++ t.to_send, s.dropped ++ t.dropped) ∷ l)
        (passes-append retry max_attempts clks s.kept t.kept)

module _ (retry max_attempts : ℕ) (c : Command) (clk : Clock) where
  scan_again :
      (last : Option ℕ) (attempts : ℕ)
      → is_due last retry clk ≡ true
      → attempts < max_attempts
      → scan retry max_attempts clk
          (record { command = c; last_sent = last; attempts = attempts } ∷ [])
        ≡ record {
          kept = record { command = c; last_sent = some clk.now; attempts = attempts + 1 } ∷ [];
          to_send = c ∷ [];
          dropped = [];
        }
  unfolding scan scan_one
  scan_again last attempts due more = ground arith

  scan_given_up :
      (last : Option ℕ) (attempts : ℕ)
      → is_due last retry clk ≡ true
      → max_attempts ≤ attempts
      → scan retry max_attempts clk
          (record { command = c; last_sent = last; attempts = attempts } ∷ [])
        ≡ record { kept = []; to_send = []; dropped = c.name ∷ [] }
  unfolding scan scan_one
  scan_given_up last attempts due enough = ground arith

  due_after : (last : ℕ) → last + retry ≤ clk.now → is_due (some last) retry clk ≡ true
  unfolding is_due
  due_after last h = ground arith

-- One sending for each of the attempts that are left, and then the command is given up.
abbrev pub sent_then_dropped : ℕ → Command → List (List Command × List Bytes)
sent_then_dropped zero c = ([], c.name ∷ []) ∷ []
sent_then_dropped (suc left) c = (c ∷ [], []) ∷ sent_then_dropped left c

passes_over :
    (retry max_attempts : ℕ) (ps : List PendingCommand) → passes retry max_attempts [] ps ≡ []
unfolding passes
passes_over retry max_attempts ps = refl

-- From an entry that was last sent at `last`.
passes_from :
    (retry max_attempts left attempts last : ℕ) (c : Command) (clks : List Clock)
    → attempts + left ≡ max_attempts
    → length clks ≡ suc left
    → Spaced retry last clks
    → passes retry max_attempts clks
        (record { command = c; last_sent = some last; attempts = attempts } ∷ [])
      ≡ sent_then_dropped left c
passes_from retry max_attempts left attempts last c [] e n s = absurd (omega arith)
passes_from retry max_attempts zero attempts last c (clk ∷ []) e n (s, ss) =
    passes_step retry max_attempts clk [] _ _ (
      scan_given_up retry max_attempts c clk (some last) attempts
        (due_after retry max_attempts c clk last s) (omega arith))
    ∙ ap (λ l. ([], c.name ∷ []) ∷ l) (passes_over retry max_attempts [])
passes_from retry max_attempts zero attempts last c (clk ∷ more ∷ clks) e n s = absurd (omega arith)
passes_from retry max_attempts (suc left) attempts last c (clk ∷ clks) e n (s, ss) =
    passes_step retry max_attempts clk clks _ _ (
      scan_again retry max_attempts c clk (some last) attempts
        (due_after retry max_attempts c clk last s) (omega arith))
    ∙ ap (λ l. (c ∷ [], []) ∷ l)
        (passes_from retry max_attempts left (attempts + 1) clk.now c clks (omega arith)
          (omega arith) ss)

passes_new :
    (retry max_attempts : ℕ) (c : Command) (clk : Clock) (clks : List Clock)
    → 0 < max_attempts
    → length clks ≡ max_attempts
    → Spaced retry clk.now clks
    → passes retry max_attempts
        (clk ∷ clks)
        (record { command = c; last_sent = none; attempts = 0 } ∷ [])
      ≡ sent_then_dropped max_attempts c
unfolding is_due
passes_new retry zero c clk clks h n s = absurd (omega arith)
passes_new retry (suc left) c clk clks h n s =
    passes_step retry (suc left) clk clks _ _
      (scan_again retry (suc left) c clk none 0 refl (omega arith))
    ∙ ap (λ l. (c ∷ [], []) ∷ l)
        (passes_from retry (suc left) left 1 clk.now c clks (omega arith) n s)

-- A command that was just queued and is never acknowledged, among any other entries that are not acknowledged
-- either, on as many passes as `max_attempts` and one more, each `retry` at least after the one before: it is
-- sent once by each of the first `max_attempts` passes, and the next one gives it up and names it. What the
-- passes send and give up besides, before it and behind it, is what they do of the other entries alone.
pub passes-exhaust :
    (retry max_attempts : ℕ) (ps qs : List PendingCommand) (c : Command) (clk : Clock)
    (clks : List Clock)
    → 0 < max_attempts
    → length clks ≡ max_attempts
    → Spaced retry clk.now clks
    → passes retry max_attempts
        (clk ∷ clks)
        (ps ++ (record { command = c; last_sent = none; attempts = 0 }) ∷ qs)
      ≡ together
          (passes retry max_attempts (clk ∷ clks) ps)
          (together (sent_then_dropped max_attempts c) (passes retry max_attempts (clk ∷ clks) qs))
passes-exhaust retry max_attempts ps qs c clk clks h n s =
    passes-append retry max_attempts (clk ∷ clks) ps
      ((record { command = c; last_sent = none; attempts = 0 }) ∷ qs)
    ∙ ap (together (passes retry max_attempts (clk ∷ clks) ps)) (
        passes-append retry max_attempts (clk ∷ clks)
          (record { command = c; last_sent = none; attempts = 0 } ∷ []) qs
        ∙ ap (λ l. together l (passes retry max_attempts (clk ∷ clks) qs))
            (passes_new retry max_attempts c clk clks h n s))
