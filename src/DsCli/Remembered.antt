-- ===== src/DsCli/Remembered.antt =====
-- What `run` without a name runs.
use robocol.Prelude.{
  ℕ, ◌≡◌, refl, sym, ap, ◌∙◌, append_assoc, Bool, true, false, List, [], ◌∷◌, ◌++◌, Option, none,
  some, All, if◌then◌else◌,
}
use robocol.Prelude.Text.{bytes_eq, codes}
use robocol.Wire.{Bytes}
use robocol.Cmd.{Json}
use robocol.Client.State.{Event}
use robocol.Client.Api
use robocol.DsCli.{
  Word, words, word_in, Step, Console, Input, sends, split_line, act, typed, heard, input, after,
  session, run_named,
}

-- A line that neither inits an op mode nor quits.
abbrev pub keeps_word : Word → Option Bytes → Bool
keeps_word Word.init (some name) = false
keeps_word Word.quit argument = false
keeps_word word argument = true

unfoldable pub keeps : Input → Bool
unfolding split_line word_in
keeps (Input.line text) =
    let (first, argument) = split_line text in keeps_word (word_in words first) argument
keeps (Input.event e) = true

-- The next console, which has the same op mode inited last.
data Same (c : Console) : Option (List Step × Console) → Type 0 where
  same :
      (steps : List Step) (c' : Console)
      → c'.last_inited ≡ c.last_inited
      → Same c (some (steps, c'))

act-Same :
    (json : Json) (word : Word) (first : Bytes) (argument : Option Bytes) (c : Console)
    → keeps_word word argument ≡ true
    → Same c (act json word first argument c)
unfolding act
act-Same json Word.init first (some name) c k = absurd (cc)
act-Same json Word.quit first none c k = absurd (cc)
act-Same json Word.quit first (some name) c k = absurd (cc)
act-Same json word first none c k = Same.same _ _ refl
act-Same json word first (some name) c k = Same.same _ _ refl

either_Same :
    (b : Bool) (c : Console) (p q : List Step × Console)
    → Same c (some p)
    → Same c (some q)
    → Same c (some (if b then p else q))
either_Same true c p q h k = h
either_Same false c p q h k = k

heard-Same :
    (json : Json) (show : Event → Bytes) (e : Event) (c : Console)
    → Same c (some (heard json show e c))
unfolding heard
heard-Same json show (Event.telemetry t) c =
    either_Same (bytes_eq (show (Event.telemetry t)) c.last_telemetry) c _ _ (Same.same _ _ refl)
      (Same.same _ _ refl)
heard-Same json show e c = Same.same _ _ refl

input-Same :
    (json : Json) (show : Event → Bytes) (i : Input) (c : Console)
    → keeps i ≡ true
    → Same c (input json show i c)
unfolding input typed keeps
input-Same json show (Input.line text) c k =
    let (first, argument) = split_line text in
    act-Same json (word_in words first) first argument c k
input-Same json show (Input.event e) c k = heard-Same json show e c

-- A session that comes to its end, with the same op mode inited last.
data Kept (c : Console) : List Step × Option Console → Type 0 where
  kept :
      (steps : List Step) (c' : Console) → c'.last_inited ≡ c.last_inited → Kept c (steps, some c')

after-Kept :
    (c c' : Console) (steps : List Step) (p : List Step × Option Console)
    → c'.last_inited ≡ c.last_inited
    → Kept c' p
    → Kept c (after steps p)
after-Kept c c' steps (later, some c'') e (Kept.kept _ _ e') =
    Kept.kept (steps ++ later) c'' (e' ∙ e)
after-Kept c c' steps (later, none) e x = elim x [ ]

session-Kept :
    (json : Json) (show : Event → Bytes) (is : List Input) (c : Console)
    → All (λ i. keeps i ≡ true) is
    → Kept c (session json show is c)
unfolding session
session-Kept json show [] c k = Kept.kept [] c refl
session-Kept json show (i ∷ is) c (k, ks) =
    by_input (input json show i c) (input-Same json show i c k)
      (λ c'. session-Kept json show is c' ks)
  where
    by_input :
        (o : Option (List Step × Console))
        → Same c o
        → ((c' : Console) → Kept c' (session json show is c'))
        → Kept c (elim o as (λ _. List Step × Option Console) [
          | none ↦ ([], none)
          | some (steps, c') ↦ after steps (session json show is c')
        ])
    by_input (some (steps, c')) (Same.same _ _ e) later =
        after-Kept c c' steps (session json show is c') e (later c')
    by_input none x later = elim x [ ]

typed-split :
    (json : Json) (line first : Bytes) (argument : Option Bytes) (c : Console)
    → split_line line ≡ (first, argument)
    → typed json line c ≡ act json (word_in words first) first argument c
unfolding typed
typed-split json line first argument c e = ap (λ p. act json (word_in words p.0) p.0 p.1 c) e

-- At its end a session asks for the op mode of a name to be run.
abbrev Runs : Bytes → List Step × Option Console → Type 0
Runs name p =
    (steps : List Step) × (c : Console) × (p ≡ (steps ++ sends (Api.run_opmode name), some c))

after-Runs :
    (name : Bytes) (steps : List Step) (p : List Step × Option Console)
    → Runs name p
    → Runs name (after steps p)
after-Runs name steps p (later, c, e) = (
  steps ++ later,
  c,
  ap (after steps) e
      ∙ ap (λ s. (s, some c)) (sym (append_assoc steps later (sends (Api.run_opmode name)))),
)

typed-run :
    (json : Json) (b : ℕ) (name line : Bytes) (c : Console)
    → split_line line ≡ (codes "run", none)
    → c.last_inited ≡ b ∷ name
    → typed json line c ≡ some (sends (Api.run_opmode (b ∷ name)), c)
unfolding word_in bytes_eq act run_named
typed-run json b name line c is_run e =
    typed-split json line (codes "run") none c is_run ∙ ap (λ n. some (run_named n, c)) e

typed-init :
    (json : Json) (name line : Bytes) (c : Console)
    → split_line line ≡ (codes "init", some name)
    → typed json line c ≡ some (sends (Api.init_opmode name), record c { last_inited = name })
unfolding word_in bytes_eq act
typed-init json name line c is_init = typed-split json line (codes "init") (some name) c is_init

module _ (json : Json) (show : Event → Bytes) (b : ℕ) (name run_line : Bytes)
    (is_run : split_line run_line ≡ (codes "run", none)) where
  session-Runs :
      (is : List Input) (c : Console)
      → All (λ i. keeps i ≡ true) is
      → c.last_inited ≡ b ∷ name
      → Runs (b ∷ name) (session json show (is ++ Input.line run_line ∷ []) c)
  unfolding session input
  session-Runs [] c k e =
      ([], c, rw (session, input, typed-run json b name run_line c is_run e) refl)
  session-Runs (i ∷ is) c (k, ks) e =
      by_input (input json show i c) (input-Same json show i c k)
        (λ c' e'. session-Runs is c' ks e')
    where
      by_input :
          (o : Option (List Step × Console))
          → Same c o
          → ((c' : Console)
              → c'.last_inited ≡ b ∷ name
              → Runs (b ∷ name) (session json show (is ++ Input.line run_line ∷ []) c'))
          → Runs (b ∷ name) (elim o as (λ _. List Step × Option Console) [
            | none ↦ ([], none)
            | some (steps, c') ↦ after steps (session json show (is ++ Input.line run_line ∷ []) c')
          ])
      by_input (some (steps, c')) (Same.same _ _ e') later =
          after-Runs (b ∷ name) steps _ (later c' (e' ∙ e))
      by_input none x later = elim x [ ]

  -- A line `init` with a name, then lines and events of which none inits an op mode or quits, then a line `run`
  -- without a name: the session goes on to the end, and the last that it does is to ask for the op mode of that
  -- name, which is not empty, to be run.
  pub session-run :
      (init_line : Bytes) (is : List Input) (c : Console)
      → split_line init_line ≡ (codes "init", some (b ∷ name))
      → All (λ i. keeps i ≡ true) is
      → (steps : List Step) × (c' : Console) × (session json show
            (Input.line init_line ∷ is ++ Input.line run_line ∷ [])
            c
          ≡ (steps ++ sends (Api.run_opmode (b ∷ name)), some c'))
  unfolding session input
  session-run init_line is c is_init ks =
      rw (session, input, typed-init json (b ∷ name) init_line c is_init)
        (after-Runs (b ∷ name) (sends (Api.init_opmode (b ∷ name))) _
          (session-Runs is (record c { last_inited = b ∷ name }) ks refl))
