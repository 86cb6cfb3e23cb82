-- ===== src/DsCli/Listed.antt =====
-- Which configurations the driver station asks about.
use robocol.Prelude.{
  ◌≡◌, refl, Bool, true, false, ◌||◌, List, [], ◌∷◌, Option, none, some, All, All-append,
  if◌then◌else◌,
}
use robocol.Prelude.Text.{bytes_eq}
use robocol.Wire.{Bytes}
use robocol.Cmd
use robocol.Cmd.{Json, ConfigMeta, parse_config_list}
use robocol.Client.State.{Event}
use robocol.Client.Run.{Control}
use robocol.Client.Api
use robocol.DsCli.{
  Word, words, word_in, Complaint, Step, Console, Input, sends, find_config, with_config, run_named,
  unwrap_or, split_line, act, typed, heard, input, after, session,
}

-- The commands whose payload is the meta data of a configuration.
unfoldable pub asks_config : Bytes → Bool
unfolding bytes_eq
asks_config name =
    bytes_eq name Cmd.request_particular_configuration
    || bytes_eq name Cmd.activate_configuration
    || bytes_eq name Cmd.delete_configuration

abbrev About : Bool → Type 0 → Type 0
About true A = A
About false A = Unit

-- A command about a configuration has the JSON of one that `P` holds of.
unfoldable pub Allowed : Json → (ConfigMeta → Type 0) → Step → Type 0
unfolding asks_config
Allowed json P (Step.send (Control.send_command command)) =
    About (asks_config command.name)
      ((meta : ConfigMeta) × P meta × (json.config_string meta ≡ some command.extra))
Allowed json P step = Unit

-- `P` holds of each configuration of a list that comes in.
unfoldable pub Lists : Json → (ConfigMeta → Type 0) → Input → Type 0
unfolding parse_config_list
Lists json P (Input.event (Event.configuration_list extra)) = All P (parse_config_list json extra)
Lists json P input = Unit

with_meta : (b : Bool) (A : Type 0) → A → About b A
with_meta true A x = x
with_meta false A x = tt

without_meta : (b : Bool) (A : Type 0) → b ≡ false → About b A
without_meta true A e = absurd cc
without_meta false A e = tt

module _ (json : Json) (P : ConfigMeta → Type 0) where
  other_command :
      (name extra : Bytes)
      → asks_config name ≡ false
      → All (Allowed json P) (sends (Api.send_command name extra))
  unfolding Allowed Api.send_command
  other_command name extra other = (without_meta (asks_config name) _ other, tt)

  config_command :
      (name : Bytes) (meta : ConfigMeta)
      → P meta
      → All (Allowed json P) (sends (Api.send_config_command json name meta))
  unfolding Allowed Api.send_config_command Api.send_command
  config_command name meta p = by_text (json.config_string meta) refl
    where
      by_text :
          (o : Option Bytes)
          → json.config_string meta ≡ o
          → All (Allowed json P) (
              sends (elim o as (λ _. List Control) [
                | none ↦ []
                | some text ↦ Api.send_command name text
              ]))
      by_text none e = tt
      by_text (some text) e = (with_meta (asks_config name) _ (meta, p, e), tt)

  known_config :
      (request : ConfigMeta → List Control) (known : List ConfigMeta) (name : Bytes)
      → ((meta : ConfigMeta) → P meta → All (Allowed json P) (sends (request meta)))
      → All P known
      → All (Allowed json P) (with_config request known name)
  unfolding with_config find_config Allowed
  known_config request known name fine ps = by_found (find_config known name) (found known ps)
    where
      Found : Option ConfigMeta → Type 0
      Found none = Unit
      Found (some meta) = P meta

      either_Found :
          (b : Bool) (p q : Option ConfigMeta) → Found p → Found q → Found (if b then p else q)
      either_Found true p q h k = h
      either_Found false p q h k = k

      found : (known : List ConfigMeta) → All P known → Found (find_config known name)
      found [] ps = tt
      found (c ∷ cs) (p, ps) = either_Found (bytes_eq c.name name) _ _ p (found cs ps)

      by_found :
          (o : Option ConfigMeta)
          → Found o
          → All (Allowed json P) (elim o as (λ _. List Step) [
            | none ↦ Step.complain (Complaint.unknown_config name) ∷ []
            | some meta ↦ sends (request meta)
          ])
      by_found none h = (tt, tt)
      by_found (some meta) p = fine meta p

  run_named-Allowed : (name : Bytes) → All (Allowed json P) (run_named name)
  unfolding run_named Api.run_opmode Allowed asks_config
  run_named-Allowed [] = (tt, tt)
  run_named-Allowed (b ∷ name) = other_command Cmd.run_op_mode (b ∷ name) refl

  -- What a line or an event comes to: steps that are allowed, and a list of which `P` holds.
  data Fine : Option (List Step × Console) → Type 0 where
    quits : Fine none
    goes_on :
        (steps : List Step) (c : Console)
        → All (Allowed json P) steps
        → All P c.known_configs
        → Fine (some (steps, c))

  either_Fine :
      (b : Bool) (p q : List Step × Console)
      → Fine (some p)
      → Fine (some q)
      → Fine (some (if b then p else q))
  either_Fine true p q h k = h
  either_Fine false p q h k = k

  act-Fine :
      (word : Word) (first : Bytes) (argument : Option Bytes) (c : Console)
      → All P c.known_configs
      → Fine (act json word first argument c)
  unfolding act Allowed asks_config Api.request_opmode_list Api.init_opmode Api.stop_opmode
      Api.restart_robot Api.connect Api.disconnect Api.request_active_config
      Api.request_configurations Api.save_configuration Api.request_user_device_types Api.scan
      Api.discover_lynx_modules Api.request_particular_configuration Api.activate_configuration
      Api.delete_configuration Api.send_gamepad
  act-Fine Word.list first argument c ps =
      Fine.goes_on _ _ (other_command Cmd.request_op_mode_list [] refl) ps
  act-Fine Word.init first (some name) c ps =
      Fine.goes_on _ _ (other_command Cmd.init_op_mode name refl) ps
  act-Fine Word.run first argument c ps =
      Fine.goes_on _ _ (run_named-Allowed (unwrap_or c.last_inited argument)) ps
  act-Fine Word.stop first argument c ps =
      Fine.goes_on _ _ (other_command Cmd.init_op_mode Cmd.default_op_mode refl) ps
  act-Fine Word.restart first argument c ps =
      Fine.goes_on _ _ (other_command Cmd.restart_robot [] refl) ps
  act-Fine Word.connect first argument c ps = Fine.goes_on _ _ (tt, tt) ps
  act-Fine Word.disconnect first argument c ps = Fine.goes_on _ _ (tt, tt) ps
  act-Fine Word.active_config first argument c ps =
      Fine.goes_on _ _ (other_command Cmd.request_active_config [] refl) ps
  act-Fine Word.configs first argument c ps =
      Fine.goes_on _ _ (other_command Cmd.request_configurations [] refl) ps
  act-Fine Word.config first (some name) c ps =
      Fine.goes_on _ _
        (known_config (Api.request_particular_configuration json) c.known_configs name
          (config_command Cmd.request_particular_configuration) ps)
        ps
  act-Fine Word.save_config first (some text) c ps =
      Fine.goes_on _ _ (other_command Cmd.save_configuration text refl) ps
  act-Fine Word.activate_config first (some name) c ps =
      Fine.goes_on _ _
        (known_config (Api.activate_configuration json) c.known_configs name
          (config_command Cmd.activate_configuration) ps)
        ps
  act-Fine Word.delete_config first (some name) c ps =
      Fine.goes_on _ _
        (known_config (Api.delete_configuration json) c.known_configs name
          (config_command Cmd.delete_configuration) ps)
        ps
  act-Fine Word.device_types first argument c ps =
      Fine.goes_on _ _ (other_command Cmd.request_user_device_types [] refl) ps
  act-Fine Word.scan first argument c ps = Fine.goes_on _ _ (other_command Cmd.scan [] refl) ps
  act-Fine Word.lynx_modules first (some serial) c ps =
      Fine.goes_on _ _ (other_command Cmd.discover_lynx_modules serial refl) ps
  act-Fine Word.w first argument c ps = Fine.goes_on _ _ (tt, (tt, (tt, tt))) ps
  act-Fine Word.quit first argument c ps = Fine.quits
  act-Fine Word.nothing first argument c ps = Fine.goes_on [] c tt ps
  act-Fine word first argument c ps = Fine.goes_on _ _ (tt, tt) ps

  heard-Fine :
      (show : Event → Bytes) (e : Event) (c : Console)
      → Lists json P (Input.event e)
      → All P c.known_configs
      → Fine (some (heard json show e c))
  unfolding heard Allowed Lists
  heard-Fine show (Event.configuration_list extra) c ls ps = Fine.goes_on _ _ (tt, tt) ls
  heard-Fine show (Event.telemetry t) c ls ps =
      either_Fine (bytes_eq (show (Event.telemetry t)) c.last_telemetry) _ _
        (Fine.goes_on [] c tt ps) (Fine.goes_on _ _ (tt, tt) ps)
  heard-Fine show e c ls ps = Fine.goes_on _ _ (tt, tt) ps

  input-Fine :
      (show : Event → Bytes) (i : Input) (c : Console)
      → Lists json P i
      → All P c.known_configs
      → Fine (input json show i c)
  unfolding input typed
  input-Fine show (Input.line text) c ls ps =
      let (first, argument) = split_line text in act-Fine (word_in words first) first argument c ps
  input-Fine show (Input.event e) c ls ps = heard-Fine show e c ls ps

  -- In any session, whatever the user types, each command that asks for a configuration, activates it or deletes
  -- it has the JSON of meta data from a list that came in before or was there at the start: if `P` holds of all
  -- that is listed, then of the meta data of each such command.
  pub session-Allowed :
      (show : Event → Bytes) (is : List Input) (c : Console)
      → All (Lists json P) is
      → All P c.known_configs
      → All (Allowed json P) (session json show is c).0
  unfolding session
  session-Allowed show [] c ls ps = tt
  session-Allowed show (i ∷ is) c (l, ls) ps =
      by_input (input json show i c) (input-Fine show i c l ps)
        (λ c' ps'. session-Allowed show is c' ls ps')
    where
      by_input :
          (o : Option (List Step × Console))
          → Fine o
          → ((c' : Console)
              → All P c'.known_configs
              → All (Allowed json P) (session json show is c').0)
          → All
              (Allowed json P)
              (elim o as (λ _. List Step × Option Console) [
                | none ↦ ([], none)
                | some (steps, c') ↦ after steps (session json show is c')
              ]).0
      by_input none Fine.quits later = tt
      by_input (some (steps, c')) (Fine.goes_on _ _ h ps') later =
          All-append (Allowed json P) steps (session json show is c').0 h (later c' ps')
