-- ===== src/Examples/DsCli.antt =====
-- The terminal driver station's theorems at a concrete session.
use robocol.Prelude.{◌≡◌, refl, true, false, List, [], ◌∷◌, ◌++◌, some, none, All}
use robocol.Prelude.Text.{codes}
use robocol.Wire.{Bytes}
use robocol.Cmd
use robocol.Cmd.{Json, ConfigMeta}
use robocol.Client.State.{Event}
use robocol.Client.Api
use robocol.DsCli.{Step, Complaint, Console, Input, start, sends, session, split_line}
use robocol.DsCli.Remembered.{keeps, session-run}
use robocol.DsCli.Listed.{Allowed, Lists, session-Allowed}

abbrev arm : ConfigMeta
arm = record {
  is_dirty = false;
  location = codes "LOCAL_STORAGE";
  name = codes "Arm";
  resource_id = 7;
}

-- Each text lists one configuration, and a configuration is written as its name.
abbrev json : Json
json = record {
  frame_begin = λ s. none;
  frame_chunk = λ s. none;
  op_mode_metas = λ s. none;
  names = λ s. none;
  config_metas = λ s. some (arm ∷ []);
  config_string = λ m. some m.name;
}

abbrev show : Event → Bytes
show e = codes "<<"

abbrev IsLocal : ConfigMeta → Type 0
IsLocal meta = meta.location ≡ codes "LOCAL_STORAGE"

abbrev typed_lines : List Input
typed_lines =
    Input.line (codes "config Arm")
    ∷ Input.event (Event.configuration_list (codes "[Arm]"))
    ∷ Input.line (codes "  delete-config Arm ")
    ∷ Input.line (codes "config Leg")
    ∷ Input.line (codes "init")
    ∷ Input.line (codes "run")
    ∷ Input.line (codes "exit now")
    ∷ Input.line (codes "stop")
    ∷ []

abbrev typed_steps : List Step
typed_steps =
    Step.complain (Complaint.unknown_config (codes "Arm"))
      ∷ Step.print (codes "<<")
      ∷ sends (Api.send_command Cmd.delete_configuration (codes "Arm"))
    ++ Step.complain (Complaint.unknown_config (codes "Leg"))
      ∷ Step.complain (Complaint.unknown_command (codes "init"))
      ∷ Step.complain Complaint.nothing_inited
      ∷ []

typed_lines_run : session json show typed_lines start ≡ (typed_steps, none)
unfolding session Api.send_command Api.delete_configuration Api.send_config_command
typed_lines_run = refl

session-Allowed_example : All (Allowed json IsLocal) (session json show typed_lines start).0
unfolding Lists
session-Allowed_example =
    session-Allowed json IsLocal show typed_lines start
      (tt, ((refl, tt), (tt, (tt, (tt, (tt, (tt, (tt, tt)))))))) tt

abbrev between : List Input
between =
    Input.line (codes "stop")
    ∷ Input.event (Event.configuration_list (codes "[Arm]"))
    ∷ Input.line (codes "run Other")
    ∷ []

between-keeps : All (λ i. keeps i ≡ true) between
unfolding keeps
between-keeps = (refl, (refl, (refl, tt)))

session-run_example :
    (steps : List Step) × (c : Console) × (session json show
        (Input.line (codes " init Drive") ∷ between ++ Input.line (codes "run ") ∷ [])
        start
      ≡ (steps ++ sends (Api.run_opmode (codes "Drive")), some c))
unfolding split_line
session-run_example =
    session-run json show 68 (codes "rive") (codes "run ") run_split (codes " init Drive") between
      start init_split between-keeps
  where
    run_split : split_line (codes "run ") ≡ (codes "run", none)
    run_split = refl

    init_split : split_line (codes " init Drive") ≡ (codes "init", some (codes "Drive"))
    init_split = refl
