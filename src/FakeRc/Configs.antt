-- ===== src/FakeRc/Configs.antt =====
-- The robot configurations of the simulated controller: `config_key` and the branches of `handle_command`
-- that save, delete, activate and serve them.
use robocol.Prelude.{
  ◌+◌, ◌%◌, ◌^◌, Bool, ◌&&◌, List, [], ◌∷◌, Option, none, some, ◌==◌, if◌then◌else◌,
}
use robocol.Prelude.Text.{bytes_eq}
use robocol.Wire.{Bytes}
use robocol.Cmd
use robocol.Cmd.{ConfigMeta}
use robocol.Client.State.{Clock}
use robocol.Video.Text.{split_once}
use robocol.FakeRc.Outside.{Outside}
use robocol.FakeRc.Canned.{fake_config_xml}
use robocol.FakeRc.State.{FakeRc, send_command}

abbrev pub config_key : ConfigMeta → Bytes × Bytes
config_key meta = (meta.location, meta.name)

unfoldable pub key_eq : Bytes × Bytes → Bytes × Bytes → Bool
key_eq (l, n) (k, m) = bytes_eq l k && bytes_eq n m

-- `HashMap::get` and `HashMap::insert`.
unfoldable pub lookup : Bytes × Bytes → List ((Bytes × Bytes) × Bytes) → Option Bytes
unfolding key_eq
lookup key [] = none
lookup key ((k, xml) ∷ m) = let rest = lookup key m in if key_eq k key then some xml else rest

unfoldable pub insert :
    Bytes × Bytes → Bytes → List ((Bytes × Bytes) × Bytes) → List ((Bytes × Bytes) × Bytes)
unfolding key_eq
insert key xml [] = (key, xml) ∷ []
insert key xml ((k, old) ∷ m) =
    let rest = insert key xml m in if key_eq k key then (k, xml) ∷ m else (k, old) ∷ rest

-- The first entry with the key of `meta` is overwritten; where there is none, `meta` is pushed.
unfoldable pub replace_or_push : ConfigMeta → List ConfigMeta → List ConfigMeta
unfolding key_eq
replace_or_push meta [] = meta ∷ []
replace_or_push meta (c ∷ cs) =
    let rest = replace_or_push meta cs in
    if key_eq (config_key c) (config_key meta) then meta ∷ cs else c ∷ rest

-- `retain`: all but the entries with the key of `meta`.
unfoldable pub delete : ConfigMeta → List ConfigMeta → List ConfigMeta
unfolding key_eq
delete meta [] = []
delete meta (c ∷ cs) =
    let rest = delete meta cs in if key_eq (config_key c) (config_key meta) then rest else c ∷ rest

unfoldable pub notify_active : Outside → Clock → ConfigMeta → FakeRc → FakeRc
unfolding send_command
notify_active out clk meta rc =
    send_command clk Cmd.notify_active_configuration (out.config_meta_string meta) rc

-- A configuration without an id gets the next one; an `i64` is its 64-bit pattern, which wraps in a build
-- without overflow checks.
unfoldable pub with_id : ConfigMeta → FakeRc → ConfigMeta × FakeRc
with_id meta rc =
    let id = (rc.next_resource_id + 1) % 2 ^ 64 in
    if meta.resource_id == 0
    then (record meta { resource_id = id }, record rc { next_resource_id = id })
    else (meta, rc)

unfoldable pub store_config : Outside → Clock → Bytes → ConfigMeta × FakeRc → FakeRc
unfolding insert replace_or_push notify_active
store_config out clk xml (meta, rc) = notify_active out clk meta (record rc {
  saved_xml = insert (config_key meta) xml rc.saved_xml;
  configs = replace_or_push meta rc.configs;
  active_config = meta;
})

unfoldable pub save_parsed : Outside → Clock → Option ConfigMeta → Bytes → FakeRc → FakeRc
unfolding with_id store_config
save_parsed out clk none xml rc = rc
save_parsed out clk (some meta) xml rc = store_config out clk xml (with_id meta rc)

unfoldable pub save_split : Outside → Clock → Option (Bytes × Bytes) → FakeRc → FakeRc
unfolding save_parsed
save_split out clk none rc = rc
save_split out clk (some (meta_json, xml)) rc =
    save_parsed out clk (out.config_meta meta_json) xml rc

-- `CMD_SAVE_CONFIGURATION`: the JSON of the meta data, a semicolon and the XML.
unfoldable pub save_configuration : Outside → Clock → Bytes → FakeRc → FakeRc
unfolding split_once save_split
save_configuration out clk extra rc = save_split out clk (split_once b';' extra) rc

unfoldable pub delete_parsed : Option ConfigMeta → FakeRc → FakeRc
unfolding delete
delete_parsed none rc = rc
delete_parsed (some meta) rc = record rc { configs = delete meta rc.configs }

unfoldable pub delete_configuration : Outside → Bytes → FakeRc → FakeRc
unfolding delete_parsed
delete_configuration out extra rc = delete_parsed (out.config_meta extra) rc

unfoldable pub activate_parsed : Option ConfigMeta → FakeRc → FakeRc
activate_parsed none rc = rc
activate_parsed (some meta) rc = record rc { pending_activation = some meta }

unfoldable pub activate_configuration : Outside → Bytes → FakeRc → FakeRc
unfolding activate_parsed
activate_configuration out extra rc = activate_parsed (out.config_meta extra) rc

abbrev pub or_canned : Option Bytes → Bytes
or_canned none = fake_config_xml
or_canned (some xml) = xml

-- The XML for a request: what was saved under the key, or the canned file.
unfoldable pub particular_parsed : Option ConfigMeta → FakeRc → Bytes
unfolding lookup
particular_parsed none rc = fake_config_xml
particular_parsed (some meta) rc = or_canned (lookup (config_key meta) rc.saved_xml)

unfoldable pub particular_xml : Outside → Bytes → FakeRc → Bytes
unfolding particular_parsed
particular_xml out extra rc = particular_parsed (out.config_meta extra) rc

-- The activation that a restart carries out.
unfoldable pub apply_taken : Outside → Clock → Option ConfigMeta → FakeRc → FakeRc
unfolding notify_active
apply_taken out clk none rc = rc
apply_taken out clk (some meta) rc = notify_active out clk meta (record rc { active_config = meta })

unfoldable pub apply_activation : Outside → Clock → FakeRc → FakeRc
unfolding apply_taken
apply_activation out clk rc =
    apply_taken out clk rc.pending_activation (record rc { pending_activation = none })
