-- ===== src/FakeRc/Saved.antt =====
-- Configurations that are saved, and the XML that is served for them.
use robocol.Prelude.{
  ℕ, ◌≡◌, ◌≢◌, refl, sym, ap, ap₂, ◌∙◌, Bool, true, false, List, [], ◌∷◌, ◌++◌, Option, none, some,
  arith, ◌↔◌, if◌then◌else◌, Bool-cases, inl, inr,
}
use robocol.Prelude.Text.{bytes_eq, bytes_eq_iff}
use robocol.Wire.{Bytes}
use robocol.Cmd
use robocol.Cmd.{ConfigMeta}
use robocol.Packets.Command.{create, ack_of}
use robocol.Packets.Packet.{Packet}
use robocol.Client.State.{Clock}
use robocol.Video.Url.Address.{has, split_once-append}
use robocol.FakeRc.Outside.{Outside}
use robocol.FakeRc.State.{FakeRc, send, send_to, send_command, next_seq}
use robocol.FakeRc.Configs.{
  config_key, key_eq, lookup, insert, notify_active, with_id, store_config, save_parsed, save_split,
  save_configuration, particular_xml, particular_parsed, or_canned,
}
use robocol.FakeRc.Commands.{obey, config_command, handle_command}

key_eq_iff : (a b : Bytes × Bytes) → (key_eq a b ≡ true) ↔ (a ≡ b)
unfolding key_eq
key_eq_iff (l, n) (k, m) = ground (arith, bytes_eq_iff l k, bytes_eq_iff n m)

key_eq_self : (a : Bytes × Bytes) → key_eq a a ≡ true
key_eq_self a = (key_eq_iff a a).1 refl

true_ne_false : true ≢ false
true_ne_false e = cc

-- A stored key that is `k` and not `key` tells the two apart.
other_key :
    (key k j : Bytes × Bytes) → key_eq j k ≡ true → key_eq j key ≡ false → key_eq key k ≡ false
other_key key k j here other = elim (Bool-cases (key_eq key k)) [
  | inr differs ↦ differs
  | inl same ↦ absurd (
      true_ne_false (
        sym (key_eq_self key)
        ∙ ap (λ x. key_eq x key) ((key_eq_iff key k).0 same ∙ sym ((key_eq_iff j k).0 here))
        ∙ other))
]

lookup-insert :
    (key k : Bytes × Bytes) (xml : Bytes) (m : List ((Bytes × Bytes) × Bytes))
    → lookup k (insert key xml m) ≡ (if key_eq key k then some xml else lookup k m)
unfolding lookup insert
lookup-insert key k xml [] = refl
lookup-insert key k xml ((j, old) ∷ m) = elim (Bool-cases (key_eq j key)) [
  | inl same ↦ rw (same, (key_eq_iff j key).0 same) (ground arith)
  | inr other ↦ elim (Bool-cases (key_eq j k)) [
    | inl here ↦ rw (other, here, other_key key k j here other) refl
    | inr there ↦ rw (other, there) (lookup-insert key k xml m)
  ]
]

with_id-key : (meta : ConfigMeta) (rc : FakeRc) → config_key (with_id meta rc).0 ≡ config_key meta
unfolding with_id
with_id-key meta rc = ground arith

with_id-saved : (meta : ConfigMeta) (rc : FakeRc) → (with_id meta rc).1.saved_xml ≡ rc.saved_xml
unfolding with_id
with_id-saved meta rc = ground arith

send-saved : (p : Packet) (rc : FakeRc) → (send p rc).saved_xml ≡ rc.saved_xml
unfolding send send_to
send-saved p rc = ground arith

notify_active-saved :
    (out : Outside) (clk : Clock) (meta : ConfigMeta) (rc : FakeRc)
    → (notify_active out clk meta rc).saved_xml ≡ rc.saved_xml
unfolding notify_active send_command next_seq
notify_active-saved out clk meta rc = send-saved _ _

save_configuration-saved :
    (out : Outside) (clk : Clock) (meta_json xml : Bytes) (meta : ConfigMeta) (rc : FakeRc)
    → has b';' meta_json ≡ false
    → out.config_meta meta_json ≡ some meta
    → (save_configuration out clk (meta_json ++ b';' ∷ xml) rc).saved_xml
      ≡ insert (config_key meta) xml rc.saved_xml
unfolding save_configuration save_split save_parsed store_config
save_configuration-saved out clk meta_json xml meta rc clean parses =
    rw (split_once-append b';' meta_json xml clean, save_split, parses, save_parsed)
      (notify_active-saved out clk (with_id meta rc).0 _
        ∙ ap₂ (λ k m. insert k xml m) (with_id-key meta rc) (with_id-saved meta rc))

or_canned_if :
    (b : Bool) (xml : Bytes) (o : Option Bytes)
    → or_canned (if b then some xml else o) ≡ (if b then xml else or_canned o)
or_canned_if true xml o = refl
or_canned_if false xml o = refl

-- The XML that is looked up right after a configuration was saved.
particular_xml-saved :
    (out : Outside) (clk : Clock) (meta_json xml request : Bytes) (meta other : ConfigMeta)
    (timestamp : ℕ) (rc : FakeRc)
    → has b';' meta_json ≡ false
    → out.config_meta meta_json ≡ some meta
    → out.config_meta request ≡ some other
    → particular_xml out request (
        handle_command out clk
          (create Cmd.save_configuration (meta_json ++ b';' ∷ xml) timestamp)
          rc)
      ≡ (if key_eq (config_key meta) (config_key other) then xml else particular_xml out request rc)
unfolding particular_xml particular_parsed handle_command obey config_command create bytes_eq
particular_xml-saved out clk meta_json xml request meta other timestamp rc clean parses asks =
    let save = create Cmd.save_configuration (meta_json ++ b';' ∷ xml) timestamp in
    let acked = send (Packet.command (ack_of save)) rc in
    rw (asks, particular_parsed)
      (ap (λ m. or_canned (lookup (config_key other) m))
          (save_configuration-saved out clk meta_json xml meta acked clean parses
            ∙ ap (λ m. insert (config_key meta) xml m)
                (send-saved (Packet.command (ack_of save)) rc))
        ∙ ap or_canned (lookup-insert (config_key meta) (config_key other) xml rc.saved_xml)
        ∙ or_canned_if (key_eq (config_key meta) (config_key other)) xml
            (lookup (config_key other) rc.saved_xml))

particular_xml-send :
    (out : Outside) (p : Packet) (request : Bytes) (rc : FakeRc)
    → particular_xml out request (send p rc) ≡ particular_xml out request rc
unfolding particular_xml particular_parsed
particular_xml-send out p request rc = by_meta (out.config_meta request)
  where
    by_meta : (o : Option ConfigMeta) → particular_parsed o (send p rc) ≡ particular_parsed o rc
    by_meta none = refl
    by_meta (some meta) = ap (λ m. or_canned (lookup (config_key meta) m)) (send-saved p rc)

-- A command to save a configuration, `meta` in JSON with no semicolon in it, then a semicolon and an XML text,
-- and right behind it a request for the XML of a configuration `other`: the request is acknowledged and then
-- answered, with that text if `other` has the location and the name of `meta`, and otherwise with the text that
-- is looked up for it in the state before the save.
pub save-served :
    (out : Outside) (clk clk' : Clock) (meta_json xml request : Bytes) (meta other : ConfigMeta)
    (timestamp timestamp' : ℕ) (rc : FakeRc)
    → has b';' meta_json ≡ false
    → out.config_meta meta_json ≡ some meta
    → out.config_meta request ≡ some other
    → handle_command out clk' (create Cmd.request_particular_configuration request timestamp') (
        handle_command out clk
          (create Cmd.save_configuration (meta_json ++ b';' ∷ xml) timestamp)
          rc)
      ≡ send_command clk' Cmd.request_particular_configuration_resp
          (if key_eq (config_key meta) (config_key other)
            then xml
            else particular_xml out request rc)
          (send
            (Packet.command
              (ack_of (create Cmd.request_particular_configuration request timestamp')))
            (handle_command out clk
              (create Cmd.save_configuration (meta_json ++ b';' ∷ xml) timestamp)
              rc))
unfolding handle_command obey config_command create bytes_eq
save-served out clk clk' meta_json xml request meta other timestamp timestamp' rc clean parses
      asks =
    let saved =
      handle_command out clk (create Cmd.save_configuration (meta_json ++ b';' ∷ xml) timestamp)
        rc in
    let ack =
      Packet.command (ack_of (create Cmd.request_particular_configuration request timestamp')) in
    ap (λ text. send_command clk' Cmd.request_particular_configuration_resp text (send ack saved))
      (particular_xml-send out ack request saved
        ∙ particular_xml-saved out clk meta_json xml request meta other timestamp rc clean parses
            asks)
