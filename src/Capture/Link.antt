-- ===== src/Capture/Link.antt =====
-- `strip_link`: the IP packet of a captured frame.
use robocol.Prelude.{
  ℕ, zero, suc, ◌+◌, ◌*◌, Bool, ◌||◌, Option, none, some, ◌==◌, ltb, leb, length, get_or, drop,
  if◌then◌else◌,
}
use robocol.Wire.{Bytes}

pub record Frame : Type 0 where
  pub ts : ℕ
  pub linktype : ℕ
  pub content : Bytes

-- Two bytes of a slice, which the guards before each use hold in bounds.
abbrev pub be16 : Bytes → ℕ → ℕ
be16 bytes at = get_or bytes at 0 * 256 + get_or bytes (at + 1) 0

-- The same with `get(..)?`.
unfoldable pub get16 : Bytes → ℕ → Option ℕ
get16 bytes at = if ltb (at + 1) (length bytes) then some (be16 bytes at) else none

-- `data.get(pos..)`.
unfoldable pub get_from : Bytes → ℕ → Option Bytes
get_from bytes pos = if leb pos (length bytes) then some (drop pos bytes) else none

abbrev is_ip : ℕ → Bool
is_ip ethertype = ethertype == 0x0800 || ethertype == 0x86dd

-- `while` there are VLAN tags. `none` is the fuel run out, or a frame that ends in a tag.
unfoldable pub skip_tags : ℕ → Bytes → ℕ → ℕ → Option (ℕ × ℕ)
unfolding get16
skip_tags zero bytes pos ethertype = none
skip_tags (suc fuel) bytes pos ethertype =
    let next = elim (get16 bytes (pos + 2)) as (λ _. Option (ℕ × ℕ)) [
      | none ↦ none
      | some tagged ↦ skip_tags fuel bytes (pos + 4) tagged
    ] in
    if ethertype == 0x8100 || ethertype == 0x88a8 then next else some (pos, ethertype)

unfoldable pub ip_from : Bytes → ℕ → ℕ → Option Bytes
unfolding get_from
ip_from bytes ethertype pos = if is_ip ethertype then get_from bytes pos else none

unfoldable pub strip_ethernet : Bytes → Option Bytes
unfolding get16 skip_tags ip_from
strip_ethernet bytes = elim (get16 bytes 12) [
  | none ↦ none
  | some ethertype ↦ elim (skip_tags (suc (length bytes)) bytes 14 ethertype) [
    | none ↦ none
    | some (pos, inner) ↦ ip_from bytes inner pos
  ]
]

unfoldable pub strip_cooked : ℕ → ℕ → Bytes → Option Bytes
unfolding get16 ip_from
strip_cooked at pos bytes = elim (get16 bytes at) [
  | none ↦ none
  | some ethertype ↦ ip_from bytes ethertype pos
]

unfoldable pub strip_link : ℕ → Bytes → Option Bytes
unfolding strip_ethernet strip_cooked get_from
strip_link linktype bytes =
    if linktype == 1
    then strip_ethernet bytes
    else if linktype == 113
    then strip_cooked 14 16 bytes
    else if linktype == 276
    then strip_cooked 0 20 bytes
    else if linktype == 101
    then some bytes
    else if linktype == 0
    then get_from bytes 4
    else none
