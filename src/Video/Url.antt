-- ===== src/Video/Url.antt =====
-- `StreamConfig::parse`: where a camera's stream is.
pub mod Address
use robocol.Prelude.{ℕ, ◌^◌, [], ◌∷◌, Option, none, some}
use robocol.Prelude.Text.{codes}
use robocol.Wire.{Bytes}
use robocol.Video.Text.{strip_prefix, split_once, rsplit_once, from_str_radix}

pub record StreamConfig : Type 0 where
  pub source : Bytes
  pub host : Bytes
  pub port : ℕ
  pub path : Bytes

-- The authority, and the path, which keeps its slash.
unfoldable pub split_path : Bytes → Bytes × Bytes
unfolding split_once
split_path rest = elim (split_once 47 rest) [
  | none ↦ (rest, codes "/")
  | some (authority, path) ↦ (authority, 47 ∷ path)
]

unfoldable pub split_port : Bytes → Option (Bytes × ℕ)
unfolding rsplit_once from_str_radix
split_port authority = elim (rsplit_once 58 authority) [
  | none ↦ some (authority, 80)
  | some (host, port) ↦ elim (from_str_radix 10 (2 ^ 16) port) [
    | none ↦ none
    | some p ↦ some (host, p)
  ]
]

abbrev with_path : Bytes → Bytes → Bytes × ℕ → Option StreamConfig
with_path source path ([], port) = none
with_path source path (c ∷ host, port) =
    some (record { source = source; host = c ∷ host; port = port; path = path })

-- The address without its scheme, taken apart.
unfoldable pub parse_parts : Bytes → Bytes × Bytes → Option StreamConfig
unfolding split_port
parse_parts source (authority, path) = elim (split_port authority) [
  | none ↦ none
  | some found ↦ with_path source path found
]

-- `strip_prefix(..).unwrap_or(url)`.
unfoldable pub strip_scheme : Bytes → Bytes
unfolding strip_prefix
strip_scheme url = elim (strip_prefix (codes "http://") url) [ none ↦ url | some rest ↦ rest ]

unfoldable pub parse : Bytes → Bytes → Option StreamConfig
unfolding strip_scheme split_path parse_parts
parse source url = parse_parts source (split_path (strip_scheme url))
