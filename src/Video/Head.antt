-- ===== src/Video/Head.antt =====
-- `read_response_head`, `parse_boundary` and `skip_part_headers`: the HTTP headers.
use robocol.Prelude.{
  ℕ, zero, suc, ◌+◌, ◌^◌, Bool, true, false, ◌||◌, List, [], ◌∷◌, Option, none, some, length, drop,
  if◌then◌else◌,
}
use robocol.Prelude.Text.{codes, bytes_eq}
use robocol.Wire.{Bytes}
use robocol.Wire.Trim.{trim, split_whitespace}
use robocol.Video.Io.{Source, Io, IoError, ok, err, panicked}
use robocol.Video.Text.{
  to_ascii_lowercase, eq_ignore_ascii_case, split_once, find, trim_matches, from_str_radix,
}
use robocol.Video.Lines.{read_header_line}

-- `usize` has 64 bits.
abbrev pub parse_usize : Bytes → Option ℕ
parse_usize s = from_str_radix 10 (2 ^ 64) s

-- Whether a header line has this name, and what follows the colon.
unfoldable pub header_value : Bytes → Bytes → Option Bytes
unfolding split_once trim eq_ignore_ascii_case
header_value name line = elim (split_once 58 line) [
  | none ↦ none
  | some (key, value) ↦ if eq_ignore_ascii_case (trim key) name then some value else none
]

unfoldable pub parse_boundary : Bytes → Option Bytes
unfolding header_value find to_ascii_lowercase trim trim_matches
parse_boundary line = elim (header_value (codes "content-type") line) [
  | none ↦ none
  | some value ↦ elim (find (codes "boundary=") (to_ascii_lowercase value)) [
    | none ↦ none
    | some idx ↦ some (trim_matches 34 (trim (drop (idx + length (codes "boundary=")) value)))
  ]
]

-- Whether the line says that the body is chunked.
unfoldable pub says_chunked : Bytes → Bool
unfolding header_value find to_ascii_lowercase
says_chunked line = elim (header_value (codes "transfer-encoding") line) [
  | none ↦ false
  | some value ↦ elim (find (codes "chunked") (to_ascii_lowercase value)) [
    | none ↦ false
    | some i ↦ true
  ]
]

pub record ResponseHead : Type 0 where
  pub boundary : Bytes
  pub chunked : Bool

-- The loop over the header lines. `none` is the fuel run out.
unfoldable pub head_lines : ℕ → Option Bytes → Bool → Source → Option (Io ResponseHead × Source)
unfolding read_header_line says_chunked parse_boundary
head_lines zero boundary chunked s = none
head_lines (suc fuel) boundary chunked s =
    let (line, s') = read_header_line s in
    elim line [
      | err e ↦ some (err e, s')
      | panicked ↦ some (panicked, s')
      | ok [] ↦ elim boundary [
        | none ↦ some (err IoError.invalid_data, s')
        | some b ↦ some (ok (record { boundary = b; chunked = chunked }), s')
      ]
      | ok (c ∷ line) ↦
          head_lines fuel (elim (parse_boundary (c ∷ line)) [ none ↦ boundary | some b ↦ some b ])
            (chunked || says_chunked (c ∷ line)) s'
    ]

unfoldable pub has_token : Bytes → List Bytes → Bool
has_token token [] = false
has_token token (t ∷ ts) = bytes_eq t token || has_token token ts

-- Each line takes a byte of the stream at least, so its length is fuel enough.
unfoldable pub read_response_head : Source → Option (Io ResponseHead × Source)
unfolding read_header_line head_lines has_token split_whitespace
read_response_head s =
    let (line, s') = read_header_line s in
    elim line [
      | err e ↦ some (err e, s')
      | panicked ↦ some (panicked, s')
      | ok status ↦
          if has_token (codes "200") (split_whitespace status)
          then head_lines (suc (length s'.content)) none false s'
          else some (err IoError.invalid_data, s')
    ]

-- The headers of one part. The content length that it finds only goes to the log.
unfoldable pub part_headers : ℕ → Option ℕ → Source → Option (Io (Option ℕ) × Source)
unfolding read_header_line header_value trim from_str_radix
part_headers zero content_length s = none
part_headers (suc fuel) content_length s =
    let (line, s') = read_header_line s in
    elim line [
      | err e ↦ some (err e, s')
      | panicked ↦ some (panicked, s')
      | ok [] ↦ some (ok content_length, s')
      | ok (c ∷ line) ↦
          part_headers fuel
            (elim (header_value (codes "content-length") (c ∷ line)) [
              | none ↦ content_length
              | some value ↦ parse_usize (trim value)
            ])
            s'
    ]

unfoldable pub skip_part_headers : Source → Option (Io (Option ℕ) × Source)
unfolding part_headers
skip_part_headers s = part_headers (suc (length s.content)) none s
