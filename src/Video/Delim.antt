-- ===== src/Video/Delim.antt =====
-- `read_until_delim`: the bytes of a stream up to the first delimiter.
pub mod Occurrence
pub mod Step
pub mod Search
use robocol.Prelude.{
  ℕ, zero, suc, ◌+◌, ◌-◌, List, [], ◌∷◌, ◌++◌, none, some, ◌==◌, ltb, length, get_elem?, take,
  if◌then◌else◌,
}
use robocol.Wire.{Bytes}
use robocol.Client.State.{max_frame_bytes}
use robocol.Video.Io.{Source, Ending, Io, IoError, ok, err, panicked, at_end}
use robocol.Video.Kmp.{kmp_failure}

-- What one byte does to the match: it goes on with so much matched, the delimiter is whole, or an index is
-- out of bounds (or the fuel of the inner loop run out). `out` is what is known to stand before the match.
pub data Feed : Type 0 where
  advance : ℕ → Bytes → Feed
  complete : Bytes → Feed
  broke : Feed

-- The inner `loop`.
unfoldable pub feed : ℕ → List ℕ → Bytes → ℕ → ℕ → Bytes → Feed
feed zero failure delim byte matched out = broke
feed (suc fuel) failure delim byte matched out =
    let fallen = elim (get_elem? failure (matched - 1)) as (λ _. Feed) [
      | none ↦ broke
      | some fallback ↦
          feed fuel failure delim byte fallback (out ++ take (matched - fallback) delim)
    ] in
    elim (get_elem? delim matched) [
      | none ↦ broke
      | some d ↦
          if byte == d
          then (if matched + 1 == length delim then complete out else advance (matched + 1) out)
          else if matched == 0
          then advance 0 (out ++ byte ∷ [])
          else fallen
    ]

-- The outer loops, over the bytes that are left.
unfoldable pub scan : Ending → List ℕ → Bytes → Bytes → ℕ → Bytes → Io Bytes × Source
unfolding feed
scan ending failure delim [] matched out =
    (err (at_end ending), record { content = []; ending = ending })
scan ending failure delim (byte ∷ left) matched out =
    elim (feed (suc matched) failure delim byte matched out) [
      | advance matched' out' ↦
          let rest = scan ending failure delim left matched' out' in
          if ltb max_frame_bytes (length out')
          then (err IoError.invalid_data, record { content = left; ending = ending })
          else rest
      | complete out' ↦ (ok out', record { content = left; ending = ending })
      | broke ↦ (panicked, record { content = left; ending = ending })
    ]

unfoldable pub read_until_delim : Bytes → Source → Io Bytes × Source
unfolding kmp_failure scan
read_until_delim delim s = elim (kmp_failure delim) [
  | none ↦ (panicked, s)
  | some failure ↦ scan s.ending failure delim s.content 0 []
]
