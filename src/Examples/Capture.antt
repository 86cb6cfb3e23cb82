-- ===== src/Examples/Capture.antt =====
-- The capture decoder's theorems at concrete fragments and frames.
use robocol.Prelude.{
  ℕ, ◌≡◌, refl, true, false, [], ◌∷◌, ◌++◌, some, passes_under, passes_under_at, ◌<◌, arith,
}
use robocol.Prelude.Text.{bytes_eq}
use robocol.Wire.{Bytes}
use robocol.Capture.Link.{Frame}
use robocol.Capture.Udp.{IpAddr, parse_udp, push}
use robocol.Capture.Fragments.{Key, fresh, entry, assemble}
use robocol.Capture.Fragments.Assembly.{covers, assemble-Piece}
use robocol.Capture.Fragments.AnyOrder.{Fragment, IsFragment, handle_all}
use robocol.Capture.Fragments.Whole.{pieces_of, handle_all-whole}
use robocol.Capture.Net.{datagrams}

-- A UDP header and four bytes.
abbrev header : Bytes
header = 0 ∷ 53 ∷ 82 ∷ 20 ∷ 0 ∷ 12 ∷ 0 ∷ 0 ∷ []

abbrev letters : Bytes
letters = 65 ∷ 66 ∷ 67 ∷ 68 ∷ []

abbrev first : Fragment
first = record { ts = 7; offset = 0; more = true; body = header }

abbrev second : Fragment
second = record { ts = 5; offset = 8; more = false; body = letters }

first-IsFragment : IsFragment (header ++ letters) first
first-IsFragment = record {
  piece = record { before = []; behind = letters; at = refl; whole = refl };
  last = λ e. absurd cc;
}

second-IsFragment : IsFragment (header ++ letters) second
second-IsFragment = record {
  piece = record { before = header; behind = []; at = refl; whole = refl };
  last = λ e. refl;
}

abbrev key : Key
key = record { src = 10 ∷ 0 ∷ 0 ∷ 1 ∷ []; dst = 10 ∷ 0 ∷ 0 ∷ 2 ∷ []; ident = 3 }

new_key : entry key [] ≡ fresh
unfolding entry
new_key = refl

both_covered : (j : ℕ) → j < 12 → covers j (pieces_of (second ∷ first ∷ [])) ≡ true
unfolding passes_under
both_covered = passes_under_at (λ j. covers j (pieces_of (second ∷ first ∷ []))) 12 refl

-- The second fragment comes first.
handle_all-whole_example :
    ((handle_all key (second ∷ []) ([], [])).1 ≡ [])
    × ((handle_all key (second ∷ first ∷ []) ([], [])).1
        ≡ push [] (parse_udp 5 (IpAddr.v4 key.src) (IpAddr.v4 key.dst) (header ++ letters) true))
    × (entry key (handle_all key (second ∷ first ∷ []) ([], [])).0 ≡ fresh)
handle_all-whole_example =
    handle_all-whole (header ++ letters) key [] [] (second ∷ []) first 0 new_key
      (second-IsFragment, tt) first-IsFragment (omega arith) (refl, tt) refl both_covered

-- The first fragment comes twice.
assemble-Piece_example :
    assemble 12 ((8, letters) ∷ (0, header) ∷ (0, header) ∷ []) ≡ some (header ++ letters)
unfolding passes_under
assemble-Piece_example =
    assemble-Piece (header ++ letters) ((8, letters) ∷ (0, header) ∷ (0, header) ∷ [])
      (second-IsFragment.piece, (first-IsFragment.piece, (first-IsFragment.piece, tt)))
      (passes_under_at (λ j. covers j ((8, letters) ∷ (0, header) ∷ (0, header) ∷ [])) 12 refl)

abbrev ip_header : ℕ → ℕ → ℕ → Bytes
ip_header len flags offset =
    0x45 ∷ 0 ∷ 0 ∷ len ∷ 0 ∷ 3 ∷ flags ∷ offset ∷ 64 ∷ 17 ∷ 0 ∷ 0 ∷ 10 ∷ 0 ∷ 0 ∷ 1 ∷ 10 ∷ 0 ∷ 0 ∷ 2
    ∷ []

abbrev raw : ℕ → Bytes → Frame
raw ts content = record { ts = ts; linktype = 101; content = content }

-- Two fragments, the second one first, and a frame that is not IP.
datagrams_run :
    datagrams
      (raw 5 (ip_header 24 0 1 ++ letters) ∷ raw 6 [] ∷ raw 7 (ip_header 28 32 0 ++ header) ∷ [])
    ≡ (
      (record {
        ts = 5;
        src = IpAddr.v4 key.src;
        dst = IpAddr.v4 key.dst;
        sport = 53;
        dport = 21012;
        payload = letters;
        fragmented = true;
      })
          ∷ [],
      1,
    )
unfolding datagrams bytes_eq
datagrams_run = refl
