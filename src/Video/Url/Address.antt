-- ===== src/Video/Url/Address.antt =====
-- `StreamConfig::parse` on an address with all its parts.
use robocol.Prelude.{
  ℕ, ◌^◌, ◌≡◌, refl, sym, ap, ◌∙◌, Bool, true, false, ◌||◌, [], ◌∷◌, ◌++◌, append_assoc, none, some,
  ◌==◌, arith,
}
use robocol.Prelude.Text.{codes}
use robocol.Wire.{Bytes}
use robocol.Video.Text.{split_once, rsplit_once, strip_prefix, from_str_radix}
use robocol.Video.Url.{split_path, split_port, parse_parts, strip_scheme, parse}

abbrev pub has : ℕ → Bytes → Bool
has c [] = false
has c (b ∷ s) = b == c || has c s

has-append : (c : ℕ) (s t : Bytes) → has c s ≡ false → has c t ≡ false → has c (s ++ t) ≡ false
has-append c [] t hs ht = ht
has-append c (b ∷ s) t hs ht = ground (arith, hs, has-append c s t)

pub split_once-append :
    (c : ℕ) (s t : Bytes) → has c s ≡ false → split_once c (s ++ c ∷ t) ≡ some (s, t)
unfolding split_once
split_once-append c [] t h = let same : (c == c) ≡ true = ground arith in rw (split_once, same) refl
split_once-append c (b ∷ s) t h =
    let other : (b == c) ≡ false = ground (arith, h) in
    let others : has c s ≡ false = ground (arith, h) in
    rw (split_once, other, split_once-append c s t others) refl

rsplit_once-none : (c : ℕ) (s : Bytes) → has c s ≡ false → rsplit_once c s ≡ none
unfolding rsplit_once
rsplit_once-none c [] h = refl
rsplit_once-none c (b ∷ s) h =
    let other : (b == c) ≡ false = ground (arith, h) in
    let others : has c s ≡ false = ground (arith, h) in
    rw (rsplit_once, rsplit_once-none c s others, other) refl

rsplit_once-append :
    (c : ℕ) (s t : Bytes) → has c t ≡ false → rsplit_once c (s ++ c ∷ t) ≡ some (s, t)
unfolding rsplit_once
rsplit_once-append c [] t h =
    let same : (c == c) ≡ true = ground arith in rw (rsplit_once, rsplit_once-none c t h, same) refl
rsplit_once-append c (b ∷ s) t h = rw (rsplit_once, rsplit_once-append c s t h) refl

split_path-slash :
    (authority path : Bytes)
    → has 47 authority ≡ false
    → split_path (authority ++ 47 ∷ path) ≡ (authority, 47 ∷ path)
unfolding split_path
split_path-slash authority path h = rw (split_path, split_once-append 47 authority path h) refl

strip_scheme-http : (rest : Bytes) → strip_scheme (codes "http://" ++ rest) ≡ rest
unfolding strip_scheme strip_prefix
strip_scheme-http rest = refl

parse_parts-port :
    (source host digits path : Bytes) (b port : ℕ)
    → has 58 digits ≡ false
    → from_str_radix 10 (2 ^ 16) digits ≡ some port
    → parse_parts source ((b ∷ host) ++ 58 ∷ digits, path)
      ≡ some (record { source = source; host = b ∷ host; port = port; path = path })
unfolding parse_parts split_port
parse_parts-port source host digits path b port no_colon number =
    rw (parse_parts, split_port, rsplit_once-append 58 (b ∷ host) digits no_colon, number) refl

-- `http://`, a host that is not empty and has no slash (it may have colons), the digits of a 16-bit port, and a
-- path with its slash are read as that host, port and path.
pub parse-address :
    (source host digits path : Bytes) (b port : ℕ)
    → has 47 (b ∷ host) ≡ false
    → has 47 digits ≡ false
    → has 58 digits ≡ false
    → from_str_radix 10 (2 ^ 16) digits ≡ some port
    → parse source (codes "http://" ++ ((b ∷ host) ++ (58 ∷ digits ++ (47 ∷ path))))
      ≡ some (record { source = source; host = b ∷ host; port = port; path = 47 ∷ path })
unfolding parse
parse-address source host digits path b port no_slash plain no_colon number =
    let authority = (b ∷ host) ++ 58 ∷ digits in
    let regroup = sym (append_assoc (b ∷ host) (58 ∷ digits) (47 ∷ path)) in
    let bare = has-append 47 (b ∷ host) (58 ∷ digits) no_slash plain in
    ap (parse_parts source)
      (ap split_path (strip_scheme-http _ ∙ regroup) ∙ split_path-slash authority path bare)
    ∙ parse_parts-port source host digits (47 ∷ path) b port no_colon number
