-- ===== src/Packets/Packet/Safety.antt =====
-- The parsers on arbitrary bytes.
use robocol.Prelude.{
  ℕ, zero, suc, ◌+◌, ◌≡◌, refl, ap, ◌≢◌, Option, none, some, ok_or, truncated, length, List, [],
  ◌∷◌, Result, ok, err, panicked, ◌>>=◌, or_else, map_ok, arith,
}
use robocol.Wire.{
  Bytes, get_u8, get_u16, get_u32, get_i32, get_i64, get_f32, get_str, get_str_u8, get_str_u16,
  get_range, take_exact, indexed, from_be_bytes,
}
use mathlib.Core.Option
use robocol.Packets.Packet.{
  parse, parse_as, heartbeat, gamepad, peer_discovery, command, telemetry, keep_alive,
}
use robocol.Packets.Heartbeat
use robocol.Packets.Gamepad
use robocol.Packets.PeerDiscovery
use robocol.Packets.Command
use robocol.Packets.Telemetry
use robocol.Packets.KeepAlive

map_ok-ne-panicked :
    {A B : Type 0} (f : A → B) (m : Result A) → m ≢ panicked → map_ok f m ≢ panicked
map_ok-ne-panicked f (ok a) h = λ e. cc
map_ok-ne-panicked f (err x) h = λ e. cc
map_ok-ne-panicked f panicked h = absurd (h refl)

-- The chain goes on only from a value.
then_ne :
    {A B : Type 0} (m : Result A) {f : A → Result B}
    → m ≢ panicked
    → ((a : A) → f a ≢ panicked)
    → (m >>= f) ≢ panicked
then_ne (ok a) h k = k a
then_ne (err x) h k = λ e. cc
then_ne panicked h k = absurd (h refl)

-- What is read with a length has it.
Exact : ℕ → Option Bytes → Type 0
Exact n none = Unit
Exact n (some bs) = length bs ≡ n

take_exact-Exact : (n : ℕ) (xs : Bytes) → Exact n (take_exact n xs)
unfolding take_exact Exact
take_exact-Exact zero xs = refl
take_exact-Exact (suc n) [] = tt
take_exact-Exact (suc n) (x ∷ xs) = with_head (take_exact n xs) (take_exact-Exact n xs)
  where
    with_head : (o : Option Bytes) → Exact n o → Exact (suc n) (Option.map (λ ys. x ∷ ys) o)
    with_head none h = tt
    with_head (some ys) h = ap suc h

get_range-Exact : (buf : Bytes) (off n : ℕ) → Exact n (get_range buf off n)
unfolding get_range Exact
get_range-Exact buf zero n = take_exact-Exact n buf
get_range-Exact [] (suc off) n = tt
get_range-Exact (x ∷ buf) (suc off) n = get_range-Exact buf off n

indexed-ne-panicked : (w : ℕ) (bs : Bytes) → length bs ≡ w → indexed w bs ≢ panicked
unfolding indexed
indexed-ne-panicked zero bs h = λ e. cc
indexed-ne-panicked (suc w) [] h = absurd (omega arith)
indexed-ne-panicked (suc w) (b ∷ bs) h =
    map_ok-ne-panicked (λ array. b ∷ array) (indexed w bs) (indexed-ne-panicked w bs (omega arith))

-- A field of `w` bytes is indexed only where `get` has given as many.
field-ne-panicked :
    (w : ℕ) (buf : Bytes) (off : ℕ)
    → (ok_or (get_range buf off w) truncated
        >>= (λ b. indexed w b >>= (λ array. ok (from_be_bytes array))))
      ≢ panicked
unfolding Exact
field-ne-panicked w buf off = by_range (get_range buf off w) (get_range-Exact buf off w)
  where
    by_range :
        (o : Option Bytes)
        → Exact w o
        → (ok_or o truncated >>= (λ b. indexed w b >>= (λ array. ok (from_be_bytes array))))
          ≢ panicked
    by_range none h = λ e. cc
    by_range (some bs) h = then_ne (indexed w bs) (indexed-ne-panicked w bs h) (λ array e. cc)

get_u8-ne-panicked : (buf : Bytes) (off : ℕ) → get_u8 buf off ≢ panicked
unfolding get_u8
get_u8-ne-panicked buf off = field-ne-panicked 1 buf off

get_u16-ne-panicked : (buf : Bytes) (off : ℕ) → get_u16 buf off ≢ panicked
unfolding get_u16
get_u16-ne-panicked buf off = field-ne-panicked 2 buf off

get_u32-ne-panicked : (buf : Bytes) (off : ℕ) → get_u32 buf off ≢ panicked
unfolding get_u32
get_u32-ne-panicked buf off = field-ne-panicked 4 buf off

get_i32-ne-panicked : (buf : Bytes) (off : ℕ) → get_i32 buf off ≢ panicked
unfolding get_i32
get_i32-ne-panicked buf off = field-ne-panicked 4 buf off

get_i64-ne-panicked : (buf : Bytes) (off : ℕ) → get_i64 buf off ≢ panicked
unfolding get_i64
get_i64-ne-panicked buf off = field-ne-panicked 8 buf off

get_f32-ne-panicked : (buf : Bytes) (off : ℕ) → get_f32 buf off ≢ panicked
unfolding get_f32
get_f32-ne-panicked buf off = then_ne (get_u32 buf off) (get_u32-ne-panicked buf off) (λ bits e. cc)

get_str-ne-panicked : (buf : Bytes) (off len : ℕ) → get_str buf off len ≢ panicked
unfolding get_str
get_str-ne-panicked buf off len = ground arith

get_str_u8-ne-panicked : (buf : Bytes) (off : ℕ) → get_str_u8 buf off ≢ panicked
unfolding get_str_u8
get_str_u8-ne-panicked buf off =
    then_ne (get_u8 buf off) (get_u8-ne-panicked buf off) (λ len.
      then_ne (get_str buf (off + 1) len) (get_str-ne-panicked buf (off + 1) len) (λ s e. cc))

get_str_u16-ne-panicked : (buf : Bytes) (off : ℕ) → get_str_u16 buf off ≢ panicked
unfolding get_str_u16
get_str_u16-ne-panicked buf off =
    then_ne (get_u16 buf off) (get_u16-ne-panicked buf off) (λ len.
      then_ne (get_str buf (off + 2) len) (get_str-ne-panicked buf (off + 2) len) (λ s e. cc))

heartbeat-ne-panicked : (buf : Bytes) → Heartbeat.parse buf ≢ panicked
unfolding Heartbeat.parse
heartbeat-ne-panicked buf = ground arith

or_else-ne-panicked :
    {A : Type 0} (m r : Result A) → m ≢ panicked → r ≢ panicked → or_else m r ≢ panicked
or_else-ne-panicked (ok a) r h k = h
or_else-ne-panicked (err x) r h k = k
or_else-ne-panicked panicked r h k = h

type_byte-ne-panicked : (buf : Bytes) → or_else (get_u8 buf 48) (get_u8 buf 47) ≢ panicked
type_byte-ne-panicked buf =
    or_else-ne-panicked (get_u8 buf 48) (get_u8 buf 47) (get_u8-ne-panicked buf 48)
      (get_u8-ne-panicked buf 47)

gamepad-ne-panicked : (buf : Bytes) → Gamepad.parse buf ≢ panicked
unfolding Gamepad.parse
gamepad-ne-panicked buf = then_ne (get_u32 buf 42) (get_u32-ne-panicked buf 42) λ _.
    then_ne (or_else (get_u8 buf 48) (get_u8 buf 47)) (type_byte-ne-panicked buf) λ _.
      then_ne (get_u16 buf 3) (get_u16-ne-panicked buf 3) λ _.
        then_ne (get_u8 buf 5) (get_u8-ne-panicked buf 5) λ _.
          then_ne (get_i32 buf 6) (get_i32-ne-panicked buf 6) λ _.
            then_ne (get_i64 buf 10) (get_i64-ne-panicked buf 10) λ _.
              then_ne (get_f32 buf 18) (get_f32-ne-panicked buf 18) λ _.
                then_ne (get_f32 buf 22) (get_f32-ne-panicked buf 22) λ _.
                  then_ne (get_f32 buf 26) (get_f32-ne-panicked buf 26) λ _.
                    then_ne (get_f32 buf 30) (get_f32-ne-panicked buf 30) λ _.
                      then_ne (get_f32 buf 34) (get_f32-ne-panicked buf 34) λ _.
                        then_ne (get_f32 buf 38) (get_f32-ne-panicked buf 38) λ _.
                          then_ne (get_u8 buf 46) (get_u8-ne-panicked buf 46) λ _.
                            then_ne (get_f32 buf 49) (get_f32-ne-panicked buf 49) λ _.
                              then_ne (get_f32 buf 53) (get_f32-ne-panicked buf 53) λ _.
                                then_ne (get_f32 buf 57) (get_f32-ne-panicked buf 57) λ _.
                                  then_ne (get_f32 buf 61) (get_f32-ne-panicked buf 61) λ _. λ e. cc

peer_discovery-ne-panicked : (buf : Bytes) → PeerDiscovery.parse buf ≢ panicked
unfolding PeerDiscovery.parse
peer_discovery-ne-panicked buf = ground arith

command-ne-panicked : (buf : Bytes) → Command.parse buf ≢ panicked
unfolding Command.parse Command.get_extra
command-ne-panicked buf = grind (arith, get_str_u16-ne-panicked)

get_strings-ne-panicked :
    (n : ℕ) (buf : Bytes) (off : ℕ) → Telemetry.get_strings n buf off ≢ panicked
unfolding Telemetry.get_strings
get_strings-ne-panicked zero buf off = λ e. cc
get_strings-ne-panicked (suc n) buf off =
    grind (arith, get_str_u16-ne-panicked, get_strings-ne-panicked n)

keep_alive-ne-panicked : (buf : Bytes) → KeepAlive.parse buf ≢ panicked
unfolding KeepAlive.parse
keep_alive-ne-panicked buf = ground arith

get_numbers-ne-panicked :
    (n : ℕ) (buf : Bytes) (off : ℕ) (m : List (Bytes × ℕ))
    → Telemetry.get_numbers n buf off m ≢ panicked
unfolding Telemetry.get_numbers
get_numbers-ne-panicked zero buf off m = λ e. cc
get_numbers-ne-panicked (suc n) buf off m =
    then_ne (get_str_u16 buf off) (get_str_u16-ne-panicked buf off) λ k.
      then_ne (get_f32 buf k.1) (get_f32-ne-panicked buf k.1)
        λ v. get_numbers-ne-panicked n buf (k.1 + 4) (Telemetry.insert k.0 v m)

telemetry-ne-panicked : (buf : Bytes) → Telemetry.parse buf ≢ panicked
unfolding Telemetry.parse
telemetry-ne-panicked buf = then_ne (get_u16 buf 3) (get_u16-ne-panicked buf 3) λ _.
    then_ne (get_i64 buf 5) (get_i64-ne-panicked buf 5) λ _.
      then_ne (get_u8 buf 13) (get_u8-ne-panicked buf 13) λ _.
        then_ne (get_u8 buf 14) (get_u8-ne-panicked buf 14) λ _.
          then_ne (get_str_u8 buf 15) (get_str_u8-ne-panicked buf 15) λ t.
            then_ne (get_u8 buf t.1) (get_u8-ne-panicked buf t.1) λ n.
              then_ne (Telemetry.get_strings n buf (t.1 + 1))
                (get_strings-ne-panicked n buf (t.1 + 1))
                λ s. then_ne (get_u8 buf s.1) (get_u8-ne-panicked buf s.1) λ k.
                  then_ne (Telemetry.get_numbers k buf (s.1 + 1) [])
                    (get_numbers-ne-panicked k buf (s.1 + 1) []) λ _. λ e. cc

parse_as-ne-panicked : (uid : ℕ) (buf : Bytes) → parse_as uid buf ≢ panicked
unfolding parse_as
parse_as-ne-panicked uid buf = ground (
  arith,
  map_ok-ne-panicked heartbeat _ (heartbeat-ne-panicked buf),
  map_ok-ne-panicked gamepad _ (gamepad-ne-panicked buf),
  map_ok-ne-panicked peer_discovery _ (peer_discovery-ne-panicked buf),
  map_ok-ne-panicked command _ (command-ne-panicked buf),
  map_ok-ne-panicked telemetry _ (telemetry-ne-panicked buf),
  map_ok-ne-panicked keep_alive _ (keep_alive-ne-panicked buf),
)

-- `Packet::parse` returns a packet or an error on every datagram: no reader indexes outside the slice that it
-- has got.
pub parse-ne-panicked : (buf : Bytes) → parse buf ≢ panicked
unfolding parse
parse-ne-panicked [] = λ e. cc
parse-ne-panicked (b ∷ bs) = parse_as-ne-panicked b (b ∷ bs)
