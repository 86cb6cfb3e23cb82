-- ===== src/Capture/Fragments.antt =====
-- The reassembly of IPv4 fragments in `handle_v4`.
pub mod Agreement
pub mod Assembly
pub mod AnyOrder
pub mod Whole
use robocol.Prelude.{
  ℕ, zero, suc, ◌+◌, ◌-◌, ◌*◌, ◌/◌, ◌%◌, Bool, true, false, not, ◌&&◌, ◌||◌, List, [], ◌∷◌, ◌++◌,
  Option, none, some, ◌==◌, ltb, leb, length, get_elem?, get_or, take, drop, replicate, bit_and,
  if◌then◌else◌,
}
use robocol.Prelude.Text.{bytes_eq}
use robocol.Wire.{Bytes}
use robocol.Capture.Udp.{IpAddr, Datagram, parse_udp, push}

pub record Pending : Type 0 where
  pub chunks : List (ℕ × Bytes)
  pub total : Option ℕ
  pub ts : ℕ

pub record Key : Type 0 where
  pub src : Bytes
  pub dst : Bytes
  pub ident : ℕ

abbrev pub Reassembler : Type 0
Reassembler = List (Key × Pending)

abbrev key_eq : Key → Key → Bool
key_eq a b = bytes_eq a.src b.src && bytes_eq a.dst b.dst && (a.ident == b.ident)

abbrev pub fresh : Pending
fresh = record { chunks = []; total = none; ts = 0 }

-- `pending.entry(key).or_default()`.
unfoldable pub entry : Key → Reassembler → Pending
entry key [] = fresh
entry key ((k, p) ∷ m) = if key_eq k key then p else entry key m

-- The write through the entry.
unfoldable pub store : Key → Pending → Reassembler → Reassembler
store key p [] = (key, p) ∷ []
store key p ((k, q) ∷ m) = if key_eq k key then (k, p) ∷ m else (k, q) ∷ store key p m

unfoldable pub remove : Key → Reassembler → Reassembler
remove key [] = []
remove key ((k, q) ∷ m) = let rest = remove key m in if key_eq k key then rest else (k, q) ∷ rest

-- One more fragment.
unfoldable pub add_fragment : ℕ → ℕ → Bool → Bytes → Pending → Pending
add_fragment ts offset more body p = record {
  chunks = p.chunks ++ (offset, body) ∷ [];
  total = if more then p.total else some (offset + length body);
  ts = elim p.chunks [ [] ↦ ts | x ∷ xs ↦ p.ts ];
}

-- `xs[off..hi].copy_from_slice(..)`, where `hi` stops at the end of xs.
unfoldable pub overlay {ℓ} : {A : Type ℓ} → List A → ℕ → List A → List A
overlay [] off ys = []
overlay (x ∷ xs) (suc off) ys = x ∷ overlay xs off ys
overlay (x ∷ xs) zero [] = x ∷ xs
overlay (x ∷ xs) zero (y ∷ ys) = y ∷ overlay xs zero ys

unfoldable pub fill : List (ℕ × Bytes) → Bytes × List Bool → Bytes × List Bool
unfolding overlay
fill [] state = state
fill ((off, chunk) ∷ chunks) (buf, filled) =
    fill chunks (overlay buf off chunk, overlay filled off (replicate (length chunk) true))

unfoldable pub all_true : List Bool → Bool
all_true [] = true
all_true (f ∷ fs) = f && all_true fs

-- The buffer, once every byte of it is filled.
unfoldable pub assemble : ℕ → List (ℕ × Bytes) → Option Bytes
unfolding fill all_true
assemble total chunks =
    let (buf, filled) = fill chunks (replicate total 0, replicate total false) in
    if all_true filled then some buf else none

unfoldable pub complete : Pending → Option Bytes
unfolding assemble
complete p = elim p.total [ none ↦ none | some total ↦ assemble total p.chunks ]

unfoldable pub handle_fragment :
    ℕ → Key → ℕ → Bool → Bytes → Reassembler × List Datagram → Reassembler × List Datagram
unfolding entry store remove add_fragment complete parse_udp
handle_fragment ts key offset more body (reasm, out) =
    let p = add_fragment ts offset more body (entry key reasm) in
    elim (complete p) [
      | none ↦ (store key p reasm, out)
      | some buf ↦ (
        remove key reasm,
        push out (parse_udp p.ts (IpAddr.v4 key.src) (IpAddr.v4 key.dst) buf true),
      )
    ]
