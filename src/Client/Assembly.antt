-- ===== src/Client/Assembly.antt =====
-- The chunks of a webcam frame under assembly (`handle_frame_chunk` in robocol/src/client.rs), in any order.
use robocol.Prelude.{
  ℕ, zero, suc, ◌+◌, ◌-◌, ◌*◌, ◌/◌, ◌%◌, ◌^◌, ◌≤◌, ◌<◌, ◌≡◌, refl, sym, ap, ap₂, ◌∙◌, ◌≢◌, Bool,
  true, false, not, ◌||◌, List, [], ◌∷◌, ◌++◌, Option, none, some, ok, arith, length, set, get_or,
  take, drop, replicate, length-set, length-take, length-drop, length-replicate, leb, ltb, ◌==◌,
  if◌then◌else◌, Option-cases, Bool-cases, inl, inr, ◌⊎◌,
}
use robocol.Wire.{Bytes, write_at}
use robocol.Client.State.{Event, Clock, Worker, PartialFrame}
use robocol.Client.Frames.{
  get, patch, chunk_count, empty_frame, accept_chunk, finish_chunk, store_chunk,
}
use robocol.Client.Invariant.{missing}
use robocol.Client.Invariant.Webcam.{missing-set, empty_frame-IsPartial}
pub mod Patch
pub mod Accepted
use Patch.{
  length-patch, get_or-patch_in, get_or-patch_out, get_or_beyond, get_or-take, get_or-drop,
  get_or-set_self, get_or-set_ne, get_or-replicate, list_ext,
}

-- What the sender cuts out of the frame as its chunk `index`.
abbrev pub chunk_at : Bytes → ℕ → Bytes
chunk_at jpeg index = take 4096 (drop (index * 4096) jpeg)

-- A frame under assembly agrees with `jpeg` on every chunk that it has.
pub record Assembles (jpeg : Bytes) (f : PartialFrame) : Type 0 where
  pub size : length f.content ≡ length jpeg
  pub slots : length f.received ≡ chunk_count (length jpeg)
  pub counted : f.remaining ≡ missing f.received
  pub agrees :
      (p : ℕ) → get_or f.received (p / 4096) false ≡ true → get_or f.content p 0 ≡ get_or jpeg p 0

pub empty_frame-Assembles : (jpeg : Bytes) → Assembles jpeg (empty_frame (length jpeg))
empty_frame-Assembles jpeg = record {
  size = unfold empty_frame in length-replicate (length jpeg) 0;
  slots = unfold empty_frame in length-replicate (chunk_count (length jpeg)) false;
  counted = empty_frame-IsPartial 0 (length jpeg);
  agrees = λ p e.
      unfold empty_frame in cc (get_or-replicate (chunk_count (length jpeg)) (p / 4096) false, e);
}

length-chunk_at-le : (jpeg : Bytes) (i : ℕ) → length (chunk_at jpeg i) ≤ 4096
length-chunk_at-le jpeg i = omega (arith, length-take 4096 (drop (i * 4096) jpeg))

pub lt_or_le : (m n : ℕ) → (m < n) ⊎ (n ≤ m)
lt_or_le m n = omega arith

pub same_or_not : (m n : ℕ) → (m ≡ n) ⊎ (m ≢ n)
same_or_not m n = omega arith

patch-agrees :
    (jpeg xs : Bytes) (i p : ℕ)
    → length xs ≡ length jpeg
    → p / 4096 ≡ i
    → get_or (patch xs (i * 4096) (chunk_at jpeg i)) p 0 ≡ get_or jpeg p 0
patch-agrees jpeg xs i p size at = elim (lt_or_le p (length jpeg)) [
  | inl inside ↦
      get_or-patch_in xs (i * 4096) (chunk_at jpeg i) p (omega arith)
        (omega (arith, length-take 4096 (drop (i * 4096) jpeg), length-drop (i * 4096) jpeg))
        (omega arith)
      ∙ get_or-take 4096 (drop (i * 4096) jpeg) (p - i * 4096) (omega arith)
      ∙ get_or-drop (i * 4096) jpeg (p - i * 4096) p (omega arith)
  | inr beyond ↦
      get_or_beyond (patch xs (i * 4096) (chunk_at jpeg i)) p
        (omega (arith, length-patch xs (i * 4096) (chunk_at jpeg i)))
      ∙ sym (get_or_beyond jpeg p (omega arith))
]

patch-keeps :
    (jpeg xs : Bytes) (i p : ℕ)
    → p / 4096 ≢ i
    → get_or (patch xs (i * 4096) (chunk_at jpeg i)) p 0 ≡ get_or xs p 0
patch-keeps jpeg xs i p away =
    get_or-patch_out xs (i * 4096) (chunk_at jpeg i) p (omega (arith, length-chunk_at-le jpeg i))

-- What an accepted chunk leaves.
abbrev pub with_chunk : Bytes → ℕ → PartialFrame → PartialFrame
with_chunk jpeg i f = record {
  content = patch f.content (i * 4096) (chunk_at jpeg i);
  received = set f.received i true;
  remaining = f.remaining - 1;
}

pub with_chunk-Assembles :
    (jpeg : Bytes) (f : PartialFrame) (i : ℕ)
    → Assembles jpeg f
    → i < length f.received
    → get_or f.received i true ≡ false
    → Assembles jpeg (with_chunk jpeg i f)
with_chunk-Assembles jpeg f i a h new = record {
  size = length-patch f.content (i * 4096) (chunk_at jpeg i) ∙ a.size;
  slots = length-set f.received i true ∙ a.slots;
  counted = omega (arith, a.counted, missing-set f.received i h new);
  agrees = λ p e. elim (same_or_not (p / 4096) i) [
    | inl at ↦ patch-agrees jpeg f.content i p a.size at
    | inr away ↦
        patch-keeps jpeg f.content i p away
        ∙ a.agrees p
            (sym (get_or-set_ne f.received i (p / 4096) true false (λ x. away (sym x))) ∙ e)
  ];
}

chunk_at-fits :
    (jpeg : Bytes) (i : ℕ)
    → i < chunk_count (length jpeg)
    → i * 4096 + length (chunk_at jpeg i) ≤ length jpeg
unfolding chunk_count
chunk_at-fits jpeg i h =
    omega (arith, length-take 4096 (drop (i * 4096) jpeg), length-drop (i * 4096) jpeg)

-- The sender's chunks pass the guard on the length.
pub accept_chunk_new :
    (jpeg : Bytes) (f : PartialFrame) (i : ℕ)
    → Assembles jpeg f
    → i < length f.received
    → get_or f.received i true ≡ false
    → accept_chunk f i (chunk_at jpeg i) ≡ some (with_chunk jpeg i f)
unfolding accept_chunk
accept_chunk_new jpeg f i a h new =
    ground (arith, chunk_at-fits jpeg i (omega (arith, a.slots)), a.size)

pub accept_chunk_old :
    (f : PartialFrame) (i : ℕ) (bytes : Bytes)
    → (length f.received ≤ i) ⊎ (get_or f.received i true ≡ true)
    → accept_chunk f i bytes ≡ none
unfolding accept_chunk
accept_chunk_old f i bytes h = ground arith

missing-none : (r : List Bool) → missing r ≡ 0 → (i : ℕ) → i < length r → get_or r i false ≡ true
missing-none [] h i lt = absurd (omega arith)
missing-none (true ∷ r) h zero lt = refl
missing-none (true ∷ r) h (suc i) lt = missing-none r h i (omega arith)
missing-none (false ∷ r) h i lt = absurd (omega arith)

-- A frame that misses nothing is the one that was sent.
pub Assembles-whole :
    (jpeg : Bytes) (f : PartialFrame) → Assembles jpeg f → f.remaining ≡ 0 → f.content ≡ jpeg
unfolding chunk_count
Assembles-whole jpeg f a none_left = list_ext f.content jpeg a.size same
  where
    same : (p : ℕ) → get_or f.content p 0 ≡ get_or jpeg p 0
    same p = elim (lt_or_le p (length jpeg)) [
      | inl inside ↦
          a.agrees p
            (missing-none f.received (omega (arith, a.counted)) (p / 4096) (omega (arith, a.slots)))
      | inr beyond ↦
          get_or_beyond f.content p (omega (arith, a.size)) ∙ sym (get_or_beyond jpeg p beyond)
    ]
