-- ===== src/Client/Delivery.antt =====
-- A webcam frame from its beginning to its event (`handle_frame_begin`, `handle_frame_chunk`).
use robocol.Prelude.{
  ℕ, zero, suc, ◌≤◌, ◌<◌, ◌≡◌, refl, ap, ap₂, ◌∙◌, ◌≢◌, Bool, true, false, ◌||◌, List, [], ◌∷◌,
  Option, none, some, arith, length, get_or, replicate, length-set, length-replicate, ◌==◌,
  Bool-cases, inl, inr, ◌⊎◌,
}
use robocol.Wire.{Bytes}
use robocol.Client.State.{
  Event, Clock, Worker, PartialFrame, max_frame_bytes, max_concurrent_frames,
}
use robocol.Client.Frames.{
  FrameMap, insert, get, update, retain_after, evict, send_webcam_request,
  request_webcam_frame_paced, chunk_count, empty_frame, begin_frame, accept_chunk, finish_chunk,
  store_chunk,
}
use robocol.Client.Invariant.{missing}
use robocol.Client.Commands.{queue_command}
use robocol.Client.Assembly.Patch.{get_or-set_ne, get_or-set_self}
use robocol.Client.Assembly.{
  Assembles, chunk_at, with_chunk, with_chunk-Assembles, same_or_not, accept_chunk_new,
  accept_chunk_old, Assembles-whole, empty_frame-Assembles,
}

unfoldable pub contains : ℕ → List ℕ → Bool
contains i [] = false
contains i (j ∷ js) = j == i || contains i js

abbrev pub then_events : Option Event → List Event → List Event
then_events none es = es
then_events (some e) es = e ∷ es

-- The chunks `js` of `jpeg`, in this order, as chunks of frame `num`: the state after them, and the events.
unfoldable pub store_all : Clock → ℕ → Bytes → List ℕ → Worker → Worker × List Event
unfolding store_chunk
store_all clk num jpeg [] w = (w, [])
store_all clk num jpeg (i ∷ js) w =
    let r = store_chunk clk num i (chunk_at jpeg i) w in
    let rest = store_all clk num jpeg js r.0 in (rest.0, then_events r.1 rest.1)

get-insert : (num : ℕ) (f : PartialFrame) (m : FrameMap) → get num (insert num f m) ≡ some f
unfolding get insert
get-insert num f [] = ground arith
get-insert num f ((n, g) ∷ m) = ground (arith, get-insert num f m)

length-insert :
    (num : ℕ) (f : PartialFrame) (m : FrameMap) → length (insert num f m) ≤ suc (length m)
unfolding insert
length-insert num f [] = omega arith
length-insert num f ((n, g) ∷ m) = ground (arith, length-insert num f m)

evict_few : (m : FrameMap) → length m ≤ 5 → evict m ≡ m
unfolding evict
evict_few [] h = refl
evict_few (x ∷ m) h = ground arith

get-update :
    (num : ℕ) (f g : PartialFrame) (m : FrameMap)
    → get num m ≡ some f
    → get num (update num g m) ≡ some g
unfolding get update
get-update num f g [] h = cc
get-update num f g ((n, k) ∷ m) h = ground (arith, get-update num f g m)

get-retain_after : (num : ℕ) (m : FrameMap) → get num (retain_after num m) ≡ none
unfolding get retain_after
get-retain_after num [] = refl
get-retain_after num ((n, g) ∷ m) = ground (arith, get-retain_after num m)

paced_frames :
    (clk : Clock) (w : Worker) → (request_webcam_frame_paced clk w).webcam_frames ≡ w.webcam_frames
unfolding request_webcam_frame_paced send_webcam_request queue_command
paced_frames clk w = ground arith

-- The three ways of a chunk.
store_chunk_unknown :
    (clk : Clock) (num i : ℕ) (bytes : Bytes) (w : Worker)
    → get num w.webcam_frames ≡ none
    → store_chunk clk num i bytes w ≡ (w, none)
unfolding store_chunk
store_chunk_unknown clk num i bytes w h = rw (h, store_chunk) refl

store_chunk_rejected :
    (clk : Clock) (num i : ℕ) (bytes : Bytes) (w : Worker) (f : PartialFrame)
    → get num w.webcam_frames ≡ some f
    → accept_chunk f i bytes ≡ none
    → store_chunk clk num i bytes w ≡ (w, none)
unfolding store_chunk
store_chunk_rejected clk num i bytes w f h r = rw (h, store_chunk, r) refl

store_chunk_accepted :
    (clk : Clock) (num i : ℕ) (bytes : Bytes) (w : Worker) (f g : PartialFrame)
    → get num w.webcam_frames ≡ some f
    → accept_chunk f i bytes ≡ some g
    → store_chunk clk num i bytes w ≡ finish_chunk clk num g w
unfolding store_chunk
store_chunk_accepted clk num i bytes w f g h r = rw (h, store_chunk, r) refl

store_all_step :
    (clk : Clock) (num : ℕ) (jpeg : Bytes) (i : ℕ) (js : List ℕ) (w w' : Worker) (e : Option Event)
    → store_chunk clk num i (chunk_at jpeg i) w ≡ (w', e)
    → (store_all clk num jpeg (i ∷ js) w).1 ≡ then_events e (store_all clk num jpeg js w').1
unfolding store_all
store_all_step clk num jpeg i js w w' e h =
    ap (λ (r : Worker × Option Event). then_events r.1 (store_all clk num jpeg js r.0).1) h

-- A frame that is not under assembly takes no chunk.
store_all_unknown :
    (clk : Clock) (num : ℕ) (jpeg : Bytes) (js : List ℕ) (w : Worker)
    → get num w.webcam_frames ≡ none
    → (store_all clk num jpeg js w).1 ≡ []
unfolding store_all
store_all_unknown clk num jpeg [] w h = refl
store_all_unknown clk num jpeg (i ∷ js) w h =
    store_all_step clk num jpeg i js w w none (store_chunk_unknown clk num i (chunk_at jpeg i) w h)
    ∙ store_all_unknown clk num jpeg js w h

finish_chunk_more :
    (clk : Clock) (num : ℕ) (f g : PartialFrame) (w : Worker)
    → get num w.webcam_frames ≡ some f
    → 0 < g.remaining
    → (finish_chunk clk num g w).1 ≡ none
      × (get num (finish_chunk clk num g w).0.webcam_frames ≡ some g)
unfolding finish_chunk
finish_chunk_more clk num f g w h more = ground (arith, get-update num f g w.webcam_frames)

finish_chunk_whole :
    (clk : Clock) (num : ℕ) (g : PartialFrame) (w : Worker)
    → g.remaining ≡ 0
    → (finish_chunk clk num g w).1 ≡ some (Event.webcam_frame g.content)
      × (get num (finish_chunk clk num g w).0.webcam_frames ≡ none)
unfolding finish_chunk
finish_chunk_whole clk num g w whole = grind (arith, paced_frames, get-retain_after)

false_ne_true : false ≢ true
false_ne_true e = cc

missing_all : (r : List Bool) → ((i : ℕ) → i < length r → get_or r i true ≡ true) → missing r ≡ 0
missing_all [] h = refl
missing_all (true ∷ r) h = missing_all r (λ i lt. h (suc i) (omega arith))
missing_all (false ∷ r) h = absurd (false_ne_true (h 0 (omega arith)))

-- Every chunk of the frame is there or still to come.
abbrev Covers : List ℕ → PartialFrame → Type 0
Covers js f = (i : ℕ) → i < length f.received → (get_or f.received i true || contains i js) ≡ true

zero_or_more : (n : ℕ) → (n ≡ 0) ⊎ (0 < n)
zero_or_more n = omega arith

new_or_old :
    (r : List Bool) (k : ℕ)
    → ((k < length r) × (get_or r k true ≡ false)) ⊎ ((length r ≤ k) ⊎ (get_or r k true ≡ true))
new_or_old r k = grind (arith, Bool-cases (get_or r k true))

cover_old :
    (i : ℕ) (js : List ℕ) (f : PartialFrame)
    → (length f.received ≤ i) ⊎ (get_or f.received i true ≡ true)
    → Covers (i ∷ js) f
    → Covers js f
unfolding contains
cover_old i js f old cover k lt = elim (same_or_not i k) [
  | inl e ↦ ground (arith, cover k lt)
  | inr ne ↦ ground (arith, cover k lt)
]

cover_new :
    (i : ℕ) (js : List ℕ) (f : PartialFrame) (jpeg : Bytes)
    → i < length f.received
    → Covers (i ∷ js) f
    → Covers js (with_chunk jpeg i f)
unfolding contains
cover_new i js f jpeg h cover k lt = elim (same_or_not i k) [
  | inl e ↦ ground (arith, get_or-set_self f.received i true true h)
  | inr ne ↦
      ground
        (arith, length-set f.received i true, get_or-set_ne f.received i k true true ne, cover k)
]

store_all-delivers :
    (clk : Clock) (num : ℕ) (jpeg : Bytes) (js : List ℕ) (w : Worker) (f : PartialFrame)
    → get num w.webcam_frames ≡ some f
    → Assembles jpeg f
    → 0 < f.remaining
    → Covers js f
    → (store_all clk num jpeg js w).1 ≡ Event.webcam_frame jpeg ∷ []
unfolding store_all contains
store_all-delivers clk num jpeg [] w f h a more cover =
    absurd (omega (arith, missing_all f.received (λ i lt. ground (arith, cover i lt)), a.counted))
store_all-delivers clk num jpeg (i ∷ js) w f h a more cover = elim (new_or_old f.received i) [
  | inr old ↦
      store_all_step clk num jpeg i js w w none (
        store_chunk_rejected clk num i (chunk_at jpeg i) w f h
          (accept_chunk_old f i (chunk_at jpeg i) old))
      ∙ store_all-delivers clk num jpeg js w f h a more (cover_old i js f old cover)
  | inl (lt, new) ↦
      let g = with_chunk jpeg i f in
      let b = with_chunk-Assembles jpeg f i a lt new in
      let stored =
        store_chunk_accepted clk num i (chunk_at jpeg i) w f g h
          (accept_chunk_new jpeg f i a lt new) in
      store_all_step clk num jpeg i js w (finish_chunk clk num g w).0 (finish_chunk clk num g w).1
        stored
      ∙ finished g b
          (λ left.
            store_all-delivers clk num jpeg js (finish_chunk clk num g w).0 g
              (finish_chunk_more clk num f g w h left).1 b left (cover_new i js f jpeg lt cover))
          (zero_or_more g.remaining)
]
  where
    finished :
        (g : PartialFrame)
        → Assembles jpeg g
        → (0 < g.remaining
            → (store_all clk num jpeg js (finish_chunk clk num g w).0).1
              ≡ Event.webcam_frame jpeg ∷ [])
        → (g.remaining ≡ 0) ⊎ (0 < g.remaining)
        → then_events
            (finish_chunk clk num g w).1
            (store_all clk num jpeg js (finish_chunk clk num g w).0).1
          ≡ Event.webcam_frame jpeg ∷ []
    finished g b rest (inl whole) =
        let (event, gone) = finish_chunk_whole clk num g w whole in
        ap₂ then_events event (store_all_unknown clk num jpeg js (finish_chunk clk num g w).0 gone)
        ∙ ap (λ c. Event.webcam_frame c ∷ []) (Assembles-whole jpeg g b whole)
    finished g b rest (inr left) =
        ap₂ then_events (finish_chunk_more clk num f g w h left).0 (rest left)

get_or-replicate_in : (n i : ℕ) → i < n → get_or (replicate n false) i true ≡ false
get_or-replicate_in zero i h = absurd (omega arith)
get_or-replicate_in (suc n) zero h = refl
get_or-replicate_in (suc n) (suc i) h = get_or-replicate_in n i (omega arith)

-- A frame `num` of the bytes `jpeg` is begun in a state with room for it, and its chunks arrive in some order,
-- each at least once. Then exactly one event comes of the chunks: the frame, with the bytes that were sent.
pub frame-delivered :
    (clk : Clock) (num : ℕ) (jpeg : Bytes) (js : List ℕ) (w : Worker)
    → 0 < length jpeg
    → length jpeg ≤ max_frame_bytes
    → length w.webcam_frames < max_concurrent_frames
    → ((i : ℕ) → i < chunk_count (length jpeg) → contains i js ≡ true)
    → (store_all clk num jpeg js (begin_frame num (length jpeg) w)).1 ≡ Event.webcam_frame jpeg ∷ []
unfolding begin_frame empty_frame chunk_count
frame-delivered clk num jpeg js w some_bytes few_bytes room all_sent =
    store_all-delivers clk num jpeg js (begin_frame num (length jpeg) w) (empty_frame (length jpeg))
      begun (empty_frame-Assembles jpeg) (omega arith) cover
  where
    begun :
        get num (begin_frame num (length jpeg) w).webcam_frames ≡ some (empty_frame (length jpeg))
    begun = ground (
      arith,
      evict_few (insert num (empty_frame (length jpeg)) w.webcam_frames),
      length-insert num (empty_frame (length jpeg)) w.webcam_frames,
      get-insert num (empty_frame (length jpeg)) w.webcam_frames,
    )

    cover : Covers js (empty_frame (length jpeg))
    cover i lt = ground (
      arith,
      all_sent i,
      length-replicate (chunk_count (length jpeg)) false,
      get_or-replicate_in (chunk_count (length jpeg)) i,
    )
