-- ===== src/FakeRc/Delivered.antt =====
-- A webcam frame from the simulated controller's `send_webcam_frame` to the client's event.
use robocol.Prelude.{
  ℕ, zero, suc, ◌+◌, ◌-◌, ◌*◌, ◌%◌, ◌^◌, ◌≤◌, ◌<◌, ◌≡◌, refl, sym, ap, subst, ◌∙◌, true, List, [],
  ◌∷◌, ◌++◌, Option, none, some, arith, length, length-drop, take, drop, drop-add, All-take,
  All-drop, All, append-nil, append_assoc, ltb,
}
use robocol.Prelude.Text.{bytes_eq}
use robocol.Wire.{Bytes}
use robocol.Cmd
use robocol.Cmd.{Json, FrameBegin, FrameChunk, frame_chunk_size}
use robocol.Base64.{encode}
use robocol.Base64.RoundTrip.{IsByte, decode-encode_self}
use robocol.Packets.Command.{Command, create}
use robocol.Packets.Packet.{Packet}
use robocol.Client.State.{SocketAddr, Clock, Event, Worker, max_frame_bytes, max_concurrent_frames}
use robocol.Client.Frames.{
  chunk_count, store_chunk, begin_frame, handle_frame_begin, handle_frame_chunk, try_usize,
}
use robocol.Client.Receive.{dispatch, notice, webcam_command}
use robocol.Client.Assembly.{chunk_at}
use robocol.Client.Delivery.{store_all, contains, then_events, frame-delivered}
use robocol.FakeRc.Outside.{Outside}
use robocol.FakeRc.State.{FakeRc, send_command, next_seq, uptime}
use robocol.FakeRc.Webcam.{chunks, send_chunks, send_frame}
use robocol.FakeRc.Webcam
use robocol.FakeRc.Replies.{send_held}
use robocol.FakeRc.Replies.Log.{send_command-Sends}

-- The client's dispatch of the commands among some datagrams, in order: the state, and the events.
unfoldable pub dispatch_all :
    Json → Clock → List (SocketAddr × Packet) → Worker → Worker × List Event
unfolding dispatch
dispatch_all json clk [] w = (w, [])
dispatch_all json clk ((to, Packet.command c) ∷ ps) w =
    let r = dispatch json clk c w in
    let rest = dispatch_all json clk ps r.0 in (rest.0, then_events r.1 rest.1)
dispatch_all json clk ((to, p) ∷ ps) w = dispatch_all json clk ps w

-- What `serde_json` reads is what it wrote.
pub record Agree (json : Json) (out : Outside) : Type 0 where
  pub begin_back : (b : FrameBegin) → json.frame_begin (out.frame_begin_string b) ≡ some b
  pub chunk_back : (c : FrameChunk) → json.frame_chunk (out.frame_chunk_string c) ≡ some c

-- The numbers of the chunks in a list, from `i` on.
numbers : ℕ → List Bytes → List ℕ
numbers i [] = []
numbers i (c ∷ cs) = i ∷ numbers (i + 1) cs

length-chunks :
    (fuel : ℕ) (bs : Bytes)
    → length bs ≤ fuel
    → length (chunks frame_chunk_size fuel bs) ≡ chunk_count (length bs)
unfolding chunks chunk_count
length-chunks zero [] h = omega arith
length-chunks zero (b ∷ bs) h = absurd (omega arith)
length-chunks (suc fuel) [] h = omega arith
length-chunks (suc fuel) (b ∷ bs) h =
    let shorter : length (drop 4096 (b ∷ bs)) ≡ length (b ∷ bs) - 4096 =
      length-drop 4096 (b ∷ bs) in
    omega (arith, length-chunks fuel (drop 4096 (b ∷ bs)) (omega (arith, shorter)), shorter)

contains-numbers :
    (i k : ℕ) (cs : List Bytes) → k < length cs → contains (i + k) (numbers i cs) ≡ true
unfolding contains numbers
contains-numbers i k [] h = absurd (omega arith)
contains-numbers i zero (c ∷ cs) h = ground arith
contains-numbers i (suc k) (c ∷ cs) h = ground (arith, contains-numbers (i + 1) k cs (omega arith))

-- A command of the controller, of which the client reads the name and the text alone.
abbrev spoken : Bytes → Bytes → ℕ → ℕ → Command
spoken name extra seq timestamp = record (create name extra timestamp) { seq = seq }

chunk_text : Outside → ℕ → ℕ → Bytes → Bytes
chunk_text out num i bs =
    out.frame_chunk_string
      (record { frame_num = num; chunk_num = i % 2 ^ 32; encoded_data = encode bs })

dispatch-chunk :
    (json : Json) (out : Outside) (clk : Clock) (num i : ℕ) (bs : Bytes) (s t : ℕ) (w : Worker)
    → Agree json out
    → All IsByte bs
    → i < 2 ^ 31
    → dispatch json clk (spoken Cmd.receive_frame_chunk (chunk_text out num i bs) s t) w
      ≡ store_chunk clk num i bs w
unfolding dispatch notice webcam_command create bytes_eq handle_frame_chunk try_usize chunk_text
dispatch-chunk json out clk num i bs s t w agree bytes small =
    let small_i : i % 2 ^ 32 ≡ i = omega arith in
    let fits : ltb i (2 ^ 31) ≡ true = ground arith in
    rw
      (
        agree.chunk_back
            (record { frame_num = num; chunk_num = i % 2 ^ 32; encoded_data = encode bs }),
        handle_frame_chunk,
        decode-encode_self bs bytes,
        small_i,
        fits,
      )
      refl

begin_text : Outside → ℕ → Bytes → Bytes
begin_text out num jpeg =
    out.frame_begin_string (record { frame_num = num; length = length jpeg % 2 ^ 32 })

dispatch-begin :
    (json : Json) (out : Outside) (clk : Clock) (num : ℕ) (jpeg : Bytes) (s t : ℕ) (w : Worker)
    → Agree json out
    → length jpeg < 2 ^ 31
    → dispatch json clk (spoken Cmd.receive_frame_begin (begin_text out num jpeg) s t) w
      ≡ (begin_frame num (length jpeg) w, none)
unfolding dispatch notice webcam_command create bytes_eq handle_frame_begin try_usize begin_text
dispatch-begin json out clk num jpeg s t w agree small =
    let small_l : length jpeg % 2 ^ 32 ≡ length jpeg = omega arith in
    let fits : ltb (length jpeg) (2 ^ 31) ≡ true = ground arith in
    rw
      (
        agree.begin_back (record { frame_num = num; length = length jpeg % 2 ^ 32 }),
        handle_frame_begin,
        small_l,
        fits,
      )
      refl

send_command-log :
    (clk : Clock) (name extra : Bytes) (ds : SocketAddr) (rc : FakeRc)
    → rc.ds ≡ some ds
    → (send_command clk name extra rc).sent
      ≡ rc.sent
        ++ (ds, Packet.command (spoken name extra ((rc.seq + 1) % 2 ^ 16) (uptime clk rc))) ∷ []
unfolding send_command next_seq uptime
send_command-log clk name extra ds rc held =
    ap (λ (r : FakeRc). r.sent) (send_held ds _ (record rc { seq = (rc.seq + 1) % 2 ^ 16 }) held)

-- The datagrams that took a log from `before` to `after` bring the client from any state to `reached`.
record Brings (json : Json) (clk : Clock) (before after : List (SocketAddr × Packet))
    (reached : Worker → Worker × List Event) : Type 0 where
  datagrams : List (SocketAddr × Packet)
  logged : after ≡ before ++ datagrams
  brings : (w : Worker) → dispatch_all json clk datagrams w ≡ reached w

-- One command and what follows it.
Brings-step :
    (json : Json) (clk here : Clock) (name extra : Bytes) (ds : SocketAddr) (rc : FakeRc)
    (after : List (SocketAddr × Packet)) (f : Worker → Worker × Option Event)
    (g : Worker → Worker × List Event)
    → rc.ds ≡ some ds
    → ((s t : ℕ) (w : Worker) → dispatch json clk (spoken name extra s t) w ≡ f w)
    → Brings json clk (send_command here name extra rc).sent after g
    → Brings json clk rc.sent after (λ w. ((g (f w).0).0, then_events (f w).1 (g (f w).0).1))
unfolding dispatch_all
Brings-step json clk here name extra ds rc after f g held says rest =
    let s = (rc.seq + 1) % 2 ^ 16 in
    let t = uptime here rc in
    let first : (SocketAddr × Packet) = (ds, Packet.command (spoken name extra s t)) in
    let all = dispatch_all json clk rest.datagrams in
    record {
      datagrams = first ∷ rest.datagrams;
      logged =
          rest.logged
          ∙ ap (λ l. l ++ rest.datagrams) (send_command-log here name extra ds rc held)
          ∙ append_assoc rc.sent (first ∷ []) rest.datagrams;
      brings = λ w.
          ap (λ (r : Worker × Option Event). ((all r.0).0, then_events r.1 (all r.0).1))
            (says s t w)
          ∙ ap (λ (q : Worker × List Event). (q.0, then_events (f w).1 q.1)) (rest.brings (f w).0);
    }

held_after :
    (clk : Clock) (name extra : Bytes) (ds : SocketAddr) (rc : FakeRc)
    → rc.ds ≡ some ds
    → (send_command clk name extra rc).ds ≡ some ds
held_after clk name extra ds rc held = (send_command-Sends ds clk name extra rc held).held

module _ (json : Json) (out : Outside) (agree : Agree json out) (clk : Clock) (jpeg : Bytes)
    (bytes : All IsByte jpeg) (small : length jpeg < 2 ^ 31) (num : ℕ) (ds : SocketAddr) where
  chunks-Brings :
      (here : Clock) (fuel i : ℕ) (bs : Bytes) (rc : FakeRc)
      → drop (i * 4096) jpeg ≡ bs
      → length bs ≤ fuel
      → rc.ds ≡ some ds
      → Brings json clk rc.sent
          (send_chunks out here num i (chunks frame_chunk_size fuel bs) rc).sent
          (store_all clk num jpeg (numbers i (chunks frame_chunk_size fuel bs)))
  unfolding send_chunks chunks numbers store_all chunk_text dispatch_all
  chunks-Brings here zero i [] rc e h held = record {
    datagrams = [];
    logged = sym (append-nil rc.sent);
    brings = λ w. refl;
  }
  chunks-Brings here zero i (b ∷ bs) rc e h held = absurd (omega arith)
  chunks-Brings here (suc fuel) i [] rc e h held = record {
    datagrams = [];
    logged = sym (append-nil rc.sent);
    brings = λ w. refl;
  }
  chunks-Brings here (suc fuel) i (b ∷ bs) rc e h held =
      Brings-step json clk here Cmd.receive_frame_chunk (chunk_text out num i (take 4096 (b ∷ bs)))
        ds rc _ (store_chunk clk num i (chunk_at jpeg i))
        (store_all clk num jpeg (numbers (i + 1) (chunks frame_chunk_size fuel (drop 4095 bs))))
        held
        (λ s t w.
          dispatch-chunk json out clk num i (take 4096 (b ∷ bs)) s t w agree
            (subst (All IsByte) (ap (take 4096) e) whole) few
          ∙ ap (λ x. store_chunk clk num i x w) (sym (ap (take 4096) e)))
        (chunks-Brings here fuel (i + 1) (drop 4095 bs)
          (send_command here Cmd.receive_frame_chunk (chunk_text out num i (take 4096 (b ∷ bs))) rc)
          (ap (λ n. drop n jpeg) next ∙ drop-add (i * 4096) 4096 jpeg ∙ ap (drop 4096) e)
          (omega (arith, length-drop 4095 bs))
          (held_after here Cmd.receive_frame_chunk (chunk_text out num i (take 4096 (b ∷ bs))) ds rc
            held))
    where
      next : (i + 1) * 4096 ≡ i * 4096 + 4096
      next = omega arith

      whole : All IsByte (take 4096 (drop (i * 4096) jpeg))
      whole = All-take IsByte 4096 _ (All-drop IsByte (i * 4096) jpeg bytes)

      few : i < 2 ^ 31
      few = omega (arith, length-drop (i * 4096) jpeg, ap (λ (l : Bytes). length l) e)

  frame-Brings :
      (here : Clock) (rc : FakeRc)
      → rc.ds ≡ some ds
      → Brings json clk rc.sent (send_frame out here num jpeg rc).sent (λ w.
        store_all clk num jpeg
          (numbers 0 (chunks frame_chunk_size (length jpeg) jpeg))
          (begin_frame num (length jpeg) w))
  unfolding send_frame Webcam.begin_frame begin_text
  frame-Brings here rc held =
      let cs = chunks frame_chunk_size (length jpeg) jpeg in
      Brings-step json clk here Cmd.receive_frame_begin (begin_text out num jpeg) ds rc _
        (λ w. (begin_frame num (length jpeg) w, none)) (store_all clk num jpeg (numbers 0 cs)) held
        (λ s t w. dispatch-begin json out clk num jpeg s t w agree small)
        (chunks-Brings here (length jpeg) 0 jpeg (Webcam.begin_frame out here num jpeg rc) refl
          (omega arith)
          (held_after here Cmd.receive_frame_begin (begin_text out num jpeg) ds rc held))

all_numbered :
    (jpeg : Bytes) (i : ℕ)
    → i < chunk_count (length jpeg)
    → contains i (numbers 0 (chunks frame_chunk_size (length jpeg) jpeg)) ≡ true
all_numbered jpeg i lt =
    let cs = chunks frame_chunk_size (length jpeg) jpeg in
    let same : 0 + i ≡ i = omega arith in
    subst (λ k. contains k (numbers 0 cs) ≡ true) same
      (contains-numbers 0 i cs (omega (arith, length-chunks (length jpeg) jpeg (omega arith))))

-- Where `serde_json` reads back what it wrote, the controller has a driver station, and the client takes a
-- frame of this size and has room for one: what `send_frame` sends for the bytes `jpeg`, dispatched by the
-- client in order, raises one event, the frame with these bytes.
pub send_frame-delivered :
    (json : Json) (out : Outside) (clk here : Clock) (num : ℕ) (jpeg : Bytes) (ds : SocketAddr)
    (rc : FakeRc) (w : Worker)
    → Agree json out
    → All IsByte jpeg
    → 0 < length jpeg
    → length jpeg ≤ max_frame_bytes
    → rc.ds ≡ some ds
    → length w.webcam_frames < max_concurrent_frames
    → (sent : List (SocketAddr × Packet)) × ((send_frame out here num jpeg rc).sent
        ≡ rc.sent ++ sent)
      × ((dispatch_all json clk sent w).1 ≡ Event.webcam_frame jpeg ∷ [])
send_frame-delivered json out clk here num jpeg ds rc w agree bytes some_bytes few_bytes held room =
    let all = frame-Brings json out agree clk jpeg bytes (omega arith) num ds here rc held in
    let cs = chunks frame_chunk_size (length jpeg) jpeg in
    (
      all.datagrams,
      all.logged,
      ap (λ (r : Worker × List Event). r.1) (all.brings w)
          ∙ frame-delivered clk num jpeg (numbers 0 cs) w some_bytes few_bytes room
              (all_numbered jpeg),
    )
