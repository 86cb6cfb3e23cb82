-- ===== src/Capture/Fragments/Whole.antt =====
-- The fragments of one datagram up to the one that completes it.
use robocol.Prelude.{
  ℕ, ◌<◌, ◌≡◌, refl, sym, ap, subst, ◌∙◌, ◌⊎◌, Bool, true, false, not, ◌||◌, List, [], ◌∷◌, ◌++◌,
  append_assoc, append-nil, some, inl, inr, Bool-cases, length, All, arith,
}
use robocol.Wire.{Bytes}
use robocol.Capture.Udp.{IpAddr, Datagram, parse_udp, push}
use robocol.Capture.Fragments.{
  Key, Pending, Reassembler, fresh, entry, remove, add_fragment, complete, handle_fragment,
}
use robocol.Capture.Fragments.Assembly.{Piece, covers, assemble-Piece}
use robocol.Capture.Fragments.AnyOrder.{
  Fragment, handle_all, IsFragment, Waiting, Lacks, gather, entry-remove, handle_all-Waiting,
}

abbrev pub pieces_of : List Fragment → List (ℕ × Bytes)
pieces_of [] = []
pieces_of (f ∷ fs) = (f.offset, f.body) ∷ pieces_of fs

abbrev pub has_final : List Fragment → Bool
has_final [] = false
has_final (f ∷ fs) = not f.more || has_final fs

abbrev pub first_ts : List Fragment → ℕ
first_ts [] = 0
first_ts (f ∷ fs) = f.ts

add : Fragment → Pending → Pending
add f p = add_fragment f.ts f.offset f.more f.body p

handle_all-snoc :
    (key : Key) (fs : List Fragment) (x : Fragment) (state : Reassembler × List Datagram)
    → handle_all key (fs ++ x ∷ []) state
      ≡ handle_fragment x.ts key x.offset x.more x.body (handle_all key fs state)
unfolding handle_all
handle_all-snoc key [] x state = refl
handle_all-snoc key (f ∷ fs) x state = handle_all-snoc key fs x _

gather-snoc :
    (fs : List Fragment) (x : Fragment) (p : Pending)
    → gather (fs ++ x ∷ []) p ≡ add x (gather fs p)
unfolding add
gather-snoc [] x p = refl
gather-snoc (f ∷ fs) x p = gather-snoc fs x _

chunks-gather : (fs : List Fragment) (p : Pending) → (gather fs p).chunks ≡ p.chunks ++ pieces_of fs
unfolding add_fragment
chunks-gather [] p = sym (append-nil p.chunks)
chunks-gather (f ∷ fs) p =
    chunks-gather fs (add_fragment f.ts f.offset f.more f.body p)
    ∙ append_assoc p.chunks ((f.offset, f.body) ∷ []) (pieces_of fs)

ts-gather :
    (fs : List Fragment) (p : Pending) (y : ℕ × Bytes) (ys : List (ℕ × Bytes))
    → p.chunks ≡ y ∷ ys
    → (gather fs p).ts ≡ p.ts
unfolding add_fragment
ts-gather [] p y ys e = refl
ts-gather (f ∷ fs) p y ys e =
    ts-gather fs (add_fragment f.ts f.offset f.more f.body p) y (ys ++ (f.offset, f.body) ∷ [])
      (ap (λ cs. cs ++ (f.offset, f.body) ∷ []) e)
    ∙ ap (λ cs. elim cs as (λ _. ℕ) [ [] ↦ f.ts | z ∷ zs ↦ p.ts ]) e

ts-gather-fresh : (f : Fragment) (fs : List Fragment) → (gather (f ∷ fs) fresh).ts ≡ f.ts
unfolding add_fragment
ts-gather-fresh f fs = ts-gather fs (add_fragment f.ts f.offset f.more f.body fresh) _ [] refl

module _ (payload : Bytes) where
  total-gather :
      (fs : List Fragment) (p : Pending)
      → All (IsFragment payload) fs
      → (p.total ≡ some (length payload)) ⊎ (has_final fs ≡ true)
      → (gather fs p).total ≡ some (length payload)
  unfolding add_fragment
  total-gather [] p hs (inl e) = e
  total-gather [] p hs (inr e) = absurd cc
  total-gather (f ∷ fs) p hs h =
      total-gather fs (add_fragment f.ts f.offset f.more f.body p) hs.1 (elim (Bool-cases f.more) [
        | inr final ↦ inl (rw final (ap some (hs.0.last final)))
        | inl more ↦ elim h [ inl e ↦ inl (rw more e) | inr e ↦ inr (ground (arith, more, e)) ]
      ])

  pieces-gather :
      (fs : List Fragment) (chunks : List (ℕ × Bytes))
      → All (IsFragment payload) fs
      → All (Piece payload) (pieces_of fs)
  pieces-gather [] chunks hs = tt
  pieces-gather (f ∷ fs) chunks hs = (hs.0.piece, pieces-gather fs chunks hs.1)

  All-snoc :
      (fs : List Fragment) (x : Fragment)
      → All (IsFragment payload) fs
      → IsFragment payload x
      → All (IsFragment payload) (fs ++ x ∷ [])
  All-snoc [] x hs h = (h, tt)
  All-snoc (f ∷ fs) x hs h = (hs.0, All-snoc fs x hs.1 h)

  ts-first :
      (fs : List Fragment) (x : Fragment)
      → (gather (fs ++ x ∷ []) fresh).ts ≡ first_ts (fs ++ x ∷ [])
  ts-first [] x = ts-gather-fresh x []
  ts-first (f ∷ fs) x = ts-gather-fresh f (fs ++ x ∷ [])

  complete-gather :
      (fs : List Fragment)
      → All (IsFragment payload) fs
      → has_final fs ≡ true
      → ((j : ℕ) → j < length payload → covers j (pieces_of fs) ≡ true)
      → complete (gather fs fresh) ≡ some payload
  unfolding complete
  complete-gather fs hs final covered =
      rw (complete, total-gather fs fresh hs (inr final), chunks-gather fs fresh)
        (assemble-Piece payload (pieces_of fs) (pieces-gather fs [] hs) covered)

  handle_fragment-complete :
      (key : Key) (f : Fragment) (m : Reassembler) (out : List Datagram)
      → complete (add f (entry key m)) ≡ some payload
      → handle_fragment f.ts key f.offset f.more f.body (m, out) ≡ (
        remove key m,
        push out (
            parse_udp
              (add f (entry key m)).ts
              (IpAddr.v4 key.src)
              (IpAddr.v4 key.dst)
              payload
              true),
      )
  unfolding handle_fragment add
  handle_fragment-complete key f m out done = rw (handle_fragment, done) refl

  -- Fragments of one payload, in whatever order they come to a reassembler that has none of them yet,
  -- are put together once, when among them is the last fragment and together they have every byte:
  -- nothing comes out before the fragment with the last missing byte, and then just what is read from
  -- the whole payload, with the time of the fragment that came first; nothing of it is left to wait.
  pub handle_all-whole :
      (key : Key) (m : Reassembler) (out : List Datagram) (fs : List Fragment) (x : Fragment)
      (i : ℕ)
      → entry key m ≡ fresh
      → All (IsFragment payload) fs
      → IsFragment payload x
      → i < length payload
      → All (Lacks i) fs
      → has_final (fs ++ x ∷ []) ≡ true
      → ((j : ℕ) → j < length payload → covers j (pieces_of (fs ++ x ∷ [])) ≡ true)
      → ((handle_all key fs (m, out)).1 ≡ out)
        × ((handle_all key (fs ++ x ∷ []) (m, out)).1
            ≡ push out (
                parse_udp
                  (first_ts (fs ++ x ∷ []))
                  (IpAddr.v4 key.src)
                  (IpAddr.v4 key.dst)
                  payload
                  true))
        × (entry key (handle_all key (fs ++ x ∷ []) (m, out)).0 ≡ fresh)
  handle_all-whole key m out fs x i new hs h inside lacking final covered =
      let w =
        subst (Waiting payload i inside) (sym new)
          (record { pieces = tt; missing = refl; measured = inl refl }) in
      let (m', e, at) = handle_all-Waiting payload i inside key fs m out hs lacking w in
      let all = fs ++ x ∷ [] in
      let there : add x (entry key m') ≡ gather all fresh =
        ap (add x) (at ∙ ap (gather fs) new) ∙ sym (gather-snoc fs x fresh) in
      let done = complete-gather all (All-snoc fs x hs h) final covered in
      let last_step =
        handle_all-snoc key fs x (m, out)
        ∙ ap (handle_fragment x.ts key x.offset x.more x.body) e
        ∙ handle_fragment-complete key x m' out (ap complete there ∙ done)
        ∙ ap
            (λ ts. (
              remove key m',
              push out (parse_udp ts (IpAddr.v4 key.src) (IpAddr.v4 key.dst) payload true),
            ))
            (ap (λ p. p.ts) there ∙ ts-first fs x) in
      (
        ap (λ s. s.1) e,
        ap (λ s. s.1) last_step,
        ap (λ s. entry key s.0) last_step ∙ entry-remove key m',
      )
