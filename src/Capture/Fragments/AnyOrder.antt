-- ===== src/Capture/Fragments/AnyOrder.antt =====
-- The fragments of one datagram, in any order, through `handle_fragment`.
use robocol.Prelude.{
  ℕ, ◌+◌, ◌<◌, ◌≡◌, refl, sym, ap, subst, ◌∙◌, ◌⊎◌, Bool, true, false, ◌||◌, List, [], ◌∷◌, ◌++◌,
  none, some, inl, inr, Bool-cases, ◌==◌, length, All, arith,
}
use robocol.Prelude.Text.{bytes_eq_iff}
use robocol.Wire.{Bytes}
use robocol.Capture.Udp.{Datagram}
use robocol.Capture.Fragments.{
  Key, Pending, Reassembler, key_eq, fresh, entry, store, remove, add_fragment, complete,
  handle_fragment,
}
use robocol.Capture.Fragments.Assembly.{Piece, covers, in_range, or_false, or_assoc, assemble-gap}

pub record Fragment : Type 0 where
  pub ts : ℕ
  pub offset : ℕ
  pub more : Bool
  pub body : Bytes

-- One fragment after another, all with the same addresses and identification.
unfoldable pub handle_all :
    Key → List Fragment → Reassembler × List Datagram → Reassembler × List Datagram
handle_all key [] state = state
handle_all key (f ∷ fs) state =
    handle_all key fs (handle_fragment f.ts key f.offset f.more f.body state)

key_eq_refl : (key : Key) → key_eq key key ≡ true
key_eq_refl key =
    let n : (key.ident == key.ident) ≡ true = ground arith in
    rw ((bytes_eq_iff key.src key.src).1 refl, (bytes_eq_iff key.dst key.dst).1 refl, n) refl

entry-store : (key : Key) (p : Pending) (m : Reassembler) → entry key (store key p m) ≡ p
unfolding entry store
entry-store key p [] = rw (key_eq_refl key) refl
entry-store key p ((k, q) ∷ m) = elim (Bool-cases (key_eq k key)) [
  | inl same ↦ rw (store, same, entry, same) refl
  | inr other ↦ rw (store, other, entry, other) (entry-store key p m)
]

pub entry-remove : (key : Key) (m : Reassembler) → entry key (remove key m) ≡ fresh
unfolding entry remove
entry-remove key [] = refl
entry-remove key ((k, q) ∷ m) = elim (Bool-cases (key_eq k key)) [
  | inl same ↦ rw (remove, same) (entry-remove key m)
  | inr other ↦ rw (remove, other, entry, other) (entry-remove key m)
]

covers-append :
    (i : ℕ) (chunks : List (ℕ × Bytes)) (off : ℕ) (chunk : Bytes)
    → covers i (chunks ++ (off, chunk) ∷ []) ≡ (covers i chunks || in_range i off (length chunk))
covers-append i [] off chunk = sym (or_false _)
covers-append i ((o, c) ∷ chunks) off chunk =
    ap (λ b. in_range i o (length c) || b) (covers-append i chunks off chunk)
    ∙ sym (or_assoc (in_range i o (length c)) (covers i chunks) (in_range i off (length chunk)))

pub All-append :
    (payload : Bytes) (chunks : List (ℕ × Bytes)) (x : ℕ × Bytes)
    → All (Piece payload) chunks
    → Piece payload x
    → All (Piece payload) (chunks ++ x ∷ [])
All-append payload [] x hs h = (h, tt)
All-append payload (y ∷ chunks) x hs h = (hs.0, All-append payload chunks x hs.1 h)

-- A fragment of the payload, of which the last one ends where the payload does.
pub record IsFragment (payload : Bytes) (f : Fragment) : Type 0 where
  pub piece : Piece payload (f.offset, f.body)
  pub last : f.more ≡ false → f.offset + length f.body ≡ length payload

-- The fragment does not have the i-th byte.
abbrev pub Lacks : ℕ → Fragment → Type 0
Lacks i f = in_range i f.offset (length f.body) ≡ false

-- What the fragments add up to.
abbrev pub gather : List Fragment → Pending → Pending
gather [] p = p
gather (f ∷ fs) p = gather fs (add_fragment f.ts f.offset f.more f.body p)

module _ (payload : Bytes) (i : ℕ) (inside : i < length payload) where
  -- What waits for the i-th byte.
  pub record Waiting (p : Pending) : Type 0 where
    pub pieces : All (Piece payload) p.chunks
    pub missing : covers i p.chunks ≡ false
    pub measured : (p.total ≡ none) ⊎ (p.total ≡ some (length payload))

  complete-Waiting : (p : Pending) → Waiting p → complete p ≡ none
  unfolding complete
  complete-Waiting p w = elim w.measured [
    | inl e ↦ rw (complete, e) refl
    | inr e ↦ rw (complete, e) (assemble-gap payload p.chunks i inside w.missing)
  ]

  Waiting-add :
      (f : Fragment) (p : Pending)
      → IsFragment payload f
      → in_range i f.offset (length f.body) ≡ false
      → Waiting p
      → Waiting (add_fragment f.ts f.offset f.more f.body p)
  unfolding add_fragment
  Waiting-add f p h without w = record {
    pieces = All-append payload p.chunks (f.offset, f.body) w.pieces h.piece;
    missing =
        covers-append i p.chunks f.offset f.body
        ∙ ap (λ b. b || in_range i f.offset (length f.body)) w.missing
        ∙ without;
    measured = elim (Bool-cases f.more) [
      | inl more ↦ rw more w.measured
      | inr final ↦ rw final (inr (ap some (h.last final)))
    ];
  }

  -- A fragment without the i-th byte only joins those that wait.
  handle_fragment-Waiting :
      (key : Key) (f : Fragment) (m : Reassembler) (out : List Datagram)
      → IsFragment payload f
      → in_range i f.offset (length f.body) ≡ false
      → Waiting (entry key m)
      → handle_fragment f.ts key f.offset f.more f.body (m, out)
        ≡ (store key (add_fragment f.ts f.offset f.more f.body (entry key m)) m, out)
  unfolding handle_fragment
  handle_fragment-Waiting key f m out h without w =
      rw (handle_fragment, complete-Waiting _ (Waiting-add f (entry key m) h without w)) refl

  pub Waiting-gather :
      (fs : List Fragment) (p : Pending)
      → All (IsFragment payload) fs
      → All (Lacks i) fs
      → Waiting p
      → Waiting (gather fs p)
  Waiting-gather [] p hs ws w = w
  Waiting-gather (f ∷ fs) p hs ws w = Waiting-gather fs _ hs.1 ws.1 (Waiting-add f p hs.0 ws.0 w)

  pub handle_all-Waiting :
      (key : Key) (fs : List Fragment) (m : Reassembler) (out : List Datagram)
      → All (IsFragment payload) fs
      → All (Lacks i) fs
      → Waiting (entry key m)
      → (m' : Reassembler) × (handle_all key fs (m, out) ≡ (m', out))
        × (entry key m' ≡ gather fs (entry key m))
  unfolding handle_all
  handle_all-Waiting key [] m out hs ws w = (m, refl, refl)
  handle_all-Waiting key (f ∷ fs) m out hs ws w =
      let p = add_fragment f.ts f.offset f.more f.body (entry key m) in
      let there = entry-store key p m in
      let waiting = subst Waiting (sym there) (Waiting-add f (entry key m) hs.0 ws.0 w) in
      let (m', e, at) = handle_all-Waiting key fs (store key p m) out hs.1 ws.1 waiting in
      (
        m',
        ap (handle_all key fs) (handle_fragment-Waiting key f m out hs.0 ws.0 w) ∙ e,
        at ∙ ap (gather fs) there,
      )
