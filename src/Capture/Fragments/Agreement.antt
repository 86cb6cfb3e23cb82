-- ===== src/Capture/Fragments/Agreement.antt =====
-- A buffer that holds the payload's bytes where it is filled.
use robocol.Prelude.{◌≡◌, refl, Bool, true, false, List, [], ◌∷◌, ◌++◌, length, replicate}
use robocol.Wire.{Bytes}
use robocol.Capture.Fragments.{overlay, all_true}

-- The buffer holds the payload's byte wherever it is filled.
unfoldable pub Agrees : Bytes → List Bool → Bytes → Type 0
Agrees [] [] [] = Unit
Agrees (b ∷ buf) (f ∷ filled) (p ∷ payload) = (f ≡ true → b ≡ p) × Agrees buf filled payload
Agrees [] [] (p ∷ payload) = ⊥
Agrees [] (f ∷ filled) payload = ⊥
Agrees (b ∷ buf) [] payload = ⊥
Agrees (b ∷ buf) (f ∷ filled) [] = ⊥

Agrees-front :
    (chunk behind buf : Bytes) (filled : List Bool)
    → Agrees buf filled (chunk ++ behind)
    → Agrees
        (overlay buf 0 chunk)
        (overlay filled 0 (replicate (length chunk) true))
        (chunk ++ behind)
unfolding Agrees overlay
Agrees-front [] behind [] [] h = h
Agrees-front [] behind [] (f ∷ filled) h = h
Agrees-front [] behind (b ∷ buf) [] h = h
Agrees-front [] behind (b ∷ buf) (f ∷ filled) h = h
Agrees-front (c ∷ chunk) behind [] [] h = absurd h
Agrees-front (c ∷ chunk) behind [] (f ∷ filled) h = absurd h
Agrees-front (c ∷ chunk) behind (b ∷ buf) [] h = absurd h
Agrees-front (c ∷ chunk) behind (b ∷ buf) (f ∷ filled) h =
    (λ e. refl, Agrees-front chunk behind buf filled h.1)

pub Agrees-overlay :
    (before chunk behind buf : Bytes) (filled : List Bool)
    → Agrees buf filled (before ++ (chunk ++ behind))
    → Agrees
        (overlay buf (length before) chunk)
        (overlay filled (length before) (replicate (length chunk) true))
        (before ++ (chunk ++ behind))
unfolding Agrees overlay
Agrees-overlay [] chunk behind buf filled h = Agrees-front chunk behind buf filled h
Agrees-overlay (x ∷ before) chunk behind [] [] h = absurd h
Agrees-overlay (x ∷ before) chunk behind [] (f ∷ filled) h = absurd h
Agrees-overlay (x ∷ before) chunk behind (b ∷ buf) [] h = absurd h
Agrees-overlay (x ∷ before) chunk behind (b ∷ buf) (f ∷ filled) h =
    (h.0, Agrees-overlay before chunk behind buf filled h.1)

pub Agrees-all_true :
    (buf payload : Bytes) (filled : List Bool)
    → Agrees buf filled payload
    → all_true filled ≡ true
    → buf ≡ payload
unfolding Agrees all_true
Agrees-all_true [] [] [] h all = refl
Agrees-all_true [] (p ∷ payload) [] h all = absurd h
Agrees-all_true [] payload (f ∷ filled) h all = absurd h
Agrees-all_true (b ∷ buf) payload [] h all = absurd h
Agrees-all_true (b ∷ buf) [] (f ∷ filled) h all = absurd h
Agrees-all_true (b ∷ buf) (p ∷ payload) (false ∷ filled) h all = absurd cc
Agrees-all_true (b ∷ buf) (p ∷ payload) (true ∷ filled) h all =
    let e = h.0 refl in let es = Agrees-all_true buf payload filled h.1 all in cc

pub Agrees-empty :
    (payload : Bytes)
    → Agrees (replicate (length payload) 0) (replicate (length payload) false) payload
unfolding Agrees
Agrees-empty [] = tt
Agrees-empty (p ∷ payload) = (λ e. absurd cc, Agrees-empty payload)
