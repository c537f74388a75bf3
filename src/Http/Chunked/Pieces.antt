-- ===== src/Http/Chunked/Pieces.antt =====
-- The pieces of a cached answer.
use ai_chat_server.Base.{
  join, ℕ, zero, suc, ◌+◌, ◌-◌, ◌≤◌, ◌<◌, min, ◌≡◌, refl, sym, ap, ◌∙◌, false, Bytes, List, [], ◌∷◌,
  length, take, drop, ltb, arith, Bool-cases, inl, inr, length-drop, length-take, drop-drop,
  take-append-drop, drop_of_length-le, drop-nil, ◌⊎◌, ge→ltb, ltb→lt,
}
use ai_chat_server.Http.Chunked.{
  is_continuation, skip_continuation, next_utf8_boundary, chunk_size, cut_from, cut,
}

-- No continuation byte comes first: the text does not start inside a character.
abbrev pub StartsCharacter : Bytes → Type 0
StartsCharacter [] = Unit {0}
StartsCharacter (x ∷ xs) = is_continuation x ≡ false

-- The boundary lies at or behind the bytes skipped, within the text, and starts a character.
skip_continuation-bounds :
    (next : ℕ) (xs : Bytes)
    → (next ≤ skip_continuation next xs) × (skip_continuation next xs ≤ next + length xs)
unfolding skip_continuation
skip_continuation-bounds next [] = omega arith
skip_continuation-bounds next (x ∷ xs) = ground (arith, skip_continuation-bounds (suc next) xs)

skip_continuation-StartsCharacter :
    (next : ℕ) (xs : Bytes) → StartsCharacter (drop (skip_continuation next xs - next) xs)
unfolding skip_continuation
skip_continuation-StartsCharacter next [] = rw (drop-nil {A = ℕ} (next - next)) tt
skip_continuation-StartsCharacter next (x ∷ xs) = elim (Bool-cases (is_continuation x)) [
  | inl more ↦
      let last = skip_continuation (suc next) xs in
      let e : last - next ≡ suc (last - suc next) =
        omega (arith, skip_continuation-bounds (suc next) xs) in
      rw more (rw e (skip_continuation-StartsCharacter (suc next) xs))
  | inr first ↦ let e : next - next ≡ 0 = omega arith in rw first (rw e first)
]

-- From a position within the text the boundary moves on, by 48 bytes or to the end.
boundary_bounds :
    (s : Bytes) (pos : ℕ)
    → pos < length s
    → (pos < next_utf8_boundary s pos chunk_size)
      × (next_utf8_boundary s pos chunk_size ≤ length s)
      × ((pos + chunk_size ≤ next_utf8_boundary s pos chunk_size)
          ⊎ (next_utf8_boundary s pos chunk_size ≡ length s))
unfolding next_utf8_boundary
boundary_bounds s pos h =
    let m = min (length s) (pos + chunk_size) in
    let bounds = skip_continuation-bounds m (drop m s) in
    (
      omega (arith, bounds),
      omega (arith, bounds, length-drop m s),
      grind (arith, bounds, length-drop m s),
    )

boundary-StartsCharacter :
    (s : Bytes) (pos : ℕ) → StartsCharacter (drop (next_utf8_boundary s pos chunk_size) s)
unfolding next_utf8_boundary
boundary-StartsCharacter s pos =
    let m = min (length s) (pos + chunk_size) in
    let last = skip_continuation m (drop m s) in
    let e : m + (last - m) ≡ last = omega (arith, skip_continuation-bounds m (drop m s)) in
    let same : drop (last - m) (drop m s) ≡ drop last s =
      drop-drop (last - m) m s ∙ ap (λ k. drop k s) e in
    rw (← same) (skip_continuation-StartsCharacter m (drop m s))

take-StartsCharacter : (k : ℕ) (xs : Bytes) → StartsCharacter xs → StartsCharacter (take k xs)
take-StartsCharacter zero xs h = tt
take-StartsCharacter (suc k) [] h = tt
take-StartsCharacter (suc k) (x ∷ xs) h = h

-- Pieces that start with a character and are not empty, all but the last of 48 bytes or more.
abbrev pub AreWellCut : List Bytes → Type 0
AreWellCut [] = Unit {0}
AreWellCut (p ∷ []) = (0 < length p) × StartsCharacter p
AreWellCut (p ∷ q ∷ ps) =
    (0 < length p) × StartsCharacter p × (chunk_size ≤ length p) × AreWellCut (q ∷ ps)

AreWellCut-cons :
    (p : Bytes) (ps : List Bytes)
    → 0 < length p
    → StartsCharacter p
    → (chunk_size ≤ length p) ⊎ (ps ≡ [])
    → AreWellCut ps
    → AreWellCut (p ∷ ps)
AreWellCut-cons p [] solid starts long w = (solid, starts)
AreWellCut-cons p (q ∷ ps) solid starts (inl long) w = (solid, starts, long, w)
AreWellCut-cons p (q ∷ ps) solid starts (inr e) w = cc

cut_from_end : (f pos : ℕ) (s : Bytes) → length s ≤ pos → cut_from f pos s ≡ []
unfolding cut_from
cut_from_end zero pos s h = refl
cut_from_end (suc f) pos s h = rw (ge→ltb pos (length s) h) refl

cut_from_lem :
    (f pos : ℕ) (s : Bytes)
    → length s ≤ f + pos
    → StartsCharacter (drop pos s)
    → (join (cut_from f pos s) ≡ drop pos s) × AreWellCut (cut_from f pos s)
unfolding cut_from
cut_from_lem zero pos s h starts = (sym (drop_of_length-le pos s (omega arith)), tt)
cut_from_lem (suc f) pos s h starts = elim (Bool-cases (ltb pos (length s))) [
  | inr over ↦ (rw over (sym (drop_of_length-le pos s (ground arith))), rw over tt)
  | inl inside ↦
      let next = next_utf8_boundary s pos chunk_size in
      let (moves, within, far) = boundary_bounds s pos (ltb→lt pos (length s) inside) in
      let (joined, cut_well) =
        cut_from_lem f next s (omega arith) (boundary-StartsCharacter s pos) in
      let piece = take (next - pos) (drop pos s) in
      let size : length piece ≡ next - pos =
        omega (arith, length-take (next - pos) (drop pos s), length-drop pos s) in
      let e : pos + (next - pos) ≡ next = omega arith in
      let behind : drop (next - pos) (drop pos s) ≡ drop next s =
        drop-drop (next - pos) pos s ∙ ap (λ k. drop k s) e in
      let long : (chunk_size ≤ length piece) ⊎ (cut_from f next s ≡ []) = elim far [
        | inl enough ↦ inl (omega arith)
        | inr last ↦ inr (cut_from_end f next s (omega arith))
      ] in
      (
        rw inside (rw (joined, ← behind) (take-append-drop (next - pos) (drop pos s))),
        rw inside (
            AreWellCut-cons piece (cut_from f next s) (omega arith)
              (take-StartsCharacter (next - pos) (drop pos s) starts) long cut_well),
      )
]

-- Joined, the pieces are the answer; if the answer starts with a character then so does each
-- piece, so none is cut inside one; no piece is empty, and all but the last have 48 bytes or more.
pub cut_lem : (s : Bytes) → StartsCharacter s → (join (cut s) ≡ s) × AreWellCut (cut s)
unfolding cut
cut_lem s h = cut_from_lem (length s) 0 s (omega arith) h
