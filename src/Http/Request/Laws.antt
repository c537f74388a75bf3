-- ===== src/Http/Request/Laws.antt =====
-- Methods, trimming and header access of a request.
use ai_chat_server.Base.{
  ◌≡◌, ◌⊎◌, refl, ap, ◌∙◌, inl, inr, ℕ, ◌+◌, ◌-◌, ◌<◌, Bool, none, some, ◌++◌, length, drop,
  take_of_length-le, drop-append_length, take-append_le, true, false, Bytes, codes, [], ◌∷◌,
  bytes_eq, bytes_eq_iff, if◌then◌else◌, case_eq, case_eq_congr, arith, Bool-cases,
}
use ai_chat_server.Http.Headers.{Headers, assign}
use ai_chat_server.Http.Request.{
  Method, invalid, get, post, put, patch, delete, method_of, method_string, is_valid_method,
  Request, is_space, find_first_not_space, find_last_not_space, substr_to, trim_from, trim,
  add_header, find_header, get_header,
}

-- methodString gives back the text that setMethod accepted, for each of the five methods.
pub method_of-method_string :
    (m : Method) → is_valid_method m ≡ true → method_of (method_string m) ≡ m
unfolding method_of method_string bytes_eq
method_of-method_string invalid h = cc
method_of-method_string get h = refl
method_of-method_string post h = refl
method_of-method_string put h = refl
method_of-method_string patch h = refl
method_of-method_string delete h = refl

pub method_string-method_of :
    (s : Bytes) → is_valid_method (method_of s) ≡ true → method_string (method_of s) ≡ s
unfolding method_of method_string
method_string-method_of s h = ground (
  arith,
  bytes_eq_iff s (codes "GET"),
  bytes_eq_iff s (codes "POST"),
  bytes_eq_iff s (codes "PUT"),
  bytes_eq_iff s (codes "PATCH"),
  bytes_eq_iff s (codes "DELETE"),
)

find_header-assign_ne :
    (field k v : Bytes) (hs : Headers)
    → case_eq k field ≡ false
    → find_header field (assign k v hs) ≡ find_header field hs
unfolding find_header assign
find_header-assign_ne field k v [] h = rw h
find_header-assign_ne field k v ((j, w) ∷ hs) h =
    ground (arith, bytes_eq_iff j k, find_header-assign_ne field k v hs h)

-- No header of the list has the field's name, but for case.
abbrev pub Absent : Bytes → Headers → Type 0
Absent field [] = Unit {0}
Absent field ((name, _) ∷ hs) = (case_eq name field ≡ false) × Absent field hs

find_header-assign :
    (field k v : Bytes) (hs : Headers)
    → Absent field hs
    → case_eq k field ≡ true
    → find_header field (assign k v hs) ≡ v
unfolding find_header assign
find_header-assign field k v [] a h = rw h
find_header-assign field k v ((j, w) ∷ hs) (no_j, a) h =
    ground (arith, bytes_eq_iff j k, find_header-assign field k v hs a h)

Absent-congr :
    (key field : Bytes) (hs : Headers) → case_eq key field ≡ true → Absent key hs → Absent field hs
Absent-congr key field [] h a = tt
Absent-congr key field ((name, _) ∷ hs) h (no_name, a) =
    (rw (case_eq_congr key field name h) no_name, Absent-congr key field hs h a)

-- Texts of spaces, and texts that begin and end with something else.
abbrev pub Spaces : Bytes → Type 0
Spaces [] = Unit {0}
Spaces (x ∷ xs) = (is_space x ≡ true) × Spaces xs

abbrev pub starts_solid : Bytes → Bool
starts_solid [] = false
starts_solid (x ∷ xs) = if is_space x then false else true

abbrev pub ends_solid : Bytes → Bool
ends_solid [] = false
ends_solid (x ∷ []) = if is_space x then false else true
ends_solid (x ∷ y ∷ ys) = ends_solid (y ∷ ys)

abbrev pub Solid : Bytes → Type 0
Solid v = (v ≡ []) ⊎ ((starts_solid v ≡ true) × (ends_solid v ≡ true))

find_first_not_space-none : (ws : Bytes) → Spaces ws → find_first_not_space ws ≡ none
unfolding find_first_not_space
find_first_not_space-none [] h = refl
find_first_not_space-none (x ∷ ws) (space, h) = rw space (rw (find_first_not_space-none ws h) refl)

find_first_not_space-solid :
    (ws v : Bytes)
    → Spaces ws
    → starts_solid v ≡ true
    → find_first_not_space (ws ++ v) ≡ some (length ws)
unfolding find_first_not_space
find_first_not_space-solid [] [] h k = absurd (ground (arith, k))
find_first_not_space-solid [] (x ∷ v) h k = ground (arith, k)
find_first_not_space-solid (x ∷ ws) v (space, h) k =
    rw space (rw (find_first_not_space-solid ws v h k) refl)

find_last_not_space-none : (ws : Bytes) → Spaces ws → find_last_not_space ws ≡ none
unfolding find_last_not_space
find_last_not_space-none [] h = refl
find_last_not_space-none (x ∷ ws) (space, h) = rw (find_last_not_space-none ws h) (rw space refl)

find_last_not_space-solid :
    (v ws : Bytes)
    → ends_solid v ≡ true
    → Spaces ws
    → find_last_not_space (v ++ ws) ≡ some (length v - 1)
unfolding find_last_not_space
find_last_not_space-solid [] ws k h = absurd (ground (arith, k))
find_last_not_space-solid (x ∷ []) ws k h = rw (find_last_not_space-none ws h) (ground (arith, k))
find_last_not_space-solid (x ∷ y ∷ ys) ws k h =
    rw (find_last_not_space-solid (y ∷ ys) ws k h) (ap some (omega arith))

find_last_not_space-behind :
    (xs ys : Bytes) (i : ℕ)
    → find_last_not_space ys ≡ some i
    → find_last_not_space (xs ++ ys) ≡ some (length xs + i)
unfolding find_last_not_space
find_last_not_space-behind [] ys i h = h ∙ ap some (omega arith)
find_last_not_space-behind (x ∷ xs) ys i h =
    rw (find_last_not_space-behind xs ys i h) (ap some (omega arith))

Spaces-append : (xs ys : Bytes) → Spaces xs → Spaces ys → Spaces (xs ++ ys)
Spaces-append [] ys h k = k
Spaces-append (x ∷ xs) ys (space, h) k = (space, Spaces-append xs ys h k)

ends_solid-pos : (v : Bytes) → ends_solid v ≡ true → 0 < length v
ends_solid-pos [] k = absurd (ground (arith, k))
ends_solid-pos (x ∷ v) k = omega arith

starts_solid-append : (v ws : Bytes) → starts_solid v ≡ true → starts_solid (v ++ ws) ≡ true
starts_solid-append [] ws k = absurd (ground (arith, k))
starts_solid-append (x ∷ v) ws k = k

trim-Spaces :
    (before value after : Bytes)
    → Spaces before
    → Spaces after
    → Solid value
    → trim (before ++ (value ++ after)) ≡ value
unfolding trim find_first_not_space find_last_not_space trim_from substr_to
trim-Spaces before value after h k (inl empty) =
    rw empty
      (rw (find_first_not_space-none (before ++ after) (Spaces-append before after h k)) refl)
trim-Spaces before value after h k (inr (starts, ends)) =
    let text = before ++ (value ++ after) in
    let solid : starts_solid (value ++ after) ≡ true = starts_solid-append value after starts in
    let first = find_first_not_space-solid before (value ++ after) h solid in
    let last =
      find_last_not_space-behind before (value ++ after) (length value - 1)
        (find_last_not_space-solid value after ends k) in
    let size : length before + (length value - 1) + 1 - length before ≡ length value =
      omega (arith, ends_solid-pos value ends) in
    let rest : drop (length before) text ≡ value ++ after =
      drop-append_length (length before) before (value ++ after) refl in
    rw (first, last)
      (rw size (
        rw rest (
          take-append_le (length value) value after (omega arith)
          ∙ take_of_length-le (length value) value (omega arith))))

-- A header that is added with any spaces before and behind a value that neither begins nor ends with
-- a space is found with that value under any spelling of its name, if no other header has that name
-- but for case; under every other name the same value is found as before.
pub get_header-add_header :
    (key before value after field : Bytes) (r : Request)
    → Spaces before
    → Spaces after
    → Solid value
    → Absent key r.headers
    → get_header field (add_header key (before ++ (value ++ after)) r)
      ≡ (if case_eq key field then value else get_header field r)
unfolding get_header add_header
get_header-add_header key before value after field r h k solid a =
    let text = before ++ (value ++ after) in
    let trimmed = trim-Spaces before value after h k solid in
    elim (Bool-cases (case_eq key field)) [
      | inl same ↦ rw same (
          find_header-assign field key (trim text) r.headers
            (Absent-congr key field r.headers same a) same
          ∙ trimmed)
      | inr other ↦ rw other (find_header-assign_ne field key (trim text) r.headers other)
    ]
