-- ===== src/Base/ByteStrings.antt =====
-- Byte strings as lists of numbers: literals, equality, and the searches of <algorithm> and
-- std::string, which answer with a position, or with the length where nothing is found.
use Prim.Native.Nat.{ℕ, suc, ◌+◌, ◌≤◌}
use Prim.Native.Char.{code}
use Prim.Native.String.{String}
use mathlib.Core.Path.{◌≡◌, refl, ap}
use mathlib.Core.Logic.{◌↔◌, ◌≢◌}
use mathlib.Core.Bool.{Bool, true, false, ◌&&◌, ◌||◌}
use mathlib.Core.List.{List, [], ◌∷◌, ◌++◌, map, append_assoc}
use native.Mathlib.Omega.{arith}
use ai_chat_server.Base.Tests.{◌==◌, ==_refl, ltb, leb, if◌then◌else◌}
use ai_chat_server.Base.Lists.{length, take, take-append_le}

abbrev pub Bytes : Type 0
Bytes = List ℕ

-- The code points of a literal, which are its bytes if it is ASCII.
abbrev pub codes : String → Bytes
codes String.[] = []
codes (String.◌∷◌ c s) = code c ∷ codes s

unfoldable pub bytes_eq : Bytes → Bytes → Bool
bytes_eq [] [] = true
bytes_eq (x ∷ xs) (y ∷ ys) = x == y && bytes_eq xs ys
bytes_eq _ _ = false

pub bytes_eq_iff : (xs ys : Bytes) → (bytes_eq xs ys ≡ true) ↔ (xs ≡ ys)
unfolding bytes_eq
bytes_eq_iff [] [] = ground arith
bytes_eq_iff (x ∷ xs) (y ∷ ys) = ground (arith, bytes_eq_iff xs ys)
bytes_eq_iff [] (y ∷ ys) = ground arith
bytes_eq_iff (x ∷ xs) [] = ground arith

pub bytes_eq_refl : (xs : Bytes) → bytes_eq xs xs ≡ true
bytes_eq_refl xs = (bytes_eq_iff xs xs).1 refl

-- std::find
unfoldable pub find_byte : ℕ → Bytes → ℕ
find_byte c [] = 0
find_byte c (x ∷ xs) = if x == c then 0 else suc (find_byte c xs)

pub find_byte-le : (c : ℕ) (xs : Bytes) → find_byte c xs ≤ length xs
unfolding find_byte
find_byte-le c [] = omega arith
find_byte-le c (x ∷ xs) = ground (arith, find_byte-le c xs)

-- std::search for "\r\n": the position, or the length where the pair does not occur.
unfoldable pub search_crlf : Bytes → ℕ
search_crlf [] = 0
search_crlf (x ∷ []) = 1
search_crlf (x ∷ y ∷ xs) = if x == 13 && y == 10 then 0 else suc (search_crlf (y ∷ xs))

-- operator< of std::string: the order of bytes from the left, a prefix first.
unfoldable pub lex_lt : Bytes → Bytes → Bool
lex_lt xs [] = false
lex_lt [] (y ∷ ys) = true
lex_lt (x ∷ xs) (y ∷ ys) = ltb x y || (x == y && lex_lt xs ys)

-- What a C function sees of c_str(): the bytes before the first NUL.
unfoldable pub c_str : Bytes → Bytes
c_str [] = []
c_str (x ∷ xs) = if x == 0 then [] else x ∷ c_str xs

abbrev pub is_upper : ℕ → Bool
is_upper x = leb b'A' x && leb x b'Z'

abbrev pub to_lower : ℕ → ℕ
to_lower x = if is_upper x then x + 32 else x

-- strcasecmp(a, b) == 0, in the C locale.
unfoldable pub case_eq : Bytes → Bytes → Bool
case_eq xs ys = bytes_eq (map to_lower (c_str xs)) (map to_lower (c_str ys))

pub case_eq_refl : (xs : Bytes) → case_eq xs xs ≡ true
unfolding case_eq
case_eq_refl xs = bytes_eq_refl (map to_lower (c_str xs))

-- Two spellings of a name compare alike with every other.
pub case_eq_congr : (xs ys zs : Bytes) → case_eq xs ys ≡ true → case_eq zs ys ≡ case_eq zs xs
unfolding case_eq
case_eq_congr xs ys zs h = rw ((bytes_eq_iff (map to_lower (c_str xs)) _).0 h)

unfoldable pub is_empty : Bytes → Bool
is_empty [] = true
is_empty (x ∷ xs) = false

pub search_crlf-le : (xs : Bytes) → search_crlf xs ≤ length xs
unfolding search_crlf
search_crlf-le [] = omega arith
search_crlf-le (x ∷ []) = omega arith
search_crlf-le (x ∷ y ∷ xs) = ground (arith, search_crlf-le (y ∷ xs))

-- A pair that is found lies wholly inside.
pub search_crlf_room : (xs : Bytes) → search_crlf xs ≢ length xs → search_crlf xs + 2 ≤ length xs
unfolding search_crlf
search_crlf_room [] h = absurd (h refl)
search_crlf_room (x ∷ []) h = absurd (h refl)
search_crlf_room (x ∷ y ∷ xs) h = ground (arith, search_crlf_room (y ∷ xs))

-- Bytes that come later do not move a pair that is found.
pub search_crlf-append :
    (xs ys : Bytes) → search_crlf xs ≢ length xs → search_crlf (xs ++ ys) ≡ search_crlf xs
unfolding search_crlf
search_crlf-append [] ys h = absurd (h refl)
search_crlf-append (x ∷ []) ys h = absurd (h refl)
search_crlf-append (x ∷ y ∷ xs) ys h = ground (arith, search_crlf-append (y ∷ xs) ys)

pub take_line : (xs ys : Bytes) → take (search_crlf xs) (xs ++ ys) ≡ take (search_crlf xs) xs
take_line xs ys = take-append_le (search_crlf xs) xs ys (search_crlf-le xs)

-- The pair that ends a line comes first after a text that holds no carriage return.
abbrev pub NoByte : ℕ → Bytes → Type 0
NoByte c [] = Unit {0}
NoByte c (x ∷ xs) = ((x == c) ≡ false) × NoByte c xs

pub NoByte-append : (c : ℕ) (xs ys : Bytes) → NoByte c xs → NoByte c ys → NoByte c (xs ++ ys)
NoByte-append c [] ys h k = k
NoByte-append c (x ∷ xs) ys (no_x, h) k = (no_x, NoByte-append c xs ys h k)

pub find_byte-absent : (c : ℕ) (xs : Bytes) → NoByte c xs → find_byte c xs ≡ length xs
unfolding find_byte
find_byte-absent c [] h = refl
find_byte-absent c (x ∷ xs) (no_x, h) = rw no_x (ap suc (find_byte-absent c xs h))

-- The first `c` is the one that follows a text without it.
pub find_byte-append :
    (c : ℕ) (xs ys : Bytes) → NoByte c xs → find_byte c (xs ++ c ∷ ys) ≡ length xs
unfolding find_byte
find_byte-append c [] ys h = rw (==_refl c) refl
find_byte-append c (x ∷ xs) ys (no_x, h) = rw no_x (ap suc (find_byte-append c xs ys h))

pub search_crlf_line : (xs ys : Bytes) → NoByte 13 xs → search_crlf (xs ++ 13 ∷ 10 ∷ ys) ≡ length xs
unfolding search_crlf
search_crlf_line [] ys h = refl
search_crlf_line (x ∷ []) ys (no_x, h) = rw no_x refl
search_crlf_line (x ∷ y ∷ xs) ys (no_x, h) = rw no_x (ap suc (search_crlf_line (y ∷ xs) ys h))

pub c_str-absent : (xs : Bytes) → NoByte 0 xs → c_str xs ≡ xs
unfolding c_str
c_str-absent [] h = refl
c_str-absent (x ∷ xs) (no_x, h) = rw (no_x, c_str-absent xs h) refl

-- The texts one after another.
abbrev pub join : List Bytes → Bytes
join [] = []
join (p ∷ ps) = p ++ join ps

pub join-append : (ps qs : List Bytes) → join (ps ++ qs) ≡ join ps ++ join qs
join-append [] qs = refl
join-append (p ∷ ps) qs = simp (join-append ps qs, append_assoc)
