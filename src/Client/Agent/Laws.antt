-- ===== src/Client/Agent/Laws.antt =====
-- The addresses and the results of the agent's client.
use ai_chat_server.Base.{
  ◌≡◌, ◌≢◌, refl, ap, ℕ, zero, suc, true, false, ◌&&◌, Option, Bytes, codes, [], ◌∷◌, ◌++◌, ◌==◌,
  is_empty, if◌then◌else◌, arith, Bool-cases, inl, inr,
}
use ai_chat_server.Client.Agent.{strip_slashes, new_agent_client, configured_or}

-- The last byte is no slash.
abbrev pub EndsClean : Bytes → Type 0
EndsClean xs = (ys : Bytes) → xs ≢ (ys ++ b'/' ∷ [])

abbrev pub slashes : ℕ → Bytes
slashes zero = []
slashes (suc n) = b'/' ∷ slashes n

cons-EndsClean :
    (x : ℕ) (xs : Bytes) → EndsClean xs → (is_empty xs && x == b'/') ≡ false → EndsClean (x ∷ xs)
unfolding is_empty
cons-EndsClean x [] h k [] e = ground (arith, e)
cons-EndsClean x (z ∷ xs) h k [] e = ground (arith, e)
cons-EndsClean x xs h k (y ∷ ys) e = h ys (ground (arith, e))

[]-EndsClean : EndsClean []
[]-EndsClean [] e = ground (arith, e)
[]-EndsClean (y ∷ ys) e = ground (arith, e)

strip_slashes-EndsClean : (xs : Bytes) → EndsClean (strip_slashes xs)
unfolding strip_slashes
strip_slashes-EndsClean [] ys e = []-EndsClean ys e
strip_slashes-EndsClean (x ∷ xs) ys e =
    elim (Bool-cases (is_empty (strip_slashes xs) && x == b'/')) [
      | inl last ↦ []-EndsClean ys (ground (arith, e))
      | inr kept ↦
          cons-EndsClean x (strip_slashes xs) (strip_slashes-EndsClean xs) kept ys
            (ground (arith, e))
    ]

last_slash :
    (x : ℕ) (rest xs : Bytes) (n : ℕ) (e : xs ≡ rest ++ slashes n)
    → (is_empty rest && x == b'/') ≡ true
    → x ∷ xs ≡ (if is_empty rest && x == b'/' then [] else x ∷ rest) ++ slashes (suc n)
unfolding is_empty
last_slash x [] xs n e last = rw last (ground (arith, e, last))
last_slash x (_ ∷ _) xs n e last = ground (arith, last)

strip_slashes-cut : (xs : Bytes) → (n : ℕ) × (xs ≡ strip_slashes xs ++ slashes n)
unfolding strip_slashes
strip_slashes-cut [] = (0, refl)
strip_slashes-cut (x ∷ xs) = elim (Bool-cases (is_empty (strip_slashes xs) && x == b'/')) [
  | inl last ↦ (
    suc (strip_slashes-cut xs).0,
    last_slash x (strip_slashes xs) xs (strip_slashes-cut xs).0 (strip_slashes-cut xs).1 last,
  )
  | inr kept ↦ ((strip_slashes-cut xs).0, rw kept (ap (λ ys. x ∷ ys) (strip_slashes-cut xs).1))
]

-- The client's address is the one given, else the one configured, else the default, less the
-- slashes at its end, so it never ends in one.
pub new_agent_client_lem :
    (url : Bytes) (configured : Option Bytes)
    → let base = (new_agent_client url configured).base_url in
      EndsClean base × ((url ≢ []) → (n : ℕ) × (url ≡ base ++ slashes n))
unfolding new_agent_client is_empty
new_agent_client_lem [] configured = (
  strip_slashes-EndsClean (configured_or (codes "http://127.0.0.1:8010") configured),
  λ h. absurd (h refl),
)
new_agent_client_lem (x ∷ xs) configured =
    (strip_slashes-EndsClean (x ∷ xs), λ h. strip_slashes-cut (x ∷ xs))
