-- ===== src/Net/TimerQueue/Due.antt =====
-- The order of the timers, and which of them are due.
use ai_chat_server.Base.{
  ◌≡◌, refl, ap, ℕ, ◌≤◌, ◌<◌, true, false, List, [], ◌∷◌, ◌++◌, arith, Bool-cases, inl, inr,
}
use ai_chat_server.Net.TimerQueue.{Entry, entry_lt, key_lt, uintptr_max, insert_entry, get_expired}

-- Every entry of a list is later than `x`.
abbrev pub Later : Entry → List Entry → Type 0
Later x [] = Unit {0}
Later x (y ∷ ys) = (entry_lt x y ≡ true) × Later x ys

abbrev pub Sorted : List Entry → Type 0
Sorted [] = Unit {0}
Sorted (x ∷ xs) = Later x xs × Sorted xs

entry_lt_trans : (x y z : Entry) → entry_lt x y ≡ true → entry_lt y z ≡ true → entry_lt x z ≡ true
entry_lt_trans x y z h k = ground arith

Later-trans : (x y : Entry) (zs : List Entry) → entry_lt x y ≡ true → Later y zs → Later x zs
Later-trans x y [] h l = l
Later-trans x y (z ∷ zs) h (k, l) = (entry_lt_trans x y z h k, Later-trans x y zs h l)

insert_entry-Later :
    (x e : Entry) (ys : List Entry) → entry_lt x e ≡ true → Later x ys → Later x (insert_entry e ys)
unfolding insert_entry
insert_entry-Later x e [] h l = (h, l)
insert_entry-Later x e (y ∷ ys) h (k, l) = ground (arith, insert_entry-Later x e ys h l)

pub insert_entry-Sorted : (e : Entry) (xs : List Entry) → Sorted xs → Sorted (insert_entry e xs)
unfolding insert_entry
insert_entry-Sorted e [] s = (tt, tt)
insert_entry-Sorted e (x ∷ xs) (l, s) = elim (Bool-cases (entry_lt e x)) [
  | inl first ↦ rw first ((first, Later-trans e x xs first l), (l, s))
  | inr not_first ↦ rw not_first (elim (Bool-cases (entry_lt x e)) [
    | inl after ↦ rw after (insert_entry-Later x e xs after l, insert_entry-Sorted e xs s)
    | inr there ↦ rw there (l, s)
  ])
]

-- An address is below UINTPTR_MAX.
abbrev pub Addressed : List Entry → Type 0
Addressed [] = Unit {0}
Addressed (x ∷ xs) = (x.timer.address < uintptr_max) × Addressed xs

abbrev pub AllDue : ℕ → List Entry → Type 0
AllDue now [] = Unit {0}
AllDue now (x ∷ xs) = (x.time ≤ now) × AllDue now xs

abbrev pub NoneDue : ℕ → List Entry → Type 0
NoneDue now [] = Unit {0}
NoneDue now (x ∷ xs) = (now < x.time) × NoneDue now xs

Later-NoneDue : (now : ℕ) (x : Entry) (ys : List Entry) → now < x.time → Later x ys → NoneDue now ys
Later-NoneDue now x [] h l = l
Later-NoneDue now x (y ∷ ys) h (k, l) = (ground arith, Later-NoneDue now x ys h l)

time-due : (t a now : ℕ) → key_lt t a now uintptr_max ≡ true → t ≤ now
time-due t a now h = ground arith

time-later : (t a now : ℕ) → a < uintptr_max → key_lt t a now uintptr_max ≡ false → now < t
time-later t a now h k = ground arith

-- The timers taken are exactly those whose time has come, the earliest first, and the others stay
-- in order.
pub get_expired_lem :
    (now : ℕ) (xs : List Entry)
    → Sorted xs
    → Addressed xs
    → let (expired, rest) = get_expired now xs in
      (expired ++ rest ≡ xs) × AllDue now expired × NoneDue now rest
unfolding get_expired
get_expired_lem now [] s a = (refl, tt, tt)
get_expired_lem now (x ∷ xs) (l, s) (a, as_) =
    let (e, d, n) = get_expired_lem now xs s as_ in
    elim (Bool-cases (key_lt x.time x.timer.address now uintptr_max)) [
      | inl due ↦ rw due (ap (λ ys. x ∷ ys) e, (time-due x.time x.timer.address now due, d), n)
      | inr later ↦
          let h = time-later x.time x.timer.address now a later in
          rw later (refl, tt, (h, Later-NoneDue now x xs h l))
    ]
