-- ===== src/Log/LogFile/Sizes.antt =====
-- How large the files grow.
use mathlib.Core.Path.{subst}
use ai_chat_server.Base.{
  ◌≡◌, ◌≢◌, ◌⊎◌, refl, sym, ℕ, ◌+◌, ◌-◌, ◌≤◌, ◌<◌, Bool, true, false, none, some, Bytes, List, [],
  ◌∷◌, ◌++◌, length, length-append, ltb, lt→ltb, leb, if◌then◌else◌, arith, Bool-cases,
  Option-cases, inl, inr,
}
use ai_chat_server.Log.LogFile.{
  FileUtil, LogFile, Call, roll_file, new_log_file, check_roll, check_flush, append_in_lock,
  appends,
}
use ai_chat_server.Log.LogFile.Written.{wrote, takes_all, all_taken, file_append-whole}

abbrev pub UpTo : ℕ → List FileUtil → Type 0
UpTo n [] = Unit {0}
UpTo n (f ∷ files) = (length f.content ≤ n) × UpTo n files

UpTo-append :
    (n : ℕ) (files : List FileUtil) (f : FileUtil)
    → UpTo n files
    → length f.content ≤ n
    → UpTo n (files ++ (f ∷ []))
UpTo-append n [] f h k = (k, tt)
UpTo-append n (g ∷ files) f (le, h) k = (le, UpTo-append n files f h k)

-- Between two calls, in second t, in which u bytes have come: the files closed have at most m bytes
-- more than `most`; the one in use has what came in this second, if it was begun in it, and at most r
-- otherwise.
record Small (r m most t u : ℕ) (l : LogFile) : Type 0 where
  size : l.rollsize ≡ r
  closed : UpTo (most + m) l.closed
  counted : (f : FileUtil) → l.file ≡ some f → f.written_bytes ≡ length f.content
  young : (f : FileUtil) → l.file ≡ some f → l.last_roll ≡ t → length f.content ≤ u
  old : (f : FileUtil) → l.file ≡ some f → l.last_roll < t → length f.content ≤ r
  rolled : l.last_roll ≤ t
  present : l.file ≢ none

-- From second t on, in which u bytes have come, no time given to rollFile is before an earlier one,
-- and at most m bytes come in any second.
abbrev pub PerSecond : ℕ → ℕ → ℕ → List (Call × Bytes) → Type 0
PerSecond m t u [] = Unit {0}
PerSecond m t u ((c, xs) ∷ more) =
    ((c.roll_now ≡ t) × (u + length xs ≤ m) × PerSecond m t (u + length xs) more)
    ⊎ ((t < c.roll_now) × (length xs ≤ m) × PerSecond m c.roll_now (length xs) more)

module _ (stamp : ℕ → Bytes) where
  -- A file that is one append past its bound.
  stay-Small :
      (r m most now u : ℕ) (f : FileUtil) (l : LogFile)
      → l.rollsize ≡ r
      → UpTo (most + m) l.closed
      → l.file ≡ some f
      → f.written_bytes ≡ length f.content
      → (l.last_roll < now → length f.content ≤ r)
      → (l.last_roll ≡ now → length f.content ≤ u)
      → l.last_roll ≤ now
      → Small r m most now u l
  stay-Small r m most now u f l size closed here count le young rolled = record {
    size = size;
    closed = closed;
    counted = λ g e. let same : f ≡ g = ground (arith, here, e) in rw (← same) count;
    young =
        λ g e now_too. let same : f ≡ g = ground (arith, here, e) in rw (← same) (young now_too);
    old = λ g e before. let same : f ≡ g = ground (arith, here, e) in rw (← same) (le before);
    rolled = rolled;
    present = λ k. ground (arith, here, k);
  }

  roll_file-Small :
      (r m most now u : ℕ) (f : FileUtil) (l : LogFile)
      → l.rollsize ≡ r
      → UpTo (most + m) l.closed
      → l.file ≡ some f
      → f.written_bytes ≡ length f.content
      → length f.content ≤ most + m
      → (l.last_roll ≡ now → length f.content ≤ u)
      → l.last_roll ≤ now
      → Small r m most now u (roll_file stamp now l)
  unfolding roll_file
  roll_file-Small r m most now u f l size closed here count le young rolled =
      elim (Bool-cases (ltb l.last_roll now)) [
        | inl sooner ↦
            rw (sooner, here)
              (record {
                size = size;
                closed = UpTo-append (most + m) l.closed f closed le;
                counted = λ g e. ground arith;
                young = λ g e now_too. ground arith;
                old = λ g e before. absurd (omega (arith, before));
                rolled = omega arith;
                present = λ k. ground arith;
              })
        | inr at_once ↦ rw at_once (
            stay-Small r m most now u f l size closed here count
              (λ before. absurd (ground (arith, before, at_once))) young rolled)
      ]

  if-Small :
      (r m most t u : ℕ) (b : Bool) (k l : LogFile)
      → Small r m most t u k
      → Small r m most t u l
      → Small r m most t u (if b then k else l)
  if-Small r m most t u true k l h h' = h
  if-Small r m most t u false k l h h' = h'

  check_roll-Small :
      (r m most now roll_now u : ℕ) (f : FileUtil) (l : LogFile)
      → l.rollsize ≡ r
      → UpTo (most + m) l.closed
      → l.file ≡ some f
      → f.written_bytes ≡ length f.content
      → length f.content ≤ most + m
      → (l.last_roll ≡ roll_now → length f.content ≤ u)
      → l.last_roll ≤ roll_now
      → Small r m most roll_now u (check_roll stamp now roll_now f l)
  unfolding check_roll
  check_roll-Small r m most now roll_now u f l size closed here count le young rolled =
      let cleared = record l { count = 0 } in
      elim (Bool-cases (ltb l.rollsize f.written_bytes)) [
        | inl large ↦
            rw large
              (roll_file-Small r m most roll_now u f l size closed here count le young rolled)
        | inr small ↦
            let fits : length f.content ≤ r = ground (arith, small, size, count) in
            rw small (
              if-Small r m most roll_now u (leb l.check_every_n l.count) _ _
                (if-Small r m most roll_now u _ _ _
                  (stay-Small r m most roll_now u f cleared size closed here count (λ _. fits) young
                    rolled)
                  (roll_file-Small r m most roll_now u f cleared size closed here count le young
                    rolled))
                (stay-Small r m most roll_now u f l size closed here count (λ _. fits) young
                  rolled))
      ]

  check_flush-Small :
      (r m most t u now : ℕ) (l : LogFile)
      → Small r m most t u l
      → Small r m most t u (check_flush now l)
  unfolding check_flush
  check_flush-Small r m most t u now l h =
      if-Small r m most t u (ltb l.flush_interval (now - l.last_flush))
        (record l { last_flush = now }) l
        (record {
          size = h.size;
          closed = h.closed;
          counted = h.counted;
          young = h.young;
          old = h.old;
          rolled = h.rolled;
          present = h.present;
        })
        h

  -- An append, at the second `c.roll_now`, in which u' bytes have come with it.
  append_in_lock-Small :
      (r m most t u u' : ℕ) (c : Call) (xs : Bytes) (l : LogFile) (f : FileUtil)
      → r ≤ most
      → u ≤ most
      → takes_all c.answers xs ≡ true
      → length xs ≤ m
      → t ≤ c.roll_now
      → (c.roll_now ≡ t → u + length xs ≤ u')
      → l.file ≡ some f
      → Small r m most t u l
      → (n : LogFile) × (append_in_lock stamp c xs l ≡ some n) × Small r m most c.roll_now u' n
  unfolding append_in_lock
  append_in_lock-Small r m most t u u' c xs l f low low' all short later same here h =
      let counted = record l { file = some (wrote xs f); count = l.count + 1 } in
      let grown = length-append f.content xs in
      let before : length f.content ≤ most = elim (Bool-cases (ltb l.last_roll t)) [
        | inl earlier ↦ omega (arith, h.old f here (ground (arith, earlier)), low)
        | inr now_too ↦ omega (arith, h.young f here (ground (arith, now_too, h.rolled)), low')
      ] in
      let rolled =
        check_roll-Small r m most c.now c.roll_now u' (wrote xs f) counted h.size h.closed refl
          (omega (arith, h.counted f here, grown)) (omega (arith, before, grown, short))
          (λ e.
            let at_t : c.roll_now ≡ t = omega (arith, e, h.rolled, later) in
            omega (arith, h.young f here (omega (arith, e, at_t)), same at_t, grown))
          (omega (arith, h.rolled, later)) in
      (
        check_flush c.now (check_roll stamp c.now c.roll_now (wrote xs f) counted),
        rw (here, append_in_lock) (rw (file_append-whole c.answers xs f all) refl),
        check_flush-Small r m most c.roll_now u' c.now _ rolled,
      )

  -- The size of what the second of an append has brought, with it.
  next-PerSecond :
      (m t u : ℕ) (c : Call) (xs : Bytes) (more : List (Call × Bytes))
      → PerSecond m t u ((c, xs) ∷ more)
      → (u' : ℕ) × (u' ≤ m)
        × (length xs ≤ m)
        × (t ≤ c.roll_now)
        × (c.roll_now ≡ t → u + length xs ≤ u')
        × PerSecond m c.roll_now u' more
  next-PerSecond m t u c xs more (inl (same, few, after)) = (
    u + length xs,
    few,
    omega (arith, few),
    omega (arith, same),
    λ _. omega arith,
    subst (λ s. PerSecond m s (u + length xs) more) (sym same) after,
  )
  next-PerSecond m t u c xs more (inr (later, short, after)) =
      (length xs, short, short, omega (arith, later), λ e. absurd (omega (arith, later, e)), after)

  appends-Small :
      (r m most t u : ℕ) (calls : List (Call × Bytes)) (l : LogFile)
      → r ≤ most
      → m ≤ most
      → u ≤ m
      → all_taken calls ≡ true
      → PerSecond m t u calls
      → Small r m most t u l
      → (t' u' : ℕ) × (u' ≤ m)
        × (n : LogFile) × (appends stamp calls l ≡ some n)
        × Small r m most t' u' n
  unfolding appends
  appends-Small r m most t u [] l low low' few all after h = (t, u, few, l, refl, h)
  appends-Small r m most t u ((c, xs) ∷ more) l low low' few all after h =
      elim (Option-cases l.file) [
        | inl missing ↦ absurd (h.present missing)
        | inr (f, here) ↦
            let (v, few', short, later, same, after') = next-PerSecond m t u c xs more after in
            let (k, e, h') =
              append_in_lock-Small r m most t u v c xs l f low (omega (arith, few, low'))
                (ground (arith, all)) short later same here h in
            let (t', u', few'', n, e', h'') =
              appends-Small r m most c.roll_now v more k low low' few' (ground (arith, all)) after'
                h' in
            (t', u', few'', n, rw (e, appends) e', h'')
      ]

  -- On a new log, with writes that take all of their data, a clock that is never set back, and at most
  -- m bytes in any second of the times that rollFile is given: whatever has been appended, if neither
  -- rollsize nor m is above `most`, every file closed holds at most m bytes more than `most`, and the
  -- one in use at most `most`.
  pub appends-sizes :
      (basename : Bytes) (rollsize flush_interval check_every_n count now m most : ℕ)
      (calls : List (Call × Bytes))
      → 0 < now
      → rollsize ≤ most
      → m ≤ most
      → all_taken calls ≡ true
      → PerSecond m now 0 calls
      → (n : LogFile) × (appends stamp calls
            (new_log_file stamp basename rollsize flush_interval check_every_n count now)
          ≡ some n)
        × UpTo (most + m) n.closed
        × ((f : FileUtil) → n.file ≡ some f → length f.content ≤ most)
  unfolding new_log_file roll_file
  appends-sizes basename rollsize flush_interval check_every_n count now m most calls h low low' all
        after =
      let opened = new_log_file stamp basename rollsize flush_interval check_every_n count now in
      let later : ltb 0 now ≡ true = lt→ltb 0 now h in
      let start : Small rollsize m most now 0 opened = rw later (record {
        size = refl;
        closed = tt;
        counted = λ f e. ground arith;
        young = λ f e now_too. ground arith;
        old = λ f e before. absurd (omega (arith, before));
        rolled = omega arith;
        present = λ k. ground arith;
      }) in
      let (t, u, few, n, e, small) =
        appends-Small rollsize m most now 0 calls opened low low' (omega arith) all after start in
      (
        n,
        e,
        small.closed,
        λ f there. elim (Bool-cases (ltb n.last_roll t)) [
          | inl before ↦ omega (arith, small.old f there (ground (arith, before)), low)
          | inr same ↦
              omega (arith, small.young f there (ground (arith, same, small.rolled)), few, low')
        ],
      )
