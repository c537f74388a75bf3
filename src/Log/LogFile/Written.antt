-- ===== src/Log/LogFile/Written.antt =====
-- What the files hold.
use ai_chat_server.Base.{
  ◌≡◌, ◌≢◌, refl, sym, ap, ◌∙◌, ℕ, ◌+◌, ◌≤◌, ◌<◌, Bool, true, false, not, ◌&&◌, Option, none, some,
  Bytes, List, [], ◌∷◌, ◌++◌, append_assoc, append-nil, length, take, take-nil, if-true, if-false,
  take_of_length-le, drop_of_length-le, ◌==◌, ltb, lt→ltb, leb, if◌then◌else◌, arith, Bool-cases,
  Option-cases, inl, inr,
}
use ai_chat_server.Log.LogFile.{
  Answer, FileUtil, count_written, fwrite, write_loop, file_append, LogFile, Call, roll_file,
  new_log_file, check_roll, check_flush, append_in_lock, appends, closed_after,
}

-- A file with all of some data written at its end.
abbrev pub wrote : Bytes → FileUtil → FileUtil
wrote xs f = record f { content = f.content ++ xs; written_bytes = f.written_bytes + length xs }

-- The first answer takes all there is.
abbrev pub takes_all : List Answer → Bytes → Bool
takes_all answers [] = true
takes_all [] (x ∷ xs) = false
takes_all (a ∷ answers) (x ∷ xs) = a.taken == length (x ∷ xs)

pub file_append-whole :
    (answers : List Answer) (xs : Bytes) (f : FileUtil)
    → takes_all answers xs ≡ true
    → file_append answers xs f ≡ some (wrote xs f)
unfolding file_append write_loop
file_append-whole answers [] f h =
    ap (λ t. some (record f { content = t; written_bytes = f.written_bytes + 0 }))
      (sym (append-nil f.content))
file_append-whole [] (x ∷ xs) f h = absurd (ground arith)
file_append-whole (a ∷ answers) (x ∷ xs) f h =
    let all : a.taken ≡ length (x ∷ xs) = ground (arith, h) in
    let le : length (x ∷ xs) ≤ a.taken = omega (arith, all) in
    let through : (not (a.taken == length (x ∷ xs)) && a.failed) ≡ false = ground (arith, all) in
    let zero-add : 0 + length (x ∷ xs) ≡ length (x ∷ xs) = omega arith in
    if-false _ _ _ through
    ∙ ap (λ ys. write_loop answers ys (0 + a.taken) (fwrite a (x ∷ xs) f))
        (drop_of_length-le a.taken (x ∷ xs) le)
    ∙ rw (take_of_length-le a.taken (x ∷ xs) le, all, zero-add) refl

-- Documented of fwrite: it takes no more than it is given, and less only with an error.
abbrev pub Tells : Answer → Bytes → Type 0
Tells a xs = (a.taken ≤ length xs) × (a.taken < length xs → a.failed ≡ true)

-- As long as fwrite takes less than it is given only with an error, append comes to its end after
-- one call of it, whatever it answers: the file has got a prefix of the data, which is all of the
-- data if fwrite took it all, and writtenBytes counts the data only then.
pub file_append-prefix :
    (a : Answer) (more : List Answer) (xs : Bytes) (f : FileUtil)
    → Tells a xs
    → (g : FileUtil) × (file_append (a ∷ more) xs f ≡ some g)
      × (g.content ≡ f.content ++ take a.taken xs)
      × (g.written_bytes ≡ f.written_bytes + (if a.taken == length xs then length xs else 0))
unfolding file_append write_loop
file_append-prefix a more [] f tells =
    (wrote [] f, file_append-whole (a ∷ more) [] f refl, rw (take-nil a.taken) refl, ground arith)
file_append-prefix a more (x ∷ xs) f tells = elim (Bool-cases (a.taken == length (x ∷ xs))) [
  | inl all ↦
      let le : length (x ∷ xs) ≤ a.taken = ground (arith, all) in
      (
        wrote (x ∷ xs) f,
        file_append-whole (a ∷ more) (x ∷ xs) f all,
        ap (λ ys. f.content ++ ys) (sym (take_of_length-le a.taken (x ∷ xs) le)),
        sym (ap (λ n. f.written_bytes + n) (if-true _ _ _ all)),
      )
  | inr short ↦
      let failed : a.failed ≡ true = tells.1 (ground (arith, short, tells.0)) in
      let stop : (not (a.taken == length (x ∷ xs)) && a.failed) ≡ true =
        ground (arith, short, failed) in
      (
        count_written 0 (fwrite a (x ∷ xs) f),
        if-true _ _ _ stop,
        refl,
        sym (ap (λ n. f.written_bytes + n) (if-false _ _ _ short)),
      )
]

-- The text of all files, in the order in which they were opened.
abbrev pub contents : List FileUtil → Bytes
contents [] = []
contents (f ∷ files) = f.content ++ contents files

abbrev pub content_of : Option FileUtil → Bytes
content_of none = []
content_of (some f) = f.content

abbrev pub log_text : LogFile → Bytes
log_text l = contents l.closed ++ content_of l.file

contents-append : (fs gs : List FileUtil) → contents (fs ++ gs) ≡ contents fs ++ contents gs
contents-append [] gs = refl
contents-append (f ∷ fs) gs =
    ap (λ t. f.content ++ t) (contents-append fs gs)
    ∙ sym (append_assoc f.content (contents fs) (contents gs))

-- Every call takes all of its data.
abbrev pub all_taken : List (Call × Bytes) → Bool
all_taken [] = true
all_taken ((c, xs) ∷ more) = takes_all c.answers xs && all_taken more

abbrev pub data_of : List (Call × Bytes) → Bytes
data_of [] = []
data_of ((c, xs) ∷ more) = xs ++ data_of more

-- Ready for a call, with a text.
abbrev pub Holds : Bytes → LogFile → Type 0
Holds text l = (l.file ≢ none) × (log_text l ≡ text)

module _ (stamp : ℕ → Bytes) where
  contents-closed_after :
      (o : Option FileUtil) (files : List FileUtil)
      → contents (closed_after o files) ++ [] ≡ contents files ++ content_of o
  contents-closed_after none files = refl
  contents-closed_after (some f) files =
      append-nil (contents (files ++ (f ∷ [])))
      ∙ contents-append files (f ∷ [])
      ∙ ap (λ t. contents files ++ t) (append-nil f.content)

  if-Holds :
      (b : Bool) (l m : LogFile) (text : Bytes)
      → Holds text l
      → Holds text m
      → Holds text (if b then l else m)
  if-Holds true l m text h k = h
  if-Holds false l m text h k = k

  roll_file-Holds :
      (now : ℕ) (l : LogFile) (text : Bytes) → Holds text l → Holds text (roll_file stamp now l)
  unfolding roll_file
  roll_file-Holds now l text (there, e) =
      if-Holds (ltb l.last_roll now) _ _ text
        ((λ k. ground arith), contents-closed_after l.file l.closed ∙ e) (there, e)

  check_roll-Holds :
      (now roll_now : ℕ) (f : FileUtil) (l : LogFile) (text : Bytes)
      → Holds text l
      → Holds text (check_roll stamp now roll_now f l)
  unfolding check_roll
  check_roll-Holds now roll_now f l text h =
      if-Holds (ltb l.rollsize f.written_bytes) _ _ text (roll_file-Holds roll_now l text h) (
        if-Holds (leb l.check_every_n l.count) _ _ text
          (if-Holds _ _ _ text h (roll_file-Holds roll_now (record l { count = 0 }) text h)) h)

  pub append_in_lock-Holds :
      (c : Call) (xs : Bytes) (l : LogFile) (text : Bytes)
      → takes_all c.answers xs ≡ true
      → Holds text l
      → (m : LogFile) × (append_in_lock stamp c xs l ≡ some m) × Holds (text ++ xs) m
  unfolding append_in_lock check_flush
  append_in_lock-Holds c xs l text all (there, e) = elim (Option-cases l.file) [
    | inl missing ↦ absurd (there missing)
    | inr (f, found) ↦
        let counted = record l { file = some (wrote xs f); count = l.count + 1 } in
        let held : Holds (text ++ xs) counted = (
          (λ k. ground arith),
          sym (append_assoc (contents l.closed) f.content xs)
              ∙ ap (λ t. t ++ xs) (ap (λ o. contents l.closed ++ content_of o) (sym found) ∙ e),
        ) in
        let rolled = check_roll-Holds c.now c.roll_now (wrote xs f) counted (text ++ xs) held in
        (
          check_flush c.now (check_roll stamp c.now c.roll_now (wrote xs f) counted),
          rw (found, append_in_lock) (rw (file_append-whole c.answers xs f all) refl),
          if-Holds _ _ _ (text ++ xs) rolled rolled,
        )
  ]

  pub appends-Holds :
      (calls : List (Call × Bytes)) (l : LogFile) (text : Bytes)
      → all_taken calls ≡ true
      → Holds text l
      → (m : LogFile) × (appends stamp calls l ≡ some m) × Holds (text ++ data_of calls) m
  unfolding appends
  appends-Holds [] l text all (there, e) = (l, refl, (there, e ∙ sym (append-nil text)))
  appends-Holds ((c, xs) ∷ more) l text all h =
      let (m, e, h') = append_in_lock-Holds c xs l text (ground (arith, all)) h in
      let (n, e', (there, kept)) = appends-Holds more m (text ++ xs) (ground (arith, all)) h' in
      (n, rw (e, appends) e', (there, kept ∙ append_assoc text xs (data_of more)))

  pub new_log_file-Holds :
      (basename : Bytes) (rollsize flush_interval check_every_n count now : ℕ)
      → 0 < now
      → Holds [] (new_log_file stamp basename rollsize flush_interval check_every_n count now)
  unfolding new_log_file roll_file
  new_log_file-Holds basename rollsize flush_interval check_every_n count now h =
      let later : ltb 0 now ≡ true = lt→ltb 0 now h in rw later ((λ k. ground arith), refl)
