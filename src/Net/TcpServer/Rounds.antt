-- ===== src/Net/TcpServer/Rounds.antt =====
-- The loops take turns.
use ai_chat_server.Base.{
  ◌≡◌, refl, sym, ap, ◌∙◌, ℕ, zero, suc, ◌+◌, ◌≤◌, ◌<◌, Option, some, List, [], ◌∷◌, length, drop,
  drop_of_length-le, ◌-◌, map, get_elem?, leb, if◌then◌else◌, arith,
}
use mathlib.Core.Path.{subst}
use ai_chat_server.Net.TcpServer.{EventLoopThreadPool, get_next_loop, next_of}

-- The loops of `k` calls, and the pool behind them.
unfoldable pub get_loops : ℕ → EventLoopThreadPool → List (Option ℕ) × EventLoopThreadPool
get_loops zero p = ([], p)
get_loops (suc k) p = let (l, q) = get_next_loop p in let (ls, r) = get_loops k q in (l ∷ ls, r)

drop-elem :
    (i : ℕ) (xs : List ℕ)
    → i < length xs
    → (x : ℕ) × ((get_elem? xs i ≡ some x) × (drop i xs ≡ x ∷ drop (suc i) xs))
drop-elem i [] h = absurd (omega arith)
drop-elem zero (x ∷ xs) h = (x, (refl, refl))
drop-elem (suc i) (x ∷ xs) h = drop-elem i xs (omega arith)

next_of-here :
    (ls : List ℕ) (p : EventLoopThreadPool) (x : ℕ)
    → get_elem? ls p.next ≡ some x
    → next_of ls p
      ≡ (some x, record p { next = if leb (length ls) (suc p.next) then 0 else suc p.next })
next_of-here [] p x h = absurd (ground arith)
next_of-here (l ∷ ls) p x h = rw h refl

-- A call, and `k` more.
abbrev and_more : ℕ → Option ℕ × EventLoopThreadPool → List (Option ℕ) × EventLoopThreadPool
and_more k (l, q) = (l ∷ (get_loops k q).0, (get_loops k q).1)

-- The call at the i-th loop.
get_loops-here :
    (k : ℕ) (p : EventLoopThreadPool) (x n : ℕ)
    → get_elem? p.loops p.next ≡ some x
    → (if leb (length p.loops) (suc p.next) then 0 else suc p.next) ≡ n
    → get_loops (suc k) p ≡ and_more k (some x, record p { next = n })
unfolding get_loops get_next_loop
get_loops-here k p x n e h =
    ap (and_more k) (next_of-here p.loops p x e)
    ∙ ap (λ m. and_more k (some x, record p { next = m })) h

-- From the i-th loop on, to the end of the list.
get_loops-rest :
    (k : ℕ) (p : EventLoopThreadPool)
    → p.next + suc k ≡ length p.loops
    → get_loops (suc k) p ≡ (map some (drop p.next p.loops), record p { next = 0 })
unfolding get_loops
get_loops-rest zero p l =
    let (x, (e, d)) = drop-elem p.next p.loops (omega arith) in
    get_loops-here 0 p x 0 e (ground arith)
    ∙ ap (λ t. (some x ∷ map some t, record p { next = 0 }))
        (sym (drop_of_length-le (suc p.next) p.loops (omega arith)))
    ∙ ap (λ t. (map some t, record p { next = 0 })) (sym d)
get_loops-rest (suc k) p l =
    let (x, (e, d)) = drop-elem p.next p.loops (omega arith) in
    get_loops-here (suc k) p x (suc p.next) e (ground arith)
    ∙ ap (λ r. (some x ∷ r.0, r.1))
        (get_loops-rest k (record p { next = suc p.next }) (omega arith))
    ∙ ap (λ t. (map some t, record p { next = 0 })) (sym d)

-- With one or more loops and the first one next, as many calls as there are loops give each of them
-- once, in order, and the first one is next again.
pub get_loops-length :
    (p : EventLoopThreadPool)
    → 1 ≤ length p.loops
    → p.next ≡ 0
    → get_loops (length p.loops) p ≡ (map some p.loops, p)
get_loops-length p h e =
    subst (λ n. get_loops n p ≡ (map some p.loops, p)) (omega arith)
      (get_loops-rest (length p.loops - 1) p (omega arith)
        ∙ ap (λ n. (map some (drop n p.loops), record p { next = 0 })) e
        ∙ ap (λ n. (map some p.loops, record p { next = n })) (sym e))
