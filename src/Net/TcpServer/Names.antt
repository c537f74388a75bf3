-- ===== src/Net/TcpServer/Names.antt =====
-- No two connections of a server have the same name.
use ai_chat_server.Base.{
  ◌≡◌, refl, sym, ap, ◌∙◌, ℕ, suc, ◌≤◌, ◌<◌, ◌^◌, ◌%◌, true, none, Bytes, List, [], ◌∷◌, ◌++◌,
  length, length-append, take, take_of_length-le, drop, drop-append_length, bytes_eq, bytes_eq_iff,
  c_str, codes, ltb, arith, Bool-cases, inl, inr,
}
use ai_chat_server.Base.Decimal.{to_decimal, digits_value}
use ai_chat_server.Base.Decimal.Laws.{length-to_decimal-le, digits_value-to_decimal}
use ai_chat_server.Net.TcpServer.{
  AcceptResult, accept_failed, accepted, handle_accept, TcpServer, Connection, new_server, int_text,
  conn_name, find_connection, erase_connection, new_connection, remove_connection_in_loop,
}

append-cancel : (xs ys zs : Bytes) → xs ++ ys ≡ xs ++ zs → ys ≡ zs
append-cancel xs ys zs h =
    sym (drop-append_length (length xs) xs ys refl)
    ∙ ap (drop (length xs)) h
    ∙ drop-append_length (length xs) xs zs refl

to_decimal-injective : (i j : ℕ) → to_decimal i ≡ to_decimal j → i ≡ j
to_decimal-injective i j h =
    sym (digits_value-to_decimal i) ∙ ap (digits_value 0) h ∙ digits_value-to_decimal j

-- Below 2 ^ 31 an int is printed as it is.
int_text-small : (i : ℕ) → i < 2 ^ 31 → int_text i ≡ to_decimal i
unfolding int_text
int_text-small i k =
    let same : i % 2 ^ 32 ≡ i = omega arith in
    let small : ltb i (2 ^ 31) ≡ true = ground arith in rw same (rw small refl)

-- The printed part is short enough to be printed whole.
conn_name-whole :
    (name ip : Bytes) (i : ℕ)
    → length (c_str ip) ≤ 41
    → i < 2 ^ 31
    → conn_name name ip i ≡ name ++ (codes "-" ++ (c_str ip ++ (codes "#" ++ to_decimal i)))
unfolding conn_name
conn_name-whole name ip i h k =
    ap (λ t. name ++ take 63 (codes "-" ++ (c_str ip ++ (codes "#" ++ t)))) (int_text-small i k)
    ∙ ap (λ t. name ++ t)
        (take_of_length-le 63 (codes "-" ++ (c_str ip ++ (codes "#" ++ to_decimal i))) (
          omega (
            arith,
            length-append (c_str ip) (codes "#" ++ to_decimal i),
            length-to_decimal-le i (omega arith),
          )))

pub conn_name-injective :
    (name ip : Bytes) (i j : ℕ)
    → length (c_str ip) ≤ 41
    → i < 2 ^ 31
    → j < 2 ^ 31
    → conn_name name ip i ≡ conn_name name ip j
    → i ≡ j
conn_name-injective name ip i j h k l e = to_decimal-injective i j (
    append-cancel (codes "#") (to_decimal i) (to_decimal j) (
      append-cancel (c_str ip) (codes "#" ++ to_decimal i) (codes "#" ++ to_decimal j) (
        append-cancel (codes "-") (c_str ip ++ (codes "#" ++ to_decimal i))
          (c_str ip ++ (codes "#" ++ to_decimal j))
          (append-cancel name (codes "-" ++ (c_str ip ++ (codes "#" ++ to_decimal i)))
            (codes "-" ++ (c_str ip ++ (codes "#" ++ to_decimal j)))
            (sym (conn_name-whole name ip i h k) ∙ e ∙ conn_name-whole name ip j h l)))))

-- Every connection stands under its own name, which has a number that has been given out.
abbrev pub Numbered : Bytes → Bytes → ℕ → List (Bytes × Connection) → Type 0
Numbered name ip next [] = Unit {0}
Numbered name ip next ((n, c) ∷ cs) =
    ((i : ℕ) × ((i < next) × (n ≡ conn_name name ip i) × (c.name ≡ n))) × Numbered name ip next cs

Numbered-later :
    (name ip : Bytes) (next : ℕ) (cs : List (Bytes × Connection))
    → Numbered name ip next cs
    → Numbered name ip (suc next) cs
Numbered-later name ip next [] h = h
Numbered-later name ip next ((n, c) ∷ cs) ((i, (l, e, f)), h) =
    ((i, (omega arith, e, f)), Numbered-later name ip next cs h)

Numbered-erase :
    (name ip : Bytes) (next : ℕ) (k : Bytes) (cs : List (Bytes × Connection))
    → Numbered name ip next cs
    → Numbered name ip next (erase_connection k cs)
unfolding erase_connection
Numbered-erase name ip next k [] h = h
Numbered-erase name ip next k ((n, c) ∷ cs) (e, h) = elim (Bool-cases (bytes_eq n k)) [
  | inl same ↦ rw same (Numbered-erase name ip next k cs h)
  | inr other ↦ rw other (e, Numbered-erase name ip next k cs h)
]

find-Numbered :
    (name ip : Bytes) (next bound : ℕ) (cs : List (Bytes × Connection))
    → length (c_str ip) ≤ 41
    → bound < 2 ^ 31
    → next ≤ bound
    → Numbered name ip next cs
    → find_connection (conn_name name ip bound) cs ≡ none
unfolding find_connection
find-Numbered name ip next bound [] h k l num = refl
find-Numbered name ip next bound ((n, c) ∷ cs) h k l ((i, (m, e, f)), num) =
    elim (Bool-cases (bytes_eq n (conn_name name ip bound))) [
      | inl same ↦
          let clash : i ≡ bound =
            conn_name-injective name ip i bound h (omega arith) k
              (sym e ∙ (bytes_eq_iff n (conn_name name ip bound)).0 same) in
          absurd (omega arith)
      | inr other ↦ rw other (find-Numbered name ip next bound cs h k l num)
    ]

-- What happens to the map: connections come and go.
pub data Op : Type 0 where
  accepting : (r : AcceptResult) → Op
  removing : (c : Connection) → Op

unfoldable pub step : Op → TcpServer → TcpServer
step (accepting r) s = handle_accept r s
step (removing c) s = remove_connection_in_loop c s

unfoldable pub run : List Op → TcpServer → TcpServer
run [] s = s
run (o ∷ os) s = run os (step o s)

record InOrder (name ip : Bytes) (s : TcpServer) : Type 0 where
  same_name : s.name ≡ name
  same_ip : s.ip_port ≡ ip
  numbered : Numbered name ip s.next_conn_id s.connections

step-InOrder :
    (o : Op) (name ip : Bytes) (s : TcpServer) → InOrder name ip s → InOrder name ip (step o s)
unfolding step handle_accept new_connection remove_connection_in_loop
step-InOrder (accepting (accept_failed errno)) name ip s h = h
step-InOrder (accepting (accepted sockfd)) name ip s h = record {
  same_name = h.same_name;
  same_ip = h.same_ip;
  numbered = (
    (
      s.next_conn_id,
      (
        omega arith,
        ap (λ t. conn_name t s.ip_port s.next_conn_id) h.same_name
            ∙ ap (λ t. conn_name name t s.next_conn_id) h.same_ip,
        refl,
      ),
    ),
    Numbered-erase name ip (suc s.next_conn_id) (conn_name s.name s.ip_port s.next_conn_id)
        s.connections (Numbered-later name ip s.next_conn_id s.connections h.numbered),
  );
}
step-InOrder (removing c) name ip s h = record {
  same_name = h.same_name;
  same_ip = h.same_ip;
  numbered = Numbered-erase name ip s.next_conn_id c.name s.connections h.numbered;
}

run-InOrder :
    (os : List Op) (name ip : Bytes) (s : TcpServer)
    → InOrder name ip s
    → InOrder name ip (run os s)
unfolding run
run-InOrder [] name ip s h = h
run-InOrder (o ∷ os) name ip s h = run-InOrder os name ip (step o s) (step-InOrder o name ip s h)

-- Whatever connections have come and gone: a new connection gets a name that no connection of the
-- server has, as long as the address has at most 41 characters and the count is below 2 ^ 31, so it
-- replaces none.
pub run-fresh_name :
    (os : List Op) (loop : ℕ) (ip name : Bytes)
    → let s = run os (new_server loop ip name) in
      length (c_str ip) ≤ 41
      → s.next_conn_id < 2 ^ 31
      → find_connection (conn_name name ip s.next_conn_id) s.connections ≡ none
unfolding new_server
run-fresh_name os loop ip name h k =
    let s = run os (new_server loop ip name) in
    let o =
      run-InOrder os name ip (new_server loop ip name)
        (record { same_name = refl; same_ip = refl; numbered = tt }) in
    find-Numbered name ip s.next_conn_id s.next_conn_id s.connections h k (omega arith) o.numbered
