-- ===== src/Net/InetAddress.antt =====
-- include/net/InetAddress.h and src/net/InetAddress.cc: an IPv4 address with its port, and its text.
-- The conversions of the C library are parameters.
use ai_chat_server.Base.{
  ℕ, ◌^◌, ◌≤◌, ◌<◌, Bytes, [], ◌∷◌, ◌++◌, length, length-append, c_str, codes, arith, ◌==◌,
  Bool-cases, inl, inr,
}
use ai_chat_server.Base.Decimal.{to_decimal}
use ai_chat_server.Base.Decimal.Laws.{length-to_decimal-digits}

-- sockaddr_in, in network order.
pub record InetAddress : Type 0 where
  pub sin_port : ℕ
  pub sin_addr : ℕ

module _ (htons : ℕ → ℕ) (inet_addr : Bytes → ℕ) where
  unfoldable pub new_inet_address : ℕ → Bytes → InetAddress
  new_inet_address port ip = record { sin_port = htons port; sin_addr = inet_addr ip }

module _ (ntohs : ℕ → ℕ) (inet_ntop : ℕ → Bytes) where
  unfoldable pub to_ip : InetAddress → Bytes
  to_ip a = inet_ntop a.sin_addr

  unfoldable pub to_ip_port : InetAddress → Bytes
  to_ip_port a = inet_ntop a.sin_addr ++ (codes ":" ++ to_decimal (ntohs a.sin_port))

  unfoldable pub to_port : InetAddress → ℕ
  to_port a = ntohs a.sin_port

length-c_str-le : (xs : Bytes) → length (c_str xs) ≤ length xs
unfolding c_str
length-c_str-le [] = omega arith
length-c_str-le (x ∷ xs) = elim (Bool-cases (x == 0)) [
  | inl zero_byte ↦ rw zero_byte (omega arith)
  | inr other ↦ rw other (omega (arith, length-c_str-le xs))
]

module _ (ntohs : ℕ → ℕ) (inet_ntop : ℕ → Bytes) (port_small : (n : ℕ) → ntohs n < 2 ^ 16)
    (ip_short : (n : ℕ) → length (inet_ntop n) ≤ 15) where
  -- The text of an address has at most 21 characters.
  pub to_ip_port-short : (a : InetAddress) → length (to_ip_port ntohs inet_ntop a) ≤ 21
  unfolding to_ip_port
  to_ip_port-short a = omega (
    arith,
    length-append (inet_ntop a.sin_addr) (codes ":" ++ to_decimal (ntohs a.sin_port)),
    ip_short a.sin_addr,
    length-to_decimal-digits 4 (ntohs a.sin_port) (omega (arith, port_small a.sin_port)),
  )

  pub c_str-to_ip_port-short :
      (a : InetAddress) → length (c_str (to_ip_port ntohs inet_ntop a)) ≤ 41
  c_str-to_ip_port-short a =
      omega (arith, length-c_str-le (to_ip_port ntohs inet_ntop a), to_ip_port-short a)
