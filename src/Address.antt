-- ===== src/Address.antt =====
-- `std::net::SocketAddr` as the configuration reads it: `from_str` of the standard library, for IPv4
-- and IPv6, and `Display` of an IPv4 address with its port. A text is its code points. A parser gives
-- what it has read and the rest of the text, or nothing, and then the text is as it was.
pub mod RoundTrip
use aggbook.Prelude.{
  ℕ, zero, suc, ◌+◌, ◌-◌, ◌*◌, ◌<◌, Bool, true, false, Option, none, some, unwrap_or, List, [], ◌∷◌,
  ◌++◌, length, replicate, ltb, ◌==◌, if◌then◌else◌,
}
use aggbook.Decimal.{decimal, read_number}

pub record Ipv4Addr : Type 0 where
  pub a : ℕ
  pub b : ℕ
  pub c : ℕ
  pub d : ℕ

-- The eight groups of an IPv6 address are numbers below 2 ^ 16.
pub data SocketAddr : Type 0 where
  v4 : Ipv4Addr → ℕ → SocketAddr
  v6 : List ℕ → ℕ → ℕ → SocketAddr

abbrev pub Parser : Type 0 → Type 0
Parser A = List ℕ → Option (A × List ℕ)

infixl 5 ◌>>=◌
abbrev pub ◌>>=◌ : {A B : Type 0} → Parser A → (A → Parser B) → Parser B
◌>>=◌ p f cs = elim (p cs) [ none ↦ none | some (a, rest) ↦ f a rest ]

abbrev pub give : {A : Type 0} → A → Parser A
give a cs = some (a, cs)

abbrev pub fail : {A : Type 0} → Parser A
fail cs = none

abbrev pub read_given_char : ℕ → Parser ℕ
read_given_char expected [] = none
read_given_char expected (c ∷ cs) = if c == expected then some (c, cs) else none

-- `read_separator`: before the first item there is none.
abbrev pub read_separator : {A : Type 0} → ℕ → Bool → Parser A → Parser A
read_separator sep first p cs = if first then p cs else (read_given_char sep >>= λ _. p) cs

abbrev pub read_octet : Parser ℕ
read_octet = read_number 10 (some 3) false 255

unfoldable pub read_ipv4_addr : Parser Ipv4Addr
unfolding read_number
read_ipv4_addr = do
  a ← read_octet
  b ← read_separator b'.' false read_octet
  c ← read_separator b'.' false read_octet
  d ← read_separator b'.' false read_octet
  give (record { a = a; b = b; c = c; d = d })

-- `read_groups`: the groups that are left to read, and whether an IPv4 address was the end of them.
pub read_groups : ℕ → Bool → List ℕ → List ℕ × Bool × List ℕ
unfolding read_ipv4_addr read_number
read_groups zero first cs = ([], false, cs)
read_groups (suc left) first cs =
    elim (if ltb 0 left then read_separator b':' first read_ipv4_addr cs else none) [
      | some (ip, rest) ↦ ((ip.a * 256 + ip.b) ∷ (ip.c * 256 + ip.d) ∷ [], true, rest)
      | none ↦ elim (read_separator b':' first (read_number 16 (some 4) true 65535) cs) [
        | none ↦ ([], false, cs)
        | some (g, rest) ↦
            let (gs, embedded, rest') = read_groups left false rest in (g ∷ gs, embedded, rest')
      ]
    ]

-- The groups behind `::`, which stands for at least one group of zero.
abbrev pub with_tail : List ℕ → List ℕ × Bool × List ℕ → Option (List ℕ × List ℕ)
with_tail head (tail, _, rest) =
    some (head ++ replicate (8 - length head - length tail) 0 ++ tail, rest)

abbrev pub after_head : List ℕ × Bool × List ℕ → Option (List ℕ × List ℕ)
after_head (head, embedded, rest) =
    if length head == 8
    then some (head, rest)
    else if embedded
    then none
    else (read_given_char b':' >>= λ _. read_given_char b':' >>= λ _ cs.
          with_tail head (read_groups (8 - (length head + 1)) true cs))
        rest

unfoldable pub read_ipv6_addr : Parser (List ℕ)
unfolding read_groups
read_ipv6_addr cs = after_head (read_groups 8 true cs)

abbrev pub read_port : Parser ℕ
read_port = read_given_char b':' >>= λ _. read_number 10 none true 65535

-- `read_scope_id().unwrap_or(0)`.
abbrev pub read_scope_id : Parser ℕ
read_scope_id cs = elim ((read_given_char b'%' >>= λ _. read_number 10 none true 4294967295) cs) [
  | none ↦ some (0, cs)
  | some r ↦ some r
]

unfoldable pub read_socket_addr_v4 : Parser SocketAddr
read_socket_addr_v4 = do ip ← read_ipv4_addr; port ← read_port; give (v4 ip port)

unfoldable pub read_socket_addr_v6 : Parser SocketAddr
read_socket_addr_v6 = do
  _ ← read_given_char b'['
  groups ← read_ipv6_addr
  scope ← read_scope_id
  _ ← read_given_char b']'
  port ← read_port
  give (v6 groups scope port)

-- The text has to end there.
abbrev pub whole : {A : Type 0} → Option (A × List ℕ) → Option A
whole (some (a, [])) = some a
whole _ = none

unfoldable pub parse_socket_addr : List ℕ → Option SocketAddr
parse_socket_addr cs = elim (read_socket_addr_v4 cs) [
  | some r ↦ whole (some r)
  | none ↦ whole (read_socket_addr_v6 cs)
]

-- `to_string` of an IPv4 address.
abbrev pub dotted : Ipv4Addr → List ℕ
dotted ip = decimal ip.a ++ b'.' ∷ (decimal ip.b ++ b'.' ∷ (decimal ip.c ++ b'.' ∷ decimal ip.d))
