-- ===== src/Address/RoundTrip.antt =====
-- An IPv4 address with a port is read from its text.
use mathlib.Core.List.{append_assoc, append-nil}
use aggbook.Prelude.{
  ℕ, ◌<◌, ◌≤◌, ◌≡◌, refl, sym, ap, ◌∙◌, true, false, leb, Option, some, none, List, [], ◌∷◌, ◌++◌,
  length, arith,
}
use aggbook.Decimal.{decimal, to_digit, read_number}
use aggbook.Decimal.RoundTrip.{EndsDigits, read_number-decimal, length-decimal}
use aggbook.Address.{
  Ipv4Addr, SocketAddr, v4, Parser, ◌>>=◌, give, read_separator, read_octet, read_ipv4_addr,
  read_port, read_socket_addr_v4, read_socket_addr_v6, whole, parse_socket_addr, dotted,
}

-- Each part is a byte.
pub record IsByte (ip : Ipv4Addr) : Type 0 where
  pub a_fits : ip.a < 256
  pub b_fits : ip.b < 256
  pub c_fits : ip.c < 256
  pub d_fits : ip.d < 256

three_digits : (k : ℕ) → k ≤ 3 → leb k 3 ≡ true
three_digits k h = ground (arith, h)

read_octet-decimal :
    (n : ℕ) (cs : List ℕ) → n < 256 → EndsDigits cs → read_octet (decimal n ++ cs) ≡ some (n, cs)
read_octet-decimal n cs h e =
    read_number-decimal (some 3) false 255 n cs e (omega arith)
      (three_digits (length (decimal n)) (length-decimal 3 n (omega arith) (omega arith)))

-- The text of an address with more text behind it.
abbrev dotted_then : Ipv4Addr → List ℕ → List ℕ
dotted_then ip cs =
    decimal ip.a ++ b'.' ∷ (decimal ip.b ++ b'.' ∷ (decimal ip.c ++ b'.' ∷ (decimal ip.d ++ cs)))

dotted-append : (ip : Ipv4Addr) (cs : List ℕ) → dotted ip ++ cs ≡ dotted_then ip cs
dotted-append ip cs = simp append_assoc

point : to_digit 10 b'.' ≡ none
unfolding to_digit
point = refl

colon : to_digit 10 b':' ≡ none
unfolding to_digit
colon = refl

-- Four parsers, one after the other.
in_turn :
    (p q r s : Parser ℕ) (a b c d : ℕ) (t0 t1 t2 t3 t4 : List ℕ)
    → p t0 ≡ some (a, t1)
    → q t1 ≡ some (b, t2)
    → r t2 ≡ some (c, t3)
    → s t3 ≡ some (d, t4)
    → let all : Parser Ipv4Addr =
        p >>= λ a. q >>= λ b. r >>= λ c. s >>= λ d. give (record { a = a; b = b; c = c; d = d }) in
      all t0 ≡ some (record { a = a; b = b; c = c; d = d }, t4)
in_turn p q r s a b c d t0 t1 t2 t3 t4 h1 h2 h3 h4 = ground (arith, h1, h2, h3, h4)

read_ipv4_addr-dotted :
    (ip : Ipv4Addr) (cs : List ℕ)
    → IsByte ip
    → EndsDigits cs
    → read_ipv4_addr (dotted_then ip cs) ≡ some (ip, cs)
unfolding read_ipv4_addr
read_ipv4_addr-dotted ip cs w e =
    let dot = read_separator b'.' false read_octet in
    let last = b'.' ∷ (decimal ip.d ++ cs) in
    let third = b'.' ∷ (decimal ip.c ++ last) in
    let second = b'.' ∷ (decimal ip.b ++ third) in
    in_turn read_octet dot dot dot ip.a ip.b ip.c ip.d (decimal ip.a ++ second) second third last cs
      (read_octet-decimal ip.a second w.a_fits point) (read_octet-decimal ip.b third w.b_fits point)
      (read_octet-decimal ip.c last w.c_fits point) (read_octet-decimal ip.d cs w.d_fits e)

read_port-decimal : (port : ℕ) → port < 65536 → read_port (b':' ∷ decimal port) ≡ some (port, [])
read_port-decimal port h =
    ap (read_number 10 none true 65535) (sym (append-nil (decimal port)))
    ∙ read_number-decimal none true 65535 port [] tt (omega arith) refl

then_port :
    (p : Parser Ipv4Addr) (q : Parser ℕ) (ip : Ipv4Addr) (port : ℕ) (t0 t1 t2 : List ℕ)
    → p t0 ≡ some (ip, t1)
    → q t1 ≡ some (port, t2)
    → let both : Parser SocketAddr = p >>= λ ip. q >>= λ port. give (v4 ip port) in
      both t0 ≡ some (v4 ip port, t2)
then_port p q ip port t0 t1 t2 h1 h2 = ground (arith, h1, h2)

-- Every IPv4 address with any port is read from its text.
pub parse_socket_addr-dotted :
    (ip : Ipv4Addr) (port : ℕ)
    → IsByte ip
    → port < 65536
    → parse_socket_addr (dotted ip ++ b':' ∷ decimal port) ≡ some (v4 ip port)
unfolding parse_socket_addr read_socket_addr_v4
parse_socket_addr-dotted ip port w h =
    ap parse_socket_addr (dotted-append ip (b':' ∷ decimal port))
    ∙ ap
        (λ o. elim o as (λ _. Option SocketAddr) [
          | some r ↦ whole (some r)
          | none ↦ whole (read_socket_addr_v6 (dotted_then ip (b':' ∷ decimal port)))
        ])
        (then_port read_ipv4_addr read_port ip port (dotted_then ip (b':' ∷ decimal port))
          (b':' ∷ decimal port) [] (read_ipv4_addr-dotted ip (b':' ∷ decimal port) w colon)
          (read_port-decimal port h))
