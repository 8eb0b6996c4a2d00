-- ===== src/Tests/Viewers.antt =====
-- Tests of the configuration and of the command-line client.

use aggbook.Prelude.{
  ℕ, ◌<◌, ◌≡◌, ◌≢◌, ◌↔◌, ◌^◌, ◌*◌, ◌++◌, refl, none, some, List, [], ◌∷◌, codes, ok, panic, true,
  false, arith,
}
use aggbook.Address.{
  v4, v6, Ipv4Addr, parse_socket_addr, read_socket_addr_v4, read_socket_addr_v6, read_ipv6_addr,
  dotted,
}
use aggbook.Config.{loaded, try_from}
use aggbook.Config.Laws.{try_from-dotted}
use aggbook.Decimal.{decimal}
use aggbook.Fixed.{format_f64, right, sign}
use aggbook.Fixed.Nearest.{IsRounded}
use aggbook.Fixed.Reading.{read_fixed}
use aggbook.Float.{units}
use aggbook.Nanos.{Duration}
use aggbook.Service.{item, into_grpc_stream}
use aggbook.Summary.{Level, Summary}
use aggbook.Viewer.{next, interrupted, done, first, row, display, run}
use aggbook.Viewer.Ending.{by_signal, streamed, run-Ends, run-into_grpc_stream}
use aggbook.Viewer.Printing.{display-panic_iff, row-IsRounded}
use aggbook.Tests.Sample.{number, one, two}

-- The parser takes an embedded IPv4 address and a scope, and refuses an octet with a zero in front.
addresses_run :
    (parse_socket_addr (codes "[::ffff:1.2.3.4%7]:80")
      ≡ some (v6 (0 ∷ 0 ∷ 0 ∷ 0 ∷ 0 ∷ 65535 ∷ 258 ∷ 772 ∷ []) 7 80))
    × (parse_socket_addr (codes "[1:2:3:4:5:6:7::]:1")
        ≡ some (v6 (1 ∷ 2 ∷ 3 ∷ 4 ∷ 5 ∷ 6 ∷ 7 ∷ 0 ∷ []) 0 1))
    × (parse_socket_addr (codes "01.2.3.4:80") ≡ none)
    × (parse_socket_addr (codes "1.2.3.4:65536") ≡ none)
unfolding parse_socket_addr read_socket_addr_v4 read_socket_addr_v6 read_ipv6_addr
addresses_run = (refl, refl, refl, refl)

abbrev everywhere : Ipv4Addr
everywhere = record { a = 0; b = 0; c = 0; d = 0 }

try_from-dotted_example :
    try_from (record { port = 8080; listen_interface = some (dotted everywhere) })
    ≡ loaded (record { network = record { bind_addr = v4 everywhere 8080 } })
try_from-dotted_example =
    try_from-dotted (some everywhere) 8080
      (record {
        a_fits = omega arith;
        b_fits = omega arith;
        c_fits = omega arith;
        d_fits = omega arith;
      })
      (omega arith)

-- The summary of the client's own test, and its text.
abbrev shown : Summary
shown = record {
  spread = number 4608238818662014491;
  bids =
      record { exchange = "exchangeA"; price = number 4637379297550804082; amount = one }
      ∷ record { exchange = "exchangeB"; price = number 4637361922552962758; amount = two }
      ∷ [];
  asks =
      record {
        exchange = "exchangeA";
        price = number 4637449666294981746;
        amount = number 4609434218613702656;
      }
      ∷ record {
        exchange = "exchangeB";
        price = number 4637573028785495750;
        amount = number 4612811918334230528;
      }
      ∷ [];
  arrival_time = 1000000000;
}

abbrev no_delay : Duration → List ℕ
no_delay d = codes "0s"

abbrev shown_text : List ℕ
shown_text =
    codes "Latency to now 0s:\nSpread: 1.23456789\nBids:\n"
    ++ codes "  109.12345678 :     1.0000 [exchangeA]\n"
    ++ codes "  108.87654321 :     2.0000 [exchangeB]\n"
    ++ codes "Asks:\n"
    ++ codes "  110.12345678 :     1.5000 [exchangeA]\n"
    ++ codes "  111.87654321 :     2.5000 [exchangeB]\n"

shown_runs : display true no_delay (some 1000000000) shown ≡ ok shown_text
unfolding display format_f64 units decimal
shown_runs = refl

abbrev first_level : Level
first_level = record {
  exchange = "binance";
  price = number 4589095962696497496;
  amount = number 4620130267728707584;
}

row-IsRounded_example :
    (p : ℕ) × (price : List ℕ) × (q : ℕ) × (amount : List ℕ) × (row first_level
      ≡ codes "  "
        ++ right 10 (sign false ++ price)
        ++ codes " : "
        ++ right 10 (sign false ++ amount)
        ++ codes " ["
        ++ codes "binance"
        ++ codes "]\n")
    × (read_fixed 8 price ≡ some p)
    × IsRounded (units 4589095962696497496 * 10 ^ 8) (2 ^ 1074) p
    × (read_fixed 4 amount ≡ some q)
    × IsRounded (units 4620130267728707584 * 10 ^ 4) (2 ^ 1074) q
row-IsRounded_example = row-IsRounded first_level (omega arith) (omega arith)

display-panic_iff_example :
    (display true no_delay (some 999999999) shown ≡ panic) ↔ (999999999 < shown.arrival_time)
display-panic_iff_example = display-panic_iff no_delay 999999999 shown (omega arith)

run-Ends_example :
    run true no_delay
      ((next (some 1000000000) (item shown) ∷ []) ++ interrupted ∷ next none (item shown) ∷ [])
      first
    ≡ record { printed = shown_text ∷ []; exit = done }
run-Ends_example =
    run-Ends true no_delay (next (some 1000000000) (item shown) ∷ []) (shown_text ∷ []) interrupted
      done (next none (item shown) ∷ []) ((some 1000000000, shown, refl, shown_runs), tt) by_signal

run-into_grpc_stream_example :
    (run true no_delay
      (streamed (λ i. some 1000000000) 0 (into_grpc_stream (item shown ∷ [])))
      first).exit
    ≢ done
run-into_grpc_stream_example =
    run-into_grpc_stream true no_delay (item shown ∷ []) (λ i. some 1000000000)
