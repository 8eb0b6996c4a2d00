-- ===== src/Config/Laws.antt =====
-- Which address the configuration takes.
use mathlib.Core.Option
use aggbook.Prelude.{ℕ, ◌<◌, ◌≡◌, refl, ap, ◌∙◌, Option, none, some, unwrap_or, ◌∷◌, ◌++◌, codes}
use aggbook.Address.{Ipv4Addr, v4, parse_socket_addr, dotted}
use aggbook.Address.RoundTrip.{IsByte, parse_socket_addr-dotted}
use aggbook.Decimal.{decimal}
use aggbook.Config.{loaded, config_of, try_from}

abbrev pub localhost : Ipv4Addr
localhost = record { a = 127; b = 0; c = 0; d = 1 }

dotted-localhost : codes "127.0.0.1" ≡ dotted localhost
unfolding decimal
dotted-localhost = refl

interface :
    (o : Option Ipv4Addr)
    → unwrap_or (codes "127.0.0.1") (Option.map dotted o) ≡ dotted (unwrap_or localhost o)
interface none = dotted-localhost
interface (some ip) = refl

-- Every IPv4 interface is taken in its usual text, with every port, and without an interface the
-- server listens on 127.0.0.1.
pub try_from-dotted :
    (o : Option Ipv4Addr) (port : ℕ)
    → IsByte (unwrap_or localhost o)
    → port < 65536
    → try_from (record { port = port; listen_interface = Option.map dotted o })
      ≡ loaded (record { network = record { bind_addr = v4 (unwrap_or localhost o) port } })
unfolding try_from
try_from-dotted o port w h =
    ap (λ s. config_of (s ++ b':' ∷ decimal port) (parse_socket_addr (s ++ b':' ∷ decimal port)))
      (interface o)
    ∙ ap (config_of (dotted (unwrap_or localhost o) ++ b':' ∷ decimal port))
        (parse_socket_addr-dotted (unwrap_or localhost o) port w h)
