-- ===== src/Config.antt =====
-- crates/aggserver/src/config.rs: the command line and the address that it stands for. `clap` reads
-- the command line; here a `Cli` is what it has read. A text is its code points.
pub mod Laws
use aggbook.Prelude.{ℕ, String, Option, none, some, unwrap_or, List, [], ◌∷◌, ◌++◌, codes}
use aggbook.Address.{SocketAddr, parse_socket_addr}
use aggbook.Decimal.{decimal}

-- The default of `port` is `default_port`; it is a `u16`.
pub record Cli : Type 0 where
  pub port : ℕ
  pub listen_interface : Option (List ℕ)

abbrev pub default_port : ℕ
default_port = 50051

pub record NetworkConfig : Type 0 where
  pub bind_addr : SocketAddr

pub record AppConfig : Type 0 where
  pub network : NetworkConfig

pub data AppConfigError : Type 0 where
  invalid_bind_addr : List ℕ → AppConfigError

-- `Display`.
abbrev pub message : AppConfigError → List ℕ
message (invalid_bind_addr s) = codes "Invalid bind address: " ++ s

pub data ConfigResult : Type 0 where
  loaded : AppConfig → ConfigResult
  refused : AppConfigError → ConfigResult

abbrev pub addr_str : Cli → List ℕ
addr_str cli = unwrap_or (codes "127.0.0.1") cli.listen_interface ++ b':' ∷ decimal cli.port

abbrev pub config_of : List ℕ → Option SocketAddr → ConfigResult
config_of s none = refused (invalid_bind_addr s)
config_of s (some addr) = loaded (record { network = record { bind_addr = addr } })

unfoldable pub try_from : Cli → ConfigResult
try_from cli = config_of (addr_str cli) (parse_socket_addr (addr_str cli))
