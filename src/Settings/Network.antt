-- ===== src/Settings/Network.antt =====
-- The addresses of settings/utils.go, with the decimal numbers that fmt.Sprint writes.
use stratumserver.Prelude.Decimal.{decimal}
use stratumserver.Prelude.{ℕ, Bool, List, ◌∷◌, ◌++◌, if◌then◌else◌}

pub record NetworkConfig : Type 0 where
  pub host : List ℕ
  pub port : ℕ

pub record NetworkConfigBitcoin : Type 0 where
  pub host : List ℕ
  pub port : ℕ
  pub disable_tls : Bool

pub record RpcConfig : Type 0 where
  pub user : List ℕ
  pub pass : List ℕ
  pub network : NetworkConfig

-- `fmt.Sprint(host, ":", port)`, which puts no space beside a string.
unfoldable pub sprint_address : List ℕ → ℕ → List ℕ
sprint_address host port = host ++ 58 ∷ decimal port

unfoldable pub interface : NetworkConfig → List ℕ
unfolding sprint_address
interface nc = sprint_address nc.host nc.port

unfoldable pub bitcoin_interface : NetworkConfigBitcoin → List ℕ
unfolding sprint_address
bitcoin_interface nc = if nc.disable_tls then sprint_address nc.host nc.port else nc.host
