-- ===== src/Settings.antt =====
-- The configuration of settings/configuration.go. A float64 and an address of jaxutil are only carried
-- along, so their types are parameters; a string is a list of bytes, and a map is an association list.
pub mod Network
pub mod Observer
mod Tests
use stratumserver.Prelude.{ℕ, Bool, true, List, [], false}
use stratumserver.Prelude.Int.{ℤ}
use stratumserver.Settings.Network.{NetworkConfigBitcoin, bitcoin_interface}

pub record Banning (F : Type 0) : Type 0 where
  pub enabled : Bool
  pub time : ℤ
  pub invalid_percent : F
  pub check_threshold : ℕ
  pub purge_interval : ℤ

pub record VarDiffOptions (F : Type 0) : Type 0 where
  pub min_diff : F
  pub max_diff : F
  pub target_time : ℤ
  pub retarget_time : ℤ
  pub variance_percent : F
  pub x2_mode : Bool

pub record Ports (F : Type 0) : Type 0 where
  pub port : List ℕ
  pub diff : F
  pub var_diff : VarDiffOptions F
  pub tls : Bool

pub record Stratum (F : Type 0) : Type 0 where
  pub banning : Banning F
  pub job_rebroadcast_timeout : ℤ
  pub tcp_proxy_protocol : Bool
  pub connection_timeout : ℤ
  pub ports : Ports F

pub record Bitcoin : Type 0 where
  pub params : List ℕ
  pub network : NetworkConfigBitcoin
  pub user : List ℕ
  pub pass : List ℕ
  pub extra_headers : List (List ℕ × List ℕ)

pub record NetworkOptions : Type 0 where
  pub name : List ℕ
  pub bitcoin : Bitcoin

pub record Configuration (F Address : Type 0) : Type 0 where
  pub debug : Bool
  pub num_cpu : ℤ
  pub network : NetworkOptions
  pub enable_stratum : Bool
  pub stratum : Stratum F
  pub enable_btc_mining : Bool
  pub btc_mining_address : Address

-- What the file of the configuration holds.
pub record Settings (F : Type 0) : Type 0 where
  pub debug : Bool
  pub num_cpu : ℤ
  pub enable_btc_mining : Bool
  pub btc_mining_address : List ℕ
  pub network : NetworkOptions
  pub enable_stratum : Bool
  pub stratum : Stratum F

-- The fields of btcd's rpcclient.ConnConfig that the code sets.
pub record ConnConfig : Type 0 where
  pub params : List ℕ
  pub host : List ℕ
  pub user : List ℕ
  pub pass : List ℕ
  pub disable_tls : Bool
  pub http_post_mode : Bool
  pub extra_headers : List (List ℕ × List ℕ)

module _ {F Address : Type 0} where
  unfoldable pub default_bitcoin_rpc_config : Configuration F Address → ConnConfig
  default_bitcoin_rpc_config s = record {
    params = s.network.bitcoin.params;
    host = [];
    user = [];
    pass = [];
    disable_tls = false;
    http_post_mode = true;
    extra_headers = [];
  }

  unfoldable pub bitcoin_rpc_conf : Configuration F Address → ConnConfig
  unfolding default_bitcoin_rpc_config
  bitcoin_rpc_conf s =
      let bitcoin : Bitcoin = s.network.bitcoin in
      record (default_bitcoin_rpc_config s) {
        params = bitcoin.params;
        host = bitcoin_interface bitcoin.network;
        user = bitcoin.user;
        pass = bitcoin.pass;
        disable_tls = bitcoin.network.disable_tls;
        extra_headers = bitcoin.extra_headers;
      }
