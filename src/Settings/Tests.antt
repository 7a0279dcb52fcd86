-- ===== src/Settings/Tests.antt =====
-- The theorems on the settings at concrete inputs. The floats are units.
use stratumserver.Prelude.{ℕ, ◌≡◌, refl, ◌↔◌, true, false, [], ◌∷◌, none, some, inl}
use stratumserver.Prelude.Int.{pos}
use stratumserver.Settings.{Settings, Stratum, Bitcoin}
use stratumserver.Settings.Network.{NetworkConfig}
use stratumserver.Settings.Observer.{
  is_present, World, Observer, ShardListResult, mode_once, fetch_shards_info, duplicated_response,
}
use stratumserver.Settings.Observer.Shards.{IsMap, SameKeys, fetch_shards_info_duplicated}

-- `::1`, port 8333
abbrev node : NetworkConfig
node = record { host = 58 ∷ 58 ∷ 49 ∷ []; port = 8333 }

abbrev bitcoin : Bitcoin
bitcoin = record {
  params = [];
  network = record { host = 58 ∷ 58 ∷ 49 ∷ []; port = 8333; disable_tls = true };
  user = 117 ∷ [];
  pass = [];
  extra_headers = [];
}

abbrev stratum : Stratum Unit
stratum = record {
  banning = record {
    enabled = false;
    time = pos 0;
    invalid_percent = tt;
    check_threshold = 0;
    purge_interval = pos 0;
  };
  job_rebroadcast_timeout = pos 0;
  tcp_proxy_protocol = false;
  connection_timeout = pos 0;
  ports = record {
    port = [];
    diff = tt;
    var_diff = record {
      min_diff = tt;
      max_diff = tt;
      target_time = pos 0;
      retarget_time = pos 0;
      variance_percent = tt;
      x2_mode = false;
    };
    tls = false;
  };
}

abbrev settings : Settings Unit
settings = record {
  debug = false;
  num_cpu = pos 4;
  enable_btc_mining = true;
  btc_mining_address = [];
  network = record { name = []; bitcoin = bitcoin };
  enable_stratum = true;
  stratum = stratum;
}

abbrev response : ShardListResult ℕ
response = record { shards = (2, 20) ∷ (1, 11) ∷ [] }

abbrev before : ShardListResult ℕ
before = record { shards = (1, 10) ∷ (2, 20) ∷ [] }

abbrev world : World Unit Unit ℕ
world = record {
  config_flag = none;
  read_file = λ path. inl path;
  unmarshal = λ text. (settings, none);
  mode = λ s. mode_once;
  connect = λ config. inl 1;
  list_shards = λ client. inl response;
}

before-IsMap : IsMap world before.shards
unfolding IsMap is_present
before-IsMap = (refl, (refl, tt))

response-IsMap : IsMap world response.shards
unfolding IsMap is_present
response-IsMap = (refl, (refl, tt))

abbrev observer : Observer Unit Unit ℕ
observer = record {
  outgoing_configurations = 3;
  config = none;
  settings = some settings;
  cached_shards_response = some before;
}

fetch_shards_info_duplicated_example :
    ((fetch_shards_info world observer).0.cached_shards_response ≡ some response)
    × (((fetch_shards_info world observer).1 ≡ duplicated_response)
        ↔ SameKeys world before.shards response.shards)
fetch_shards_info_duplicated_example =
    fetch_shards_info_duplicated world observer 1 before response refl refl refl before-IsMap
      response-IsMap
