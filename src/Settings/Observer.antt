-- ===== src/Settings/Observer.antt =====
-- settings/observer.go: the observer, its first configuration, and the list of the shards. An error is
-- a number. The code reads `Network.Shards.Discovering.Dynamic.Mode`, which settings/configuration.go
-- has commented out, so the mode is a parameter, a function of the settings.
pub mod Shards
pub mod Mode
use stratumserver.Prelude.{
  ℕ, Bool, true, false, not, ◌&&◌, ◌||◌, List, [], ◌∷◌, Option, none, some, ◌==◌, if◌then◌else◌,
  bytes_eq, length, ◌⊎◌, inl, inr,
}
use stratumserver.Prelude.Int.{ℤ, pos, ltb_ℤ}
use stratumserver.Settings.{Configuration, Settings}

-- jaxjson.ShardListResult: the map from the numbers of the shards to what is known of them.
pub record ShardListResult (Info : Type 0) : Type 0 where
  pub shards : List (ℕ × Info)

pub record Observer (F Address Info : Type 0) : Type 0 where
  -- which channel it is
  pub outgoing_configurations : ℕ
  pub config : Option (Configuration F Address)
  pub settings : Option (Settings F)
  pub cached_shards_response : Option (ShardListResult Info)

-- `conf.yaml`
abbrev pub default_path : List ℕ
default_path = 99 ∷ 111 ∷ 110 ∷ 102 ∷ 46 ∷ 121 ∷ 97 ∷ 109 ∷ 108 ∷ []

-- `once`, `periodically` and `off`
abbrev pub mode_once : List ℕ
mode_once = 111 ∷ 110 ∷ 99 ∷ 101 ∷ []

abbrev pub mode_periodically : List ℕ
mode_periodically = 112 ∷ 101 ∷ 114 ∷ 105 ∷ 111 ∷ 100 ∷ 105 ∷ 99 ∷ 97 ∷ 108 ∷ 108 ∷ 121 ∷ []

abbrev pub mode_off : List ℕ
mode_off = 111 ∷ 102 ∷ 102 ∷ []

pub data LoadError : Type 0 where
  not_read : ℕ → LoadError
  not_parsed : ℕ → LoadError
  invalid_mode : LoadError

-- What the code is given: the `-config` flag, if it is set, ioutil.ReadFile, yaml.Unmarshal, which may
-- have filled in a part when it fails, the mode, rpcclient.New on the parameters of the beacon chain,
-- and ListShards of the client.
pub record World (F Address Info : Type 0) : Type 0 where
  pub config_flag : Option (List ℕ)
  pub read_file : List ℕ → List ℕ ⊎ ℕ
  pub unmarshal : List ℕ → Settings F × Option ℕ
  pub mode : Settings F → List ℕ
  pub connect : Option (Configuration F Address) → ℕ ⊎ ℕ
  pub list_shards : ℕ → ShardListResult Info ⊎ ℕ

pub data Fetched (Info : Type 0) : Type 0 where
  fetched : List (ℕ × Info) → Fetched Info
  duplicated_response : Fetched Info
  fetch_error : ℕ → Fetched Info

abbrev or_default : Option (List ℕ) → List ℕ
or_default none = default_path
or_default (some path) = path

pub is_known_mode : List ℕ → Bool
is_known_mode mode = not (
    not (bytes_eq mode mode_once)
    && not (bytes_eq mode mode_periodically)
    && not (bytes_eq mode mode_off))

module _ {F Address Info : Type 0} (w : World F Address Info) where
  -- An observer, the argument of the last call of runtime.GOMAXPROCS, and the error.
  abbrev pub Loaded : Type 0
  Loaded = Observer F Address Info × ℤ × Option LoadError

  unfoldable pub parsed : Observer F Address Info → ℤ → Settings F × Option ℕ → Loaded
  unfolding is_known_mode
  parsed o procs (s, some e) = (record o { settings = some s }, procs, some (not_parsed e))
  parsed o procs (s, none) = (
    record o { settings = some s },
    if ltb_ℤ (pos 0) s.num_cpu then s.num_cpu else procs,
    if is_known_mode (w.mode s) then none else some invalid_mode,
  )

  abbrev read : Observer F Address Info → ℤ → List ℕ ⊎ ℕ → Loaded
  read o procs (inl data_) = parsed o procs (w.unmarshal data_)
  read o procs (inr e) = (o, procs, some (not_read e))

  unfoldable pub load_initial_config : Observer F Address Info → ℤ → Loaded
  unfolding parsed
  load_initial_config o procs = read o procs (w.read_file (or_default w.config_flag))

  -- NewObserver, with the channel that it makes.
  unfoldable pub new_observer : ℕ → ℤ → Loaded
  unfolding load_initial_config
  new_observer channel procs =
      load_initial_config
        (record {
          outgoing_configurations = channel;
          config = none;
          settings = none;
          cached_shards_response = none;
        })
        procs

  unfoldable pub configurations_flow : Observer F Address Info → ℕ
  configurations_flow o = o.outgoing_configurations

  -- `_, isPresent := m[k]`
  unfoldable pub is_present : ℕ → List (ℕ × Info) → Bool
  is_present k [] = false
  is_present k ((j, v) ∷ m) = k == j || is_present k m

  -- Whether the loop over the cached numbers finds each of them in the response.
  unfoldable pub all_present : List (ℕ × Info) → List (ℕ × Info) → Bool
  unfolding is_present
  all_present [] response = true
  all_present ((k, v) ∷ cached) response = is_present k response && all_present cached response

  unfoldable pub compare_shards :
      Option (ShardListResult Info) → ShardListResult Info → Fetched Info
  unfolding all_present
  compare_shards none response = fetched response.shards
  compare_shards (some cached) response =
      if not (length response.shards == length cached.shards)
      then fetched response.shards
      else if not (all_present cached.shards response.shards)
      then fetched response.shards
      else duplicated_response

  -- The deferred function stores the response whichever way it returns.
  abbrev listed :
      Observer F Address Info → ShardListResult Info ⊎ ℕ → Observer F Address Info × Fetched Info
  listed o (inr e) = (o, fetch_error e)
  listed o (inl response) = (
    record o { cached_shards_response = some response },
    compare_shards o.cached_shards_response response,
  )

  abbrev connected : Observer F Address Info → ℕ ⊎ ℕ → Observer F Address Info × Fetched Info
  connected o (inr e) = (o, fetch_error e)
  connected o (inl client) = listed o (w.list_shards client)

  unfoldable pub fetch_shards_info :
      Observer F Address Info → Observer F Address Info × Fetched Info
  unfolding compare_shards
  fetch_shards_info o = connected o (w.connect o.config)
