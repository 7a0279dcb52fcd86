-- ===== src/Ctx.antt =====
-- The application's context of ctx/: its arguments, its configuration, and the reload.
use stratumserver.Prelude.{
  ℕ, ◌≡◌, refl, ◌∙◌, Bool, List, [], ◌∷◌, Option, none, some, if◌then◌else◌,
}

pub record TlsConf : Type 0 where
  pub cert_file : List ℕ
  pub key_file : List ℕ

pub record ConfOpts : Type 0 where
  pub bind : List ℕ
  pub log_file : List ℕ
  pub log_level : List ℕ
  pub pid_file : List ℕ
  pub client_max_body_size : List ℕ
  pub tls : TlsConf

-- What getopt reads from the command line.
pub record Flags : Type 0 where
  pub help : Bool
  pub version : Bool
  pub conf_is_set : Bool
  pub conf_path : List ℕ

pub data Start : Type 0 where
  exits_after_help : Start
  exits_after_version : Start
  config_path : List ℕ → Start

-- `example.conf`
abbrev pub conf_path_default : List ℕ
conf_path_default = 101 ∷ 120 ∷ 97 ∷ 109 ∷ 112 ∷ 108 ∷ 101 ∷ 46 ∷ 99 ∷ 111 ∷ 110 ∷ 102 ∷ []

unfoldable pub args_read : Flags → Start
args_read f =
    if f.help
    then exits_after_help
    else if f.version
    then exits_after_version
    else config_path (if f.conf_is_set then f.conf_path else conf_path_default)

-- nxs-go-appctx's CfgData.
pub record CfgData : Type 0 where
  pub log_file : List ℕ
  pub log_level : List ℕ
  pub pid_file : List ℕ

abbrev pub no_data : CfgData
no_data = record { log_file = []; log_level = []; pid_file = [] }

-- The context, whose only field is its configuration, with what is returned: the data and the error.
pub record Returned : Type 0 where
  pub conf : ConfOpts
  pub data_ : CfgData
  pub error : Option ℕ

-- conf.Load of a path, at one time: what it filled in, and its error. A function of the load is what
-- the file holds then.
abbrev pub Load : Type 0
Load = List ℕ → ConfOpts × Option ℕ

unfoldable pub conf_read : Load → List ℕ → ConfOpts × Option ℕ
conf_read load conf_path = load conf_path

abbrev pub set_conf : ConfOpts → ConfOpts × Option ℕ → Returned
set_conf old (conf, some e) = record { conf = old; data_ = no_data; error = some e }
set_conf old (conf, none) = record {
  conf = conf;
  data_ = record { log_file = conf.log_file; log_level = conf.log_level; pid_file = conf.pid_file };
  error = none;
}

unfoldable pub init : Load → List ℕ → ConfOpts → Returned
unfolding conf_read
init load path c = set_conf c (conf_read load path)

unfoldable pub reload : Load → List ℕ → ConfOpts → Returned
unfolding init
reload load path c = init load path c

-- The context after some reloads, the file being another at each.
unfoldable pub reloads : List ℕ → List Load → ConfOpts → ConfOpts
unfolding reload
reloads path [] c = c
reloads path (load ∷ loads) c = reloads path loads (reload load path c).conf

-- The configurations that were read without an error.
abbrev pub good : ConfOpts × Option ℕ → List ConfOpts → List ConfOpts
good (conf, none) cs = conf ∷ cs
good (conf, some e) cs = cs

unfoldable pub good_confs : List ℕ → List Load → List ConfOpts
good_confs path [] = []
good_confs path (load ∷ loads) = good (load path) (good_confs path loads)

unfoldable pub last_or : ConfOpts → List ConfOpts → ConfOpts
last_or c [] = c
last_or c (d ∷ ds) = last_or d ds

pub step :
    (c : ConfOpts) (r : ConfOpts × Option ℕ) (cs : List ConfOpts)
    → last_or (set_conf c r).conf cs ≡ last_or c (good r cs)
unfolding last_or
step c (conf, none) cs = refl
step c (conf, some e) cs = refl

-- After any reloads the context has the configuration that was read last without an error, or its
-- first one if there was none: a reload that fails changes nothing.
pub reloads-last_or :
    (path : List ℕ) (loads : List Load) (c : ConfOpts)
    → reloads path loads c ≡ last_or c (good_confs path loads)
unfolding reloads reload init conf_read good_confs last_or
reloads-last_or path [] c = refl
reloads-last_or path (load ∷ loads) c =
    reloads-last_or path loads _ ∙ step c (load path) (good_confs path loads)
