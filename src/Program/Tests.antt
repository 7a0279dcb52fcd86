-- ===== src/Program/Tests.antt =====
-- A reload that fails and one that does not.
use stratumserver.Prelude.{ℕ, ◌≡◌, refl, false, List, [], ◌∷◌, Option, none, some}
use stratumserver.Prelude.Int.{pos}
use stratumserver.Ctx.{
  ConfOpts, Flags, Load, config_path, args_read, conf_path_default, good_confs, last_or,
}
use stratumserver.Routine.{Stopping, Next}
use stratumserver.Routine.Runs.{IsSingle, IsTold, routine_of}
use stratumserver.Program.{main, ran}
use stratumserver.Program.Configured.{told_of, loads_of, main_configured}

abbrev conf : ConfOpts
conf = record {
  bind = 58 ∷ 56 ∷ 48 ∷ [];
  log_file = [];
  log_level = [];
  pid_file = [];
  client_max_body_size = [];
  tls = record { cert_file = []; key_file = [] };
}

abbrev other_conf : ConfOpts
other_conf = record conf { bind = 58 ∷ 56 ∷ 49 ∷ [] }

abbrev loads : ConfOpts → Option ℕ → Load
loads c e path = (c, e)

abbrev stop : Stopping
stop = record {
  meanwhile = λ s. s;
  answer = λ ln. none;
  polls = record { before = λ s. s; between = λ s. s; now = pos 200; expired = false } ∷ [];
}

abbrev reloads : List (Load × Stopping)
reloads = (loads other_conf none, stop) ∷ (loads conf (some 3), stop) ∷ []

abbrev flags : Flags
flags = record { help = false; version = false; conf_is_set = false; conf_path = [] }

reads_default : args_read flags ≡ config_path conf_path_default
unfolding args_read
reads_default = refl

main_configured_example :
    (n : Next) × (main flags (loads conf none) (told_of reloads) ≡ ran (some n))
    × IsSingle (routine_of n)
    × IsTold (last_or conf (good_confs conf_path_default (loads_of reloads))) n
main_configured_example =
    main_configured conf_path_default (loads conf none) reloads flags conf reads_default refl
