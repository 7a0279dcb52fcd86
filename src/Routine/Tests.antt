-- ===== src/Routine/Tests.antt =====
-- New settings and the end.
use stratumserver.Prelude.{◌≡◌, true, false, List, [], ◌∷◌, none, some, inl}
use stratumserver.Prelude.Int.{pos}
use stratumserver.Server.Shutdown.{Poll}
use stratumserver.Server.Accept.{Arrival, failure}
use stratumserver.Server.Tls.{Network}
use stratumserver.Ctx.{ConfOpts}
use stratumserver.Routine.{Stopping, Signal, done, updated, Next, runtime}
use stratumserver.Routine.Runs.{IsSingle, IsTold, routine_of, last_conf, runtime-IsSingle}

-- `:80`, without files and with them.
abbrev plain_conf : ConfOpts
plain_conf = record {
  bind = 58 ∷ 56 ∷ 48 ∷ [];
  log_file = [];
  log_level = [];
  pid_file = [];
  client_max_body_size = [];
  tls = record { cert_file = []; key_file = [] };
}

abbrev tls_conf : ConfOpts
tls_conf = record plain_conf { tls = record { cert_file = 99 ∷ []; key_file = 107 ∷ [] } }

abbrev poll : Poll
poll = record { before = λ s. s; between = λ s. s; now = pos 200; expired = false }

-- The listeners are closed without an error, or the first of them with one.
abbrev well : Stopping
well = record { meanwhile = λ s. s; answer = λ ln. none; polls = poll ∷ [] }

abbrev signals : List Signal
signals = updated tls_conf well ∷ updated plain_conf well ∷ done well ∷ []

runtime-IsSingle_example :
    (n : Next) × (runtime plain_conf signals ≡ some n)
    × IsSingle (routine_of n)
    × IsTold (last_conf plain_conf signals) n
runtime-IsSingle_example = runtime-IsSingle plain_conf signals

-- Listener 5, of which the TLS listener is 6.
abbrev net : Network
net = record {
  listen = λ addr. inl 5;
  load_x509_key_pair = λ cert key. inl 4;
  tls_listener = λ ln config. 6;
  close_answer = none;
  -- A Shutdown marks the server.
  meanwhile = λ s. record s { in_shutdown = true };
}

abbrev arrivals : List Arrival
arrivals =
    record { meanwhile = λ s. s; closing = false; now = pos 100; accepted = failure 4 true }
    ∷ record { meanwhile = λ s. s; closing = true; now = pos 102; accepted = failure 5 false }
    ∷ []
