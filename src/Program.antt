-- ===== src/Program.antt =====
-- main2.go: the arguments, the context of ctx/ and the routine of the server, put together. What
-- nxs-go-appctx does is given by the events: at a signal to reload it calls Reload of the context and
-- may tell the routine; at a signal to terminate it ends the context of the routine.
pub mod Configured
mod Tests
use stratumserver.Prelude.{ℕ, Bool, true, false, List, [], ◌∷◌, Option, none, some, if◌then◌else◌}
use stratumserver.Ctx.{
  ConfOpts, Flags, Start, exits_after_help, exits_after_version, config_path, args_read, Load,
  Returned, init, reload,
}
use stratumserver.Routine.{Stopping, Signal, done, updated, Next, runtime}

pub data Event : Type 0 where
  reloading : Load → Bool → Stopping → Event
  terminating : Stopping → Event

-- What the routine gets of the events, with the configuration of the context at each.
unfoldable pub signals : List ℕ → ConfOpts → List Event → List Signal
unfolding reload
signals path conf [] = []
signals path conf (terminating st ∷ es) = done st ∷ []
signals path conf (reloading load tells st ∷ es) =
    let conf' : ConfOpts = (reload load path conf).conf in
    let rest : List Signal = signals path conf' es in
    if tells then updated conf' st ∷ rest else rest

-- The status of os.Exit, or what has become of Runtime.
pub data Program : Type 0 where
  exited : ℕ → Program
  ran : Option Next → Program

-- The context before Init.
abbrev pub no_conf : ConfOpts
no_conf = record {
  bind = [];
  log_file = [];
  log_level = [];
  pid_file = [];
  client_max_body_size = [];
  tls = record { cert_file = []; key_file = [] };
}

-- `if err != nil { fmt.Println(err); os.Exit(1) }`, and the routine.
unfoldable pub create : List ℕ → List Event → ConfOpts → Option ℕ → Program
create path es conf (some e) = exited 1
create path es conf none = ran (runtime conf (signals path conf es))

unfoldable pub begin : Load → List Event → Start → Program
unfolding create init
begin load es exits_after_help = exited 0
begin load es exits_after_version = exited 0
begin load es (config_path path) =
    let r : Returned = init load path no_conf in create path es r.conf r.error

-- The arguments, what the file of the configuration holds at first, and what happens then.
unfoldable pub main : Flags → Load → List Event → Program
unfolding begin
main flags load es = begin load es (args_read flags)
