-- ===== src/Server/Conns.antt =====
-- closeIdleConns of stratum/server/server.go. The order in which Go ranges over the map of connections
-- makes no difference to what is closed.
pub mod Idle
use stratumserver.Prelude.{
  ℕ, ◌==◌, Bool, true, false, not, ◌&&◌, ◌||◌, List, [], ◌∷◌, if◌then◌else◌,
}
use stratumserver.Prelude.Int.{ℤ, pos, ltb_ℤ}
use stratumserver.Prelude.Int64.{sub64}
use stratumserver.Vardiff.Ring.{eqb_ℤ}
use stratumserver.Server.{Server, get_state, delete, state_new, state_idle}

-- Whether the loop keeps the connection: it is neither idle nor new for more than five seconds, or
-- its word has no time yet.
unfoldable pub is_busy : Server → ℤ → ℕ → Bool
is_busy s now c =
    let (st, unix_sec) = get_state s c in
    let st' = if eqb_ℤ st state_new && ltb_ℤ unix_sec (sub64 now (pos 5)) then state_idle else st in
    not (eqb_ℤ st' state_idle) || eqb_ℤ unix_sec (pos 0)

pub record Sweep : Type 0 where
  pub active : List ℕ
  pub closed : List ℕ
  pub quiescent : Bool

-- `for c := range s.activeConn`, over the connections that are left.
unfoldable pub sweep_loop : Server → ℤ → List ℕ → Sweep → Sweep
sweep_loop s now [] w = w
sweep_loop s now (c ∷ cs) w = sweep_loop s now cs (
    if is_busy s now c
    then record w { quiescent = false }
    else record w { active = delete c w.active; closed = c ∷ w.closed })

unfoldable pub close_idle_conns : Server → ℤ → Server × Sweep
close_idle_conns s now =
    let w =
      sweep_loop s now s.active_conn
        (record { active = s.active_conn; closed = []; quiescent = true }) in
    (record s { active_conn = w.active }, w)
