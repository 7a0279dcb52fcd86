-- ===== src/Server/Names.antt =====
-- The names of the states and of the context keys of stratum/server/server.go.
use stratumserver.Prelude.{
  ℕ, ◌<◌, ◌^◌, ◌≡◌, ◌≢◌, ap, ◌++◌, List, [], ◌∷◌, some, ◌==◌, if◌then◌else◌,
}
use stratumserver.Prelude.Int.{ℤ, pos, negsuc}
use stratumserver.Server.{Server, set_state, get_state}
use stratumserver.Server.Packed.{get_state-set_state}

-- `stateName`, in which a key that the map does not have is the empty string.
abbrev named : ℕ → List ℕ
named n =
    if n == 0
    then 110 ∷ 101 ∷ 119 ∷ []
    else if n == 1
    then 97 ∷ 99 ∷ 116 ∷ 105 ∷ 118 ∷ 101 ∷ []
    else if n == 2
    then 105 ∷ 100 ∷ 108 ∷ 101 ∷ []
    else if n == 3
    then 99 ∷ 108 ∷ 111 ∷ 115 ∷ 101 ∷ 100 ∷ []
    else []

-- String of a state.
unfoldable pub state_name : ℤ → List ℕ
state_name (pos n) = named n
state_name (negsuc n) = []

-- String of a contextKey: `net/http context value ` and its name.
unfoldable pub context_key_string : List ℕ → List ℕ
context_key_string name =
    (110 ∷ 101 ∷ 116 ∷ 47 ∷ 104 ∷ 116 ∷ 116 ∷ 112 ∷ 32 ∷ 99 ∷ 111 ∷ 110 ∷ 116 ∷ 101 ∷ 120 ∷ 116 ∷ 32
      ∷ 118 ∷ 97 ∷ 108 ∷ 117 ∷ 101 ∷ 32 ∷ [])
    ++ name

-- `tcp-server` and `local-addr`
abbrev pub server_context_key : List ℕ
server_context_key = 116 ∷ 99 ∷ 112 ∷ 45 ∷ 115 ∷ 101 ∷ 114 ∷ 118 ∷ 101 ∷ 114 ∷ []

abbrev pub local_addr_context_key : List ℕ
local_addr_context_key = 108 ∷ 111 ∷ 99 ∷ 97 ∷ 108 ∷ 45 ∷ 97 ∷ 100 ∷ 100 ∷ 114 ∷ []

-- What String of the state that getState gives says after setState, for a state below 256 at a time
-- below 2^55, is what it says of the state that was set.
pub state_name-set_state :
    (s : Server) (t c n d : ℕ)
    → t < 2 ^ 55
    → n < 256
    → d ≢ c
    → (s' : Server) × (set_state s (pos t) c (pos n) ≡ some s')
      × (state_name (get_state s' c).0 ≡ state_name (pos n))
      × (state_name (get_state s' d).0 ≡ state_name (get_state s d).0)
state_name-set_state s t c n d ht hn ne =
    let (s', set, got, kept) = get_state-set_state s t c n d ht hn ne in
    (s', set, ap (λ p. state_name p.0) got, ap (λ p. state_name p.0) kept)
