-- ===== src/Server/Tls.antt =====
-- cloneTLSConfig, ServeTLS and ListenAndServeTLS of stratum/server/server.go. A certificate is a number.
pub mod Closed
use stratumserver.Prelude.{
  ℕ, ◌+◌, Bool, true, false, not, ◌||◌, List, [], ◌∷◌, Option, none, some, if◌then◌else◌, ◌>>=◌,
  ◌⊎◌, inl, inr,
}
use stratumserver.Server.{Server, shutting_down}
use stratumserver.Server.Accept.{Arrival, Accepting, Outcome, server_closed, failed, serving, serve}

-- The fields of crypto/tls's Config that the code reads or sets; the rest is one number.
pub record TlsConfig : Type 0 where
  pub certificates : List ℕ
  pub get_certificate : Option ℕ
  pub other : ℕ

abbrev pub zero_config : TlsConfig
zero_config = record { certificates = []; get_certificate = none; other = 0 }

unfoldable pub clone_tls_config : Option TlsConfig → TlsConfig
clone_tls_config none = zero_config
clone_tls_config (some cfg) = cfg

abbrev pub is_empty {ℓ} : {A : Type ℓ} → List A → Bool
is_empty [] = true
is_empty (x ∷ xs) = false

abbrev pub is_set : Option ℕ → Bool
is_set none = false
is_set (some f) = true

unfoldable pub config_has_cert : TlsConfig → Bool
config_has_cert config = not (is_empty config.certificates) || is_set config.get_certificate

-- What net.Listen, tls.LoadX509KeyPair and the listener's Close give: a value or an error.
pub record Network : Type 0 where
  pub listen : List ℕ → ℕ ⊎ ℕ
  pub load_x509_key_pair : List ℕ → List ℕ → ℕ ⊎ ℕ
  pub tls_listener : ℕ → TlsConfig → ℕ
  pub close_answer : Option ℕ
  -- What other goroutines do to the server during net.Listen and LoadX509KeyPair.
  pub meanwhile : Server → Server

-- The configuration of the TLS listener, or the error of the files.
abbrev with_pair : TlsConfig → ℕ ⊎ ℕ → TlsConfig ⊎ ℕ
with_pair config (inl pair) = inl (record config { certificates = pair ∷ [] })
with_pair config (inr e) = inr e

module _ (net : Network) where
  unfoldable pub listener_config : Option TlsConfig → List ℕ → List ℕ → TlsConfig ⊎ ℕ
  unfolding clone_tls_config config_has_cert
  listener_config tls_config cert_file key_file =
      let config = clone_tls_config tls_config in
      if not (config_has_cert config) || (not (is_empty cert_file) || not (is_empty key_file))
      then with_pair config (net.load_x509_key_pair cert_file key_file)
      else inl config

  -- The error, how often the listener inside was closed, and what Serve left, if it was called.
  pub record Tls : Type 0 where
    pub outcome : Outcome
    pub closes : ℕ
    pub accepting : Option Accepting

  abbrev refused : Outcome → Tls
  refused o = record { outcome = o; closes = 0; accepting = none }

  -- The TLS listener's Close closes the listener inside.
  abbrev after_serve : Accepting × Outcome → Tls
  after_serve (a, o) = record { outcome = o; closes = a.listener.closes; accepting = some a }

  unfoldable pub serve_over : Server → ℕ → List Arrival → TlsConfig ⊎ ℕ → Option Tls
  serve_over s ln ps (inr e) = some (refused (failed e))
  serve_over s ln ps (inl config) = do
    r ← serve net.close_answer s (net.tls_listener ln config) ps
    some (after_serve r)

  -- ServeTLS, with the field TLSConfig of the server.
  unfoldable pub serve_tls :
      Server → Option TlsConfig → ℕ → List ℕ → List ℕ → List Arrival → Option Tls
  unfolding listener_config serve_over
  serve_tls s tls_config ln cert_file key_file ps =
      serve_over s ln ps (listener_config tls_config cert_file key_file)

  -- `:https`
  abbrev pub default_tls_addr : List ℕ
  default_tls_addr = 58 ∷ 104 ∷ 116 ∷ 116 ∷ 112 ∷ 115 ∷ []

  abbrev pub tls_addr_or_default : List ℕ → List ℕ
  tls_addr_or_default [] = default_tls_addr
  tls_addr_or_default (c ∷ cs) = c ∷ cs

  abbrev is_serving : Outcome → Bool
  is_serving server_closed = false
  is_serving (failed e) = false
  is_serving serving = true

  -- `defer ln.Close()`, which runs when ServeTLS has returned.
  abbrev pub close_after : Tls → Tls
  close_after r = record r { closes = r.closes + (if is_serving r.outcome then 0 else 1) }

  abbrev listened : Server → Option TlsConfig → List ℕ → List ℕ → List Arrival → ℕ ⊎ ℕ → Option Tls
  listened s tls_config cert_file key_file ps (inr e) = some (refused (failed e))
  listened s tls_config cert_file key_file ps (inl ln) = do
    r ← serve_tls s tls_config ln cert_file key_file ps
    some (close_after r)

  unfoldable pub listen_and_serve_tls :
      Server → Option TlsConfig → List ℕ → List ℕ → List Arrival → Option Tls
  unfolding serve_tls
  listen_and_serve_tls s tls_config cert_file key_file ps =
      if shutting_down s
      then some (refused server_closed)
      else listened (net.meanwhile s) tls_config cert_file key_file ps
          (net.listen (tls_addr_or_default s.addr))
