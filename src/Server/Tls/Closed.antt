-- ===== src/Server/Tls/Closed.antt =====
-- The certificate that ServeTLS serves with, and how often ListenAndServeTLS closes its listener.
use stratumserver.Prelude.{
  ◌>>=◌, if_either, ℕ, ◌≡◌, refl, ap, ◌∙◌, Bool, true, false, List, Option, none, some,
  if◌then◌else◌, ◌⊎◌, inl, inr, arith, Bool-cases,
}
use stratumserver.Server.{Server, member, shutting_down}
use stratumserver.Server.Accept.{Arrival, Accepting, Outcome, server_closed, failed, serving}
use stratumserver.Server.Accept.Returns.{serve_total, IsLeft}
use stratumserver.Server.Tls.{
  TlsConfig, Network, Tls, clone_tls_config, config_has_cert, with_pair, listener_config,
  serve_over, serve_tls, listened, close_after, after_serve, tls_addr_or_default,
  listen_and_serve_tls,
}

module _ (net : Network) where
  -- What a configuration of the listener is: it has a certificate, or the files gave an error.
  pub IsServable : List ℕ → List ℕ → TlsConfig ⊎ ℕ → Type 0
  IsServable cert_file key_file (inl config) = config_has_cert config ≡ true
  IsServable cert_file key_file (inr e) = net.load_x509_key_pair cert_file key_file ≡ inr e

  paired :
      (cert_file key_file : List ℕ) (config : TlsConfig) (r : ℕ ⊎ ℕ)
      → net.load_x509_key_pair cert_file key_file ≡ r
      → IsServable cert_file key_file (with_pair config r)
  unfolding IsServable config_has_cert
  paired cert_file key_file config (inl pair) h = refl
  paired cert_file key_file config (inr e) h = h

  kept :
      (cert_file key_file : List ℕ) (config : TlsConfig)
      → config_has_cert config ≡ true
      → IsServable cert_file key_file (inl config)
  unfolding IsServable
  kept cert_file key_file config has = has

  -- Whatever the server's own configuration is, nil also, the configuration that ServeTLS listens with
  -- has a certificate or a function that gets one; it fails only with the error of the two files.
  pub listener_config-IsServable :
      (tls_config : Option TlsConfig) (cert_file key_file : List ℕ)
      → IsServable cert_file key_file (listener_config net tls_config cert_file key_file)
  unfolding listener_config
  listener_config-IsServable tls_config cert_file key_file =
      let config : TlsConfig = clone_tls_config tls_config in
      let loaded =
        paired cert_file key_file config (net.load_x509_key_pair cert_file key_file) refl in
      elim (Bool-cases (config_has_cert config)) [
        | inl has ↦ rw has (
            if_either (IsServable cert_file key_file) _ loaded (kept cert_file key_file config has))
        | inr has ↦ rw has loaded
      ]

  passed : {A : Type 0} (b : Bool) (x y : A) → b ≡ false → (if b then x else y) ≡ y
  passed b x y h = rw h refl

  closes_due : Option Accepting → ℕ
  closes_due none = 1
  closes_due (some a) = 2

  -- How often the listener inside was closed: not yet while Serve goes on, once if Serve was not
  -- called, and twice if it returned.
  pub IsClosed : Tls net → Type 0
  IsClosed t = (t.outcome ≡ serving) ⊎ (t.closes ≡ closes_due t.accepting)

  after_serve-IsClosed :
      (ln : ℕ) (r : Accepting × Outcome)
      → IsLeft ln r
      → IsClosed (close_after net (after_serve net r))
  unfolding IsClosed IsLeft closes_due
  after_serve-IsClosed ln (a, serving) h = inl refl
  after_serve-IsClosed ln (a, server_closed) h = elim h [
    | inl bad ↦ cc
    | inr (gone, once) ↦ inr (omega (arith, once))
  ]
  after_serve-IsClosed ln (a, failed e) h = elim h [
    | inl bad ↦ cc
    | inr (gone, once) ↦ inr (omega (arith, once))
  ]

  serve_over_total :
      (s : Server) (ln : ℕ) (ps : List Arrival) (r : TlsConfig ⊎ ℕ)
      → ((config : TlsConfig) → member (net.tls_listener ln config) s.listeners ≡ false)
      → (t : Tls net) × (serve_over net s ln ps r ≡ some t) × IsClosed (close_after net t)
  unfolding serve_over
  serve_over_total s ln ps (inr e) new = (_, refl, unfold IsClosed closes_due in inr refl)
  serve_over_total s ln ps (inl config) new =
      let (r, e, left) =
        serve_total net.close_answer s (net.tls_listener ln config) ps (new config) in
      (after_serve net r, rw e refl, after_serve-IsClosed _ r left)

  -- ListenAndServeTLS never panics, whatever arrives. Once it has returned, the listener that it opened
  -- was closed: once if the certificate did not load, and twice, by Serve and by itself, if it did.
  pub listen_and_serve_tls_closes :
      (s : Server) (tls_config : Option TlsConfig) (cert_file key_file : List ℕ) (ps : List Arrival)
      (ln : ℕ)
      → s.in_shutdown ≡ false
      → net.listen (tls_addr_or_default net s.addr) ≡ inl ln
      → ((config : TlsConfig)
          → member (net.tls_listener ln config) (net.meanwhile s).listeners ≡ false)
      → (t : Tls net) × (listen_and_serve_tls net s tls_config cert_file key_file ps ≡ some t)
        × IsClosed t
  unfolding listen_and_serve_tls serve_tls shutting_down
  listen_and_serve_tls_closes s tls_config cert_file key_file ps ln up opened new =
      let (t, e, closed) =
        serve_over_total (net.meanwhile s) ln ps (listener_config net tls_config cert_file key_file)
          new in
      (
        close_after net t,
        passed s.in_shutdown _ _ up
            ∙ ap (listened net (net.meanwhile s) tls_config cert_file key_file ps) opened
            ∙ ap (λ o. o >>= λ r. some (close_after net r)) e,
        closed,
      )
