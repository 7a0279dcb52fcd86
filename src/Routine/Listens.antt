-- ===== src/Routine/Listens.antt =====
-- What the goroutine of servStart ends with.
use stratumserver.Prelude.{ℕ, ◌≡◌, Bool, true, false, not, ◌&&◌, ◌⊎◌, inl, inr}
use stratumserver.Server.Accept.{
  Answer, refused, served, Accepting, Outcome, failed, addr_or_default,
}
use stratumserver.Server.Accept.Returns.{IsLeft}
use stratumserver.Server.Tls.{Network, Tls, is_empty, tls_addr_or_default}
use stratumserver.Server.Tls.Closed.{IsClosed}
use stratumserver.Ctx.{ConfOpts}
use stratumserver.Routine.{Listened, over_tls, plain}

-- Both files are named.
abbrev has_files : ConfOpts → Bool
has_files conf = not (is_empty conf.tls.cert_file) && not (is_empty conf.tls.key_file)

module _ (net : Network) where
  EndsTls : ℕ ⊎ ℕ → Tls net → Type 0
  EndsTls (inl ln) t = IsClosed net t
  EndsTls (inr e) t = (t.outcome ≡ failed e) × (t.closes ≡ 0)

  EndsPlain : ℕ ⊎ ℕ → Answer → Type 0
  EndsPlain (inl ln) a = (r : Accepting × Outcome) × (a ≡ served r) × IsLeft ln r
  EndsPlain (inr e) a = a ≡ refused (failed e)

  -- The TLS server is chosen if both files are named; each gives up the listener that it opened, and
  -- answers with the error of net.Listen if there is none.
  pub IsEnded : ConfOpts → Listened net → Type 0
  IsEnded conf (over_tls t) =
      (has_files conf ≡ true) × EndsTls (net.listen (tls_addr_or_default net conf.bind)) t
  IsEnded conf (plain a) =
      (has_files conf ≡ false) × EndsPlain (net.listen (addr_or_default conf.bind)) a
