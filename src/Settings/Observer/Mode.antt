-- ===== src/Settings/Observer/Mode.antt =====
-- When the first configuration of settings/observer.go loads.
use stratumserver.Prelude.{
  ℕ, ◌≡◌, refl, ap, ◌∙◌, ◌↔◌, Bool, true, false, not, ◌&&◌, List, Option, none, some, ◌⊎◌, inl, inr,
  bytes_eq, bytes_eq_iff, if◌then◌else◌,
}
use stratumserver.Prelude.Int.{ℤ}
use stratumserver.Settings.{Settings}
use stratumserver.Settings.Observer.{
  World, Observer, mode_once, mode_periodically, mode_off, is_known_mode, parsed, or_default, read,
  load_initial_config, new_observer, invalid_mode,
}

-- One of the three words.
abbrev pub IsMode : List ℕ → Type 0
IsMode m = (m ≡ mode_once) ⊎ (m ≡ mode_periodically) ⊎ (m ≡ mode_off)

one_of :
    (p q r : Bool) → not (not p && not q && not r) ≡ true → (p ≡ true) ⊎ (q ≡ true) ⊎ (r ≡ true)
one_of true q r h = inl refl
one_of false true r h = inr (inl refl)
one_of false false true h = inr (inr refl)
one_of false false false h = cc

is_known_mode_iff : (m : List ℕ) → (is_known_mode m ≡ true) ↔ IsMode m
unfolding is_known_mode bytes_eq
is_known_mode_iff m = (
  λ h. elim (one_of (bytes_eq m mode_once) (bytes_eq m mode_periodically) (bytes_eq m mode_off) h) [
    | inl e ↦ inl ((bytes_eq_iff m mode_once).0 e)
    | inr (inl e) ↦ inr (inl ((bytes_eq_iff m mode_periodically).0 e))
    | inr (inr e) ↦ inr (inr ((bytes_eq_iff m mode_off).0 e))
  ],
  λ h. elim h [ inl e ↦ rw e refl | inr (inl e) ↦ rw e refl | inr (inr e) ↦ rw e refl ],
)

module _ {F Address Info : Type 0} (w : World F Address Info) where
  -- The file is read and parsed, and the mode is one of the three words.
  abbrev pub Loads : Type 0
  Loads =
      (text : List ℕ) × (s : Settings F) × (w.read_file (or_default w.config_flag) ≡ inl text)
      × (w.unmarshal text ≡ (s, none))
      × IsMode (w.mode s)

  known : (b : Bool) → (if b then none else some invalid_mode) ≡ none → b ≡ true
  known true h = refl
  known false h = cc

  same_text : {a b : List ℕ} → Path (List ℕ ⊎ ℕ) (inl a) (inl b) → a ≡ b
  same_text same = cc

  parsed_lem :
      (o : Observer F Address Info) (procs : ℤ) (r : Settings F × Option ℕ)
      → ((parsed w o procs r).2 ≡ none) ↔ ((s : Settings F) × (r ≡ (s, none)) × IsMode (w.mode s))
  unfolding parsed
  parsed_lem o procs (s, some e) = (λ h. cc, λ (x, same, m). cc)
  parsed_lem o procs (s, none) = (
    λ h. (s, refl, (is_known_mode_iff (w.mode s)).0 (known (is_known_mode (w.mode s)) h)),
    λ (x, same, m).
        rw (ap (λ t. is_known_mode (w.mode t.0)) same ∙ (is_known_mode_iff (w.mode x)).1 m) refl,
  )

  parsed-config :
      (o : Observer F Address Info) (procs : ℤ) (r : Settings F × Option ℕ)
      → ((parsed w o procs r).0.config ≡ o.config)
        × ((parsed w o procs r).0.outgoing_configurations ≡ o.outgoing_configurations)
  unfolding parsed
  parsed-config o procs (s, some e) = (refl, refl)
  parsed-config o procs (s, none) = (refl, refl)

  read_lem :
      (o : Observer F Address Info) (procs : ℤ) (r : List ℕ ⊎ ℕ)
      → ((read w o procs r).2 ≡ none) ↔ (
          (text : List ℕ) × (s : Settings F) × (r ≡ inl text)
          × (w.unmarshal text ≡ (s, none))
          × IsMode (w.mode s))
  read_lem o procs (inr e) = (λ h. cc, λ (text, s, same, p, m). cc)
  read_lem o procs (inl text) =
      let (there, back) = parsed_lem o procs (w.unmarshal text) in
      (
        λ h. let (s, p, m) = there h in (text, s, refl, p, m),
        λ (text', s, same, p, m). back (s, ap w.unmarshal (same_text same) ∙ p, m),
      )

  read-config :
      (o : Observer F Address Info) (procs : ℤ) (r : List ℕ ⊎ ℕ)
      → ((read w o procs r).0.config ≡ o.config)
        × ((read w o procs r).0.outgoing_configurations ≡ o.outgoing_configurations)
  read-config o procs (inr e) = (refl, refl)
  read-config o procs (inl text) = parsed-config o procs (w.unmarshal text)

  -- NewObserver returns no error exactly when the file is read and parsed and its mode is one of
  -- `once`, `periodically` and `off`; in every case the observer that it returns has no configuration.
  pub new_observer_lem :
      (channel : ℕ) (procs : ℤ)
      → (((new_observer w channel procs).2 ≡ none) ↔ Loads)
        × ((new_observer w channel procs).0.config ≡ none)
        × ((new_observer w channel procs).0.outgoing_configurations ≡ channel)
  unfolding new_observer load_initial_config
  new_observer_lem channel procs =
      let r = w.read_file (or_default w.config_flag) in
      let (config, flow) = read-config _ procs r in (read_lem _ procs r, config, flow)
