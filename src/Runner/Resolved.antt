-- ===== src/Runner/Resolved.antt =====
-- internal/runner/resolver.go: what a resolved scenario is.
use vuhive.Prelude.{
  String, none, some, Bool, true, false, ◌≡◌, refl, is_empty, Result, ok, err, lookup, arith, ◌⊎◌,
  inl, inr, Bool-cases, Option-cases,
}
use vuhive.Config.Model.{Config}
use vuhive.Runner.{
  Flags, ResolvedScenario, resolved, target_of, resolve, no_scenario, not_registered,
  not_configured,
}

module _ {F : Type 0} where
  -- The scenario that runs is the one named by the flag, or else by the configuration; it is registered
  -- and configured.
  pub record IsResolved (flags : Flags) (cfg : Config F) (registered : String → Bool)
      (r : ResolvedScenario F) : Type 0 where
    pub flags_kept : r.flags ≡ flags
    pub config_kept : r.config ≡ cfg
    pub named : is_empty r.target_scenario ≡ false
    pub by_flag : is_empty flags.scenario_name ≡ false → r.target_scenario ≡ flags.scenario_name
    pub by_default : is_empty flags.scenario_name ≡ true → r.target_scenario ≡ cfg.default_scenario
    pub known : registered r.target_scenario ≡ true
    pub configured : lookup r.target_scenario cfg.scenarios ≡ some r.scenario_cfg

  target_lem :
      (flags : Flags) (cfg : Config F)
      → (is_empty flags.scenario_name ≡ false → target_of flags cfg ≡ flags.scenario_name)
        × (is_empty flags.scenario_name ≡ true → target_of flags cfg ≡ cfg.default_scenario)
  unfolding target_of
  target_lem flags cfg = ground arith

module _ {F E : Type 0} where
  -- For parsed flags that do not ask for the version and a configuration that loads: `resolve` gives a
  -- scenario exactly when the flag --scenario, or else default_scenario, names one that is registered
  -- in the suite and defined in the configuration, and it is that scenario with its configuration;
  -- otherwise the error says that no scenario is named, or else that the named one is not
  -- registered, or else that the named and registered one is not configured.
  pub resolve-IsResolved :
      (flags : Flags) (load : String → Result E (Config F)) (registered : String → Bool)
      {cfg : Config F}
      → flags.show_version ≡ false
      → load flags.config_path ≡ ok cfg
      → ((r : ResolvedScenario F) × (resolve (ok flags) load registered ≡ ok (resolved r))
          × IsResolved flags cfg registered r)
        ⊎ ((resolve (ok flags) load registered ≡ err no_scenario)
            × (is_empty (target_of flags cfg) ≡ true))
        ⊎ ((resolve (ok flags) load registered ≡ err (not_registered (target_of flags cfg)))
            × (is_empty (target_of flags cfg) ≡ false)
            × (registered (target_of flags cfg) ≡ false))
        ⊎ ((resolve (ok flags) load registered ≡ err (not_configured (target_of flags cfg)))
            × (is_empty (target_of flags cfg) ≡ false)
            × (registered (target_of flags cfg) ≡ true)
            × (lookup (target_of flags cfg) cfg.scenarios ≡ none))
  unfolding resolve
  resolve-IsResolved flags load registered {cfg = cfg} quiet loaded =
      elim (Bool-cases (is_empty (target_of flags cfg))) [
        | inl unnamed ↦ inr (inl (simp (resolve, quiet, loaded, unnamed) refl, unnamed))
        | inr named ↦ elim (Bool-cases (registered (target_of flags cfg))) [
          | inr unknown ↦
              inr (inr (inl (simp (resolve, quiet, loaded, named, unknown) refl, named, unknown)))
          | inl known ↦ elim (Option-cases (lookup (target_of flags cfg) cfg.scenarios)) [
            | inl missing ↦ inr (
                inr (
                  inr (
                    simp (resolve, quiet, loaded, named, known, missing) refl,
                    named,
                    known,
                    missing,
                  )))
            | inr (sc, found) ↦
                let (flagged, defaulted) = target_lem flags cfg in
                inl (
                  record {
                    flags = flags;
                    config = cfg;
                    target_scenario = target_of flags cfg;
                    scenario_cfg = sc;
                  },
                  simp (resolve, quiet, loaded, named, known, found) refl,
                  record {
                    flags_kept = refl;
                    config_kept = refl;
                    named = named;
                    by_flag = flagged;
                    by_default = defaulted;
                    known = known;
                    configured = found;
                  },
                )
          ]
        ]
      ]
