-- ===== src/SettingsService/Laws.antt =====
-- services/settings_service.py: what a change of the settings returns and leaves.
use mathlib.Core.Path.{subst}
use trust_aware_self_healing.Shared.{
  ℕ, ◌≡◌, refl, sym, ◌∙◌, ap, Bool-cases, inl, inr, Option, none, some, [], map_option,
  if◌then◌else◌,
}
use trust_aware_self_healing.Mongo.{IsMongo}
use trust_aware_self_healing.Models.{SystemSettings, SettingsUpdate, default_settings}
use trust_aware_self_healing.Store.Run.{Result, ok, err, pure}
use trust_aware_self_healing.Store.Db.{Env, State, system_settings}
use trust_aware_self_healing.Store.Quiet.{
  IsQuiet, Total, Post, Total-bind, Total-pure, Total-find_one, Total-now_utc, Total-insert_one,
  Total-update_one,
}
use trust_aware_self_healing.SettingsService.{
  is_system, has_changes, apply_changes, make_default, get_settings, write_changes, update_settings,
}

module _ (env : Env) (laws : IsMongo env.mongo) where
  open env use {floats.{F}, mongo.{find_one}}

  -- The settings in force: those stored, or the defaults as of a given time.
  abbrev pub in_force : Option (SystemSettings F) → ℕ → SystemSettings F
  in_force none now = default_settings env.floats now
  in_force (some d) now = d

  -- No driver call fails, and the lookup of the settings gives o.
  record Holds (now : ℕ) (o : Option (SystemSettings F)) (s : State env) : Type 0 where
    quiet : IsQuiet env s
    time : s.clock ≡ now
    stored : find_one is_system s.system_settings ≡ o

  make_default-Total :
      (now : ℕ) (o : Option (SystemSettings F))
      → Total (Holds now o) (make_default env o) (λ d. Holds now (some (in_force o now)))
  unfolding make_default
  make_default-Total now (some d) = Total-pure _ _ (λ s b. b)
  make_default-Total now none =
      Total-bind _ _ (λ t s. Holds now none s × (t ≡ now)) _
        (Total-now_utc env (λ s b. b.quiet) _ (λ s b. (b, b.time)))
        λ t.
          Total-bind _ _ (λ _. Holds now (some (default_settings env.floats now))) _
            (Total-insert_one env (λ s b. b.0.quiet) (system_settings env) _ _
              (λ s b. record {
                quiet = b.0.quiet;
                time = b.0.time;
                stored =
                    laws.find_one-insert_new is_system _ s.system_settings refl b.0.stored
                    ∙ ap (λ n. some (default_settings env.floats n)) b.1;
              }))
            λ i. Total-pure _ _ (λ s h. h)

  get_settings-Total :
      (now : ℕ) (o : Option (SystemSettings F))
      → Total (Holds now o) (get_settings env) (λ d. Holds now (some (in_force o now)))
  unfolding get_settings
  get_settings-Total now o =
      Total-bind _ _ (λ doc s. Holds now o s × (o ≡ doc)) _
        (Total-find_one env (λ s b. b.quiet) (system_settings env) _ _ (λ s b. (b, sym b.stored)))
        λ doc. record {
          run = λ s (b, e).
              (subst
                  (λ x.
                    Total (Holds now o) (make_default env x)
                      (λ d. Holds now (some (in_force o now))))
                  e (make_default-Total now o)).run
                s b;
        }

  -- The settings after the change.
  abbrev pub changed : SettingsUpdate F → ℕ → SystemSettings F → SystemSettings F
  changed u now d = if has_changes u then apply_changes u now d else d

  write-Total :
      (u : SettingsUpdate F) (now : ℕ) (d : SystemSettings F)
      → Total
          (Holds now (some d))
          (if has_changes u then write_changes env u else pure tt)
          (λ _. Holds now (some (changed u now d)))
  unfolding write_changes
  write-Total u now d = elim (Bool-cases (has_changes u)) [
    | inl given ↦ rw given (
        Total-bind _ _ (λ t s. Holds now (some d) s × (t ≡ now)) _
          (Total-now_utc env (λ s b. b.quiet) _ (λ s b. (b, b.time)))
          λ t.
            Total-update_one env (λ s b. b.0.quiet) (system_settings env) _ _ _
              (λ s b. record {
                quiet = b.0.quiet;
                time = b.0.time;
                stored =
                    laws.find_one-update is_system _ s.system_settings (λ e m. m)
                    ∙ (ap (map_option (apply_changes u t)) b.0.stored
                        ∙ ap (λ n. some (apply_changes u n d)) b.1);
              }))
    | inr unchanged ↦ rw unchanged (Total-pure _ _ (λ s b. b))
  ]

  update-Total :
      (u : SettingsUpdate F) (now : ℕ) (o : Option (SystemSettings F))
      → Total (Holds now o) (update_settings env u) (λ r s.
        (r ≡ some (changed u now (in_force o now)))
        × Holds now (some (changed u now (in_force o now))) s)
  unfolding update_settings
  update-Total u now o = Total-bind _ _ _ _ (get_settings-Total now o) λ d.
      Total-bind _ _ _ _ (write-Total u now (in_force o now))
        λ u'. Total-find_one env (λ s b. b.quiet) (system_settings env) _ _ (λ s b. (b.stored, b))

  -- With a driver that meets its laws: while no driver call fails, a change of the settings starts from
  -- those in force (the defaults, if there are none yet), replaces the fields that are given and the
  -- time, and nothing if none is given, and what it returns is what is then stored.
  pub update_settings-merges :
      (u : SettingsUpdate F) (s : State env)
      → s.outages ≡ []
      → let d = changed u s.clock (in_force (find_one is_system s.system_settings) s.clock) in
        ((update_settings env u s).0 ≡ ok (some d))
        × (find_one is_system (update_settings env u s).1.system_settings ≡ some d)
  update_settings-merges u s quiet =
      let (r, s') = update_settings env u s in
      merged (changed u s.clock (in_force (find_one is_system s.system_settings) s.clock)) r s'
        ((update-Total u s.clock _).run s (record { quiet = quiet; time = refl; stored = refl }))
    where
      merged :
          (d : SystemSettings F) (r : Result (Option (SystemSettings F))) (s' : State env)
          → Post (λ o after. (o ≡ some d) × Holds s.clock (some d) after) (r, s')
          → (r ≡ ok (some d)) × (find_one is_system s'.system_settings ≡ some d)
      merged d (ok o) s' q = (ap ok q.0, q.1.stored)
      merged d (err e) s' q = absurd q
