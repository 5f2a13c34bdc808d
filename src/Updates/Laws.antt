-- ===== src/Updates/Laws.antt =====
-- What the PUT handlers leave and return while no driver call fails.
use mathlib.Core.Option.{some-injective}
use mathlib.Core.Path.{subst}
use trust_aware_self_healing.Shared.{
  ℕ, ◌≡◌, sym, ap, ◌∙◌, Bool, true, false, Option, none, some, none≢some, map_option, if◌then◌else◌,
}
use trust_aware_self_healing.Mongo.{IsMongo}
use trust_aware_self_healing.Store.Run.{Error, lift, or_raise, not_found, type_error}
use trust_aware_self_healing.Store.Db.{Env, State, Table}
use trust_aware_self_healing.Store.Quiet.{
  IsQuiet, Total, Total-bind, Total-pure, Total-find_one, Total-now_utc, Total-update_one,
}
use trust_aware_self_healing.Validators.{ensure_exists}
use trust_aware_self_healing.Updates.{read_back, write_fields, update_fields}

module _ (env : Env) {D : Type 0} (t : Table env D) (p : D → Bool) where
  -- No driver call fails, the time is now, and the lookup finds d.
  pub record Has (now : ℕ) (d : D) (s : State env) : Type 0 where
    pub quiet : IsQuiet env s
    pub time : s.clock ≡ now
    pub stored : env.mongo.find_one p (t.get s) ≡ some d

  pub found-Total :
      (now : ℕ) (d : D) (e : Error) (o : Option D)
      → Total (λ s. Has now d s × (o ≡ some d)) (lift (or_raise o e)) (λ r s. Has now d s × (r ≡ d))
  unfolding lift
  found-Total now d e none = record { run = λ s r. absurd (none≢some r.1) }
  found-Total now d e (some x) = record { run = λ s r. (r.0, some-injective _ _ r.1) }

  pub ensure_exists-Total :
      (now : ℕ) (d : D) → Total (Has now d) (ensure_exists env t p) (λ r s. Has now d s × (r ≡ d))
  unfolding ensure_exists
  ensure_exists-Total now d =
      Total-bind _ _ _ _ (Total-find_one env (λ s h. h.quiet) t _ _ (λ s h. (h, h.stored)))
        λ o. found-Total now d not_found o

  pub read_back-Total :
      (now : ℕ) (d : D) → Total (Has now d) (read_back env t p) (λ r s. Has now d s × (r ≡ d))
  unfolding read_back
  read_back-Total now d =
      Total-bind _ _ _ _ (Total-find_one env (λ s h. h.quiet) t _ _ (λ s h. (h, h.stored)))
        λ o. found-Total now d type_error o

  -- How a table carries the rest of the state along.
  pub record IsTable : Type 0 where
    pub get-put : (c : env.mongo.Coll D) (s : State env) → t.get (t.put c s) ≡ c
    pub outages-put : (c : env.mongo.Coll D) (s : State env) → (t.put c s).outages ≡ s.outages
    pub clock-put : (c : env.mongo.Coll D) (s : State env) → (t.put c s).clock ≡ s.clock

  module _ (laws : IsMongo env.mongo) (table : IsTable) where
    pub update_one-Has :
        (now : ℕ) (d : D) (f : D → D) (s : State env)
        → ((x : D) → p x ≡ true → p (f x) ≡ true)
        → Has now d s
        → Has now (f d) (t.put (env.mongo.update_one p f (t.get s)) s)
    update_one-Has now d f s keep h = record {
      quiet = table.outages-put _ s ∙ h.quiet;
      time = table.clock-put _ s ∙ h.time;
      stored =
          ap (env.mongo.find_one p) (table.get-put _ s)
          ∙ (laws.find_one-update p f (t.get s) keep ∙ ap (map_option f) h.stored);
    }

    module _ (change : ℕ → D → D)
        (keep : (n : ℕ) (x : D) → p x ≡ true → p (change n x) ≡ true) where
      write_fields-Total :
          (now : ℕ) (d : D) (has_changes : Bool)
          → Total
              (Has now d)
              (write_fields env t p has_changes change)
              (λ _. Has now (if has_changes then change now d else d))
      unfolding write_fields
      write_fields-Total now d true =
          Total-bind _ _ (λ n s. Has now d s × (now ≡ n)) _
            (Total-now_utc env (λ s h. h.quiet) _ (λ s h. (h, sym h.time)))
            λ n.
              Total-update_one env (λ s h. h.0.quiet) t _ _ _
                (λ s (h, same).
                  subst
                    (λ m.
                      Has now (change m d) (t.put (env.mongo.update_one p (change n) (t.get s)) s))
                    (sym same) (update_one-Has now d (change n) s (keep n) h))
      write_fields-Total now d false = Total-pure _ _ (λ s h. h)

      pub update_fields-Total :
          (now : ℕ) (d : D) (has_changes : Bool)
          → Total (Has now d) (update_fields env t p has_changes change) (λ r s.
            Has now (if has_changes then change now d else d) s
            × (r ≡ (if has_changes then change now d else d)))
      unfolding update_fields
      update_fields-Total now d has_changes =
          Total-bind _ _ _ _ (write_fields-Total now d has_changes) λ u. read_back-Total now _
