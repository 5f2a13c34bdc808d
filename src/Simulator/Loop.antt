-- ===== src/Simulator/Loop.antt =====
-- simulator/simulator.py: the loop of `run`.
use trust_aware_self_healing.Shared.{
  ℕ, zero, suc, ◌+◌, ◌≡◌, ◌≢◌, ◌<◌, refl, sym, ap, ◌∙◌, fun_ext, true, false, Option, none, some,
  arith, ltb,
}
use trust_aware_self_healing.Store.Run.{Run, Result, ok, err, pure, continue, ◌>>=◌}
use trust_aware_self_healing.Store.Db.{Env}
use trust_aware_self_healing.Simulator.Values.{Roll}
use trust_aware_self_healing.Simulator.Ticks.{World, tick, sleep, sleep_between, run_loop, run}

module _ {S A B C : Type 0} where
  continue_assoc :
      (f : A → Run S B) (g : B → Run S C) (r : Result A) (s : S)
      → continue r (λ a. f a >>= g) s ≡ (let (r', s') = continue r f s in continue r' g s')
  unfolding ◌>>=◌
  continue_assoc f g (ok a) s = refl
  continue_assoc f g (err e) s = refl

  bind_assoc :
      (m : Run S A) (f : A → Run S B) (g : B → Run S C) → ((m >>= f) >>= g) ≡ (m >>= λ a. f a >>= g)
  unfolding ◌>>=◌
  bind_assoc m f g = fun_ext λ s. let (r, s') = m s in sym (continue_assoc f g r s')

module _ (env : Env) (fault_rate : env.floats.F) (rolls : ℕ → Roll env.floats.F)
    (interval : ℕ) where
  -- n ticks, and a pause between each two of them.
  unfoldable pub cycles : ℕ → Run (World env) (Unit {0})
  cycles zero = pure tt
  cycles (suc zero) = tick env fault_rate rolls >>= λ posted. pure tt
  cycles (suc (suc n)) =
      tick env fault_rate rolls >>= λ posted. sleep env interval >>= λ u. cycles (suc n)

  abbrev pub finished : Run (World env) (Unit {0}) → Run (World env) (Option (Unit {0}))
  finished m = m >>= λ u. pure (some tt)

  run_loop-cycles :
      (n m fuel count : ℕ)
      → count + m ≡ n
      → m < fuel
      → run_loop env fault_rate rolls interval (some n) fuel count ≡ finished (cycles m)
  unfolding run_loop cycles sleep_between ◌>>=◌
  run_loop-cycles n m zero count e h = absurd (omega arith)
  run_loop-cycles n zero (suc fuel) count e h =
      let stops : ltb count n ≡ false = ground arith in rw stops refl
  run_loop-cycles n (suc zero) (suc fuel) count e h =
      let starts : ltb count n ≡ true = ground arith in
      let stops : ltb (suc count) n ≡ false = ground arith in
      rw (starts, stops, run_loop-cycles n zero fuel (suc count) (omega arith) (omega arith))
        (sym (bind_assoc (tick env fault_rate rolls) (λ posted. pure tt) (λ u. pure (some tt))))
  run_loop-cycles n (suc (suc m)) (suc fuel) count e h =
      let starts : ltb count n ≡ true = ground arith in
      let goes : ltb (suc count) n ≡ true = ground arith in
      rw (starts, goes, run_loop-cycles n (suc m) fuel (suc count) (omega arith) (omega arith))
        (ap (λ f. tick env fault_rate rolls >>= f)
            (fun_ext λ posted.
              sym (bind_assoc (sleep env interval) (λ u. cycles (suc m)) (λ u. pure (some tt))))
          ∙ sym (
              bind_assoc (tick env fault_rate rolls)
                (λ posted. sleep env interval >>= λ u. cycles (suc m)) (λ u. pure (some tt))))

  -- With n iterations and fuel for more than n rounds of the loop, `run` does what n ticks with a pause
  -- between each two of them do, and returns where they return: the loop ends.
  pub run-cycles :
      (n fuel : ℕ) (w : World env)
      → n < fuel
      → run env fault_rate rolls interval (some n) fuel w ≡ finished (cycles n) w
  unfolding run
  run-cycles n fuel w h = ap (λ m. m w) (run_loop-cycles n n fuel 0 (omega arith) h)

  abbrev pub HasNotReturned : Result (Option (Unit {0})) → Type 0
  HasNotReturned r = r ≢ ok (some tt)

  -- After a result: an exception, or what the rest does.
  not_returned-continue :
      {A : Type 0} (r : Result A) (k : A → Run (World env) (Option (Unit {0}))) (w : World env)
      → ((a : A) → HasNotReturned (k a w).0)
      → HasNotReturned (continue r k w).0
  not_returned-continue (ok a) k w h = h a
  not_returned-continue (err x) k w h = λ e. cc

  goes_on_forever :
      (fuel count : ℕ) (w : World env)
      → HasNotReturned (run_loop env fault_rate rolls interval none fuel count w).0
  unfolding run_loop sleep_between ◌>>=◌
  goes_on_forever zero count w = λ e. cc
  goes_on_forever (suc fuel) count w =
      let (r, w1) = tick env fault_rate rolls w in
      let (q, w2) = sleep env interval w1 in
      not_returned-continue r _ w1 λ posted.
        not_returned-continue q (λ u. run_loop env fault_rate rolls interval none fuel (suc count))
          w2 λ u. goes_on_forever fuel (suc count) w2

  -- Without a number of iterations, `run` never returns: whatever the fuel, the loop is still going or
  -- has raised.
  pub run_forever :
      (fuel : ℕ) (w : World env) → HasNotReturned (run env fault_rate rolls interval none fuel w).0
  unfolding run
  run_forever fuel w = goes_on_forever fuel 0 w
