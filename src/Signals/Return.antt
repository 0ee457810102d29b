-- ===== src/Signals/Return.antt =====
-- All three waits return.
use magent.Prelude.{
  ℕ, zero, suc, ◌+◌, ◌≤◌, ◌<◌, ◌≡◌, ap, Bool, true, not, Option, List, [], ◌∷◌, arith, length,
  length-map, filter, map, Text, Dict, strip, is_some, is_empty,
}
use magent.Prelude.Exec.{Result, return, raise, pure, continue, ◌>>◌}
use magent.Signals.Send.{
  Env, Signals, fix_timeout_ms, prepare_topic_names, build_cursors, stripped, require_some,
  require_all_allowed,
}
use magent.Signals.Wait.{Clock, now, wait_for_signal}
use magent.Signals.Many.{wait_for_any, all_deadline, wait_for_all}
use magent.Signals.Later.{IsClock}
use magent.Signals.Ends.{Ends, then_loop-Ends, wait_for_signal-Ends}
use magent.Signals.Any.{wait_for_any-Ends}
use magent.Signals.Gather.{all_until-Ends}

length-filter : (p : Text → Bool) (names : List Text) → length (filter p names) ≤ length names
length-filter p [] = omega arith
length-filter p (n ∷ names) = ground (arith, length-filter p names)

module _ {W : Type 0} (env : Env W) where
  allowed_names :
      (r : Result (Unit {0})) (names names' : List Text) (s : Signals W)
      → (continue r (λ u. pure names) s).0 ≡ return names'
      → names ≡ names'
  allowed_names (return u) names names' s e = cc
  allowed_names (raise exc) names names' s e = cc

  some_names :
      (names names' : List Text) (s : Signals W)
      → (continue (require_some env names) (λ n. require_all_allowed env n >> pure n) s).0
        ≡ return names'
      → names ≡ names'
  some_names [] names' s e = cc
  some_names (n ∷ names) names' s e =
      let out : Result (Unit {0}) × Signals W = require_all_allowed env (n ∷ names) s in
      allowed_names out.0 (n ∷ names) names' out.1 e

  length-prepare_topic_names :
      (topics names : List Text) (s : Signals W)
      → (prepare_topic_names env topics s).0 ≡ return names
      → length names ≤ length topics
  unfolding prepare_topic_names
  length-prepare_topic_names topics names s e = omega (
    arith,
    ap length (some_names (stripped env topics) names s e),
    length-filter (λ n. not (is_empty n)) (map strip topics),
    length-map topics strip,
  )

module _ {W : Type 0} (env : Env W) (clock : Clock W) (at_time : W → ℕ)
    (law : IsClock env clock at_time) where
  wait_for_all-Ends :
      (fuel : ℕ) (topics : List Text) (last_ids : Dict Text) (timeout_ms : ℕ) (s : Signals W)
      → length topics + fix_timeout_ms timeout_ms ≤ fuel
      → Ends env clock (wait_for_all env clock (suc fuel) topics last_ids timeout_ms s)
  unfolding wait_for_all
  wait_for_all-Ends fuel topics last_ids timeout_ms s h =
      let timeout : ℕ = fix_timeout_ms timeout_ms in
      let out : Result (List Text) × Signals W = prepare_topic_names env topics s in
      then_loop-Ends env clock out (all_deadline env clock (suc fuel) last_ids timeout) (λ names e.
        let s' : Signals W = (now env clock out.1).1 in
        all_until-Ends env clock at_time law fuel names (build_cursors env names last_ids [] s')
          ((clock.time out.1.world).0 + timeout) s'
          (omega (
            arith,
            h,
            (law.time_reads out.1.world).1,
            length-prepare_topic_names env topics names s e,
          )))

  -- Over a clock that does not go back and that each sleep moves on, and a bus whose blocking read
  -- answers with one of the topics that it was asked for, wait_for_signal, wait_for_any and
  -- wait_for_all end with a reply or an exception: fuel above the timeout in milliseconds plus the
  -- number of topics never runs out.
  pub waits_return :
      (fuel : ℕ) (topic : Text) (last_id : Option Text) (topics : List Text) (last_ids : Dict Text)
      (timeout_ms : ℕ) (s : Signals W)
      → length topics + fix_timeout_ms timeout_ms < fuel
      → (is_some (wait_for_signal env clock fuel topic last_id timeout_ms s) ≡ true)
        × (is_some (wait_for_any env clock fuel topics last_ids timeout_ms s) ≡ true)
        × (is_some (wait_for_all env clock fuel topics last_ids timeout_ms s) ≡ true)
  waits_return zero topic last_id topics last_ids timeout_ms s h =
      let bad : ⊥ = omega (arith, h) in absurd bad
  waits_return (suc fuel) topic last_id topics last_ids timeout_ms s h = (
    wait_for_signal-Ends env clock at_time law fuel topic last_id timeout_ms s (omega (arith, h)),
    wait_for_any-Ends env clock at_time law fuel topics last_ids timeout_ms s (omega (arith, h)),
    wait_for_all-Ends fuel topics last_ids timeout_ms s (omega (arith, h)),
  )
