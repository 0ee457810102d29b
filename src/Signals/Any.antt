-- ===== src/Signals/Any.antt =====
-- `wait_for_any` ends: its sweeps, its blocking read and its polling.
use magent.Prelude.{
  ℕ, zero, suc, ◌+◌, ◌-◌, ◌≤◌, max, ◌≡◌, refl, true, Option, none, some, List, [], arith, leb, Text,
  Dict,
}
use magent.Prelude.Exec.{Result, ◌>>=◌}
use magent.Signals.Send.{Env, Signals, fix_timeout_ms, prepare_topic_names, build_cursors}
use magent.Signals.Wait.{
  Clock, Reply, Found, Out, on_world, now, sleep, check_recent_arrivals, remaining_ms,
  BlockingReader, process_blocking,
}
use magent.Signals.Many.{
  or_found, any_missed, poll_any, not_ok, block_or_poll, any_until, any_deadline, wait_for_any,
}
use magent.Signals.Later.{IsClock, check_recent_arrivals-Later}
use magent.Signals.Ends.{Ends, then_loop-Ends, if-Ends, or_found-Ends}

module _ {W : Type 0} (env : Env W) (clock : Clock W) (at_time : W → ℕ)
    (law : IsClock env clock at_time) where
  poll_any-Ends :
      (fuel : ℕ) (names : List Text) (cursors : Dict (Option Text)) (timeout_ms deadline : ℕ)
      (s : Signals W)
      → deadline ≤ fuel + at_time s.world
      → Ends env clock (poll_any env clock (suc fuel) names cursors timeout_ms deadline s)
  unfolding poll_any
  poll_any-Ends zero names cursors timeout_ms deadline s h =
      let again : Signals W → Out env clock Reply =
        poll_any env clock zero names cursors timeout_ms deadline in
      let out : Result Found × Signals W = check_recent_arrivals env clock names cursors s in
      let t : ℕ = (clock.time out.1.world).0 in
      let reads : deadline ≤ t = omega (
        arith,
        h,
        check_recent_arrivals-Later env clock at_time law names cursors s,
        (law.time_reads out.1.world).0,
      ) in
      let late : leb deadline t ≡ true = ground (arith, reads) in
      then_loop-Ends env clock out
        (or_found env clock (any_missed env clock again names timeout_ms deadline))
        (λ found e.
          or_found-Ends env clock (any_missed env clock again names timeout_ms deadline) found out.1
            (rw late refl))
  poll_any-Ends (suc fuel) names cursors timeout_ms deadline s h =
      let again : Signals W → Out env clock Reply =
        poll_any env clock (suc fuel) names cursors timeout_ms deadline in
      let out : Result Found × Signals W = check_recent_arrivals env clock names cursors s in
      let t : ℕ = (clock.time out.1.world).0 in
      let s' : Signals W = (now env clock out.1).1 in
      let (before, after) = law.time_reads out.1.world in
      then_loop-Ends env clock out
        (or_found env clock (any_missed env clock again names timeout_ms deadline))
        (λ found e.
          or_found-Ends env clock (any_missed env clock again names timeout_ms deadline) found out.1
            (if-Ends env clock (leb deadline t) _ (again (sleep env clock s')) (λ late. refl)
              (λ early. poll_any-Ends fuel names cursors timeout_ms deadline (sleep env clock s') (
                omega (
                  arith,
                  h,
                  check_recent_arrivals-Later env clock at_time law names cursors s,
                  before,
                  after,
                  law.sleep_on s'.world,
                )))))

  block_or_poll-Ends :
      (reader : Option (BlockingReader env clock)) (fuel : ℕ) (names : List Text)
      (cursors : Dict (Option Text)) (timeout_ms deadline : ℕ) (s : Signals W)
      → deadline ≤ fuel + at_time s.world
      → Ends env clock
          (block_or_poll env clock reader (suc fuel) names cursors timeout_ms deadline s)
  unfolding block_or_poll
  block_or_poll-Ends none fuel names cursors timeout_ms deadline s h =
      poll_any-Ends fuel names cursors timeout_ms deadline s h
  block_or_poll-Ends (some read) fuel names cursors timeout_ms deadline s h =
      let left : Signals W = (remaining_ms env clock deadline s).1 in
      let ms : ℕ = max 1 (deadline - (clock.time s.world).0) in
      let out : Result Found × Signals W =
        (on_world env clock (read names cursors ms) >>= process_blocking env clock) left in
      then_loop-Ends env clock out (or_found env clock (not_ok env clock names timeout_ms))
        (λ found e. or_found-Ends env clock (not_ok env clock names timeout_ms) found out.1 refl)

  any_until-Ends :
      (fuel : ℕ) (names : List Text) (cursors : Dict (Option Text)) (timeout_ms deadline : ℕ)
      (s : Signals W)
      → deadline ≤ fuel + at_time s.world
      → Ends env clock (any_until env clock (suc fuel) names cursors timeout_ms deadline s)
  unfolding any_until
  any_until-Ends fuel names cursors timeout_ms deadline s h =
      let rest : Signals W → Out env clock Reply =
        block_or_poll env clock clock.read_any_blocking (suc fuel) names cursors timeout_ms
          deadline in
      let out : Result Found × Signals W = check_recent_arrivals env clock names cursors s in
      then_loop-Ends env clock out (or_found env clock rest) (λ found e.
        or_found-Ends env clock rest found out.1 (
          block_or_poll-Ends clock.read_any_blocking fuel names cursors timeout_ms deadline out.1
            (omega (arith, h, check_recent_arrivals-Later env clock at_time law names cursors s))))

  pub wait_for_any-Ends :
      (fuel : ℕ) (topics : List Text) (last_ids : Dict Text) (timeout_ms : ℕ) (s : Signals W)
      → fix_timeout_ms timeout_ms ≤ fuel
      → Ends env clock (wait_for_any env clock (suc fuel) topics last_ids timeout_ms s)
  unfolding wait_for_any
  wait_for_any-Ends fuel topics last_ids timeout_ms s h =
      let timeout : ℕ = fix_timeout_ms timeout_ms in
      let out : Result (List Text) × Signals W = prepare_topic_names env topics s in
      then_loop-Ends env clock out (any_deadline env clock (suc fuel) last_ids timeout) (λ names e.
        let s' : Signals W = (now env clock out.1).1 in
        any_until-Ends fuel names (build_cursors env names last_ids [] s') timeout
          ((clock.time out.1.world).0 + timeout) s'
          (omega (arith, h, (law.time_reads out.1.world).1)))
