-- ===== src/Signals/Ends.antt =====
-- The waits end: fuel above the time that they wait, and above the number of topics for
-- `wait_for_all`, does not run out.
use magent.Prelude.{
  ℕ, zero, suc, ◌+◌, ◌-◌, ◌≤◌, ◌<◌, max, ◌≡◌, refl, inl, inr, Bool, true, false, Bool-cases, Option,
  none, some, arith, leb, Text, strip, is_some, if◌then◌else◌,
}
use magent.Prelude.Exec.{Result, return, raise, ◌>>=◌}
use magent.Signals.Send.{Env, Signals, Received, fix_timeout_ms}
use magent.Signals.Receive.{try_fast_path, try_blocking_read}
use magent.Signals.Wait.{
  Clock, Reply, Found, Out, now, sleep, process_found, read_one, remaining_ms, then_loop,
  or_received, poll_round, poll_checked, poll_unless_late, after_blocking, after_fast, set_deadline,
  check_name, poll_with_timeout, wait_until, wait_for_signal, or_persisted,
}
use magent.Signals.Many.{or_found}
use magent.Signals.Later.{
  IsClock, Later, bind-Later, now-Later, read_one-Later, process_found-Later, remaining_ms-Later,
  try_fast_path-Later, try_blocking_read-Later,
}

module _ {W : Type 0} (env : Env W) (clock : Clock W) where
  abbrev pub Ends : {A : Type 0} → Out env clock A → Type 0
  Ends out = is_some out ≡ true

  pub then_loop-Ends :
      {A B : Type 0} (out : Result A × Signals W) (f : A → Signals W → Out env clock B)
      → ((a : A) → out.0 ≡ return a → Ends (f a out.1))
      → Ends (then_loop env clock out f)
  then_loop-Ends (return a, s) f h = h a refl
  then_loop-Ends (raise e, s) f h = refl

  pub if-Ends :
      {A : Type 0} (b : Bool) (x y : Out env clock A)
      → (b ≡ true → Ends x)
      → (b ≡ false → Ends y)
      → Ends (if b then x else y)
  if-Ends true x y h k = h refl
  if-Ends false x y h k = k refl

  poll_round-Ends :
      (again : Signals W → Out env clock Reply) (found : Found) (s : Signals W)
      → Ends (again (sleep env clock s))
      → Ends (poll_round env clock again found s)
  poll_round-Ends again none s h = h
  poll_round-Ends again (some (name, m)) s h = refl

  or_received-Ends :
      (rest : Signals W → Out env clock Reply) (found : Option Received) (s : Signals W)
      → Ends (rest s)
      → Ends (or_received env clock rest found s)
  or_received-Ends rest none s h = h
  or_received-Ends rest (some m) s h = refl

  pub or_found-Ends :
      (rest : Signals W → Out env clock Reply) (found : Found) (s : Signals W)
      → Ends (rest s)
      → Ends (or_found env clock rest found s)
  or_found-Ends rest none s h = h
  or_found-Ends rest (some (name, m)) s h = refl

module _ {W : Type 0} (env : Env W) (clock : Clock W) (at_time : W → ℕ)
    (law : IsClock env clock at_time) where
  read_found-Later :
      (name : Text) (cursor : Option Text)
      → Later env clock at_time law
          (read_one env clock name cursor >>= process_found env clock name)
  read_found-Later name cursor =
      bind-Later env clock at_time law (read_one env clock name cursor)
        (process_found env clock name) (read_one-Later env clock at_time law name cursor)
        (process_found-Later env clock at_time law name)

  poll_checked-Ends :
      (again : Signals W → Out env clock Reply) (name : Text) (cursor : Option Text)
      (deadline t : ℕ) (s : Signals W)
      → (t < deadline
          → (s' : Signals W) → at_time s.world ≤ at_time s'.world
          → Ends env clock (again (sleep env clock s')))
      → Ends env clock (poll_checked env clock again name cursor deadline t s)
  poll_checked-Ends again name cursor deadline t s h = elim (Bool-cases (leb deadline t)) [
    | inl late ↦ rw late refl
    | inr early ↦
        let out : Result Found × Signals W =
          (read_one env clock name cursor >>= process_found env clock name) s in
        rw early (
          then_loop-Ends env clock out (poll_round env clock again) (λ found e.
            poll_round-Ends env clock again found out.1
              (h (ground (arith, early)) out.1 (read_found-Later name cursor s))))
  ]

  poll_with_timeout-Ends :
      (fuel : ℕ) (name : Text) (cursor : Option Text) (deadline : ℕ) (s : Signals W)
      → deadline ≤ fuel + at_time s.world
      → Ends env clock (poll_with_timeout env clock (suc fuel) name cursor deadline s)
  unfolding poll_with_timeout
  poll_with_timeout-Ends zero name cursor deadline s h =
      let (before, after) = law.time_reads s.world in
      poll_checked-Ends (poll_with_timeout env clock zero name cursor deadline) name cursor deadline
        (clock.time s.world).0 (now env clock s).1
        (λ early s' later. let bad : ⊥ = omega (arith, h, before, early) in absurd bad)
  poll_with_timeout-Ends (suc fuel) name cursor deadline s h =
      let (before, after) = law.time_reads s.world in
      poll_checked-Ends (poll_with_timeout env clock (suc fuel) name cursor deadline) name cursor
        deadline (clock.time s.world).0 (now env clock s).1
        (λ early s' later.
          poll_with_timeout-Ends fuel name cursor deadline (sleep env clock s')
            (omega (arith, h, before, after, later, law.sleep_on s'.world)))

  poll_unless_late-Ends :
      (fuel : ℕ) (name : Text) (cursor : Option Text) (timeout_ms deadline t : ℕ) (s : Signals W)
      → deadline ≤ fuel + at_time s.world
      → Ends env clock (poll_unless_late env clock (suc fuel) name cursor timeout_ms deadline t s)
  poll_unless_late-Ends fuel name cursor timeout_ms deadline t s h =
      if-Ends env clock (leb deadline t) _
        (poll_with_timeout env clock (suc fuel) name cursor deadline s) (λ late. refl)
        (λ early. poll_with_timeout-Ends fuel name cursor deadline s h)

  wait_until-Ends :
      (fuel : ℕ) (name : Text) (cursor : Option Text) (timeout_ms deadline : ℕ) (s : Signals W)
      → deadline ≤ fuel + at_time s.world
      → Ends env clock (wait_until env clock (suc fuel) name cursor timeout_ms deadline s)
  unfolding wait_until
  wait_until-Ends fuel name cursor timeout_ms deadline s h =
      let fast : Result (Option Received) × Signals W = try_fast_path env name cursor s in
      let ms : ℕ = max 1 (deadline - (clock.time fast.1.world).0) in
      let s1 : Signals W = (remaining_ms env clock deadline fast.1).1 in
      let slow : Result (Option Received) × Signals W = try_blocking_read env name cursor ms s1 in
      let later : deadline ≤ fuel + at_time (now env clock slow.1).1.world = omega (
        arith,
        h,
        try_fast_path-Later env clock at_time law name cursor s,
        remaining_ms-Later env clock at_time law deadline fast.1,
        try_blocking_read-Later env clock at_time law name cursor ms s1,
        now-Later env clock at_time law slow.1,
      ) in
      then_loop-Ends env clock fast
        (or_received env clock (after_fast env clock (suc fuel) name cursor timeout_ms deadline))
        (λ found e.
          or_received-Ends env clock
            (after_fast env clock (suc fuel) name cursor timeout_ms deadline) found fast.1
            (then_loop-Ends env clock slow
              (or_received env clock
                (after_blocking env clock (suc fuel) name cursor timeout_ms deadline))
              (λ found' e'.
                or_received-Ends env clock
                  (after_blocking env clock (suc fuel) name cursor timeout_ms deadline) found'
                  slow.1
                  (poll_unless_late-Ends fuel name cursor timeout_ms deadline
                    (clock.time slow.1.world).0 (now env clock slow.1).1 later))))

  pub wait_for_signal-Ends :
      (fuel : ℕ) (topic : Text) (last_id : Option Text) (timeout_ms : ℕ) (s : Signals W)
      → fix_timeout_ms timeout_ms ≤ fuel
      → Ends env clock (wait_for_signal env clock (suc fuel) topic last_id timeout_ms s)
  unfolding wait_for_signal
  wait_for_signal-Ends fuel topic last_id timeout_ms s h =
      let name : Text = strip topic in
      let checked : Result (Unit {0}) × Signals W = check_name env clock name s in
      then_loop-Ends env clock checked
        (λ u. set_deadline env clock (suc fuel) name last_id (fix_timeout_ms timeout_ms))
        (λ u e.
          let s' : Signals W = (now env clock checked.1).1 in
          wait_until-Ends fuel name (or_persisted env clock last_id name s')
            (fix_timeout_ms timeout_ms) ((clock.time checked.1.world).0 + fix_timeout_ms timeout_ms)
            s' (omega (arith, h, (law.time_reads checked.1.world).1)))
