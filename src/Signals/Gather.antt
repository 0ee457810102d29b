-- ===== src/Signals/Gather.antt =====
-- The rounds in which `wait_for_all` gathers messages.
use magent.Prelude.{
  ℕ, zero, suc, ◌+◌, ◌≤◌, ◌<◌, ◌≡◌, refl, subst, inl, inr, true, false, ◌&&◌, Bool-cases, Option,
  none, some, List, [], ◌∷◌, arith, length, length-insert, ltb, ◌==◌, Text, Dict, lookup, insert,
  has_text, same_text_iff, is_some,
}
use magent.Prelude.Exec.{Result, return}
use magent.Signals.Send.{Env, Signals, Received}
use magent.Signals.Wait.{Clock, Found, still_open, Out, now, sleep, try_get_next_message, then_loop}
use magent.Signals.Many.{
  collect_initial_messages, AllLoop, all_round, accumulate_remaining_messages, then_out, all_done,
  all_rest, all_until,
}
use magent.Signals.Later.{Among, IsClock}
use magent.Signals.Found.{
  try_get_next_message-Later, try_get_next_message-Among, collect_initial_messages-Later,
}
use magent.Signals.Ends.{Ends, then_loop-Ends, if-Ends}

still_open_lem :
    (names : List Text) (results : Dict Received) (name : Text)
    → has_text name (still_open names results) ≡ true
    → is_some (lookup name results) ≡ false
unfolding has_text
still_open_lem [] results name h = ground (arith, h)
still_open_lem (n ∷ names) results name h =
    ground (arith, h, still_open_lem names results name, same_text_iff name n, same_text_iff n name)

module _ {W : Type 0} (env : Env W) (clock : Clock W) (at_time : W → ℕ)
    (law : IsClock env clock at_time) where
  -- After a round from the time `began` there is less left.
  all_round-Ends :
      (again : AllLoop env clock) (began : ℕ) (names : List Text) (deadline : ℕ)
      (results : Dict Received) (r : Result Found) (found : Found) (s : Signals W)
      → r ≡ return found
      → Among (still_open names results) r
      → began ≤ at_time s.world
      → began < deadline
      → ((results' : Dict Received) (s' : Signals W)
          → length results + began < length results' + at_time s'.world
          → Ends env clock (again results' s'))
      → Ends env clock (all_round env clock again names deadline results found s)
  unfolding all_round
  all_round-Ends again began names deadline results r none s e among since early h =
      let t : ℕ = (clock.time s.world).0 in
      let s1 : Signals W = (now env clock s).1 in
      let (before, after) = law.time_reads s.world in
      elim (Bool-cases (ltb t deadline)) [
        | inl in_time ↦ rw in_time (
            h results (sleep env clock s1)
              (omega (arith, since, before, after, law.sleep_on s1.world)))
        | inr late ↦
            let over : deadline ≤ t = ground (arith, late) in
            rw late (h results s1 (omega (arith, early, over, after)))
      ]
  all_round-Ends again began names deadline results r (some (name, m)) s e among since early h =
      let new : has_text name (still_open names results) ≡ true =
        subst (Among (still_open names results)) e among in
      if-Ends env clock (length (insert name m results) == length names)
        (some (return (insert name m results), s)) (again (insert name m results) s) (λ all. refl)
        (λ more. h (insert name m results) s (
          omega
            (arith, since, length-insert name m results (still_open_lem names results name new))))

  accumulate-Ends :
      (fuel : ℕ) (names : List Text) (cursors : Dict (Option Text)) (deadline : ℕ)
      (results : Dict Received) (s : Signals W)
      → length names + deadline ≤ fuel + length results + at_time s.world
      → Ends env clock
          (accumulate_remaining_messages env clock (suc fuel) names cursors deadline results s)
  unfolding accumulate_remaining_messages
  accumulate-Ends zero names cursors deadline results s h =
      let t : ℕ = (clock.time s.world).0 in
      let stop : (ltb t deadline && ltb (length results) (length names)) ≡ false =
        ground (arith, h, (law.time_reads s.world).0) in
      rw stop refl
  accumulate-Ends (suc fuel) names cursors deadline results s h =
      let t : ℕ = (clock.time s.world).0 in
      let s1 : Signals W = (now env clock s).1 in
      let (before, after) = law.time_reads s.world in
      let again : AllLoop env clock =
        accumulate_remaining_messages env clock (suc fuel) names cursors deadline in
      let out : Result Found × Signals W =
        try_get_next_message env clock (still_open names results) cursors deadline s1 in
      if-Ends env clock (ltb t deadline && ltb (length results) (length names))
        (then_loop env clock out (all_round env clock again names deadline results))
        (some (return results, s1))
        (λ go.
          then_loop-Ends env clock out (all_round env clock again names deadline results)
            (λ found e.
              all_round-Ends again (at_time s.world) names deadline results out.0 found out.1 e
                (try_get_next_message-Among env clock at_time law (still_open names results) cursors
                  deadline s1)
                (omega (
                  arith,
                  before,
                  after,
                  try_get_next_message-Later env clock at_time law (still_open names results)
                      cursors deadline s1,
                ))
                (ground (arith, go, before))
                (λ results' s' less.
                  accumulate-Ends fuel names cursors deadline results' s'
                    (omega (arith, h, less)))))
        (λ stop. refl)

  then_out-Ends :
      {A B : Type 0} (out : Out env clock A) (f : A → Signals W → Out env clock B)
      → Ends env clock out
      → ((a : A) (s : Signals W) → Ends env clock (f a s))
      → Ends env clock (then_out env clock out f)
  then_out-Ends none f h k = h
  then_out-Ends (some out) f h k = then_loop-Ends env clock out f (λ a e. k a out.1)

  pub all_until-Ends :
      (fuel : ℕ) (names : List Text) (cursors : Dict (Option Text)) (deadline : ℕ) (s : Signals W)
      → length names + deadline ≤ fuel + at_time s.world
      → Ends env clock (all_until env clock (suc fuel) names cursors deadline s)
  unfolding all_until
  all_until-Ends fuel names cursors deadline s h =
      let out : Result (Dict Received) × Signals W =
        collect_initial_messages env clock names cursors [] s in
      let later : at_time s.world ≤ at_time out.1.world =
        collect_initial_messages-Later env clock at_time law names cursors [] s in
      then_loop-Ends env clock out (all_rest env clock (suc fuel) names cursors deadline)
        (λ results e.
          let rest : Out env clock (Dict Received) =
            accumulate_remaining_messages env clock (suc fuel) names cursors deadline [] out.1 in
          if-Ends env clock (length results == length names) _
            (then_out env clock rest (all_done env clock names results)) (λ all. refl)
            (λ more.
              then_out-Ends rest (all_done env clock names results)
                (accumulate-Ends fuel names cursors deadline [] out.1 (omega (arith, h, later)))
                (λ a s'. refl)))
