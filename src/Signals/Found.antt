-- ===== src/Signals/Found.antt =====
-- The waits on several topics: their parts against a clock, and whose message they find.
use magent.Prelude.{
  ℕ, ◌≡◌, refl, true, Option, none, some, List, [], ◌∷◌, arith, Text, Dict, lookup, has_text,
  same_text_refl,
}
use magent.Prelude.Exec.{Exec, Result, return, raise, continue}
use magent.Bus.{BusMessage}
use magent.Signals.Send.{Env, Signals, Received}
use magent.Signals.Receive.{return_message}
use magent.Signals.Wait.{
  Clock, Found, joined, record_found, on_world, process_found, with_name, read_found, or_try,
  block_for, read_one, check_recent_arrivals, remaining_ms, cursors_of, BlockingReader,
  process_blocking, try_blocking_read_all, try_get_next_message,
}
use magent.Signals.Many.{collect_initial_messages}
use magent.Signals.Later.{
  Among, IsClock, Later, read_found-Later, or_try-Later, bind-Later, check_recent_arrivals-Later,
  process_blocking-Later, remaining_ms-Later,
}

module _ {W : Type 0} (env : Env W) (clock : Clock W) (at_time : W → ℕ)
    (law : IsClock env clock at_time) where
  abbrev Lasts : {A : Type 0} → Exec (Signals W) A → Type 0
  Lasts m = Later env clock at_time law m

  try_blocking_read_all-Later :
      (reader : Option (BlockingReader env clock)) (names : List Text)
      (cursors : Dict (Option Text)) (ms : ℕ)
      → clock.read_any_blocking ≡ reader
      → Lasts (try_blocking_read_all env clock reader names cursors ms)
  unfolding try_blocking_read_all
  try_blocking_read_all-Later none names cursors ms e = λ s. omega arith
  try_blocking_read_all-Later (some read) names cursors ms e =
      bind-Later env clock at_time law
        (on_world env clock (read names (cursors_of names cursors) ms)) (process_blocking env clock)
        (λ s. law.any_on read names (cursors_of names cursors) ms s.world e)
        (process_blocking-Later env clock at_time law)

  pub try_get_next_message-Later :
      (names : List Text) (cursors : Dict (Option Text)) (deadline : ℕ)
      → Lasts (try_get_next_message env clock names cursors deadline)
  unfolding try_get_next_message
  try_get_next_message-Later names cursors deadline =
      let block : Exec (Signals W) Found = block_for env clock names cursors deadline in
      bind-Later env clock at_time law (check_recent_arrivals env clock names cursors)
        (or_try env clock block) (check_recent_arrivals-Later env clock at_time law names cursors)
        (λ found. or_try-Later env clock at_time law block found (
          bind-Later env clock at_time law (remaining_ms env clock deadline)
            (try_blocking_read_all env clock clock.read_any_blocking names cursors)
            (remaining_ms-Later env clock at_time law deadline)
            (λ ms. try_blocking_read_all-Later clock.read_any_blocking names cursors ms refl)))

  pub collect_initial_messages-Later :
      (names : List Text) (cursors : Dict (Option Text)) (results : Dict Received)
      → Lasts (collect_initial_messages env clock names cursors results)
  unfolding collect_initial_messages
  collect_initial_messages-Later [] cursors results = λ s. omega arith
  collect_initial_messages-Later (name ∷ names) cursors results =
      bind-Later env clock at_time law (read_found env clock name cursors)
        (λ found. collect_initial_messages env clock names cursors (record_found found results))
        (read_found-Later env clock at_time law name cursors)
        (λ found. collect_initial_messages-Later names cursors (record_found found results))

Among-more :
    (name : Text) (names : List Text) (r : Result Found) → Among names r → Among (name ∷ names) r
unfolding has_text
Among-more name names (raise e) h = tt
Among-more name names (return none) h = tt
Among-more name names (return (some (n, m))) h = ground (arith, h)

module _ {W : Type 0} (env : Env W) (clock : Clock W) where
  continue-Among :
      {A : Type 0} (names : List Text) (r : Result A) (f : A → Exec (Signals W) Found)
      (s : Signals W)
      → ((a : A) (t : Signals W) → r ≡ return a → Among names (f a t).0)
      → Among names (continue r f s).0
  continue-Among names (return a) f s h = h a s refl
  continue-Among names (raise e) f s h = tt

  with_name-Among :
      (name : Text) (names : List Text) (m : Option Received) (s : Signals W)
      → has_text name names ≡ true
      → Among names (with_name env clock name m s).0
  with_name-Among name names none s h = tt
  with_name-Among name names (some m) s h = h

  process_found-Among :
      (name : Text) (names : List Text) (m : Option BusMessage) (s : Signals W)
      → has_text name names ≡ true
      → Among names (process_found env clock name m s).0
  process_found-Among name names none s h = tt
  process_found-Among name names (some m) s h =
      let out : Result (Option Received) × Signals W = return_message env name m.id m.payload s in
      continue-Among names out.0 (with_name env clock name) out.1
        (λ found t e. with_name-Among name names found t h)

  read_found-Among :
      (name : Text) (names : List Text) (cursors : Dict (Option Text)) (s : Signals W)
      → has_text name names ≡ true
      → Among names (read_found env clock name cursors s).0
  read_found-Among name names cursors s h =
      let out : Result (Option BusMessage) × Signals W =
        read_one env clock name (joined (lookup name cursors)) s in
      continue-Among names out.0 (process_found env clock name) out.1
        (λ m t e. process_found-Among name names m t h)

  or_try-Among :
      (names : List Text) (other : Exec (Signals W) Found) (r : Result Found) (s : Signals W)
      → Among names r
      → ((t : Signals W) → Among names (other t).0)
      → Among names (continue r (or_try env clock other) s).0
  or_try-Among names other (raise e) s h k = tt
  or_try-Among names other (return none) s h k = k s
  or_try-Among names other (return (some (n, m))) s h k = h

  check_recent_arrivals-Among :
      (names : List Text) (cursors : Dict (Option Text)) (s : Signals W)
      → Among names (check_recent_arrivals env clock names cursors s).0
  unfolding check_recent_arrivals has_text
  check_recent_arrivals-Among [] cursors s = tt
  check_recent_arrivals-Among (name ∷ names) cursors s =
      let rest : Exec (Signals W) Found = check_recent_arrivals env clock names cursors in
      let out : Result Found × Signals W = read_found env clock name cursors s in
      or_try-Among (name ∷ names) rest out.0 out.1
        (read_found-Among name (name ∷ names) cursors s (ground (arith, same_text_refl name)))
        (λ t. Among-more name names (rest t).0 (check_recent_arrivals-Among names cursors t))

  process_blocking-Among :
      (names : List Text) (r : Result (Option (Text × BusMessage))) (s : Signals W)
      → Among names r
      → Among names (continue r (process_blocking env clock) s).0
  process_blocking-Among names (raise e) s h = tt
  process_blocking-Among names (return none) s h = tt
  process_blocking-Among names (return (some (n, m))) s h = process_found-Among n names (some m) s h

  try_blocking_read_all-Among :
      (at_time : W → ℕ) (law : IsClock env clock at_time)
      (reader : Option (BlockingReader env clock)) (names : List Text)
      (cursors : Dict (Option Text)) (ms : ℕ) (s : Signals W)
      → clock.read_any_blocking ≡ reader
      → Among names (try_blocking_read_all env clock reader names cursors ms s).0
  unfolding try_blocking_read_all
  try_blocking_read_all-Among at_time law none names cursors ms s e = tt
  try_blocking_read_all-Among at_time law (some read) names cursors ms s e =
      let out : Result (Option (Text × BusMessage)) × W =
        read names (cursors_of names cursors) ms s.world in
      process_blocking-Among names out.0 (record s { world = out.1 })
        (law.any_names read names (cursors_of names cursors) ms s.world e)

  pub try_get_next_message-Among :
      (at_time : W → ℕ) (law : IsClock env clock at_time) (names : List Text)
      (cursors : Dict (Option Text)) (deadline : ℕ) (s : Signals W)
      → Among names (try_get_next_message env clock names cursors deadline s).0
  unfolding try_get_next_message
  try_get_next_message-Among at_time law names cursors deadline s =
      let block : Exec (Signals W) Found = block_for env clock names cursors deadline in
      let out : Result Found × Signals W = check_recent_arrivals env clock names cursors s in
      or_try-Among names block out.0 out.1 (check_recent_arrivals-Among names cursors s) (λ t.
        let left : Result ℕ × Signals W = remaining_ms env clock deadline t in
        continue-Among names left.0
          (try_blocking_read_all env clock clock.read_any_blocking names cursors) left.1
          (λ ms t' e.
            try_blocking_read_all-Among at_time law clock.read_any_blocking names cursors ms t'
              refl))
