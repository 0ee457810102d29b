-- ===== src/Signals/Many.antt =====
-- `wait_for_any` and `wait_for_all`.
use magent.Prelude.{
  ℕ, zero, suc, ◌+◌, ◌&&◌, Option, none, some, List, [], ◌∷◌, length, leb, ltb, ◌==◌, if◌then◌else◌,
  Text, Dict, insert,
}
use magent.Prelude.Exec.{Exec, return, pure, ◌>>=◌}
use magent.Signals.Send.{Env, Signals, Received, fix_timeout_ms, prepare_topic_names, build_cursors}
use magent.Signals.Wait.{
  Clock, Reply, received, timed_out, AllReply, Found, still_open, record_found, Out, on_world, now,
  sleep, read_found, read_one, check_recent_arrivals, remaining_ms, BlockingReader,
  process_blocking, try_get_next_message, then_loop,
}

-- `results.update(more)`
unfoldable pub update : Dict Received → Dict Received → Dict Received
update results [] = results
update results ((name, message) ∷ more) = update (insert name message results) more

module _ {W : Type 0} (env : Env W) (clock : Clock W) where
  abbrev pub any_round :
      (Signals W → Out env clock Reply)
      → List Text
      → (timeout_ms deadline t : ℕ) → Signals W
      → Out env clock Reply
  any_round again names timeout_ms deadline t s =
      if leb deadline t
      then some (return (timed_out names timeout_ms []), s)
      else again (sleep env clock s)

  abbrev pub or_found : (Signals W → Out env clock Reply) → Found → Signals W → Out env clock Reply
  or_found rest (some (name, message)) s = some (return (received message), s)
  or_found rest none s = rest s

  abbrev pub any_missed :
      (Signals W → Out env clock Reply)
      → List Text
      → (timeout_ms deadline : ℕ) → Signals W
      → Out env clock Reply
  any_missed again names timeout_ms deadline s =
      then_loop env clock (now env clock s) (any_round again names timeout_ms deadline)

  unfoldable pub poll_any :
      ℕ
      → List Text
      → Dict (Option Text)
      → (timeout_ms deadline : ℕ) → Signals W
      → Out env clock Reply
  unfolding check_recent_arrivals
  poll_any zero names cursors timeout_ms deadline s = none
  poll_any (suc fuel) names cursors timeout_ms deadline s =
      let again = poll_any fuel names cursors timeout_ms deadline in
      then_loop env clock (check_recent_arrivals env clock names cursors s)
        (or_found (any_missed again names timeout_ms deadline))

  abbrev pub not_ok : List Text → ℕ → Signals W → Out env clock Reply
  not_ok names timeout_ms s = some (return (timed_out names timeout_ms []), s)

  abbrev pub block_any :
      BlockingReader env clock
      → List Text
      → Dict (Option Text)
      → (timeout_ms block_ms : ℕ) → Signals W
      → Out env clock Reply
  block_any read names cursors timeout_ms block_ms s =
      then_loop env clock
        ((on_world env clock (read names cursors block_ms) >>= process_blocking env clock) s)
        (or_found (not_ok names timeout_ms))

  -- The blocking read is the last attempt where the bus has it, and polling is the other way.
  unfoldable pub block_or_poll :
      Option (BlockingReader env clock)
      → ℕ
      → List Text
      → Dict (Option Text)
      → (timeout_ms deadline : ℕ) → Signals W
      → Out env clock Reply
  unfolding poll_any
  block_or_poll none fuel names cursors timeout_ms deadline s =
      poll_any fuel names cursors timeout_ms deadline s
  block_or_poll (some read) fuel names cursors timeout_ms deadline s =
      then_loop env clock (remaining_ms env clock deadline s)
        (block_any read names cursors timeout_ms)

  unfoldable pub any_until :
      ℕ
      → List Text
      → Dict (Option Text)
      → (timeout_ms deadline : ℕ) → Signals W
      → Out env clock Reply
  unfolding check_recent_arrivals block_or_poll
  any_until fuel names cursors timeout_ms deadline s =
      then_loop env clock (check_recent_arrivals env clock names cursors s)
        (or_found (block_or_poll clock.read_any_blocking fuel names cursors timeout_ms deadline))

  abbrev pub any_deadline :
      ℕ → (last_ids : Dict Text) → (timeout_ms : ℕ) → List Text → Signals W → Out env clock Reply
  any_deadline fuel last_ids timeout_ms names s = then_loop env clock (now env clock s) (λ t s'.
      any_until fuel names (build_cursors env names last_ids [] s') timeout_ms (t + timeout_ms) s')

  unfoldable pub wait_for_any :
      ℕ
      → (topics : List Text) → (last_ids : Dict Text) → (timeout_ms : ℕ) → Signals W
      → Out env clock Reply
  unfolding any_until
  wait_for_any fuel topics last_ids timeout_ms s =
      then_loop env clock (prepare_topic_names env topics s)
        (any_deadline fuel last_ids (fix_timeout_ms timeout_ms))

  unfoldable pub collect_initial_messages :
      List Text → Dict (Option Text) → Dict Received → Exec (Signals W) (Dict Received)
  unfolding read_one record_found
  collect_initial_messages [] cursors results = pure results
  collect_initial_messages (name ∷ names) cursors results = do
    found ← read_found env clock name cursors
    collect_initial_messages names cursors (record_found found results)

  abbrev pub AllLoop : Type 0
  AllLoop = Dict Received → Signals W → Out env clock (Dict Received)

  abbrev pub rest_unless_late :
      AllLoop → (deadline : ℕ) → Dict Received → (t : ℕ) → Signals W → Out env clock (Dict Received)
  rest_unless_late again deadline results t s =
      again results (if ltb t deadline then sleep env clock s else s)

  -- The rest of a round: a message is recorded; without one, it sleeps if there is time left.
  unfoldable pub all_round :
      AllLoop
      → List Text
      → (deadline : ℕ) → Dict Received
      → Found
      → Signals W
      → Out env clock (Dict Received)
  unfolding record_found
  all_round again names deadline results (some found) s =
      let results' = record_found (some found) results in
      if length results' == length names then some (return results', s) else again results' s
  all_round again names deadline results none s =
      then_loop env clock (now env clock s) (rest_unless_late again deadline results)

  abbrev pub all_checked :
      AllLoop
      → List Text
      → Dict (Option Text)
      → (deadline : ℕ) → Dict Received
      → (t : ℕ) → Signals W
      → Out env clock (Dict Received)
  all_checked again names cursors deadline results t s =
      if ltb t deadline && ltb (length results) (length names)
      then then_loop env clock
          (try_get_next_message env clock (still_open names results) cursors deadline s)
          (all_round again names deadline results)
      else some (return results, s)

  unfoldable pub accumulate_remaining_messages :
      ℕ → List Text → Dict (Option Text) → (deadline : ℕ) → AllLoop
  unfolding all_round try_get_next_message
  accumulate_remaining_messages zero names cursors deadline results s = none
  accumulate_remaining_messages (suc fuel) names cursors deadline results s =
      let again = accumulate_remaining_messages fuel names cursors deadline in
      then_loop env clock (now env clock s) (all_checked again names cursors deadline results)

  abbrev pub then_out :
      {A B : Type 0} → Out env clock A → (A → Signals W → Out env clock B) → Out env clock B
  then_out none f = none
  then_out (some out) f = then_loop env clock out f

  abbrev all_reply : List Text → Dict Received → AllReply
  all_reply names results = record { ok = length results == length names; messages = results }

  abbrev pub all_done :
      List Text → (results more : Dict Received) → Signals W → Out env clock AllReply
  all_done names results more s = some (return (all_reply names (update results more)), s)

  abbrev pub all_rest :
      ℕ
      → List Text
      → Dict (Option Text)
      → (deadline : ℕ) → Dict Received
      → Signals W
      → Out env clock AllReply
  all_rest fuel names cursors deadline results s =
      if length results == length names
      then some (return (all_reply names results), s)
      else then_out (accumulate_remaining_messages fuel names cursors deadline [] s)
          (all_done names results)

  unfoldable pub all_until :
      ℕ → List Text → Dict (Option Text) → (deadline : ℕ) → Signals W → Out env clock AllReply
  unfolding collect_initial_messages accumulate_remaining_messages update
  all_until fuel names cursors deadline s =
      then_loop env clock (collect_initial_messages names cursors [] s)
        (all_rest fuel names cursors deadline)

  abbrev pub all_deadline :
      ℕ → (last_ids : Dict Text) → (timeout_ms : ℕ) → List Text → Signals W → Out env clock AllReply
  all_deadline fuel last_ids timeout_ms names s =
      then_loop env clock (now env clock s)
        (λ t s'. all_until fuel names (build_cursors env names last_ids [] s') (t + timeout_ms) s')

  unfoldable pub wait_for_all :
      ℕ
      → (topics : List Text) → (last_ids : Dict Text) → (timeout_ms : ℕ) → Signals W
      → Out env clock AllReply
  unfolding all_until
  wait_for_all fuel topics last_ids timeout_ms s =
      then_loop env clock (prepare_topic_names env topics s)
        (all_deadline fuel last_ids (fix_timeout_ms timeout_ms))
