-- ===== src/Signals/Receive.antt =====
-- The two reads that `wait_for_signal` tries before it polls: one without blocking, and one that
-- blocks where the bus can. A stored payload that is no dict makes them raise.
use magent.Prelude.{
  ℕ, zero, suc, ◌≡◌, refl, ◌∙◌, ap, Option, none, some, List, [], ◌∷◌, Text, codes, same_text,
  if◌then◌else◌,
}
use magent.Prelude.Exec.{Exec, Exception, other_error, return, raise, continue}
use magent.Json.{Value, str, obj, Fields, end, field, get, assign}
use magent.Bus.{BusMessage}
use magent.Signals.Send.{
  Env, Signals, Received, maybe_get_conversation_id, get_cursor, get_persisted_cursor,
  redacted_signal_message, redact_inner, process_message_for_return,
}
use magent.Observability.Redact.{redact}
use magent.Signals.Sent.{received_cursor}
use magent.Signals.Published.{wrapped}

abbrev pub no_dict : Exception
no_dict = record { kind = other_error; message = codes "payload is no dict" }

module _ {W : Type 0} (env : Env W) where
  unfoldable pub return_message : Text → (id : Text) → Value → Exec (Signals W) (Option Received)
  return_message topic id (obj payload) s =
      let (received, s') = process_message_for_return env topic id payload s in
      (return (some received), s')
  return_message topic id _ s = (raise no_dict, s)

  unfoldable pub return_first : Text → List BusMessage → Exec (Signals W) (Option Received)
  return_first topic [] s = (return none, s)
  return_first topic (m ∷ items) s = return_message topic m.id m.payload s

  unfoldable pub try_fast_path : Text → Option Text → Exec (Signals W) (Option Received)
  try_fast_path name cursor s =
      let (r, world') = env.read name cursor 1 s.world in
      continue r (return_first name) (record s { world = world' })

  unfoldable pub return_one : Text → Option BusMessage → Exec (Signals W) (Option Received)
  return_one topic none s = (return none, s)
  return_one topic (some m) s = return_message topic m.id m.payload s

  abbrev pub Reader : Type 0
  Reader = (topic : Text) → (last_id : Option Text) → (block_ms : ℕ) → Exec W (Option BusMessage)

  unfoldable pub blocking_read :
      Option Reader → Text → Option Text → ℕ → Exec (Signals W) (Option Received)
  blocking_read none name cursor remaining_ms s = (return none, s)
  blocking_read (some read) name cursor zero s = (return none, s)
  blocking_read (some read) name cursor (suc n) s =
      let (r, world') = read name cursor (suc n) s.world in
      continue r (return_one name) (record s { world = world' })

  unfoldable pub try_blocking_read : Text → Option Text → ℕ → Exec (Signals W) (Option Received)
  try_blocking_read name cursor remaining_ms =
      blocking_read env.read_blocking_one name cursor remaining_ms

  get_cursor-world :
      (o : Option Text) (j : Text) (s : Signals W) (w : W)
      → get_cursor env o j (record s { world = w }) ≡ get_cursor env o j s
  unfolding get_cursor
  get_cursor-world none j s w = refl
  get_cursor-world (some c) j s w = refl

  get_persisted_cursor-world :
      (j : Text) (s : Signals W) (w : W)
      → get_persisted_cursor env j (record s { world = w }) ≡ get_persisted_cursor env j s
  unfolding get_persisted_cursor
  get_persisted_cursor-world j s w = get_cursor-world (maybe_get_conversation_id env) j s w

  -- In a run with a conversation, when the bus answers the read behind the cursor with a signal as
  -- `send_signal` wraps it, the read without blocking returns it under the name that was asked for,
  -- with its id and its payload redacted; the persisted cursor of that name is then the id of the
  -- message, and that of any other name is as before.
  pub fast_path_resumes :
      (c name j : Text) (cursor : Option Text) (id : Text) (payload : Fields) (topic : Text)
      (s : Signals W) (w : W)
      → maybe_get_conversation_id env ≡ some c
      → env.read name cursor 1 s.world
        ≡ (return (record { topic = topic; payload = obj (wrapped payload); id = id } ∷ []), w)
      → ((try_fast_path name cursor s).0
          ≡ return (
              some (record {
                topic = name;
                message =
                    field
                      (codes "event")
                      (str (codes "signal"))
                      (field (codes "payload") (redact env.lower (obj payload)) end);
                message_id = id;
              })))
        × (get_persisted_cursor env j (try_fast_path name cursor s).1
            ≡ (if same_text name j then some id else get_persisted_cursor env j s))
  unfolding try_fast_path return_first return_message process_message_for_return
      redacted_signal_message redact_inner get assign same_text
  fast_path_resumes c name j cursor id payload topic s w e read =
      let after : Signals W = record s { world = w } in
      (
        rw read refl,
        rw read (
            received_cursor env c name id j (wrapped payload) after e
            ∙ ap (λ o. if same_text name j then some id else o) (get_persisted_cursor-world j s w)),
      )
