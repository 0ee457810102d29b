-- ===== src/Runner/Delivery.antt =====
-- What the consumer of a run receives while the queue has room.
use magent.Prelude.{
  ℕ, zero, suc, ◌+◌, ◌≤◌, ◌<◌, ◌≡◌, refl, sym, ap, subst, ◌∙◌, Bool, true, false, Option, none,
  some, List, [], ◌∷◌, ◌++◌, map, length, arith, length-append, length-map, append_assoc,
  append-nil, ltb, if◌then◌else◌, Text,
}
use mathlib.Core.List.{map-append}
use magent.Runner.Step.{StreamEvent, output, Env, ToolState}
use magent.Runner.Events.{map_event}
use magent.Runner.Stream.{
  Turn, sdk_event, get, Ending, exhausted, failed, finished, Run, maxsize, put_nowait, drain_queue,
  enqueue_event, enqueue_mapped_event, take_event, emit_synth_output, finish_run, put_sentinel,
  take_turn, process_event_stream, new_run, take_late, stream_run,
}
use magent.Runner.Streamed.{
  tokens_in, text_in, has_output, synth_output, tokens_in-append, events_of, Tallied,
  enqueue_mapped_event-Tallied, take_event-Tallied, take_event-same, enqueue_event_lem,
  enqueue_mapped_event-tools,
}

-- Every event so far was received or waits in the queue, in order.
abbrev Keeps : {W : Type 0} → List StreamEvent → Run W → Type 0
Keeps events r =
    (waiting : List StreamEvent) × (r.queue ≡ map some waiting) × (r.received ++ waiting ≡ events)

pub put_nowait_room :
    (item : Option StreamEvent) (queue : List (Option StreamEvent))
    → length queue < maxsize
    → put_nowait item queue ≡ queue ++ item ∷ []
unfolding put_nowait
put_nowait_room item queue room =
    let has_room : ltb (length queue) maxsize ≡ true = ground (arith, room) in rw has_room refl

-- A sentinel behind the waiting events ends the consumer's loop.
drain_waiting :
    (waiting received : List StreamEvent)
    → drain_queue (map some waiting ++ none ∷ []) received ≡ finished (received ++ waiting)
unfolding drain_queue
drain_waiting [] received = rw (append-nil received) refl
drain_waiting (event ∷ waiting) received =
    drain_waiting waiting (received ++ event ∷ [])
    ∙ ap finished (append_assoc received (event ∷ []) waiting)

module _ {W : Type 0} where
  put-Keeps :
      (event : StreamEvent) (events : List StreamEvent) (r r' : Run W)
      → Keeps events r
      → length events < maxsize
      → r'.queue ≡ put_nowait (some event) r.queue
      → r'.received ≡ r.received
      → Keeps (events ++ event ∷ []) r'
  put-Keeps event events r r' (waiting, queue, log) room put same =
      let short : length r.queue < maxsize = omega (
        arith,
        room,
        ap length queue,
        length-map waiting (λ (e : StreamEvent). some e),
        ap length log,
        length-append r.received waiting,
      ) in
      (
        waiting ++ event ∷ [],
        put
            ∙ put_nowait_room (some event) r.queue short
            ∙ rw queue (sym (map-append some waiting (event ∷ []))),
        rw (same, sym log) (sym (append_assoc r.received waiting (event ∷ []))),
      )

  take_event-Keeps :
      (events : List StreamEvent) (r : Run W) → Keeps events r → Keeps events (take_event r)
  unfolding take_event
  take_event-Keeps events r ([], queue, log) = rw queue ([], refl, log)
  take_event-Keeps events r (event ∷ waiting, queue, log) =
      rw queue (waiting, refl, append_assoc r.received (event ∷ []) waiting ∙ log)

  take_late-Keeps :
      (late : ℕ) (events : List StreamEvent) (r : Run W)
      → Keeps events r
      → Keeps events (take_late late r)
  take_late-Keeps zero events r h = h
  take_late-Keeps (suc late) events r h =
      take_late-Keeps late events (take_event r) (take_event-Keeps events r h)

  enqueue_mapped_event-Keeps :
      (taken : List ℕ) (more events : List StreamEvent) (r : Run W)
      → Keeps events r
      → length events + length more ≤ maxsize
      → Keeps (events ++ more) (enqueue_mapped_event taken more r)
  unfolding enqueue_mapped_event
  enqueue_mapped_event-Keeps taken [] events r h room = rw (append-nil events) h
  enqueue_mapped_event-Keeps [] (event ∷ more) events r h room =
      let (put, same, tools) = enqueue_event_lem event r in
      subst (λ all. Keeps all (enqueue_mapped_event [] more (enqueue_event event r)))
        (append_assoc events (event ∷ []) more)
        (enqueue_mapped_event-Keeps [] more (events ++ event ∷ []) (enqueue_event event r)
          (put-Keeps event events r (enqueue_event event r) h (omega (arith, room)) put same)
          (omega (arith, room, length-append events (event ∷ []))))
  enqueue_mapped_event-Keeps (n ∷ taken) (event ∷ more) events r h room =
      let (put, same, tools) = enqueue_event_lem event r in
      let r' : Run W = take_late n (enqueue_event event r) in
      subst (λ all. Keeps all (enqueue_mapped_event taken more r'))
        (append_assoc events (event ∷ []) more)
        (enqueue_mapped_event-Keeps taken more (events ++ event ∷ []) r'
          (take_late-Keeps n (events ++ event ∷ []) (enqueue_event event r)
            (put-Keeps event events r (enqueue_event event r) h (omega (arith, room)) put same))
          (omega (arith, room, length-append events (event ∷ []))))

  sentinel_ends :
      (events : List StreamEvent) (r : Run W)
      → Keeps events r
      → length events < maxsize
      → drain_queue (put_sentinel r).queue (put_sentinel r).received ≡ finished events
  unfolding put_sentinel
  sentinel_ends events r (waiting, queue, log) room =
      let short : length r.queue < maxsize = omega (
        arith,
        room,
        ap length queue,
        length-map waiting (λ (e : StreamEvent). some e),
        ap length log,
        length-append r.received waiting,
      ) in
      rw (put_nowait_room none r.queue short, queue)
        (drain_waiting waiting r.received ∙ ap finished log)

either-Keeps :
    {W : Type 0} (a b : Bool) (events xs ys : List StreamEvent) (r r' : Run W)
    → a ≡ b
    → Keeps (events ++ xs) r
    → Keeps (events ++ ys) r'
    → Keeps (events ++ (if b then xs else ys)) (if a then r else r')
either-Keeps true true events xs ys r r' e k k' = k
either-Keeps false false events xs ys r r' e k k' = k'
either-Keeps true false events xs ys r r' e k k' = cc
either-Keeps false true events xs ys r r' e k k' = cc

module _ {W : Type 0} (env : Env W) (c : Text) where
  abbrev Streamed : List StreamEvent → Run W → Type 0
  Streamed events r = Keeps events r × Tallied events r

  process_event_stream_step :
      (turns : List Turn) (events : List StreamEvent) (index : ℕ) (tools : ToolState W) (r : Run W)
      → Streamed events r
      → r.token_index ≡ index
      → r.tools ≡ tools
      → length events + length (events_of env c turns index tools) ≤ maxsize
      → Streamed (events ++ events_of env c turns index tools) (process_event_stream env c turns r)
  unfolding process_event_stream events_of take_turn
  process_event_stream_step [] events index tools r (k, h) ei et room =
      rw (append-nil events) (k, h)
  process_event_stream_step (get ∷ turns) events index tools r (k, h) ei et room =
      let (same_index, same_tools) = take_event-same r in
      process_event_stream_step turns events index tools (take_event r)
        (take_event-Keeps events r k, take_event-Tallied events r h) (same_index ∙ ei)
        (same_tools ∙ et) room
  process_event_stream_step (sdk_event ev taken ∷ turns) events index tools r (k, h) ei et room =
      let more : List StreamEvent = (map_event env c ev index tools).0 in
      let tools' : ToolState W = (map_event env c ev index tools).1 in
      let rest : List StreamEvent = events_of env c turns (index + tokens_in more) tools' in
      let mapped : map_event env c ev r.token_index r.tools ≡ map_event env c ev index tools =
        rw (ei, et) refl in
      let r0 : Run W = record r { tools = tools' } in
      let r1 : Run W = enqueue_mapped_event taken more r0 in
      let fits : length events + (length more + length rest) ≤ maxsize =
        omega (arith, room, length-append more rest) in
      let k1 : Keeps (events ++ more) r1 =
        enqueue_mapped_event-Keeps taken more events r0 k (omega (arith, fits)) in
      let h1 : Tallied (events ++ more) r1 =
        enqueue_mapped_event-Tallied taken more events r0
          (record { index = h.index; text = h.text; saw = h.saw }) in
      let next : Streamed (events ++ more ++ rest) (process_event_stream env c turns r1) =
        process_event_stream_step turns (events ++ more) (index + tokens_in more) tools' r1 (k1, h1)
          (omega (arith, h1.index, tokens_in-append events more, h.index, ei))
          (enqueue_mapped_event-tools taken more r0)
          (omega (arith, fits, length-append events more)) in
      subst
        (λ p. Streamed (events ++ (more ++ rest)) (
          process_event_stream env c turns
            (enqueue_mapped_event taken p.0 (record r { tools = p.1 }))))
        (sym mapped)
        (subst (λ all. Streamed all (process_event_stream env c turns r1))
          (append_assoc events more rest) next)

  finish_run-Keeps :
      (ending : Ending) (events : List StreamEvent) (r : Run W)
      → Streamed events r
      → length events < maxsize
      → Keeps (events ++ synth_output c ending events) (finish_run c ending r)
  unfolding finish_run synth_output emit_synth_output
  finish_run-Keeps exhausted events r (k, h) room =
      let synth : StreamEvent = output c (text_in events) none in
      either-Keeps r.saw_output (has_output events) events [] (synth ∷ []) r (emit_synth_output c r)
        h.saw (rw (append-nil events) k)
        (put-Keeps synth events r (emit_synth_output c r) k room
          (ap (λ t. put_nowait (some (output c t none)) r.queue) h.text) refl)
  finish_run-Keeps failed events r (k, h) room = rw (append-nil events) k

  length-synth_output :
      (ending : Ending) (events : List StreamEvent) → length (synth_output c ending events) ≤ 1
  unfolding synth_output
  length-synth_output exhausted events = ground arith
  length-synth_output failed events = omega arith

  -- When a run maps to at most 1022 events, the consumer of the run stops, having received each
  -- mapped event once and in order, and then, if the SDK's stream ended without an error and no
  -- event was an output, one output with the joined texts of the tokens; in whatever way the
  -- consumer and the run take turns.
  pub stream_run_delivers :
      (turns : List Turn) (ending : Ending) (late : ℕ) (tools : ToolState W)
      → length (events_of env c turns 0 tools) + 2 ≤ maxsize
      → stream_run env c turns ending late tools
        ≡ finished
            (events_of env c turns 0 tools ++ synth_output c ending (events_of env c turns 0 tools))
  unfolding stream_run tokens_in text_in has_output
  stream_run_delivers turns ending late tools room =
      let events : List StreamEvent = events_of env c turns 0 tools in
      let extra : List StreamEvent = synth_output c ending events in
      let start : Run W = new_run env c tools in
      let streamed : Streamed events (process_event_stream env c turns start) =
        process_event_stream_step turns [] 0 tools start
          (([], refl, refl), record { index = refl; text = refl; saw = refl }) refl refl
          (omega (arith, room)) in
      let r : Run W = finish_run c ending (process_event_stream env c turns start) in
      sentinel_ends (events ++ extra) (take_late late r)
        (take_late-Keeps late (events ++ extra) r (
          finish_run-Keeps ending events (process_event_stream env c turns start) streamed
            (omega (arith, room))))
        (omega (arith, room, length-append events extra, length-synth_output ending events))
