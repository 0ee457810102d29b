-- ===== src/Runner/Stalled.antt =====
-- What becomes of the sentinel when the queue is full.
use magent.Prelude.{
  ℕ, zero, suc, ◌+◌, ◌≤◌, ◌≡◌, refl, sym, ap, subst, ◌∙◌, Bool, true, false, Option, none, some,
  List, [], ◌∷◌, ◌++◌, map, length, take, arith, length-append, length-map, length-take, take_all,
  append_assoc, append-nil, ltb, if◌then◌else◌, Text,
}
use mathlib.Core.List.{map-append}
use native.Mathlib.Decide.{dec_lt}
use magent.Runner.Objects.{Obj}
use magent.Runner.Step.{StreamEvent, output, Env, ToolState}
use magent.Runner.Events.{map_event}
use magent.Runner.Stream.{
  Turn, sdk_event, Ending, exhausted, failed, blocked, Run, maxsize, put_nowait, drain_queue,
  enqueue_event, enqueue_mapped_event, emit_synth_output, finish_run, put_sentinel, take_turn,
  process_event_stream, new_run, stream_run,
}
use magent.Runner.Streamed.{
  tokens_in, text_in, has_output, Tallied, tokens_in-append, events_of,
  enqueue_mapped_event-Tallied, enqueue_event_lem, enqueue_mapped_event-tools,
}
use magent.Runner.Delivery.{put_nowait_room}

take-prefix : {A : Type 0} (n : ℕ) (xs ys : List A) → n ≤ length xs → take n (xs ++ ys) ≡ take n xs
take-prefix zero xs ys h = refl
take-prefix (suc n) [] ys h = let bad : ⊥ = omega arith in absurd bad
take-prefix (suc n) (x ∷ xs) ys h = ap (λ t. x ∷ t) (take-prefix n xs ys (omega arith))

put_nowait_full :
    (item : Option StreamEvent) (queue : List (Option StreamEvent))
    → maxsize ≤ length queue
    → put_nowait item queue ≡ queue
unfolding put_nowait
put_nowait_full item queue full =
    let no_room : ltb (length queue) maxsize ≡ false = ground (arith, full) in rw no_room refl

-- The consumer takes nothing of the mapped events.
abbrev pub undisturbed : Obj → Turn
undisturbed ev = sdk_event ev []

-- Nothing was taken: the queue holds the first events, as many as it has room for.
abbrev first_of : List StreamEvent → List (Option StreamEvent)
first_of events = map some (take maxsize events)

length-first_of :
    (events : List StreamEvent) → maxsize ≤ length events → maxsize ≤ length (first_of events)
length-first_of events h = omega (
  arith,
  h,
  length-map (take maxsize events) (λ (e : StreamEvent). some e),
  length-take maxsize events,
)

put-first_of :
    (event : StreamEvent) (events : List StreamEvent)
    → put_nowait (some event) (first_of events) ≡ first_of (events ++ event ∷ [])
put-first_of event events = elim (dec_lt (length events) maxsize) [
  | yes room ↦
      let all : take maxsize events ≡ events = take_all maxsize events (omega (arith, room)) in
      let all' : take maxsize (events ++ event ∷ []) ≡ events ++ event ∷ [] =
        take_all maxsize (events ++ event ∷ [])
          (omega (arith, room, length-append events (event ∷ []))) in
      rw (all, all')
        (put_nowait_room (some event) (map some events)
            (omega (arith, room, length-map events (λ (e : StreamEvent). some e)))
          ∙ sym (map-append some events (event ∷ [])))
  | no full ↦
      put_nowait_full (some event) (first_of events) (length-first_of events (omega (arith, full)))
      ∙ ap (map some) (sym (take-prefix maxsize events (event ∷ []) (omega (arith, full))))
]

-- The consumer takes what is there, and waits.
drain_blocks :
    (events received : List StreamEvent)
    → drain_queue (map some events) received ≡ blocked (received ++ events)
unfolding drain_queue
drain_blocks [] received = rw (append-nil received) refl
drain_blocks (event ∷ events) received =
    drain_blocks events (received ++ event ∷ [])
    ∙ ap blocked (append_assoc received (event ∷ []) events)

-- The state of a run from which nothing was taken.
abbrev Untaken : {W : Type 0} → List StreamEvent → Run W → Type 0
Untaken events r = (r.queue ≡ first_of events) × (r.received ≡ []) × Tallied events r

either_same :
    {W : Type 0} (b : Bool) (r r' : Run W)
    → r'.queue ≡ r.queue
    → r'.received ≡ r.received
    → ((if b then r else r').queue ≡ r.queue) × ((if b then r else r').received ≡ r.received)
either_same true r r' q e = (refl, refl)
either_same false r r' q e = (q, e)

module _ {W : Type 0} where
  enqueue_mapped_event-queue :
      (more events : List StreamEvent) (r : Run W)
      → r.queue ≡ first_of events
      → r.received ≡ []
      → ((enqueue_mapped_event [] more r).queue ≡ first_of (events ++ more))
        × ((enqueue_mapped_event [] more r).received ≡ [])
  unfolding enqueue_mapped_event
  enqueue_mapped_event-queue [] events r q e = rw (append-nil events) (q, e)
  enqueue_mapped_event-queue (event ∷ more) events r q e =
      let (put, same, tools) = enqueue_event_lem event r in
      subst
        (λ all.
          ((enqueue_mapped_event [] more (enqueue_event event r)).queue ≡ first_of all)
          × ((enqueue_mapped_event [] more (enqueue_event event r)).received ≡ []))
        (append_assoc events (event ∷ []) more)
        (enqueue_mapped_event-queue more (events ++ event ∷ []) (enqueue_event event r)
          (put ∙ ap (put_nowait (some event)) q ∙ put-first_of event events) (same ∙ e))

module _ {W : Type 0} (env : Env W) (c : Text) where
  process-Untaken :
      (evs : List Obj) (events : List StreamEvent) (index : ℕ) (tools : ToolState W) (r : Run W)
      → Untaken events r
      → r.token_index ≡ index
      → r.tools ≡ tools
      → Untaken
          (events ++ events_of env c (map undisturbed evs) index tools)
          (process_event_stream env c (map undisturbed evs) r)
  unfolding process_event_stream events_of take_turn
  process-Untaken [] events index tools r u ei et = rw (append-nil events) u
  process-Untaken (ev ∷ evs) events index tools r (q, e, h) ei et =
      let more : List StreamEvent = (map_event env c ev index tools).0 in
      let tools' : ToolState W = (map_event env c ev index tools).1 in
      let rest : List StreamEvent =
        events_of env c (map undisturbed evs) (index + tokens_in more) tools' in
      let mapped : map_event env c ev r.token_index r.tools ≡ map_event env c ev index tools =
        rw (ei, et) refl in
      let r0 : Run W = record r { tools = tools' } in
      let r1 : Run W = enqueue_mapped_event [] more r0 in
      let (q1, e1) = enqueue_mapped_event-queue more events r0 q e in
      let h1 : Tallied (events ++ more) r1 =
        enqueue_mapped_event-Tallied [] more events r0
          (record { index = h.index; text = h.text; saw = h.saw }) in
      let next : Untaken (events ++ more ++ rest)
          (process_event_stream env c (map undisturbed evs) r1) =
        process-Untaken evs (events ++ more) (index + tokens_in more) tools' r1 (q1, e1, h1)
          (omega (arith, h1.index, tokens_in-append events more, h.index, ei))
          (enqueue_mapped_event-tools [] more r0) in
      subst
        (λ p. Untaken (events ++ (more ++ rest)) (
          process_event_stream env c (map undisturbed evs)
            (enqueue_mapped_event [] p.0 (record r { tools = p.1 }))))
        (sym mapped)
        (subst (λ all. Untaken all (process_event_stream env c (map undisturbed evs) r1))
          (append_assoc events more rest) next)

  finish_run_full :
      (ending : Ending) (r : Run W)
      → maxsize ≤ length r.queue
      → ((finish_run c ending r).queue ≡ r.queue) × ((finish_run c ending r).received ≡ r.received)
  unfolding finish_run emit_synth_output
  finish_run_full exhausted r full =
      either_same r.saw_output r (emit_synth_output c r)
        (put_nowait_full (some (output c r.accumulated none)) r.queue full) refl
  finish_run_full failed r full = (refl, refl)

  -- When a run maps to at least 1024 events and the consumer takes none of them until the run has
  -- tried to put its sentinel, the consumer receives the first 1024 of them and then waits for ever,
  -- since neither the output nor the sentinel found room in the queue.
  pub stream_run_stalls :
      (evs : List Obj) (ending : Ending) (tools : ToolState W)
      → maxsize ≤ length (events_of env c (map undisturbed evs) 0 tools)
      → stream_run env c (map undisturbed evs) ending 0 tools
        ≡ blocked (take maxsize (events_of env c (map undisturbed evs) 0 tools))
  unfolding stream_run put_sentinel tokens_in text_in has_output
  stream_run_stalls evs ending tools many =
      let events : List StreamEvent = events_of env c (map undisturbed evs) 0 tools in
      let start : Run W = new_run env c tools in
      let r : Run W = process_event_stream env c (map undisturbed evs) start in
      let (q, e, h) =
        process-Untaken evs [] 0 tools start
          (refl, refl, record { index = refl; text = refl; saw = refl }) refl refl in
      let full : maxsize ≤ length r.queue =
        omega (arith, ap length q, length-first_of events many) in
      let (q', e') = finish_run_full ending r full in
      let kept : put_nowait none (finish_run c ending r).queue ≡ first_of events =
        put_nowait_full none (finish_run c ending r).queue (omega (arith, full, ap length q'))
        ∙ q'
        ∙ q in
      rw (kept, e', e) (drain_blocks (take maxsize events) [])
