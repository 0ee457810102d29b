-- ===== src/Runner/Matched.antt =====
-- A run of tool items through Runner.Tools against its run through the queues of Runner.Queues.
use magent.Prelude.{
  ℕ, ◌≡◌, refl, ap, ◌∙◌, subst, Bool, true, false, ◌&&◌, ◌++◌, Option, none, some, List, [], ◌∷◌,
  map, arith, All, All-map, Text, codes, same_text, same_text_iff, same_text_refl, same_text-append,
  lookup,
}
use magent.Runner.Objects.{Obj, or_else}
use magent.Runner.Step.{duration_since, Env, ToolState, text_or, unknown_tool}
use magent.Runner.Tools.{
  ids_of, leave_ids, get_pending_tool_id, take_pending, result_for, create_fallback_tool_events,
  build_tool_result_event, handle_tool_result,
}
use magent.Runner.Pairs.{insert_pair_same, pop_pair_other, pop_inserted_other, ids_of-leave_ids}
use magent.Runner.Queues.{Open, id_of, Queues, set_queue, close_call, IsUnique}
use magent.Runner.Fifo.{Apart, Stored, Refines, set_queue-keeps, new_id}

text_or_idem :
    (name : Option Text)
    → text_or unknown_tool (some (text_or unknown_tool name)) ≡ text_or unknown_tool name
text_or_idem none = refl
text_or_idem (some []) = refl
text_or_idem (some (c ∷ s)) = refl

module _ {W : Type 0} where
  get_pending_none :
      (c : Text) (s : ToolState W)
      → ids_of (lookup c s.pending_tool_ids) ≡ []
      → get_pending_tool_id c s ≡ (none, s)
  unfolding get_pending_tool_id take_pending
  get_pending_none c s h = rw h refl

  get_pending_some :
      (c id : Text) (ids : List Text) (s : ToolState W)
      → ids_of (lookup c s.pending_tool_ids) ≡ id ∷ ids
      → get_pending_tool_id c s
        ≡ (some id, record s { pending_tool_ids = leave_ids c ids s.pending_tool_ids })
  unfolding get_pending_tool_id take_pending
  get_pending_some c id ids s h = rw h refl

module _ {W : Type 0} (env : Env W) (issued : W → Text → Bool) (unique : IsUnique env issued) where
  fallback_events :
      (c : Text) (name : Option Text) (result item : Obj) (queues : Queues) (s : ToolState W)
      → ((create_fallback_tool_events env c name result item s).0
          ≡ (close_call env c name result [] s.world queues).0)
        × ((create_fallback_tool_events env c name result item s).1.world
            ≡ (close_call env c name result [] s.world queues).1.0)
  unfolding create_fallback_tool_events build_tool_result_event
  fallback_events c name result item queues s =
      let found : _ =
        insert_pair_same c (codes "tc_" ++ (env.uuid4_hex s.world).0)
          (env.perf_counter_ns (env.uuid4_hex s.world).1).0 s.tool_start_ns in
      (rw (found, text_or_idem name) refl, rw found refl)

  closed_events :
      (c : Text) (name : Option Text) (result item : Obj) (p : Open) (calls : List Open)
      (queues : Queues) (s : ToolState W)
      → Stored c s issued p
      → ((result_for env c name result item (some (id_of p), s)).0
          ≡ (close_call env c name result (p ∷ calls) s.world queues).0)
        × ((result_for env c name result item (some (id_of p), s)).1.world
            ≡ (close_call env c name result (p ∷ calls) s.world queues).1.0)
  unfolding result_for build_tool_result_event
  closed_events c name result item p calls queues s h =
      (rw (h.named, h.started, text_or_idem (or_else name (some p.name))) refl, rw h.started refl)

  duration_keeps :
      (start_ns : Option ℕ) (w : W) (t : Text)
      → issued w t ≡ true
      → issued (duration_since env start_ns w).1 t ≡ true
  unfolding duration_since
  duration_keeps none w t h = h
  duration_keeps (some n) w t h = unique.clock_keeps w t h

  fallback-Stored :
      (c d : Text) (name : Option Text) (result item : Obj) (s : ToolState W) (p : Open)
      → Stored d s issued p
      → Stored d (create_fallback_tool_events env c name result item s).1 issued p
  unfolding create_fallback_tool_events build_tool_result_event
  fallback-Stored c d name result item s p h =
      let hex : Text = (env.uuid4_hex s.world).0 in
      let w1 : W = (env.uuid4_hex s.world).1 in
      let keys : same_text (codes "tc_" ++ hex) (id_of p) ≡ false =
        same_text-append (codes "tc_") hex p.hex
        ∙ ground (
          arith,
          new_id env issued unique d s p h,
          same_text_iff hex p.hex,
          same_text_iff p.hex hex,
        ) in
      record {
        started =
            pop_inserted_other c (codes "tc_" ++ hex) d (id_of p) (env.perf_counter_ns w1).0
              s.tool_start_ns keys
            ∙ h.started;
        named =
            pop_inserted_other c (codes "tc_" ++ hex) d (id_of p) (text_or unknown_tool name)
              s.tool_name_by_id keys
            ∙ h.named;
        known =
            duration_keeps _ (env.perf_counter_ns w1).1 p.hex
              (unique.clock_keeps w1 p.hex (unique.uuid_keeps s.world p.hex h.known));
      }

  closed-Stored :
      (c d : Text) (name : Option Text) (result item : Obj) (s : ToolState W) (p r : Open)
      → (same_text c d && same_text p.hex r.hex) ≡ false
      → Stored d s issued r
      → Stored d (result_for env c name result item (some (id_of p), s)).1 issued r
  unfolding result_for build_tool_result_event same_text
  closed-Stored c d name result item s p r apart h = record {
    started = pop_pair_other c (id_of p) d (id_of r) s.tool_start_ns apart ∙ h.started;
    named = pop_pair_other c (id_of p) d (id_of r) s.tool_name_by_id apart ∙ h.named;
    known = duration_keeps _ s.world r.hex h.known;
  }

  closed_calls-Stored :
      (c : Text) (name : Option Text) (result item : Obj) (s : ToolState W) (p : Open)
      (calls : List Open)
      → All (λ r. same_text p.hex r.hex ≡ false) calls
      → All (Stored c s issued) calls
      → All (Stored c (result_for env c name result item (some (id_of p), s)).1 issued) calls
  closed_calls-Stored c name result item s p [] apart h = tt
  closed_calls-Stored c name result item s p (r ∷ calls) apart h = (
    closed-Stored c c name result item s p r (ground (arith, apart.0)) h.0,
    closed_calls-Stored c name result item s p calls apart.1 h.1,
  )

  fallback-Refines :
      (c : Text) (name : Option Text) (result item : Obj) (queues : Queues) (s : ToolState W)
      → Refines issued queues s
      → Refines issued queues (create_fallback_tool_events env c name result item s).1
  unfolding create_fallback_tool_events build_tool_result_event
  fallback-Refines c name result item queues s r = record {
    pending = r.pending;
    stored = λ d. All-map (queues d) (fallback-Stored c d name result item s) (r.stored d);
    apart = r.apart;
  }

  -- The oldest call of a conversation is closed.
  closed-Refines :
      (c : Text) (name : Option Text) (result item : Obj) (p : Open) (calls : List Open)
      (queues : Queues) (s : ToolState W)
      → queues c ≡ p ∷ calls
      → Refines issued queues s
      → Refines issued
          (set_queue c calls queues)
          (result_for env c name result item (
            some (id_of p),
            record s { pending_tool_ids = leave_ids c (map id_of calls) s.pending_tool_ids },
          )).1
  unfolding result_for build_tool_result_event
  closed-Refines c name result item p calls queues s e r =
      let t : ToolState W = record s {
        pending_tool_ids = leave_ids c (map id_of calls) s.pending_tool_ids;
      } in
      let after : ToolState W = (result_for env c name result item (some (id_of p), t)).1 in
      let apart : Apart (p ∷ calls) = subst Apart e (r.apart c) in
      let stored : All (Stored c s issued) (p ∷ calls) =
        subst (All (Stored c s issued)) e (r.stored c) in
      let moved : (d : Text) (q : Open) → Stored d s issued q → Stored d t issued q =
        λ d q h. record { started = h.started; named = h.named; known = h.known } in
      let left : (d : Text) → _ = λ d. ids_of-leave_ids c d (map id_of calls) s.pending_tool_ids in
      record {
        pending =
            set_queue-keeps (λ d q. ids_of (lookup d after.pending_tool_ids) ≡ map id_of q) c calls
              queues (λ d other. left d ∙ rw other (r.pending d))
              (left c ∙ rw (same_text_refl c) refl);
        stored =
            set_queue-keeps (λ d q. All (Stored d after issued) q) c calls queues
              (λ d other.
                All-map (queues d)
                  (λ q h. closed-Stored c d name result item t p q (rw other refl) (moved d q h))
                  (r.stored d))
              (closed_calls-Stored c name result item t p calls apart.0
                (All-map calls (moved c) stored.1));
        apart = set_queue-keeps (λ d q. Apart q) c calls queues (λ d other. r.apart d) apart.1;
      }

  pub result_step_lem :
      (c : Text) (name : Option Text) (result item : Obj) (calls : List Open) (queues : Queues)
      (s : ToolState W)
      → queues c ≡ calls
      → Refines issued queues s
      → ((handle_tool_result env c name result item s).0
          ≡ (close_call env c name result calls s.world queues).0)
        × ((handle_tool_result env c name result item s).1.world
            ≡ (close_call env c name result calls s.world queues).1.0)
        × Refines issued
            (close_call env c name result calls s.world queues).1.1
            (handle_tool_result env c name result item s).1
  unfolding handle_tool_result
  result_step_lem c name result item [] queues s e r =
      let none_open : get_pending_tool_id c s ≡ (none, s) =
        get_pending_none c s (r.pending c ∙ ap (map id_of) e) in
      let (events, world) = fallback_events c name result item queues s in
      rw none_open (events, world, fallback-Refines c name result item queues s r)
  result_step_lem c name result item (p ∷ calls) queues s e r =
      let oldest : _ =
        get_pending_some c (id_of p) (map id_of calls) s (r.pending c ∙ ap (map id_of) e) in
      let t : ToolState W = record s {
        pending_tool_ids = leave_ids c (map id_of calls) s.pending_tool_ids;
      } in
      let h : Stored c s issued p = (subst (All (Stored c s issued)) e (r.stored c)).0 in
      let (events, world) =
        closed_events c name result item p calls queues t
          (record { started = h.started; named = h.named; known = h.known }) in
      rw oldest (events, world, closed-Refines c name result item p calls queues s e r)
