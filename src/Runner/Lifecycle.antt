-- ===== src/Runner/Lifecycle.antt =====
-- A whole run of tool items, of any conversations and in any order, against its queues.
use magent.Prelude.{◌≡◌, refl, Bool, List, [], ◌∷◌, Text, lookup}
use magent.Runner.Step.{Env, ToolState}
use magent.Runner.Tools.{handle_tool_call}
use magent.Runner.Queues.{
  ToolItem, call, output_of, Queues, handle, handle_all, serve, serve_all, IsUnique,
}
use magent.Runner.Fifo.{Refines, call-Refines}
use magent.Runner.Matched.{result_step_lem}

abbrev pub no_calls : Queues
no_calls c = []

module _ {W : Type 0} (env : Env W) (issued : W → Text → Bool) (unique : IsUnique env issued) where
  handle_step :
      (c : Text) (i : ToolItem) (queues : Queues) (s : ToolState W)
      → Refines issued queues s
      → ((handle env c i s).0 ≡ (serve env c i s.world queues).0)
        × ((handle env c i s).1.world ≡ (serve env c i s.world queues).1.0)
        × Refines issued (serve env c i s.world queues).1.1 (handle env c i s).1
  unfolding handle serve handle_tool_call
  handle_step c (call name args) queues s r =
      (refl, refl, call-Refines env issued unique c name args queues s r)
  handle_step c (output_of name result item) queues s r =
      result_step_lem env issued unique c name result item (queues c) queues s refl r

  handle_all_step :
      (items : List (Text × ToolItem)) (queues : Queues) (s : ToolState W)
      → Refines issued queues s
      → (handle_all env items s).0 ≡ (serve_all env items s.world queues).0
  unfolding handle_all serve_all
  handle_all_step [] queues s r = refl
  handle_all_step ((c, i) ∷ items) queues s r =
      let (events, world, next) = handle_step c i queues s r in
      rw
        (
          events,
          handle_all_step items (serve env c i s.world queues).1.1 (handle env c i s).1 next,
          world,
        )
        refl

  -- When uuid4 never repeats an id and no call is pending at the start, any sequence of tool calls
  -- and tool outputs, of any conversations in any order, gives exactly the events of a machine that
  -- keeps one queue of open calls per conversation: a call is announced under a new id, an output
  -- ends the oldest open call of its conversation with that call's id, its name where the output has
  -- none, and the time since it began, and an output with no open call gives a start and a result
  -- under one new id.
  pub tools_fifo :
      (items : List (Text × ToolItem)) (s : ToolState W)
      → s.pending_tool_ids ≡ []
      → (handle_all env items s).0 ≡ (serve_all env items s.world no_calls).0
  unfolding lookup
  tools_fifo items s no_pending =
      handle_all_step items no_calls s
        (record { pending = λ c. rw no_pending refl; stored = λ c. tt; apart = λ c. tt })
