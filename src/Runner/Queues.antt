-- ===== src/Runner/Queues.antt =====
-- The lifecycle of tools by queues: each conversation has the queue of its open calls.
use magent.Prelude.{
  ℕ, ◌≡◌, Bool, true, false, ◌++◌, Option, some, List, [], ◌∷◌, if◌then◌else◌, Text, codes,
  same_text,
}
use magent.Json.{end}
use magent.Runner.Objects.{Obj, or_else, value_or}
use magent.Runner.Texts.{summarize, normalize_args}
use magent.Runner.Step.{ToolStep, Env, ToolState, unknown_tool, text_or, elapsed_ms}
use magent.Runner.Tools.{start_step, result_step, handle_tool_call, handle_tool_result}

-- An item of a run: a tool's call, or a tool's output.
pub data ToolItem : Type 0 where
  call : (name : Option Text) → (args : Obj) → ToolItem
  output_of : (name : Option Text) → (result item : Obj) → ToolItem

-- A call that waits for its output.
pub record Open : Type 0 where
  pub hex : Text
  pub name : Text
  pub start_ns : ℕ

abbrev pub id_of : Open → Text
id_of p = codes "tc_" ++ p.hex

abbrev pub Queues : Type 0
Queues = Text → List Open

abbrev pub set_queue : Text → List Open → Queues → Queues
set_queue c calls queues d = if same_text c d then calls else queues d

module _ {W : Type 0} (env : Env W) where
  -- The items through the code.
  unfoldable pub handle : Text → ToolItem → ToolState W → List ToolStep × ToolState W
  handle c (call name args) s =
      let (event, s') = handle_tool_call env c name args s in (event ∷ [], s')
  handle c (output_of name result item) s = handle_tool_result env c name result item s

  unfoldable pub handle_all : List (Text × ToolItem) → ToolState W → List ToolStep × ToolState W
  handle_all [] s = ([], s)
  handle_all ((c, i) ∷ items) s =
      let (events, s1) = handle c i s in
      let (more, s2) = handle_all items s1 in (events ++ more, s2)

  abbrev open_call : Text → Option Text → Obj → W → Queues → List ToolStep × (W × Queues)
  open_call c name args w queues =
      let (hex, w1) = env.uuid4_hex w in
      let (now, w2) = env.perf_counter_ns w1 in
      let p : Open = record { hex = hex; name = text_or unknown_tool name; start_ns = now } in
      (
        start_step c p.name (value_or end (normalize_args args)) (id_of p) ∷ [],
        (w2, set_queue c (queues c ++ p ∷ []) queues),
      )

  abbrev pub close_call :
      Text → Option Text → Obj → List Open → W → Queues → List ToolStep × (W × Queues)
  close_call c name result [] w queues =
      let (hex, w1) = env.uuid4_hex w in
      let (began, w2) = env.perf_counter_ns w1 in
      let (now, w3) = env.perf_counter_ns w2 in
      let shown = text_or unknown_tool name in
      let id = codes "tc_" ++ hex in
      (
        start_step c shown end id
            ∷ result_step c shown (summarize env.show result) (some (elapsed_ms began now)) id
            ∷ [],
        (w3, queues),
      )
  close_call c name result (p ∷ calls) w queues =
      let (now, w1) = env.perf_counter_ns w in
      (
        result_step c (text_or unknown_tool (or_else name (some p.name)))
              (summarize env.show result) (some (elapsed_ms p.start_ns now)) (id_of p)
            ∷ [],
        (w1, set_queue c calls queues),
      )

  -- The items through the queues.
  unfoldable pub serve : Text → ToolItem → W → Queues → List ToolStep × (W × Queues)
  unfolding elapsed_ms
  serve c (call name args) w queues = open_call c name args w queues
  serve c (output_of name result item) w queues = close_call c name result (queues c) w queues

  unfoldable pub serve_all : List (Text × ToolItem) → W → Queues → List ToolStep × (W × Queues)
  serve_all [] w queues = ([], (w, queues))
  serve_all ((c, i) ∷ items) w queues =
      let (events, (w1, queues1)) = serve c i w queues in
      let (more, rest) = serve_all items w1 queues1 in (events ++ more, rest)

  -- uuid4 gives no id that it gave before; `issued` says which ids a world has given.
  pub record IsUnique (issued : W → Text → Bool) : Type 0 where
    pub fresh : (w : W) → issued w (env.uuid4_hex w).0 ≡ false
    pub given : (w : W) → issued (env.uuid4_hex w).1 (env.uuid4_hex w).0 ≡ true
    pub uuid_keeps : (w : W) (t : Text) → issued w t ≡ true → issued (env.uuid4_hex w).1 t ≡ true
    pub clock_keeps :
        (w : W) (t : Text) → issued w t ≡ true → issued (env.perf_counter_ns w).1 t ≡ true
