-- ===== src/Runner/Step.antt =====
-- The stream events, and the state in which the runner correlates a tool's start with its result.
use magent.Prelude.{
  ℕ, ◌-◌, ◌/◌, Bool, ◌&&◌, ◌++◌, Option, none, some, List, [], ◌∷◌, if◌then◌else◌, Text, codes,
  same_text, Dict,
}
use magent.Json.{Fields, Value}
use magent.Runner.Objects.{Obj}

pub data Status : Type 0 where
  start success error : Status

-- The ids of events and their times of creation are left out.
pub record ToolStep : Type 0 where
  pub conversation_id : Text
  pub name : Text
  pub args : Fields
  pub result_summary : Option Text
  pub status : Status
  pub error : Option Text
  pub duration_ms : Option ℕ
  pub tool_call_id : Text

pub data StreamEvent : Type 0 where
  token : (conversation_id text : Text) → (index : ℕ) → StreamEvent
  tool_step : ToolStep → StreamEvent
  output : (conversation_id text : Text) → (usage : Option Fields) → StreamEvent

-- A dict whose keys are pairs of a conversation and a call id.
abbrev pub PairDict : Type 0 → Type 0
PairDict V = List ((Text × Text) × V)

unfoldable pub same_pair : Text × Text → Text × Text → Bool
same_pair (a, b) (c, d) = same_text a c && same_text b d

unfoldable pub lookup_pair : {V : Type 0} → Text × Text → PairDict V → Option V
lookup_pair k [] = none
lookup_pair k ((j, v) ∷ d) = if same_pair j k then some v else lookup_pair k d

unfoldable pub insert_pair : {V : Type 0} → Text × Text → V → PairDict V → PairDict V
insert_pair k v [] = (k, v) ∷ []
insert_pair k v ((j, w) ∷ d) =
    let rest = insert_pair k v d in if same_pair j k then (j, v) ∷ d else (j, w) ∷ rest

-- `d.pop(k, None)` without its value.
unfoldable pub pop_pair : {V : Type 0} → Text × Text → PairDict V → PairDict V
pop_pair k [] = []
pop_pair k ((j, w) ∷ d) = let rest = pop_pair k d in if same_pair j k then rest else (j, w) ∷ rest

unfoldable pub pop_key : {V : Type 0} → Text → Dict V → Dict V
pop_key k [] = []
pop_key k ((j, w) ∷ d) = let rest = pop_key k d in if same_text j k then rest else (j, w) ∷ rest

-- `uuid4().hex`, the clock of `time.perf_counter_ns`, `repr`, `str.lower` and `json.loads`, none
-- where that raises.
pub record Env (W : Type 0) : Type 0 where
  pub uuid4_hex : W → Text × W
  pub perf_counter_ns : W → ℕ × W
  pub show : Obj → Text
  pub lower : Text → Text
  pub json_loads : Text → Option Value

pub record ToolState (W : Type 0) : Type 0 where
  pub world : W
  pub tool_start_ns : PairDict ℕ
  pub tool_name_by_id : PairDict Text
  pub pending_tool_ids : Dict (List Text)

abbrev pub unknown_tool : Text
unknown_tool = codes "unknown_tool"

-- The text where it is not empty.
abbrev pub non_empty : Option Text → Option Text
non_empty none = none
non_empty (some []) = none
non_empty (some (c ∷ s)) = some (c ∷ s)

-- `text or default`
abbrev pub text_or : Text → Option Text → Text
text_or default none = default
text_or default (some []) = default
text_or default (some (c ∷ s)) = c ∷ s

-- `int((now - start_ns) / 1_000_000)`: the clock does not go back, and below a hundred days the
-- quotient of floats does not reach the next integer.
unfoldable pub elapsed_ms : (start_ns now : ℕ) → ℕ
elapsed_ms start_ns now = (now - start_ns) / 1000000

module _ {W : Type 0} (env : Env W) where
  unfoldable pub gen_tool_call_id : W → Text × W
  gen_tool_call_id w = let (hex, w') = env.uuid4_hex w in (codes "tc_" ++ hex, w')

  unfoldable or_generate : Option Text → W → Text × W
  unfolding gen_tool_call_id
  or_generate none w = gen_tool_call_id w
  or_generate (some []) w = gen_tool_call_id w
  or_generate (some (c ∷ s)) w = (c ∷ s, w)

  -- `given or self._gen_tool_call_id()`
  unfoldable pub id_or_generate : Option Text → ToolState W → Text × ToolState W
  unfolding or_generate
  id_or_generate given s = let (id, w) = or_generate given s.world in (id, record s { world = w })

  -- `self._tool_start_ns[(conversation_id, call_id)] = self._now_ns()`
  unfoldable pub note_start : Text → Text → ToolState W → ToolState W
  unfolding insert_pair
  note_start conversation_id call_id s =
      let (now, w) = env.perf_counter_ns s.world in
      record s {
        world = w;
        tool_start_ns = insert_pair (conversation_id, call_id) now s.tool_start_ns;
      }

  unfoldable pub duration_since : Option ℕ → W → Option ℕ × W
  unfolding elapsed_ms
  duration_since none w = (none, w)
  duration_since (some start_ns) w =
      let (now, w') = env.perf_counter_ns w in (some (elapsed_ms start_ns now), w')

  -- The popped start, and the duration since it.
  unfoldable pub pop_start : Text → Text → ToolState W → Option ℕ × ToolState W
  unfolding lookup_pair pop_pair duration_since
  pop_start conversation_id call_id s =
      let (duration, w) =
        duration_since (lookup_pair (conversation_id, call_id) s.tool_start_ns) s.world in
      (
        duration,
        record s { world = w; tool_start_ns = pop_pair (conversation_id, call_id) s.tool_start_ns },
      )
