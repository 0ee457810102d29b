-- ===== src/Todo/Checks.antt =====
-- The task store over a small Redis: the theorems at concrete calls.
use magent.Prelude.{
  ◌≡◌, refl, sym, subst, ◌∙◌, false, Option, none, some, [], ◌∷◌, map, Text, codes, same_text,
  is_some, if◌then◌else◌,
}
use mathlib.Core.Option
use magent.Prelude.Exec.{return}
use magent.Json.{end}
use magent.Todo.Store.{Task, Client, Env, new_task, create_task, update_task, delete_task, changed}
use magent.Todo.Laws.{Scored, IsRedis, IsFaithful, RoundTrips, place, without, has_member}
use magent.Todo.Crud.{task_at, create_task_lem, update_task_lem, delete_task_lem}
use magent.Todo.Tools.{
  Tools, RunContext, create_task_tool, get_task_tool, list_tasks_tool, update_task_tool,
  delete_task_tool,
}
use magent.Todo.Replies.{Contained, tools-Contained}

-- The hash of each key, and the sorted set of each key.
abbrev Redis : Type 0
Redis = (Text → Option Text) × (Text → Scored)

abbrev hash_of : Redis → Text → Option Text
hash_of w = w.0

abbrev zset_of : Redis → Text → Scored
zset_of w = w.1

abbrev put : Text → Option Text → (Text → Option Text) → Text → Option Text
put key v h j = if same_text key j then v else h j

abbrev redis : Client Redis
redis = record {
  hset = λ key payload w. (return tt, (put key (some payload) w.0, w.1));
  hget = λ key w. (return (w.0 key), w);
  zrange = λ key w. (return (map (λ (m, _). m) (w.1 key)), w);
  hset_zadd = λ key payload zkey member score w. (
    return tt,
    (
      put key (some payload) w.0,
      λ j. if same_text zkey j then place member score (without member (w.1 j)) else w.1 j,
    ),
  );
  del_zrem = λ key zkey member w. (
    return ((if is_some (w.0 key) then 1 else 0), (if has_member member (w.1 zkey) then 1 else 0)),
    (put key none w.0, λ j. if same_text zkey j then without member (w.1 j) else w.1 j),
  );
}

redis-IsRedis : IsRedis redis hash_of zset_of
redis-IsRedis = record {
  hget_lem = λ key w. refl;
  zrange_lem = λ key w. refl;
  hset_returns = λ key payload w. refl;
  hset_hash = λ key payload j w. refl;
  hset_zset = λ key payload j w. refl;
  hset_zadd_returns = λ key payload zkey member score w. refl;
  hset_zadd_hash = λ key payload zkey member score j w. refl;
  hset_zadd_zset = λ key payload zkey member score j w. refl;
  del_zrem_returns = λ key zkey member w. refl;
  del_zrem_hash = λ key zkey member j w. refl;
  del_zrem_zset = λ key zkey member j w. refl;
}

abbrev task_of : Text → Task
task_of title = record {
  id = codes "t1";
  conversation_id = codes "c";
  title = title;
  completed = false;
  metadata = end;
  created_at = 5;
}

-- A codec that keeps the title alone, which is all that these tasks differ in.
abbrev env : Env Redis
env = record {
  client = redis;
  prefix = codes "todo";
  encode = λ t. t.title;
  decode = λ raw. some (task_of raw);
  new_id = λ w. (codes "t1", w);
  now = λ w. (5, w);
}

env-IsFaithful : IsFaithful env hash_of zset_of
env-IsFaithful = record {
  new_id_hash = λ w j. refl;
  new_id_zset = λ w j. refl;
  now_hash = λ w j. refl;
  now_zset = λ w j. refl;
}

-- One task, "buy", under its key and in the set of its conversation.
abbrev stocked : Redis
stocked = (
  put (codes "todo:task:t1") (some (codes "buy")) (λ j. none),
  λ j. if same_text (codes "todo:conv:c") j then (codes "t1", 5) ∷ [] else [],
)

abbrev blank : Redis
blank = ((λ j. none), λ j. [])

stocked_task : task_at env hash_of zset_of stocked (codes "t1") ≡ some (task_of (codes "buy"))
unfolding same_text
stocked_task = refl

new_RoundTrips : RoundTrips env (new_task env (codes "c") (codes "buy") end blank).0
unfolding new_task
new_RoundTrips = refl

some_injective : {A : Type 0} (a b : A) → some a ≡ some b → a ≡ b
some_injective a b h = cc

changed-RoundTrips :
    (t : Task)
    → task_at env hash_of zset_of stocked (codes "t1") ≡ some t
    → RoundTrips env (changed env (some (codes "sell")) none none t)
changed-RoundTrips t h =
    subst (λ x. RoundTrips env (changed env (some (codes "sell")) none none x))
      (some_injective (task_of (codes "buy")) t (sym stocked_task ∙ h)) (unfold changed in refl)

create_task_lem_example :
    let made = (new_task env (codes "c") (codes "buy") end blank).0 in
    ((create_task env (codes "c") (codes "buy") none blank).0 ≡ return made)
    × (task_at env hash_of zset_of
          (create_task env (codes "c") (codes "buy") none blank).1
          (codes "t1")
        ≡ (if same_text made.id (codes "t1")
            then some made
            else task_at env hash_of zset_of blank (codes "t1")))
create_task_lem_example =
    create_task_lem env hash_of zset_of redis-IsRedis env-IsFaithful (codes "c") (codes "buy") none
      (codes "t1") blank new_RoundTrips

update_task_lem_example :
    let new =
      Option.map
        (changed env (some (codes "sell")) none none)
        (task_at env hash_of zset_of stocked (codes "t1")) in
    ((update_task env (codes "t1") (some (codes "sell")) none none stocked).0 ≡ return new)
    × (task_at env hash_of zset_of
          (update_task env (codes "t1") (some (codes "sell")) none none stocked).1
          (codes "t2")
        ≡ (if same_text (codes "t1") (codes "t2")
            then new
            else task_at env hash_of zset_of stocked (codes "t2")))
update_task_lem_example =
    update_task_lem env hash_of zset_of redis-IsRedis env-IsFaithful (codes "t1")
      (some (codes "sell")) none none (codes "t2") stocked changed-RoundTrips

delete_task_lem_example :
    ((delete_task env (codes "t1") stocked).0
      ≡ return (is_some (task_at env hash_of zset_of stocked (codes "t1"))))
    × (task_at env hash_of zset_of (delete_task env (codes "t1") stocked).1 (codes "t1") ≡ (
        if same_text (codes "t1") (codes "t1")
        then none
        else task_at env hash_of zset_of stocked (codes "t1")))
delete_task_lem_example =
    delete_task_lem env hash_of zset_of redis-IsRedis env-IsFaithful (codes "t1") (codes "t1")
      stocked

abbrev context : RunContext
context = record { conversation_id = codes "c"; run_id = codes "r" }

abbrev tools : Tools Redis
tools = record { world = stocked; metrics = [] }

tools-Contained_example :
    Contained (create_task_tool env context (codes "c") (codes " ") none tools).0
    × Contained (get_task_tool env context (codes "c") tools).0
    × Contained (list_tasks_tool env context (codes "c") tools).0
    × Contained (update_task_tool env context (codes "c") (some (codes "x")) none none tools).0
    × Contained (delete_task_tool env context (codes "c") tools).0
tools-Contained_example =
    tools-Contained env context tools (codes "c") (codes " ") (some (codes "x")) none none
