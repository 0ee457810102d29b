-- ===== src/Worker/Claims.antt =====
-- The claims that the worker makes on a message, in Redis or in its own memory: the record of
-- processed ids (`_already_processed`, `_mark_processed`) and the run lock (`_acquire_lock`,
-- `_release_lock`).
use magent.Prelude.{
  ℕ, ◌*◌, Bool, true, false, Option, none, some, List, [], ◌∷◌, ◌++◌, ◌==◌, if◌then◌else◌, pos,
  negsuc, Text, codes, has_text, discard, Dict, lookup, insert,
}
use magent.Prelude.Exec.{Exec, value_error, type_error, return, raise, pure, ◌>>=◌, ◌>>◌}
use magent.Worker.{RedisCommands, Worker, change_world}

abbrev pub processed_key : Text → Text → Text
processed_key agent conversation_id = codes "processed:" ++ agent ++ codes ":" ++ conversation_id

abbrev pub lock_key : Text → Text → Text
lock_key agent conversation_id = codes "lock:run:" ++ agent ++ codes ":" ++ conversation_id

-- The ids recorded for a conversation; a missing set is empty.
unfoldable pub seen_of : Text → Dict (List Text) → List Text
unfolding lookup
seen_of conversation_id d = elim (lookup conversation_id d) [ none ↦ [] | some seen ↦ seen ]

-- seen.add(message_id)
unfoldable pub add_text : Text → List Text → List Text
unfolding has_text
add_text name names = if has_text name names then names else name ∷ names

module _ {W : Type 0} where
  -- A TTL that cannot be read as an integer counts as missing.
  unfoldable pub ensure_ttl : RedisCommands W → Text → Exec W (Unit {0})
  ensure_ttl c key w =
      let (r, w') = c.ttl key w in
      let set = c.expire key (60 * 60 * 24) w' in
      elim r [
        | return (pos n) ↦ (return tt, w')
        | return (negsuc n) ↦ set
        | raise exc ↦ elim exc.kind [ type_error ↦ set | value_error ↦ set | _ ↦ (raise exc, w') ]
      ]

  unfoldable pub record_in_redis : RedisCommands W → Text → Text → Exec W ℕ
  unfolding ensure_ttl
  record_in_redis c key message_id = do added ← c.sadd key message_id; ensure_ttl c key; pure added

  -- `setdefault(conversation_id, set())`, and the test of membership.
  unfoldable pub seen_in_memory : Text → Text → Worker W → Bool × Worker W
  unfolding seen_of has_text insert
  seen_in_memory conversation_id message_id w =
      let seen = seen_of conversation_id w.processed_by_conversation in
      (
        has_text message_id seen,
        record w {
          processed_by_conversation = insert conversation_id seen w.processed_by_conversation;
        },
      )

  unfoldable pub mark_in_memory : Text → Text → Worker W → Worker W
  unfolding seen_of add_text insert
  mark_in_memory conversation_id message_id w = record w {
    processed_by_conversation =
        insert conversation_id
          (add_text message_id (seen_of conversation_id w.processed_by_conversation))
          w.processed_by_conversation;
  }

  unfoldable pub lock_in_memory : Text → Worker W → Bool × Worker W
  unfolding has_text
  lock_in_memory conversation_id w =
      if has_text conversation_id w.locks_in_memory
      then (false, w)
      else (true, record w { locks_in_memory = conversation_id ∷ w.locks_in_memory })

  unfoldable pub unlock_in_memory : Text → Worker W → Worker W
  unfolding discard
  unlock_in_memory conversation_id w = record w {
    locks_in_memory = discard conversation_id w.locks_in_memory;
  }

  unfoldable pub already_processed :
      Option (RedisCommands W) → Text → Text → Worker W → Bool × Worker W
  unfolding record_in_redis seen_in_memory
  already_processed none conversation_id message_id w = seen_in_memory conversation_id message_id w
  already_processed (some c) conversation_id message_id w =
      let key = processed_key w.agent_name conversation_id in
      let (r, world') = record_in_redis c key message_id w.world in
      let w' = record w { world = world' } in
      elim r [
        | return added ↦ (added == 0, w')
        | raise _ ↦ seen_in_memory conversation_id message_id w'
      ]

  unfoldable pub mark_processed : Option (RedisCommands W) → Text → Text → Worker W → Worker W
  unfolding record_in_redis mark_in_memory
  mark_processed none conversation_id message_id w = mark_in_memory conversation_id message_id w
  mark_processed (some c) conversation_id message_id w =
      let key = processed_key w.agent_name conversation_id in
      let (r, world') = record_in_redis c key message_id w.world in
      let w' = record w { world = world' } in
      elim r [ return _ ↦ w' | raise _ ↦ mark_in_memory conversation_id message_id w' ]

  unfoldable pub acquire_lock : Option (RedisCommands W) → Text → Worker W → Bool × Worker W
  unfolding lock_in_memory
  acquire_lock none conversation_id w = lock_in_memory conversation_id w
  acquire_lock (some c) conversation_id w =
      let (r, world') = c.set_nx (lock_key w.agent_name conversation_id) 60 w.world in
      let w' = record w { world = world' } in
      elim r [ return taken ↦ (taken, w') | raise _ ↦ lock_in_memory conversation_id w' ]

  unfoldable pub release_lock : Option (RedisCommands W) → Text → Worker W → Worker W
  unfolding unlock_in_memory
  release_lock none conversation_id w = unlock_in_memory conversation_id w
  release_lock (some c) conversation_id w =
      change_world (λ world. (c.delete (lock_key w.agent_name conversation_id) world).1) w
