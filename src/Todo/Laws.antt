-- ===== src/Todo/Laws.antt =====
-- What Redis documents of the commands of the store, over the hashes and the sorted sets that a
-- world holds, and what the codec of a task and the factories are taken to do.
use magent.Prelude.{
  ℕ, ◌≡◌, Bool, false, Option, none, some, List, [], ◌∷◌, ◌||◌, ◌&&◌, ltb, ◌==◌, if◌then◌else◌,
  Text, same_text, text_lt, is_some, filter, map, not,
}
use magent.Prelude.Exec.{return}
use magent.Todo.Store.{Task, Client, Env}

-- A sorted set in the order of ZRANGE: by score, then by member.
abbrev pub Scored : Type 0
Scored = List (Text × ℕ)

abbrev pub without : Text → Scored → Scored
without member = filter (λ (m, _). not (same_text m member))

unfoldable pub place : Text → ℕ → Scored → Scored
place member score [] = (member, score) ∷ []
place member score ((m, s) ∷ rest) =
    let later = (m, s) ∷ place member score rest in
    if ltb s score || (s == score && text_lt m member)
    then later
    else (member, score) ∷ (m, s) ∷ rest

abbrev pub has_member : Text → Scored → Bool
has_member member [] = false
has_member member ((m, _) ∷ rest) = same_text m member || has_member member rest

pub record IsRedis {W : Type 0} (c : Client W) (hash : W → Text → Option Text)
    (zset : W → Text → Scored) : Type 0 where
  pub hget_lem : (key : Text) (w : W) → c.hget key w ≡ (return (hash w key), w)
  pub zrange_lem :
      (key : Text) (w : W) → c.zrange key w ≡ (return (map (λ (m, _). m) (zset w key)), w)
  pub hset_returns : (key payload : Text) (w : W) → (c.hset key payload w).0 ≡ return tt
  pub hset_hash :
      (key payload j : Text) (w : W)
      → hash (c.hset key payload w).1 j ≡ (if same_text key j then some payload else hash w j)
  pub hset_zset : (key payload j : Text) (w : W) → zset (c.hset key payload w).1 j ≡ zset w j
  pub hset_zadd_returns :
      (key payload zkey member : Text) (score : ℕ) (w : W)
      → (c.hset_zadd key payload zkey member score w).0 ≡ return tt
  pub hset_zadd_hash :
      (key payload zkey member : Text) (score : ℕ) (j : Text) (w : W)
      → hash (c.hset_zadd key payload zkey member score w).1 j
        ≡ (if same_text key j then some payload else hash w j)
  pub hset_zadd_zset :
      (key payload zkey member : Text) (score : ℕ) (j : Text) (w : W)
      → zset (c.hset_zadd key payload zkey member score w).1 j
        ≡ (if same_text zkey j then place member score (without member (zset w j)) else zset w j)
  pub del_zrem_returns :
      (key zkey member : Text) (w : W)
      → (c.del_zrem key zkey member w).0
        ≡ return (
          (if is_some (hash w key) then 1 else 0),
          (if has_member member (zset w zkey) then 1 else 0),
        )
  pub del_zrem_hash :
      (key zkey member j : Text) (w : W)
      → hash (c.del_zrem key zkey member w).1 j ≡ (if same_text key j then none else hash w j)
  pub del_zrem_zset :
      (key zkey member j : Text) (w : W)
      → zset (c.del_zrem key zkey member w).1 j
        ≡ (if same_text zkey j then without member (zset w j) else zset w j)

-- A task that the codec takes round.
abbrev pub RoundTrips : {W : Type 0} → Env W → Task → Type 0
RoundTrips env t = env.decode (env.encode t) ≡ some t

-- The factories of an id and a time change nothing that Redis holds.
pub record IsFaithful {W : Type 0} (env : Env W) (hash : W → Text → Option Text)
    (zset : W → Text → Scored) : Type 0 where
  pub new_id_hash : (w : W) (j : Text) → hash (env.new_id w).1 j ≡ hash w j
  pub new_id_zset : (w : W) (j : Text) → zset (env.new_id w).1 j ≡ zset w j
  pub now_hash : (w : W) (j : Text) → hash (env.now w).1 j ≡ hash w j
  pub now_zset : (w : W) (j : Text) → zset (env.now w).1 j ≡ zset w j
