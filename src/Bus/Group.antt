-- ===== src/Bus/Group.antt =====
-- magent2/bus/redis_adapter.py: publishing to a stream, reads through a consumer group, and reads
-- that block. The commands of the Redis client are a parameter, and each may raise. The lines are
-- read where the group's name is given; warnings are left out.
pub mod Delivery
use magent.Prelude.{
  ℕ, ◌*◌, max, Bool, true, false, Option, none, some, List, [], ◌∷◌, ◌++◌, map, pos, negsuc, suc,
  ltb, if◌then◌else◌, Text, codes, strip, contains, is_empty, Dict, lookup, insert, ◌||◌, py_int,
}
use magent.Prelude.Exec.{Exec, Exception, Result, return, raise, pure, continue, ◌>>=◌, ◌>>◌}
use magent.Observability.{Metric}
use magent.Json.{Value, Fields, dumps}
use magent.Bus.{BusMessage}
use magent.Bus.Redis.{Entry, to_bus_message, is_entry_id}

-- What XREAD and XREADGROUP return: streams with their entries.
abbrev pub Response : Type 0
Response = List (Text × List Entry)

pub record GroupClient (W : Type 0) : Type 0 where
  pub xadd : (topic : Text) → Dict Text → (maxlen : Option ℕ) → Exec W (Unit {0})
  pub xgroup_create : (topic group : Text) → Exec W (Unit {0})
  pub xreadgroup : (topic group consumer : Text) → (count block : ℕ) → Exec W Response
  pub xack : (topic group entry_id : Text) → Exec W (Unit {0})
  pub xread : (streams : Dict Text) → (count block : ℕ) → Exec W Response

pub record Conn (W : Type 0) : Type 0 where
  pub world : W
  pub metrics : List Metric

abbrev pub on_conn : {W A : Type 0} → Exec W A → Exec (Conn W) A
on_conn m s = let (r, w) = m s.world in (r, record s { world = w })

-- BUS_STREAM_MAXLEN: a limit that is blank, no integer, or not positive is none.
unfoldable pub parse_maxlen_env : Text → Option ℕ
unfolding strip
parse_maxlen_env raw = elim (py_int (strip raw)) [
  | none ↦ none
  | some (pos n) ↦ if ltb 0 n then some n else none
  | some (negsuc n) ↦ none
]

-- The entries of the one stream that was asked for.
unfoldable pub first_items : Response → List Entry
first_items [] = []
first_items ((stream, items) ∷ resp) = items

-- A group that is there already is no error.
unfoldable pub tolerate_existing : {W : Type 0} → Result (Unit {0}) → Exec (Conn W) (Unit {0})
unfolding contains
tolerate_existing (return u) s = (return tt, s)
tolerate_existing (raise exc) s =
    if contains (codes "BUSYGROUP") exc.message || contains (codes "already exists") exc.message
    then (return tt, s)
    else (raise exc, s)

module _ {W : Type 0} (client : GroupClient W) where
  unfoldable pub xadd_with_optional_maxlen : Text → Dict Text → Option ℕ → Exec (Conn W) (Unit {0})
  xadd_with_optional_maxlen topic values none s = on_conn (client.xadd topic values none) s
  xadd_with_optional_maxlen topic values (some maxlen) s =
      let (r, s') = on_conn (client.xadd topic values (some maxlen)) s in
      elim r [ return u ↦ (return tt, s') | raise exc ↦ on_conn (client.xadd topic values none) s' ]

  unfoldable pub publish : (maxlen_env : Text) → Text → (id : Text) → Fields → Exec (Conn W) Text
  unfolding parse_maxlen_env
  publish maxlen_env topic id payload = do
    xadd_with_optional_maxlen topic ((codes "id", id) ∷ (codes "payload", dumps payload) ∷ [])
        (parse_maxlen_env maxlen_env)
    pure id

  unfoldable pub ensure_group : Text → Text → Exec (Conn W) (Unit {0})
  unfolding tolerate_existing
  ensure_group topic group s =
      let (r, s') = on_conn (client.xgroup_create topic group) s in tolerate_existing r s'

  abbrev pub count_failed_ack : Text → Conn W → Conn W
  count_failed_ack topic s = record s {
    metrics =
        s.metrics
        ++ record { name = codes "bus_ack_failures"; labels = (codes "topic", topic) ∷ [] } ∷ [];
  }

  -- One acknowledgement of the `for` loop; a failure is counted where `counted` says so.
  unfoldable pub acknowledge : (counted : Bool) → (topic group : Text) → Entry → Conn W → Conn W
  acknowledge counted topic group e s =
      let (r, s') = on_conn (client.xack topic group e.entry_id) s in
      elim r [ return u ↦ s' | raise exc ↦ if counted then count_failed_ack topic s' else s' ]

  module _ (loads : Text → Option Value) where
    unfoldable pub deliver :
        (counted : Bool)
        → (topic group : Text) → List BusMessage
        → List Entry
        → Conn W
        → List BusMessage × Conn W
    deliver counted topic group messages [] s = (messages, s)
    deliver counted topic group messages (e ∷ items) s =
        deliver counted topic group (messages ++ to_bus_message loads topic e ∷ []) items
          (acknowledge counted topic group e s)

    unfoldable pub deliver_all :
        (counted : Bool) → (topic group : Text) → Response → Exec (Conn W) (List BusMessage)
    unfolding first_items
    deliver_all counted topic group resp s =
        let (messages, s') = deliver counted topic group [] (first_items resp) s in
        (return messages, s')

    unfoldable pub read_with_group :
        (block_ms : Option ℕ) → (topic group consumer : Text) → ℕ → Exec (Conn W) (List BusMessage)
    read_with_group block_ms topic group consumer limit = do
      ensure_group topic group
      resp ←
          on_conn
            (client.xreadgroup topic group consumer limit (elim block_ms [ none ↦ 0 | some n ↦ n ]))
      deliver_all true topic group resp

    unfoldable pub read_blocking_with_group :
        (topic group consumer : Text) → (limit block_ms : ℕ) → Exec (Conn W) (List BusMessage)
    read_blocking_with_group topic group consumer limit block_ms = do
      ensure_group topic group
      resp ← on_conn (client.xreadgroup topic group consumer limit block_ms)
      deliver_all false topic group resp

    module _ (digit : ℕ → Bool) (scan_for_uuid : (topic last_uuid : Text) → ℕ → Option Text) where
      abbrev pub or_end : Option Text → Text
      or_end none = codes "$"
      or_end (some id) = id

      -- The entry id after which a blocking read starts; "$" is the present end of the stream.
      unfoldable pub start_id : (chunk_size : ℕ) → Text → Option Text → Text
      unfolding is_entry_id
      start_id chunk_size topic none = codes "$"
      start_id chunk_size topic (some last_id) =
          if is_entry_id digit last_id
          then last_id
          else or_end (scan_for_uuid topic last_id chunk_size)

      unfoldable pub read_blocking_without_group :
          Text → Option Text → (limit block_ms : ℕ) → Exec (Conn W) (List BusMessage)
      unfolding start_id first_items
      read_blocking_without_group topic last_id limit block_ms = do
        resp ← on_conn (
            client.xread ((topic, start_id (max (limit * 2) 100) topic last_id) ∷ []) limit
              block_ms)
        pure (map (to_bus_message loads topic) (first_items resp))

      unfoldable pub first_message : Response → Option (Text × BusMessage)
      first_message [] = none
      first_message ((stream, []) ∷ resp) = none
      first_message ((stream, e ∷ items) ∷ resp) = some (stream, to_bus_message loads stream e)

      abbrev pub message_of : Option (Text × BusMessage) → Option BusMessage
      message_of none = none
      message_of (some (_, m)) = some m

      unfoldable pub read_blocking_one : Text → Option Text → ℕ → Exec (Conn W) (Option BusMessage)
      unfolding start_id first_message
      read_blocking_one topic last_id block_ms = do
        resp ← on_conn (client.xread ((topic, start_id 200 topic last_id) ∷ []) 1 (max 1 block_ms))
        pure (message_of (first_message resp))

      unfoldable pub stream_cursors : List Text → Dict Text → Dict Text → Dict Text
      unfolding start_id lookup insert
      stream_cursors [] cursors streams = streams
      stream_cursors (t ∷ topics) cursors streams =
          stream_cursors topics cursors (insert t (start_id 200 t (lookup t cursors)) streams)

      unfoldable pub read_any_blocking :
          List Text → Dict Text → ℕ → Exec (Conn W) (Option (Text × BusMessage))
      unfolding stream_cursors first_message
      read_any_blocking topics cursors block_ms = do
        resp ← on_conn (client.xread (stream_cursors topics cursors []) 1 (max 1 block_ms))
        pure (first_message resp)
