-- ===== src/Bus/Group/Delivery.antt =====
-- What a read through a consumer group delivers.
use magent.Prelude.{
  ℕ, append-nil, append_assoc, ◌≡◌, refl, ◌∙◌, sym, ap, Bool, true, false, Option, some, List, [],
  ◌∷◌, ◌++◌, map, Text, codes, contains, ◌||◌,
}
use magent.Prelude.Exec.{Result, return, raise}
use magent.Json.{Value}
use magent.Bus.{BusMessage}
use magent.Bus.Redis.{Entry, to_bus_message}
use magent.Bus.Group.{
  Response, GroupClient, Conn, first_items, ensure_group, tolerate_existing, deliver, deliver_all,
  acknowledge, read_with_group, read_blocking_with_group,
}

-- The group was made, or Redis says that it is there.
abbrev pub Tolerated : Result (Unit {0}) → Type 0
Tolerated (return u) = Unit
Tolerated (raise exc) =
    (contains (codes "BUSYGROUP") exc.message || contains (codes "already exists") exc.message)
    ≡ true

module _ {W : Type 0} (client : GroupClient W) (loads : Text → Option Value)
    (topic group : Text) where
  pub deliver_lem :
      (counted : Bool) (messages : List BusMessage) (items : List Entry) (s : Conn W)
      → (deliver client loads counted topic group messages items s).0
        ≡ messages ++ map (to_bus_message loads topic) items
  unfolding deliver
  deliver_lem counted messages [] s = sym (append-nil messages)
  deliver_lem counted messages (e ∷ items) s =
      deliver_lem counted (messages ++ to_bus_message loads topic e ∷ []) items
        (acknowledge client counted topic group e s)
      ∙ append_assoc messages (to_bus_message loads topic e ∷ [])
          (map (to_bus_message loads topic) items)

  ensure_group_lem :
      (r : Result (Unit {0})) (s : Conn W) (w : W)
      → client.xgroup_create topic group s.world ≡ (r, w)
      → Tolerated r
      → ensure_group client topic group s ≡ (return tt, record s { world = w })
  unfolding ensure_group tolerate_existing
  ensure_group_lem (return u) s w made ok = rw made refl
  ensure_group_lem (raise exc) s w made ok = rw (made, ok) refl

  -- Where the group is made or is there already and XREADGROUP answers, a read through the group
  -- with a set block time, and a blocking read, return the message of every entry of the answer once
  -- and in order, whatever becomes of the acknowledgements.
  pub read_with_group_delivers :
      (block_ms : ℕ) (consumer : Text) (limit : ℕ) (s : Conn W) (r : Result (Unit {0}))
      (resp : Response) (w w' : W)
      → client.xgroup_create topic group s.world ≡ (r, w)
      → Tolerated r
      → client.xreadgroup topic group consumer limit block_ms w ≡ (return resp, w')
      → ((read_with_group client loads (some block_ms) topic group consumer limit s).0
          ≡ return (map (to_bus_message loads topic) (first_items resp)))
        × ((read_blocking_with_group client loads topic group consumer limit block_ms s).0
            ≡ return (map (to_bus_message loads topic) (first_items resp)))
  unfolding read_with_group read_blocking_with_group deliver_all
  read_with_group_delivers block_ms consumer limit s r resp w w' made ok answered =
      let u = record s { world = w' } in
      (
        rw (ensure_group_lem r s w made ok, answered)
            (ap return (deliver_lem true [] (first_items resp) u)),
        rw (ensure_group_lem r s w made ok, answered)
            (ap return (deliver_lem false [] (first_items resp) u)),
      )
