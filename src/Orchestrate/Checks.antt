-- ===== src/Orchestrate/Checks.antt =====
-- A split over two children.
use magent.Prelude.{
  some, arith, ℕ, suc, ◌+◌, ◌≡◌, refl, pos, false, none, List, [], ◌∷◌, ◌++◌, map, length, Text,
  codes,
}
use magent.Prelude.Exec.{return}
use magent.Json.{Fields, end}
use magent.Worker.{Envelope}
use magent.Worker.Run.{done_topic}
use magent.Orchestrate.Done.{done_topic-build_metadata}
use magent.Orchestrate.{
  Env, topics_of, resolve_target_agent, build_metadata, child_topic, orchestrate_split,
}
use magent.Orchestrate.Children.{TakesAll, sent_child, orchestrate_split_lem}

-- The world counts the children, and holds the log of what was sent.
abbrev World : Type 0
World = ℕ × List (Text × Text × Fields)

abbrev env : Env World Text
env = record {
  send_message = λ r t c d w. (return tt, (w.0, w.1 ++ (r, c, d) ∷ []));
  new_hex = λ w. ((48 + w.0) ∷ [], (suc w.0, w.1));
  signal_wait_all = λ topics timeout_ms w. (return (codes "all"), w);
  target_override = [];
  agent_name = codes "dev";
}

abbrev log_of : World → List (Text × Text × Fields)
log_of w = w.1

env-TakesAll : TakesAll env log_of
env-TakesAll = record {
  accepts = λ r t c d w. refl;
  appends = λ r t c d w. refl;
  new_hex_log = λ w. refl;
}

abbrev start : World
start = (0, [])

orchestrate_split_lem_example :
    (children : List Text) × (length children ≡ 2)
    × ((orchestrate_split env (codes "task") (pos 2) none none false none (pos 100) start).0
        ≡ return (record { children = children; topics = topics_of env children; wait = none }))
    × (log_of (orchestrate_split env (codes "task") (pos 2) none none false none (pos 100) start).1
        ≡ []
          ++ map
              (sent_child (resolve_target_agent env none) (λ topic. build_metadata topic none none))
              children)
orchestrate_split_lem_example =
    orchestrate_split_lem env log_of env-TakesAll (codes "task") (pos 2) none none none (pos 100)
      start

abbrev child : Envelope
child = record {
  id = codes "1";
  conversation_id = codes "conv-child-0";
  content = none;
  metadata = end;
}

done_topic-build_metadata_example :
    done_topic
      (record child { metadata = build_metadata (child_topic (codes "conv-child-0")) none none })
    ≡ some (child_topic (codes "conv-child-0"))
done_topic-build_metadata_example =
    done_topic-build_metadata (codes "conv-child-0") none none child (omega arith)
