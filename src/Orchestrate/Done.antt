-- ===== src/Orchestrate/Done.antt =====
-- The topic on which a child is awaited, and the one that its worker signals.
use magent.Prelude.{
  ◌≤◌, ◌≡◌, sym, ap, ◌∙◌, arith, Option, some, List, ◌++◌, reverse, Text, codes, strip, lstrip,
  is_space, length, same_text,
}
use mathlib.Core.List.{reverse-append, reverse-reverse}
use magent.Worker.{Envelope}
use magent.Worker.Run.{done_topic, signal_topic}
use magent.Orchestrate.{build_metadata, child_topic}

strip-child_topic : (conv : Text) → strip (child_topic conv) ≡ child_topic conv
unfolding strip
strip-child_topic conv =
    let t : Text = codes "signal:" ++ conv in
    ap (λ r. reverse (lstrip is_space r)) (reverse-append t (codes ":done"))
    ∙ ap reverse (sym (reverse-append t (codes ":done")))
    ∙ reverse-reverse (t ++ codes ":done")

signal_topic-child_topic :
    (conv : Text)
    → length (child_topic conv) ≤ 256
    → signal_topic (child_topic conv) ≡ some (child_topic conv)
unfolding signal_topic
signal_topic-child_topic conv short = ground arith

-- A worker whose envelope carries the metadata that a split builds for a child reads from it exactly
-- the topic on which the split waits for that child, when that topic has at most 256 characters.
pub done_topic-build_metadata :
    (conv : Text) (responsibilities allowed_paths : Option (List Text)) (envelope : Envelope)
    → length (child_topic conv) ≤ 256
    → done_topic (record envelope {
      metadata = build_metadata (child_topic conv) responsibilities allowed_paths;
    })
      ≡ some (child_topic conv)
unfolding done_topic build_metadata same_text
done_topic-build_metadata conv responsibilities allowed_paths envelope short =
    ap signal_topic (strip-child_topic conv) ∙ signal_topic-child_topic conv short
