-- ===== src/Worker/Memory.antt =====
-- The record of processed ids in the worker's memory.
use magent.Prelude.{
  ◌≡◌, Bool, true, List, arith, if◌then◌else◌, Text, same_text, same_text_iff, has_text, Dict,
  insert, lookup-insert,
}
use magent.Worker.{Worker}
use magent.Worker.Claims.{seen_of, add_text, seen_in_memory, mark_in_memory}

pub seen_of-insert :
    (k c : Text) (names : List Text) (d : Dict (List Text))
    → seen_of c (insert k names d) ≡ (if same_text k c then names else seen_of c d)
unfolding seen_of
seen_of-insert k c names d = ground (arith, lookup-insert k c names d)

pub has_text-add :
    (name other : Text) (names : List Text)
    → has_text other (add_text name names)
      ≡ (if same_text name other then true else has_text other names)
unfolding add_text has_text
has_text-add name other names = ground (arith, same_text_iff name other)

-- The worker's memory records the message of the conversation as processed.
unfoldable pub recorded : {W : Type 0} → Worker W → Text → Text → Bool
recorded w cid id = has_text id (seen_of cid w.processed_by_conversation)

module _ {W : Type 0} (w : Worker W) (cid id cid' id' : Text) where
  pub recorded-seen : recorded (seen_in_memory cid id w).1 cid' id' ≡ recorded w cid' id'
  unfolding recorded seen_in_memory
  recorded-seen = ground (
    arith,
    seen_of-insert cid cid' (seen_of cid w.processed_by_conversation) w.processed_by_conversation,
    same_text_iff cid cid',
  )

  pub recorded-mark : recorded (mark_in_memory cid id w) cid' id' ≡ (
      if same_text cid cid'
      then (if same_text id id' then true else recorded w cid' id')
      else recorded w cid' id')
  unfolding recorded mark_in_memory
  recorded-mark = ground (
    arith,
    seen_of-insert cid cid' (add_text id (seen_of cid w.processed_by_conversation))
        w.processed_by_conversation,
    has_text-add id id' (seen_of cid w.processed_by_conversation),
    same_text_iff cid cid',
  )
