-- ===== src/Runner/Fifo.antt =====
-- The tool lifecycle of Runner.Tools against the queues of Runner.Queues.
use magent.Prelude.{
  ◌≡◌, sym, ◌∙◌, subst, inl, inr, Bool, true, false, Bool-cases, ◌++◌, Option, some, List, [], ◌∷◌,
  map, arith, All, All-map, All-append, Text, codes, same_text, same_text_iff, same_text_refl,
  same_text-append, lookup,
}
use mathlib.Core.List.{map-append}
use magent.Runner.Objects.{Obj}
use magent.Runner.Step.{lookup_pair, Env, ToolState, text_or, unknown_tool}
use magent.Runner.Tools.{ids_of, handle_tool_call}
use magent.Runner.Pairs.{insert_pair_other, insert_pair_same, ids_of-insert}
use magent.Runner.Queues.{Open, id_of, Queues, set_queue, IsUnique}

abbrev pub Apart : List Open → Type 0
Apart [] = Unit
Apart (p ∷ calls) = All (λ r. same_text p.hex r.hex ≡ false) calls × Apart calls

-- A queue's call as the dicts hold it.
pub record Stored {W : Type 0} (c : Text) (s : ToolState W) (issued : W → Text → Bool) (p : Open)
    : Type 0 where
  pub started : lookup_pair (c, id_of p) s.tool_start_ns ≡ some p.start_ns
  pub named : lookup_pair (c, id_of p) s.tool_name_by_id ≡ some p.name
  pub known : issued s.world p.hex ≡ true

pub record Refines {W : Type 0} (issued : W → Text → Bool) (queues : Queues) (s : ToolState W)
    : Type 0 where
  pub pending : (c : Text) → ids_of (lookup c s.pending_tool_ids) ≡ map id_of (queues c)
  pub stored : (c : Text) → All (Stored c s issued) (queues c)
  pub apart : (c : Text) → Apart (queues c)

pub set_queue-keeps :
    (Q : Text → List Open → Type 0) (c : Text) (calls : List Open) (queues : Queues)
    → ((d : Text) → same_text c d ≡ false → Q d (queues d))
    → Q c calls
    → (d : Text) → Q d (set_queue c calls queues d)
set_queue-keeps Q c calls queues others own d = elim (Bool-cases (same_text c d)) [
  | inl same ↦ rw same (subst (λ e. Q e calls) ((same_text_iff c d).0 same) own)
  | inr apart ↦ rw apart (others d apart)
]

append-Apart :
    (calls : List Open) (p : Open)
    → Apart calls
    → All (λ r. same_text r.hex p.hex ≡ false) calls
    → Apart (calls ++ p ∷ [])
append-Apart [] p a h = (tt, tt)
append-Apart (q ∷ calls) p a h = (
  All-append (λ r. same_text q.hex r.hex ≡ false) calls (p ∷ []) a.0 (h.0, tt),
  append-Apart calls p a.1 h.1,
)

module _ {W : Type 0} (env : Env W) (issued : W → Text → Bool) (unique : IsUnique env issued) where
  pub new_id :
      (c : Text) (s : ToolState W) (p : Open)
      → Stored c s issued p
      → same_text p.hex (env.uuid4_hex s.world).0 ≡ false
  new_id c s p h =
      ground (arith, h.known, unique.fresh s.world, same_text_iff p.hex (env.uuid4_hex s.world).0)

  call-Stored :
      (c d : Text) (name : Option Text) (args : Obj) (s : ToolState W) (p : Open)
      → Stored d s issued p
      → Stored d (handle_tool_call env c name args s).1 issued p
  unfolding handle_tool_call
  call-Stored c d name args s p h =
      let hex : Text = (env.uuid4_hex s.world).0 in
      let apart : same_text hex p.hex ≡ false =
        ground (arith, new_id d s p h, same_text_iff hex p.hex, same_text_iff p.hex hex) in
      let keys : same_text (codes "tc_" ++ hex) (id_of p) ≡ false =
        same_text-append (codes "tc_") hex p.hex ∙ apart in
      record {
        started =
            insert_pair_other c (codes "tc_" ++ hex) d (id_of p)
              (env.perf_counter_ns (env.uuid4_hex s.world).1).0 s.tool_start_ns keys
            ∙ h.started;
        named =
            insert_pair_other c (codes "tc_" ++ hex) d (id_of p) (text_or unknown_tool name)
              s.tool_name_by_id keys
            ∙ h.named;
        known =
            unique.clock_keeps (env.uuid4_hex s.world).1 p.hex
              (unique.uuid_keeps s.world p.hex h.known);
      }

  -- The call that is opened.
  abbrev pub opened : Option Text → ToolState W → Open
  opened name s = record {
    hex = (env.uuid4_hex s.world).0;
    name = text_or unknown_tool name;
    start_ns = (env.perf_counter_ns (env.uuid4_hex s.world).1).0;
  }

  opened-Stored :
      (c : Text) (name : Option Text) (args : Obj) (s : ToolState W)
      → Stored c (handle_tool_call env c name args s).1 issued (opened name s)
  unfolding handle_tool_call
  opened-Stored c name args s = record {
    started = insert_pair_same c (id_of (opened name s)) (opened name s).start_ns s.tool_start_ns;
    named = insert_pair_same c (id_of (opened name s)) (opened name s).name s.tool_name_by_id;
    known =
        unique.clock_keeps (env.uuid4_hex s.world).1 (env.uuid4_hex s.world).0
          (unique.given s.world);
  }

  pub call-Refines :
      (c : Text) (name : Option Text) (args : Obj) (queues : Queues) (s : ToolState W)
      → Refines issued queues s
      → Refines issued
          (set_queue c (queues c ++ opened name s ∷ []) queues)
          (handle_tool_call env c name args s).1
  unfolding handle_tool_call
  call-Refines c name args queues s r =
      let p : Open = opened name s in
      let ids : List Text = ids_of (lookup c s.pending_tool_ids) ++ id_of p ∷ [] in
      let after : ToolState W = (handle_tool_call env c name args s).1 in
      let keep : (d : Text) → All (Stored d after issued) (queues d) =
        λ d. All-map (queues d) (call-Stored c d name args s) (r.stored d) in
      record {
        pending =
            set_queue-keeps (λ d calls. ids_of (lookup d after.pending_tool_ids) ≡ map id_of calls)
              c (queues c ++ p ∷ []) queues
              (λ d apart. ids_of-insert c d ids s.pending_tool_ids ∙ rw apart (r.pending d))
              (ids_of-insert c c ids s.pending_tool_ids
                ∙ rw (same_text_refl c, r.pending c) (sym (map-append id_of (queues c) (p ∷ []))));
        stored =
            set_queue-keeps (λ d calls. All (Stored d after issued) calls) c (queues c ++ p ∷ [])
              queues (λ d apart. keep d)
              (All-append (Stored c after issued) (queues c) (p ∷ []) (keep c)
                (opened-Stored c name args s, tt));
        apart =
            set_queue-keeps (λ d calls. Apart calls) c (queues c ++ p ∷ []) queues
              (λ d apart. r.apart d)
              (append-Apart (queues c) p (r.apart c)
                (All-map (queues c) (new_id c s) (r.stored c)));
      }
