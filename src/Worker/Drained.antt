-- ===== src/Worker/Drained.antt =====
-- A worker with no Redis: the envelopes that a drain of the messages serves.
use magent.Prelude.{
  ◌+◌, ◌≡◌, refl, sym, ap, ◌∙◌, subst, ◌⊎◌, inl, inr, true, false, Bool-cases, none, List, [], ◌∷◌,
  arith, map, IsDistinct, All, All-map, Text, has_text, if◌then◌else◌, length, same_text,
  same_text_iff,
}
use magent.Prelude.Exec.{Result, return, raise, continue-eq-return}
use magent.Bus.{BusMessage}
use magent.Worker.{Envelope, Env, Worker}
use magent.Worker.Memory.{recorded}
use magent.Worker.Drain.{Progress, visit, visit_validated, drain}
use magent.Worker.Locks.{visit-locks}
use magent.Worker.Once.{Extends, visit-Post, drain-Post}
use magent.Worker.Runs.{SameRun, SameRun-refl, Picked, Picked-skip, Runs, Runs-from}
use magent.Worker.Served.{IsNew, Skips, Serves, Visited, visit_envelope-Visited}

abbrev pub conversations_of : List Envelope → List Text
conversations_of served = map (λ (e : Envelope). e.conversation_id) served

abbrev pub Fresh : List Text → List Envelope → Type 0
Fresh conversations served =
    All (λ (e : Envelope). has_text e.conversation_id conversations ≡ false) served

same_text_swap : (s t : Text) → same_text s t ≡ false → same_text t s ≡ false
same_text_swap s t h = ground (arith, h, same_text_iff s t, same_text_iff t s)

-- Envelopes that are fresh beside `c` too do not have it.
Fresh-cons :
    (c : Text) (cs : List Text) (served : List Envelope)
    → Fresh (c ∷ cs) served
    → Fresh cs served × (has_text c (conversations_of served) ≡ false)
unfolding has_text
Fresh-cons c cs [] h = (tt, refl)
Fresh-cons c cs (e ∷ served) (h, hs) =
    let (rest, absent) = Fresh-cons c cs served hs in
    let other : same_text c e.conversation_id ≡ false = ground (arith, h) in
    let fresh : has_text e.conversation_id cs ≡ false = ground (arith, h) in
    ((fresh, rest), ground (arith, same_text_swap c e.conversation_id other, absent))

pub record Drains {W : Type 0} (env : Env W) (messages : List BusMessage) (p : Progress)
    (w : Worker W) (p' : Progress) (w' : Worker W) (served : List Envelope) : Type 0 where
  pub picked : Picked served (map (λ (m : BusMessage). env.validate m.payload) messages)
  pub runs : Runs env served w w'
  pub count : p'.processed_count ≡ p.processed_count + length served
  pub fresh : Fresh p.processed_conversations served
  pub distinct : IsDistinct (conversations_of served)
  pub listed :
      (c : Text)
      → has_text c p'.processed_conversations ≡ (
          if has_text c (conversations_of served)
          then true
          else has_text c p.processed_conversations)
  pub news : All (IsNew w w') served
  pub others :
      (c i : Text) → has_text c (conversations_of served) ≡ false → recorded w' c i ≡ recorded w c i

module _ {W : Type 0} where
  IsNew-from :
      (w v w' : Worker W) (e : Envelope)
      → v.locks_in_memory ≡ w.locks_in_memory
      → ((c i : Text) → recorded w c i ≡ true → recorded v c i ≡ true)
      → IsNew v w' e
      → IsNew w w' e
  IsNew-from w v w' e locks records h = record {
    unseen = elim (Bool-cases (recorded w e.conversation_id e.id)) [
      | inl seen ↦ (let bad = records e.conversation_id e.id seen in cc (h.unseen, bad))
      | inr unseen ↦ unseen
    ];
    unlocked = ap (has_text e.conversation_id) (sym locks) ∙ h.unlocked;
    marked = h.marked;
  }

  pub IsNew-to :
      (w v w' : Worker W) (e : Envelope)
      → ((c i : Text) → recorded v c i ≡ true → recorded w' c i ≡ true)
      → IsNew w v e
      → IsNew w w' e
  IsNew-to w v w' e records h = record {
    unseen = h.unseen;
    unlocked = h.unlocked;
    marked = records e.conversation_id e.id h.marked;
  }

module _ {W : Type 0} (env : Env W) (in_memory : env.client ≡ none) where
  visit_validated-Visited :
      (id : Text) (r : Result Envelope) (p p' : Progress) (w w' : Worker W)
      → visit_validated env id r p w ≡ (return p', w')
      → Skips p w p' w' ⊎ ((e : Envelope) × (r ≡ return e) × Serves env p w e p' w')
  unfolding visit_validated
  visit_validated-Visited id (return e) p p' w w' h =
      elim (subst (Visited env in_memory p w e) h (visit_envelope-Visited env in_memory id e p w)) [
        | inl skips ↦ inl skips
        | inr serves ↦ inr (e, refl, serves)
      ]
  visit_validated-Visited id (raise exc) p p' w w' h = cc

  Drains-skip :
      (msg : BusMessage) (messages : List BusMessage) (p q p' : Progress) (w v w' : Worker W)
      (served : List Envelope)
      → v.locks_in_memory ≡ w.locks_in_memory
      → Extends p w q v
      → Skips p w q v
      → Drains env messages q v p' w' served
      → Drains env (msg ∷ messages) p w p' w' served
  Drains-skip msg messages p q p' w v w' served locks x (same, runs, kept) d = record {
    picked =
        Picked-skip served (env.validate msg.payload)
          (map (λ (m : BusMessage). env.validate m.payload) messages) d.picked;
    runs = Runs-from env served w v w' runs d.runs;
    count = d.count ∙ ap (λ (y : Progress). y.processed_count + length served) same;
    fresh = subst (λ (y : Progress). Fresh y.processed_conversations served) same d.fresh;
    distinct = d.distinct;
    listed = λ c.
        d.listed c
        ∙ ap
            (λ (y : Progress).
              if has_text c (conversations_of served)
              then true
              else has_text c y.processed_conversations)
            same;
    news = All-map served (λ e. IsNew-from w v w' e locks x.records) d.news;
    others = λ c i h. d.others c i h ∙ kept c i;
  }

  Drains-serve :
      (msg : BusMessage) (messages : List BusMessage) (p q p' : Progress) (w v w' : Worker W)
      (e : Envelope) (served : List Envelope)
      → v.locks_in_memory ≡ w.locks_in_memory
      → Extends p w q v
      → Extends q v p' w'
      → env.validate msg.payload ≡ return e
      → Serves env p w e q v
      → Drains env messages q v p' w' served
      → Drains env (msg ∷ messages) p w p' w' (e ∷ served)
  unfolding has_text
  Drains-serve msg messages p q p' w v w' e served locks x y valid s d =
      let cid = e.conversation_id in
      let (fresh, absent) =
        Fresh-cons cid p.processed_conversations served
          (subst (λ cs. Fresh cs served) s.conversations d.fresh) in
      let (u, done, t, begins, run, ends) = s.runs in
      record {
        picked = inl (valid, d.picked);
        runs = (u, done, t, begins, run, Runs-from env served t v w' ends d.runs);
        count = omega (arith, d.count, s.count);
        fresh = (s.fresh, fresh);
        distinct = (absent, d.distinct);
        listed = λ c. ground (arith, d.listed c, ap (has_text c) s.conversations);
        news = (
          IsNew-to w v w' e y.records s.is_new,
          All-map served (λ e'. IsNew-from w v w' e' locks x.records) d.news,
        );
        others = λ c i h.
            let later : has_text c (conversations_of served) ≡ false = ground (arith, h) in
            let now : same_text cid c ≡ false = ground (arith, h) in
            d.others c i later ∙ s.others c i now;
      }

  pub drain-Drains :
      (messages : List BusMessage) (p p' : Progress) (w w' : Worker W)
      → drain env messages p w ≡ (return p', w')
      → (served : List Envelope) × Drains env messages p w p' w' served
  unfolding drain visit has_text
  drain-Drains [] p p' w w' h =
      let same_p : p' ≡ p = cc in
      let same_w : w ≡ w' = cc in
      (
        [],
        record {
          picked = tt;
          runs = subst (SameRun w) same_w (SameRun-refl w);
          count = omega (arith, ap (λ (y : Progress). y.processed_count) same_p);
          fresh = tt;
          distinct = tt;
          listed = λ c. ap (λ (y : Progress). has_text c y.processed_conversations) same_p;
          news = tt;
          others = λ c i absent. ap (λ (y : Worker W). recorded y c i) (sym same_w);
        },
      )
  drain-Drains (msg ∷ messages) p p' w w' h =
      let (q, first, others) = continue-eq-return (visit env msg p w) (drain env messages) h in
      let v = (visit env msg p w).1 in
      let locks = visit-locks env in_memory msg p w in
      let (x, accounted) = visit-Post env in_memory w.locks_in_memory msg p q w v refl first in
      let (y, all) = drain-Post env in_memory v.locks_in_memory messages q p' v w' refl others in
      let (served, d) = drain-Drains messages q p' v w' others in
      elim (visit_validated-Visited msg.id (env.validate msg.payload) p q w v first) [
        | inl skips ↦ (served, Drains-skip msg messages p q p' w v w' served locks x skips d)
        | inr (e, valid, serves) ↦
            (e ∷ served, Drains-serve msg messages p q p' w v w' e served locks x y valid serves d)
      ]
