-- ===== src/Bus/Topics.antt =====
-- magent2/bus/utils.py: the topics to which a chat message is published.
use magent.Prelude.{
  ℕ, ◌≡◌, ◌∙◌, refl, sym, ap, ◌⊎◌, inl, inr, true, false, Bool-cases, arith, starts_with-append,
  List, [], ◌∷◌, ◌++◌, if◌then◌else◌, Text, codes, starts_with, strip, after_sep, is_empty,
}

abbrev pub chat_topic : Text → Text
chat_topic name = codes "chat:" ++ name

-- The name in a recipient `agent:{name}`, empty for any other recipient.
unfoldable pub agent_of : Text → Text
unfolding starts_with after_sep strip
agent_of recipient =
    let rec = strip recipient in if starts_with (codes "agent:") rec then after_sep b':' rec else []

unfoldable pub compute_publish_topics : Text → Text → List Text
unfolding agent_of
compute_publish_topics recipient conversation_id =
    let name = agent_of recipient in
    if is_empty name
    then chat_topic conversation_id ∷ []
    else chat_topic conversation_id ∷ chat_topic name ∷ []

publish_topics_agent :
    compute_publish_topics (codes " agent:Dev ") (codes "c1")
    ≡ codes "chat:c1" ∷ codes "chat:Dev" ∷ []
unfolding compute_publish_topics
publish_topics_agent = refl

publish_topics_user : compute_publish_topics (codes "user:Dev") (codes "c1") ≡ codes "chat:c1" ∷ []
unfolding compute_publish_topics
publish_topics_user = refl

starts_with-eq-true : (p s : Text) → starts_with p s ≡ true → (rest : Text) × (s ≡ p ++ rest)
unfolding starts_with
starts_with-eq-true [] s h = (s, refl)
starts_with-eq-true (c ∷ p) [] h = cc
starts_with-eq-true (c ∷ p) (d ∷ s) h =
    let (rest, e) = starts_with-eq-true p s (ground (arith, h)) in
    let same : c ≡ d = ground (arith, h) in (rest, cc)

-- The recipient names an agent: without the white space around it, it is `agent:` and a name that
-- is not empty.
abbrev pub IsAgent : Text → Text → Type 0
IsAgent recipient name =
    (ch : ℕ) × (rest : Text) × (name ≡ ch ∷ rest) × (strip recipient ≡ codes "agent:" ++ name)

agent_of-name :
    (recipient name : Text) → strip recipient ≡ codes "agent:" ++ name → agent_of recipient ≡ name
unfolding agent_of starts_with after_sep
agent_of-name recipient name h = rw h refl

agent_of-other :
    (recipient : Text)
    → starts_with (codes "agent:") (strip recipient) ≡ false
    → agent_of recipient ≡ []
unfolding agent_of
agent_of-other recipient h = rw h refl

-- One branch for each kind of recipient.
abbrev pub Addressed : Text → Text → Type 0
Addressed recipient conversation_id =
    ((name : Text) × IsAgent recipient name
      × (compute_publish_topics recipient conversation_id
          ≡ chat_topic conversation_id ∷ chat_topic name ∷ []))
    ⊎ (((name : Text) → ¬ IsAgent recipient name)
        × (compute_publish_topics recipient conversation_id ≡ chat_topic conversation_id ∷ []))

Addressed-agent :
    (recipient conversation_id name : Text)
    → strip recipient ≡ codes "agent:" ++ name
    → Addressed recipient conversation_id
unfolding compute_publish_topics
Addressed-agent recipient conversation_id [] e = inr (
  λ name h.
      (let (ch, rest, n, e') = h in
        let bad : [] ≡ ch ∷ rest =
          sym (agent_of-name recipient [] e) ∙ agent_of-name recipient name e' ∙ n in
        cc),
  rw (agent_of-name recipient [] e) refl,
)
Addressed-agent recipient conversation_id (ch ∷ name) e =
    inl (ch ∷ name, (ch, name, refl, e), rw (agent_of-name recipient (ch ∷ name) e) refl)

Addressed-other :
    (recipient conversation_id : Text)
    → starts_with (codes "agent:") (strip recipient) ≡ false
    → Addressed recipient conversation_id
unfolding compute_publish_topics
Addressed-other recipient conversation_id other = inr (
  λ name h.
      (let (ch, rest, n, e) = h in
        let bad : true ≡ false =
          sym (starts_with-append (codes "agent:") name)
          ∙ ap (starts_with (codes "agent:")) (sym e)
          ∙ other in
        cc),
  rw (agent_of-other recipient other) refl,
)

-- A message to a recipient `agent:{name}`, with a name that is not empty and white space around the
-- recipient left out, goes to the conversation's topic and then to the agent's, whatever the name
-- holds; a message to any other recipient goes to the conversation's topic alone.
pub publish_topics_lem : (recipient conversation_id : Text) → Addressed recipient conversation_id
publish_topics_lem recipient conversation_id =
    elim (Bool-cases (starts_with (codes "agent:") (strip recipient))) [
      | inl agent ↦
          let (name, e) = starts_with-eq-true (codes "agent:") (strip recipient) agent in
          Addressed-agent recipient conversation_id name e
      | inr other ↦ Addressed-other recipient conversation_id other
    ]
