-- ===== src/Mcp/Exposed.antt =====
-- What the gateway calls: only a tool that the policy of its server exposes.
use magent.Prelude.{
  ℕ, suc, ◌+◌, ◌≡◌, refl, sym, ap, ◌∙◌, subst, ◌⊎◌, inl, inr, true, false, not, ◌&&◌, Bool-cases,
  Option-cases, Option, none, some, List, [], ◌∷◌, arith, Text, same_text, same_text_iff, Dict,
  lookup, insert, lookup-insert, is_some, has_text,
}
use magent.Prelude.Exec.{raise}
use magent.Json.{Fields}
use magent.Mcp.Config.{McpServerConfig}
use magent.Mcp.Gateway.{
  Servers, Gateway, unknown_tool, get_elem?, in_set, is_exposed_by_policy, claim_names,
  iter_server_tool_names, index_servers, index_tools,
}
use magent.Mcp.Calls.{call_client, call}

-- Every owner of a tool is as `P` says.
abbrev Owners : (P : Text → ℕ → Type 0) → Dict ℕ → Type 0
Owners P owner = (name : Text) (index : ℕ) → lookup name owner ≡ some index → P name index

insert-Owners :
    (P : Text → ℕ → Type 0) (name : Text) (index : ℕ) (owner : Dict ℕ)
    → P name index
    → Owners P owner
    → Owners P (insert name index owner)
insert-Owners P name index owner h k n i e = elim (Bool-cases (same_text name n)) [
  | inl same ↦
      let found : some index ≡ some i = sym (lookup-insert name n index owner ∙ rw same refl) ∙ e in
      let place : index ≡ i = cc in
      subst (λ m. P m i) ((same_text_iff name n).0 same) (subst (P name) place h)
  | inr other ↦ k n i (sym (lookup-insert name n index owner ∙ rw other refl) ∙ e)
]

claim_names-Owners :
    (P : Text → ℕ → Type 0) (config : McpServerConfig) (index : ℕ) (names : List Text)
    (owner : Dict ℕ)
    → ((name : Text) → is_exposed_by_policy config name ≡ true → P name index)
    → Owners P owner
    → Owners P (claim_names config index names owner)
unfolding claim_names
claim_names-Owners P config index [] owner h k = k
claim_names-Owners P config index (name ∷ names) owner h k =
    elim (Bool-cases (is_exposed_by_policy config name && not (is_some (lookup name owner)))) [
      | inl claimed ↦ rw claimed (
          claim_names-Owners P config index names (insert name index owner) h
            (insert-Owners P name index owner (h name (ground (arith, claimed))) k))
      | inr left ↦ rw left (claim_names-Owners P config index names owner h k)
    ]

in_set-some :
    (name : Text) (names : Option (List Text))
    → in_set name names ≡ true
    → (l : List Text) × (names ≡ some l) × (has_text name l ≡ true)
in_set-some name none h = cc
in_set-some name (some l) h = (l, refl, h)

policy_lem :
    (config : McpServerConfig) (name : Text)
    → is_exposed_by_policy config name ≡ true
    → (in_set name config.allow ≡ true) × (in_set name config.block ≡ false)
unfolding is_exposed_by_policy
policy_lem config name h = (ground (arith, h), ground (arith, h))

no_owner : {A : Type 0} (name : Text) (index : ℕ) → lookup {V = ℕ} name [] ≡ some index → A
unfolding lookup
no_owner name index e = cc

module _ {W C : Type 0} (servers : Servers W C) where
  -- `P` holds of what a server at a place in the rest of the lists exposes.
  index_servers-Owners :
      (P : Text → ℕ → Type 0) (index : ℕ) (configs : List McpServerConfig) (clients : List C)
      (owner : Dict ℕ) (w : W)
      → ((i : ℕ) (config : McpServerConfig) (client : C) (name : Text)
          → get_elem? configs i ≡ some config
          → get_elem? clients i ≡ some client
          → is_exposed_by_policy config name ≡ true
          → P name (index + i))
      → Owners P owner
      → Owners P (index_servers servers index configs clients owner w).0
  unfolding index_servers get_elem?
  index_servers-Owners P index [] clients owner w h k = k
  index_servers-Owners P index (config ∷ configs) [] owner w h k = k
  index_servers-Owners P index (config ∷ configs) (client ∷ clients) owner w h k =
      let (names, w') = iter_server_tool_names servers client w in
      let here : index + 0 ≡ index = omega arith in
      index_servers-Owners P (index + 1) configs clients (claim_names config index names owner) w'
        (λ i config' client' name e e' exposed.
          let next : index + suc i ≡ index + 1 + i = omega arith in
          subst (P name) next (h (suc i) config' client' name e e' exposed))
        (claim_names-Owners P config index names owner
          (λ name exposed. subst (P name) here (h 0 config client name refl refl exposed)) k)

  -- The server at a place exposes a tool.
  pub record Exposes (configs : List McpServerConfig) (clients : List C) (name : Text) (index : ℕ)
      : Type 0 where
    pub config : McpServerConfig
    pub client : C
    pub configured : get_elem? configs index ≡ some config
    pub running : get_elem? clients index ≡ some client
    pub allowed : List Text
    pub allow_list : config.allow ≡ some allowed
    pub in_allow_list : has_text name allowed ≡ true
    pub not_blocked :
        (blocked : List Text) → config.block ≡ some blocked → has_text name blocked ≡ false

  -- After the index of tools is built, a call of a tool either raises the KeyError of an unknown
  -- tool and changes nothing, or goes to the client at a place of the list where the configuration
  -- at the same place has the tool in its allow list and not in its block list.
  pub call_exposed :
      (configs : List McpServerConfig) (g : Gateway W C) (name : Text) (arguments : Option Fields)
      (timeout : Option Text)
      → (call servers name arguments timeout (index_tools servers configs g)
          ≡ (raise (unknown_tool name), index_tools servers configs g))
        ⊎ ((index : ℕ) × (server : Exposes configs g.clients name index) × (call servers name
                arguments timeout
                (index_tools servers configs g)
              ≡ call_client servers name arguments timeout
                  (some server.client)
                  (index_tools servers configs g)))
  unfolding call index_tools
  call_exposed configs g name arguments timeout =
      let owner : Dict ℕ = (index_servers servers 0 configs g.clients [] g.world).0 in
      let owners : Owners (Exposes configs g.clients) owner =
        index_servers-Owners (Exposes configs g.clients) 0 configs g.clients [] g.world
          (λ i config client n e e' h.
            let same : i ≡ 0 + i = omega arith in
            let (in_allow, not_in_block) = policy_lem config n h in
            let (allowed, allow_list, in_allow_list) = in_set-some n config.allow in_allow in
            subst (Exposes configs g.clients n) same (record {
              config = config;
              client = client;
              configured = e;
              running = e';
              allowed = allowed;
              allow_list = allow_list;
              in_allow_list = in_allow_list;
              not_blocked = λ blocked b. sym (ap (in_set n) b) ∙ not_in_block;
            }))
          (λ n i e. no_owner n i e) in
      elim (Option-cases (lookup name owner)) [
        | inl nobody ↦ inl (rw nobody refl)
        | inr (index, owned) ↦
            let server : Exposes configs g.clients name index = owners name index owned in
            inr (index, server, rw (owned, server.running) refl)
      ]
