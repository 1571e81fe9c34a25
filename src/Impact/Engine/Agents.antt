-- ===== src/Impact/Engine/Agents.antt =====
-- The affected agents work on affected items.
use my_pi.Prelude.{
  ℕ, ◌≡◌, refl, subst, inl, inr, String, none, some, List, [], ◌∷◌, Bool, true, false, ◌&&◌, ◌||◌,
  both, of_both, leb, str_eq, any, all, map, Bool-cases, Option-cases,
}
use my_pi.Prelude.Dict.{Dict, get, put, values, str_eq_refl}
use my_pi.Prelude.Text.{truthy, is_text}
use my_pi.Prelude.Outcome.{ok, after_require, ok-injective, plain_error}
use my_pi.Impact.Model.{CodeEntity, CodeEdge}
use my_pi.Impact.Traversal.{target_entities, graph_traversal}
use my_pi.Impact.Engine.{
  WorkItem, ImpactInput, ImpactResult, Affected, insert_before, sort_before, with_defaults,
  find_affected, joined_impact, agent_map, merged, affected_first, result_of, compute,
}

all-insert_before {ℓ} :
    {A : Type ℓ} (before : A → A → Bool) (p : A → Bool) (x : A) (xs : List A)
    → p x ≡ true
    → all p xs ≡ true
    → all p (insert_before before x xs) ≡ true
unfolding insert_before
all-insert_before before p x [] h k = rw h refl
all-insert_before before p x (y ∷ ys) h k = elim (Bool-cases (before y x)) [
  | inl first ↦
      rw
        (
          first,
          (both (p y) (all p ys) k).0,
          all-insert_before before p x ys h (both (p y) (all p ys) k).1,
        )
        refl
  | inr last ↦ rw (last, h) k
]

all-sort_before {ℓ} :
    {A : Type ℓ} (before : A → A → Bool) (p : A → Bool) (xs : List A)
    → all p xs ≡ true
    → all p (sort_before before xs) ≡ true
unfolding sort_before
all-sort_before before p [] h = refl
all-sort_before before p (x ∷ xs) h =
    all-insert_before before p x (sort_before before xs) (both (p x) (all p xs) h).0
      (all-sort_before before p xs (both (p x) (all p xs) h).1)

all-put {ℓ} :
    {V : Type ℓ} (p : V → Bool) (k : String) (v : V) (m : Dict V)
    → p v ≡ true
    → all p (values m) ≡ true
    → all p (values (put k v m)) ≡ true
unfolding values put
all-put p k v [] h all_p = rw h refl
all-put p k v ((j, w) ∷ m) h all_p = elim (Bool-cases (str_eq j k)) [
  | inl same ↦ rw (same, h) (both (p w) (all p (values m)) all_p).1
  | inr other ↦
      rw (other, (both (p w) (all p (values m)) all_p).0)
        (all-put p k v m h (both (p w) (all p (values m)) all_p).1)
]

abbrev pub is_listed : List Affected → String → Bool
is_listed affected id = any (λ (a : Affected). str_eq a.id id) affected

find_affected-is_listed :
    (precedes : String → String → Bool) (id : String) (affected : List Affected) (a : Affected)
    → find_affected precedes id affected ≡ some a
    → is_listed affected id ≡ true
unfolding find_affected
find_affected-is_listed precedes id [] a h = cc
find_affected-is_listed precedes id (b ∷ rest) a h = elim (Bool-cases (str_eq b.id id)) [
  | inl same ↦ rw same refl
  | inr other ↦ rw other (find_affected-is_listed precedes id rest a (rw other at h))
]

-- The item is the agent's, and is affected.
abbrev pub occupies : List Affected → String → WorkItem → Bool
occupies affected agent item = is_text item.assignee agent && is_listed affected item.id

-- One of the items is the agent's, and is affected.
abbrev pub is_occupied : List Affected → List WorkItem → Affected → Bool
is_occupied affected items agent = any (occupies affected agent.id) items

or_true : (b : Bool) → (b || true) ≡ true
or_true true = refl
or_true false = refl

module _ (precedes : String → String → Bool) (affected : List Affected)
    (whole : List WorkItem) where
  agent_map-is_occupied :
      (items : List WorkItem) (m : Dict Affected)
      → ((agent : String)
          → any (occupies affected agent) items ≡ true
          → any (occupies affected agent) whole ≡ true)
      → all (is_occupied affected whole) (values m) ≡ true
      → all (is_occupied affected whole) (values (agent_map precedes affected items m)) ≡ true
  unfolding agent_map
  agent_map-is_occupied [] m into h = h
  agent_map-is_occupied (item ∷ items) m into h =
      let later : (agent : String)
          → any (occupies affected agent) items ≡ true
          → any (occupies affected agent) whole ≡ true =
        λ agent k. into agent (rw k (or_true (occupies affected agent item))) in
      elim (Option-cases item.assignee) [
        | inl nobody ↦ rw (agent_map, nobody) (agent_map-is_occupied items m later h)
        | inr (agent, is_agent) ↦ elim (Option-cases (find_affected precedes item.id affected)) [
          | inl missing ↦ rw (agent_map, is_agent, missing) (agent_map-is_occupied items m later h)
          | inr (impact, found) ↦
              let listed = find_affected-is_listed precedes item.id affected impact found in
              let here : any (occupies affected agent) (item ∷ items) ≡ true =
                rw (is_agent, listed, str_eq_refl agent) refl in
              let next = put agent (joined_impact precedes agent (get agent m) impact) m in
              elim (Bool-cases (truthy agent)) [
                | inl named ↦
                    rw (agent_map, is_agent, found, named)
                      (agent_map-is_occupied items next later (
                        all-put (is_occupied affected whole) agent
                          (joined_impact precedes agent (get agent m) impact) m (into agent here)
                          h))
                | inr empty ↦
                    rw (agent_map, is_agent, found, empty) (agent_map-is_occupied items m later h)
              ]
        ]
      ]

  all-merged :
      (agents : List Affected)
      → all (is_occupied affected whole) agents ≡ true
      → all (is_occupied affected whole) (map (merged precedes) agents) ≡ true
  unfolding merged
  all-merged [] h = refl
  all-merged (a ∷ agents) h =
      let (first, rest) =
        both (is_occupied affected whole a) (all (is_occupied affected whole) agents) h in
      of_both (is_occupied affected whole a)
        (all (is_occupied affected whole) (map (merged precedes) agents)) first
        (all-merged agents rest)

  agents-is_occupied :
      all (is_occupied affected whole) (
        sort_before
          (affected_first precedes)
          (map (merged precedes) (values (agent_map precedes affected whole []))))
      ≡ true
  unfolding values
  agents-is_occupied =
      all-sort_before (affected_first precedes) (is_occupied affected whole)
        (map (merged precedes) (values (agent_map precedes affected whole [])))
        (all-merged (values (agent_map precedes affected whole []))
          (agent_map-is_occupied whole [] (λ agent k. k) refl))

module _ (precedes : String → String → Bool) (decimal : ℕ → String) (confidence : ℕ → ℕ → String)
    (hash_graph : List CodeEntity → List CodeEdge → String) where
  -- Each agent in a result that is computed is the assignee of a work item of the input that the
  -- result has among the affected ones.
  pub compute-is_occupied :
      (input : ImpactInput) (result : ImpactResult)
      → compute precedes decimal confidence hash_graph input ≡ ok result
      → all (is_occupied result.affected_work_items input.work_items) result.affected_agents ≡ true
  unfolding compute result_of
  compute-is_occupied input result h =
      let bounds = with_defaults input.bounds in
      let (depth_ok, h₁) = after_require (leb bounds.max_depth 20) plain_error _ h in
      let (entities_ok, h₂) =
        after_require (leb 1 bounds.max_entities && leb bounds.max_entities 100000) plain_error _
          h₁ in
      let targets =
        target_entities (elim input.intent [ none ↦ none | some intent ↦ some intent.targets ])
          input.entities in
      let computed =
        result_of precedes decimal confidence hash_graph input targets
          (graph_traversal targets input.entities input.edges bounds) in
      subst
        (λ (r : ImpactResult).
          all (is_occupied r.affected_work_items input.work_items) r.affected_agents ≡ true)
        (ok-injective computed result h₂)
        (agents-is_occupied precedes computed.affected_work_items input.work_items)
