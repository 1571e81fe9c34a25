-- ===== src/Graph/Theater/Cues.antt =====
-- A motion cue points at nodes of its graph.
use my_pi.Prelude.{
  ℕ, ◌≡◌, refl, subst, String, Option, none, some, List, [], ◌∷◌, Bool, true, false, arith, str_eq,
  if◌then◌else◌, Bool-cases, Option-cases, inl, inr,
}
use my_pi.Prelude.Dict.{str_eq_refl}
use my_pi.Prelude.Text.{truthy}
use my_pi.Graph.Model.{GraphNode, GraphSnapshot}
use my_pi.Graph.Normalize.{or_empty, has_node}
use my_pi.Graph.Theater.{
  TheaterEvent, SceneCue, MotionCueType, find_node, node_of, or_node, direct, or_search, id_of, cue,
  type_in, actor_id, or_text, is_session, session_includes, session_source, work_target,
  intent_target, heartbeat_cue, claim_cue, blocked_cue, intent_cue, settle_cue, event_to_motion_cue,
}

-- The node, if there is one, is one of these.
abbrev pub IsNodeOf : List GraphNode → Option GraphNode → Type 0
IsNodeOf nodes none = Unit
IsNodeOf nodes (some n) = has_node nodes n.id ≡ true

-- So is the one with this identifier.
abbrev pub HasId : List GraphNode → Option String → Type 0
HasId nodes none = Unit
HasId nodes (some id) = has_node nodes id ≡ true

later_node :
    (m : GraphNode) (nodes : List GraphNode) (o : Option GraphNode)
    → IsNodeOf nodes o
    → IsNodeOf (m ∷ nodes) o
later_node m nodes none h = tt
later_node m nodes (some n) h = ground (arith, h)

find_node-IsNodeOf :
    (p : GraphNode → Bool) (nodes : List GraphNode) → IsNodeOf nodes (find_node p nodes)
unfolding find_node
find_node-IsNodeOf p [] = tt
find_node-IsNodeOf p (n ∷ nodes) = elim (Bool-cases (p n)) [
  | inl hit ↦ rw hit (rw (str_eq_refl n.id) refl)
  | inr miss ↦ rw miss (later_node n nodes (find_node p nodes) (find_node-IsNodeOf p nodes))
]

node_of-IsNodeOf : (nodes : List GraphNode) (id : String) → IsNodeOf nodes (node_of nodes id)
unfolding node_of
node_of-IsNodeOf [] id = tt
node_of-IsNodeOf (n ∷ nodes) id = elim (Option-cases (node_of nodes id)) [
  | inl missing ↦ elim (Bool-cases (str_eq n.id id)) [
    | inl same ↦ rw (missing, same) (rw (str_eq_refl n.id) refl)
    | inr other ↦ rw (missing, other) tt
  ]
  | inr (later, found) ↦
      rw found
        (later_node n nodes (some later) (subst (IsNodeOf nodes) found (node_of-IsNodeOf nodes id)))
]

module _ (nodes : List GraphNode) where
  or_node-IsNodeOf :
      (a b : Option GraphNode) → IsNodeOf nodes a → IsNodeOf nodes b → IsNodeOf nodes (or_node a b)
  or_node-IsNodeOf none b h k = k
  or_node-IsNodeOf (some n) b h k = h

  direct-IsNodeOf : (scheme id : String) → IsNodeOf nodes (direct nodes scheme id)
  unfolding direct
  direct-IsNodeOf scheme id = elim (Bool-cases (truthy id)) [
    | inl given ↦
        rw given (or_node-IsNodeOf _ _ (node_of-IsNodeOf nodes _) (node_of-IsNodeOf nodes id))
    | inr empty ↦ rw empty tt
  ]

  or_search-IsNodeOf :
      (id : String) (p : GraphNode → Bool) (found : Option GraphNode)
      → IsNodeOf nodes found
      → IsNodeOf nodes (or_search nodes id p found)
  unfolding or_search
  or_search-IsNodeOf id p (some n) h = h
  or_search-IsNodeOf id p none h = elim (Bool-cases (truthy id)) [
    | inl given ↦ rw given (find_node-IsNodeOf p nodes)
    | inr empty ↦ rw empty tt
  ]

  session_source-IsNodeOf : (id : String) → IsNodeOf nodes (session_source nodes id)
  session_source-IsNodeOf id =
      or_search-IsNodeOf id (session_includes id) _ (direct-IsNodeOf "agent:session:" id)

  work_target-IsNodeOf : (id : String) → IsNodeOf nodes (work_target nodes id)
  work_target-IsNodeOf id = or_search-IsNodeOf id _ _ (direct-IsNodeOf "work:item:" id)

  intent_target-IsNodeOf : (id : String) → IsNodeOf nodes (intent_target nodes id)
  intent_target-IsNodeOf id = or_search-IsNodeOf id _ _ (direct-IsNodeOf "intent:" id)

  -- Both ends of a cue are nodes.
  abbrev pub PointsAt : Option SceneCue → Type 0
  PointsAt none = Unit
  PointsAt (some c) = (has_node nodes c.target_node_id ≡ true) × HasId nodes c.source_node_id

  id_of-HasId : (o : Option GraphNode) → IsNodeOf nodes o → HasId nodes (id_of o)
  id_of-HasId none h = tt
  id_of-HasId (some n) h = h

  cue-PointsAt :
      (event : TheaterEvent) (now name : String) (type : MotionCueType) (color : String)
      (duration : ℕ) (source : Option String) (target : Option GraphNode)
      → HasId nodes source
      → IsNodeOf nodes target
      → PointsAt (cue event now name type color duration source target)
  cue-PointsAt event now name type color duration source none h k = tt
  cue-PointsAt event now name type color duration source (some n) h k = (k, h)

  if-PointsAt :
      (b : Bool) (c d : Option SceneCue) → PointsAt c → PointsAt d → PointsAt (if b then c else d)
  if-PointsAt true c d h k = h
  if-PointsAt false c d h k = k

  heartbeat_cue-PointsAt :
      (event : TheaterEvent) (now : String) → PointsAt (heartbeat_cue event nodes now)
  unfolding heartbeat_cue
  heartbeat_cue-PointsAt event now =
      cue-PointsAt event now _ _ _ _ none _ tt
        (or_node-IsNodeOf _ _ (session_source-IsNodeOf _) (find_node-IsNodeOf is_session nodes))

  claim_cue-PointsAt : (event : TheaterEvent) (now : String) → PointsAt (claim_cue event nodes now)
  unfolding claim_cue
  claim_cue-PointsAt event now =
      cue-PointsAt event now _ _ _ _ _ _ (id_of-HasId _ (session_source-IsNodeOf _))
        (work_target-IsNodeOf _)

  blocked_cue-PointsAt :
      (event : TheaterEvent) (now : String) → PointsAt (blocked_cue event nodes now)
  unfolding blocked_cue
  blocked_cue-PointsAt event now = cue-PointsAt event now _ _ _ _ none _ tt (work_target-IsNodeOf _)

  intent_cue-PointsAt :
      (event : TheaterEvent) (now : String) → PointsAt (intent_cue event nodes now)
  unfolding intent_cue
  intent_cue-PointsAt event now =
      cue-PointsAt event now _ _ _ _ _ _ (id_of-HasId _ (direct-IsNodeOf "agent:session:" _)) (
        or_node-IsNodeOf (intent_target nodes (or_empty event.payload.intent_id))
          (direct nodes "agent:session:"
            (or_empty (or_text (actor_id event) event.payload.agent_session_id)))
          (intent_target-IsNodeOf _) (direct-IsNodeOf "agent:session:" _))

  settle_cue-PointsAt :
      (event : TheaterEvent) (now : String) → PointsAt (settle_cue event nodes now)
  unfolding settle_cue
  settle_cue-PointsAt event now = cue-PointsAt event now _ _ _ _ none _ tt (work_target-IsNodeOf _)

-- The target of each cue is a node of the graph, and so is its source, if it has one.
pub event_to_motion_cue-PointsAt :
    (event : TheaterEvent) (graph : GraphSnapshot) (now : String)
    → PointsAt graph.nodes (event_to_motion_cue event graph now)
unfolding event_to_motion_cue
event_to_motion_cue-PointsAt event graph now =
    elim (Bool-cases (type_in ("AgentHeartbeat" ∷ []) event)) [
      | inl a ↦ rw a (heartbeat_cue-PointsAt graph.nodes event now)
      | inr not_a ↦ elim (Bool-cases (type_in ("WorkItemClaimed" ∷ []) event)) [
        | inl b ↦ rw (not_a, b) (claim_cue-PointsAt graph.nodes event now)
        | inr not_b ↦ elim (Bool-cases (type_in ("WorkItemBlocked" ∷ "Blocked" ∷ []) event)) [
          | inl c ↦ rw (not_a, not_b, c) (blocked_cue-PointsAt graph.nodes event now)
          | inr not_c ↦ elim (Bool-cases (type_in ("IntentDeclared" ∷ []) event)) [
            | inl d ↦ rw (not_a, not_b, not_c, d) (intent_cue-PointsAt graph.nodes event now)
            | inr not_d ↦
                rw (not_a, not_b, not_c, not_d)
                  (if-PointsAt graph.nodes
                    (type_in
                      ("WorkItemCompleted" ∷ "Completed" ∷ "WorkItemEvaluationAccepted"
                        ∷ "EvaluationAccepted" ∷ [])
                      event)
                    _ none (settle_cue-PointsAt graph.nodes event now) tt)
          ]
        ]
      ]
    ]
