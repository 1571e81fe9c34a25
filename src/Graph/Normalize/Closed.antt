-- ===== src/Graph/Normalize/Closed.antt =====
-- What holds of a normalized snapshot.
use my_pi.Prelude.{
  ℕ, ◌≡◌, ◌≤◌, refl, subst, List, true, ◌||◌, not, arith, ◌==◌, length, length-take, take, filter,
  all,
}
use my_pi.Prelude.Outcome.{ok, >>=-eq-ok, after_require, ok-injective, plain_error}
use my_pi.Prelude.Sorting.{
  sort_by, distinct_by, IsSorted, sort_by-IsSorted, filter-IsSorted, take-IsSorted,
  distinct_by-take, distinct_by-filter, All-sort_by, All-filter, All-take, all-filter_self,
  all-take,
}
use my_pi.Graph.Model.{GraphAttributes, GraphNode, GraphEdge, GraphSnapshot, GraphSnapshotInput}
use my_pi.Graph.Normalize.{
  text_ok, normalize_bounds, normalize_node, normalize_edge, node_id, edge_id, connects,
  optional_text_ok, degraded_ok, each, normalize_snapshot,
}
use my_pi.Graph.Normalize.Canonical.{IsFixed, node_idem, edge_idem, each-IsFixed}

module _ (json_bytes : GraphAttributes → ℕ) where
  -- A snapshot in its normal form, for its own bounds.
  pub record IsNormal (s : GraphSnapshot) : Type 0 where
    pub version : text_ok 256 s.graph_version ≡ true
    pub few_nodes : length s.nodes ≤ s.bounds.max_nodes
    pub few_edges : length s.edges ≤ s.bounds.max_edges
    pub nodes_differ : distinct_by node_id s.nodes ≡ true
    pub edges_differ : distinct_by edge_id s.edges ≡ true
    pub nodes_sorted : IsSorted node_id s.nodes
    pub edges_sorted : IsSorted edge_id s.edges
    pub nodes_fixed : IsFixed (normalize_node json_bytes s.bounds) s.nodes
    pub edges_fixed : IsFixed (normalize_edge json_bytes s.bounds) s.edges
    pub closed : all (connects s.nodes) s.edges ≡ true
    pub cursor : optional_text_ok 512 s.cursor ≡ true
    pub generated_at : optional_text_ok 128 s.generated_at ≡ true
    pub degraded : degraded_ok s.degraded ≡ true

  -- What a call that returns has taken from its input.
  pub record IsNormalized (input : GraphSnapshotInput) (s : GraphSnapshot) : Type 0 where
    pub bounds : normalize_bounds input.bounds ≡ ok s.bounds
    pub all_nodes : List GraphNode
    pub all_edges : List GraphEdge
    pub normal_nodes : each (normalize_node json_bytes s.bounds) input.nodes ≡ ok all_nodes
    pub normal_edges : each (normalize_edge json_bytes s.bounds) input.edges ≡ ok all_edges
    pub nodes : s.nodes ≡ take s.bounds.max_nodes (sort_by node_id all_nodes)
    pub edges :
        s.edges ≡ take s.bounds.max_edges (filter (connects s.nodes) (sort_by edge_id all_edges))
    pub truncated : s.truncated ≡ (
        input.truncated
        || (not (length s.nodes == length (sort_by node_id all_nodes))
            || (not
                  (length s.edges == length (filter (connects s.nodes) (sort_by edge_id all_edges)))
                || not (
                    length (filter (connects s.nodes) (sort_by edge_id all_edges))
                    == length (sort_by edge_id all_edges)))))

  -- A call that returns gives a normal snapshot.
  pub normalize_snapshot-eq-ok :
      (input : GraphSnapshotInput) (s : GraphSnapshot)
      → normalize_snapshot json_bytes input ≡ ok s
      → IsNormal s × IsNormalized input s
  unfolding normalize_snapshot
  normalize_snapshot-eq-ok input s h =
      let (version, h₁) = after_require (text_ok 256 input.graph_version) plain_error _ h in
      let (b, b_ok, h₂) = >>=-eq-ok (normalize_bounds input.bounds) _ h₁ in
      let (ns, ns_ok, h₃) = >>=-eq-ok (each (normalize_node json_bytes b) input.nodes) _ h₂ in
      let nodes = sort_by node_id ns in
      let (nodes_differ, h₄) = after_require (distinct_by node_id nodes) plain_error _ h₃ in
      let kept = take b.max_nodes nodes in
      let (es, es_ok, h₅) = >>=-eq-ok (each (normalize_edge json_bytes b) input.edges) _ h₄ in
      let edges = sort_by edge_id es in
      let (edges_differ, h₆) = after_require (distinct_by edge_id edges) plain_error _ h₅ in
      let joined = filter (connects kept) edges in
      let (cursor, h₇) = after_require (optional_text_ok 512 input.cursor) plain_error _ h₆ in
      let (generated, h₈) =
        after_require (optional_text_ok 128 input.generated_at) plain_error _ h₇ in
      let (degraded, h₉) = after_require (degraded_ok input.degraded) plain_error _ h₈ in
      let same = ok-injective _ s h₉ in
      subst (λ (t : GraphSnapshot). IsNormal t × IsNormalized input t) same
        (
          record {
            version = version;
            few_nodes = omega (arith, length-take b.max_nodes nodes);
            few_edges = omega (arith, length-take b.max_edges joined);
            nodes_differ = distinct_by-take node_id b.max_nodes nodes nodes_differ;
            edges_differ =
                distinct_by-take edge_id b.max_edges joined
                  (distinct_by-filter edge_id (connects kept) edges edges_differ);
            nodes_sorted = take-IsSorted node_id b.max_nodes nodes (sort_by-IsSorted node_id ns);
            edges_sorted =
                take-IsSorted edge_id b.max_edges joined
                  (filter-IsSorted edge_id (connects kept) edges (sort_by-IsSorted edge_id es));
            nodes_fixed = All-take _ b.max_nodes nodes (
                All-sort_by _ node_id ns (
                  each-IsFixed (normalize_node json_bytes b)
                    (λ x y e. (node_idem json_bytes b x y e).0) input.nodes ns ns_ok));
            edges_fixed = All-take _ b.max_edges joined (
                All-filter _ (connects kept) edges (
                  All-sort_by _ edge_id es (
                    each-IsFixed (normalize_edge json_bytes b) (edge_idem json_bytes b) input.edges
                      es es_ok)));
            closed =
                all-take (connects kept) b.max_edges joined (all-filter_self (connects kept) edges);
            cursor = cursor;
            generated_at = generated;
            degraded = degraded;
          },
          record {
            bounds = b_ok;
            all_nodes = ns;
            all_edges = es;
            normal_nodes = ns_ok;
            normal_edges = es_ok;
            nodes = refl;
            edges = refl;
            truncated = refl;
          },
        )
