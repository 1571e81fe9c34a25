-- ===== src/Graph/Trace/Results.antt =====
-- What a trace that returns shows of the graph, and that it is itself a closed graph in its bounds.
use my_pi.Prelude.{
  ℕ, suc, ◌≤◌, ◌≡◌, refl, sym, subst, ◌∙◌, List, true, ◌&&◌, arith, leb, length, all, Bool-cases,
  both, of_both, inl, inr,
}
use my_pi.Prelude.Outcome.{ok, >>=-eq-ok, after_require, ok-injective, plain_error}
use my_pi.Prelude.Dict.{has}
use my_pi.Graph.Model.{
  GraphAttributes, GraphSnapshot, GraphSnapshotInput, GraphTrace, GraphTraceInput,
}
use my_pi.Graph.Normalize.{
  text_ok, bounded_integer, or_default, has_node, connects, normalize_snapshot, as_input,
}
use my_pi.Graph.Normalize.Closed.{normalize_snapshot-eq-ok}
use my_pi.Graph.Trace.{Step, way_back, searched, search_fuel, is_found, traced_part, trace_snapshot}
use my_pi.Graph.Trace.Discovery.{Walk}
use my_pi.Graph.Trace.Complete.{search-finds}
use my_pi.Graph.Trace.Fuel.{Ended, search-Ended}
use my_pi.Graph.Trace.Way.{IsWay, way_back-IsWay}

bounded_integer-eq-ok : (lo hi n m : ℕ) → bounded_integer lo hi n ≡ ok m → (lo ≤ m) × (m ≤ hi)
unfolding bounded_integer
bounded_integer-eq-ok lo hi n m h = elim (Bool-cases (leb lo n && leb hi n)) [
  | inl e ↦ ground (arith, h, e)
  | inr e ↦ ground (arith, h, e)
]

module _ (json_bytes : GraphAttributes → ℕ) where
  -- What a trace that returns has taken from the snapshot of its input.
  pub record IsTraced (input : GraphTraceInput) (t : GraphTrace) : Type 0 where
    pub whole : GraphSnapshot
    pub whole_ok : normalize_snapshot json_bytes (as_input json_bytes input.snapshot) ≡ ok whole
    pub from : t.from_node_id ≡ input.from_node_id
    pub to : t.to_node_id ≡ input.to_node_id
    pub deep : (1 ≤ t.max_depth) × (t.max_depth ≤ 8)
    pub found :
        t.found
        ≡ is_found whole input.from_node_id input.to_node_id
            (searched whole input.from_node_id input.to_node_id t.max_depth)
    pub part : GraphSnapshotInput
    pub result : GraphSnapshot
    pub result_ok : normalize_snapshot json_bytes part ≡ ok result
    pub nodes : t.nodes ≡ result.nodes
    pub edges : t.edges ≡ result.edges
    pub bounds : t.bounds ≡ result.bounds

  trace_snapshot-eq-ok :
      (input : GraphTraceInput) (t : GraphTrace)
      → trace_snapshot json_bytes input ≡ ok t
      → IsTraced input t
  unfolding trace_snapshot
  trace_snapshot-eq-ok input t h =
      let (s, s_ok, h₁) =
        >>=-eq-ok (normalize_snapshot json_bytes (as_input json_bytes input.snapshot)) _ h in
      let (texts, h₂) =
        after_require (text_ok 512 input.from_node_id && text_ok 512 input.to_node_id) plain_error _
          h₁ in
      let n₀ = or_default 8 input.max_depth in
      let (n, n_ok, h₃) = >>=-eq-ok (bounded_integer 1 8 n₀) _ h₂ in
      let end = searched s input.from_node_id input.to_node_id n in
      let part = traced_part s input.bounds input.from_node_id input.to_node_id n end in
      let (r, r_ok, h₄) = >>=-eq-ok (normalize_snapshot json_bytes part) _ h₃ in
      subst (λ (u : GraphTrace). IsTraced input u) (ok-injective _ t h₄)
        (record {
          whole = s;
          whole_ok = s_ok;
          from = refl;
          to = refl;
          deep = bounded_integer-eq-ok 1 8 n₀ n n_ok;
          found = refl;
          part = part;
          result = r;
          result_ok = r_ok;
          nodes = refl;
          edges = refl;
          bounds = refl;
        })

  -- A trace that returns and has found its target: the start is a node of the normalized snapshot,
  -- and steps over edges of that snapshot join the start to the target, as many as the depth of the
  -- trace allows or fewer, which is eight at most.
  pub trace_snapshot-IsWay :
      (input : GraphTraceInput) (t : GraphTrace)
      → trace_snapshot json_bytes input ≡ ok t
      → t.found ≡ true
      → (s : GraphSnapshot) × (normalize_snapshot json_bytes (as_input json_bytes input.snapshot)
          ≡ ok s)
        × (has_node s.nodes input.from_node_id ≡ true)
        × (steps : List Step) × IsWay s.edges input.from_node_id input.to_node_id steps
        × (length steps ≤ t.max_depth)
        × (t.max_depth ≤ 8)
  trace_snapshot-IsWay input t h found =
      let traced = trace_snapshot-eq-ok input t h in
      let s = traced.whole in
      let from = input.from_node_id in
      let to = input.to_node_id in
      let end = searched s from to t.max_depth in
      let (first, known) =
        both (has_node s.nodes from) (has to end.depth) (sym traced.found ∙ found) in
      let (way, short) =
        way_back-IsWay s.edges from s.nodes to t.max_depth (search_fuel s.edges) known in
      (
        s,
        traced.whole_ok,
        first,
        way_back (suc t.max_depth) end.parent from to,
        way,
        short,
        traced.deep.1,
      )

  -- A trace that returns keeps to its bounds, and both ends of each of its edges are nodes of it.
  pub trace_snapshot-IsClosed :
      (input : GraphTraceInput) (t : GraphTrace)
      → trace_snapshot json_bytes input ≡ ok t
      → (length t.nodes ≤ t.bounds.max_nodes)
        × (length t.edges ≤ t.bounds.max_edges)
        × (all (connects t.nodes) t.edges ≡ true)
  trace_snapshot-IsClosed input t h =
      let traced = trace_snapshot-eq-ok input t h in
      let (normal, _) =
        normalize_snapshot-eq-ok json_bytes traced.part traced.result traced.result_ok in
      rw (traced.nodes, traced.edges, traced.bounds)
        (normal.few_nodes, normal.few_edges, normal.closed)

  -- The search of a trace that returns has not stopped for want of fuel: its target is discovered
  -- or its queue is empty.
  pub trace_snapshot-Ended :
      (input : GraphTraceInput) (t : GraphTrace)
      → trace_snapshot json_bytes input ≡ ok t
      → (s : GraphSnapshot) × (normalize_snapshot json_bytes (as_input json_bytes input.snapshot)
          ≡ ok s)
        × Ended s.edges input.to_node_id
            (searched s input.from_node_id input.to_node_id t.max_depth)
  trace_snapshot-Ended input t h =
      let traced = trace_snapshot-eq-ok input t h in
      let s = traced.whole in
      (
        s,
        traced.whole_ok,
        search-Ended s.edges input.to_node_id s.nodes input.from_node_id t.max_depth,
      )

  -- A trace that returns has found its target if a walk over edges of the normalized snapshot leads
  -- from the start, a node of it, to the target, in as many steps as the trace's depth or fewer.
  pub trace_snapshot-found :
      (input : GraphTraceInput) (t : GraphTrace) (s : GraphSnapshot) (n : ℕ)
      → trace_snapshot json_bytes input ≡ ok t
      → normalize_snapshot json_bytes (as_input json_bytes input.snapshot) ≡ ok s
      → has_node s.nodes input.from_node_id ≡ true
      → Walk s.edges input.from_node_id input.to_node_id n
      → n ≤ t.max_depth
      → t.found ≡ true
  trace_snapshot-found input t s n h s_ok is_node walk few =
      let traced = trace_snapshot-eq-ok input t h in
      let same = ok-injective traced.whole s (sym traced.whole_ok ∙ s_ok) in
      let known =
        search-finds s.edges input.from_node_id input.to_node_id t.max_depth s.nodes is_node walk
          few in
      traced.found
      ∙ subst
          (λ (w : GraphSnapshot).
            is_found w input.from_node_id input.to_node_id
              (searched w input.from_node_id input.to_node_id t.max_depth)
            ≡ true)
          (sym same)
          (of_both (has_node s.nodes input.from_node_id)
            (has input.to_node_id
              (searched s input.from_node_id input.to_node_id t.max_depth).depth)
            is_node known)
