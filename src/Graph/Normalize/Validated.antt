-- ===== src/Graph/Normalize/Validated.antt =====
-- A normalized snapshot is its own normal form, and validation accepts it.
use my_pi.Prelude.{
  ℕ, ◌≡◌, ◌≤◌, refl, ap, subst, inl, inr, Option, some, Bool, true, false, ◌&&◌, ◌||◌, arith, ◌==◌,
  ==_iff, leb, length, Bool-cases,
}
use my_pi.Prelude.Outcome.{ok, >>=-eq-ok, ok-injective}
use my_pi.Prelude.Sorting.{sort_by_same, filter_same, take_same}
use my_pi.Graph.Model.{
  GraphAttributes, GraphBounds, PartialBounds, GraphSnapshot, GraphSnapshotInput,
}
use my_pi.Graph.Normalize.{
  bounded_integer, or_default, given_bounds, normalize_bounds, normalize_node, normalize_edge,
  node_id, edge_id, connects, normalize_snapshot, as_input, validate_snapshot,
}
use my_pi.Graph.Normalize.Canonical.{each_same}
use my_pi.Graph.Normalize.Closed.{IsNormal, normalize_snapshot-eq-ok}

bounded_integer_idem :
    (lo hi n m : ℕ) → bounded_integer lo hi n ≡ ok m → bounded_integer lo hi m ≡ ok m
unfolding bounded_integer
bounded_integer_idem lo hi n m h = elim (Bool-cases (leb lo n && leb hi n)) [
  | inl e ↦ ground arith
  | inr e ↦ ground arith
]

bounds_of : GraphBounds → PartialBounds
bounds_of b = record {
  max_nodes = some b.max_nodes;
  max_edges = some b.max_edges;
  max_attribute_bytes = some b.max_attribute_bytes;
}

bounds_idem :
    (o : Option PartialBounds) (b : GraphBounds)
    → normalize_bounds o ≡ ok b
    → normalize_bounds (some (bounds_of b)) ≡ ok b
unfolding normalize_bounds bounds_of
bounds_idem o b h =
    let n₀ = or_default 500 (given_bounds o).max_nodes in
    let e₀ = or_default 2000 (given_bounds o).max_edges in
    let a₀ = or_default 4096 (given_bounds o).max_attribute_bytes in
    let (n, n_ok, h₁) = >>=-eq-ok (bounded_integer 1 10000 n₀) _ h in
    let (e, e_ok, h₂) = >>=-eq-ok (bounded_integer 1 50000 e₀) _ h₁ in
    let (a, a_ok, h₃) = >>=-eq-ok (bounded_integer 1 65536 a₀) _ h₂ in
    subst (λ (c : GraphBounds). normalize_bounds (some (bounds_of c)) ≡ ok c) (ok-injective _ b h₃)
      (rw
        (
          bounded_integer_idem 1 10000 n₀ n n_ok,
          bounded_integer_idem 1 50000 e₀ e e_ok,
          bounded_integer_idem 1 65536 a₀ a a_ok,
        )
        refl)

or_false : (b : Bool) → (b || false) ≡ b
or_false true = refl
or_false false = refl

le_leb : (a b : ℕ) → a ≤ b → leb a b ≡ true
le_leb a b h = ground arith

size_eq : (n : ℕ) → (n == n) ≡ true
size_eq n = (==_iff n n).1 refl

module _ (json_bytes : GraphAttributes → ℕ) where
  normalize_same :
      (s : GraphSnapshot)
      → IsNormal json_bytes s
      → normalize_bounds (some (bounds_of s.bounds)) ≡ ok s.bounds
      → normalize_snapshot json_bytes (as_input json_bytes s) ≡ ok s
  unfolding normalize_snapshot bounds_of
  normalize_same s h b =
      rw
        (
          h.version,
          b,
          each_same (normalize_node json_bytes s.bounds) s.nodes h.nodes_fixed,
          sort_by_same node_id s.nodes h.nodes_sorted,
          h.nodes_differ,
          take_same s.bounds.max_nodes s.nodes h.few_nodes,
          each_same (normalize_edge json_bytes s.bounds) s.edges h.edges_fixed,
          sort_by_same edge_id s.edges h.edges_sorted,
          h.edges_differ,
          filter_same (connects s.nodes) s.edges h.closed,
          take_same s.bounds.max_edges s.edges h.few_edges,
          h.cursor,
          h.generated_at,
          h.degraded,
          size_eq (length s.nodes),
          size_eq (length s.edges),
        )
        (ap (λ (b : Bool). ok (record s { truncated = b })) (or_false s.truncated))

  -- Normalizing a normalized snapshot gives it again.
  pub normalize_snapshot_idem :
      (input : GraphSnapshotInput) (s : GraphSnapshot)
      → normalize_snapshot json_bytes input ≡ ok s
      → normalize_snapshot json_bytes (as_input json_bytes s) ≡ ok s
  normalize_snapshot_idem input s h =
      let (normal, from) = normalize_snapshot-eq-ok json_bytes input s h in
      normalize_same s normal (bounds_idem input.bounds s.bounds from.bounds)

  -- Validation accepts each snapshot that normalization returns.
  pub normalize_snapshot-validate :
      (input : GraphSnapshotInput) (s : GraphSnapshot)
      → normalize_snapshot json_bytes input ≡ ok s
      → validate_snapshot json_bytes s ≡ true
  unfolding validate_snapshot
  normalize_snapshot-validate input s h =
      let (normal, from) = normalize_snapshot-eq-ok json_bytes input s h in
      rw
        (
          le_leb (length s.nodes) s.bounds.max_nodes normal.few_nodes,
          le_leb (length s.edges) s.bounds.max_edges normal.few_edges,
          normal.nodes_differ,
          normal.closed,
          normalize_snapshot_idem input s h,
          size_eq (length s.nodes),
          size_eq (length s.edges),
        )
        refl
