-- ===== src/Impact/Bounds.antt =====
-- The traversal comes to its end, and what it finds keeps to the bounds.
use Prim.Native.Nat.{max}
use my_pi.Prelude.{
  ℕ, zero, suc, ◌+◌, ◌-◌, ◌≤◌, ◌<◌, ◌≡◌, refl, inl, inr, String, none, some, List, [], ◌∷◌, arith,
  leb, str_eq, length, length-append, map, Bool-cases, Option-cases, List-cases,
}
use my_pi.Prelude.Dict.{Dict, get, put}
use my_pi.Impact.Model.{CodeEntity, CodeEdge, ImpactBounds}
use my_pi.Impact.Traversal.{
  Found, Visit, Traversal, adjacent, entity_of, edge_reason, other_end, reach, reach_all,
  target_found, put_targets, first_visit, start, turn, traverse, traversal_fuel, graph_traversal,
  found_again, found_first, next_visit,
}

-- A key that is set anew makes a map longer by one; one that is there leaves its length.
module _ {ℓ} {V : Type ℓ} where
  length-put_new :
      (k : String) (v : V) (m : Dict V) → get k m ≡ none → length (put k v m) ≡ suc (length m)
  unfolding put get
  length-put_new k v [] h = refl
  length-put_new k v ((j, w) ∷ m) h = elim (Bool-cases (str_eq j k)) [
    | inl same ↦ let found = rw same at h in cc
    | inr other ↦ rw other (omega (arith, length-put_new k v m (rw other at h)))
  ]

  length-put_old :
      (k : String) (v w : V) (m : Dict V) → get k m ≡ some w → length (put k v m) ≡ length m
  unfolding put get
  length-put_old k v w [] h = cc
  length-put_old k v w ((j, u) ∷ m) h = elim (Bool-cases (str_eq j k)) [
    | inl same ↦ rw same refl
    | inr other ↦ rw other (omega (arith, length-put_old k v w m (rw other at h)))
  ]

-- The turns that the loop over the queue can still take.
unfoldable measure : ImpactBounds → Traversal → ℕ
measure bounds t = length t.queue + (bounds.max_entities - length t.found)

-- No more entities are found than the bound, or than there were.
abbrev IsWithin : ImpactBounds → ℕ → Traversal → Type 0
IsWithin bounds targets t = length t.found ≤ max bounds.max_entities targets

module _ (bounds : ImpactBounds) (entities : List CodeEntity) (edges : List CodeEdge) where
  -- The measure does not grow, and the bound is kept.
  abbrev Keeps : Traversal → Traversal → Type 0
  Keeps t u =
      (measure bounds u ≤ measure bounds t)
      × ((targets : ℕ) → IsWithin bounds targets t → IsWithin bounds targets u)

  reach-Keeps :
      (current : Visit) (edge : CodeEdge) (next : CodeEntity) (t : Traversal)
      → Keeps t (reach bounds current edge next t)
  unfolding reach measure
  reach-Keeps current edge next t = elim (Option-cases (get next.id t.found)) [
    | inr (f, there) ↦
        let same =
          length-put_old next.id (found_again f (edge_reason current edge next)) f t.found there in
        rw (reach, there) (omega (arith, same), λ targets h. omega (arith, same, h))
    | inl missing ↦ elim (Bool-cases (leb bounds.max_entities (length t.found))) [
      | inl full ↦ rw (reach, missing, full) (omega arith, λ targets h. h)
      | inr free ↦
          let below : suc (length t.found) ≤ bounds.max_entities = ground (arith, free) in
          let more =
            length-put_new next.id (found_first next (edge_reason current edge next)) t.found
              missing in
          let longer = length-append t.queue (next_visit current next ∷ []) in
          rw (reach, missing, free)
            (omega (arith, below, more, longer), λ targets h. omega (arith, below, more))
    ]
  ]

  reach_all-Keeps :
      (current : Visit) (es : List CodeEdge) (t : Traversal)
      → Keeps t (reach_all bounds entities current es t)
  unfolding reach_all
  reach_all-Keeps current [] t = (omega arith, λ targets h. h)
  reach_all-Keeps current (edge ∷ es) t =
      elim (Option-cases (entity_of entities (other_end current edge))) [
        | inl missing ↦ rw (reach_all, missing) (reach_all-Keeps current es t)
        | inr (next, there) ↦
            let (less, keep) = reach-Keeps current edge next t in
            let (less_all, keep_all) =
              reach_all-Keeps current es (reach bounds current edge next t) in
            rw (reach_all, there)
              (omega (arith, less, less_all), λ targets h. keep_all targets (keep targets h))
      ]

  turn-Keeps : (current : Visit) (t : Traversal) → Keeps t (turn bounds entities edges current t)
  unfolding turn
  turn-Keeps current t = elim (Bool-cases (leb bounds.max_depth current.depth)) [
    | inl deep ↦ rw deep (omega arith, λ targets h. h)
    | inr near ↦ rw near (reach_all-Keeps current (adjacent bounds edges current.id) t)
  ]

  measure_next :
      (t : Traversal) (current : Visit) (rest : List Visit)
      → t.queue ≡ current ∷ rest
      → measure bounds t ≡ suc (measure bounds (record t { queue = rest }))
  unfolding measure
  measure_next t current rest queue = rw queue (omega arith)

  traverse-end :
      (fuel : ℕ) (targets : ℕ) (t : Traversal)
      → measure bounds t < fuel
      → IsWithin bounds targets t
      → ((traverse fuel bounds entities edges t).queue ≡ [])
        × IsWithin bounds targets (traverse fuel bounds entities edges t)
  unfolding traverse
  traverse-end zero targets t less within = ground arith
  traverse-end (suc fuel) targets t less within = elim (List-cases t.queue) [
    | inl empty ↦ rw (traverse, empty) (empty, within)
    | inr (current, rest, queue) ↦
        let popped = record t { queue = rest } in
        let (turn_less, keep) = turn-Keeps current popped in
        rw (traverse, queue)
          (traverse-end fuel targets (turn bounds entities edges current popped)
            (omega (arith, turn_less, measure_next t current rest queue, less))
            (keep targets within))
  ]

length-put_targets :
    (targets : List CodeEntity) (found : Dict Found)
    → length (put_targets targets found) ≤ length targets + length found
unfolding put_targets
length-put_targets [] found = omega arith
length-put_targets (target ∷ targets) found = omega (
  arith,
  length-put_targets targets (put target.id (target_found target) found),
  put_one found target,
)
  where
    put_one :
        (found : Dict Found) (target : CodeEntity)
        → length (put target.id (target_found target) found) ≤ suc (length found)
    put_one found target = elim (Option-cases (get target.id found)) [
      | inl missing ↦ omega (arith, length-put_new target.id (target_found target) found missing)
      | inr (f, there) ↦ omega (arith, length-put_old target.id (target_found target) f found there)
    ]

length-map : (targets : List CodeEntity) → length (map first_visit targets) ≡ length targets
length-map [] = refl
length-map (target ∷ targets) = omega (arith, length-map targets)

start-measure :
    (bounds : ImpactBounds) (targets : List CodeEntity)
    → measure bounds (start targets) < traversal_fuel bounds targets
unfolding measure
start-measure bounds targets = omega (arith, length-map targets)

-- The traversal ends with an empty queue, and has found no more entities than the bound, or than
-- there are targets where those are more.
pub graph_traversal-IsWithin :
    (targets entities : List CodeEntity) (edges : List CodeEdge) (bounds : ImpactBounds)
    → let t = graph_traversal targets entities edges bounds in
      (t.queue ≡ []) × (length t.found ≤ max bounds.max_entities (length targets))
unfolding graph_traversal
graph_traversal-IsWithin targets entities edges bounds =
    traverse-end bounds entities edges (traversal_fuel bounds targets) (length targets)
      (start targets) (start-measure bounds targets) (omega (arith, length-put_targets targets []))
