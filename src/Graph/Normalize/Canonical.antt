-- ===== src/Graph/Normalize/Canonical.antt =====
-- Normalizing what is normalized changes nothing.
use my_pi.Prelude.{
  ℕ, ◌≡◌, refl, sym, subst, Option, none, some, List, [], ◌∷◌, true, ◌&&◌, arith, leb, length, all,
  All,
}
use my_pi.Prelude.Outcome.{Outcome, ok, ◌>>=◌, >>=-eq-ok, ok-injective}
use my_pi.Prelude.Sorting.{
  sort_by, distinct_by, all-sort_by, length-sort_by, distinct_by-sort_by, sort_by-IsSorted,
  sort_by_same,
}
use my_pi.Graph.Model.{GraphAttributes, GraphEvidenceRef, GraphNode, GraphEdge, GraphBounds}
use my_pi.Graph.Normalize.{
  text_ok, attribute_ok, attribute_key, evidence_ok, evidence_key, normalize_evidence,
  normalize_attributes, normalize_node, normalize_edge, each,
}

evidence_idem :
    (o r : Option (List GraphEvidenceRef))
    → normalize_evidence o ≡ ok r
    → normalize_evidence r ≡ ok r
unfolding normalize_evidence
evidence_idem none r h = rw (sym (ok-injective none r h)) refl
evidence_idem (some items) r h =
    let few : leb (length items) 64 ≡ true = ground arith in
    let sound : all evidence_ok items ≡ true = ground arith in
    let single : distinct_by evidence_key items ≡ true = ground arith in
    let same : some (sort_by evidence_key items) ≡ r =
      ok-injective _ r (rw (few, sound, single) at h) in
    subst (λ (q : Option (List GraphEvidenceRef)). normalize_evidence q ≡ ok q) same
      (rw
        (
          length-sort_by evidence_key items,
          all-sort_by evidence_key evidence_ok items,
          distinct_by-sort_by evidence_key evidence_key items,
          sort_by_same evidence_key (sort_by evidence_key items)
              (sort_by-IsSorted evidence_key items),
          few,
          sound,
          single,
        )
        refl)

module _ (json_bytes : GraphAttributes → ℕ) where
  attributes_idem :
      (max : ℕ) (o r : Option GraphAttributes)
      → normalize_attributes json_bytes max o ≡ ok r
      → normalize_attributes json_bytes max r ≡ ok r
  unfolding normalize_attributes
  attributes_idem max none r h = rw (sym (ok-injective none r h)) refl
  attributes_idem max (some items) r h =
      let sound : all attribute_ok items ≡ true = ground arith in
      let small : leb (json_bytes (sort_by attribute_key items)) max ≡ true = ground arith in
      let same : some (sort_by attribute_key items) ≡ r =
        ok-injective _ r (rw (sound, small) at h) in
      subst (λ (q : Option GraphAttributes). normalize_attributes json_bytes max q ≡ ok q) same
        (rw
          (
            all-sort_by attribute_key attribute_ok items,
            sort_by_same attribute_key (sort_by attribute_key items)
                (sort_by-IsSorted attribute_key items),
            sound,
            small,
          )
          refl)

  module _ (bounds : GraphBounds) where
    pub node_idem :
        (n r : GraphNode)
        → normalize_node json_bytes bounds n ≡ ok r
        → (normalize_node json_bytes bounds r ≡ ok r) × (r.id ≡ n.id)
    unfolding normalize_node
    node_idem n r h =
        let texts : (text_ok 512 n.id && (text_ok 128 n.kind && text_ok 4096 n.label)) ≡ true =
          ground arith in
        let (a, a_ok, h₁) =
          >>=-eq-ok (normalize_attributes json_bytes bounds.max_attribute_bytes n.attributes)
            (λ a.
              normalize_evidence n.evidence >>= λ e. ok (record n { attributes = a; evidence = e }))
            (rw texts at h) in
        let (e, e_ok, h₂) =
          >>=-eq-ok (normalize_evidence n.evidence)
            (λ e. ok (record n { attributes = a; evidence = e })) h₁ in
        let same : record n { attributes = a; evidence = e } ≡ r = ok-injective _ r h₂ in
        subst (λ (q : GraphNode). (normalize_node json_bytes bounds q ≡ ok q) × (q.id ≡ n.id)) same
          (
            rw
                (
                  texts,
                  attributes_idem bounds.max_attribute_bytes n.attributes a a_ok,
                  evidence_idem n.evidence e e_ok,
                )
                refl,
            refl,
          )

    pub edge_idem :
        (n r : GraphEdge)
        → normalize_edge json_bytes bounds n ≡ ok r
        → normalize_edge json_bytes bounds r ≡ ok r
    unfolding normalize_edge
    edge_idem n r h =
        let texts : (text_ok 512 n.id
              && (text_ok 128 n.kind && (text_ok 512 n.source && text_ok 512 n.target)))
            ≡ true =
          ground arith in
        let (a, a_ok, h₁) =
          >>=-eq-ok (normalize_attributes json_bytes bounds.max_attribute_bytes n.attributes)
            (λ a.
              normalize_evidence n.evidence >>= λ e. ok (record n { attributes = a; evidence = e }))
            (rw texts at h) in
        let (e, e_ok, h₂) =
          >>=-eq-ok (normalize_evidence n.evidence)
            (λ e. ok (record n { attributes = a; evidence = e })) h₁ in
        let same : record n { attributes = a; evidence = e } ≡ r = ok-injective _ r h₂ in
        subst (λ (q : GraphEdge). normalize_edge json_bytes bounds q ≡ ok q) same
          (rw
            (
              texts,
              attributes_idem bounds.max_attribute_bytes n.attributes a a_ok,
              evidence_idem n.evidence e e_ok,
            )
            refl)

-- A function that keeps each element of a list.
module _ {ℓ} {A : Type ℓ} (f : A → Outcome A) where
  -- Every element is one that `f` returns as it is.
  abbrev pub IsFixed : List A → Type ℓ
  IsFixed = All (λ (x : A). f x ≡ ok x)

  pub each-IsFixed :
      ((x y : A) → f x ≡ ok y → f y ≡ ok y) → (xs ys : List A) → each f xs ≡ ok ys → IsFixed ys
  unfolding each
  each-IsFixed idem [] ys h = subst IsFixed (ok-injective [] ys h) tt
  each-IsFixed idem (x ∷ xs) ys h =
      let (y, y_ok, h₁) = >>=-eq-ok (f x) (λ y. each f xs >>= λ zs. ok (y ∷ zs)) h in
      let (zs, zs_ok, h₂) = >>=-eq-ok (each f xs) (λ zs. ok (y ∷ zs)) h₁ in
      subst IsFixed (ok-injective (y ∷ zs) ys h₂) (idem x y y_ok, each-IsFixed idem xs zs zs_ok)

  pub each_same : (xs : List A) → IsFixed xs → each f xs ≡ ok xs
  unfolding each
  each_same [] h = refl
  each_same (x ∷ xs) h = rw (h.0, each_same xs h.1) refl
