-- ===== src/Coordination/Links/Progress.antt =====
-- Where the dependencies are ordered, the items of a project never wait for one another in a circle.
use my_pi.Prelude.{
  ℕ, zero, suc, ◌<◌, ◌≡◌, ap, sym, ◌∙◌, String, some, List, [], ◌∷◌, Bool, true, false, arith,
  eq_iff, All, Bool-cases, Option-cases, inl, inr, filter, List-cases,
}
use Prim.Native.Nat.{Ordering}
use Prim.Native.String.{compare as compare_text}
use my_pi.Prelude.Dict.{Dict, get, put, get-put}
use my_pi.Prelude.Text.{is_text}
use my_pi.Coordination.Model.{WorkItem, WorkDependency, is_done}
use my_pi.Coordination.Store.{
  CoordinationDb, Projection, ProjectionRow, insert_by_id, rows_of, list_projections,
}
use my_pi.Coordination.Work.{
  Runtime, unfinished, dependencies_of, dependency_blockers, index_items, record_values,
  all_dependencies, all_items,
}
use my_pi.Coordination.Links.{IsLink, IsLinked, IsOrdered}

module _ {ℓ κ} {V : Type ℓ} (P : V → Type κ) where
  All-insert_by_id :
      (k : String) (v : V) (rows : List (String × V))
      → P v
      → All (λ (r : String × V). P r.1) rows
      → All (λ (r : String × V). P r.1) (insert_by_id (k, v) rows)
  All-insert_by_id k v [] new h = (new, tt)
  All-insert_by_id k v ((j, w) ∷ rows) new h =
      by_order (All-insert_by_id k v rows new h.1) (compare_text j k)
    where
      by_order :
          All (λ (r : String × V). P r.1) (insert_by_id (k, v) rows)
          → (o : Ordering)
          → All
              (λ (r : String × V). P r.1)
              (elim o [
                | Ordering.lt ↦ (j, w) ∷ insert_by_id (k, v) rows
                | _ ↦ (k, v) ∷ (j, w) ∷ rows
              ])
      by_order later Ordering.lt = (h.0, later)
      by_order later Ordering.eq = (new, h)
      by_order later Ordering.gt = (new, h)

  All-rows_of :
      (p : String) (table : Projection V)
      → All (λ (r : String × ProjectionRow V). P r.1.value) table
      → All (λ (r : String × V). P r.1) (rows_of p table)
  unfolding rows_of
  All-rows_of p [] h = tt
  All-rows_of p ((k, row) ∷ table) h = elim (Bool-cases (is_text row.project_id p)) [
    | inl own ↦ rw own (All-insert_by_id k row.value _ h.0 (All-rows_of p table h.1))
    | inr other ↦ rw other (All-rows_of p table h.1)
  ]

  All-record_values :
      (rows : List (String × V)) → All (λ (r : String × V). P r.1) rows → All P (record_values rows)
  unfolding record_values
  All-record_values [] h = tt
  All-record_values ((k, v) ∷ rows) h = (h.0, All-record_values rows h.1)

  All-filter : (q : V → Bool) (xs : List V) → All P xs → All (λ x. P x × (q x ≡ true)) (filter q xs)
  All-filter q [] h = tt
  All-filter q (x ∷ xs) h = elim (Bool-cases (q x)) [
    | inl yes_x ↦ rw yes_x ((h.0, yes_x), All-filter q xs h.1)
    | inr no_x ↦ rw no_x (All-filter q xs h.1)
  ]

IsKeyed : Dict WorkItem → Type 0
IsKeyed items = (k : String) (w : WorkItem) → get k items ≡ some w → w.id ≡ k

index_items-IsKeyed :
    (items : Dict WorkItem) (rows : List (String × WorkItem))
    → IsKeyed items
    → IsKeyed (index_items items rows)
unfolding index_items IsKeyed
index_items-IsKeyed items [] h = h
index_items-IsKeyed items ((k, w) ∷ rows) h =
    index_items-IsKeyed (put w.id w items) rows
      (λ j v there. ground (arith, get-put w.id j w items, eq_iff w.id j, h j v, there))

-- The first blocker is the target of one of the dependencies.
unfinished-head {κ} :
    {P : WorkDependency → Type κ} (items : Dict WorkItem) (ds : List WorkDependency) (b : WorkItem)
    (bs : List WorkItem)
    → All P ds
    → unfinished items ds ≡ b ∷ bs
    → (d : WorkDependency) × P d × (get d.to items ≡ some b) × (is_done b.state ≡ false)
unfolding unfinished
unfinished-head items [] b bs h e = cc
unfinished-head items (d ∷ ds) b bs h e = elim (Option-cases (get d.to items)) [
  | inl missing ↦ unfinished-head items ds b bs h.1 (rw (unfinished, missing) at e)
  | inr (w, there) ↦ elim (Bool-cases (is_done w.state)) [
    | inl finished ↦ unfinished-head items ds b bs h.1 (rw (unfinished, there, finished) at e)
    | inr open_w ↦
        let same : w ≡ b = ground (arith, rw (unfinished, there, open_w) at e) in
        (d, h.0, there ∙ ap some same, ap (λ (v : WorkItem). is_done v.state) (sym same) ∙ open_w)
  ]
]

module _ (rt : Runtime) (db : CoordinationDb) where
  -- An item of the runtime's project that is not done and that no dependency blocks.
  pub record IsUnblocked (w : WorkItem) : Type 0 where
    pub stored : get w.id (all_items rt db) ≡ some w
    pub unfinished_item : is_done w.state ≡ false
    pub unblocked : dependency_blockers w (all_dependencies rt db) (all_items rt db) ≡ []

  IsLink-all_dependencies :
      (rank : String → ℕ) → IsLinked db rank → All (IsLink db rank) (all_dependencies rt db)
  unfolding all_dependencies list_projections
  IsLink-all_dependencies rank h =
      All-record_values (IsLink db rank) _
        (All-rows_of (IsLink db rank) rt.project_id db.work_dependencies h)

  all_items-IsKeyed : IsKeyed (all_items rt db)
  unfolding all_items IsKeyed get
  all_items-IsKeyed =
      index_items-IsKeyed [] (list_projections rt.project_id db.work_items) (λ k w h. cc h)

  -- From an item to one that blocks it, and on from there.
  descend :
      (ordered : IsOrdered db) (n : ℕ) (w : WorkItem)
      → ordered.rank w.id < n
      → get w.id (all_items rt db) ≡ some w
      → is_done w.state ≡ false
      → (v : WorkItem) × IsUnblocked v
  unfolding dependency_blockers dependencies_of IsKeyed
  descend ordered zero w low there open_w = absurd (omega (arith, low))
  descend ordered (suc n) w low there open_w =
      elim (List-cases (dependency_blockers w (all_dependencies rt db) (all_items rt db))) [
        | inl free ↦ (w, record { stored = there; unfinished_item = open_w; unblocked = free })
        | inr (b, bs, blocked) ↦
            let links =
              All-filter (IsLink db ordered.rank) _ (all_dependencies rt db)
                (IsLink-all_dependencies ordered.rank ordered.linked) in
            let (d, link, target, open_b) =
              unfinished-head (all_items rt db) (dependencies_of w (all_dependencies rt db)) b bs
                links blocked in
            let from : d.from ≡ w.id = (eq_iff d.from w.id).0 (ground (arith, link.1)) in
            let key : b.id ≡ d.to = all_items-IsKeyed d.to b target in
            descend ordered n b
              (omega (arith, low, link.0.2, ap ordered.rank key, ap ordered.rank from))
              (ap (λ k. get k (all_items rt db)) key ∙ target) open_b
      ]

  -- If the dependencies are ordered, and the project has an item that is not done, it has one that
  -- is not done and that no dependency blocks.
  pub IsOrdered-IsUnblocked :
      (w : WorkItem)
      → IsOrdered db
      → get w.id (all_items rt db) ≡ some w
      → is_done w.state ≡ false
      → (v : WorkItem) × IsUnblocked v
  IsOrdered-IsUnblocked w ordered = descend ordered (suc (ordered.rank w.id)) w (omega arith)
