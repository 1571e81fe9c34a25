-- ===== src/Coordination/Links/Creation.antt =====
-- `createWorkItem` keeps the order of the dependencies when the identifier of the item is new.
use my_pi.Prelude.{
  ℕ, suc, ◌<◌, ◌≡◌, refl, ap, sym, subst, ◌∙◌, String, Option, none, some, List, [], ◌∷◌, true,
  false, arith, str_eq, eq_iff, if◌then◌else◌, is_some, any, All-map, Bool-cases, inl, inr,
}
use my_pi.Prelude.Dict.{str_eq_refl}
use my_pi.Prelude.Text.{truthy}
use my_pi.Prelude.Outcome.{ok, project_not_found, Outcome-cases}
use my_pi.Coordination.Model.{WorkDependency, WorkItem, Actor}
use my_pi.Coordination.Event.{CoordinationEvent, WorkItemEvent, work_item_event}
use my_pi.Coordination.Store.{CoordinationDb, ProjectionRow, put_projection}
use my_pi.Coordination.Tx.{pure, modify, ◌>>=◌, transact}
use my_pi.Coordination.Tx.Inversion.{after_check, after_read, after_or_throw, after_pure}
use my_pi.Coordination.Tx.Moves.{
  After, Moves, Moves-of, Preorder, Moves-pure, Moves-bind, bind-eq-ok,
}
use my_pi.Coordination.Work.{Runtime, emit}
use my_pi.Coordination.Work.Emission.{emit-work_items}
use my_pi.Coordination.Create.{
  DependencyInput, WorkItemInput, dependency_type, with_dependency, created_item, link, link_all,
  check_spec, create_work_item_tx, create_work_item, title_ok,
}
use my_pi.Coordination.Links.{is_stored, IsLink, IsLinked, IsOrdered, All-put, Appended-Grown}

-- The new item comes after all others.
abbrev ranked : String → ℕ → (String → ℕ) → String → ℕ
ranked id next rank j = if str_eq id j then next else rank j

-- The state of the loop over the dependencies: the item is stored, and the links go down.
record IsOpen (id : String) (next : ℕ) (rank : String → ℕ) (db : CoordinationDb) : Type 0 where
  stored : is_stored db id ≡ true
  bounded : (j : String) → rank j < next
  linked : IsLinked db (ranked id next rank)

is_other :
    (db : CoordinationDb) (id j : String)
    → is_stored db id ≡ false
    → is_stored db j ≡ true
    → str_eq id j ≡ false
is_other db id j fresh there = elim (Bool-cases (str_eq id j)) [
  | inl same ↦ cc (ap (is_stored db) ((eq_iff id j).0 same))
  | inr other ↦ other
]

module _ (rt : Runtime) (now : ℕ) (id : String) (next : ℕ) (rank : String → ℕ) where
  abbrev KeepsOpen : CoordinationDb → CoordinationDb → Type 0
  KeepsOpen s t = IsOpen id next rank s → IsOpen id next rank t

  KeepsOpen-preorder : Preorder KeepsOpen
  KeepsOpen-preorder = record { same = λ s h. h; chain = λ s t u f g h. g (f h) }

  link-eq-ok :
      (d : DependencyInput) (s : CoordinationDb) (r : Unit {0} × CoordinationDb)
      → link rt now id d s ≡ ok r
      → (w : WorkDependency) × (w.from ≡ id)
        × (w.to ≡ d.to)
        × (is_stored s d.to ≡ true)
        × (r.1 ≡ with_dependency rt now w s)
  unfolding link modify
  link-eq-ok d s r h =
      let (own, h₁) = after_check s r _ _ _ h in
      let (named, h₂) = after_check s r _ _ _ h₁ in
      let (type, known, h₃) = after_or_throw s r _ (dependency_type d.type) _ h₂ in
      let (target, there, h₅) = after_or_throw s r _ _ _ (after_read s r _ _ h₃) in
      let (ours, h₆) = after_check s r _ _ _ h₅ in
      (record { from = id; to = d.to; type = type }, refl, refl, ap is_some there, ground arith)

  put-IsOpen :
      (w : WorkDependency) (s : CoordinationDb)
      → IsLink s (ranked id next rank) w
      → IsOpen id next rank s
      → IsOpen id next rank (with_dependency rt now w s)
  unfolding put_projection
  put-IsOpen w s new open_s = record {
    stored = open_s.stored;
    bounded = open_s.bounded;
    linked =
        All-put (λ (row : ProjectionRow WorkDependency). IsLink s (ranked id next rank) row.value) _
          _ s.work_dependencies new open_s.linked;
  }

  ranked-other : (j : String) → str_eq id j ≡ false → ranked id next rank j ≡ rank j
  ranked-other j other = rw other refl

  link-IsOpen : (d : DependencyInput) → str_eq id d.to ≡ false → Moves KeepsOpen (link rt now id d)
  link-IsOpen d differs = Moves-of _ (λ s r h open_s.
      let (w, from, to, there, same) = link-eq-ok d s r h in
      let after : ranked id next rank w.from ≡ next =
        ap (ranked id next rank) from ∙ rw (str_eq_refl id) refl in
      let before : ranked id next rank w.to ≡ rank d.to =
        ap (ranked id next rank) to ∙ ranked-other d.to differs in
      subst (IsOpen id next rank) (sym same) (
        put-IsOpen w s
          (
            ap (is_stored s) from ∙ open_s.stored,
            ap (is_stored s) to ∙ there,
            omega (arith, after, before, open_s.bounded d.to),
          )
          open_s))

  link_all-IsOpen :
      (ds : List DependencyInput)
      → any (λ (d : DependencyInput). str_eq id d.to) ds ≡ false
      → Moves KeepsOpen (link_all rt now id ds)
  unfolding link_all
  link_all-IsOpen [] differ = Moves-pure KeepsOpen-preorder tt
  link_all-IsOpen (d ∷ ds) differ =
      Moves-bind KeepsOpen-preorder _ _ (link-IsOpen d (ground (arith, differ)))
        (λ u. link_all-IsOpen ds (ground (arith, differ)))

  -- The event of the creation opens the loop.
  emit-IsOpen :
      (w : WorkItem) (actor : Actor) (s : CoordinationDb) (r : CoordinationEvent × CoordinationDb)
      → w.id ≡ id
      → truthy id ≡ true
      → is_stored s id ≡ false
      → ((j : String) → rank j < next)
      → IsLinked s rank
      → emit rt now actor (work_item_event WorkItemEvent.created w) s ≡ ok r
      → IsOpen id next rank r.1
  emit-IsOpen w actor s r own named fresh bounded linked h =
      let g = Appended-Grown rt now actor _ s r h in
      let old : (j : String) → is_stored s j ≡ true → ranked id next rank j ≡ rank j =
        λ j there. ranked-other j (is_other s id j fresh there) in
      record {
        stored =
            ap is_some (
              emit-work_items rt now actor WorkItemEvent.created w s r.1 r.0 id
                (ap truthy own ∙ named) h)
            ∙ rw (own, str_eq_refl id) refl;
        bounded = bounded;
        linked = rw g.same (
            All-map _ _ s.work_dependencies
              (λ row l. (
                g.kept row.1.value.from l.0,
                g.kept row.1.value.to l.1,
                omega (arith, l.2, old row.1.value.from l.0, old row.1.value.to l.1),
              ))
              linked);
      }

  IsOpen-IsOrdered : (s : CoordinationDb) → IsOpen id next rank s → IsOrdered s
  IsOpen-IsOrdered s h = record {
    rank = ranked id next rank;
    next = suc next;
    bounded = λ j. ground (arith, h.bounded j);
    linked = h.linked;
  }

check_spec-same :
    (rt : Runtime) (now : ℕ) (id : Option String) (s : CoordinationDb)
    (r : Unit {0} × CoordinationDb)
    → check_spec rt now id s ≡ ok r
    → r.1 ≡ s
unfolding check_spec pure ◌>>=◌
check_spec-same rt now none s r h = ground arith
check_spec-same rt now (some id) s r h = ground arith

-- What is asked of the identifier of a new item: it is not empty, not in use, and not among those
-- that the item is to depend on.
abbrev pub IsNew : WorkItemInput → String → CoordinationDb → Type 0
IsNew input id db =
    (truthy id ≡ true)
    × (is_stored db id ≡ false)
    × (any (λ (d : DependencyInput). str_eq id d.to) input.dependencies ≡ false)

module _ (rt : Runtime) (now : ℕ) (input : WorkItemInput) (id : String) (s : CoordinationDb) where
  create_work_item_tx-IsOrdered :
      (r : WorkItem × CoordinationDb)
      → create_work_item_tx rt now input id s ≡ ok r
      → IsNew input id s
      → IsOrdered s
      → IsOrdered r.1
  unfolding create_work_item_tx
  create_work_item_tx-IsOrdered r h new ordered =
      let (project, there, h₁) = after_or_throw s r project_not_found _ _ (after_read s r _ _ h) in
      let (q, checked, h₂) = bind-eq-ok (check_spec rt now input.evaluation_spec_id) _ s r h₁ in
      let same = check_spec-same rt now input.evaluation_spec_id s q checked in
      let (e, emitted, h₃) = bind-eq-ok (emit rt now _ _) _ q.1 r h₂ in
      let (l, done, h₄) = bind-eq-ok (link_all rt now id input.dependencies) _ e.1 r h₃ in
      let rank = ordered.rank in
      let opened : IsOpen id ordered.next rank e.1 =
        emit-IsOpen rt now id ordered.next rank (created_item rt now input id) _ q.1 e refl new.0
          (ap (λ t. is_stored t id) same ∙ new.1) ordered.bounded
          (subst (λ t. IsLinked t rank) (sym same) ordered.linked) emitted in
      let closed =
        subst (After (KeepsOpen rt now id ordered.next rank e.1)) done
          ((link_all-IsOpen rt now id ordered.next rank input.dependencies new.2).at e.1) opened in
      subst IsOrdered (ap (λ (p : WorkItem × CoordinationDb). p.1) (after_pure l.1 r _ h₄))
        (IsOpen-IsOrdered rt now id ordered.next rank l.1 closed)

  pub create_work_item-IsOrdered :
      IsNew input id s → IsOrdered s → IsOrdered (create_work_item rt input id now s).1
  unfolding create_work_item transact
  create_work_item-IsOrdered new ordered = elim (Bool-cases (title_ok input.title)) [
    | inr untitled ↦ rw (create_work_item, untitled) ordered
    | inl titled ↦ elim (Outcome-cases (create_work_item_tx rt now input id s)) [
      | inl (r, returned) ↦
          rw (create_work_item, titled, transact, returned)
            (create_work_item_tx-IsOrdered r returned new ordered)
      | inr (c, thrown) ↦ rw (create_work_item, titled, transact, thrown) ordered
    ]
  ]
