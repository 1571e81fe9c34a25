-- ===== src/Coordination/Links.antt =====
-- The dependencies between work items: each leads from one stored item to another, and downwards in
-- an order of creation, so that no item waits for itself, whatever the operations do.
pub mod Creation
pub mod Runs
pub mod Progress
use my_pi.Prelude.{
  ℕ, ◌<◌, ◌≡◌, refl, ap, sym, subst, ◌∙◌, String, Option, some, List, [], ◌∷◌, ◌++◌, Bool, true,
  false, arith, str_eq, if◌then◌else◌, is_some, any, All, All-map, ◌||◌, Bool-cases, inl, inr,
}
use my_pi.Prelude.Dict.{Dict, get, put, get-put}
use my_pi.Prelude.Text.{truthy}
use my_pi.Prelude.Outcome.{ok}
use my_pi.Coordination.Model.{WorkDependency, WorkItem, Actor}
use my_pi.Coordination.Event.{CoordinationEvent, EventBody, work_item_event}
use my_pi.Coordination.Store.{
  CoordinationDb, ProjectionRow, Projection, get_projection, put_projection, apply_event_projection,
}
use my_pi.Coordination.Store.Sequences.{Appended, append_event-Appended}
use my_pi.Coordination.Tx.{append}
use my_pi.Coordination.Tx.Moves.{Moves, Moves-of, Preorder}
use my_pi.Coordination.Work.{Runtime, emit}
use my_pi.Coordination.Work.Emission.{get_projection-put_projection}
use my_pi.Coordination.Operations.Steps.{Kept}

abbrev pub is_stored : CoordinationDb → String → Bool
is_stored db id = is_some (get_projection id db.work_items)

-- A dependency whose ends are stored and whose target comes first in the order.
abbrev pub IsLink : CoordinationDb → (String → ℕ) → WorkDependency → Type 0
IsLink db rank d =
    (is_stored db d.from ≡ true) × (is_stored db d.to ≡ true) × (rank d.to < rank d.from)

abbrev pub IsLinked : CoordinationDb → (String → ℕ) → Type 0
IsLinked db rank =
    All (λ (r : String × ProjectionRow WorkDependency). IsLink db rank r.1.value)
      db.work_dependencies

-- The order numbers the items below a bound.
pub record IsOrdered (db : CoordinationDb) : Type 0 where
  pub rank : String → ℕ
  pub next : ℕ
  pub bounded : (id : String) → rank id < next
  pub linked : IsLinked db rank

pub All-put {ℓ κ} :
    {V : Type ℓ} (P : V → Type κ) (k : String) (v : V) (m : Dict V)
    → P v
    → All (λ (r : String × V). P r.1) m
    → All (λ (r : String × V). P r.1) (put k v m)
unfolding put
All-put P k v [] new h = (new, tt)
All-put P k v ((j, w) ∷ m) new h = elim (Bool-cases (str_eq j k)) [
  | inl same ↦ rw same (new, h.1)
  | inr other ↦ rw other (h.0, All-put P k v m new h.1)
]

-- What every operation but `createWorkItem` does: the dependencies stay, and so do stored items.
pub record Grown (s t : CoordinationDb) : Type 0 where
  pub same : t.work_dependencies ≡ s.work_dependencies
  pub kept : (id : String) → is_stored s id ≡ true → is_stored t id ≡ true

pub Grown-preorder : Preorder Grown
Grown-preorder = record {
  same = λ s. record { same = refl; kept = λ id h. h };
  chain = λ s t u g h. record { same = h.same ∙ g.same; kept = λ id i. h.kept id (g.kept id i) };
}

pub Grown-IsLinked :
    (s t : CoordinationDb) (rank : String → ℕ) → Grown s t → IsLinked s rank → IsLinked t rank
Grown-IsLinked s t rank g h = rw g.same (
    All-map _ _ s.work_dependencies
      (λ r l. (g.kept r.1.value.from l.0, g.kept r.1.value.to l.1, l.2)) h)

pub Grown-IsOrdered : (s t : CoordinationDb) → Grown s t → IsOrdered s → IsOrdered t
Grown-IsOrdered s t g h = record {
  rank = h.rank;
  next = h.next;
  bounded = h.bounded;
  linked = Grown-IsLinked s t h.rank g h.linked;
}

Grown-same :
    (s t : CoordinationDb)
    → t.work_dependencies ≡ s.work_dependencies
    → t.work_items ≡ s.work_items
    → Grown s t
Grown-same s t d w = record {
  same = d;
  kept = λ id h. ap (λ items. is_some (get_projection id items)) w ∙ h;
}

apply-Grown :
    (body : EventBody) (e : CoordinationEvent) (db : CoordinationDb)
    → Grown db (apply_event_projection body e db)
unfolding apply_event_projection
apply-Grown (EventBody.work_item_event t w) e db = elim (Bool-cases (truthy w.id)) [
  | inl named ↦ rw named (record {
    same = refl;
    kept = λ id h.
        ap is_some (get_projection-put_projection w.id id w _ _ db.work_items) ∙ ground (arith, h);
  })
  | inr unnamed ↦ rw unnamed (record { same = refl; kept = λ id h. h })
]
apply-Grown _ e db = Grown-same _ _ (ground arith) (ground arith)

pub Appended-Grown :
    (rt : Runtime) (now : ℕ) (actor : Actor) (body : EventBody) (s : CoordinationDb)
    (r : CoordinationEvent × CoordinationDb)
    → emit rt now actor body s ≡ ok r
    → Grown s r.1
unfolding emit append
Appended-Grown rt now actor body s r h =
    let a = append_event-Appended _ _ s r h in
    let logged : CoordinationDb = record s { event_log = s.event_log ++ r.0 ∷ [] } in
    let first : Grown s logged = record { same = refl; kept = λ id i. i } in
    Grown-preorder.chain s logged r.1 first
      (subst (Grown logged) (sym a.stored) (apply-Grown r.0.body r.0 logged))

-- What is put without an event is in other tables.
pub Grown-Kept : (rt : Runtime) → Kept Grown rt
Grown-Kept rt = record {
  preorder = Grown-preorder;
  emits = λ now actor body. Moves-of _ (Appended-Grown rt now actor body);
  repository = λ lease_ms now r db. Grown-same _ _ refl refl;
  worktree = λ lease_ms now t db. Grown-same _ _ refl refl;
  heartbeat = λ input now s db. Grown-same _ _ refl refl;
  impact = λ i now db. Grown-same _ _ refl refl;
  receipt = λ r db. Grown-same _ _ refl refl;
}
