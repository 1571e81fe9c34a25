-- ===== src/Coordination/Links/Runs.antt =====
-- Sequences of operations keep the order of the dependencies.
use my_pi.Prelude.{String, List, [], ◌∷◌}
use my_pi.Prelude.Outcome.{Outcome}
use my_pi.Coordination.Store.{CoordinationDb}
use my_pi.Coordination.Work.{Runtime}
use my_pi.Coordination.Operations.{
  Operation, joining, creating, claiming, declaring, publishing, beating, completing, deciding,
  recording, impacting, perform, perform_all,
}
use my_pi.Coordination.Operations.Steps.{perform_rule, Admits}
use my_pi.Coordination.Links.{Grown-IsOrdered, Grown-Kept, IsOrdered}
use my_pi.Coordination.Links.Creation.{IsNew, create_work_item-IsOrdered}
use my_pi.Impact.Model.{CodeEntity, CodeEdge}
use my_pi.Impact.Engine.{ImpactInput, ImpactResult}

-- Each item that is created has an identifier that is new.
abbrev pub IsFresh : CoordinationDb → Operation → Type 0
IsFresh db (creating input id now) = IsNew input id db
IsFresh db o = Unit

module _ (code_state : String → List CodeEntity × List CodeEdge)
    (compute : ImpactInput → Outcome ImpactResult) (rt : Runtime) where
  abbrev pub IsFreshRun : CoordinationDb → List Operation → Type 0
  IsFreshRun db [] = Unit
  IsFreshRun db (o ∷ os) = IsFresh db o × IsFreshRun (perform code_state compute rt db o) os

  grown :
      (db : CoordinationDb) (o : Operation)
      → Admits (Grown-Kept rt) db o
      → IsOrdered db
      → IsOrdered (perform code_state compute rt db o)
  grown db o h = Grown-IsOrdered db _ (perform_rule (Grown-Kept rt) code_state compute db o h)

  perform-IsOrdered :
      (db : CoordinationDb) (o : Operation)
      → IsFresh db o
      → IsOrdered db
      → IsOrdered (perform code_state compute rt db o)
  unfolding perform
  perform-IsOrdered db (creating input id now) new =
      create_work_item-IsOrdered rt now input id db new
  perform-IsOrdered db (joining lease_ms input id now) new =
      grown db (joining lease_ms input id now) tt
  perform-IsOrdered db (claiming input checked_at now) new =
      grown db (claiming input checked_at now) tt
  perform-IsOrdered db (declaring input id checked_at now) new =
      grown db (declaring input id checked_at now) tt
  perform-IsOrdered db (publishing input id checked_at now) new =
      grown db (publishing input id checked_at now) tt
  perform-IsOrdered db (beating input checked_at now) new =
      grown db (beating input checked_at now) tt
  perform-IsOrdered db (completing input now) new = grown db (completing input now) tt
  perform-IsOrdered db (deciding run_id now) new = grown db (deciding run_id now) tt
  perform-IsOrdered db (recording receipt now) new = grown db (recording receipt now) tt
  perform-IsOrdered db (impacting intent now) new = grown db (impacting intent now) tt

  -- Any sequence of the operations of the coordination runtime, with any arguments, whether they
  -- return or throw, keeps this if the identifier of each item that is created is not empty, not in
  -- use and not among those that the item is to depend on: both ends of each stored dependency are
  -- stored items, and there is an order of the items in which each dependency leads to an item that
  -- comes before the one that depends on it, so that no item waits for itself.
  pub perform_all-IsOrdered :
      (db : CoordinationDb) (os : List Operation)
      → IsFreshRun db os
      → IsOrdered db
      → IsOrdered (perform_all code_state compute rt db os)
  unfolding perform_all
  perform_all-IsOrdered db [] new ordered = ordered
  perform_all-IsOrdered db (o ∷ os) new ordered =
      perform_all-IsOrdered (perform code_state compute rt db o) os new.1
        (perform-IsOrdered db o new.0 ordered)
