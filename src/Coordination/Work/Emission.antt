-- ===== src/Coordination/Work/Emission.antt =====
-- What an event does to the table of work items.
use my_pi.Prelude.{
  ℕ, ◌≡◌, ap, ◌∙◌, String, Option, some, [], ◌∷◌, ◌++◌, true, arith, str_eq, if◌then◌else◌,
}
use my_pi.Prelude.Dict.{get-put}
use my_pi.Prelude.Text.{truthy}
use my_pi.Prelude.Outcome.{ok}
use my_pi.Coordination.Model.{WorkItem, Actor}
use my_pi.Coordination.Event.{CoordinationEvent, EventBody, WorkItemEvent, work_item_event}
use my_pi.Coordination.Store.{
  CoordinationDb, Projection, put_projection, get_projection, row_value, apply_event_projection,
}
use my_pi.Coordination.Store.Sequences.{append_event-Appended}
use my_pi.Coordination.Tx.{append}
use my_pi.Coordination.Work.{Runtime, emit}

-- What an event leaves.
pub emit-eq-apply :
    (rt : Runtime) (now : ℕ) (actor : Actor) (body : EventBody) (s : CoordinationDb)
    (r : CoordinationEvent × CoordinationDb)
    → emit rt now actor body s ≡ ok r
    → r.1 ≡ apply_event_projection body r.0 (record s { event_log = s.event_log ++ r.0 ∷ [] })
unfolding emit append
emit-eq-apply rt now actor body s r e =
    let a = append_event-Appended _ _ s r e in
    a.stored
    ∙ ap
        (λ (b : EventBody).
          apply_event_projection b r.0 (record s { event_log = s.event_log ++ r.0 ∷ [] }))
        a.own_body

pub get_projection-put_projection {ℓ} :
    {V : Type ℓ} (id j : String) (v : V) (p : Option String) (now : ℕ) (table : Projection V)
    → get_projection j (put_projection id v p now table)
      ≡ (if str_eq id j then some v else get_projection j table)
unfolding get_projection put_projection
get_projection-put_projection id j v p now table =
    ap row_value (get-put id j (record { project_id = p; value = v; updated_at = now }) table)
    ∙ ground arith

work_items-apply :
    (t : WorkItemEvent) (w : WorkItem) (e : CoordinationEvent) (db : CoordinationDb) (j : String)
    → truthy w.id ≡ true
    → get_projection j (apply_event_projection (work_item_event t w) e db).work_items
      ≡ (if str_eq w.id j then some w else get_projection j db.work_items)
unfolding apply_event_projection
work_items-apply t w e db j h = rw h (get_projection-put_projection w.id j w _ _ db.work_items)

-- After an event of a work item, the item is stored as the event has it, and the others as before.
pub emit-work_items :
    (rt : Runtime) (now : ℕ) (actor : Actor) (t : WorkItemEvent) (w : WorkItem)
    (s u : CoordinationDb) (e : CoordinationEvent) (j : String)
    → truthy w.id ≡ true
    → emit rt now actor (work_item_event t w) s ≡ ok (e, u)
    → get_projection j u.work_items
      ≡ (if str_eq w.id j then some w else get_projection j s.work_items)
unfolding emit append
emit-work_items rt now actor t w s u e j named h =
    let a = append_event-Appended _ _ s (e, u) h in
    let logged : CoordinationDb = record s { event_log = s.event_log ++ e ∷ [] } in
    ap (λ (db : CoordinationDb). get_projection j db.work_items) a.stored
    ∙ ap (λ (b : EventBody). get_projection j (apply_event_projection b e logged).work_items)
        a.own_body
    ∙ work_items-apply t w e logged j named
