-- ===== src/Coordination/Samples/Claims.antt =====
-- Claims of two agents in the small project.
use my_pi.Prelude.{◌≡◌, ◌≢◌, refl, some, [], ◌∷◌}
use my_pi.Prelude.Dict.{get, put}
use my_pi.Prelude.Outcome.{ok, err, work_item_blocked}
use my_pi.Coordination.Model.{WorkItem, WorkItemState}
use my_pi.Coordination.Event.{CoordinationEvent, WorkItemEvent, work_item_event}
use my_pi.Coordination.Store.{
  list_projections, rows_of, CoordinationDb, get_projection, apply_event_projection, append_event,
  next_sequence, max_sequence, insert_event,
}
use my_pi.Coordination.Tx.{append, transact, ◌>>=◌}
use my_pi.Coordination.Work.{
  emit, live_session, find_item, session_expired, dependency_blockers, dependencies_of, unfinished,
  all_dependencies, all_items, index_items, record_values,
}
use my_pi.Coordination.Claim.{
  assigned, claim, claim_tx, claim_unheld, claim_with, claim_free, claim_blocked,
}
use my_pi.Coordination.Claim.Outcomes.{IsClaimed}
use my_pi.Coordination.Claim.Races.{claim-IsClaimed, claim_race}
use my_pi.Coordination.Claim.HeldUp.{claim_held_up}
use my_pi.Coordination.Samples.{runtime, session, w1, w2, db, claim_of, creation}

abbrev claimed_w1 : WorkItem
claimed_w1 = assigned WorkItemState.active "a" 5 w1

-- The runs of the witnesses.
w1_claimed : (claim runtime (claim_of "a" "w1") 4 5 db).0 ≡ ok claimed_w1
unfolding claim claim_tx claim_unheld claim_with claim_free claim_blocked transact ◌>>=◌
    live_session get_projection get session_expired find_item dependency_blockers dependencies_of
    unfinished all_dependencies all_items index_items record_values list_projections rows_of emit
    append append_event next_sequence max_sequence insert_event apply_event_projection
w1_claimed = refl

claim-IsClaimed_example :
    IsClaimed runtime
      (claim_of "a" "w1")
      5
      4
      claimed_w1
      db
      (claim runtime (claim_of "a" "w1") 4 5 db).1
claim-IsClaimed_example =
    claim-IsClaimed runtime (claim_of "a" "w1") 4 5 db _ claimed_w1 w1_claimed refl

claim_race_example :
    (claim runtime (claim_of "b" "w1") 6 7 (claim runtime (claim_of "a" "w1") 4 5 db).1).0
    ≢ ok claimed_w1
unfolding get_projection get
claim_race_example =
    claim_race runtime (claim_of "a" "w1") (claim_of "b" "w1") db w1 refl refl refl refl refl refl
      refl 4 5 6 7 claimed_w1 claimed_w1 w1_claimed

-- The item that the refused claim of `w2` stores, its event, and the database after it.
abbrev blocked_w2 : WorkItem
blocked_w2 = assigned WorkItemState.blocked "a" 5 w2

abbrev blocking : CoordinationEvent
blocking = record creation { body = work_item_event WorkItemEvent.blocked blocked_w2 }

abbrev after_blocking : CoordinationDb
after_blocking =
    apply_event_projection blocking.body blocking (record db { event_log = blocking ∷ [] })

claim_held_up_example :
    ((claim runtime (claim_of "a" "w2") 4 5 db).0 ≡ err work_item_blocked)
    × (get_projection "w2" (claim runtime (claim_of "a" "w2") 4 5 db).1.work_items
        ≡ some blocked_w2)
unfolding get_projection get session_expired dependency_blockers dependencies_of unfinished
    all_dependencies all_items index_items record_values list_projections rows_of put emit append
    append_event next_sequence max_sequence insert_event apply_event_projection
claim_held_up_example =
    claim_held_up runtime (claim_of "a" "w2") 4 5 db after_blocking (session "a") w2 w1 [] blocking
      refl refl refl refl refl refl refl refl refl refl refl refl
