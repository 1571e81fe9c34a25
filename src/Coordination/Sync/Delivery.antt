-- ===== src/Coordination/Sync/Delivery.antt =====
-- What `sync` sends: the page of the log that follows, without a gap, and of it what concerns the
-- agent.
use my_pi.Prelude.{
  ℕ, suc, ◌+◌, ◌*◌, ◌≤◌, ◌≡◌, refl, ap, sym, subst, ◌∙◌, String, Option, none, some, List, [], ◌∷◌,
  ◌++◌, true, ◌||◌, not, arith, str_eq, map, length, take, any, sum_of,
}
use mathlib.Core.List.{append-nil}
use my_pi.Prelude.Int.{pos}
use my_pi.Prelude.Sorting.{distinct_by, distinct_by-take, distinct_by-filter}
use my_pi.Prelude.Outcome.{ok, >>=-eq-ok, ok-injective}
use my_pi.Coordination.Model.{WorkItem, WorkDependency}
use my_pi.Coordination.Event.{CoordinationEvent}
use my_pi.Coordination.Store.{CoordinationDb, list_projections}
use my_pi.Coordination.Store.Sequences.{IsLog, IsDistinct}
use my_pi.Coordination.Store.Events.{EventPage, or_else, list_events, is_empty}
use my_pi.Coordination.Store.Numbering.{events_after, IsRun}
use my_pi.Coordination.Store.Pages.{list_events-IsPage}
use my_pi.Coordination.Store.Bounds.{list_events-within}
use my_pi.Coordination.Work.{Runtime, all_dependencies}
use my_pi.Coordination.Sync.{
  SyncInput, SyncResult, for_router, router_input, event_query, assigned_items, warnings_of,
  result_of, sync_view,
}
use my_pi.Routing.Router.{
  RoutedEvent, ContextRouterInput, ContextRouteResult, route, superseded_artifact_ids, is_high,
  or_number, first_sequence,
}
use my_pi.Routing.Router
use my_pi.Routing.Delivery.{to_send, is_normal, last_sequence, route-IsDelivered}
use my_pi.Routing.Delivery
use my_pi.Routing.Whole.{route-whole}

distinct_by-IsDistinct :
    (log : List CoordinationEvent)
    → IsDistinct log
    → distinct_by (λ (e : CoordinationEvent). e.event_id) log ≡ true
distinct_by-IsDistinct [] h = refl
distinct_by-IsDistinct (e ∷ es) h = ground (arith, h.0, distinct_by-IsDistinct es h.1)

any-for_router :
    (id : String) (es : List CoordinationEvent)
    → any (λ (o : Router.CoordinationEvent). str_eq (Delivery.event_id o) id) (map for_router es)
      ≡ any (λ (o : CoordinationEvent). str_eq o.event_id id) es
any-for_router id [] = refl
any-for_router id (e ∷ es) = ap (λ b. str_eq e.event_id id || b) (any-for_router id es)

distinct_by-for_router :
    (es : List CoordinationEvent)
    → distinct_by Delivery.event_id (map for_router es)
      ≡ distinct_by (λ (e : CoordinationEvent). e.event_id) es
distinct_by-for_router [] = refl
distinct_by-for_router (e ∷ es) = rw (any-for_router e.event_id es, distinct_by-for_router es) refl

take-append : (xs ys : List CoordinationEvent) → take (length xs) (xs ++ ys) ≡ xs
take-append [] ys = refl
take-append (x ∷ xs) ys = ap (λ zs. x ∷ zs) (take-append xs ys)

length-for_router : (es : List CoordinationEvent) → length (map for_router es) ≡ length es
length-for_router [] = refl
length-for_router (e ∷ es) = ap suc (length-for_router es)

last_sequence-IsRun :
    (n : ℕ) (es : List CoordinationEvent)
    → IsRun n es
    → last_sequence (pos n) (map for_router es) ≡ pos (n + length es)
last_sequence-IsRun n [] h = ap pos (omega arith)
last_sequence-IsRun n (e ∷ es) h =
    ap (λ m. last_sequence (pos m) (map for_router es)) h.0
    ∙ last_sequence-IsRun (suc n) es h.1
    ∙ ap pos (omega arith)

-- Of events numbered from n + 1 on, after n.
through-IsRun :
    (input : ContextRouterInput) (n : ℕ) (es : List CoordinationEvent)
    → input.since_sequence ≡ some (pos n)
    → input.events ≡ map for_router es
    → IsRun n es
    → last_sequence (first_sequence input) (map for_router es) ≡ pos (n + length es)
through-IsRun input n [] since own h = rw (own, since) (ap pos (omega arith))
through-IsRun input n (e ∷ es) since own h = last_sequence-IsRun n (e ∷ es) h

or_number-or_else : (d : ℕ) (o : Option ℕ) → or_number d o ≡ or_else d o
or_number-or_else d none = refl
or_number-or_else d (some n) = refl

none_left : (xs : List Router.CoordinationEvent) → Delivery.is_empty xs ≡ true → xs ≡ []
none_left [] h = refl
none_left (x ∷ xs) h = cc

module _ (rt : Runtime) (input : SyncInput) (event_bytes : CoordinationEvent → ℕ)
    (serialized_bytes : Router.CoordinationEvent → ℕ) where
  -- What a `sync` has sent of the events since a number, by the router's input for a page.
  pub record IsSynced (n : ℕ) (all : List CoordinationEvent)
      (send : List CoordinationEvent → ContextRouterInput) (result : SyncResult) : Type 0 where
    pub page : List CoordinationEvent
    pub rest : List CoordinationEvent
    pub split : all ≡ page ++ rest
    pub through : result.through_sequence ≡ pos (n + length page)
    pub high :
        result.high_priority
        ≡ to_send
            (send page)
            (superseded_artifact_ids (map for_router page))
            is_high
            (map for_router page)
    pub normal :
        result.normal_priority
        ≡ to_send
            (send page)
            (superseded_artifact_ids (map for_router page))
            is_normal
            (map for_router page)
    pub warned : result.warnings ≡ warnings_of rt input (not (is_empty rest))
    pub progress : is_empty page ≡ is_empty all

  module _
      (smaller : (e : CoordinationEvent) → serialized_bytes (for_router e) ≤ event_bytes e) where
    sum_of-for_router :
        (es : List CoordinationEvent)
        → sum_of serialized_bytes (map for_router es) ≤ sum_of event_bytes es
    sum_of-for_router [] = omega arith
    sum_of-for_router (e ∷ es) = omega (arith, smaller e, sum_of-for_router es)

    route-page :
        (sent : ContextRouterInput) (routed : ContextRouteResult) (n : ℕ)
        (page rest all : List CoordinationEvent)
        → sent.events ≡ map for_router page
        → sent.since_sequence ≡ some (pos n)
        → all ≡ page ++ rest
        → IsRun n page
        → distinct_by Delivery.event_id (map for_router page) ≡ true
        → length page ≤ or_number 100 sent.max_events
        → sum_of event_bytes page ≤ or_number (256 * 1024) sent.max_bytes
        → route serialized_bytes sent ≡ ok routed
        → (routed.through_sequence ≡ pos (n + length page))
          × (routed.high_priority
              ≡ to_send sent (superseded_artifact_ids sent.events) is_high (map for_router page))
          × (routed.normal_priority
              ≡ to_send sent (superseded_artifact_ids sent.events) is_normal (map for_router page))
    route-page sent routed n page rest all own since split run distinct few small h =
        let whole =
          route-whole serialized_bytes sent routed h
            (omega (arith, few, ap length own, length-for_router page))
            (omega (arith, small, sum_of-for_router page, ap (sum_of serialized_bytes) own)) in
        let (done, left, parts, through, truncated, high, normal) =
          route-IsDelivered serialized_bytes sent routed h
            (ap (distinct_by Delivery.event_id) own ∙ distinct) in
        let gone : left ≡ [] = none_left left (ground (arith, truncated, whole)) in
        let all_done : done ≡ map for_router page =
          sym (append-nil done) ∙ ap (λ l. done ++ l) (sym gone) ∙ sym parts ∙ own in
        (
          through
              ∙ ap (last_sequence (first_sequence sent)) all_done
              ∙ through-IsRun sent n page since own run,
          high ∙ ap (to_send sent (superseded_artifact_ids sent.events) is_high) all_done,
          normal ∙ ap (to_send sent (superseded_artifact_ids sent.events) is_normal) all_done,
        )

    view-IsSynced :
        (records : List (String × WorkItem)) (deps : List WorkDependency) (db : CoordinationDb)
        (page : EventPage) (routed : ContextRouteResult)
        → let send = router_input rt input (assigned_items rt input records) deps in
          IsLog db.event_log
          → list_events event_bytes (event_query rt input) db ≡ ok page
          → route serialized_bytes (send page.events) ≡ ok routed
          → IsSynced
              (or_else 0 input.since_sequence)
              (events_after rt.project_id (or_else 0 input.since_sequence) db.event_log)
              send
              (result_of rt input event_bytes serialized_bytes records deps page routed)
    unfolding result_of
    view-IsSynced records deps db page routed log listed sent =
        let n = or_else 0 input.since_sequence in
        let send = router_input rt input (assigned_items rt input records) deps in
        let query = event_query rt input in
        let all = events_after rt.project_id n db.event_log in
        let is_page =
          list_events-IsPage event_bytes rt.project_id (some n) input.max_events input.max_bytes db
            page log listed in
        let within = list_events-within event_bytes query db page listed in
        let distinct =
          distinct_by-for_router page.events
          ∙ ap (distinct_by (λ (e : CoordinationEvent). e.event_id)) (
              sym (
                ap (take (length page.events)) is_page.split
                ∙ take-append page.events is_page.rest))
          ∙ distinct_by-take _ (length page.events) all (
              distinct_by-filter _ _ db.event_log
                (distinct_by-IsDistinct db.event_log log.distinct)) in
        let (through, high, normal) =
          route-page (send page.events) routed n page.events is_page.rest all refl refl
            is_page.split is_page.numbered distinct
            (omega (arith, within.1, or_number-or_else 100 input.max_events))
            (omega (arith, within.0, or_number-or_else (256 * 1024) input.max_bytes)) sent in
        record {
          page = page.events;
          rest = is_page.rest;
          split = is_page.split;
          through = through;
          high = high;
          normal = normal;
          warned = ap (warnings_of rt input) is_page.more;
          progress = is_page.progress;
        }

    -- A `sync` that returns, after the heartbeat and whatever the tables of items and dependencies
    -- are that it reads, from a log that is numbered as the store numbers it, where no event is
    -- longer as the router counts it than as the store does: it has gone through the events of the
    -- project that follow the given sequence, up to the one that it gives, and through one at least
    -- if there is one; what of them concerns the agent and is not superseded is sent in order, under
    -- its priority, and nothing else; and it warns exactly when the log has more.
    pub sync_view-IsSynced :
        (items_db deps_db log_db : CoordinationDb) (result : SyncResult)
        → IsLog log_db.event_log
        → sync_view rt input event_bytes serialized_bytes items_db deps_db log_db ≡ ok result
        → let n = or_else 0 input.since_sequence in
          let records = list_projections rt.project_id items_db.work_items in
          let send =
            router_input rt input (assigned_items rt input records) (all_dependencies rt deps_db) in
          IsSynced n (events_after rt.project_id n log_db.event_log) send result
    unfolding sync_view
    sync_view-IsSynced items_db deps_db log_db result log h =
        let n = or_else 0 input.since_sequence in
        let records = list_projections rt.project_id items_db.work_items in
        let deps = all_dependencies rt deps_db in
        let send = router_input rt input (assigned_items rt input records) deps in
        let (page, listed, h₁) =
          >>=-eq-ok (list_events event_bytes (event_query rt input) log_db) _ h in
        let (routed, sent, h₂) = >>=-eq-ok (route serialized_bytes (send page.events)) _ h₁ in
        subst (IsSynced n (events_after rt.project_id n log_db.event_log) send)
          (ok-injective _ _ h₂) (view-IsSynced records deps log_db page routed log listed sent)
