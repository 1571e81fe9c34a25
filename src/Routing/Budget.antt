-- ===== src/Routing/Budget.antt =====
-- What is sent keeps to the numbers of bytes and of events that the input gives.
use my_pi.Prelude.{
  ℕ, suc, ◌+◌, ◌*◌, ◌≤◌, ◌≡◌, refl, subst, inl, inr, String, List, [], ◌∷◌, ◌++◌, true, false,
  arith, ltb, length, length-append, length-take, take, Bool-cases, Option-cases,
}
use my_pi.Prelude.Outcome.{ok}
use my_pi.Routing.Router.{
  CoordinationEvent, RoutedEvent, Priority, ContextRouterInput, ContextRouteResult, Progress,
  RouteReason, routed, contains, is_superseded, classify, passed, deliver, route_loop,
  superseded_artifact_ids, or_number, start_progress, routed_progress, route, route-eq-ok,
}

module _ (serialized_bytes : CoordinationEvent → ℕ) where
  -- The bytes of the events sent.
  unfoldable pub sent_bytes : List RoutedEvent → ℕ
  sent_bytes [] = 0
  sent_bytes (r ∷ rs) = serialized_bytes r.event + sent_bytes rs

  sent_bytes-snoc :
      (rs : List RoutedEvent) (r : RoutedEvent)
      → sent_bytes (rs ++ r ∷ []) ≡ sent_bytes rs + serialized_bytes r.event
  unfolding sent_bytes
  sent_bytes-snoc [] r = omega arith
  sent_bytes-snoc (s ∷ rs) r = omega (arith, sent_bytes-snoc rs r)

  -- So many events at most are sent, and so many bytes.
  pub record IsWithin (max_bytes count : ℕ) (p : Progress) : Type 0 where
    pub counted : p.bytes ≡ sent_bytes p.high_priority + sent_bytes p.normal_priority
    pub few_bytes : p.bytes ≤ max_bytes
    pub few_events : length p.high_priority + length p.normal_priority ≤ count

  module _ (input : ContextRouterInput) (superseded : List String) (max_bytes : ℕ) where
    deliver-IsWithin :
        (event : CoordinationEvent) (way : Priority × RouteReason) (count : ℕ) (p : Progress)
        → ltb max_bytes (p.bytes + serialized_bytes event) ≡ false
        → IsWithin max_bytes count p
        → IsWithin max_bytes
            (suc count)
            (deliver (routed event way) (serialized_bytes event) (passed event p))
    deliver-IsWithin event (Priority.high, reason) count p fits within =
        let r = routed event (Priority.high, reason) in
        record {
          counted = omega (arith, within.counted, sent_bytes-snoc p.high_priority r);
          few_bytes = ground (arith, fits);
          few_events = omega (arith, within.few_events, length-append p.high_priority (r ∷ []));
        }
    deliver-IsWithin event (Priority.normal, reason) count p fits within =
        let r = routed event (Priority.normal, reason) in
        record {
          counted = omega (arith, within.counted, sent_bytes-snoc p.normal_priority r);
          few_bytes = ground (arith, fits);
          few_events = omega (arith, within.few_events, length-append p.normal_priority (r ∷ []));
        }

    IsWithin-mono :
        (m n : ℕ) (p q : Progress)
        → m ≤ n
        → q.bytes ≡ p.bytes
        → q.high_priority ≡ p.high_priority
        → q.normal_priority ≡ p.normal_priority
        → IsWithin max_bytes m p
        → IsWithin max_bytes n q
    IsWithin-mono m n p q more same_bytes same_high same_normal within = record {
      counted = rw (same_bytes, same_high, same_normal) within.counted;
      few_bytes = rw same_bytes within.few_bytes;
      few_events = rw (same_high, same_normal) (omega (arith, within.few_events, more));
    }

    route_loop-IsWithin :
        (events : List CoordinationEvent) (count : ℕ) (p : Progress)
        → IsWithin max_bytes count p
        → IsWithin max_bytes
            (count + length events)
            (route_loop serialized_bytes input superseded max_bytes events p)
    unfolding route_loop
    route_loop-IsWithin [] count p within =
        IsWithin-mono count (count + 0) p p (omega arith) refl refl refl within
    route_loop-IsWithin (event ∷ events) count p within =
        let loop = route_loop-IsWithin events in
        let longer = IsWithin-mono (count + length events) (count + suc (length events)) in
        let loop_more : (q : Progress)
            → IsWithin max_bytes count q
            → IsWithin max_bytes (count + suc (length events))
                (route_loop serialized_bytes input superseded max_bytes events q) =
          λ q w.
            longer (route_loop serialized_bytes input superseded max_bytes events q)
              (route_loop serialized_bytes input superseded max_bytes events q) (omega arith) refl
              refl refl (loop count q w) in
        elim (Bool-cases (contains p.seen event.event_id)) [
          | inl old ↦
              rw (route_loop, old)
                (loop_more (record p { through_sequence = event.sequence })
                  (IsWithin-mono count count p (record p { through_sequence = event.sequence })
                    (omega arith) refl refl refl within))
          | inr new ↦
              let passed_within =
                IsWithin-mono count count p (passed event p) (omega arith) refl refl refl within in
              elim (Bool-cases (is_superseded superseded event)) [
                | inl gone ↦ rw (route_loop, new, gone) (loop_more (passed event p) passed_within)
                | inr current ↦ elim (Option-cases (classify input event)) [
                  | inl none_of ↦
                      rw (route_loop, new, current, none_of)
                        (loop_more (passed event p) passed_within)
                  | inr (way, is_way) ↦
                      elim (Bool-cases (ltb max_bytes (p.bytes + serialized_bytes event))) [
                        | inl over ↦
                            rw (route_loop, new, current, is_way, over)
                              (IsWithin-mono count (count + suc (length events)) p
                                (record p { seen = event.event_id ∷ p.seen; truncated = true })
                                (omega arith) refl refl refl within)
                        | inr fits ↦
                            let next =
                              deliver (routed event way) (serialized_bytes event)
                                (passed event p) in
                            let result =
                              route_loop serialized_bytes input superseded max_bytes events next in
                            rw (route_loop, new, current, is_way, fits)
                              (IsWithin-mono (suc count + length events)
                                (count + suc (length events)) result result (omega arith) refl refl
                                refl
                                (loop (suc count) next
                                  (deliver-IsWithin event way count p fits within)))
                      ]
                ]
              ]
        ]

  start-IsWithin :
      (input : ContextRouterInput) (max_events max_bytes : ℕ)
      → IsWithin max_bytes 0 (start_progress input max_events)
  unfolding sent_bytes
  start-IsWithin input max_events max_bytes = record {
    counted = omega arith;
    few_bytes = omega arith;
    few_events = omega arith;
  }

  -- Routing sends events with no more bytes in all than the bound that is given, or 256 KB, and no
  -- more of them than the bound that is given, or 100.
  pub route-IsWithin :
      (input : ContextRouterInput) (result : ContextRouteResult)
      → route serialized_bytes input ≡ ok result
      → (sent_bytes result.high_priority + sent_bytes result.normal_priority
          ≤ or_number (256 * 1024) input.max_bytes)
        × (length result.high_priority + length result.normal_priority
            ≤ or_number 100 input.max_events)
  route-IsWithin input result h =
      let max_events = or_number 100 input.max_events in
      let max_bytes = or_number (256 * 1024) input.max_bytes in
      let events = take max_events input.events in
      let superseded = superseded_artifact_ids input.events in
      let first = start_progress input max_events in
      let p = routed_progress serialized_bytes input max_events max_bytes in
      let within =
        route_loop-IsWithin input superseded max_bytes events 0 first
          (start-IsWithin input max_events max_bytes) in
      subst
        (λ (r : ContextRouteResult).
          (sent_bytes r.high_priority + sent_bytes r.normal_priority ≤ max_bytes)
          × (length r.high_priority + length r.normal_priority ≤ max_events))
        (route-eq-ok serialized_bytes input result h)
        (
          omega (arith, within.counted, within.few_bytes),
          omega (arith, within.few_events, length-take max_events input.events),
        )
