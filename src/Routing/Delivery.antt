-- ===== src/Routing/Delivery.antt =====
-- Where routing stops, everything before has been sent that concerns the agent.
use my_pi.Prelude.{
  ℕ, zero, suc, ◌+◌, ◌*◌, ◌≡◌, refl, ap, sym, subst, ◌∙◌, inl, inr, String, none, some, List, [],
  ◌∷◌, ◌++◌, Bool, true, false, ◌&&◌, ◌||◌, not, arith, ltb, str_eq, eq_iff, if◌then◌else◌, length,
  take, drop, take-append-drop, any, all, Bool-cases, Option-cases,
}
use my_pi.Prelude.Int.{ℤ}
use my_pi.Prelude.Sorting.{distinct_by, distinct_by-take}
use mathlib.Core.List.{append-nil, append_assoc}
use my_pi.Prelude.Outcome.{ok}
use my_pi.Routing.Router.{
  CoordinationEvent, RoutedEvent, Priority, RouteReason, ContextRouterInput, ContextRouteResult,
  Progress, contains, is_superseded, is_high, classify, routed, passed, deliver, route_loop,
  superseded_artifact_ids, or_number, first_sequence, start_progress, route, route-eq-ok,
}

abbrev pub event_id : CoordinationEvent → String
event_id event = event.event_id

abbrev pub is_empty : List CoordinationEvent → Bool
is_empty [] = true
is_empty (event ∷ events) = false

abbrev pub last_sequence : ℤ → List CoordinationEvent → ℤ
last_sequence n [] = n
last_sequence n (event ∷ events) = last_sequence event.sequence events

-- What is to be sent of an event with a priority: nothing, or the event itself.
abbrev pub sending :
    ContextRouterInput → List String → (Priority → Bool) → CoordinationEvent → List RoutedEvent
sending input superseded wanted event =
    if is_superseded superseded event then [] else elim (classify input event) [
      | none ↦ []
      | some way ↦ if wanted way.0 then routed event way ∷ [] else []
    ]

-- The events that are to be sent to the agent with a priority, in their order.
unfoldable pub to_send :
    ContextRouterInput → List String → (Priority → Bool) → List CoordinationEvent → List RoutedEvent
to_send input superseded wanted [] = []
to_send input superseded wanted (event ∷ events) =
    sending input superseded wanted event ++ to_send input superseded wanted events

abbrev pub is_normal : Priority → Bool
is_normal priority = not (is_high priority)

abbrev fresh : List String → List CoordinationEvent → Bool
fresh seen events = all (λ (event : CoordinationEvent). not (contains seen event.event_id)) events

str_eq-false : (s t : String) → str_eq s t ≡ false → str_eq t s ≡ false
str_eq-false s t h = ground (arith, eq_iff s t, eq_iff t s, h)

or_false : (b : Bool) → (b || false) ≡ b
or_false true = refl
or_false false = refl

or_true : (b : Bool) → (b || true) ≡ true
or_true true = refl
or_true false = refl

fresh-seen :
    (id : String) (seen : List String) (events : List CoordinationEvent)
    → any (λ (event : CoordinationEvent). str_eq event.event_id id) events ≡ false
    → fresh seen events ≡ true
    → fresh (id ∷ seen) events ≡ true
fresh-seen id seen [] differs is_fresh = refl
fresh-seen id seen (event ∷ events) differs is_fresh =
    let other = str_eq-false event.event_id id (ground (arith, differs)) in
    rw other (ground (arith, differs, is_fresh, fresh-seen id seen events))

is_empty-append :
    (xs ys : List CoordinationEvent) → is_empty (xs ++ ys) ≡ (is_empty xs && is_empty ys)
is_empty-append [] ys = refl
is_empty-append (x ∷ xs) ys = refl

is_empty-drop :
    (n : ℕ) (xs : List CoordinationEvent) → is_empty (drop n xs) ≡ not (ltb n (length xs))
is_empty-drop zero [] = refl
is_empty-drop zero (x ∷ xs) = ground arith
is_empty-drop (suc n) [] = ground arith
is_empty-drop (suc n) (x ∷ xs) = is_empty-drop n xs ∙ ground arith

left_over :
    (n : ℕ) (events rest : List CoordinationEvent)
    → (ltb n (length events) || not (is_empty rest)) ≡ not (is_empty (rest ++ drop n events))
left_over n events rest =
    by_cases (ltb n (length events)) (is_empty rest)
    ∙ ap not (
        sym (
          is_empty-append rest (drop n events)
          ∙ ap (λ e. is_empty rest && e) (is_empty-drop n events)))
  where
    by_cases : (a b : Bool) → (a || not b) ≡ not (b && not a)
    by_cases true true = refl
    by_cases true false = refl
    by_cases false true = refl
    by_cases false false = refl

fresh_all : (events : List CoordinationEvent) → fresh [] events ≡ true
fresh_all [] = refl
fresh_all (event ∷ events) = fresh_all events

module _ (serialized_bytes : CoordinationEvent → ℕ) (input : ContextRouterInput)
    (superseded : List String) (max_bytes : ℕ) where
  -- What the loop over the events has done, from one state to another: it has gone through the
  -- first of them and sent those that are to be sent.
  pub record IsDelivered (events : List CoordinationEvent) (p q : Progress) : Type 0 where
    pub done : List CoordinationEvent
    pub rest : List CoordinationEvent
    pub split : events ≡ done ++ rest
    pub through : q.through_sequence ≡ last_sequence p.through_sequence done
    pub truncated : q.truncated ≡ (p.truncated || not (is_empty rest))
    pub high : q.high_priority ≡ p.high_priority ++ to_send input superseded is_high done
    pub normal : q.normal_priority ≡ p.normal_priority ++ to_send input superseded is_normal done

  -- One event more at the front, for which the lists to be sent have grown as they should.
  add-IsDelivered :
      (event : CoordinationEvent) (events : List CoordinationEvent) (p next q : Progress)
      → next.through_sequence ≡ event.sequence
      → next.truncated ≡ p.truncated
      → next.high_priority ≡ p.high_priority ++ sending input superseded is_high event
      → next.normal_priority ≡ p.normal_priority ++ sending input superseded is_normal event
      → IsDelivered events next q
      → IsDelivered (event ∷ events) p q
  unfolding to_send
  add-IsDelivered event events p next q through truncated high normal later = record {
    done = event ∷ later.done;
    rest = later.rest;
    split = ap (λ es. event ∷ es) later.split;
    through = later.through ∙ ap (λ n. last_sequence n later.done) through;
    truncated = later.truncated ∙ ap (λ b. b || not (is_empty later.rest)) truncated;
    high =
        later.high
        ∙ ap (λ rs. rs ++ to_send input superseded is_high later.done) high
        ∙ append_assoc p.high_priority (sending input superseded is_high event)
            (to_send input superseded is_high later.done);
    normal =
        later.normal
        ∙ ap (λ rs. rs ++ to_send input superseded is_normal later.done) normal
        ∙ append_assoc p.normal_priority (sending input superseded is_normal event)
            (to_send input superseded is_normal later.done);
  }

  deliver-seen :
      (event : CoordinationEvent) (p : Progress) (way : Priority × RouteReason)
      → (deliver (routed event way) (serialized_bytes event) (passed event p)).seen
        ≡ event.event_id ∷ p.seen
  deliver-seen event p (Priority.high, reason) = refl
  deliver-seen event p (Priority.normal, reason) = refl

  deliver-IsDelivered :
      (event : CoordinationEvent) (events : List CoordinationEvent) (p q : Progress)
      (way : Priority × RouteReason)
      → is_superseded superseded event ≡ false
      → classify input event ≡ some way
      → IsDelivered events (deliver (routed event way) (serialized_bytes event) (passed event p)) q
      → IsDelivered (event ∷ events) p q
  deliver-IsDelivered event events p q (Priority.high, reason) current is_way later =
      add-IsDelivered event events p
        (deliver (routed event (Priority.high, reason)) (serialized_bytes event) (passed event p)) q
        refl refl (rw (current, is_way) refl)
        (rw (current, is_way) (sym (append-nil p.normal_priority))) later
  deliver-IsDelivered event events p q (Priority.normal, reason) current is_way later =
      add-IsDelivered event events p
        (deliver (routed event (Priority.normal, reason)) (serialized_bytes event) (passed event p))
        q refl refl (rw (current, is_way) (sym (append-nil p.high_priority)))
        (rw (current, is_way) refl) later

  route_loop-IsDelivered :
      (events : List CoordinationEvent) (p : Progress)
      → distinct_by event_id events ≡ true
      → fresh p.seen events ≡ true
      → IsDelivered events p (route_loop serialized_bytes input superseded max_bytes events p)
  unfolding route_loop to_send
  route_loop-IsDelivered [] p distinct is_fresh = record {
    done = [];
    rest = [];
    split = refl;
    through = refl;
    truncated = sym (or_false p.truncated);
    high = sym (append-nil p.high_priority);
    normal = sym (append-nil p.normal_priority);
  }
  route_loop-IsDelivered (event ∷ events) p distinct is_fresh =
      let new : contains p.seen event.event_id ≡ false = ground (arith, is_fresh) in
      let later =
        fresh-seen event.event_id p.seen events (ground (arith, distinct))
          (ground (arith, is_fresh)) in
      let loop = route_loop-IsDelivered events in
      let others : distinct_by event_id events ≡ true = ground (arith, distinct) in
      let loop_end = route_loop serialized_bytes input superseded max_bytes events in
      elim (Bool-cases (is_superseded superseded event)) [
        | inl gone ↦
            rw (route_loop, new, gone)
              (add-IsDelivered event events p (passed event p) (loop_end (passed event p)) refl refl
                (rw gone (sym (append-nil p.high_priority)))
                (rw gone (sym (append-nil p.normal_priority))) (loop (passed event p) others later))
        | inr current ↦ elim (Option-cases (classify input event)) [
          | inl nothing ↦
              rw (route_loop, new, current, nothing)
                (add-IsDelivered event events p (passed event p) (loop_end (passed event p)) refl
                  refl (rw (current, nothing) (sym (append-nil p.high_priority)))
                  (rw (current, nothing) (sym (append-nil p.normal_priority)))
                  (loop (passed event p) others later))
          | inr (way, is_way) ↦
              elim (Bool-cases (ltb max_bytes (p.bytes + serialized_bytes event))) [
                | inl over ↦
                    rw (route_loop, new, current, is_way, over)
                      (record {
                        done = [];
                        rest = event ∷ events;
                        split = refl;
                        through = refl;
                        truncated = sym (or_true p.truncated);
                        high = sym (append-nil p.high_priority);
                        normal = sym (append-nil p.normal_priority);
                      })
                | inr fits ↦
                    let next =
                      deliver (routed event way) (serialized_bytes event) (passed event p) in
                    rw (route_loop, new, current, is_way, fits)
                      (deliver-IsDelivered event events p (loop_end next) way current is_way (
                        loop next others (
                          subst (λ seen. fresh seen events ≡ true) (sym (deliver-seen event p way))
                            later)))
              ]
        ]
      ]

module _ (serialized_bytes : CoordinationEvent → ℕ) where
  -- Of events with different identifiers a call that returns has gone through the first ones: their
  -- last sequence is the one that it gives; what of them concerns the agent and is not superseded is
  -- sent in order, under its priority, and nothing else; and it reports a truncation exactly when
  -- an event is left.
  pub route-IsDelivered :
      (input : ContextRouterInput) (result : ContextRouteResult)
      → route serialized_bytes input ≡ ok result
      → distinct_by event_id input.events ≡ true
      → let superseded = superseded_artifact_ids input.events in
        (done : List CoordinationEvent) × (rest : List CoordinationEvent) × (input.events
          ≡ done ++ rest)
        × (result.through_sequence ≡ last_sequence (first_sequence input) done)
        × (result.truncated ≡ not (is_empty rest))
        × (result.high_priority ≡ to_send input superseded is_high done)
        × (result.normal_priority ≡ to_send input superseded is_normal done)
  route-IsDelivered input result h distinct =
      let max_events = or_number 100 input.max_events in
      let max_bytes = or_number (256 * 1024) input.max_bytes in
      let superseded = superseded_artifact_ids input.events in
      let events = take max_events input.events in
      let left = drop max_events input.events in
      let first = start_progress input max_events in
      let d =
        route_loop-IsDelivered serialized_bytes input superseded max_bytes events first
          (distinct_by-take event_id max_events input.events distinct) (fresh_all events) in
      rw (← route-eq-ok serialized_bytes input result h) (
        d.done,
        d.rest ++ left,
        sym (take-append-drop max_events input.events)
            ∙ ap (λ es. es ++ left) d.split
            ∙ append_assoc d.done d.rest left,
        d.through,
        d.truncated ∙ left_over max_events input.events d.rest,
        d.high,
        d.normal,
      )
