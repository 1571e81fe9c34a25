-- ===== src/Routing/Whole.antt =====
-- Where all the events fit, routing goes through all of them.
use my_pi.Prelude.{
  ℕ, ◌+◌, ◌*◌, ◌≤◌, ◌≡◌, refl, ap, sym, ◌∙◌, String, List, [], ◌∷◌, false, arith, ltb, inl, inr,
  Bool-cases, Option-cases, length, sum_of, take,
}
use my_pi.Prelude.Outcome.{ok}
use my_pi.Routing.Router.{
  CoordinationEvent, RoutedEvent, ContextRouterInput, ContextRouteResult, Progress, contains,
  is_superseded, classify, routed, passed, deliver, route_loop, superseded_artifact_ids, or_number,
  start_progress, route, route-eq-ok,
}

deliver-bytes :
    (r : RoutedEvent) (size : ℕ) (p : Progress) → (deliver r size p).bytes ≡ p.bytes + size
deliver-bytes r size p = ground arith

deliver-truncated :
    (r : RoutedEvent) (size : ℕ) (p : Progress) → (deliver r size p).truncated ≡ p.truncated
deliver-truncated r size p = ground arith

take-all : (n : ℕ) (xs : List CoordinationEvent) → length xs ≤ n → take n xs ≡ xs
take-all ℕ.zero [] h = refl
take-all ℕ.zero (x ∷ xs) h = absurd (omega (arith, h))
take-all (ℕ.suc n) [] h = refl
take-all (ℕ.suc n) (x ∷ xs) h = ap (λ ys. x ∷ ys) (take-all n xs (omega (arith, h)))

module _ (serialized_bytes : CoordinationEvent → ℕ) (input : ContextRouterInput) where
  route_loop-truncated :
      (superseded : List String) (max_bytes : ℕ) (events : List CoordinationEvent) (p : Progress)
      → p.bytes + sum_of serialized_bytes events ≤ max_bytes
      → (route_loop serialized_bytes input superseded max_bytes events p).truncated ≡ p.truncated
  unfolding route_loop
  route_loop-truncated superseded max_bytes [] p h = refl
  route_loop-truncated superseded max_bytes (event ∷ events) p h =
      let loop = route_loop-truncated superseded max_bytes events in
      let skipped : p.bytes + sum_of serialized_bytes events ≤ max_bytes = omega (arith, h) in
      elim (Bool-cases (contains p.seen event.event_id)) [
        | inl old ↦
            rw (route_loop, old) (loop (record p { through_sequence = event.sequence }) skipped)
        | inr new ↦ elim (Bool-cases (is_superseded superseded event)) [
          | inl gone ↦ rw (route_loop, new, gone) (loop (passed event p) skipped)
          | inr current ↦ elim (Option-cases (classify input event)) [
            | inl nothing ↦ rw (route_loop, new, current, nothing) (loop (passed event p) skipped)
            | inr (way, is_way) ↦
                let size = serialized_bytes event in
                let fits : ltb max_bytes (p.bytes + size) ≡ false = ground (arith, h) in
                let next = deliver (routed event way) size (passed event p) in
                rw (route_loop, new, current, is_way, fits)
                  (loop next
                      (omega (arith, h, deliver-bytes (routed event way) size (passed event p)))
                    ∙ deliver-truncated (routed event way) size (passed event p))
          ]
        ]
      ]

  -- A call that returns reports no truncation if the events are no more than the bound of events,
  -- and all of them together have no more bytes than the bound of bytes.
  pub route-whole :
      (result : ContextRouteResult)
      → route serialized_bytes input ≡ ok result
      → length input.events ≤ or_number 100 input.max_events
      → sum_of serialized_bytes input.events ≤ or_number (256 * 1024) input.max_bytes
      → result.truncated ≡ false
  route-whole result h few small =
      let max_events = or_number 100 input.max_events in
      let max_bytes = or_number (256 * 1024) input.max_bytes in
      let start = start_progress input max_events in
      let superseded = superseded_artifact_ids input.events in
      let whole = take-all max_events input.events few in
      ap (λ (r : ContextRouteResult). r.truncated)
        (sym (route-eq-ok serialized_bytes input result h))
      ∙ ap (λ es. (route_loop serialized_bytes input superseded max_bytes es start).truncated) whole
      ∙ route_loop-truncated superseded max_bytes input.events start (omega (arith, small))
      ∙ ground (arith, few)
