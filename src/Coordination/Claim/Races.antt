-- ===== src/Coordination/Claim/Races.antt =====
-- `claim` as its callers see it: results, errors, and two agents after one item.
use my_pi.Prelude.{
  ℕ, ◌≡◌, ◌≢◌, refl, ap, sym, String, Option, some, [], ◌∷◌, true, false, arith, str_eq, eq_iff,
  leb, inl, inr, Bool-cases, ◌∙◌,
}
use mathlib.Core.Option.{some-injective}
use my_pi.Prelude.Text.{is_text, truthy}
use my_pi.Prelude.Outcome.{Outcome, ok, err}
use my_pi.Coordination.Model.{WorkItem}
use my_pi.Coordination.Store.{CoordinationDb, get_projection, max_safe_integer}
use my_pi.Coordination.Tx.{transact}
use my_pi.Coordination.Work.{Runtime}
use my_pi.Coordination.Work.Emission.{emit-work_items}
use my_pi.Coordination.Claim.{ClaimInput, ClaimResult, held, held_up, settle_claim, claim}
use my_pi.Coordination.Claim.Outcomes.{IsClaimed, claim_tx-eq-ok, claim_tx-ne-held_up}

settle-eq-ok :
    (o : Outcome (ClaimResult × CoordinationDb)) (s : CoordinationDb) (w : WorkItem)
    (t : CoordinationDb)
    → ((v : WorkItem) (u : CoordinationDb) → o ≢ ok (held_up [] v, u))
    → (let r = elim o as (λ _. Outcome ClaimResult × CoordinationDb) [
      | ok q ↦ (ok q.0, q.1)
      | err c ↦ (err c, s)
    ] in
        (settle_claim r.0 ≡ ok w) × (r.1 ≡ t))
    → o ≡ ok (held w, t)
settle-eq-ok (ok (held v, u)) s w t h e = ground arith
settle-eq-ok (ok (held_up [] v, u)) s w t h e = absurd (h v u refl)
settle-eq-ok (ok (held_up (b ∷ bs) v, u)) s w t h e = cc (e.0)
settle-eq-ok (err c) s w t h e = cc (e.0)

-- A claim that returns an item has passed every check of `IsClaimed`.
pub claim-IsClaimed :
    (rt : Runtime) (input : ClaimInput) (checked_at now : ℕ) (s t : CoordinationDb) (w : WorkItem)
    → (claim rt input checked_at now s).0 ≡ ok w
    → (claim rt input checked_at now s).1 ≡ t
    → IsClaimed rt input now checked_at w s t
unfolding claim transact
claim-IsClaimed rt input checked_at now s t w h k =
    elim (Bool-cases (leb input.expected_version max_safe_integer)) [
      | inl fits ↦ claim_tx-eq-ok rt input now checked_at w s t (
          settle-eq-ok _ s w t (claim_tx-ne-held_up rt input now checked_at s)
            (rw fits at h, rw fits at k))
      | inr not_safe ↦ cc (rw not_safe at h)
    ]

module _ (rt : Runtime) (a b : ClaimInput) (s : CoordinationDb) (item : WorkItem)
    (same_item : b.work_item_id ≡ a.work_item_id)
    (same_version : b.expected_version ≡ a.expected_version)
    (others : str_eq a.agent_session_id b.agent_session_id ≡ false)
    (found : get_projection a.work_item_id s.work_items ≡ some item)
    (keyed : item.id ≡ a.work_item_id) (named : truthy item.id ≡ true)
    (not_yet : is_text item.assignee a.agent_session_id ≡ false) where
  race_lost :
      (a_checked a_now b_checked b_now : ℕ) (w v : WorkItem) (t u : CoordinationDb)
      → IsClaimed rt a a_now a_checked w s t
      → IsClaimed rt b b_now b_checked v t u
      → ⊥
  race_lost a_checked a_now b_checked b_now w v t u one two =
      let mine : one.item ≡ item = some-injective _ _ (sym one.item_found ∙ found) in
      elim one.outcome [
        | inl kept ↦
            cc (kept.0, not_yet, ap (λ (i : WorkItem). is_text i.assignee a.agent_session_id) mine)
        | inr taken ↦
            let id_is : w.id ≡ b.work_item_id =
              ap (λ (x : WorkItem). x.id) taken.result
              ∙ ap (λ (x : WorkItem). x.id) mine
              ∙ keyed
              ∙ sym same_item in
            let w_named : truthy w.id ≡ true = ap truthy (id_is ∙ same_item ∙ sym keyed) ∙ named in
            let stored =
              emit-work_items rt a_now _ _ w s t taken.logged.0 b.work_item_id w_named
                taken.logged.1 in
            let there : get_projection b.work_item_id t.work_items ≡ some w =
              stored ∙ rw ((eq_iff w.id b.work_item_id).1 id_is) refl in
            let seen : two.item ≡ w = some-injective _ _ (sym two.item_found ∙ there) in
            elim two.outcome [
              | inl kept ↦
                  let assignee : w.assignee ≡ some a.agent_session_id =
                    ap (λ (x : WorkItem). x.assignee) taken.result in
                  cc (
                    kept.0,
                    others,
                    ap (λ (x : WorkItem). is_text x.assignee b.agent_session_id) seen,
                    ap (λ (o : Option String). is_text o b.agent_session_id) assignee,
                  )
              | inr late ↦ absurd (
                  omega (
                    arith,
                    late.expected,
                    taken.expected,
                    same_version,
                    ap (λ (x : WorkItem). x.version) seen,
                    ap (λ (x : WorkItem). x.version) taken.result,
                  ))
            ]
      ]

  -- Two agents that claim an item with one expected version, where it is not assigned to the first yet:
  -- if the first claim returns, the second throws, whenever it is made and shared or not.
  pub claim_race :
      (a_checked a_now b_checked b_now : ℕ) (w v : WorkItem)
      → (claim rt a a_checked a_now s).0 ≡ ok w
      → (claim rt b b_checked b_now (claim rt a a_checked a_now s).1).0 ≢ ok v
  claim_race a_checked a_now b_checked b_now w v first second =
      let t = (claim rt a a_checked a_now s).1 in
      let u = (claim rt b b_checked b_now t).1 in
      race_lost a_checked a_now b_checked b_now w v t u
        (claim-IsClaimed rt a a_checked a_now s t w first refl)
        (claim-IsClaimed rt b b_checked b_now t u v second refl)
