-- ===== src/Coordination/Join/Leases.antt =====
-- How long a session is live that has joined, or that `sync` has renewed.
use Prim.Native.Nat.{max}
use my_pi.Prelude.{
  ℕ, ◌+◌, ◌≡◌, refl, ap, sym, subst, ◌∙◌, String, some, Bool, true, false, not, arith, leb,
  if◌then◌else◌, Bool-cases, inl, inr,
}
use my_pi.Prelude.Dict.{str_eq_refl}
use my_pi.Prelude.Text.{truthy}
use my_pi.Prelude.Outcome.{ok, err, agent_session_expired}
use my_pi.Coordination.Model.{AgentSession, Actor}
use my_pi.Coordination.Event.{CoordinationEvent, agent_joined}
use my_pi.Coordination.Store.{CoordinationDb, get_projection, apply_event_projection}
use my_pi.Coordination.Tx.{pure, read, or_throw, check, modify, ◌>>=◌, ◌>>◌, transact}
use my_pi.Coordination.Tx.Inversion.{after_check, after_modify, after_pure, transact-eq-ok}
use my_pi.Coordination.Tx.Moves.{bind-eq-ok}
use my_pi.Coordination.Work.{
  Runtime, emit, live_session, session_expired, is_expired_status, default_lease_ms,
}
use my_pi.Coordination.Work.Emission.{emit-eq-apply, get_projection-put_projection}
use my_pi.Coordination.Work.Inversion.{after_live_session}
use my_pi.Coordination.Join.{
  JoinInput, JoinResult, SessionLease, lease_ok, lease_for, joined_session, open_project, join_tx,
  join, join_input_ok,
}
use my_pi.Coordination.Sync.{SyncInput, with_heartbeat, heartbeat_tx}

-- The session is accepted before the default lease after a time is over, and refused from then on.
abbrev pub IsLiveFrom : Runtime → CoordinationDb → String → AgentSession → ℕ → Type 0
IsLiveFrom rt db id session start =
    (later : ℕ)
    → live_session rt id later db ≡ (
        if leb (start + default_lease_ms) later
        then err agent_session_expired
        else ok (session, db))

checked :
    (b : Bool) (session : AgentSession) (db : CoordinationDb)
    → (check (not b) agent_session_expired >> pure session) db
      ≡ (if b then err agent_session_expired else ok (session, db))
unfolding check pure ◌>>=◌
checked true session db = refl
checked false session db = refl

stored-IsLiveFrom :
    (rt : Runtime) (db : CoordinationDb) (id : String) (session : AgentSession)
    → get_projection id db.agent_sessions ≡ some session
    → is_expired_status session.status ≡ false
    → IsLiveFrom rt db id session session.heartbeat_at
unfolding live_session session_expired read or_throw check pure ◌>>=◌
stored-IsLiveFrom rt db id session there active later =
    rw (there, active) (checked (leb (session.heartbeat_at + default_lease_ms) later) session db)

-- What `join` has done when it returns.
pub record IsJoined (rt : Runtime) (lease_ms : ℕ) (input : JoinInput) (id : String) (now : ℕ)
    (result : JoinResult) (t : CoordinationDb) : Type 0 where
  pub own_session : result.agent_session_id ≡ id
  pub stored : get_projection id t.agent_sessions ≡ some (joined_session rt lease_ms now input id)
  pub live : IsLiveFrom rt t id (joined_session rt lease_ms now input id) now
  pub promised : result.lease.expires_at ≡ now + lease_ms
  pub bounded : lease_ok lease_ms ≡ true

module _ (rt : Runtime) (lease_ms : ℕ) (input : JoinInput) (id : String) (now : ℕ) where
  joined_stored :
      (s : CoordinationDb) (r : CoordinationEvent × CoordinationDb)
      → truthy id ≡ true
      → emit rt now
          (Actor.agent_session id)
          (agent_joined (joined_session rt lease_ms now input id))
          s
        ≡ ok r
      → get_projection id r.1.agent_sessions ≡ some (joined_session rt lease_ms now input id)
  unfolding apply_event_projection
  joined_stored s r named h =
      ap (λ (db : CoordinationDb). get_projection id db.agent_sessions)
        (emit-eq-apply rt now _ (agent_joined (joined_session rt lease_ms now input id)) s r h)
      ∙ rw named (
          get_projection-put_projection id id (joined_session rt lease_ms now input id) _ _
            s.agent_sessions
          ∙ rw (str_eq_refl id) refl)

  lease_for-eq-ok :
      (s : CoordinationDb) (r : SessionLease × CoordinationDb)
      → lease_for rt lease_ms now s ≡ ok r
      → (lease_ok lease_ms ≡ true) × (r.0.expires_at ≡ now + lease_ms) × (r.1 ≡ s)
  unfolding lease_for
  lease_for-eq-ok s r h =
      let (fits, h₁) = after_check s r (lease_ok lease_ms) _ _ h in
      let last = after_pure s r _ h₁ in
      (
        fits,
        sym (ap (λ (p : SessionLease × CoordinationDb). p.0.expires_at) last),
        sym (ap (λ (p : SessionLease × CoordinationDb). p.1) last),
      )

  join_tx-IsJoined :
      (s : CoordinationDb) (r : JoinResult × CoordinationDb)
      → truthy id ≡ true
      → join_tx rt lease_ms now input id s ≡ ok r
      → IsJoined rt lease_ms input id now r.0 r.1
  unfolding join_tx
  join_tx-IsJoined s r named h =
      let (n, opened, h₁) = bind-eq-ok (open_project rt lease_ms now input) _ s r h in
      let h₂ = after_modify n.1 r _ _ h₁ in
      let h₃ = after_modify _ r _ _ h₂ in
      let (e, emitted, h₄) = bind-eq-ok (emit rt now _ _) _ _ r h₃ in
      let (l, leased, h₅) = bind-eq-ok (lease_for rt lease_ms now) _ e.1 r h₄ in
      let (fits, promised, same) = lease_for-eq-ok e.1 l leased in
      let last = after_pure l.1 r _ h₅ in
      let there = joined_stored _ e named emitted in
      subst (λ (p : JoinResult × CoordinationDb). IsJoined rt lease_ms input id now p.0 p.1)
        (ap
            (λ t. (
              record {
                project_id = rt.project_id;
                agent_session_id = id;
                current_sequence = max e.0.sequence n.0;
                lease = l.0;
              },
              t,
            ))
            (sym same)
          ∙ last)
        (record {
          own_session = refl;
          stored = there;
          live = stored-IsLiveFrom rt e.1 id (joined_session rt lease_ms now input id) there refl;
          promised = promised;
          bounded = fits;
        })

  -- A `join` that returns has stored the session under its new identifier, if that is not empty:
  -- the session is accepted at every time before 30 seconds after the join and refused from then on,
  -- while the lease that the result promises is that of the runtime's option, from 1 second to 24
  -- hours.
  pub join-IsJoined :
      (db : CoordinationDb) (result : JoinResult)
      → truthy id ≡ true
      → (join rt lease_ms input id now db).0 ≡ ok result
      → IsJoined rt lease_ms input id now result (join rt lease_ms input id now db).1
  unfolding join
  join-IsJoined db result named h = elim (Bool-cases (join_input_ok input rt.project_id)) [
    | inl valid ↦
        rw (valid, join)
          (join_tx-IsJoined db _ named
            (transact-eq-ok (join_tx rt lease_ms now input id) db result (rw (valid, join) at h)))
    | inr invalid ↦ cc (rw (join, invalid) at h)
  ]

modified :
    (f : CoordinationDb → CoordinationDb) (s t : CoordinationDb) → modify f s ≡ ok (tt, t) → f s ≡ t
unfolding modify
modified f s t h = ground (arith, h)

not_expired :
    (session : AgentSession) (now : ℕ)
    → session_expired session now ≡ false
    → is_expired_status session.status ≡ false
unfolding session_expired
not_expired session now h = ground (arith, h)

-- A heartbeat that returns, of a session that is stored under its own identifier, renews it: it is
-- accepted at every time before 30 seconds after the heartbeat and refused from then on.
pub heartbeat-IsLiveFrom :
    (rt : Runtime) (input : SyncInput) (checked_at now : ℕ) (db : CoordinationDb)
    (session : AgentSession)
    → get_projection input.agent_session_id db.agent_sessions ≡ some session
    → session.id ≡ input.agent_session_id
    → (transact (heartbeat_tx rt input checked_at now) db).0 ≡ ok tt
    → IsLiveFrom rt
        (transact (heartbeat_tx rt input checked_at now) db).1
        input.agent_session_id
        (record session { heartbeat_at = now })
        now
unfolding heartbeat_tx
heartbeat-IsLiveFrom rt input checked_at now db session there own h =
    let done = transact-eq-ok (heartbeat_tx rt input checked_at now) db tt h in
    let (a, found, live, h₁) =
      after_live_session rt db _ input.agent_session_id checked_at _ done in
    let same : a ≡ session = ground (arith, sym found ∙ there) in
    let renewed = record session { heartbeat_at = now } in
    let t = with_heartbeat rt input now session db in
    let left : t ≡ (transact (heartbeat_tx rt input checked_at now) db).1 = modified _ db _ (
      subst
        (λ b.
          modify (with_heartbeat rt input now b) db
          ≡ ok (tt, (transact (heartbeat_tx rt input checked_at now) db).1))
        same h₁) in
    let put : get_projection input.agent_session_id t.agent_sessions ≡ some renewed =
      get_projection-put_projection session.id input.agent_session_id renewed _ _ db.agent_sessions
      ∙ rw (own, str_eq_refl input.agent_session_id) refl in
    let active : is_expired_status session.status ≡ false =
      not_expired session checked_at (ap (λ b. session_expired b checked_at) (sym same) ∙ live) in
    subst (λ u. IsLiveFrom rt u input.agent_session_id renewed now) left
      (stored-IsLiveFrom rt t input.agent_session_id renewed put active)
