-- ===== src/Coordination/Work/Inversion.antt =====
-- What a block has passed that began by finding a session or a work item.
use my_pi.Prelude.{◌≡◌, ap, sym, subst, false, String, some, ℕ, arith}
use my_pi.Prelude.Outcome.{ok}
use my_pi.Coordination.Model.{WorkItem, AgentSession, Actor}
use my_pi.Coordination.Event.{CoordinationEvent, EventBody}
use my_pi.Coordination.Store.{CoordinationDb, get_projection}
use my_pi.Coordination.Tx.{Tx, pure, ◌>>=◌, ◌>>◌}
use my_pi.Coordination.Tx.Moves.{bind-eq-ok}
use my_pi.Coordination.Tx.Inversion.{after_pure}
use my_pi.Coordination.Work.{Runtime, find_item, live_session, session_expired, emit}

pub find_item-eq-ok :
    (rt : Runtime) (id : String) (s : CoordinationDb) (r : WorkItem × CoordinationDb)
    → find_item rt id s ≡ ok r
    → (get_projection id s.work_items ≡ some r.0) × (r.1 ≡ s)
unfolding find_item ◌>>=◌
find_item-eq-ok rt id s r e = ground arith

pub live_session-eq-ok :
    (rt : Runtime) (id : String) (now : ℕ) (s : CoordinationDb) (r : AgentSession × CoordinationDb)
    → live_session rt id now s ≡ ok r
    → (get_projection id s.agent_sessions ≡ some r.0)
      × (session_expired r.0 now ≡ false)
      × (r.1 ≡ s)
unfolding live_session ◌>>=◌
live_session-eq-ok rt id now s r e = ground arith

module _ {ℓ} {B : Type ℓ} (rt : Runtime) (s : CoordinationDb) (r : B × CoordinationDb) where
  pub after_find_item :
      (id : String) (f : WorkItem → Tx B)
      → (find_item rt id >>= f) s ≡ ok r
      → (w : WorkItem) × (get_projection id s.work_items ≡ some w) × (f w s ≡ ok r)
  after_find_item id f e =
      let (q, found, rest) = bind-eq-ok (find_item rt id) f s r e in
      let (there, same) = find_item-eq-ok rt id s q found in
      (q.0, there, subst (λ (t : CoordinationDb). f q.0 t ≡ ok r) same rest)

  pub after_live_session :
      (id : String) (now : ℕ) (f : AgentSession → Tx B)
      → (live_session rt id now >>= f) s ≡ ok r
      → (a : AgentSession) × (get_projection id s.agent_sessions ≡ some a)
        × (session_expired a now ≡ false)
        × (f a s ≡ ok r)
  after_live_session id now f e =
      let (q, found, rest) = bind-eq-ok (live_session rt id now) f s r e in
      let (there, live, same) = live_session-eq-ok rt id now s q found in
      (q.0, there, live, subst (λ (t : CoordinationDb). f q.0 t ≡ ok r) same rest)

-- A block that ends with an event and its result.
pub after_emit-pure {ℓ} :
    {B : Type ℓ} (rt : Runtime) (now : ℕ) (actor : Actor) (body : EventBody) (b : B)
    (s : CoordinationDb) (r : B × CoordinationDb)
    → (emit rt now actor body >> pure b) s ≡ ok r
    → (e : CoordinationEvent) × (emit rt now actor body s ≡ ok (e, r.1)) × (r.0 ≡ b)
after_emit-pure {B} rt now actor body b s r h =
    let (q, em, rest) = bind-eq-ok (emit rt now actor body) (λ _. pure b) s r h in
    let last = after_pure q.1 r b rest in
    (
      q.0,
      subst (λ (t : CoordinationDb). emit rt now actor body s ≡ ok (q.0, t))
          (ap (λ (p : B × CoordinationDb). p.1) last) em,
      sym (ap (λ (p : B × CoordinationDb). p.0) last),
    )
