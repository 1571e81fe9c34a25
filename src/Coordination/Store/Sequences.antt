-- ===== src/Coordination/Store/Sequences.antt =====
-- The event log: its sequence numbers and its identifiers.
use my_pi.Prelude.{
  ℕ, suc, ◌+◌, ◌≡◌, refl, ap, sym, subst, ◌∙◌, String, List, [], ◌∷◌, ◌++◌, Bool, true, false,
  arith, str_eq, eq_iff, if◌then◌else◌, any, ◌||◌, inl, inr, Bool-cases, length,
}
use my_pi.Prelude.Outcome.{ok-injective, ok}
use my_pi.Coordination.Event.{CoordinationEvent, AppendEventInput, EventBody}
use my_pi.Coordination.Store.{
  CoordinationDb, max_sequence, next_sequence, insert_event, append_event, event_of, given_or,
  apply_event_projection,
}
use Prim.Native.Nat.{max}

-- The events of a project after number `n` are numbered n + 1, n + 2, … in the order of the log.
abbrev pub IsNumbered : String → ℕ → List CoordinationEvent → Type 0
IsNumbered p n [] = Unit
IsNumbered p n (e ∷ es) =
    if str_eq e.project_id p
    then (e.sequence ≡ suc n) × IsNumbered p (suc n) es
    else IsNumbered p n es

-- How many events of the log are a project's.
abbrev pub count_of : String → List CoordinationEvent → ℕ
count_of p [] = 0
count_of p (e ∷ es) = (if str_eq e.project_id p then 1 else 0) + count_of p es

max_sequence-IsNumbered :
    (p : String) (n : ℕ) (es : List CoordinationEvent)
    → IsNumbered p n es
    → max n (max_sequence p es) ≡ n + count_of p es
unfolding max_sequence
max_sequence-IsNumbered p n [] h = omega arith
max_sequence-IsNumbered p n (e ∷ es) h = elim (Bool-cases (str_eq e.project_id p)) [
  | inl mine ↦
      let h' : (e.sequence ≡ suc n) × IsNumbered p (suc n) es = rw mine at h in
      rw mine (omega (arith, h'.0, max_sequence-IsNumbered p (suc n) es h'.1))
  | inr other ↦
      let h' : IsNumbered p n es = rw other at h in
      rw other (omega (arith, max_sequence-IsNumbered p n es h'))
]

IsNumbered-append :
    (p : String) (n : ℕ) (es : List CoordinationEvent) (e : CoordinationEvent)
    → IsNumbered p n es
    → (str_eq e.project_id p ≡ true → e.sequence ≡ suc (n + count_of p es))
    → IsNumbered p n (es ++ e ∷ [])
IsNumbered-append p n [] e h next = elim (Bool-cases (str_eq e.project_id p)) [
  | inl mine ↦ rw mine (omega (arith, next mine), tt)
  | inr other ↦ rw other tt
]
IsNumbered-append p n (o ∷ es) e h next = elim (Bool-cases (str_eq o.project_id p)) [
  | inl mine ↦
      let h' : (o.sequence ≡ suc n) × IsNumbered p (suc n) es = rw mine at h in
      let next' : str_eq e.project_id p ≡ true → e.sequence ≡ suc (suc n + count_of p es) =
        λ t. omega (arith, rw mine at (next t)) in
      rw mine (h'.0, IsNumbered-append p (suc n) es e h'.1 next')
  | inr other ↦
      let h' : IsNumbered p n es = rw other at h in
      let next' : str_eq e.project_id p ≡ true → e.sequence ≡ suc (n + count_of p es) =
        λ t. omega (arith, rw other at (next t)) in
      rw other (IsNumbered-append p n es e h' next')
]

-- No two events have one identifier.
abbrev pub IsDistinct : List CoordinationEvent → Type 0
IsDistinct [] = Unit
IsDistinct (e ∷ es) =
    (any (λ (o : CoordinationEvent). str_eq o.event_id e.event_id) es ≡ false) × IsDistinct es

any-append {ℓ} :
    {A : Type ℓ} (q : A → Bool) (xs : List A) (x : A) → any q (xs ++ x ∷ []) ≡ (any q xs || q x)
any-append q [] x = ground arith
any-append q (y ∷ xs) x = ground (arith, any-append q xs x)

IsDistinct-append :
    (es : List CoordinationEvent) (e : CoordinationEvent)
    → IsDistinct es
    → any (λ (o : CoordinationEvent). str_eq o.event_id e.event_id) es ≡ false
    → IsDistinct (es ++ e ∷ [])
IsDistinct-append [] e h fresh = (refl, tt)
IsDistinct-append (o ∷ es) e h fresh = (
  any-append (λ (q : CoordinationEvent). str_eq q.event_id o.event_id) es e
      ∙ ground (arith, eq_iff e.event_id o.event_id, eq_iff o.event_id e.event_id),
  IsDistinct-append es e h.1 (ground arith),
)

-- What the log is at any time.
pub record IsLog (log : List CoordinationEvent) : Type 0 where
  pub numbered : (p : String) → IsNumbered p 0 log
  pub distinct : IsDistinct log

pub event_log-apply :
    (body : EventBody) (e : CoordinationEvent) (db : CoordinationDb)
    → (apply_event_projection body e db).event_log ≡ db.event_log
unfolding apply_event_projection
event_log-apply (EventBody.project_opened p) e db = refl
event_log-apply _ e db = ground arith

-- What an append that returns has done.
pub record Appended (input : AppendEventInput) (e : CoordinationEvent) (s t : CoordinationDb)
    : Type 0 where
  pub stored : t ≡ apply_event_projection e.body e (record s { event_log = s.event_log ++ e ∷ [] })
  pub next_number : e.sequence ≡ suc (max_sequence input.project_id s.event_log)
  pub own_project : e.project_id ≡ input.project_id
  pub own_body : e.body ≡ input.body
  pub own_time : e.occurred_at ≡ input.occurred_at
  pub fresh : any (λ (o : CoordinationEvent). str_eq o.event_id e.event_id) s.event_log ≡ false

abbrev put_in_log : CoordinationEvent → CoordinationDb → CoordinationDb
put_in_log e s = apply_event_projection e.body e (record s { event_log = s.event_log ++ e ∷ [] })

insert_event-eq-ok :
    (o : CoordinationEvent) (s : CoordinationDb) (r : CoordinationEvent × CoordinationDb)
    → insert_event o s ≡ ok r
    → (any (λ (q : CoordinationEvent). str_eq q.event_id o.event_id) s.event_log ≡ false)
      × (◌≡◌ {A = CoordinationEvent × CoordinationDb} (o, put_in_log o s) r)
unfolding insert_event
insert_event-eq-ok o s r h =
    elim (Bool-cases (any (λ (q : CoordinationEvent). str_eq q.event_id o.event_id) s.event_log)) [
      | inl there ↦ cc (rw there at h)
      | inr new ↦ (new, ok-injective _ _ (rw new at h))
    ]

append_event-insert :
    (create : ℕ → String) (input : AppendEventInput) (s : CoordinationDb)
    (r : CoordinationEvent × CoordinationDb)
    → append_event create input s ≡ ok r
    → insert_event
        (event_of input
          (max_sequence input.project_id s.event_log + 1)
          (given_or input.event_id (create (length s.event_log))))
        s
      ≡ ok r
unfolding append_event next_sequence
append_event-insert create input s r h = ground arith

pub append_event-Appended :
    (create : ℕ → String) (input : AppendEventInput) (s : CoordinationDb)
    (r : CoordinationEvent × CoordinationDb)
    → append_event create input s ≡ ok r
    → Appended input r.0 s r.1
append_event-Appended create input s r h =
    let o =
      event_of input (max_sequence input.project_id s.event_log + 1)
        (given_or input.event_id (create (length s.event_log))) in
    let (fresh, e) = insert_event-eq-ok o s r (append_event-insert create input s r h) in
    subst (λ (q : CoordinationEvent × CoordinationDb). Appended input q.0 s q.1) e
      (record {
        stored = refl;
        next_number = omega arith;
        own_project = refl;
        own_body = refl;
        own_time = refl;
        fresh = fresh;
      })

-- An appended event is the next of its project, under an identifier of its own.
pub Appended-IsLog :
    (input : AppendEventInput) (e : CoordinationEvent) (s t : CoordinationDb)
    → Appended input e s t
    → IsLog s.event_log
    → IsLog t.event_log
Appended-IsLog input e s t a h =
    let log : t.event_log ≡ s.event_log ++ e ∷ [] =
      ap (λ (db : CoordinationDb). db.event_log) a.stored ∙ event_log-apply e.body e _ in
    rw log (record {
      numbered = λ p. IsNumbered-append p 0 s.event_log e (h.numbered p) (λ mine.
          let same : input.project_id ≡ p = sym a.own_project ∙ (eq_iff e.project_id p).0 mine in
          omega (
            arith,
            a.next_number,
            max_sequence-IsNumbered p 0 s.event_log (h.numbered p),
            ap (λ (q : String). max_sequence q s.event_log) same,
          ));
      distinct = IsDistinct-append s.event_log e h.distinct a.fresh;
    })
