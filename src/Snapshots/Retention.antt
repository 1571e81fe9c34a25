-- ===== src/Snapshots/Retention.antt =====
-- What `prune` may not remove, and how far it gets.
use my_pi.Prelude.{
  ℕ, ◌+◌, ◌≤◌, ◌≡◌, refl, ap, ◌∙◌, String, List, [], ◌∷◌, Bool, true, false, ◌||◌, arith, str_eq,
  eq_iff, length, inl, inr, ◌⊎◌, any, Bool-cases, leb, leb→le,
}
use my_pi.Prelude.Int.{pos, ◌-ℤ◌}
use my_pi.Prelude.Dict.{Dict, get, has, remove, keys, get-remove}
use my_pi.Prelude.Outcome.{ok}
use my_pi.Snapshots.{
  Bytes, SnapshotStore, is_protected, drop_snapshot, prune_metadata, prune_content, prune_to, prune,
}
use my_pi.Snapshots.Pruning.{
  metadata_stop, metadata_keep, metadata_drop, prune_metadata_rule, prune-eq-ok,
}

is_protected-drop :
    (retain : Bool) (gone id : String) (s : SnapshotStore)
    → str_eq gone id ≡ false
    → is_protected retain id (drop_snapshot gone s) ≡ is_protected retain id s
unfolding is_protected drop_snapshot
is_protected-drop retain gone id s ne = rw (get-remove, ne)

-- Dropping what is not protected leaves what is protected.
record Keeps (retain : Bool) (id : String) (s t : SnapshotStore) : Type 0 where
  metadata : get id t.by_id ≡ get id s.by_id
  protected : is_protected retain id t ≡ true

Keeps-drop :
    (retain : Bool) (id : String) (s : SnapshotStore) (gone : String) (t : SnapshotStore)
    → is_protected retain gone t ≡ false
    → Keeps retain id s t
    → Keeps retain id s (drop_snapshot gone t)
Keeps-drop retain id s gone t free h = elim (Bool-cases (str_eq gone id)) [
  | inl same ↦
      let e : gone ≡ id = (eq_iff gone id).0 same in
      cc (ap (λ (x : String). is_protected retain x t) e)
  | inr ne ↦ record {
    metadata = (unfold drop_snapshot in rw (get-remove, ne) h.metadata);
    protected = is_protected-drop retain gone id t ne ∙ h.protected;
  }
]

unfold_drop :
    (gone : String) (s : SnapshotStore) (id : String)
    → has id (drop_snapshot gone s).by_id ≡ true
    → has id (remove gone s.by_id) ≡ true
unfolding drop_snapshot
unfold_drop gone s id h = h

-- The second loop leaves the metadata, the paths and the pins alone.
by_id-prune_content :
    (l : Dict Bytes) (s : SnapshotStore) (n : ℕ) → (prune_content l s n).0.by_id ≡ s.by_id
unfolding prune_content
by_id-prune_content [] s n = refl
by_id-prune_content ((k, b) ∷ l) s n = ground (
  arith,
  by_id-prune_content l s n,
  by_id-prune_content l
      (record s { content = remove k s.content; bytes_held = s.bytes_held -ℤ pos (length b) })
      (n + 1),
)

module _ (limit : ℕ) (retain : Bool) where
  -- Every snapshot that is still there will be visited, or is protected.
  abbrev Pending : List String → SnapshotStore → Type 0
  Pending ids s =
      (id : String)
      → has id s.by_id ≡ true
      → (any (str_eq id) ids ≡ true) ⊎ (is_protected retain id s ≡ true)

  abbrev Settled : SnapshotStore → Type 0
  Settled s =
      (length s.by_id ≤ limit)
      ⊎ ((id : String) → has id s.by_id ≡ true → is_protected retain id s ≡ true)

  Pending-drop :
      (gone : String) (ids : List String) (s : SnapshotStore)
      → Pending (gone ∷ ids) s
      → Pending ids (drop_snapshot gone s)
  Pending-drop gone ids s p id there = elim (Bool-cases (str_eq gone id)) [
    | inl same ↦
        let lost : has id (remove gone s.by_id) ≡ false = rw (get-remove, same) refl in
        cc (unfold_drop gone s id there, lost)
    | inr ne ↦
        let here : has id s.by_id ≡ true = (rw (get-remove, ne) at (unfold_drop gone s id there)) in
        rw (is_protected-drop retain gone id s ne)
          (ground (arith, p id here, eq_iff id gone, eq_iff gone id))
  ]

  Pending-keep :
      (id : String) (ids : List String) (s : SnapshotStore)
      → is_protected retain id s ≡ true
      → Pending (id ∷ ids) s
      → Pending ids s
  Pending-keep id ids s stays p j there = elim (Bool-cases (str_eq j id)) [
    | inl same ↦
        let e : j ≡ id = (eq_iff j id).0 same in
        inr (ap (λ (x : String). is_protected retain x s) e ∙ stays)
    | inr ne ↦ ground (arith, p j there)
  ]

  prune_metadata-Settled :
      (ids : List String) (s : SnapshotStore) (n : ℕ)
      → Pending ids s
      → Settled (prune_metadata limit retain ids s n).0
  unfolding prune_metadata
  prune_metadata-Settled [] s n p = inr (λ id there. ground (arith, p id there))
  prune_metadata-Settled (id ∷ ids) s n p = elim (Bool-cases (leb (length s.by_id) limit)) [
    | inl stop ↦ rw (metadata_stop limit retain id ids s n stop) (inl (leb→le _ _ stop))
    | inr more ↦ elim (Bool-cases (is_protected retain id s)) [
      | inl stays ↦
          rw (metadata_keep limit retain id ids s n more stays)
            (prune_metadata-Settled ids s n (Pending-keep id ids s stays p))
      | inr goes ↦
          rw (metadata_drop limit retain id ids s n more goes)
            (prune_metadata-Settled ids (drop_snapshot id s) (n + 1) (Pending-drop id ids s p))
    ]
  ]

is_protected-prune_content :
    (retain : Bool) (id : String) (l : Dict Bytes) (s : SnapshotStore) (n : ℕ)
    → is_protected retain id (prune_content l s n).0 ≡ is_protected retain id s
unfolding prune_content is_protected
is_protected-prune_content retain id [] s n = refl
is_protected-prune_content retain id ((k, b) ∷ l) s n =
    elim (has k s.pins || has k s.by_id)
      as (λ t.
        is_protected retain id
          (elim t as (λ _. SnapshotStore × ℕ) [
            | true ↦ prune_content l s n
            | false ↦
                prune_content l
                  (record s {
                    content = remove k s.content;
                    bytes_held = s.bytes_held -ℤ pos (length b);
                  })
                  (n + 1)
          ]).0
        ≡ is_protected retain id s) [
          | true ↦ is_protected-prune_content retain id l s n
          | false ↦
              is_protected-prune_content retain id l
                (record s {
                  content = remove k s.content;
                  bytes_held = s.bytes_held -ℤ pos (length b);
                })
                (n + 1)
        ]

any-keys {ℓ} :
    {V : Type ℓ} (id : String) (m : Dict V) → has id m ≡ true → any (str_eq id) (keys m) ≡ true
unfolding get keys
any-keys id [] h = cc
any-keys id ((k, v) ∷ m) h = ground (arith, any-keys id m, eq_iff k id, eq_iff id k)

-- What a call of `prune` with a bound has done: what was the latest version of a path or is pinned
-- (if pins are kept) is still there, and unless the bound is met, nothing else is.
pub record IsPruned (limit : ℕ) (retain : Bool) (s t : SnapshotStore) : Type 0 where
  pub kept : (id : String) → is_protected retain id s ≡ true → get id t.by_id ≡ get id s.by_id
  pub settled :
      (length t.by_id ≤ limit)
      ⊎ ((id : String) → has id t.by_id ≡ true → is_protected retain id t ≡ true)

prune_to-IsPruned :
    (limit : ℕ) (retain : Bool) (s : SnapshotStore)
    → IsPruned limit retain s (prune_to limit retain s).0
unfolding prune_to
prune_to-IsPruned limit retain s =
    let s' = (prune_metadata limit retain (keys s.by_id) s 0).0 in
    let same = by_id-prune_content s'.content s' 0 in
    record {
      kept = λ id h.
          rw same
            (prune_metadata_rule (Keeps retain id s) limit retain (Keeps-drop retain id s)
              (keys s.by_id) s 0 (record { metadata = refl; protected = h })).metadata;
      settled =
          elim (prune_metadata-Settled limit retain (keys s.by_id) s 0
            (λ id there. inl (any-keys id s.by_id there))) [
              | inl small ↦ inl (rw same small)
              | inr all_protected ↦ inr (λ id there.
                  is_protected-prune_content retain id s'.content s' 0
                  ∙ all_protected id (rw same at there))
            ];
    }

-- A call of `prune` that returns has kept every snapshot that is the latest version of a path or
-- (where pins are retained) pinned, and has come down to `maxMetadata` unless all that is left
-- is protected in this way.
pub prune-IsPruned :
    (limit : ℕ) (retain : Bool) (s : SnapshotStore) (r : SnapshotStore × ℕ × ℕ)
    → prune (pos limit) retain s ≡ ok r
    → IsPruned limit retain s r.0
prune-IsPruned limit retain s r e =
    rw (prune-eq-ok limit retain s r e) at (prune_to-IsPruned limit retain s)
