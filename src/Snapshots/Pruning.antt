-- ===== src/Snapshots/Pruning.antt =====
-- `prune` keeps a sound store sound: rules for its two loops.
use my_pi.Prelude.{
  leb, ◌≢◌, ℕ, ◌+◌, ◌≡◌, ap, String, none, some, List, [], ◌∷◌, Bool, true, false, ◌||◌, arith,
  str_eq, eq_iff, length, inl, inr, any, All, Bool-cases,
}
use my_pi.Prelude.Int.{ℤ, pos, negsuc, ◌-ℤ◌, pos_part, neg_part, int_laws}
use my_pi.Prelude.Dict.{Dict, get, has, remove, values, keys, get-remove, str_eq_refl}
use my_pi.Prelude.Outcome.{ok}
use my_pi.Snapshots.{
  Bytes, SnapshotStore, is_protected, drop_snapshot, prune_metadata, prune_content, prune_to, prune,
}
use my_pi.Snapshots.Keys.{IsUnique, remove-IsUnique}
use my_pi.Snapshots.Bytes.{size_of, total-remove}
use my_pi.Snapshots.Soundness.{IsSound, released_lem}

-- A snapshot that is not protected is not the latest of any path.
any-values :
    (id : String) (path : String) (m : Dict String)
    → any (str_eq id) (values m) ≡ false
    → get path m ≢ some id
unfolding values get
any-values id path [] h e = cc
any-values id path ((p, v) ∷ m) h e =
    ground (arith, any-values id path m, str_eq_refl id, eq_iff id v)

drop_snapshot-IsSound :
    (retain : Bool) (id : String) (s : SnapshotStore)
    → is_protected retain id s ≡ false
    → IsSound s
    → IsSound (drop_snapshot id s)
unfolding drop_snapshot is_protected
drop_snapshot-IsSound retain id s free h = record {
  ids_unique = remove-IsUnique id s.by_id h.ids_unique;
  content_unique = remove-IsUnique id s.content h.content_unique;
  counted =
      let e = total-remove id s.content h.content_unique in
      omega (
        int_laws,
        ap pos_part h.counted,
        ap neg_part h.counted,
        e,
        released_lem (get id s.content) s.bytes_held,
      );
  bounded = omega (arith, h.bounded, total-remove id s.content h.content_unique);
  latest_known = λ path j e. ground (
    arith,
    h.latest_known path j,
    get-remove id j s.by_id,
    any-values id path s.latest_by_path,
    eq_iff id j,
  );
}

-- The three ways through the first loop of `prune`.
module _ (limit : ℕ) (retain : Bool) (id : String) (ids : List String) (s : SnapshotStore)
    (n : ℕ) where
  pub metadata_stop :
      leb (length s.by_id) limit ≡ true → prune_metadata limit retain (id ∷ ids) s n ≡ (s, n)
  unfolding prune_metadata
  metadata_stop h = ground arith

  pub metadata_keep :
      leb (length s.by_id) limit ≡ false
      → is_protected retain id s ≡ true
      → prune_metadata limit retain (id ∷ ids) s n ≡ prune_metadata limit retain ids s n
  unfolding prune_metadata
  metadata_keep h k = ground arith

  pub metadata_drop :
      leb (length s.by_id) limit ≡ false
      → is_protected retain id s ≡ false
      → prune_metadata limit retain (id ∷ ids) s n
        ≡ prune_metadata limit retain ids (drop_snapshot id s) (n + 1)
  unfolding prune_metadata
  metadata_drop h k = ground arith

-- A rule for the first loop of `prune`.
module _ {ℓ} (P : SnapshotStore → Type ℓ) (limit : ℕ) (retain : Bool)
    (keep : (id : String) (s : SnapshotStore)
      → is_protected retain id s ≡ false
      → P s
      → P (drop_snapshot id s)) where
  pub prune_metadata_rule :
      (ids : List String) (s : SnapshotStore) (n : ℕ)
      → P s
      → P (prune_metadata limit retain ids s n).0
  unfolding prune_metadata
  prune_metadata_rule [] s n h = h
  prune_metadata_rule (id ∷ ids) s n h = elim (Bool-cases (leb (length s.by_id) limit)) [
    | inl stop ↦ rw (metadata_stop limit retain id ids s n stop) h
    | inr more ↦ elim (Bool-cases (is_protected retain id s)) [
      | inl stays ↦
          rw (metadata_keep limit retain id ids s n more stays) (prune_metadata_rule ids s n h)
      | inr goes ↦
          rw (metadata_drop limit retain id ids s n more goes)
            (prune_metadata_rule ids (drop_snapshot id s) (n + 1) (keep id s goes h))
    ]
  ]

-- The second loop works on entries that the cache holds.
abbrev IsHeld : Dict Bytes → SnapshotStore → Type 0
IsHeld l s = All (λ (e : String × Bytes). get e.0 s.content ≡ some e.1) l

abbrev discard : String → Bytes → SnapshotStore → SnapshotStore
discard id b s = record s {
  content = remove id s.content;
  bytes_held = s.bytes_held -ℤ pos (length b);
}

IsHeld-discard :
    (id : String) (b : Bytes) (l : Dict Bytes) (s : SnapshotStore)
    → get id l ≡ none
    → IsHeld l s
    → IsHeld l (discard id b s)
unfolding get
IsHeld-discard id b [] s a h = tt
IsHeld-discard id b ((k, c) ∷ l) s a h =
    ground (arith, IsHeld-discard id b l s, get-remove id k s.content, eq_iff k id, eq_iff id k)

discard-IsSound :
    (id : String) (b : Bytes) (s : SnapshotStore)
    → get id s.content ≡ some b
    → IsSound s
    → IsSound (discard id b s)
discard-IsSound id b s e h = record {
  ids_unique = h.ids_unique;
  content_unique = remove-IsUnique id s.content h.content_unique;
  counted =
      let t = total-remove id s.content h.content_unique in
      omega (int_laws, ap pos_part h.counted, ap neg_part h.counted, t, ap size_of e);
  bounded = omega (arith, h.bounded, total-remove id s.content h.content_unique);
  latest_known = h.latest_known;
}

-- Each entry of a map with unique keys is the one that its key finds.
IsHeld-extend :
    (k : String) (c : Bytes) (l m : Dict Bytes)
    → get k l ≡ none
    → All (λ (e : String × Bytes). get e.0 m ≡ some e.1) l
    → All (λ (e : String × Bytes). get e.0 ((k, c) ∷ m) ≡ some e.1) l
unfolding get
IsHeld-extend k c [] m a h = tt
IsHeld-extend k c ((j, d) ∷ l) m a h = ground (arith, IsHeld-extend k c l m, eq_iff k j, eq_iff j k)

IsHeld_self : (m : Dict Bytes) → IsUnique m → All (λ (e : String × Bytes). get e.0 m ≡ some e.1) m
IsHeld_self [] u = tt
IsHeld_self ((k, c) ∷ m) u =
    (unfold get in rw (str_eq_refl k), IsHeld-extend k c m m u.0 (IsHeld_self m u.1))

prune_content-IsSound :
    (l : Dict Bytes) (s : SnapshotStore) (n : ℕ)
    → IsUnique l
    → IsHeld l s
    → IsSound s
    → IsSound (prune_content l s n).0
unfolding prune_content
prune_content-IsSound [] s n u a h = h
prune_content-IsSound ((id, b) ∷ l) s n u a h =
    elim (has id s.pins || has id s.by_id)
      as (λ t.
        IsSound
          (elim t as (λ _. SnapshotStore × ℕ) [
            | true ↦ prune_content l s n
            | false ↦ prune_content l (discard id b s) (n + 1)
          ]).0) [
            | true ↦ prune_content-IsSound l s n u.1 a.1 h
            | false ↦
                prune_content-IsSound l (discard id b s) (n + 1) u.1
                  (IsHeld-discard id b l s u.0 a.1) (discard-IsSound id b s a.0 h)
          ]

pub prune_to-IsSound :
    (limit : ℕ) (retain : Bool) (s : SnapshotStore)
    → IsSound s
    → IsSound (prune_to limit retain s).0
unfolding prune_to
prune_to-IsSound limit retain s h =
    let s' = (prune_metadata limit retain (keys s.by_id) s 0).0 in
    let h' =
      prune_metadata_rule IsSound limit retain (drop_snapshot-IsSound retain) (keys s.by_id) s 0
        h in
    prune_content-IsSound s'.content s' 0 h'.content_unique
      (IsHeld_self s'.content h'.content_unique) h'

pub prune-eq-ok :
    (limit : ℕ) (retain : Bool) (s : SnapshotStore) (r : SnapshotStore × ℕ × ℕ)
    → prune (pos limit) retain s ≡ ok r
    → prune_to limit retain s ≡ r
unfolding prune
prune-eq-ok limit retain s r e = ground arith

pub prune_negative :
    (n : ℕ) (retain : Bool) (s : SnapshotStore) (r : SnapshotStore × ℕ × ℕ)
    → prune (negsuc n) retain s ≢ ok r
unfolding prune
prune_negative n retain s r e = cc

-- A call of `prune` that does not throw leaves a sound store.
pub prune-IsSound :
    (limit : ℤ) (retain : Bool) (s : SnapshotStore) (r : SnapshotStore × ℕ × ℕ)
    → prune limit retain s ≡ ok r
    → IsSound s
    → IsSound r.0
prune-IsSound (negsuc n) retain s r e h = absurd (prune_negative n retain s r e)
prune-IsSound (pos limit) retain s r e h =
    rw (prune-eq-ok limit retain s r e) at (prune_to-IsSound limit retain s h)
