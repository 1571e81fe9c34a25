-- ===== src/Snapshots/Soundness.antt =====
-- What holds of a snapshot store between two calls, and that each call keeps it.
use my_pi.Prelude.{
  ℕ, ◌+◌, ◌≤◌, ◌≡◌, ap, ◌∙◌, String, Option, none, some, List, true, false, arith, eq_iff, length,
  inl, inr, Bool-cases, ltb,
}
use my_pi.Prelude.Int.{ℤ, pos, ◌+ℤ◌, pos_part, neg_part, int_laws}
use my_pi.Prelude.Dict.{Dict, get, has, put, get-put, get-remove}
use my_pi.Prelude.Outcome.{ok}
use my_pi.Snapshots.{
  Bytes, SnapshotStore, SnapshotInput, evict_if_needed, cache_content, record_snapshot, released,
  invalidate, pin, unpin, unpin_owners,
}
use my_pi.Snapshots.Keys.{IsUnique, put-IsUnique, remove_absent}
use my_pi.Snapshots.Bytes.{
  total, size_of, total-put, evict-balance, evict-bound, evict-IsUnique, total-evict-le, get-evict,
}

pub record IsSound (s : SnapshotStore) : Type 0 where
  pub ids_unique : IsUnique s.by_id
  pub content_unique : IsUnique s.content
  pub counted : s.bytes_held ≡ pos (total s.content)
  pub bounded : total s.content ≤ s.max_cache_bytes
  pub latest_known :
      (path id : String) → get path s.latest_by_path ≡ some id → has id s.by_id ≡ true

-- The count after an eviction that started from an exact count.
counted-evict :
    (limit incoming : ℕ) (m : Dict Bytes) (held : ℤ)
    → held ≡ pos (total m)
    → (evict_if_needed limit incoming m held).1
      ≡ pos (total (evict_if_needed limit incoming m held).0)
counted-evict limit incoming m held h =
    let e = evict-balance limit incoming m held in
    omega (int_laws, ap pos_part e, ap neg_part e, ap pos_part h, ap neg_part h)

has-put {ℓ} :
    {V : Type ℓ} (k j : String) (v : V) (m : Dict V) → has j m ≡ true → has j (put k v m) ≡ true
has-put k j v m h = ground (arith, get-put k j v m)

pub record_snapshot-IsSound :
    (id : String) (input : SnapshotInput) (s : SnapshotStore)
    → IsSound s
    → IsSound (record_snapshot id input s)
unfolding record_snapshot
record_snapshot-IsSound id input s h = record {
  ids_unique = put-IsUnique id _ s.by_id h.ids_unique;
  content_unique =
      evict-IsUnique s.max_cache_bytes input.size s.content s.bytes_held h.content_unique;
  counted = counted-evict s.max_cache_bytes input.size s.content s.bytes_held h.counted;
  bounded =
      omega (arith, h.bounded, total-evict-le s.max_cache_bytes input.size s.content s.bytes_held);
  latest_known = λ path j e. ground (
    arith,
    h.latest_known path j,
    get-put input.path path id s.latest_by_path,
    get-put id j (record { id = id; input = input }) s.by_id,
    eq_iff id j,
  );
}

pub released_lem :
    (o : Option Bytes) (held : ℤ)
    → pos_part (released o held) + neg_part held + size_of o
      ≡ neg_part (released o held) + pos_part held
released_lem none held = omega arith
released_lem (some b) held = omega int_laws

-- What `cacheContent` does to the count, from an exact one: it takes off the bytes that the
-- identifier had, and the eviction takes them off once more if it reaches that entry.
module _ (limit : ℕ) (id : String) (b : Bytes) (m : Dict Bytes) (held : ℤ) where
  abbrev pub kept_entries : Dict Bytes
  kept_entries = (evict_if_needed limit (length b) m (released (get id m) held)).0

  pub recached_count :
      held ≡ pos (total m)
      → (evict_if_needed limit (length b) m (released (get id m) held)).1
          +ℤ pos (length b)
          +ℤ pos (size_of (get id m))
        ≡ pos (total (put id b kept_entries) + size_of (get id kept_entries))
  recached_count h =
      let e = evict-balance limit (length b) m (released (get id m) held) in
      omega (
        int_laws,
        ap pos_part e,
        ap neg_part e,
        ap pos_part h,
        ap neg_part h,
        total-put id b kept_entries,
        released_lem (get id m) held,
      )

pub cached-bound :
    (limit : ℕ) (id : String) (b : Bytes) (m : Dict Bytes) (held : ℤ)
    → held ≡ pos (total m)
    → length b ≤ limit
    → total (put id b (evict_if_needed limit (length b) m held).0) ≤ limit
unfolding total put
cached-bound limit id b m held h fits = elim (evict-bound limit (length b) m held h) [
  | inl e ↦ rw e (omega arith)
  | inr r ↦ omega (arith, total-put id b (evict_if_needed limit (length b) m held).0)
]

get-evict_absent :
    (limit incoming : ℕ) (m : Dict Bytes) (held : ℤ) (id : String)
    → IsUnique m
    → get id m ≡ none
    → get id (evict_if_needed limit incoming m held).0 ≡ none
get-evict_absent limit incoming m held id u absent = elim (get-evict limit incoming m held id u) [
  | inl gone ↦ gone
  | inr same ↦ same ∙ absent
]

fresh_count :
    (limit : ℕ) (id : String) (b : Bytes) (m : Dict Bytes) (held : ℤ)
    → held ≡ pos (total m)
    → IsUnique m
    → get id m ≡ none
    → (evict_if_needed limit (length b) m held).1 +ℤ pos (length b)
      ≡ pos (total (put id b (evict_if_needed limit (length b) m held).0))
fresh_count limit id b m held h u absent =
    let kept = (evict_if_needed limit (length b) m held).0 in
    let e = evict-balance limit (length b) m held in
    let z = ap size_of (get-evict_absent limit (length b) m held id u absent) in
    omega
      (int_laws, ap pos_part e, ap neg_part e, ap pos_part h, ap neg_part h, total-put id b kept, z)

cache_small-IsSound :
    (id : String) (bytes : Bytes) (s : SnapshotStore)
    → ltb s.max_cache_bytes (length bytes) ≡ false
    → get id s.content ≡ none
    → IsSound s
    → IsSound (cache_content id bytes s)
unfolding cache_content
cache_small-IsSound id bytes s small absent h = rw small (
    rw absent (record {
      ids_unique = h.ids_unique;
      content_unique =
          put-IsUnique id bytes _ (
            evict-IsUnique s.max_cache_bytes (length bytes) s.content s.bytes_held
              h.content_unique);
      counted =
          fresh_count s.max_cache_bytes id bytes s.content s.bytes_held h.counted h.content_unique
            absent;
      bounded =
          cached-bound s.max_cache_bytes id bytes s.content s.bytes_held h.counted (ground arith);
      latest_known = h.latest_known;
    }))

pub cache_content-IsSound :
    (id : String) (bytes : Bytes) (s : SnapshotStore)
    → get id s.content ≡ none
    → IsSound s
    → IsSound (cache_content id bytes s)
unfolding cache_content
cache_content-IsSound id bytes s absent h =
    elim (Bool-cases (ltb s.max_cache_bytes (length bytes))) [
      | inl big ↦ rw big (
          rw (absent, remove_absent id s.content absent)
            (record {
              ids_unique = h.ids_unique;
              content_unique = h.content_unique;
              counted = h.counted;
              bounded = h.bounded;
              latest_known = h.latest_known;
            }))
      | inr small ↦ cache_small-IsSound id bytes s small absent h
    ]

pub invalidate-IsSound :
    (path : String) (s : SnapshotStore) → IsSound s → IsSound (invalidate path s)
unfolding invalidate
invalidate-IsSound path s h = record {
  ids_unique = h.ids_unique;
  content_unique = h.content_unique;
  counted = h.counted;
  bounded = h.bounded;
  latest_known = λ p j e. ground (arith, h.latest_known p j, get-remove path p s.latest_by_path);
}

pub unpin-IsSound : (id owner : String) (s : SnapshotStore) → IsSound s → IsSound (unpin id owner s)
unfolding unpin
unpin-IsSound id owner s h = go (get id s.pins)
  where
    go : (o : Option (List String)) → IsSound (unpin_owners id owner o s)
    go none = h
    go (some os) = record {
      ids_unique = h.ids_unique;
      content_unique = h.content_unique;
      counted = h.counted;
      bounded = h.bounded;
      latest_known = h.latest_known;
    }

pub pin-IsSound :
    (id owner : String) (s t : SnapshotStore) → pin id owner s ≡ ok t → IsSound s → IsSound t
unfolding pin
pin-IsSound id owner s t e h = ground arith
