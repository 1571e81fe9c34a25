-- ===== src/Snapshots/Resolution.antt =====
-- Looking up snapshots by identifier, path and anchor.
use my_pi.Prelude.{
  ◌≡◌, ◌≢◌, refl, String, Option, none, some, true, false, arith, str_eq, eq_iff, if◌then◌else◌,
  inl, inr, Option-cases,
}
use my_pi.Prelude.Dict.{get, has, get-put, get-remove, str_eq_refl}
use my_pi.Prelude.Outcome.{ok}
use my_pi.Snapshots.{
  SnapshotStore, SnapshotInput, record_snapshot, invalidate, latest_for, follow, resolve,
}
use my_pi.Snapshots.Soundness.{IsSound}

-- After `record` under a new identifier, the latest version of the recorded path is the new
-- snapshot, and that of every other path is what it was.
pub latest_for-record_snapshot :
    (id path : String) (input : SnapshotInput) (s : SnapshotStore)
    → IsSound s
    → has id s.by_id ≡ false
    → latest_for path (record_snapshot id input s) ≡ (
        if str_eq input.path path
        then some (record { id = id; input = input })
        else latest_for path s)
unfolding latest_for record_snapshot
latest_for-record_snapshot id path input s h fresh =
    rw get-put (go (get path s.latest_by_path) (h.latest_known path))
  where
    go :
        (o : Option String)
        → ((j : String) → o ≡ some j → has j s.by_id ≡ true)
        → follow (record_snapshot id input s) (if str_eq input.path path then some id else o) ≡ (
            if str_eq input.path path then some (record { id = id; input = input }) else follow s o)
    go none known =
        ground (arith, get-put id id (record { id = id; input = input }) s.by_id, str_eq_refl id)
    go (some j) known = ground (
      arith,
      known j refl,
      get-put id id (record { id = id; input = input }) s.by_id,
      get-put id j (record { id = id; input = input }) s.by_id,
      str_eq_refl id,
      eq_iff id j,
    )

-- After `invalidate` a path has no latest version, and the other paths have what they had.
pub latest_for-invalidate :
    (path other : String) (s : SnapshotStore)
    → latest_for other (invalidate path s)
      ≡ (if str_eq path other then none else latest_for other s)
unfolding latest_for invalidate
latest_for-invalidate path other s = rw get-remove (ground arith)

-- In a sound store `resolve` throws or returns a snapshot: what it finds by path is never
-- `undefined`, as its assertions `!` say.
pub resolve-ne-undefined :
    (upper : String → String) (key : String) (s : SnapshotStore)
    → IsSound s
    → resolve upper key s ≢ ok none
unfolding resolve
resolve-ne-undefined upper key s h e = elim (Option-cases (get key s.latest_by_path)) [
  | inl absent ↦ ground arith
  | inr (id, there) ↦ ground (arith, h.latest_known key id there)
]
