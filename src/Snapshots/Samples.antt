-- ===== src/Snapshots/Samples.antt =====
-- A small snapshot store, and the theorems at it.
use my_pi.Prelude.{◌≡◌, refl, String, true, false, some, [], ◌∷◌}
use my_pi.Prelude.Int.{pos, ◌+ℤ◌, ◌-ℤ◌}
use my_pi.Prelude.Dict.{get, put}
use my_pi.Snapshots.{
  Bytes, SnapshotInput, SnapshotStore, new_store, record_snapshot, cache_content, over_limit,
  evict_if_needed, prune, prune_to, latest_for,
}
use my_pi.Snapshots.Bytes.{total}
use my_pi.Snapshots.Soundness.{IsSound}
use my_pi.Snapshots.Retention.{IsPruned, prune-IsPruned}
use my_pi.Snapshots.Resolution.{latest_for-record_snapshot}
use my_pi.Snapshots.Runs.{
  Calls, here, next, recording, caching, new_store-Calls-IsSound, cache_content_undercounts,
}

abbrev version : String → SnapshotInput
version path = record {
  path = path;
  digest = "a1b2";
  size = 4;
  encoding = "utf-8";
  bom = false;
  newline = "lf";
  final_newline = true;
  workspace_revision = 0;
}

abbrev old_bytes : Bytes
old_bytes = 1 ∷ 2 ∷ 3 ∷ 4 ∷ []

abbrev other_bytes : Bytes
other_bytes = 1 ∷ 2 ∷ 3 ∷ 4 ∷ 5 ∷ 6 ∷ []

abbrev new_bytes : Bytes
new_bytes = 1 ∷ 2 ∷ 3 ∷ 4 ∷ 5 ∷ []

abbrev two_recorded : SnapshotStore
two_recorded =
    record_snapshot "s2" (version "b") (record_snapshot "s1" (version "a") (new_store 10))

abbrev one_cached : SnapshotStore
one_cached = cache_content "s1" old_bytes two_recorded

abbrev two_cached : SnapshotStore
two_cached = cache_content "s2" other_bytes one_cached

abbrev history : Calls (new_store 10) two_cached
unfolding new_store record_snapshot cache_content evict_if_needed over_limit get put ◌+ℤ◌ ◌-ℤ◌
history =
    next
      (next
        (next (next here (recording "s1" (version "a") refl)) (recording "s2" (version "b") refl))
        (caching "s1" old_bytes refl refl))
      (caching "s2" other_bytes refl refl)

new_store-Calls-IsSound_example : IsSound two_cached
unfolding new_store record_snapshot cache_content evict_if_needed over_limit get put ◌+ℤ◌ ◌-ℤ◌
new_store-Calls-IsSound_example = new_store-Calls-IsSound 10 two_cached history

two_cached-IsSound : IsSound two_cached
two_cached-IsSound = new_store-Calls-IsSound 10 two_cached history

cache_content_undercounts_example :
    (cache_content "s1" new_bytes two_cached).bytes_held +ℤ pos 4
    ≡ pos (total (cache_content "s1" new_bytes two_cached).content)
unfolding new_store record_snapshot cache_content evict_if_needed over_limit get put ◌+ℤ◌ ◌-ℤ◌
cache_content_undercounts_example =
    cache_content_undercounts "s1" old_bytes new_bytes two_cached two_cached-IsSound refl refl refl

-- The cache then holds 11 bytes under a bound of 10.
recaching_passes_the_bound : total (cache_content "s1" new_bytes two_cached).content ≡ 11
unfolding new_store record_snapshot cache_content evict_if_needed over_limit get put ◌+ℤ◌ ◌-ℤ◌ total
recaching_passes_the_bound = refl

prune-IsPruned_example : IsPruned 1 true two_cached (prune_to 1 true two_cached).0
unfolding prune
prune-IsPruned_example = prune-IsPruned 1 true two_cached (prune_to 1 true two_cached) refl

latest_for-record_snapshot_example :
    latest_for "a" (record_snapshot "s3" (version "a") two_cached)
    ≡ some (record { id = "s3"; input = version "a" })
unfolding new_store record_snapshot cache_content get put
latest_for-record_snapshot_example =
    latest_for-record_snapshot "s3" "a" (version "a") two_cached two_cached-IsSound refl
