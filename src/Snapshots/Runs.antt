-- ===== src/Snapshots/Runs.antt =====
-- Sequences of calls on a snapshot store.
use my_pi.Prelude.{ℕ, ◌≡◌, refl, ap, String, none, some, Bool, false, arith, length, ltb}
use my_pi.Prelude.Int.{ℤ, pos, ◌+ℤ◌, int_laws, pos_part, neg_part}
use my_pi.Prelude.Dict.{get}
use my_pi.Prelude.Outcome.{ok}
use my_pi.Snapshots.{
  Bytes, SnapshotStore, SnapshotInput, new_store, record_snapshot, cache_content, invalidate, pin,
  unpin, prune,
}
use my_pi.Snapshots.Bytes.{total, size_of}
use my_pi.Snapshots.Soundness.{
  IsSound, record_snapshot-IsSound, cache_content-IsSound, invalidate-IsSound, pin-IsSound,
  unpin-IsSound, kept_entries, recached_count,
}
use my_pi.Snapshots.Pruning.{prune-IsSound}

-- One call that returns. Bytes are cached for a snapshot that has none in the cache.
pub data Call (s t : SnapshotStore) : Type 0 where
  recording : (id : String) (input : SnapshotInput) → t ≡ record_snapshot id input s → Call s t
  caching :
      (id : String) (bytes : Bytes)
      → get id s.content ≡ none
      → t ≡ cache_content id bytes s
      → Call s t
  invalidating : (path : String) → t ≡ invalidate path s → Call s t
  pinning : (id owner : String) → pin id owner s ≡ ok t → Call s t
  unpinning : (id owner : String) → t ≡ unpin id owner s → Call s t
  pruning :
      (limit : ℤ) (retain : Bool) (metadata bytes : ℕ)
      → prune limit retain s ≡ ok (t, metadata, bytes)
      → Call s t

pub data Calls (s : SnapshotStore) : SnapshotStore → Type 0 where
  here : Calls s s
  next : {t u : SnapshotStore} → Calls s t → Call t u → Calls s u

new_store-IsSound : (limit : ℕ) → IsSound (new_store limit)
unfolding new_store total get
new_store-IsSound limit = record {
  ids_unique = tt;
  content_unique = tt;
  counted = refl;
  bounded = omega arith;
  latest_known = λ path id e. cc;
}

Call-IsSound : (s t : SnapshotStore) → Call s t → IsSound s → IsSound t
Call-IsSound s t (recording id input e) h = rw e (record_snapshot-IsSound id input s h)
Call-IsSound s t (caching id bytes absent e) h = rw e (cache_content-IsSound id bytes s absent h)
Call-IsSound s t (invalidating path e) h = rw e (invalidate-IsSound path s h)
Call-IsSound s t (pinning id owner e) h = pin-IsSound id owner s t e h
Call-IsSound s t (unpinning id owner e) h = rw e (unpin-IsSound id owner s h)
Call-IsSound s t (pruning limit retain m b e) h = prune-IsSound limit retain s (t, m, b) e h

Calls-IsSound : {s t : SnapshotStore} → Calls s t → IsSound s → IsSound t
Calls-IsSound here h = h
Calls-IsSound (next {t = t} {u = u} cs c) h = Call-IsSound t u c (Calls-IsSound cs h)

-- From a new store, after any calls of `record`, `cacheContent` (for a snapshot with no cached
-- bytes), `invalidate`, `pin`, `unpin` and `prune`: `bytesHeld` is the number of cached bytes, it is
-- within `maxCacheBytes`, no map has a key twice, and every path leads to metadata that is there.
pub new_store-Calls-IsSound :
    (limit : ℕ) (t : SnapshotStore) → Calls (new_store limit) t → IsSound t
new_store-Calls-IsSound limit t cs = Calls-IsSound cs (new_store-IsSound limit)

-- Caching bytes again for a snapshot whose old bytes the eviction drops takes the old bytes off
-- the count twice: the cache then holds that many bytes more than `bytesHeld` says.
pub cache_content_undercounts :
    (id : String) (old bytes : Bytes) (s : SnapshotStore)
    → IsSound s
    → get id s.content ≡ some old
    → ltb s.max_cache_bytes (length bytes) ≡ false
    → get id (kept_entries s.max_cache_bytes id bytes s.content s.bytes_held) ≡ none
    → (cache_content id bytes s).bytes_held +ℤ pos (length old)
      ≡ pos (total (cache_content id bytes s).content)
unfolding cache_content
cache_content_undercounts id old bytes s h there fits evicted =
    let c = recached_count s.max_cache_bytes id bytes s.content s.bytes_held h.counted in
    rw fits (omega (int_laws, ap pos_part c, ap neg_part c, ap size_of there, ap size_of evicted))
