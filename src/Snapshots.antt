-- ===== src/Snapshots.antt =====
-- The snapshot store (packages/workspace-runtime/src/snapshot-store.ts): metadata of the file
-- versions that clients have read, a cache of their bytes under a size bound, and pins.
-- A method that changes the store returns the new store; the identifier that `createSnapshotId`
-- makes is an argument. `bytesHeld` is an integer, since the code can make it negative.
mod Samples
pub mod Keys
pub mod Bytes
pub mod Soundness
pub mod Pruning
pub mod Retention
pub mod Resolution
pub mod Runs
use my_pi.Prelude.{
  ℕ, ◌+◌, ◌-◌, ◌^◌, String, Option, none, some, List, [], ◌∷◌, ◌++◌, Bool, true, false, ◌&&◌, ◌||◌,
  not, ltb, leb, ◌==◌, str_eq, if◌then◌else◌, length, any, filter,
}
use my_pi.Prelude.Int.{ℤ, pos, negsuc, ◌+ℤ◌, ◌-ℤ◌, ltb_ℤ}
use my_pi.Prelude.Dict.{Dict, get, has, put, remove, keys, values}
use my_pi.Prelude.Text.{js_length, truthy}
use my_pi.Prelude.Outcome.{Outcome, ok, err, invalid_argument, path_not_found, ambiguous_anchor}
use text.Mathlib.Text.{starts_with}

-- `RecordSnapshotInput`, with the fields of its fingerprint.
pub record SnapshotInput : Type 0 where
  pub path : String
  pub digest : String
  pub size : ℕ
  pub encoding : String
  pub bom : Bool
  pub newline : String
  pub final_newline : Bool
  pub workspace_revision : ℕ

pub record Snapshot : Type 0 where
  pub id : String
  pub input : SnapshotInput
  pub open input use *

abbrev pub Bytes : Type 0
Bytes = List ℕ

pub record SnapshotStore : Type 0 where
  pub max_cache_bytes : ℕ
  pub by_id : Dict Snapshot
  pub latest_by_path : Dict String
  pub content : Dict Bytes
  pub pins : Dict (List String)
  pub bytes_held : ℤ

-- `new SnapshotStore(maxCacheBytes)`
unfoldable pub new_store : ℕ → SnapshotStore
new_store limit = record {
  max_cache_bytes = limit;
  by_id = [];
  latest_by_path = [];
  content = [];
  pins = [];
  bytes_held = pos 0;
}

-- `this.bytesHeld + incomingBytes > this.maxCacheBytes`
unfoldable pub over_limit : ℕ → ℕ → ℤ → Bool
unfolding ◌+ℤ◌
over_limit limit incoming held = ltb_ℤ (pos limit) (held +ℤ pos incoming)

-- `evictIfNeeded`: the loop drops the first key of the map, the oldest, while the bound is passed.
pub evict_if_needed : ℕ → ℕ → Dict Bytes → ℤ → Dict Bytes × ℤ
evict_if_needed limit incoming [] held = ([], held)
evict_if_needed limit incoming ((id, b) ∷ rest) held = elim (over_limit limit incoming held) [
  | true ↦ evict_if_needed limit incoming rest (held -ℤ pos (length b))
  | false ↦ ((id, b) ∷ rest, held)
]

-- `record`
unfoldable pub record_snapshot : String → SnapshotInput → SnapshotStore → SnapshotStore
record_snapshot id input s =
    let (kept, held) = evict_if_needed s.max_cache_bytes input.size s.content s.bytes_held in
    record s {
      by_id = put id (record { id = id; input = input }) s.by_id;
      latest_by_path = put input.path id s.latest_by_path;
      content = kept;
      bytes_held = held;
    }

-- `this.bytesHeld` less the bytes of the entry, if there is one.
abbrev pub released : Option Bytes → ℤ → ℤ
released none held = held
released (some b) held = held -ℤ pos (length b)

-- `cacheContent`
unfoldable pub cache_content : String → Bytes → SnapshotStore → SnapshotStore
cache_content id bytes s =
    let held = released (get id s.content) s.bytes_held in
    let (kept, held') = evict_if_needed s.max_cache_bytes (length bytes) s.content held in
    if ltb s.max_cache_bytes (length bytes)
    then record s { content = remove id s.content; bytes_held = held }
    else record s { content = put id bytes kept; bytes_held = held' +ℤ pos (length bytes) }

-- What `resolve` and `resolveAnchor` do with the matches of an anchor.
unfoldable pub sole_match : List Snapshot → Outcome Snapshot
sole_match [] = err path_not_found
sole_match (r ∷ []) = ok r
sole_match (r ∷ q ∷ rest) = err ambiguous_anchor

-- `upper` is JavaScript's `toUpperCase`.
abbrev pub matches_anchor : (String → String) → String → Snapshot → Bool
matches_anchor upper anchor r = starts_with (upper r.digest) (upper anchor)

-- `resolveAnchor`
unfoldable pub resolve_anchor : (String → String) → String → SnapshotStore → Outcome Snapshot
unfolding sole_match
resolve_anchor upper anchor s = sole_match (filter (matches_anchor upper anchor) (values s.by_id))

-- `this.byId.get(sid)!`; `none` stands for the `undefined` that the assertion hides.
abbrev pub follow : SnapshotStore → Option String → Option Snapshot
follow s none = none
follow s (some id) = get id s.by_id

-- `latestFor`
unfoldable pub latest_for : String → SnapshotStore → Option Snapshot
latest_for path s = follow s (get path s.latest_by_path)

-- `resolve`, by identifier, else by path, else by anchor.
unfoldable pub resolve : (String → String) → String → SnapshotStore → Outcome (Option Snapshot)
unfolding resolve_anchor
resolve upper key s =
    if has key s.by_id
    then ok (get key s.by_id)
    else if has key s.latest_by_path
    then ok (follow s (get key s.latest_by_path))
    else elim (resolve_anchor upper key s) [ ok r ↦ ok (some r) | err e ↦ err e ]

-- `invalidate`
unfoldable pub invalidate : String → SnapshotStore → SnapshotStore
invalidate path s = record s { latest_by_path = remove path s.latest_by_path }

-- The owners of a snapshot, an insertion-ordered set.
abbrev pub owners_of : Option (List String) → List String
owners_of none = []
owners_of (some os) = os

-- `Set.prototype.add`
abbrev pub add_owner : String → List String → List String
add_owner o os = if any (str_eq o) os then os else os ++ o ∷ []

-- `!(!ownerRef || ownerRef.length > 256)`
abbrev pub owner_ok : String → Bool
owner_ok owner = truthy owner && leb (js_length owner) 256

-- `pin`
unfoldable pub pin : String → String → SnapshotStore → Outcome SnapshotStore
pin id owner s =
    if has id s.by_id
    then if owner_ok owner
      then ok (record s { pins = put id (add_owner owner (owners_of (get id s.pins))) s.pins })
      else err invalid_argument
    else err path_not_found

abbrev pub drop_owner : String → String → List String → Dict (List String) → Dict (List String)
drop_owner id owner os ps =
    let left = filter (λ o. not (str_eq owner o)) os in
    elim left [ [] ↦ remove id ps | o ∷ r ↦ put id (o ∷ r) ps ]

abbrev pub unpin_owners : String → String → Option (List String) → SnapshotStore → SnapshotStore
unpin_owners id owner none s = s
unpin_owners id owner (some os) s = record s { pins = drop_owner id owner os s.pins }

-- `unpin`
unfoldable pub unpin : String → String → SnapshotStore → SnapshotStore
unpin id owner s = unpin_owners id owner (get id s.pins) s

-- `latest.has(id) || (policy.retainPinned !== false && this.pins.has(id))`
unfoldable pub is_protected : Bool → String → SnapshotStore → Bool
unfolding values
is_protected retain id s = any (str_eq id) (values s.latest_by_path) || (retain && has id s.pins)

-- The body of the first loop of `prune`, for a snapshot that goes.
unfoldable pub drop_snapshot : String → SnapshotStore → SnapshotStore
drop_snapshot id s = record s {
  by_id = remove id s.by_id;
  pins = remove id s.pins;
  bytes_held = released (get id s.content) s.bytes_held;
  content = remove id s.content;
}

-- The first loop of `prune`, over the keys of `byId`, with `metadataRemoved`.
pub prune_metadata : ℕ → Bool → List String → SnapshotStore → ℕ → SnapshotStore × ℕ
prune_metadata limit retain [] s n = (s, n)
prune_metadata limit retain (id ∷ ids) s n = elim (leb (length s.by_id) limit) [
  | true ↦ (s, n)
  | false ↦ elim (is_protected retain id s) [
    | true ↦ prune_metadata limit retain ids s n
    | false ↦ prune_metadata limit retain ids (drop_snapshot id s) (n + 1)
  ]
]

-- The second loop of `prune`, over the entries of `content`, with `contentRemoved`.
pub prune_content : Dict Bytes → SnapshotStore → ℕ → SnapshotStore × ℕ
prune_content [] s n = (s, n)
prune_content ((id, b) ∷ rest) s n = elim (has id s.pins || has id s.by_id) [
  | true ↦ prune_content rest s n
  | false ↦
      prune_content rest
        (record s { content = remove id s.content; bytes_held = s.bytes_held -ℤ pos (length b) })
        (n + 1)
]

-- `Number.MAX_SAFE_INTEGER`
abbrev pub max_safe_integer : ℕ
max_safe_integer = 2 ^ 53 - 1

-- The two loops of `prune`.
unfoldable pub prune_to : ℕ → Bool → SnapshotStore → SnapshotStore × ℕ × ℕ
unfolding prune_metadata prune_content keys is_protected drop_snapshot
prune_to limit retain s =
    let (s', metadata) = prune_metadata limit retain (keys s.by_id) s 0 in
    let (s'', bytes) = prune_content s'.content s' 0 in (s'', metadata, bytes)

-- `prune`: the new store, `metadataRemoved` and `contentRemoved`.
unfoldable pub prune : ℤ → Bool → SnapshotStore → Outcome (SnapshotStore × ℕ × ℕ)
unfolding prune_to
prune (negsuc n) retain s = err invalid_argument
prune (pos limit) retain s =
    if leb limit max_safe_integer then ok (prune_to limit retain s) else err invalid_argument
