-- ===== src/Snapshots/Bytes.antt =====
-- The account of the cached bytes: `bytesHeld` against the entries of the cache.
use my_pi.Prelude.{
  ℕ, ◌+◌, ◌≤◌, ◌≡◌, refl, ap, ◌⊎◌, inl, inr, Bool-cases, String, Option, none, some, [], ◌∷◌, true,
  false, arith, eq_iff, length,
}
use my_pi.Prelude.Int.{ℤ, pos, ◌+ℤ◌, ◌-ℤ◌, pos_part, neg_part, int_laws}
use my_pi.Prelude.Dict.{Dict, get, put, remove}
use my_pi.Snapshots.{Bytes, over_limit, evict_if_needed}
use my_pi.Snapshots.Keys.{IsUnique, remove_absent}

-- The bytes that the cache really holds.
unfoldable pub total : Dict Bytes → ℕ
total [] = 0
total ((k, b) ∷ m) = length b + total m

abbrev pub size_of : Option Bytes → ℕ
size_of none = 0
size_of (some b) = length b

pub total-put :
    (k : String) (b : Bytes) (m : Dict Bytes)
    → total (put k b m) + size_of (get k m) ≡ total m + length b
unfolding total put get
total-put k b [] = omega arith
total-put k b ((j, c) ∷ m) = ground (arith, total-put k b m)

pub total-remove :
    (k : String) (m : Dict Bytes) → IsUnique m → total (remove k m) + size_of (get k m) ≡ total m
unfolding total remove get
total-remove k [] u = omega arith
total-remove k ((j, c) ∷ m) u = ground (arith, total-remove k m, remove_absent k m, eq_iff j k)

sub_first : (a b : ℕ) → pos (a + b) -ℤ pos a ≡ pos b
sub_first a b = omega int_laws

room :
    (limit incoming : ℕ) (held : ℤ) (n : ℕ)
    → held ≡ pos n
    → over_limit limit incoming held ≡ false
    → n + incoming ≤ limit
unfolding over_limit
room limit incoming held n h f = ground arith

module _ (limit incoming : ℕ) where
  evict-over :
      (k : String) (b : Bytes) (m : Dict Bytes) (held : ℤ)
      → over_limit limit incoming held ≡ true
      → evict_if_needed limit incoming ((k, b) ∷ m) held
        ≡ evict_if_needed limit incoming m (held -ℤ pos (length b))
  unfolding evict_if_needed
  evict-over k b m held h = rw (h, evict_if_needed)

  evict-fits :
      (k : String) (b : Bytes) (m : Dict Bytes) (held : ℤ)
      → over_limit limit incoming held ≡ false
      → evict_if_needed limit incoming ((k, b) ∷ m) held ≡ ((k, b) ∷ m, held)
  unfolding evict_if_needed
  evict-fits k b m held h = rw (h, evict_if_needed)

  -- Eviction changes the count by what it drops.
  pub evict-balance :
      (m : Dict Bytes) (held : ℤ)
      → (evict_if_needed limit incoming m held).1 +ℤ pos (total m)
        ≡ held +ℤ pos (total (evict_if_needed limit incoming m held).0)
  unfolding evict_if_needed total
  evict-balance [] held = refl
  evict-balance ((k, b) ∷ m) held = elim (Bool-cases (over_limit limit incoming held)) [
    | inl over ↦ rw (evict-over k b m held over) (
        let ih = evict-balance m (held -ℤ pos (length b)) in
        omega (int_laws, ap pos_part ih, ap neg_part ih))
    | inr fits ↦ rw (evict-fits k b m held fits)
  ]

  -- From an exact count the room is made, or nothing is left to drop.
  pub evict-bound :
      (m : Dict Bytes) (held : ℤ)
      → held ≡ pos (total m)
      → ((evict_if_needed limit incoming m held).0 ≡ [])
        ⊎ (total (evict_if_needed limit incoming m held).0 + incoming ≤ limit)
  unfolding evict_if_needed total
  evict-bound [] held h = inl refl
  evict-bound ((k, b) ∷ m) held h = elim (Bool-cases (over_limit limit incoming held)) [
    | inl over ↦
        rw (evict-over k b m held over)
          (evict-bound m (held -ℤ pos (length b)) (rw h (sub_first (length b) (total m))))
    | inr fits ↦
        rw (evict-fits k b m held fits) (inr (room limit incoming held (length b + total m) h fits))
  ]

  pub evict-IsUnique :
      (m : Dict Bytes) (held : ℤ) → IsUnique m → IsUnique (evict_if_needed limit incoming m held).0
  unfolding evict_if_needed
  evict-IsUnique [] held u = tt
  evict-IsUnique ((k, b) ∷ m) held u = elim (Bool-cases (over_limit limit incoming held)) [
    | inl over ↦ rw (evict-over k b m held over) (evict-IsUnique m (held -ℤ pos (length b)) u.1)
    | inr fits ↦ rw (evict-fits k b m held fits) u
  ]

  pub total-evict-le :
      (m : Dict Bytes) (held : ℤ) → total (evict_if_needed limit incoming m held).0 ≤ total m
  unfolding evict_if_needed total
  total-evict-le [] held = omega arith
  total-evict-le ((k, b) ∷ m) held = elim (Bool-cases (over_limit limit incoming held)) [
    | inl over ↦
        rw (evict-over k b m held over) (omega (arith, total-evict-le m (held -ℤ pos (length b))))
    | inr fits ↦ rw (evict-fits k b m held fits) (omega arith)
  ]

  -- What stays in the cache is as it was.
  pub get-evict :
      (m : Dict Bytes) (held : ℤ) (k : String)
      → IsUnique m
      → (get k (evict_if_needed limit incoming m held).0 ≡ none)
        ⊎ (get k (evict_if_needed limit incoming m held).0 ≡ get k m)
  unfolding evict_if_needed get
  get-evict [] held k u = inl refl
  get-evict ((j, b) ∷ m) held k u = elim (Bool-cases (over_limit limit incoming held)) [
    | inl over ↦
        rw (evict-over j b m held over)
          (ground (arith, eq_iff j k, get-evict m (held -ℤ pos (length b)) k))
    | inr fits ↦ rw (evict-fits j b m held fits) (inr refl)
  ]
