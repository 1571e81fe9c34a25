-- ===== src/Snapshots/Keys.antt =====
-- What the JavaScript `Map` guarantees of its keys, for the association lists that model it.
use my_pi.Prelude.{◌+◌, ◌≡◌, refl, String, none, [], ◌∷◌, arith, eq_iff, if◌then◌else◌, length}
use my_pi.Prelude.Dict.{Dict, get, has, put, remove, get-put, get-remove}

module _ {ℓ} {V : Type ℓ} where
  -- No key stands twice.
  abbrev pub IsUnique : Dict V → Type ℓ
  IsUnique [] = Unit
  IsUnique ((k, v) ∷ m) = (get k m ≡ none) × IsUnique m

  pub put-IsUnique : (k : String) (v : V) (m : Dict V) → IsUnique m → IsUnique (put k v m)
  unfolding put get
  put-IsUnique k v [] u = (refl, tt)
  put-IsUnique k v ((j, w) ∷ m) u =
      ground (arith, put-IsUnique k v m, get-put k j v m, eq_iff k j, eq_iff j k)

  pub remove-IsUnique : (k : String) (m : Dict V) → IsUnique m → IsUnique (remove k m)
  unfolding remove
  remove-IsUnique k [] u = tt
  remove-IsUnique k ((j, w) ∷ m) u = ground (arith, remove-IsUnique k m, get-remove k j m)

  -- Removing a key that is not there changes nothing.
  pub remove_absent : (k : String) (m : Dict V) → get k m ≡ none → remove k m ≡ m
  unfolding remove get
  remove_absent k [] h = refl
  remove_absent k ((j, w) ∷ m) h = ground (arith, remove_absent k m)

  pub length-remove :
      (k : String) (m : Dict V)
      → IsUnique m
      → length (remove k m) + (if has k m then 1 else 0) ≡ length m
  unfolding remove get
  length-remove k [] u = omega arith
  length-remove k ((j, w) ∷ m) u = ground (arith, length-remove k m, eq_iff j k, remove_absent k m)
