-- ===== src/Prelude/Sorting.antt =====
-- `sort` with a comparator, as a stable insertion sort, and the order of texts in JavaScript.
use Prim.Native.Char.{code}
use my_pi.Prelude.{
  ℕ, suc, ◌+◌, ◌-◌, ◌/◌, ◌%◌, ◌≡◌, refl, ap, ◌∙◌, inl, inr, String, List, [], ◌∷◌, Bool, true,
  false, ◌&&◌, ◌||◌, not, arith, ltb, leb, ◌==◌, str_eq, eq_iff, if◌then◌else◌, Bool-cases, length,
  take, filter, any, all, All, ◌≤◌,
}

-- Texts as UTF-16 code units, which `<` and `length` go by.
unfoldable pub code_units : String → List ℕ
code_units String.[] = []
code_units (String.◌∷◌ c s) =
    let rest = code_units s in
    if leb 65536 (code c)
    then (55296 + (code c - 65536) / 1024) ∷ (56320 + (code c - 65536) % 1024) ∷ rest
    else code c ∷ rest

unfoldable pub units_before : List ℕ → List ℕ → Bool
units_before [] [] = false
units_before [] (y ∷ ys) = true
units_before (x ∷ xs) [] = false
units_before (x ∷ xs) (y ∷ ys) = ltb x y || (x == y && units_before xs ys)

-- `left < right` for texts.
unfoldable pub text_before : String → String → Bool
unfolding code_units units_before
text_before left right = units_before (code_units left) (code_units right)

units_before_asym : (xs ys : List ℕ) → units_before xs ys ≡ true → units_before ys xs ≡ false
unfolding units_before
units_before_asym [] [] h = refl
units_before_asym [] (y ∷ ys) h = refl
units_before_asym (x ∷ xs) [] h = cc
units_before_asym (x ∷ xs) (y ∷ ys) h = ground (arith, units_before_asym xs ys)

units_before_not_trans :
    (xs ys zs : List ℕ)
    → units_before ys xs ≡ false
    → units_before zs ys ≡ false
    → units_before zs xs ≡ false
unfolding units_before
units_before_not_trans [] ys [] h k = refl
units_before_not_trans [] [] (z ∷ zs) h k = refl
units_before_not_trans [] (y ∷ ys) (z ∷ zs) h k = refl
units_before_not_trans (x ∷ xs) [] zs h k = cc
units_before_not_trans (x ∷ xs) (y ∷ ys) [] h k = cc
units_before_not_trans (x ∷ xs) (y ∷ ys) (z ∷ zs) h k =
    ground (arith, units_before_not_trans xs ys zs)

text_before_asym : (s t : String) → text_before s t ≡ true → text_before t s ≡ false
unfolding text_before
text_before_asym s t h = units_before_asym (code_units s) (code_units t) h

module _ {ℓ} {A : Type ℓ} (key : A → String) where
  unfoldable pub insert_by : A → List A → List A
  insert_by x [] = x ∷ []
  insert_by x (y ∷ ys) =
      let rest = insert_by x ys in if text_before (key y) (key x) then y ∷ rest else x ∷ y ∷ ys

  -- `xs.sort((left, right) => compareText(key(left), key(right)))`
  unfoldable pub sort_by : List A → List A
  unfolding insert_by
  sort_by [] = []
  sort_by (x ∷ xs) = insert_by x (sort_by xs)

  -- Nothing later comes before an element.
  abbrev pub IsSorted : List A → Type 0
  IsSorted [] = Unit
  IsSorted (x ∷ xs) = (any (λ (y : A). text_before (key y) (key x)) xs ≡ false) × IsSorted xs

  module _ (p : A → Bool) where
    all-insert_by : (x : A) (xs : List A) → all p (insert_by x xs) ≡ (p x && all p xs)
    unfolding insert_by
    all-insert_by x [] = refl
    all-insert_by x (y ∷ ys) = ground (arith, all-insert_by x ys)

    pub all-sort_by : (xs : List A) → all p (sort_by xs) ≡ all p xs
    unfolding sort_by
    all-sort_by [] = refl
    all-sort_by (x ∷ xs) = all-insert_by x (sort_by xs) ∙ ap (λ b. p x && b) (all-sort_by xs)

    any-insert_by : (x : A) (xs : List A) → any p (insert_by x xs) ≡ (p x || any p xs)
    unfolding insert_by
    any-insert_by x [] = refl
    any-insert_by x (y ∷ ys) = ground (arith, any-insert_by x ys)

    pub any-sort_by : (xs : List A) → any p (sort_by xs) ≡ any p xs
    unfolding sort_by
    any-sort_by [] = refl
    any-sort_by (x ∷ xs) = any-insert_by x (sort_by xs) ∙ ap (λ b. p x || b) (any-sort_by xs)

  length-insert_by : (x : A) (xs : List A) → length (insert_by x xs) ≡ suc (length xs)
  unfolding insert_by
  length-insert_by x [] = refl
  length-insert_by x (y ∷ ys) = ground (arith, length-insert_by x ys)

  pub length-sort_by : (xs : List A) → length (sort_by xs) ≡ length xs
  unfolding sort_by
  length-sort_by [] = refl
  length-sort_by (x ∷ xs) = length-insert_by x (sort_by xs) ∙ ap suc (length-sort_by xs)

  later_still :
      (x y : A) (xs : List A)
      → text_before (key y) (key x) ≡ false
      → any (λ (z : A). text_before (key z) (key y)) xs ≡ false
      → any (λ (z : A). text_before (key z) (key x)) xs ≡ false
  unfolding text_before
  later_still x y [] h k = refl
  later_still x y (z ∷ zs) h k = ground (
    arith,
    later_still x y zs,
    units_before_not_trans (code_units (key x)) (code_units (key y)) (code_units (key z)),
  )

  insert_by-IsSorted : (x : A) (xs : List A) → IsSorted xs → IsSorted (insert_by x xs)
  unfolding insert_by
  insert_by-IsSorted x [] h = (refl, tt)
  insert_by-IsSorted x (y ∷ ys) h = elim (Bool-cases (text_before (key y) (key x))) [
    | inl before ↦ rw before (
      any-insert_by (λ (z : A). text_before (key z) (key y)) x ys
          ∙ rw (text_before_asym (key y) (key x) before) h.0,
      insert_by-IsSorted x ys h.1,
    )
    | inr after ↦ rw after (rw after (later_still x y ys after h.0), h)
  ]

  pub sort_by-IsSorted : (xs : List A) → IsSorted (sort_by xs)
  unfolding sort_by
  sort_by-IsSorted [] = tt
  sort_by-IsSorted (x ∷ xs) = insert_by-IsSorted x (sort_by xs) (sort_by-IsSorted xs)

  insert_by-first :
      (x : A) (xs : List A)
      → any (λ (y : A). text_before (key y) (key x)) xs ≡ false
      → insert_by x xs ≡ x ∷ xs
  unfolding insert_by
  insert_by-first x [] h = refl
  insert_by-first x (y ∷ ys) h = ground arith

  -- A sorted list stays as it is.
  pub sort_by_same : (xs : List A) → IsSorted xs → sort_by xs ≡ xs
  unfolding sort_by
  sort_by_same [] h = refl
  sort_by_same (x ∷ xs) h = ap (insert_by x) (sort_by_same xs h.1) ∙ insert_by-first x xs h.0

  any-filter-false : (q p : A → Bool) (xs : List A) → any q xs ≡ false → any q (filter p xs) ≡ false
  any-filter-false q p [] h = refl
  any-filter-false q p (x ∷ xs) h = ground (arith, any-filter-false q p xs)

  pub filter-IsSorted : (p : A → Bool) (xs : List A) → IsSorted xs → IsSorted (filter p xs)
  filter-IsSorted p [] h = tt
  filter-IsSorted p (x ∷ xs) h = elim (Bool-cases (p x)) [
    | inl kept ↦ rw kept (
      any-filter-false (λ (y : A). text_before (key y) (key x)) p xs h.0,
      filter-IsSorted p xs h.1,
    )
    | inr dropped ↦ rw dropped (filter-IsSorted p xs h.1)
  ]

  any-take-false :
      (q : A → Bool) (n : ℕ) (xs : List A) → any q xs ≡ false → any q (take n xs) ≡ false
  any-take-false q ℕ.zero xs h = refl
  any-take-false q (ℕ.suc n) [] h = refl
  any-take-false q (ℕ.suc n) (x ∷ xs) h = ground (arith, any-take-false q n xs)

  pub take-IsSorted : (n : ℕ) (xs : List A) → IsSorted xs → IsSorted (take n xs)
  take-IsSorted ℕ.zero xs h = tt
  take-IsSorted (ℕ.suc n) [] h = tt
  take-IsSorted (ℕ.suc n) (x ∷ xs) h =
      (any-take-false (λ (y : A). text_before (key y) (key x)) n xs h.0, take-IsSorted n xs h.1)

-- A predicate of every element stays one when the list is sorted or elements are dropped.
module _ {ℓ κ} {A : Type ℓ} (P : A → Type κ) where
  All-insert_by :
      (key : A → String) (x : A) (xs : List A) → P x → All P xs → All P (insert_by key x xs)
  unfolding insert_by
  All-insert_by key x [] p h = (p, h)
  All-insert_by key x (y ∷ ys) p h = elim (Bool-cases (text_before (key y) (key x))) [
    | inl before ↦ rw before (h.0, All-insert_by key x ys p h.1)
    | inr after ↦ rw after (p, h)
  ]

  pub All-sort_by : (key : A → String) (xs : List A) → All P xs → All P (sort_by key xs)
  unfolding sort_by
  All-sort_by key [] h = h
  All-sort_by key (x ∷ xs) h = All-insert_by key x (sort_by key xs) h.0 (All-sort_by key xs h.1)

  pub All-filter : (q : A → Bool) (xs : List A) → All P xs → All P (filter q xs)
  All-filter q [] h = h
  All-filter q (x ∷ xs) h = elim (Bool-cases (q x)) [
    | inl kept ↦ rw kept (h.0, All-filter q xs h.1)
    | inr dropped ↦ rw dropped (All-filter q xs h.1)
  ]

  pub All-take : (n : ℕ) (xs : List A) → All P xs → All P (take n xs)
  All-take ℕ.zero xs h = tt
  All-take (ℕ.suc n) [] h = tt
  All-take (ℕ.suc n) (x ∷ xs) h = (h.0, All-take n xs h.1)

module _ {ℓ} {A : Type ℓ} (p : A → Bool) where
  pub all-filter_self : (xs : List A) → all p (filter p xs) ≡ true
  all-filter_self [] = refl
  all-filter_self (x ∷ xs) = ground (arith, all-filter_self xs)

  pub all-take : (n : ℕ) (xs : List A) → all p xs ≡ true → all p (take n xs) ≡ true
  all-take ℕ.zero xs h = refl
  all-take (ℕ.suc n) [] h = refl
  all-take (ℕ.suc n) (x ∷ xs) h = ground (arith, all-take n xs)

  pub filter_same : (xs : List A) → all p xs ≡ true → filter p xs ≡ xs
  filter_same [] h = refl
  filter_same (x ∷ xs) h = ground (arith, filter_same xs)

pub take_same {ℓ} : {A : Type ℓ} (n : ℕ) (xs : List A) → length xs ≤ n → take n xs ≡ xs
take_same ℕ.zero [] h = refl
take_same ℕ.zero (x ∷ xs) h = absurd (omega (arith, h))
take_same (ℕ.suc n) [] h = refl
take_same (ℕ.suc n) (x ∷ xs) h = ap (λ l. x ∷ l) (take_same n xs (omega (arith, h)))

-- `new Set(xs.map(key)).size === xs.length`
module _ {ℓ} {A : Type ℓ} (key : A → String) where
  abbrev pub distinct_by : List A → Bool
  distinct_by [] = true
  distinct_by (x ∷ xs) = not (any (λ (y : A). str_eq (key y) (key x)) xs) && distinct_by xs

  module _ (order : A → String) where
    distinct_by-insert_by :
        (x : A) (xs : List A) → distinct_by (insert_by order x xs) ≡ distinct_by (x ∷ xs)
    unfolding insert_by
    distinct_by-insert_by x [] = refl
    distinct_by-insert_by x (y ∷ ys) = ground (
      arith,
      distinct_by-insert_by x ys,
      any-insert_by order (λ (z : A). str_eq (key z) (key y)) x ys,
      eq_iff (key x) (key y),
      eq_iff (key y) (key x),
    )

    pub distinct_by-sort_by : (xs : List A) → distinct_by (sort_by order xs) ≡ distinct_by xs
    unfolding sort_by
    distinct_by-sort_by [] = refl
    distinct_by-sort_by (x ∷ xs) =
        distinct_by-insert_by x (sort_by order xs)
        ∙ rw (any-sort_by order (λ (y : A). str_eq (key y) (key x)) xs, distinct_by-sort_by xs) refl

  pub distinct_by-take :
      (n : ℕ) (xs : List A) → distinct_by xs ≡ true → distinct_by (take n xs) ≡ true
  distinct_by-take ℕ.zero xs h = refl
  distinct_by-take (ℕ.suc n) [] h = refl
  distinct_by-take (ℕ.suc n) (x ∷ xs) h =
      ground
        (arith, distinct_by-take n xs, any-take-false key (λ (y : A). str_eq (key y) (key x)) n xs)

  pub distinct_by-filter :
      (p : A → Bool) (xs : List A) → distinct_by xs ≡ true → distinct_by (filter p xs) ≡ true
  distinct_by-filter p [] h = refl
  distinct_by-filter p (x ∷ xs) h = ground (
    arith,
    distinct_by-filter p xs,
    any-filter-false key (λ (y : A). str_eq (key y) (key x)) p xs,
  )
