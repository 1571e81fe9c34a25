-- ===== src/Policy/Paths/Below.antt =====
-- Paths at or below a listed path (`authorize` in packages/policy/src/policy-engine.ts): the listed
-- path less its last slashes, in words and as `replace(/\/+$/, "")` computes it.
use Prim.Native.Char.{Char}
use Prim.Native.String.{◌++◌ as text_append}
use text.Mathlib.TextLemmas.{nil-append, cons-append, append-nil, append-eq-nil_iff}
use my_pi.Prelude.{
  ℕ, zero, suc, ◌≡◌, ◌≢◌, refl, ap, sym, ◌∙◌, inl, inr, String, Bool, true, false, ◌&&◌, str_eq,
  eq_iff, Bool-cases, subst, if◌then◌else◌,
}
use my_pi.Prelude.Text.{only_slashes, without_last_slashes}

-- So many slashes.
abbrev pub slashes : ℕ → String
slashes zero = ""
slashes (suc n) = text_append "/" (slashes n)

-- A text that does not end in a slash.
abbrev pub HasNoEnd : String → Type 0
HasNoEnd s = (t : String) → s ≢ text_append t "/"

-- The text `base` is `listed` less all its last slashes.
pub record IsTrimmed (listed base : String) : Type 0 where
  pub count : ℕ
  pub whole : listed ≡ text_append base (slashes count)
  pub no_end : HasNoEnd base

unfoldable tail_of : String → String
tail_of String.[] = ""
tail_of (String.◌∷◌ c s) = s

abbrev one : Char → String
one c = String.◌∷◌ c ""

one-append : (c : Char) (s : String) → text_append (one c) s ≡ String.◌∷◌ c s
one-append c s = cons-append c "" s ∙ ap (String.◌∷◌ c) (nil-append s)

tail_of-cons : (c d : Char) (s t : String) → String.◌∷◌ c s ≡ String.◌∷◌ d t → s ≡ t
unfolding tail_of
tail_of-cons c d s t e = ap tail_of e

append-nil_right : (t u : String) → text_append t u ≡ "" → u ≡ ""
append-nil_right t u e = (append-eq-nil_iff.0 e).1

empty-HasNoEnd : HasNoEnd ""
empty-HasNoEnd t e = cc (append-nil_right t "/" (sym e))

only_slashes-append :
    (s t : String) → only_slashes (text_append s t) ≡ (only_slashes s && only_slashes t)
only_slashes-append String.[] t = ap only_slashes (nil-append t)
only_slashes-append (String.◌∷◌ c s) t =
    ap only_slashes (cons-append c s t)
    ∙ ap (λ (b : Bool). str_eq (one c) "/" && b) (only_slashes-append s t)
    ∙ and_assoc (str_eq (one c) "/") (only_slashes s) (only_slashes t)
  where
    and_assoc : (x y z : Bool) → (x && (y && z)) ≡ ((x && y) && z)
    and_assoc true y z = refl
    and_assoc false y z = refl

and_left : (x y : Bool) → (x && y) ≡ true → x ≡ true
and_left true y h = refl
and_left false y h = cc

and_right : (x y : Bool) → (x && y) ≡ true → y ≡ true
and_right true y h = h
and_right false y h = cc

only_slashes-slashes : (n : ℕ) → only_slashes (slashes n) ≡ true
only_slashes-slashes zero = refl
only_slashes-slashes (suc n) = only_slashes-append "/" (slashes n) ∙ only_slashes-slashes n

-- A text of slashes is some number of them.
only_slashes-eq : (s : String) → only_slashes s ≡ true → (n : ℕ) × (s ≡ slashes n)
only_slashes-eq String.[] h = (0, refl)
only_slashes-eq (String.◌∷◌ c s) h =
    let (n, rest) = only_slashes-eq s (and_right (str_eq (one c) "/") (only_slashes s) h) in
    let first = (eq_iff (one c) "/").0 (and_left (str_eq (one c) "/") (only_slashes s) h) in
    (
      suc n,
      sym (one-append c s) ∙ ap (λ (x : String). text_append x s) first ∙ ap (text_append "/") rest,
    )

-- A text of slashes that is not empty ends in one.
only_slashes-end :
    (c : Char) (s : String)
    → only_slashes (String.◌∷◌ c s) ≡ true
    → (t : String) × (String.◌∷◌ c s ≡ text_append t "/")
only_slashes-end c String.[] h =
    ("", (eq_iff (one c) "/").0 (and_left (str_eq (one c) "/") true h) ∙ sym (nil-append "/"))
only_slashes-end c (String.◌∷◌ d s) h =
    let (t, e) = only_slashes-end d s (and_right (str_eq (one c) "/") _ h) in
    (String.◌∷◌ c t, ap (String.◌∷◌ c) e ∙ sym (cons-append c t "/"))

without_last_slashes-slashes : (s : String) → only_slashes s ≡ true → without_last_slashes s ≡ ""
unfolding without_last_slashes
without_last_slashes-slashes String.[] h = refl
without_last_slashes-slashes (String.◌∷◌ c s) h =
    ap (λ (b : Bool). if b then "" else String.◌∷◌ c (without_last_slashes s)) h

without_last_slashes-keep :
    (c : Char) (s : String)
    → only_slashes (String.◌∷◌ c s) ≡ false
    → without_last_slashes (String.◌∷◌ c s) ≡ String.◌∷◌ c (without_last_slashes s)
unfolding without_last_slashes
without_last_slashes-keep c s h =
    ap (λ (b : Bool). if b then "" else String.◌∷◌ c (without_last_slashes s)) h

cons-HasNoEnd :
    (c : Char) (s b : String)
    → only_slashes (String.◌∷◌ c s) ≡ false
    → IsTrimmed s b
    → HasNoEnd (String.◌∷◌ c b)
cons-HasNoEnd c s b h trimmed String.[] e =
    let single = e ∙ nil-append "/" in
    let empty : b ≡ "" = tail_of-cons c _ b "" single in
    let first : one c ≡ "/" = ap (String.◌∷◌ c) (sym empty) ∙ single in
    let all_of : String.◌∷◌ c s ≡ slashes (suc trimmed.count) =
      sym (one-append c s)
      ∙ ap (λ (x : String). text_append x s) first
      ∙ ap (text_append "/") (
          trimmed.whole
          ∙ ap (λ (x : String). text_append x (slashes trimmed.count)) empty
          ∙ nil-append (slashes trimmed.count)) in
    let is : only_slashes (String.◌∷◌ c s) ≡ true =
      ap only_slashes all_of ∙ only_slashes-slashes (suc trimmed.count) in
    cc (h, is)
cons-HasNoEnd c s b h trimmed (String.◌∷◌ d t) e =
    trimmed.no_end t (tail_of-cons c d b (text_append t "/") (e ∙ cons-append d t "/"))

-- What the regular expression leaves is the trimmed text.
pub without_last_slashes-IsTrimmed : (s : String) → IsTrimmed s (without_last_slashes s)
unfolding without_last_slashes
without_last_slashes-IsTrimmed String.[] = record {
  count = 0;
  whole = sym (append-nil "");
  no_end = empty-HasNoEnd;
}
without_last_slashes-IsTrimmed (String.◌∷◌ c s) =
    elim (Bool-cases (only_slashes (String.◌∷◌ c s))) [
      | inl all_of ↦
          let (n, e) = only_slashes-eq (String.◌∷◌ c s) all_of in
          subst (IsTrimmed (String.◌∷◌ c s))
            (sym (without_last_slashes-slashes (String.◌∷◌ c s) all_of))
            (record {
              count = n;
              whole = e ∙ sym (nil-append (slashes n));
              no_end = empty-HasNoEnd;
            })
      | inr mixed ↦
          let rest = without_last_slashes-IsTrimmed s in
          let b = without_last_slashes s in
          subst (IsTrimmed (String.◌∷◌ c s)) (sym (without_last_slashes-keep c s mixed)) (record {
            count = rest.count;
            whole = ap (String.◌∷◌ c) rest.whole ∙ sym (cons-append c b (slashes rest.count));
            no_end = cons-HasNoEnd c s b mixed rest;
          })
    ]

without_last_slashes-append :
    (b : String) (n : ℕ) → HasNoEnd b → without_last_slashes (text_append b (slashes n)) ≡ b
without_last_slashes-append String.[] n h =
    ap without_last_slashes (nil-append (slashes n))
    ∙ without_last_slashes-slashes (slashes n) (only_slashes-slashes n)
without_last_slashes-append (String.◌∷◌ c s) n h =
    ap without_last_slashes (cons-append c s (slashes n))
    ∙ without_last_slashes-keep c (text_append s (slashes n)) mixed
    ∙ ap (String.◌∷◌ c) (
        without_last_slashes-append s n
          (λ t e. h (String.◌∷◌ c t) (ap (String.◌∷◌ c) e ∙ sym (cons-append c t "/"))))
  where
    mixed : only_slashes (String.◌∷◌ c (text_append s (slashes n))) ≡ false
    mixed = elim (Bool-cases (only_slashes (String.◌∷◌ c (text_append s (slashes n))))) [
      | inl all_of ↦
          let parts =
            sym (only_slashes-append (String.◌∷◌ c s) (slashes n))
            ∙ ap only_slashes (cons-append c s (slashes n))
            ∙ all_of in
          let (t, e) = only_slashes-end c s (and_left _ _ parts) in absurd (h t e)
      | inr other ↦ other
    ]

-- There is one trimmed text.
pub IsTrimmed-eq : (s b : String) → IsTrimmed s b → b ≡ without_last_slashes s
IsTrimmed-eq s b h =
    sym (ap without_last_slashes h.whole ∙ without_last_slashes-append b h.count h.no_end)
