-- ===== src/Policy/Approval/Delimited.antt =====
-- Texts that can be read back from the front of a longer text, as those that `stableJson`
-- (packages/policy/src/approval.ts) makes of texts and of objects with given keys.
use Prim.Native.String.{◌++◌ as text_append}
use text.Mathlib.TextLemmas.{append_assoc, append_cancel_left}
use my_pi.Prelude.{◌≡◌, ap, sym, ◌∙◌, String}

-- The value and what follows its text are determined by the whole.
pub record Delimited {ℓ} {A : Type ℓ} (f : A → String) : Type ℓ where
  pub cancel :
      (x y : A) (a b : String) → text_append (f x) a ≡ text_append (f y) b → (x ≡ y) × (a ≡ b)

pub Delimited-prefix {ℓ} :
    {A : Type ℓ} (l : String) (f : A → String)
    → Delimited f
    → Delimited (λ (x : A). text_append l (f x))
Delimited-prefix l f d = record {
  cancel = λ x y a b e.
      d.cancel x y a b
        (append_cancel_left l _ _ (sym (append_assoc l (f x) a) ∙ e ∙ append_assoc l (f y) b));
}

pub Delimited-suffix {ℓ} :
    {A : Type ℓ} (l : String) (f : A → String)
    → Delimited f
    → Delimited (λ (x : A). text_append (f x) l)
Delimited-suffix l f d = record {
  cancel = λ x y a b e.
      let (same, rest) =
        d.cancel x y (text_append l a) (text_append l b)
          (sym (append_assoc (f x) l a) ∙ e ∙ append_assoc (f y) l b) in
      (same, append_cancel_left l a b rest);
}

pub Delimited-pair {ℓ κ} :
    {A : Type ℓ} {B : Type κ} (f : A → String) (g : B → String)
    → Delimited f
    → Delimited g
    → Delimited (λ (p : A × B). text_append (f p.0) (g p.1))
Delimited-pair f g d h = record {
  cancel = λ x y a b e.
      let (first, rest) =
        d.cancel x.0 y.0 (text_append (g x.1) a) (text_append (g y.1) b)
          (sym (append_assoc (f x.0) (g x.1) a) ∙ e ∙ append_assoc (f y.0) (g y.1) b) in
      let (second, last) = h.cancel x.1 y.1 a b rest in ((λ i. (first i, second i)), last);
}

pub Delimited-injective {ℓ} :
    {A : Type ℓ} (f : A → String) → Delimited f → (x y : A) → f x ≡ f y → x ≡ y
Delimited-injective f d x y e = (d.cancel x y "" "" (ap (λ (s : String). text_append s "") e)).0
