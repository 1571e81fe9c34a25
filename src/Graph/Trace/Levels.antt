-- ===== src/Graph/Trace/Levels.antt =====
-- The search takes the nodes in the order of their depth: what its loops keep for that, and that
-- the discovery of a node keeps it.
use mathlib.Core.List.{Memᴰ}
use my_pi.Prelude.{
  ℕ, suc, ◌≤◌, ◌≡◌, refl, ap, sym, ◌∙◌, ◌⊎◌, inl, inr, String, List, [], ◌∷◌, ◌++◌, Bool, true,
  false, ◌&&◌, arith, leb, str_eq, eq_iff, Bool-cases, both, all, All,
}
use my_pi.Prelude.Dict.{get, has, str_eq_refl}
use my_pi.Graph.Model.{GraphEdge}
use my_pi.Graph.Normalize.{or_default}
use my_pi.Graph.Trace.{Search, adjacent, discover}
use my_pi.Graph.Trace.Way.{depth_of, get_keep, has_mono}

module _ (edges : List GraphEdge) (from to : String) (max_depth : ℕ) where
  -- An edge leads to a node that is discovered, one step deeper at most.
  abbrev pub arrives : Search → ℕ → GraphEdge → Bool
  arrives s d e = has e.target s.depth && leb (depth_of s e.target) (suc d)

  -- A node need not be gone through any more: it is too deep, or all its edges arrive.
  abbrev pub Settled : Search → String → Type 0
  Settled s id =
      (max_depth ≤ depth_of s id) ⊎ (all (arrives s (depth_of s id)) (adjacent edges id) ≡ true)

  -- The nodes of the queue are discovered, and each is no deeper than those after it.
  abbrev pub Ordered : Search → List String → Type 0
  Ordered s [] = Unit
  Ordered s (q ∷ qs) =
      (has q s.depth ≡ true) × All (λ (r : String). depth_of s q ≤ depth_of s r) qs × Ordered s qs

  -- No discovered node is more than a step deeper than one of this depth.
  abbrev pub Near : Search → ℕ → Type 0
  Near s d = (id : String) → has id s.depth ≡ true → depth_of s id ≤ suc d

  abbrev pub NearFirst : Search → List String → Type 0
  NearFirst s [] = Unit
  NearFirst s (q ∷ qs) = Near s (depth_of s q)

  -- What the loop over the queue keeps until it discovers its target.
  pub record IsLevel (s : Search) : Type 0 where
    pub ordered : Ordered s s.queue
    pub near : NearFirst s s.queue
    pub settled : (id : String) → has id s.depth ≡ true → Memᴰ id s.queue ⊎ Settled s id
    pub first : (has from s.depth ≡ true) × (depth_of s from ≡ 0)

  -- What the loop over the edges of a node keeps.
  pub record IsVisiting (current : String) (d : ℕ) (s : Search) : Type 0 where
    pub known : has current s.depth ≡ true
    pub at : depth_of s current ≡ d
    pub ordered : Ordered s s.queue
    pub least : All (λ (q : String). d ≤ depth_of s q) s.queue
    pub near : Near s d
    pub settled :
        (id : String) → has id s.depth ≡ true → Memᴰ id s.queue ⊎ ((id ≡ current) ⊎ Settled s id)
    pub first : (has from s.depth ≡ true) × (depth_of s from ≡ 0)

  -- The depth of a node stays when another is discovered.
  pub depth_of-discover :
      (current : String) (d : ℕ) (e : GraphEdge) (s : Search) (id : String)
      → has id s.depth ≡ true
      → has e.target s.depth ≡ false
      → depth_of (discover current d e s) id ≡ depth_of s id
  unfolding discover
  depth_of-discover current d e s id known new =
      ap (or_default 0) (get_keep id e.target (suc d) s.depth known new)

  pub all_mono :
      (p q : GraphEdge → Bool) (es : List GraphEdge)
      → ((e : GraphEdge) → p e ≡ true → q e ≡ true)
      → all p es ≡ true
      → all q es ≡ true
  all_mono p q [] f h = refl
  all_mono p q (e ∷ es) f h =
      rw (f e (ground (arith, h)), all_mono p q es f (ground (arith, h))) refl

  pub arrives-discover :
      (current : String) (d : ℕ) (e : GraphEdge) (s : Search) (n : ℕ)
      → has e.target s.depth ≡ false
      → (f : GraphEdge) → arrives s n f ≡ true
      → arrives (discover current d e s) n f ≡ true
  unfolding discover
  arrives-discover current d e s n new f h =
      let (known, near) = both (has f.target s.depth) (leb (depth_of s f.target) (suc n)) h in
      rw
        (
          has_mono f.target e.target (suc d) s.depth known,
          depth_of-discover current d e s f.target known new,
        )
        near

  pub Settled-discover :
      (current : String) (d : ℕ) (e : GraphEdge) (s : Search) (id : String)
      → has id s.depth ≡ true
      → has e.target s.depth ≡ false
      → Settled s id
      → Settled (discover current d e s) id
  unfolding discover
  Settled-discover current d e s id known new (inl deep) =
      inl (rw (depth_of-discover current d e s id known new) deep)
  Settled-discover current d e s id known new (inr arrived) = inr (
      rw (depth_of-discover current d e s id known new) (
        all_mono (arrives s (depth_of s id)) (arrives (discover current d e s) (depth_of s id))
          (adjacent edges id) (arrives-discover current d e s (depth_of s id) new) arrived))

  pub depth_of_new :
      (current : String) (d : ℕ) (e : GraphEdge) (s : Search)
      → depth_of (discover current d e s) e.target ≡ suc d
  unfolding discover get
  depth_of_new current d e s = rw (str_eq_refl e.target) refl

  pub new_known :
      (current : String) (d : ℕ) (e : GraphEdge) (s : Search)
      → has e.target (discover current d e s).depth ≡ true
  unfolding discover get
  new_known current d e s = rw (str_eq_refl e.target) refl

  pub spread-discover :
      (current : String) (d : ℕ) (e : GraphEdge) (s : Search) (n : ℕ) (qs : List String)
      → has e.target s.depth ≡ false
      → n ≤ suc d
      → Ordered s qs
      → All (λ (r : String). n ≤ depth_of s r) qs
      → All (λ (r : String). n ≤ depth_of (discover current d e s) r) (qs ++ e.target ∷ [])
  spread-discover current d e s n [] new few ordered deep =
      (omega (arith, few, depth_of_new current d e s), tt)
  spread-discover current d e s n (q ∷ qs) new few ordered deep = (
    omega (arith, deep.0, depth_of-discover current d e s q ordered.0 new),
    spread-discover current d e s n qs new few ordered.2 deep.1,
  )

  pub Ordered-discover :
      (current : String) (d : ℕ) (e : GraphEdge) (s : Search) (qs : List String)
      → has e.target s.depth ≡ false
      → Near s d
      → Ordered s qs
      → Ordered (discover current d e s) (qs ++ e.target ∷ [])
  unfolding discover get
  Ordered-discover current d e s [] new near ordered = (rw (str_eq_refl e.target) refl, tt, tt)
  Ordered-discover current d e s (q ∷ qs) new near ordered =
      let same = depth_of-discover current d e s q ordered.0 new in
      (
        has_mono q e.target (suc d) s.depth ordered.0,
        rw same (
            spread-discover current d e s (depth_of s q) qs new (near q ordered.0) ordered.2
              ordered.1),
        Ordered-discover current d e s qs new near ordered.2,
      )

  -- A node that is discovered is the new one or was discovered before.
  pub has-discover :
      (current : String) (d : ℕ) (e : GraphEdge) (s : Search) (id : String)
      → has id (discover current d e s).depth ≡ true
      → (id ≡ e.target) ⊎ (has id s.depth ≡ true)
  unfolding discover get
  has-discover current d e s id h = elim (Bool-cases (str_eq e.target id)) [
    | inl same ↦ inl (sym ((eq_iff e.target id).0 same))
    | inr other ↦ inr (rw other at h)
  ]

  pub mem_snoc : (x : String) (xs : List String) → Memᴰ x (xs ++ x ∷ [])
  mem_snoc x [] = Memᴰ.head refl
  mem_snoc x (y ∷ ys) = Memᴰ.tail (mem_snoc x ys)

  pub mem-append : (x y : String) (xs : List String) → Memᴰ x xs → Memᴰ x (xs ++ y ∷ [])
  mem-append x y [] member = elim member [ ]
  mem-append x y (z ∷ zs) (Memᴰ.head same) = Memᴰ.head same
  mem-append x y (z ∷ zs) (Memᴰ.tail member) = Memᴰ.tail (mem-append x y zs member)

  pub discover-IsVisiting :
      (current : String) (d : ℕ) (e : GraphEdge) (s : Search)
      → has e.target s.depth ≡ false
      → IsVisiting current d s
      → IsVisiting current d (discover current d e s)
  unfolding discover
  discover-IsVisiting current d e s new v = record {
    known = has_mono current e.target (suc d) s.depth v.known;
    at = depth_of-discover current d e s current v.known new ∙ v.at;
    ordered = Ordered-discover current d e s s.queue new v.near v.ordered;
    least = spread-discover current d e s d s.queue new (omega arith) v.ordered v.least;
    near = λ id h. elim (has-discover current d e s id h) [
      | inl same ↦ rw same (omega (arith, depth_of_new current d e s))
      | inr old ↦ omega (arith, v.near id old, depth_of-discover current d e s id old new)
    ];
    settled = λ id h. elim (has-discover current d e s id h) [
      | inl same ↦ inl (rw same (mem_snoc e.target s.queue))
      | inr old ↦ elim (v.settled id old) [
        | inl member ↦ inl (mem-append id e.target s.queue member)
        | inr (inl same) ↦ inr (inl same)
        | inr (inr done) ↦ inr (inr (Settled-discover current d e s id old new done))
      ]
    ];
    first = (
      has_mono from e.target (suc d) s.depth v.first.0,
      depth_of-discover current d e s from v.first.0 new ∙ v.first.1,
    );
  }
