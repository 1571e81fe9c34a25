-- ===== src/LspFrames/Chunks.antt =====
-- The decoder's loop: it runs to the end, and where the stream is cut does not matter.
use my_pi.Prelude.{
  ℕ, zero, suc, ◌+◌, ◌≡◌, ◌<◌, refl, ap, sym, ◌∙◌, ◌⊎◌, inl, inr, Option, none, some, List, [], ◌∷◌,
  ◌++◌, arith, length, length-append, length-drop, drop,
}
use mathlib.Core.List.{append_assoc}
use my_pi.Prelude.Outcome.{Outcome, ok, err, ErrorCode, ok-injective}
use my_pi.LspFrames.{Bytes, onto_frames, turn, drain, push}
use my_pi.LspFrames.Steps.{IsFrame, turn-IsFrame, IsFrame-turn, IsFrame-append}

module _ (max_frame_bytes : ℕ) where
  abbrev Turn : Type 0
  Turn = Outcome (Option (Bytes × Bytes))

  turn-cases :
      (o : Turn)
      → ((f : Bytes) × (r : Bytes) × (o ≡ ok (some (f, r))))
        ⊎ ((o ≡ ok none) ⊎ ((c : ErrorCode) × (o ≡ err c)))
  turn-cases (ok (some p)) = inl (p.0, p.1, refl)
  turn-cases (ok none) = inr (inl refl)
  turn-cases (err c) = inr (inr (c, refl))

  IsFrame-shorter :
      (buffer f r : Bytes) → IsFrame max_frame_bytes buffer f r → length r < length buffer
  IsFrame-shorter buffer f r h = omega (
    arith,
    h.complete,
    ap length h.left,
    length-drop (h.end + 4) buffer,
    length-drop h.content_length (drop (h.end + 4) buffer),
  )

  shorter :
      (buffer f r : Bytes)
      → turn max_frame_bytes buffer ≡ ok (some (f, r))
      → length r < length buffer
  shorter buffer f r h = IsFrame-shorter buffer f r (turn-IsFrame max_frame_bytes buffer f r h)

  module _ (n : ℕ) (buffer : Bytes) where
    drain-some :
        (f r : Bytes)
        → turn max_frame_bytes buffer ≡ ok (some (f, r))
        → drain max_frame_bytes (suc n) buffer ≡ (
          onto_frames max_frame_bytes f (drain max_frame_bytes n r).0,
          (drain max_frame_bytes n r).1,
        )
    unfolding drain
    drain-some f r e = rw (drain, e) refl

    drain-none :
        turn max_frame_bytes buffer ≡ ok none
        → drain max_frame_bytes (suc n) buffer ≡ (ok [], buffer)
    unfolding drain
    drain-none e = rw (drain, e) refl

    drain-err :
        (c : ErrorCode)
        → turn max_frame_bytes buffer ≡ err c
        → drain max_frame_bytes (suc n) buffer ≡ (err c, buffer)
    unfolding drain
    drain-err c e = rw (drain, e) refl

  onto-eq-ok :
      (f : Bytes) (q : Outcome (List Bytes) × Bytes) (fs : List Bytes)
      → onto_frames max_frame_bytes f q.0 ≡ ok fs
      → (gs : List Bytes) × (q.0 ≡ ok gs) × (f ∷ gs ≡ fs)
  onto-eq-ok f (ok gs, b) fs h = (gs, refl, ok-injective _ _ h)
  onto-eq-ok f (err c, b) fs h = cc

  abbrev onto : Bytes → Outcome (List Bytes) × Bytes → Outcome (List Bytes) × Bytes
  onto f q = (onto_frames max_frame_bytes f q.0, q.1)

  -- Fuel beyond the buffer's length makes no difference.
  drain-fuel :
      (n m : ℕ) (buffer : Bytes)
      → length buffer < n
      → length buffer < m
      → drain max_frame_bytes n buffer ≡ drain max_frame_bytes m buffer
  drain-fuel zero m buffer h k = absurd (omega (arith, h))
  drain-fuel (suc n) zero buffer h k = absurd (omega (arith, k))
  drain-fuel (suc n) (suc m) buffer h k = elim (turn-cases (turn max_frame_bytes buffer)) [
    | inl (f, r, e) ↦
        let less = shorter buffer f r e in
        drain-some n buffer f r e
        ∙ ap (onto f) (drain-fuel n m r (omega (arith, h, less)) (omega (arith, k, less)))
        ∙ sym (drain-some m buffer f r e)
    | inr (inl e) ↦ drain-none n buffer e ∙ sym (drain-none m buffer e)
    | inr (inr (c, e)) ↦ drain-err n buffer c e ∙ sym (drain-err m buffer c e)
  ]

  -- With that fuel the loop ends by itself: it threw, or the buffer holds no whole frame.
  drain-Settled :
      (n : ℕ) (buffer : Bytes) (fs : List Bytes)
      → length buffer < n
      → (drain max_frame_bytes n buffer).0 ≡ ok fs
      → turn max_frame_bytes (drain max_frame_bytes n buffer).1 ≡ ok none
  drain-Settled zero buffer fs h k = absurd (omega (arith, h))
  drain-Settled (suc n) buffer fs h k = elim (turn-cases (turn max_frame_bytes buffer)) [
    | inl (f, r, e) ↦
        let step = drain-some n buffer f r e in
        let (gs, more, all_of) =
          onto-eq-ok f (drain max_frame_bytes n r) fs
            (sym (ap (λ (q : Outcome (List Bytes) × Bytes). q.0) step) ∙ k) in
        ap (λ (q : Outcome (List Bytes) × Bytes). turn max_frame_bytes q.1) step
        ∙ drain-Settled n r gs (omega (arith, h, shorter buffer f r e)) more
    | inr (inl e) ↦
        ap (λ (q : Outcome (List Bytes) × Bytes). turn max_frame_bytes q.1) (drain-none n buffer e)
        ∙ e
    | inr (inr (c, e)) ↦
        cc (sym (ap (λ (q : Outcome (List Bytes) × Bytes). q.0) (drain-err n buffer c e)) ∙ k)
  ]

  -- The frames of a first run before those of a second.
  abbrev pub onto_all : List Bytes → Outcome (List Bytes) × Bytes → Outcome (List Bytes) × Bytes
  onto_all [] q = q
  onto_all (f ∷ fs) q = (onto_frames max_frame_bytes f (onto_all fs q).0, (onto_all fs q).1)

  drain-append :
      (n m k : ℕ) (buffer more : Bytes) (fs : List Bytes)
      → length buffer < n
      → length (buffer ++ more) < m
      → length (buffer ++ more) < k
      → (drain max_frame_bytes n buffer).0 ≡ ok fs
      → drain max_frame_bytes m (buffer ++ more)
        ≡ onto_all fs (drain max_frame_bytes k ((drain max_frame_bytes n buffer).1 ++ more))
  drain-append zero m k buffer more fs h j l e = absurd (omega (arith, h))
  drain-append (suc n) zero k buffer more fs h j l e = absurd (omega (arith, j))
  drain-append (suc n) (suc m) k buffer more fs h j l e =
      elim (turn-cases (turn max_frame_bytes buffer)) [
        | inl (f, r, t) ↦
            let less = shorter buffer f r t in
            let step = drain-some n buffer f r t in
            let (gs, more_frames, all_of) =
              onto-eq-ok f (drain max_frame_bytes n r) fs
                (sym (ap (λ (q : Outcome (List Bytes) × Bytes). q.0) step) ∙ e) in
            let whole = length-append buffer more in
            let rest = length-append r more in
            drain-some m (buffer ++ more) f (r ++ more) (
              IsFrame-turn max_frame_bytes (buffer ++ more) f (r ++ more) (
                IsFrame-append max_frame_bytes buffer more f r
                  (turn-IsFrame max_frame_bytes buffer f r t)))
            ∙ ap (onto f) (
                drain-append n m k r more gs (omega (arith, h, less))
                  (omega (arith, j, less, whole, rest)) (omega (arith, l, less, whole, rest))
                  more_frames)
            ∙ ap (λ (b : Bytes). onto_all (f ∷ gs) (drain max_frame_bytes k (b ++ more)))
                (sym (ap (λ (q : Outcome (List Bytes) × Bytes). q.1) step))
            ∙ ap
                (λ (l : List Bytes).
                  onto_all l
                    (drain max_frame_bytes k ((drain max_frame_bytes (suc n) buffer).1 ++ more)))
                all_of
        | inr (inl t) ↦
            let step = drain-none n buffer t in
            let no_frames : [] ≡ fs =
              ok-injective _ _ (sym (ap (λ (q : Outcome (List Bytes) × Bytes). q.0) step) ∙ e) in
            drain-fuel (suc m) k (buffer ++ more) j l
            ∙ ap (λ (b : Bytes). drain max_frame_bytes k (b ++ more))
                (sym (ap (λ (q : Outcome (List Bytes) × Bytes). q.1) step))
            ∙ ap
                (λ (l : List Bytes).
                  onto_all l
                    (drain max_frame_bytes k ((drain max_frame_bytes (suc n) buffer).1 ++ more)))
                no_frames
        | inr (inr (c, t)) ↦
            cc (sym (ap (λ (q : Outcome (List Bytes) × Bytes). q.0) (drain-err n buffer c t)) ∙ e)
      ]

  -- A `push` that returns has handed out every whole frame: with what it leaves, a turn of the loop
  -- does nothing, so its fuel was enough.
  pub push-settled :
      (buffer chunk : Bytes) (fs : List Bytes)
      → (push max_frame_bytes buffer chunk).0 ≡ ok fs
      → turn max_frame_bytes (push max_frame_bytes buffer chunk).1 ≡ ok none
  unfolding push
  push-settled buffer chunk fs h =
      drain-Settled (suc (length (buffer ++ chunk))) (buffer ++ chunk) fs (omega arith) h

  -- If the first of two chunks can be pushed, then pushing both as one chunk gives the frames of
  -- the first push and then what the second push gives, its error included, and the same buffer.
  pub push-append :
      (buffer chunk more : Bytes) (fs : List Bytes)
      → (push max_frame_bytes buffer chunk).0 ≡ ok fs
      → push max_frame_bytes buffer (chunk ++ more)
        ≡ onto_all fs (push max_frame_bytes (push max_frame_bytes buffer chunk).1 more)
  unfolding push
  push-append buffer chunk more fs h =
      let whole : Bytes = buffer ++ chunk in
      let left : Bytes = (push max_frame_bytes buffer chunk).1 in
      let k : ℕ = suc (length (whole ++ more) + length (left ++ more)) in
      ap (λ (b : Bytes). drain max_frame_bytes (suc (length b)) b)
        (sym (append_assoc buffer chunk more))
      ∙ drain-append (suc (length whole)) (suc (length (whole ++ more))) k whole more fs
          (omega arith) (omega arith) (omega arith) h
      ∙ ap (onto_all fs)
          (drain-fuel k (suc (length (left ++ more))) (left ++ more) (omega arith) (omega arith))
