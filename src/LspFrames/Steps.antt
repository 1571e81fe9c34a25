-- ===== src/LspFrames/Steps.antt =====
-- One turn of the decoder's loop, on a buffer and on a longer one.
use my_pi.Prelude.{
  ℕ, zero, suc, ◌+◌, ◌≡◌, ◌≤◌, refl, ap, sym, ◌∙◌, inl, inr, Option, none, some, List, [], ◌∷◌,
  ◌++◌, true, false, arith, ltb, length, take, drop, length-append, length-drop, Bool-cases,
  Option-cases, Option-cases,
}
use my_pi.Prelude.Outcome.{ok, >>=-eq-ok}
use my_pi.LspFrames.{
  Bytes, starts, after_first, terminator, header_end, parse_content_length, ascii, take_frame, turn,
}
use mathlib.Core.Option.{some-injective}

starts-append :
    (p bs more : Bytes)
    → starts p bs ≡ true
    → (starts p (bs ++ more) ≡ true) × (length p ≤ length bs)
starts-append [] bs more h = (refl, omega arith)
starts-append (x ∷ p) [] more h = cc
starts-append (x ∷ p) (b ∷ bs) more h =
    let (rest, short) = starts-append p bs more (ground arith) in
    (ground arith, omega (arith, short))

starts-append_not :
    (p bs more : Bytes) → length p ≤ length bs → starts p bs ≡ false → starts p (bs ++ more) ≡ false
starts-append_not [] bs more short h = cc
starts-append_not (x ∷ p) [] more short h = absurd (omega (arith, short))
starts-append_not (x ∷ p) (b ∷ bs) more short h =
    ground (arith, starts-append_not p bs more (omega (arith, short)))

pub header_end-append :
    (bs more : Bytes) (n : ℕ)
    → header_end bs ≡ some n
    → (header_end (bs ++ more) ≡ some n) × (n + 4 ≤ length bs)
unfolding header_end
header_end-append [] more n h = cc
header_end-append (b ∷ bs) more n h = elim (Bool-cases (starts terminator (b ∷ bs))) [
  | inl here ↦
      let (there, short) = starts-append terminator (b ∷ bs) more here in
      let n_is : 0 ≡ n = some-injective _ _ (rw here at h) in
      (rw there (ap some n_is), omega (arith, short, n_is))
  | inr not_here ↦ go (header_end-append bs more) not_here (header_end bs) refl (rw not_here at h)
]
  where
    go :
        ((m : ℕ)
          → header_end bs ≡ some m
          → (header_end (bs ++ more) ≡ some m) × (m + 4 ≤ length bs))
        → starts terminator (b ∷ bs) ≡ false
        → (o : Option ℕ) → header_end bs ≡ o
        → after_first o ≡ some n
        → (header_end (b ∷ bs ++ more) ≡ some n) × (n + 4 ≤ suc (length bs))
    go later not_here none e k = cc
    go later not_here (some m) e k =
        let (there, short) = later m e in
        let n_is : suc m ≡ n = some-injective _ _ k in
        let still : starts terminator (b ∷ bs ++ more) ≡ false =
          starts-append_not terminator (b ∷ bs) more (omega (arith, short)) not_here in
        (rw (still, there) (ap some n_is), omega (arith, short, n_is))

module _ {ℓ} {A : Type ℓ} where
  pub take-append : (n : ℕ) (xs ys : List A) → n ≤ length xs → take n (xs ++ ys) ≡ take n xs
  take-append zero xs ys h = refl
  take-append (suc n) [] ys h = absurd (omega (arith, h))
  take-append (suc n) (x ∷ xs) ys h = ap (λ l. x ∷ l) (take-append n xs ys (omega (arith, h)))

  pub drop-append : (n : ℕ) (xs ys : List A) → n ≤ length xs → drop n (xs ++ ys) ≡ drop n xs ++ ys
  drop-append zero xs ys h = refl
  drop-append (suc n) [] ys h = absurd (omega (arith, h))
  drop-append (suc n) (x ∷ xs) ys h = drop-append n xs ys (omega (arith, h))

ltb_no : (m n : ℕ) → n ≤ m → ltb m n ≡ false
ltb_no m n h = ground arith

module _ (max_frame_bytes : ℕ) where
  -- A turn that yields a frame, in parts.
  pub record IsFrame (buffer frame rest : Bytes) : Type 0 where
    pub end : ℕ
    pub content_length : ℕ
    pub ended : header_end buffer ≡ some end
    pub parsed : parse_content_length (ascii (take end buffer)) ≡ ok content_length
    pub within : ltb max_frame_bytes content_length ≡ false
    pub complete : end + 4 + content_length ≤ length buffer
    pub body : frame ≡ take content_length (drop (end + 4) buffer)
    pub left : rest ≡ drop content_length (drop (end + 4) buffer)

  take_frame-eq-ok :
      (end n : ℕ) (buffer frame rest : Bytes)
      → take_frame max_frame_bytes end n buffer ≡ ok (some (frame, rest))
      → (ltb max_frame_bytes n ≡ false)
        × (end + 4 + n ≤ length buffer)
        × (frame ≡ take n (drop (end + 4) buffer))
        × (rest ≡ drop n (drop (end + 4) buffer))
  unfolding take_frame
  take_frame-eq-ok end n buffer frame rest h = ground arith

  pub turn-IsFrame :
      (buffer frame rest : Bytes)
      → turn max_frame_bytes buffer ≡ ok (some (frame, rest))
      → IsFrame buffer frame rest
  unfolding turn
  turn-IsFrame buffer frame rest h = elim (Option-cases (header_end buffer)) [
    | inl no_header ↦ ground arith
    | inr (end, ended) ↦
        let (n, parsed, taken) =
          >>=-eq-ok (parse_content_length (ascii (take end buffer)))
            (λ n. take_frame max_frame_bytes end n buffer) (rw (ended, turn) at h) in
        let (within, complete, body, left) = take_frame-eq-ok end n buffer frame rest taken in
        record {
          end = end;
          content_length = n;
          ended = ended;
          parsed = parsed;
          within = within;
          complete = complete;
          body = body;
          left = left;
        }
  ]

  pub IsFrame-turn :
      (buffer frame rest : Bytes)
      → IsFrame buffer frame rest
      → turn max_frame_bytes buffer ≡ ok (some (frame, rest))
  unfolding turn take_frame
  IsFrame-turn buffer frame rest f =
      let fits : ltb (length buffer) (f.end + 4 + f.content_length) ≡ false =
        ltb_no _ _ f.complete in
      rw (turn, f.ended, f.parsed, take_frame, f.within, fits)
        (ap ok (
          ap some (
            sym (
              ap (λ x. (x, rest)) f.body
              ∙ ap (λ x. (take f.content_length (drop (f.end + 4) buffer), x)) f.left))))

  -- More bytes at the end do not change a frame.
  pub IsFrame-append :
      (buffer more frame rest : Bytes)
      → IsFrame buffer frame rest
      → IsFrame (buffer ++ more) frame (rest ++ more)
  IsFrame-append buffer more frame rest f =
      let (ended, short) = header_end-append buffer more f.end f.ended in
      let fits : f.content_length ≤ length (drop (f.end + 4) buffer) =
        omega (arith, f.complete, length-drop (f.end + 4) buffer) in
      record {
        end = f.end;
        content_length = f.content_length;
        ended = ended;
        parsed = rw (take-append f.end buffer more (omega (arith, short))) f.parsed;
        within = f.within;
        complete = omega (arith, f.complete, length-append buffer more);
        body =
            f.body
            ∙ sym (
                ap (take f.content_length) (drop-append (f.end + 4) buffer more short)
                ∙ take-append f.content_length _ more fits);
        left =
            ap (λ l. l ++ more) f.left
            ∙ sym (
                ap (drop f.content_length) (drop-append (f.end + 4) buffer more short)
                ∙ drop-append f.content_length _ more fits);
      }
