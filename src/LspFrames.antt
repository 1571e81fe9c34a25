-- ===== src/LspFrames.antt =====
-- The decoder of LSP frames (packages/lsp/src/frame-decoder.ts), on bytes.
pub mod Steps
pub mod Chunks
mod Samples
use my_pi.Prelude.{
  ℕ, zero, suc, ◌+◌, ◌-◌, ◌*◌, ◌^◌, ◌%◌, Option, none, some, List, [], ◌∷◌, ◌++◌, Bool, true, false,
  ◌&&◌, ◌||◌, not, leb, ltb, ◌==◌, if◌then◌else◌, length, take, drop, map,
}
use my_pi.Prelude.Outcome.{Outcome, ok, err, lsp_frame_error, ◌>>=◌}

abbrev pub Bytes : Type 0
Bytes = List ℕ

abbrev pub max_header_bytes : ℕ
max_header_bytes = 64 * 1024

abbrev pub max_safe_integer : ℕ
max_safe_integer = 2 ^ 53 - 1

-- `HEADER_TERMINATOR`: two line ends.
abbrev pub terminator : Bytes
terminator = 13 ∷ 10 ∷ 13 ∷ 10 ∷ []

abbrev pub starts : Bytes → Bytes → Bool
starts [] bs = true
starts (x ∷ xs) [] = false
starts (x ∷ xs) (b ∷ bs) = x == b && starts xs bs

abbrev pub after_first : Option ℕ → Option ℕ
after_first none = none
after_first (some n) = some (suc n)

-- `buffer.indexOf(HEADER_TERMINATOR)`
unfoldable pub header_end : Bytes → Option ℕ
header_end [] = none
header_end (b ∷ bs) =
    let rest = header_end bs in if starts terminator (b ∷ bs) then some 0 else after_first rest

abbrev pub onto_line : ℕ → List Bytes → List Bytes
onto_line b [] = (b ∷ []) ∷ []
onto_line b (l ∷ ls) = (b ∷ l) ∷ ls

-- `header.split("\r\n")`
unfoldable pub lines_of : Bytes → List Bytes
lines_of [] = [] ∷ []
lines_of (b ∷ []) = (b ∷ []) ∷ []
lines_of (b ∷ c ∷ bs) = elim (b == 13 && c == 10) [
  | true ↦ [] ∷ lines_of bs
  | false ↦ onto_line b (lines_of (c ∷ bs))
]

-- A letter in lower case.
abbrev pub lower : ℕ → ℕ
lower b = if leb 65 b && leb b 90 then b + 32 else b

-- "content-length:"
abbrev pub field_name : Bytes
field_name =
    99 ∷ 111 ∷ 110 ∷ 116 ∷ 101 ∷ 110 ∷ 116 ∷ 45 ∷ 108 ∷ 101 ∷ 110 ∷ 103 ∷ 116 ∷ 104 ∷ 58 ∷ []

-- `\s` and `\d` of the regular expression.
abbrev pub is_space : ℕ → Bool
is_space b = (leb 9 b && leb b 13) || b == 32

abbrev pub is_digit : ℕ → Bool
is_digit b = leb 48 b && leb b 57

unfoldable pub skip_spaces : Bytes → Bytes
skip_spaces [] = []
skip_spaces (b ∷ bs) = let rest = skip_spaces bs in if is_space b then rest else b ∷ bs

-- The digits, as the number so far, and what may follow them.
unfoldable pub read_digits : ℕ → Bytes → Option ℕ
unfolding skip_spaces
read_digits n [] = some n
read_digits n (b ∷ bs) =
    let rest = read_digits (n * 10 + (b - 48)) bs in
    if is_digit b then rest else elim (skip_spaces (b ∷ bs)) [ [] ↦ some n | c ∷ cs ↦ none ]

unfoldable pub read_number : Bytes → Option ℕ
unfolding read_digits
read_number [] = none
read_number (b ∷ bs) = if is_digit b then read_digits (b - 48) bs else none

-- `/^Content-Length:\s*(\d+)\s*$/i.exec(line)`, with its group as a number.
unfoldable pub match_length : Bytes → Option ℕ
unfolding read_number
match_length line =
    if starts field_name (map lower line) then read_number (skip_spaces (drop 15 line)) else none

-- The loop of `parseContentLength`, with `length`.
unfoldable pub parse_lines : Option ℕ → List Bytes → Outcome (Option ℕ)
unfolding match_length
parse_lines found [] = ok found
parse_lines found (line ∷ rest) = elim (match_length line) [
  | none ↦ parse_lines found rest
  | some n ↦ elim found [
    | none ↦ (if leb n max_safe_integer then parse_lines (some n) rest else err lsp_frame_error)
    | some m ↦ err lsp_frame_error
  ]
]

abbrev pub or_missing : Option ℕ → Outcome ℕ
or_missing none = err lsp_frame_error
or_missing (some n) = ok n

-- `parseContentLength`
unfoldable pub parse_content_length : Bytes → Outcome ℕ
unfolding lines_of parse_lines
parse_content_length header = parse_lines none (lines_of header) >>= or_missing

-- `toString("ascii")`
abbrev pub ascii : Bytes → Bytes
ascii = map (λ b. b % 128)

-- One turn of the loop of `push`: the frame and what is left of the buffer, or nothing to do yet.
module _ (max_frame_bytes : ℕ) where
  unfoldable pub take_frame : ℕ → ℕ → Bytes → Outcome (Option (Bytes × Bytes))
  take_frame end content_length buffer =
      if ltb max_frame_bytes content_length
      then err lsp_frame_error
      else if ltb (length buffer) (end + 4 + content_length)
      then ok none
      else ok (
          some (
            take content_length (drop (end + 4) buffer),
            drop content_length (drop (end + 4) buffer),
          ))

  unfoldable pub turn : Bytes → Outcome (Option (Bytes × Bytes))
  unfolding header_end parse_content_length take_frame
  turn buffer = elim (header_end buffer) [
    | none ↦ (if ltb max_header_bytes (length buffer) then err lsp_frame_error else ok none)
    | some end ↦ parse_content_length (ascii (take end buffer)) >>= λ n. take_frame end n buffer
  ]

  abbrev pub onto_frames : Bytes → Outcome (List Bytes) → Outcome (List Bytes)
  onto_frames frame (ok fs) = ok (frame ∷ fs)
  onto_frames frame (err c) = err c

  -- The loop of `push`: the frames, or the error, and the buffer that is left in either case.
  unfoldable pub drain : ℕ → Bytes → Outcome (List Bytes) × Bytes
  unfolding turn
  drain zero buffer = (ok [], buffer)
  drain (suc n) buffer = elim (turn buffer) [
    | err c ↦ (err c, buffer)
    | ok none ↦ (ok [], buffer)
    | ok (some p) ↦ (let r = drain n p.1 in (onto_frames p.0 r.0, r.1))
  ]

  -- `push`. A turn that goes on takes at least four bytes, so the buffer's length is fuel enough.
  unfoldable pub push : Bytes → Bytes → Outcome (List Bytes) × Bytes
  unfolding drain
  push buffer chunk = drain (suc (length (buffer ++ chunk))) (buffer ++ chunk)
