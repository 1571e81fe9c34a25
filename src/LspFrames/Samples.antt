-- ===== src/LspFrames/Samples.antt =====
-- Two frames, the second cut in its header, and the theorems at them.
use my_pi.Prelude.{◌≡◌, refl, none, [], ◌∷◌, ◌++◌}
use my_pi.Prelude.Outcome.{ok}
use my_pi.LspFrames.{
  Bytes, header_end, lines_of, skip_spaces, read_digits, read_number, match_length, parse_lines,
  parse_content_length, take_frame, turn, drain, push,
}
use my_pi.LspFrames.Chunks.{push-settled, push-append, onto_all}

-- "Content-Length: "
abbrev field : Bytes
field =
    67 ∷ 111 ∷ 110 ∷ 116 ∷ 101 ∷ 110 ∷ 116 ∷ 45 ∷ 76 ∷ 101 ∷ 110 ∷ 103 ∷ 116 ∷ 104 ∷ 58 ∷ 32 ∷ []

-- A frame with the body "hi".
abbrev frame : Bytes
frame = field ++ 50 ∷ 13 ∷ 10 ∷ 13 ∷ 10 ∷ 104 ∷ 105 ∷ []

abbrev rest_of_second : Bytes
rest_of_second = 50 ∷ 13 ∷ 10 ∷ 13 ∷ 10 ∷ 104 ∷ 105 ∷ []

pushed : (push 16 [] (frame ++ field)).0 ≡ ok ((104 ∷ 105 ∷ []) ∷ [])
unfolding push drain turn header_end parse_content_length parse_lines match_length read_number
    read_digits skip_spaces lines_of take_frame
pushed = refl

push-settled_example : turn 16 (push 16 [] (frame ++ field)).1 ≡ ok none
push-settled_example = push-settled 16 [] (frame ++ field) ((104 ∷ 105 ∷ []) ∷ []) pushed

push-append_example :
    push 16 [] ((frame ++ field) ++ rest_of_second)
    ≡ onto_all 16 ((104 ∷ 105 ∷ []) ∷ []) (push 16 (push 16 [] (frame ++ field)).1 rest_of_second)
push-append_example =
    push-append 16 [] (frame ++ field) rest_of_second ((104 ∷ 105 ∷ []) ∷ []) pushed
