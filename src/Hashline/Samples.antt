-- ===== src/Hashline/Samples.antt =====
-- A text with one anchor, and the theorem at it.
use my_pi.Prelude.{◌≡◌, ◌↔◌, refl, [], ◌∷◌}
use my_pi.Prelude.Outcome.{ok}
use my_pi.Hashline.{Hunk, apply_hunks}
use my_pi.Hashline.Edits.{Edits, apply_hunks-iff_Edits}

abbrev hunk : Hunk
hunk = record { old = 2 ∷ 3 ∷ []; new = 7 ∷ [] }

apply_hunks-iff_Edits_example :
    (apply_hunks (1 ∷ 2 ∷ 3 ∷ 4 ∷ []) (hunk ∷ []) ≡ ok (1 ∷ 7 ∷ 4 ∷ []))
    ↔ Edits (1 ∷ 2 ∷ 3 ∷ 4 ∷ []) (hunk ∷ []) (1 ∷ 7 ∷ 4 ∷ [])
apply_hunks-iff_Edits_example =
    apply_hunks-iff_Edits (1 ∷ 2 ∷ 3 ∷ 4 ∷ []) (hunk ∷ []) (1 ∷ 7 ∷ 4 ∷ [])

overlapping :
    apply_hunks (2 ∷ 2 ∷ 2 ∷ []) (record { old = 2 ∷ 2 ∷ []; new = 7 ∷ [] } ∷ []) ≡ ok (7 ∷ 2 ∷ [])
unfolding apply_hunks
overlapping = refl
