-- ===== src/Utils/Wildcard.antt =====
-- `wildcard_match` of utils.cpp. A C string is the list of its bytes before the NUL.
pub mod Laws
use dpitunnel_cli.Prelude.{ℕ, Bool, true, false, [], ◌∷◌, Bytes, is_empty, ◌==◌, if◌then◌else◌}

-- The loop of the case '*': the rest of the pattern is tried at each byte that is left, and not
-- at the end of the text.
try_from : (Bytes → Bool) → Bytes → Bool
try_from rest [] = false
try_from rest (c ∷ h) = if rest (c ∷ h) then true else try_from rest h

-- One round of the `for` over the pattern; `rest` is what follows, and `last` says that it is empty.
round : ℕ → Bool → (Bytes → Bool) → Bytes → Bool
unfolding try_from
round c last rest [] = if c == b'?' then false else if c == b'*' then last else false
round c last rest (d ∷ h) =
    if c == b'?'
    then rest h
    else if c == b'*'
    then (if last then true else try_from rest (d ∷ h))
    else if d == c
    then rest h
    else false

unfoldable pub wildcard_match : Bytes → Bytes → Bool
unfolding round is_empty
wildcard_match [] haystack = is_empty haystack
wildcard_match (c ∷ needle) haystack = round c (is_empty needle) (wildcard_match needle) haystack
