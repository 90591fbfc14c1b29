-- ===== src/Common/Text.antt =====
-- Text that the program walks: the list of the code units of a JavaScript string, with the string
-- methods that the program calls on it.
use Prim.Native.Nat.{ℕ, ◌+◌, ◌-◌}
use Prim.Native.Char.{code}
use Prim.Native.String.{String}
use mathlib.Core.Bool.{Bool, true, false, not, ◌&&◌, ◌||◌}
use mathlib.Core.Path.{◌≡◌, refl}
use mathlib.Core.Logic.{◌↔◌}
use mathlib.Core.List.{List, [], ◌∷◌, ◌++◌, reverse, reverse_aux, reverse-reverse}
use native.Mathlib.Omega.{arith}
use aerobi_api.Common.Tests.{◌==◌, leb, if◌then◌else◌}

abbrev pub Text : Type 0
Text = List ℕ

abbrev pub codes : String → Text
codes String.[] = []
codes (String.◌∷◌ c s) = code c ∷ codes s

-- The white space and line ends that `trim` removes and `\s` matches.
unfoldable pub is_space : ℕ → Bool
is_space c =
    (leb 9 c && leb c 13)
    || c == 32
    || c == 0xA0
    || c == 0x1680
    || (leb 0x2000 c && leb c 0x200A)
    || c == 0x2028
    || c == 0x2029
    || c == 0x202F
    || c == 0x205F
    || c == 0x3000
    || c == 0xFEFF

drop_spaces : Text → Text
drop_spaces [] = []
drop_spaces (c ∷ t) = if is_space c then drop_spaces t else c ∷ t

unfoldable pub trim : Text → Text
unfolding drop_spaces is_space
trim t = reverse (drop_spaces (reverse (drop_spaces t)))

unfoldable pub is_digit : ℕ → Bool
is_digit c = leb b'0' c && leb c b'9'

unfoldable pub is_upper : ℕ → Bool
is_upper c = leb b'A' c && leb c b'Z'

unfoldable pub is_lower : ℕ → Bool
is_lower c = leb b'a' c && leb c b'z'

-- `toUpperCase` and `toLowerCase`: `other` says what they make of a character outside ASCII.
module _ (other : ℕ → Text) where
  unfoldable pub to_upper : Text → Text
  unfolding is_lower
  to_upper [] = []
  to_upper (c ∷ t) =
      (if leb c 127 then (if is_lower c then c - 32 else c) ∷ [] else other c) ++ to_upper t

  unfoldable pub to_lower : Text → Text
  unfolding is_upper
  to_lower [] = []
  to_lower (c ∷ t) =
      (if leb c 127 then (if is_upper c then c + 32 else c) ∷ [] else other c) ++ to_lower t

abbrev pub same_text : Text → Text → Bool
same_text [] [] = true
same_text (a ∷ s) (b ∷ t) = a == b && same_text s t
same_text _ _ = false

pub same_text_iff : (s t : Text) → (same_text s t ≡ true) ↔ (s ≡ t)
same_text_iff [] [] = (λ _. refl, λ _. refl)
same_text_iff [] (b ∷ t) = ground arith
same_text_iff (a ∷ s) [] = ground arith
same_text_iff (a ∷ s) (b ∷ t) = ground (arith, same_text_iff s t)

-- `trim` leaves a text without white space as it is.
abbrev pub has_no_space : Text → Bool
has_no_space [] = true
has_no_space (c ∷ t) = not (is_space c) && has_no_space t

drop_spaces-id : (t : Text) → has_no_space t ≡ true → drop_spaces t ≡ t
unfolding drop_spaces
drop_spaces-id [] h = refl
drop_spaces-id (c ∷ t) h = ground arith

reverse_aux-has_no_space :
    (t acc : Text)
    → has_no_space t ≡ true
    → has_no_space acc ≡ true
    → has_no_space (reverse_aux t acc) ≡ true
reverse_aux-has_no_space [] acc h k = k
reverse_aux-has_no_space (c ∷ t) acc h k =
    reverse_aux-has_no_space t (c ∷ acc) (ground arith) (ground arith)

pub trim-id : (t : Text) → has_no_space t ≡ true → trim t ≡ t
unfolding trim
trim-id t h =
    let back : has_no_space (reverse t) ≡ true = reverse_aux-has_no_space t [] h refl in
    rw (drop_spaces-id t h, drop_spaces-id (reverse t) back) (reverse-reverse t)
