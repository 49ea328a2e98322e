-- ===== src/Common/Texts.antt =====
-- Searches in texts, as lists of bytes.
use mathlib.Core.Bool.{Bool, true, false, ◌&&◌, ◌||◌}
use mathlib.Core.Option.{Option, none, some}
use mathlib.Core.List.{List, [], ◌∷◌, map}
use Prim.Native.Nat.{ℕ, ◌+◌}
use stwo_starknet_verifier.Common.Tests.{◌==◌, leb, if◌then◌else◌}

-- `text.strip_prefix(prefix)`
abbrev pub after_prefix : List ℕ → List ℕ → Option (List ℕ)
after_prefix [] text = some text
after_prefix (p ∷ ps) [] = none
after_prefix (p ∷ ps) (c ∷ cs) = let rest = after_prefix ps cs in if p == c then rest else none

abbrev pub starts_with : List ℕ → List ℕ → Bool
starts_with prefix text = elim (after_prefix prefix text) [ some rest ↦ true | none ↦ false ]

-- What stands behind the first place where `word` is found.
abbrev pub behind : List ℕ → List ℕ → Option (List ℕ)
behind word [] = after_prefix word []
behind word (c ∷ cs) = elim (after_prefix word (c ∷ cs)) [
  | some rest ↦ some rest
  | none ↦ behind word cs
]

-- `text.contains(word)`
abbrev pub contains : List ℕ → List ℕ → Bool
contains word text = elim (behind word text) [ some rest ↦ true | none ↦ false ]

abbrev pub is_digit : ℕ → Bool
is_digit c = leb b'0' c && leb c b'9'

abbrev pub is_hexdigit : ℕ → Bool
is_hexdigit c = is_digit c || ((leb b'a' c && leb c b'f') || (leb b'A' c && leb c b'F'))

-- `take_while`
abbrev pub take_while : (ℕ → Bool) → List ℕ → List ℕ
take_while test [] = []
take_while test (c ∷ cs) = let rest = take_while test cs in if test c then c ∷ rest else []

-- `to_ascii_lowercase`
abbrev pub lower : ℕ → ℕ
lower c = if leb b'A' c && leb c b'Z' then c + 32 else c

abbrev pub to_ascii_lowercase : List ℕ → List ℕ
to_ascii_lowercase text = map lower text
