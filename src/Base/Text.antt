-- ===== src/Base/Text.antt =====
-- Python's `str.strip`, `len` and `str.isalnum` over ASCII, for the text fields of the requests.
use Prim.Native.Nat.{ℕ, suc}
use Prim.Native.Char.{Char, code}
use Prim.Native.String.{String, [], ◌∷◌}
use mathlib.Core.Bool.{Bool, true, ◌&&◌, ◌||◌}
use stranger_club.Base.Tests.{leb, str_eq, if◌then◌else◌}

-- The ASCII characters that `str.isspace` accepts.
abbrev pub is_space : Char → Bool
is_space c = (leb 9 (code c) && leb (code c) 13) || (leb 28 (code c) && leb (code c) 32)

unfoldable pub strip_left : String → String
strip_left [] = []
strip_left (c ∷ s) = let rest = strip_left s in if is_space c then rest else c ∷ s

unfoldable pub strip_right : String → String
strip_right [] = []
strip_right (c ∷ s) =
    let rest = strip_right s in if is_space c && str_eq rest "" then [] else c ∷ rest

unfoldable pub strip : String → String
unfolding strip_left strip_right
strip s = strip_right (strip_left s)

unfoldable pub length : String → ℕ
length [] = 0
length (c ∷ s) = suc (length s)

unfoldable pub is_alphanumeric : Char → Bool
is_alphanumeric c =
    (leb b'0' (code c) && leb (code c) b'9')
    || (leb b'A' (code c) && leb (code c) b'Z')
    || (leb b'a' (code c) && leb (code c) b'z')

unfoldable pub all_characters : (Char → Bool) → String → Bool
all_characters p [] = true
all_characters p (c ∷ s) = p c && all_characters p s
