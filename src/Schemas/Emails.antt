-- ===== src/Schemas/Emails.antt =====
-- `normalize_email`: the form in which emails are stored and compared.
use Prim.Native.Char.{Char, code}
use stranger_club.Base.{
  ℕ, zero, suc, ◌-◌, ◌<◌, String, ◌≡◌, refl, Bool, true, ◌&&◌, leb, ltb, strip, length,
  all_characters, if◌then◌else◌, arith,
}

abbrev letters : String
letters = "abcdefghijklmnopqrstuvwxyz"

-- The character at an index of a text, or the default past its end.
unfoldable nth : ℕ → String → Char → Char
nth i String.[] default = default
nth zero (String.◌∷◌ c s) default = c
nth (suc i) (String.◌∷◌ c s) default = nth i s default

abbrev pub is_upper : Char → Bool
is_upper c = leb b'A' (code c) && leb (code c) b'Z'

-- `str.lower` of one character
unfoldable pub lower_character : Char → Char
unfolding nth
lower_character c = if is_upper c then nth (code c - b'A') letters c else c

-- `str.lower`, and `lower` of the database
unfoldable pub lower : String → String
unfolding lower_character
lower String.[] = String.[]
lower (String.◌∷◌ c s) = String.◌∷◌ (lower_character c) (lower s)

unfoldable pub normalize_email : String → String
normalize_email value = lower (strip value)

abbrev is_small : Char → Bool
is_small c = ltb b'Z' (code c)

nth-all :
    (p : Char → Bool) (i : ℕ) (s : String) (default : Char)
    → all_characters p s ≡ true
    → i < length s
    → p (nth i s default) ≡ true
unfolding nth all_characters length
nth-all p i String.[] default h l = elim l [ ]
nth-all p zero (String.◌∷◌ c s) default h l = ground arith
nth-all p (suc i) (String.◌∷◌ c s) default h l = ground (arith, nth-all p i s default)

letters-small : all_characters is_small letters ≡ true
unfolding all_characters
letters-small = refl

letters-length : length letters ≡ 26
unfolding length
letters-length = refl

lower_character_idem : (c : Char) → lower_character (lower_character c) ≡ lower_character c
unfolding lower_character
lower_character_idem c =
    ground (arith, nth-all is_small (code c - b'A') letters c letters-small, letters-length)

pub lower_idem : (s : String) → lower (lower s) ≡ lower s
unfolding lower
lower_idem String.[] = refl
lower_idem (String.◌∷◌ c s) = cc (lower_character_idem c, lower_idem s)

-- Emails that differ in case and outer blanks only have one form.
pub lower-normalize_email : (value : String) → lower (normalize_email value) ≡ normalize_email value
unfolding normalize_email
lower-normalize_email value = lower_idem (strip value)
