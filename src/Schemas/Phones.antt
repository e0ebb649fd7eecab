-- ===== src/Schemas/Phones.antt =====
-- `normalize_phone` and `normalize_upi_id`.
use Prim.Native.Char.{Char, code}
use stranger_club.Base.{
  String, ◌≡◌, refl, Bool, true, ◌&&◌, ◌||◌, Option, none, some, ◌==◌, leb, or_default, length,
  all_characters, if◌then◌else◌, arith,
}

abbrev pub is_digit : Char → Bool
is_digit c = leb b'0' (code c) && leb (code c) b'9'

-- `value.replace(" ", "").replace("-", "")`
unfoldable pub without_separators : String → String
without_separators String.[] = String.[]
without_separators (String.◌∷◌ c s) =
    let rest = without_separators s in
    if code c == b' ' || code c == b'-' then rest else String.◌∷◌ c rest

-- What follows a prefix, if the text has it.
unfoldable pub after_prefix : String → String → Option String
after_prefix String.[] s = some s
after_prefix (String.◌∷◌ p ps) String.[] = none
after_prefix (String.◌∷◌ p ps) (String.◌∷◌ c s) =
    let rest = after_prefix ps s in if code p == code c then rest else none

abbrev pub is_phone : String → Bool
is_phone s = all_characters is_digit s && length s == 10

unfoldable pub normalize_phone : String → Option String
normalize_phone value =
    let digits = without_separators value in
    let cleaned = or_default (after_prefix "+91" digits) digits in
    if is_phone cleaned then some cleaned else none

without_separators-digits :
    (s : String) → all_characters is_digit s ≡ true → without_separators s ≡ s
unfolding all_characters without_separators
without_separators-digits String.[] h = refl
without_separators-digits (String.◌∷◌ c s) h = ground (arith, without_separators-digits s)

after_prefix-digits : (s : String) → all_characters is_digit s ≡ true → after_prefix "+91" s ≡ none
unfolding all_characters after_prefix
after_prefix-digits String.[] h = refl
after_prefix-digits (String.◌∷◌ c s) h = ground arith

-- A phone number that is accepted has ten digits, and is accepted unchanged when it is given again.
pub normalize_phone_idem :
    (value phone : String)
    → normalize_phone value ≡ some phone
    → (all_characters is_digit phone ≡ true)
      × (length phone ≡ 10)
      × (normalize_phone phone ≡ some phone)
unfolding normalize_phone
normalize_phone_idem value phone h =
    ground (arith, without_separators-digits phone, after_prefix-digits phone)
