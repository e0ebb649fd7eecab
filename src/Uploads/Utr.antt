-- ===== src/Uploads/Utr.antt =====
-- `validate_utr`: an optional reference of 6 to 30 letters and digits.
use stranger_club.Base.{
  ◌≤◌, String, ◌≡◌, refl, Bool, true, ◌&&◌, Option, none, some, leb, str_eq, strip, strip_left,
  strip_right, length, is_alphanumeric, all_characters, if◌then◌else◌, arith,
}
use stranger_club.Exec.{Error, api_error, Result, ok, err}

-- UTR_PATTERN, `^[A-Za-z0-9]{6,30}$`, on a text that has been stripped.
unfoldable pub matches_utr : String → Bool
matches_utr s = all_characters is_alphanumeric s && leb 6 (length s) && leb (length s) 30

abbrev pub invalid_utr : Error
invalid_utr = api_error 422 "VALIDATION_ERROR"

unfoldable pub check_utr : String → Result (Option String)
check_utr s =
    if str_eq s "" then ok none else if matches_utr s then ok (some s) else err invalid_utr

unfoldable pub validate_utr : Option String → Result (Option String)
unfolding check_utr
validate_utr none = ok none
validate_utr (some value) = check_utr (strip value)

-- A letter or digit is no white space, so such a text is its own stripped form.
strip_left-alphanumeric : (s : String) → all_characters is_alphanumeric s ≡ true → strip_left s ≡ s
unfolding strip_left is_alphanumeric all_characters
strip_left-alphanumeric String.[] h = refl
strip_left-alphanumeric (String.◌∷◌ c s) h = ground arith

strip_right-alphanumeric :
    (s : String) → all_characters is_alphanumeric s ≡ true → strip_right s ≡ s
unfolding strip_right is_alphanumeric all_characters
strip_right-alphanumeric String.[] h = refl
strip_right-alphanumeric (String.◌∷◌ c s) h = ground (arith, strip_right-alphanumeric s)

strip-alphanumeric : (s : String) → all_characters is_alphanumeric s ≡ true → strip s ≡ s
unfolding strip
strip-alphanumeric s h = rw (strip_left-alphanumeric s h) (strip_right-alphanumeric s h)

-- An accepted reference is the given text stripped, has 6 to 30 letters and digits, and is
-- accepted unchanged when it is given again.
pub validate_utr_accepts :
    (value utr : String)
    → validate_utr (some value) ≡ ok (some utr)
    → (strip value ≡ utr)
      × (all_characters is_alphanumeric utr ≡ true)
      × (6 ≤ length utr)
      × (length utr ≤ 30)
      × (validate_utr (some utr) ≡ ok (some utr))
unfolding validate_utr matches_utr
validate_utr_accepts value utr h = ground (arith, strip-alphanumeric utr)
