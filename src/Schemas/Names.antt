-- ===== src/Schemas/Names.antt =====
-- `" ".join(value.split())`, by which names are cleaned.
use Prim.Native.Char.{Char}
use Prim.Native.String.{◌++◌}
use text.Mathlib.TextLemmas.{nil-append, cons-append, append-nil}
use stranger_club.Base.{
  String, ◌≡◌, refl, Bool, true, false, not, List, [], ◌∷◌, is_space, str_eq, all_characters,
  if◌then◌else◌, arith, ap, Bool-cases, inl, inr,
}

-- The words behind a first word, unless that is empty.
abbrev push : String → List String → List String
push word words = if str_eq word "" then words else word ∷ words

-- The word at the front of a text, which may be empty, and the words after it.
unfoldable split_front : String → String × List String
split_front String.[] = ("", [])
split_front (String.◌∷◌ c s) =
    let (word, words) = split_front s in
    if is_space c then ("", push word words) else (String.◌∷◌ c word, words)

-- `str.split`
unfoldable pub split : String → List String
unfolding split_front
split s = let (word, words) = split_front s in push word words

-- `" ".join`
unfoldable pub join : List String → String
join [] = ""
join (w ∷ []) = w
join (w ∷ v ∷ ws) = w ++ " " ++ join (v ∷ ws)

unfoldable pub clean_name : String → String
clean_name s = join (split s)

abbrev is_word_character : Char → Bool
is_word_character c = not (is_space c)

-- A word is not empty and has no white space.
abbrev pub AreWords : List String → Type 0
AreWords [] = Unit
AreWords (w ∷ ws) =
    (all_characters is_word_character w ≡ true) × (str_eq w "" ≡ false) × AreWords ws

push-AreWords :
    (w : String) (ws : List String)
    → all_characters is_word_character w ≡ true
    → AreWords ws
    → AreWords (push w ws)
push-AreWords w ws h a = elim (Bool-cases (str_eq w "")) [ inl e ↦ rw e a | inr e ↦ rw e (h, e, a) ]

front-AreWords :
    (s : String)
    → let (word, words) = split_front s in
      (all_characters is_word_character word ≡ true) × AreWords words
unfolding split_front all_characters
front-AreWords String.[] = (refl, tt)
front-AreWords (String.◌∷◌ c s) =
    let (h, a) = front-AreWords s in
    elim (Bool-cases (is_space c)) [
      | inl e ↦ rw e (refl, push-AreWords (split_front s).0 (split_front s).1 h a)
      | inr e ↦ rw e (ground (arith, h), a)
    ]

pub split-AreWords : (s : String) → AreWords (split s)
unfolding split
split-AreWords s =
    let (h, a) = front-AreWords s in push-AreWords (split_front s).0 (split_front s).1 h a

split_front-append :
    (w t : String)
    → all_characters is_word_character w ≡ true
    → split_front (w ++ t) ≡ (w ++ (split_front t).0, (split_front t).1)
unfolding split_front all_characters
split_front-append String.[] t h = rw (nil-append t, nil-append (split_front t).0) refl
split_front-append (String.◌∷◌ c s) t h =
    let rest = split_front-append s t (ground (arith, h)) in
    rw (cons-append c s t, cons-append c s (split_front t).0) (ground (arith, rest))

split_front-space :
    (t : String) → split_front (" " ++ t) ≡ ("", push (split_front t).0 (split_front t).1)
unfolding split_front
split_front-space t = rw (cons-append " " "" t, nil-append t) refl

front-join :
    (w : String) (ws : List String) → AreWords (w ∷ ws) → split_front (join (w ∷ ws)) ≡ (w, ws)
unfolding join split_front
front-join w [] a = rw (append-nil w) at (split_front-append w "" a.0)
front-join w (v ∷ ws) a =
    let rest = front-join v ws a.2 in
    let gap = split_front-append w (" " ++ join (v ∷ ws)) a.0 in
    ground (arith, rest, gap, append-nil w, split_front-space (join (v ∷ ws)))

-- The words of a text are not empty and have no white space, and such words are read back from the
-- text that joins them.
pub split-join : (ws : List String) → AreWords ws → split (join ws) ≡ ws
unfolding split split_front join
split-join [] a = ground arith
split-join (w ∷ ws) a = rw (front-join w ws a) (ground (arith, a))

-- Cleaning a name keeps its words, and nothing is left to clean.
pub clean_name_idem :
    (s : String) → (split (clean_name s) ≡ split s) × (clean_name (clean_name s) ≡ clean_name s)
unfolding clean_name
clean_name_idem s = let same = split-join (split s) (split-AreWords s) in (same, ap join same)
