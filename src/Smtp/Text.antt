-- ===== src/Smtp/Text.antt =====
-- The text helpers at the top of apps/smtp-server/src/smtp/SmtpSessionHandler.cpp.
pub mod Trim
pub mod Address
use mail_server_client.Base.{
  ℕ, suc, ◌-◌, Bool, true, false, ◌&&◌, List, [], ◌∷◌, Option, none, some, Bytes, length, take,
  drop, is_empty, is_space, to_upper_byte, find_byte, ltb, leb, ◌==◌, if◌then◌else◌, map,
}

-- while (!empty && isspace(front)) remove_prefix(1)
unfoldable pub trim_front : Bytes → Bytes
trim_front [] = []
trim_front (x ∷ xs) = let rest = trim_front xs in if is_space x then rest else x ∷ xs

-- while (!empty && isspace(back)) remove_suffix(1)
unfoldable pub trim_back : Bytes → Bytes
trim_back [] = []
trim_back (x ∷ xs) = let rest = trim_back xs in if is_empty rest && is_space x then [] else x ∷ rest

unfoldable pub trim : Bytes → Bytes
unfolding trim_front trim_back
trim value = trim_back (trim_front value)

unfoldable pub to_upper : Bytes → Bytes
to_upper = map to_upper_byte

same_upper : Bytes → Bytes → Bool
same_upper value [] = true
same_upper [] (p ∷ ps) = false
same_upper (x ∷ xs) (p ∷ ps) = to_upper_byte x == to_upper_byte p && same_upper xs ps

unfoldable pub starts_with_case_insensitive : Bytes → Bytes → Bool
unfolding same_upper
starts_with_case_insensitive value prefix =
    if ltb (length value) (length prefix) then false else same_upper value prefix

-- value = Trim(value.substr(colon + 1)) if there is a colon
after_colon : Bytes → Bytes
unfolding trim
after_colon value = elim (find_byte b':' value) [
  | none ↦ value
  | some colon ↦ trim (drop (suc colon) value)
]

-- value = value.substr(0, parameters) if there is a space
before_space : Bytes → Bytes
before_space value = elim (find_byte b' ' value) [
  | none ↦ value
  | some parameters ↦ take parameters value
]

abbrev front_is : ℕ → Bytes → Bool
front_is c [] = false
front_is c (x ∷ xs) = x == c

abbrev back_is : ℕ → Bytes → Bool
back_is c [] = false
back_is c (x ∷ []) = x == c
back_is c (x ∷ y ∷ ys) = back_is c (y ∷ ys)

-- value = value.substr(1, value.size() - 2) if it stands in angle brackets
strip_angles : Bytes → Bytes
strip_angles value =
    if leb 2 (length value) && front_is b'<' value && back_is b'>' value
    then take (length value - 2) (drop 1 value)
    else value

unfoldable pub extract_path_argument : Bytes → Bytes
unfolding trim after_colon before_space strip_angles
extract_path_argument argument = strip_angles (before_space (after_colon (trim argument)))
