-- ===== src/Desktop/Cache/Like.antt =====
-- EscapeLike of CacheStore.cpp, and LIKE with the escape character '\' as SQLite has it: letters of
-- ASCII match in either case, `%` stands for any text and `_` for one character of UTF-8.
use mail_server_client.Base.{
  ℕ, ◌≡◌, refl, ◌∙◌, ap, Bool, true, false, ◌&&◌, ◌||◌, [], ◌∷◌, ◌++◌, Bytes, codes, leb, ltb, ◌==◌,
  to_upper_byte, if◌then◌else◌, Bool-cases, inl, inr,
}

abbrev pub is_special : ℕ → Bool
is_special ch = ch == b'%' || (ch == b'_' || ch == 92)

unfoldable pub escape_like : Bytes → Bytes
escape_like [] = []
escape_like (ch ∷ value) =
    let escaped = escape_like value in if is_special ch then 92 ∷ ch ∷ escaped else ch ∷ escaped

unfoldable pub same_char : ℕ → ℕ → Bool
same_char c d = to_upper_byte c == to_upper_byte d

-- The test holds of some end of the text.
abbrev pub any_end : (Bytes → Bool) → Bytes → Bool
any_end p [] = p []
any_end p (c ∷ t) = p (c ∷ t) || any_end p t

abbrev pub rest_of_char : Bytes → Bytes
rest_of_char [] = []
rest_of_char (c ∷ t) = if leb 128 c && ltb c 192 then rest_of_char t else c ∷ t

abbrev pub one_char : (Bytes → Bool) → Bytes → Bool
one_char p [] = false
one_char p (c ∷ t) = p (rest_of_char t)

abbrev pub this_char : ℕ → (Bytes → Bool) → Bytes → Bool
this_char c p [] = false
this_char c p (d ∷ t) = same_char c d && p t

-- The flag says that the next character is escaped.
unfoldable pub like : Bool → Bytes → Bytes → Bool
unfolding same_char
like true [] t = false
like false [] [] = true
like false [] (c ∷ t) = false
like true (c ∷ pattern) t = this_char c (like false pattern) t
like false (c ∷ pattern) t =
    let rest = like false pattern in
    let escaped = like true pattern t in
    if c == 92
    then escaped
    else if c == b'%'
    then any_end rest t
    else if c == b'_'
    then one_char rest t
    else this_char c rest t

-- The text begins with these characters, up to the case of letters of ASCII.
unfoldable pub begins_with : Bytes → Bytes → Bool
unfolding same_char
begins_with [] t = true
begins_with (c ∷ prefix) [] = false
begins_with (c ∷ prefix) (d ∷ t) = same_char c d && begins_with prefix t

any_end-nothing : (t : Bytes) → any_end (like false []) t ≡ true
unfolding like
any_end-nothing [] = refl
any_end-nothing (c ∷ t) = any_end-nothing t

or-false : (a b : Bool) → a || b ≡ false → (a ≡ false) × (b ≡ false)
or-false true b h = cc
or-false false b h = (refl, h)

-- An escaped character matches itself, whether it is special or not.
like-escaped :
    (c : ℕ) (pattern rest t : Bytes)
    → like false ((if is_special c then 92 ∷ c ∷ pattern else c ∷ pattern) ++ rest) t
      ≡ this_char c (like false (pattern ++ rest)) t
unfolding like
like-escaped c pattern rest t = elim (Bool-cases (is_special c)) [
  | inl e ↦ rw (e) refl
  | inr e ↦
      let (percent, others) = or-false (c == b'%') _ e in
      let (underscore, backslash) = or-false (c == b'_') (c == 92) others in
      rw (e, backslash, percent, underscore) refl
]

-- An escaped text in front of `%` matches exactly the texts that begin with it.
pub like-escape_like :
    (prefix t : Bytes) → like false (escape_like prefix ++ codes "%") t ≡ begins_with prefix t
unfolding like escape_like begins_with
like-escape_like [] t = any_end-nothing t
like-escape_like (c ∷ prefix) [] = like-escaped c (escape_like prefix) (codes "%") []
like-escape_like (c ∷ prefix) (d ∷ t) =
    like-escaped c (escape_like prefix) (codes "%") (d ∷ t)
    ∙ ap (λ b. same_char c d && b) (like-escape_like prefix t)
