-- ===== src/Smtp/Text/Trim.antt =====
-- What `trim` returns: a text with no space at either end, which it leaves alone.
use mail_server_client.Base.{
  ℕ, ◌≡◌, refl, inl, inr, true, false, ◌&&◌, [], ◌∷◌, ◌++◌, Bytes, is_space, is_empty, Bool-cases,
  if_elim,
}
use mail_server_client.Smtp.Text.{trim, trim_front, trim_back}

-- The first byte, if there is one, is no space.
abbrev pub FrontFree : Bytes → Type 0
FrontFree [] = Unit
FrontFree (x ∷ xs) = is_space x ≡ false

-- The last byte, if there is one, is no space.
abbrev pub BackFree : Bytes → Type 0
BackFree [] = Unit
BackFree (x ∷ []) = is_space x ≡ false
BackFree (x ∷ y ∷ ys) = BackFree (y ∷ ys)

pub record IsTrimmed (s : Bytes) : Type 0 where
  pub front : FrontFree s
  pub back : BackFree s

pub trim_front-FrontFree : (s : Bytes) → FrontFree (trim_front s)
unfolding trim_front
trim_front-FrontFree [] = tt
trim_front-FrontFree (x ∷ xs) = elim (Bool-cases (is_space x)) [
  | inl e ↦ rw e (trim_front-FrontFree xs)
  | inr e ↦ rw e e
]

BackFree-cons :
    (x : ℕ) (r : Bytes) → BackFree r → (is_empty r ≡ true → is_space x ≡ false) → BackFree (x ∷ r)
BackFree-cons x [] b h = h refl
BackFree-cons x (y ∷ ys) b h = b

trim_back-BackFree : (s : Bytes) → BackFree (trim_back s)
unfolding trim_back
trim_back-BackFree [] = tt
trim_back-BackFree (x ∷ xs) =
    if_elim BackFree (is_empty (trim_back xs) && is_space x) [] (x ∷ trim_back xs) (λ _. tt)
      (λ e. BackFree-cons x (trim_back xs) (trim_back-BackFree xs) (λ m. rw m at e))

trim_front-id : (s : Bytes) → FrontFree s → trim_front s ≡ s
unfolding trim_front
trim_front-id [] h = refl
trim_front-id (x ∷ xs) h = rw h refl

trim_back-id : (s : Bytes) → BackFree s → trim_back s ≡ s
unfolding trim_back
trim_back-id [] h = refl
trim_back-id (x ∷ []) h = rw h refl
trim_back-id (x ∷ y ∷ ys) h = rw (trim_back-id (y ∷ ys) h) refl

trim_back-FrontFree : (s : Bytes) → FrontFree s → FrontFree (trim_back s)
unfolding trim_back
trim_back-FrontFree [] h = tt
trim_back-FrontFree (x ∷ xs) h =
    if_elim FrontFree (is_empty (trim_back xs) && is_space x) [] (x ∷ trim_back xs) (λ _. tt)
      (λ _. h)

pub BackFree-append : (s : Bytes) (c : ℕ) → is_space c ≡ false → BackFree (s ++ c ∷ [])
BackFree-append [] c h = h
BackFree-append (x ∷ []) c h = h
BackFree-append (x ∷ y ∷ ys) c h = BackFree-append (y ∷ ys) c h

-- What `trim` returns has no space at either end.
pub trim-IsTrimmed : (s : Bytes) → IsTrimmed (trim s)
unfolding trim
trim-IsTrimmed s = record {
  front = trim_back-FrontFree (trim_front s) (trim_front-FrontFree s);
  back = trim_back-BackFree (trim_front s);
}

pub trim-id : (s : Bytes) → IsTrimmed s → trim s ≡ s
unfolding trim
trim-id s h = rw (trim_front-id s h.front) (trim_back-id s h.back)

pub trim_idem : (s : Bytes) → trim (trim s) ≡ trim s
trim_idem s = trim-id (trim s) (trim-IsTrimmed s)
