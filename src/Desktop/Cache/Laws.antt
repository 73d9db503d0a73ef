-- ===== src/Desktop/Cache/Laws.antt =====
-- What CacheStore finds again, and what it deletes.
use mail_server_client.Base.{
  ℕ, suc, ℤ, pos, ◌+◌, ◌*◌, ◌/◌, ◌≡◌, ◌≢◌, refl, ap, Bool, true, false, not, ◌&&◌, none, some, List,
  [], ◌∷◌, ◌++◌, Bytes, codes, bytes_eq_sound, bytes_eq_refl, leb, if◌then◌else◌, if_elim,
  Bool-cases, inl, inr, Lacks, All-append, arith,
}
use mail_server_client.Storage.Rows.{select, update_where, exists_where, first_row}
use mail_server_client.Storage.Database.{ok, bind_text}
use mail_server_client.Storage.Database.Laws.{bind_text-Lacks}
use mail_server_client.Desktop.Cache.Like.{is_special, escape_like, begins_with, like-escape_like}
use mail_server_client.Desktop.Cache.{
  Row, Store, Calendar, seconds, nanoseconds, has_key, upsert, row_for, put, get,
  invalidate_namespace_prefix,
}

module _ {A : Type 0} where
  pub select-ext :
      (p q : A → Bool) → ((a : A) → p a ≡ q a) → (xs : List A) → select p xs ≡ select q xs
  unfolding select
  select-ext p q h [] = refl
  select-ext p q h (x ∷ xs) =
      rw (h x) (ap (λ rest. if q x then x ∷ rest else rest) (select-ext p q h xs))

  -- Where a test holds of a row, the first row that an update leaves it is the new one.
  first_row-update_where :
      (p : A → Bool) (f : A → A) (new : A)
      → p new ≡ true
      → ((a : A) → p a ≡ true → f a ≡ new)
      → (xs : List A) → exists_where p xs ≡ true
      → first_row (select p (update_where p f xs)) ≡ some new
  unfolding select update_where exists_where first_row
  first_row-update_where p f new h same [] e = cc
  first_row-update_where p f new h same (x ∷ xs) e = elim (Bool-cases (p x)) [
    | inl k ↦ rw (k, same x k, h) refl
    | inr k ↦ rw (k, k) (first_row-update_where p f new h same xs (rw (k) at e))
  ]

  first_row-append :
      (p : A → Bool) (new : A)
      → p new ≡ true
      → (xs : List A) → exists_where p xs ≡ false
      → first_row (select p (xs ++ new ∷ [])) ≡ some new
  unfolding select exists_where first_row
  first_row-append p new h [] e = rw (h) refl
  first_row-append p new h (x ∷ xs) e = elim (Bool-cases (p x)) [
    | inl k ↦ let g : true ≡ false = rw (k) at e in cc
    | inr k ↦ rw (k) (first_row-append p new h xs (rw (k) at e))
  ]

pub and-true : (a b : Bool) → a && b ≡ true → (a ≡ true) × (b ≡ true)
and-true true b h = (refl, h)
and-true false b h = cc

-- The row that is put is the one that is found under its key.
first_row-upsert :
    (q : Calendar) (cache_namespace cache_key payload : Bytes) (version : ℤ) (clock : Bytes)
    → (expires_at : ℕ) (rows : List Row)
    → first_row (
        select (has_key cache_namespace cache_key) (
          upsert
            (has_key cache_namespace cache_key)
            (row_for q cache_namespace cache_key payload version clock expires_at)
            rows))
      ≡ some (row_for q cache_namespace cache_key payload version clock expires_at)
unfolding upsert
first_row-upsert q cache_namespace cache_key payload version clock expires_at rows =
    let new = row_for q cache_namespace cache_key payload version clock expires_at in
    let p = has_key cache_namespace cache_key in
    let h : p new ≡ true =
      rw (bytes_eq_refl (bind_text cache_namespace), bytes_eq_refl (bind_text cache_key)) refl in
    elim (Bool-cases (exists_where p rows)) [
      | inl e ↦ rw (e) (
          first_row-update_where p _ new h
            (λ r k.
              let (one, two) = and-true _ _ k in
              let first = bytes_eq_sound r.cache_namespace _ one in
              let second = bytes_eq_sound r.cache_key _ two in
              ap (λ (x : Bytes × Bytes). record new { cache_namespace = x.0; cache_key = x.1 })
                (λ i. (first i, second i)))
            rows e)
      | inr e ↦ rw (e) (first_row-append p new h rows e)
    ]

-- Where no statement fails and the times can be read back, what is put with a positive lifetime is found
-- by its key whatever was there before, as long as the clock is before the time of expiry, which is in
-- whole seconds; from then on nothing is found, or the same entry where stale entries are allowed.
pub get-put :
    (q : Calendar) (cache_namespace cache_key payload : Bytes) (ttl : ℕ) (version : ℤ) (s : Store)
    → (later created : ℕ) (allow_stale : Bool) → s.faults ≡ []
    → q.parse s.clock ≡ seconds created
    → q.parse (bind_text (q.format ((s.now + suc ttl * nanoseconds) / nanoseconds)))
      ≡ seconds ((s.now + suc ttl * nanoseconds) / nanoseconds)
    → (get q cache_namespace cache_key allow_stale
        (record (put q cache_namespace cache_key payload (pos (suc ttl)) version s).1 {
          now = later;
        })).0
      ≡ (if not allow_stale
            && leb ((s.now + suc ttl * nanoseconds) / nanoseconds * nanoseconds) later
          then ok none
          else ok (
              some (record {
                cache_namespace = bind_text cache_namespace;
                cache_key = bind_text cache_key;
                payload = bind_text payload;
                version = version;
                created_at = created * nanoseconds;
                expires_at = (s.now + suc ttl * nanoseconds) / nanoseconds * nanoseconds;
              })))
unfolding put get
get-put q cache_namespace cache_key payload ttl version s later created allow_stale h c e =
    rw
      (
        h,
        first_row-upsert q cache_namespace cache_key payload version s.clock
            (s.now + suc ttl * nanoseconds) s.rows,
        c,
        e,
      )
      refl

escape_like-Lacks : (prefix : Bytes) → Lacks 0 prefix → Lacks 0 (escape_like prefix)
unfolding escape_like
escape_like-Lacks [] h = tt
escape_like-Lacks (c ∷ prefix) (h, hs) =
    if_elim (Lacks 0) (is_special c) _ _ (λ e. (omega arith, (h, escape_like-Lacks prefix hs)))
      (λ e. (h, escape_like-Lacks prefix hs))

-- Where the statement does not fail, the invalidation of a prefix without NUL deletes the entries whose
-- namespace begins with it, up to the case of letters of ASCII, and no other, whatever characters of
-- LIKE the prefix holds.
pub invalidate_namespace_prefix-rows :
    (prefix : Bytes) (s : Store)
    → Lacks 0 prefix
    → s.faults ≡ []
    → (invalidate_namespace_prefix prefix s).1.rows
      ≡ select (λ r. not (begins_with prefix r.cache_namespace)) s.rows
unfolding invalidate_namespace_prefix
invalidate_namespace_prefix-rows prefix s h k =
    let pattern = bind_text-Lacks (escape_like prefix ++ codes "%") (
      All-append (λ (x : ℕ). x ≢ 0) (escape_like prefix) (codes "%") (escape_like-Lacks prefix h)
        (omega arith, tt)) in
    rw (k, pattern)
      (select-ext _ _ (λ r. ap not (like-escape_like prefix r.cache_namespace)) s.rows)

pub invalidate_namespace_prefix-faults :
    (prefix : Bytes) (s : Store)
    → s.faults ≡ []
    → (invalidate_namespace_prefix prefix s).1.faults ≡ []
unfolding invalidate_namespace_prefix
invalidate_namespace_prefix-faults prefix s h = rw (h) refl

pub get-missing :
    (q : Calendar) (cache_namespace cache_key : Bytes) (allow_stale : Bool) (s : Store)
    → s.faults ≡ []
    → select (has_key cache_namespace cache_key) s.rows ≡ []
    → (get q cache_namespace cache_key allow_stale s).0 ≡ ok none
unfolding get first_row
get-missing q cache_namespace cache_key allow_stale s h e = rw (h, e) refl
