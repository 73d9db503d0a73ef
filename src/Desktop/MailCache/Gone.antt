-- ===== src/Desktop/MailCache/Gone.antt =====
-- The cache of mail lists when it is invalidated.
use mail_server_client.Base.{
  ◌≡◌, refl, ap, ◌∙◌, Bool, true, false, not, none, List, [], ◌∷◌, Bytes, bytes_eq_sound,
  to_upper_byte, Bool-cases, inl, inr, arith,
}
use mail_server_client.Storage.Rows.{select}
use mail_server_client.Storage.Database.{ok, bind_text}
use mail_server_client.Desktop.Cache.Like.{begins_with}
use mail_server_client.Desktop.Cache.{Row, Store, Calendar, has_key, invalidate_namespace_prefix}
use mail_server_client.Desktop.Cache.Laws.{
  and-true, invalidate_namespace_prefix-rows, invalidate_namespace_prefix-faults, get-missing,
}
use mail_server_client.Desktop.MailCache.{
  list_namespace, make_namespace, make_key, list_of, load, invalidate_all,
}

module _ {A : Type 0} where
  -- Nothing is selected twice by tests that exclude each other.
  select-select :
      (p q : A → Bool)
      → ((a : A) → p a ≡ true → q a ≡ false)
      → (xs : List A) → select p (select q xs) ≡ []
  unfolding select
  select-select p q h [] = refl
  select-select p q h (x ∷ xs) = elim (Bool-cases (q x)) [
    | inl e ↦ elim (Bool-cases (p x)) [
      | inl k ↦ let g = h x k in cc
      | inr k ↦ rw (e, k) (select-select p q h xs)
    ]
    | inr e ↦ rw (e) (select-select p q h xs)
  ]

-- The namespace of a folder begins with that of the lists.
make_namespace-begins :
    (normal : Bytes → Bytes) (folder : Bytes)
    → begins_with list_namespace (bind_text (make_namespace normal folder)) ≡ true
unfolding begins_with bind_text to_upper_byte
make_namespace-begins normal folder = refl

-- Where no statement fails, InvalidateAll deletes exactly the entries whose namespace begins with that of
-- the mail lists, `email-list`, in capital or small letters of ASCII, and no list of any folder and
-- search is found after it, not even a stale one.
pub load-invalidate_all :
    (q : Calendar) (normal : Bytes → Bytes) (folder search_text : Bytes) (allow_stale : Bool)
    → (s : Store) → s.faults ≡ []
    → ((invalidate_all s).1.rows
        ≡ select (λ r. not (begins_with list_namespace r.cache_namespace)) s.rows)
      × ((load q normal folder search_text allow_stale (invalidate_all s).1).0 ≡ ok none)
unfolding invalidate_all load
load-invalidate_all q normal folder search_text allow_stale s h =
    let rows = invalidate_namespace_prefix-rows list_namespace s (omega arith) h in
    let cache_namespace = make_namespace normal folder in
    let cache_key = make_key normal folder search_text in
    let gone =
      select-select (has_key cache_namespace cache_key)
        (λ (r : Row). not (begins_with list_namespace r.cache_namespace))
        (λ r k.
          let (one, two) = and-true _ _ k in
          ap (λ x. not (begins_with list_namespace x)) (bytes_eq_sound r.cache_namespace _ one)
          ∙ ap not (make_namespace-begins normal folder))
        s.rows in
    let missing =
      get-missing q cache_namespace cache_key allow_stale
        (invalidate_namespace_prefix list_namespace s).1
        (invalidate_namespace_prefix-faults list_namespace s h)
        (ap (select (has_key cache_namespace cache_key)) rows ∙ gone) in
    (rows, ap (list_of folder search_text) missing)
