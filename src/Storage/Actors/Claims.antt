-- ===== src/Storage/Actors/Claims.antt =====
-- What a claim takes from the delivery queue.
use mail_server_client.Base.{
  ℕ, ◌≡◌, refl, Bool, true, false, ◌&&◌, List, [], ◌∷◌, Bytes, All, map, arith, Bool-cases, inl,
  inr, ◌==◌,
}
use mail_server_client.Storage.Records.{Actor}
use mail_server_client.Storage.Database.{Db, ok}
use mail_server_client.Storage.Database.Laws.{statement-ok}
use mail_server_client.Storage.Rows.{select, update_where, in_ids}
use mail_server_client.Storage.Actors.{
  is_ready, is_ready_status, claim_where, claim_set, claim_rows, ready_ids, claim_ready_recipients,
  update_actors,
}

abbrev pub ids_of : List Actor → List ℕ
ids_of = map (λ (a : Actor). a.id)

-- A row that is among the claimed and is still there to be claimed.
abbrev pub is_claimable_again : List Actor → Bytes → Actor → Bool
is_claimable_again claimed now b = in_ids b.id (ids_of claimed) && is_ready now b

claimed_set-unready : (now : Bytes) (a : Actor) → is_ready now (claim_set a) ≡ false
unfolding is_ready claim_set is_ready_status
claimed_set-unready now a = ground arith

no_row : (now : Bytes) (xs : List Actor) → All (λ b. is_claimable_again [] now b ≡ false) xs
unfolding in_ids
no_row now [] = tt
no_row now (x ∷ xs) = (refl, no_row now xs)

module _ (ids : List ℕ) (now : Bytes) where
  in_ids-claimed :
      (n : ℕ) (xs : List Actor)
      → in_ids n (ids_of (map claim_set (select (claim_where ids now) xs))) ≡ true
      → in_ids n ids ≡ true
  unfolding in_ids select claim_set claim_where
  in_ids-claimed n [] h = cc
  in_ids-claimed n (x ∷ xs) h = elim (Bool-cases (claim_where ids now x)) [
    | inl e ↦
        let g = rw e at h in
        elim (Bool-cases (n == x.id)) [
          | inl same ↦
              let eq : n ≡ x.id = ground arith in
              let taken : in_ids x.id ids ≡ true = ground arith in rw eq taken
          | inr other ↦ in_ids-claimed n xs (rw other at g)
        ]
    | inr e ↦ in_ids-claimed n xs (rw e at h)
  ]

  -- Row by row, behind the UPDATE.
  updated-unclaimable :
      (claimed : List Actor)
      → ((n : ℕ) → in_ids n (ids_of claimed) ≡ true → in_ids n ids ≡ true)
      → (xs : List Actor)
      → All
          (λ b. is_claimable_again claimed now b ≡ false)
          (update_where (claim_where ids now) claim_set xs)
  unfolding update_where claim_where
  updated-unclaimable claimed sub [] = tt
  updated-unclaimable claimed sub (x ∷ xs) = elim (Bool-cases (claim_where ids now x)) [
    | inl e ↦ (rw e (ground (arith, claimed_set-unready now x)), updated-unclaimable claimed sub xs)
    | inr e ↦ (
      rw e (elim (Bool-cases (in_ids x.id (ids_of claimed))) [
        | inl m ↦ let t = sub x.id m in ground arith
        | inr m ↦ rw m refl
      ]),
      updated-unclaimable claimed sub xs,
    )
  ]

-- A claim that returns has taken its rows: at the time of the claim none of their ids can be claimed
-- a second time.
pub claim_ready_recipients-exclusive :
    (limit : ℕ) (db : Db) (claimed : List Actor) (db' : Db)
    → claim_ready_recipients limit db ≡ (ok claimed, db')
    → All (λ b. is_claimable_again claimed db.clock b ≡ false) db'.tables.actors
unfolding claim_ready_recipients claim_rows update_actors
claim_ready_recipients-exclusive limit db claimed db' h = elim (Bool-cases (limit == 0)) [
  | inl e ↦
      let g = rw e at h in
      let none_claimed : [] ≡ claimed = cc in
      rw (← none_claimed) (no_row db.clock db'.tables.actors)
  | inr e ↦
      let ids = ready_ids limit db.clock db.tables.actors in
      let d = (statement-ok (claim_rows limit db.clock) db claimed db' (rw e at h)).worked in
      let rows : map claim_set (select (claim_where ids db.clock) db.tables.actors) ≡ claimed =
        cc in
      let left : update_where (claim_where ids db.clock) claim_set db.tables.actors
          ≡ db'.tables.actors =
        cc in
      rw (← rows, ← left)
        (updated-unclaimable ids db.clock _
          (λ n m. in_ids-claimed ids db.clock n db.tables.actors m) db.tables.actors)
]
