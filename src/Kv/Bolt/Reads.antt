-- ===== src/Kv/Bolt/Reads.antt =====
-- What the reads of the store of kv/blot_kv.go give, on a database that does what Bolt documents.
use curp.Kv.Bolt.{
  BoltDb, get, put, delete_key, put_with_old_value, rollback_put_with_old_value,
  rollback_delete_with_old_value, delete_with_old_value,
}
use curp.Prelude.{
  Option-cases, String_discrete, String, ◌≡◌, ap, subst, ◌∙◌, ◌≢◌, inl, inr, ite, none, some, arith,
}

-- Bolt refuses some keys, such as the empty one, and values that are too large: `Accepts` holds for the key and
-- the value that it takes. `Update`
-- commits what went well.
pub record IsBolt (B : BoltDb) : Type 1 where
  pub Accepts : (key value : String) → Type 0
  pub commits : (s t : B.Bucket) → B.update s (t, none) ≡ (t, none)
  pub put_accepted : (s : B.Bucket) (k v : String) → Accepts k v → (B.bucket_put s k v).1 ≡ none
  pub delete_done : (s : B.Bucket) (k : String) → (B.bucket_delete s k).1 ≡ none
  pub get-put :
      (s : B.Bucket) (k v j : String)
      → Accepts k v
      → B.bucket_get (B.bucket_put s k v).0 j
        ≡ ite (String_discrete j k) (some v) (B.bucket_get s j)
  pub get-delete :
      (s : B.Bucket) (k j : String)
      → B.bucket_get (B.bucket_delete s k).0 j ≡ ite (String_discrete j k) none (B.bucket_get s j)

module _ (B : BoltDb) (L : IsBolt B) where
  put_bucket :
      (s : B.Bucket) (k v : String)
      → L.Accepts k v
      → B.update s (B.bucket_put s k v) ≡ ((B.bucket_put s k v).0, none)
  put_bucket s k v a =
      ap (λ e. B.update s ((B.bucket_put s k v).0, e)) (L.put_accepted s k v a)
      ∙ L.commits s (B.bucket_put s k v).0

  delete_bucket :
      (s : B.Bucket) (k : String)
      → B.update s (B.bucket_delete s k) ≡ ((B.bucket_delete s k).0, none)
  delete_bucket s k =
      ap (λ e. B.update s ((B.bucket_delete s k).0, e)) (L.delete_done s k)
      ∙ L.commits s (B.bucket_delete s k).0

  -- For a key that Bolt takes with both values, a rollback of `PutWithOldValue` with the value that it returned gives
  -- back every read, unless the key held the empty text.
  pub bolt_get-rollback_put :
      (s : B.Bucket) (k v j : String)
      → L.Accepts k v
      → L.Accepts k (put_with_old_value B s k v).1
      → get B s k ≢ ("", none)
      → get B
          (rollback_put_with_old_value B
            (put_with_old_value B s k v).0
            k
            (put_with_old_value B s k v).1).0
          j
        ≡ get B s j
  unfolding get put delete_key put_with_old_value rollback_put_with_old_value
  bolt_get-rollback_put s k v j a o ne =
      let t = (B.bucket_put s k v).0 in
      rw (put_bucket s k v a) (elim (Option-cases (B.bucket_get s k)) [
        | inl e ↦ rw (delete_bucket t k) (ground (arith, L.get-delete t k j, L.get-put s k v j a))
        | inr (old, e) ↦
            let back : L.Accepts k old = subst (L.Accepts k) {y = old} (ground arith) o in
            ground (arith, put_bucket t k old back, L.get-put t k old j back, L.get-put s k v j a)
      ])

  -- A rollback of `DeleteWithOldValue` for a key that is not there makes the key: no error told that
  -- there was nothing to delete, and a read that failed before now gives the empty text.
  pub rollback_delete_makes_key :
      (s : B.Bucket) (k : String)
      → L.Accepts k ""
      → B.bucket_get s k ≡ none
      → ((delete_with_old_value B s k).2 ≡ none)
        × (get B s k ≡ ("", some B.bucket_not_found))
        × (get B
              (rollback_delete_with_old_value B
                (delete_with_old_value B s k).0
                k
                (delete_with_old_value B s k).1).0
              k
            ≡ ("", none))
  unfolding get put rollback_delete_with_old_value delete_with_old_value
  rollback_delete_makes_key s k a h =
      let t = (B.bucket_delete s k).0 in
      rw (delete_bucket s k) (ground (arith, put_bucket t k "" a, L.get-put t k "" k a))
