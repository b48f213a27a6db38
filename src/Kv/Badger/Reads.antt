-- ===== src/Kv/Badger/Reads.antt =====
-- What the reads of the store of kv/badger_kv.go give, on a database that does what Badger documents.
use curp.Kv.Badger.{
  BadgerDb, Item, found, failed, get, put, delete_with_old_value, rollback_delete_with_old_value,
}
use curp.Prelude.{
  String_discrete, String, ◌≡◌, refl, sym, ap, ◌∙◌, ◌≢◌, ◌⊎◌, inl, inr, ite, if_pos, if_neg, Option,
  none, some,
}

-- Badger refuses some keys, such as the empty one: `Accepts` holds for those that it takes. `Update`
-- commits what went well, and otherwise changes nothing and passes the error on; a key that was set is
-- found, with its value, and one that was deleted is `ErrKeyNotFound`.
pub record IsBadger (B : BadgerDb) : Type 1 where
  pub Accepts : String → Type 0
  pub key_not_found : String
  pub views : (s : B.Db) (e : Option String) → B.view s e ≡ e
  pub commits : (s t : B.Db) → B.update s (t, none) ≡ (t, none)
  pub aborts : (s t : B.Db) (e : String) → B.update s (t, some e) ≡ (s, some e)
  pub set_accepted : (s : B.Db) (k v : String) → Accepts k → (B.txn_set s k v).1 ≡ none
  pub delete_accepted : (s : B.Db) (k : String) → Accepts k → (B.txn_delete s k).1 ≡ none
  pub get-set :
      (s : B.Db) (k v j : String)
      → Accepts k
      → B.txn_get (B.txn_set s k v).0 j ≡ ite (String_discrete j k) (found v none) (B.txn_get s j)
  pub get-delete :
      (s : B.Db) (k j : String)
      → Accepts k
      → B.txn_get (B.txn_delete s k).0 j
        ≡ ite (String_discrete j k) (failed key_not_found) (B.txn_get s j)

module _ (B : BadgerDb) (L : IsBadger B) where
  set_db :
      (s : B.Db) (k v : String)
      → L.Accepts k
      → B.update s (B.txn_set s k v) ≡ ((B.txn_set s k v).0, none)
  set_db s k v a =
      ap (λ e. B.update s ((B.txn_set s k v).0, e)) (L.set_accepted s k v a)
      ∙ L.commits s (B.txn_set s k v).0

  delete_db :
      (s : B.Db) (k : String)
      → L.Accepts k
      → B.update s (B.txn_delete s k) ≡ ((B.txn_delete s k).0, none)
  delete_db s k a =
      ap (λ e. B.update s ((B.txn_delete s k).0, e)) (L.delete_accepted s k a)
      ∙ L.commits s (B.txn_delete s k).0

  -- What `delete_with_old_value` returns and leaves behind, by the item that it reads.
  delete_failed :
      (s : B.Db) (k e : String)
      → B.txn_get s k ≡ failed e
      → delete_with_old_value B s k ≡ (s, "", some e)
  unfolding delete_with_old_value
  delete_failed s k e h = rw (h, L.aborts s s e) refl

  delete_unread :
      (s : B.Db) (k v e : String)
      → B.txn_get s k ≡ found v (some e)
      → delete_with_old_value B s k ≡ (s, v, some e)
  unfolding delete_with_old_value
  delete_unread s k v e h = rw (h, L.aborts s s e) refl

  delete_found :
      (s : B.Db) (k v : String)
      → L.Accepts k
      → B.txn_get s k ≡ found v none
      → delete_with_old_value B s k ≡ ((B.txn_delete s k).0, v, none)
  unfolding delete_with_old_value
  delete_found s k v a h = rw (h, delete_db s k a) refl

  value_of : Item → String × Option String
  value_of (failed err) = ("", some err)
  value_of (found v err) = (v, err)

  get_lem : (s : B.Db) (k : String) {i : Item} → B.txn_get s k ≡ i → get B s k ≡ value_of i
  unfolding get value_of
  get_lem s k {i = failed err} h = rw (h, L.views s (some err)) refl
  get_lem s k {i = found v err} h = rw (h, L.views s err) refl

  put_back :
      (s : B.Db) (k j v : String)
      → L.Accepts k
      → B.txn_get s k ≡ found v none
      → get B (rollback_delete_with_old_value B (B.txn_delete s k).0 k v).0 j ≡ get B s j
  unfolding put rollback_delete_with_old_value
  put_back s k j v a h =
      let t = (B.txn_delete s k).0 in
      rw (set_db t k v a) (elim (String_discrete j k) [
        | yes e ↦
            get_lem (B.txn_set t k v).0 j (L.get-set t k v j a ∙ if_pos (String_discrete j k) e _ _)
            ∙ sym (get_lem s j (ap (B.txn_get s) e ∙ h))
        | no ne ↦
            get_lem (B.txn_set t k v).0 j (
              L.get-set t k v j a
              ∙ if_neg (String_discrete j k) ne _ _
              ∙ L.get-delete s k j a
              ∙ if_neg (String_discrete j k) ne _ _)
            ∙ sym (get_lem s j refl)
      ])

  abbrev Undone : B.Db → String → String → Type 0
  Undone s k j =
      (((delete_with_old_value B s k).2 ≡ none)
        × (get B
              (rollback_delete_with_old_value B (delete_with_old_value B s k).0 k
                (delete_with_old_value B s k).1).0
              j
            ≡ get B s j))
      ⊎ (((delete_with_old_value B s k).2 ≢ none) × ((delete_with_old_value B s k).0 ≡ s))

  Undone_lem : (s : B.Db) (k j : String) {i : Item} → L.Accepts k → B.txn_get s k ≡ i → Undone s k j
  Undone_lem s k j {i = failed e} a h = rw (delete_failed s k e h) (inr ((λ n. cc), refl))
  Undone_lem s k j {i = found v (some e)} a h = rw (delete_unread s k v e h) (inr ((λ n. cc), refl))
  Undone_lem s k j {i = found v none} a h =
      rw (delete_found s k v a h) (inl (refl, put_back s k j v a h))

  -- Rolling back a `DeleteWithOldValue` of a key that Badger takes: where it returned no error, every read
  -- is as before; where it returned one, such as that of a missing key, it has changed nothing itself.
  pub badger_get-rollback_delete :
      (s : B.Db) (k j : String)
      → L.Accepts k
      → (((delete_with_old_value B s k).2 ≡ none)
          × (get B
                (rollback_delete_with_old_value B
                  (delete_with_old_value B s k).0
                  k
                  (delete_with_old_value B s k).1).0
                j
              ≡ get B s j))
        ⊎ (((delete_with_old_value B s k).2 ≢ none) × ((delete_with_old_value B s k).0 ≡ s))
  badger_get-rollback_delete s k j a = Undone_lem s k j a refl
