-- ===== src/Prelude/Maps.antt =====
-- Go's `map[K]V`: an association list read by the library's `lookup`. A key that is not there reads
-- as none; what the source gets then (the zero value, `ok` false) is written out where it reads.
use mathlib.Core.Path.{◌≡◌, refl, subst, ◌∙◌}
use mathlib.Core.Logic.{◌≢◌, ite, if_pos, if_neg}
use mathlib.Core.List.{List, [], ◌∷◌, lookup}
use mathlib.Core.Option.{none, some}
use native.Mathlib.Omega.{arith}
use curp.Prelude.Lists.{All}

module _ {ℓ} {K V : Type ℓ} (dec : Discrete K) where
  -- `m[k] = v`
  unfoldable pub insert : K → V → List (K × V) → List (K × V)
  insert k v [] = (k, v) ∷ []
  insert k v (e ∷ m) = ite (dec k e.0) ((k, v) ∷ m) (e ∷ insert k v m)

  -- `delete(m, k)`
  unfoldable pub delete : K → List (K × V) → List (K × V)
  delete k [] = []
  delete k (e ∷ m) = ite (dec k e.0) (delete k m) (e ∷ delete k m)

  pub delete_one : (k : K) (v : V) → delete k ((k, v) ∷ []) ≡ []
  unfolding delete
  delete_one k v = ground arith

  pub lookup-insert :
      (j k : K) (v : V) (m : List (K × V))
      → lookup dec j (insert k v m) ≡ ite (dec j k) (some v) (lookup dec j m)
  unfolding lookup insert
  lookup-insert j k v [] = ground arith
  lookup-insert j k v (e ∷ m) = ground (arith, lookup-insert j k v m)

  pub lookup-insert_ne :
      (j k : K) (v : V) (m : List (K × V)) → j ≢ k → lookup dec j (insert k v m) ≡ lookup dec j m
  lookup-insert_ne j k v m h = lookup-insert j k v m ∙ if_neg (dec j k) h _ _

  pub lookup-delete :
      (j k : K) (m : List (K × V)) → lookup dec j (delete k m) ≡ ite (dec j k) none (lookup dec j m)
  unfolding lookup delete
  lookup-delete j k [] = ground arith
  lookup-delete j k (e ∷ m) = ground (arith, lookup-delete j k m)

  -- Go's maps hold a key once.
  abbrev pub IsMap : List (K × V) → Type ℓ
  IsMap [] = Unit
  IsMap (e ∷ m) = (lookup dec e.0 m ≡ none) × IsMap m

  pub insert-IsMap : (k : K) (v : V) (m : List (K × V)) → IsMap m → IsMap (insert k v m)
  unfolding lookup insert
  insert-IsMap k v [] h = (refl, tt)
  insert-IsMap k v (e ∷ m) h = ground (arith, lookup-insert e.0 k v m, insert-IsMap k v m h.1)

  pub delete-IsMap : (k : K) (m : List (K × V)) → IsMap m → IsMap (delete k m)
  unfolding delete
  delete-IsMap k [] h = tt
  delete-IsMap k (e ∷ m) h = ground (arith, lookup-delete e.0 k m, delete-IsMap k m h.1)

  module _ {κ} (P : K × V → Type κ) where
    pub insert-All : (k : K) (v : V) (m : List (K × V)) → P (k, v) → All P m → All P (insert k v m)
    unfolding insert
    insert-All k v [] p h = (p, tt)
    insert-All k v (e ∷ m) p h = elim (dec k e.0) [
      | yes here ↦ rw (if_pos _ here) (p, h.1)
      | no there ↦ rw (if_neg _ there) (h.0, insert-All k v m p h.1)
    ]

    pub delete-All : (k : K) (m : List (K × V)) → All P m → All P (delete k m)
    unfolding delete
    delete-All k [] h = tt
    delete-All k (e ∷ m) h = elim (dec k e.0) [
      | yes here ↦ rw (if_pos _ here) (delete-All k m h.1)
      | no there ↦ rw (if_neg _ there) (h.0, delete-All k m h.1)
    ]

    pub All-lookup :
        (k : K) (m : List (K × V)) {v : V} → All P m → lookup dec k m ≡ some v → P (k, v)
    unfolding lookup
    All-lookup k [] {v} h e = cc
    All-lookup k (f ∷ m) {v} h e = elim (dec k f.0) [
      | yes here ↦ let same : f ≡ (k, v) = ground arith in subst P same h.0
      | no there ↦ All-lookup k m h.1 (ground arith)
    ]
