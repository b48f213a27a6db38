-- ===== src/Cluster/Each.antt =====
-- A step of every server of a cluster.
use curp.Cluster.{each}
use curp.Prelude.{
  length, get_elem?, All, ℕ, zero, suc, ◌≡◌, refl, ap, subst, Option, none, some, List, [], ◌∷◌,
  map, arith,
}

abbrev pub Pairwise : {A B : Type 0} → (A → B → Type 0) → List A → List B → Type 0
Pairwise Q [] [] = Unit
Pairwise Q (x ∷ xs) (y ∷ ys) = Q x y × Pairwise Q xs ys
Pairwise Q _ _ = ⊥

pub each-All :
    {A B : Type 0} (f : A → Option B) (P : A → Type 0) (Q : A → B → Type 0)
    → ((x : A) → P x → (y : B) × (f x ≡ some y) × Q x y)
    → (xs : List A) → All P xs
    → (ys : List B) × (each f xs ≡ some ys) × Pairwise Q xs ys
unfolding each
each-All f P Q h [] a = ([], refl, tt)
each-All f P Q h (x ∷ xs) a =
    let (y, e, q) = h x a.0 in
    let (ys, es, qs) = each-All f P Q h xs a.1 in (y ∷ ys, ground arith, (q, qs))

pub Pairwise-All :
    {A B : Type 0} (Q : A → B → Type 0) (R : B → Type 0)
    → ((x : A) (y : B) → Q x y → R y)
    → (xs : List A) (ys : List B) → Pairwise Q xs ys
    → All R ys
Pairwise-All Q R h [] [] p = tt
Pairwise-All Q R h [] (y ∷ ys) p = elim p [ ]
Pairwise-All Q R h (x ∷ xs) [] p = elim p [ ]
Pairwise-All Q R h (x ∷ xs) (y ∷ ys) p = (h x y p.0, Pairwise-All Q R h xs ys p.1)

pub Pairwise-length :
    {A B : Type 0} (Q : A → B → Type 0) (xs : List A) (ys : List B)
    → Pairwise Q xs ys
    → length ys ≡ length xs
Pairwise-length Q [] [] p = refl
Pairwise-length Q [] (y ∷ ys) p = elim p [ ]
Pairwise-length Q (x ∷ xs) [] p = elim p [ ]
Pairwise-length Q (x ∷ xs) (y ∷ ys) p = ap suc (Pairwise-length Q xs ys p.1)

pub Pairwise-get_elem? :
    {A B : Type 0} (Q : A → B → Type 0) (xs : List A) (ys : List B) (i : ℕ) {x : A}
    → Pairwise Q xs ys
    → get_elem? xs i ≡ some x
    → (y : B) × (get_elem? ys i ≡ some y) × Q x y
Pairwise-get_elem? Q [] ys i p e = cc
Pairwise-get_elem? Q (x' ∷ xs) [] i p e = elim p [ ]
Pairwise-get_elem? Q (x' ∷ xs) (y ∷ ys) zero {x} p e =
    (y, refl, subst (λ z. Q z y) {x = x'} {y = x} (ground arith) p.0)
Pairwise-get_elem? Q (x' ∷ xs) (y ∷ ys) (suc i) {x} p e = Pairwise-get_elem? Q xs ys i {x = x} p.1 e

pub get_elem?-map :
    {A B : Type 0} (f : A → B) (xs : List A) (i : ℕ) {x : A}
    → get_elem? xs i ≡ some x
    → get_elem? (map f xs) i ≡ some (f x)
get_elem?-map f [] i e = cc
get_elem?-map f (y ∷ xs) zero {x} e = ap (λ o. elim o [ none ↦ none | some z ↦ some (f z) ]) e
get_elem?-map f (y ∷ xs) (suc i) {x} e = get_elem?-map f xs i {x = x} e

pub length-map : {A B : Type 0} (f : A → B) (xs : List A) → length (map f xs) ≡ length xs
length-map f [] = refl
length-map f (x ∷ xs) = ap suc (length-map f xs)

pub All-map :
    {A B : Type 0} (f : A → B) (P : B → Type 0) (xs : List A)
    → All (λ x. P (f x)) xs
    → All P (map f xs)
All-map f P [] h = tt
All-map f P (x ∷ xs) h = (h.0, All-map f P xs h.1)
