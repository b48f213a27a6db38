-- ===== src/Kv/Bolt/Equal/Compares.antt =====
-- What the answer of `Equal` of kv/blot_kv.go says of the two buckets.
use curp.Kv.Bolt.{BoltDb, text_of}
use curp.Kv.Bolt.Equal.{
  Compared, same, not_equal, panicked, collect, last_index, compare_at, compare_from, equal,
}
use curp.Prelude.{
  Option-cases, String_discrete, get_elem?, All, ℕ, zero, suc, ◌+◌, String, ◌≡◌, refl, sym, ap,
  subst, ◌∙◌, ◌≢◌, ◌↔◌, ◌⊎◌, inl, inr, ite, if_pos, if_neg, Option, none, some, List, [], ◌∷◌, map,
  arith,
}

-- What Bolt documents of a cursor: it runs through the keys of the bucket, and through all of them. There
-- is no nested bucket, which has a key and no value.
pub record Lists (B : BoltDb) (s : B.Bucket) : Type 0 where
  pub found : All (λ k. B.bucket_get s k ≢ none) (B.keys s)
  pub all : (k v : String) → B.bucket_get s k ≡ some v → (j : ℕ) × (get_elem? (B.keys s) j ≡ some k)

has_value : (o : Option String) → o ≢ none → (v : String) × (o ≡ some v)
has_value none h = absurd (h refl)
has_value (some v) h = (v, refl)

All-get {κ} :
    (P : String → Type κ) (ks : List String) (j : ℕ) (k : String)
    → All P ks
    → get_elem? ks j ≡ some k
    → P k
All-get P [] j k h e = cc
All-get P (l ∷ ks) zero k h e = subst P {x = l} {y = k} (ground arith) h.0
All-get P (l ∷ ks) (suc j) k h e = All-get P ks j k h.1 e

get_elem?-map :
    (f : String → String) (ks : List String) (j : ℕ) (k : String)
    → get_elem? ks j ≡ some k
    → get_elem? (map f ks) j ≡ some (f k)
get_elem?-map f [] j k e = cc
get_elem?-map f (l ∷ ks) zero k e = ground arith
get_elem?-map f (l ∷ ks) (suc j) k e = get_elem?-map f ks j k e

-- The search gives an index of the key, or what it began with if the key is not there.
last_index-get :
    (key : String) (i : ℕ) (ks : List String) (index : Option ℕ)
    → ((last_index key i ks index ≡ index) × All (λ k. k ≢ key) ks)
      ⊎ ((j : ℕ) × (last_index key i ks index ≡ some (i + j)) × (get_elem? ks j ≡ some key))
unfolding last_index
last_index-get key i [] index = inl (refl, tt)
last_index-get key i (k ∷ ks) index =
    let next = ite (String_discrete k key) (some i) index in
    elim (last_index-get key (i + 1) ks next) [
      | inr (j, e, g) ↦ inr (suc j, e ∙ ap some (omega arith), g)
      | inl (e, none_left) ↦ elim (String_discrete k key) [
        | yes here ↦ inr (
          zero,
          e ∙ if_pos (String_discrete k key) here _ _ ∙ ap some (omega arith),
          ap some here,
        )
        | no other ↦ inl (e ∙ if_neg (String_discrete k key) other _ _, (other, none_left))
      ]
    ]

compare_at-get :
    (values : List String) (k v w : String) (i : ℕ) (rest : Compared)
    → get_elem? values i ≡ some w
    → compare_at values k v (some i) rest ≡ ite (String_discrete w v) rest (not_equal k v w)
unfolding compare_at
compare_at-get values k v w i rest e = rw (e, compare_at) refl

module _ (B : BoltDb) where
  abbrev value_text : B.Bucket → String → String
  value_text s k = text_of B (B.bucket_get s k)

  collect-found :
      (s : B.Bucket) (ks : List String)
      → All (λ k. B.bucket_get s k ≢ none) ks
      → collect B s ks ≡ (ks, map (value_text s) ks)
  unfolding collect
  collect-found s [] h = refl
  collect-found s (k ∷ ks) h = elim (Option-cases (B.bucket_get s k)) [
    | inl e ↦ absurd (h.0 e)
    | inr (v, e) ↦ ground (arith, collect-found s ks h.1)
  ]

  -- The two buckets give the same for a key.
  abbrev pub Agrees : B.Bucket → B.Bucket → String → Type 0
  Agrees s t k = B.bucket_get s k ≡ B.bucket_get t k

  -- The loop at a key that stands in the list.
  compare_from-found :
      (s t : B.Bucket) (keys ks : List String) (k v w : String) (j : ℕ)
      → B.bucket_get s k ≡ some w
      → B.bucket_get t k ≡ some v
      → last_index k 0 keys none ≡ some (0 + j)
      → get_elem? keys j ≡ some k
      → compare_from B t keys (map (value_text s) keys) (k ∷ ks)
        ≡ ite
            (String_discrete w v)
            (compare_from B t keys (map (value_text s) keys) ks)
            (not_equal k v w)
  unfolding compare_from
  compare_from-found s t keys ks k v w j p q e g =
      let at : get_elem? (map (value_text s) keys) (0 + j) ≡ some (value_text s k) =
        ap (get_elem? (map (value_text s) keys)) (omega arith)
        ∙ get_elem?-map (value_text s) keys j k g in
      let rest = compare_from B t keys (map (value_text s) keys) ks in
      rw (e, q)
        (compare_at-get (map (value_text s) keys) k v w (0 + j) rest
          (at ∙ ap (λ x. some (text_of B x)) p))

  compare_from_iff :
      (s t : B.Bucket) (ks : List String)
      → Lists B s
      → All (λ k. B.bucket_get t k ≢ none) ks
      → (compare_from B t (B.keys s) (map (value_text s) (B.keys s)) ks ≡ same)
        ↔ All (Agrees s t) ks
  unfolding compare_from
  compare_from_iff s t [] L h = ((λ e. tt), (λ a. refl))
  compare_from_iff s t (k ∷ ks) L h =
      let (forth, back) = compare_from_iff s t ks L h.1 in
      let (v, q) = has_value (B.bucket_get t k) h.0 in
      elim (last_index-get k 0 (B.keys s) none) [
        | inl (e, missing) ↦ (
          (λ x. absurd (ground arith)),
          (λ a.
              let (j, g) = L.all k v (a.0 ∙ q) in
              absurd (All-get (λ x. x ≢ k) (B.keys s) j k missing g refl)),
        )
        | inr (j, e, g) ↦
            let (w, p) =
              has_value (B.bucket_get s k)
                (All-get (λ x. B.bucket_get s x ≢ none) (B.keys s) j k L.found g) in
            let step = compare_from-found s t (B.keys s) ks k v w j p q e g in
            ((λ x. ground arith), (λ a. ground arith))
      ]

  -- The loop finds a value for each key that it finds.
  compare_from-ne-panicked :
      (s t : B.Bucket) (ks : List String)
      → Lists B s
      → All (λ k. B.bucket_get t k ≢ none) ks
      → compare_from B t (B.keys s) (map (value_text s) (B.keys s)) ks ≢ panicked
  unfolding compare_from compare_at
  compare_from-ne-panicked s t [] L h x = cc
  compare_from-ne-panicked s t (k ∷ ks) L h x =
      let later = compare_from-ne-panicked s t ks L h.1 in
      let (v, q) = has_value (B.bucket_get t k) h.0 in
      elim (last_index-get k 0 (B.keys s) none) [
        | inl (e, missing) ↦ ground arith
        | inr (j, e, g) ↦
            let (w, p) =
              has_value (B.bucket_get s k)
                (All-get (λ x. B.bucket_get s x ≢ none) (B.keys s) j k L.found g) in
            let step = compare_from-found s t (B.keys s) ks k v w j p q e g in
            elim (String_discrete w v) [
              | yes equal_texts ↦
                  later (sym (if_pos (String_discrete w v) equal_texts _ _) ∙ sym step ∙ x)
              | no other ↦
                  let differs : not_equal k v w ≡ panicked =
                    sym (if_neg (String_discrete w v) other _ _) ∙ sym step ∙ x in
                  cc
            ]
      ]

  equal_of :
      (name : String) (s t : String → Option B.Bucket) {b c : B.Bucket}
      → s name ≡ some b
      → t name ≡ some c
      → Lists B b
      → equal B name s t ≡ compare_from B c (B.keys b) (map (value_text b) (B.keys b)) (B.keys c)
  unfolding equal
  equal_of name s t {b} {c} e f L =
      rw (e, f, equal)
        (ap (λ (kv : List String × List String). compare_from B c kv.0 kv.1 (B.keys c))
          (collect-found b (B.keys b) L.found))

  -- Where both databases have a bucket under the name that the first store has for its own, and a cursor
  -- lists the two buckets as Bolt documents, `Equal` does not panic, and it returns nil exactly if every key
  -- of the second bucket has the same value in the first.
  pub bolt_equal_iff :
      (name : String) (s t : String → Option B.Bucket) {b c : B.Bucket}
      → s name ≡ some b
      → t name ≡ some c
      → Lists B b
      → Lists B c
      → (equal B name s t ≢ panicked) × ((equal B name s t ≡ same) ↔ All (Agrees b c) (B.keys c))
  bolt_equal_iff name s t {b} {c} e f L M =
      rw (equal_of name s t {b = b} {c = c} e f L) (
        compare_from-ne-panicked b c (B.keys c) L M.found,
        compare_from_iff b c (B.keys c) L M.found,
      )
