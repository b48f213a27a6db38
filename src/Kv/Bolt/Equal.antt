-- ===== src/Kv/Bolt/Equal.antt =====
-- `Equal` of kv/blot_kv.go.
pub mod Compares
use curp.Kv.Bolt.{BoltDb, text_of}
use curp.Prelude.{
  String_discrete, get_elem?, ℕ, ◌+◌, String, ite, Option, none, some, List, [], ◌∷◌,
}

-- What `Equal` returns: nil, one of its errors, or a panic.
pub data Compared : Type 0 where
  same : Compared
  no_exist : (key : String) → Compared
  not_equal : (key expect got : String) → Compared
  panicked : Compared

-- The search of a key: the last index where it stands; none is -1.
unfoldable pub last_index : String → ℕ → List String → Option ℕ → Option ℕ
last_index key i [] index = index
last_index key i (k ∷ keys) index =
    last_index key (i + 1) keys (ite (String_discrete k key) (some i) index)

-- The tests of a key of the other store: its index, the text of its value, and the rest of the loop.
compare_at : List String → String → String → Option ℕ → Compared → Compared
compare_at values key value none rest = no_exist key
compare_at values key value (some index) rest = elim (get_elem? values index) [
  | none ↦ panicked
  | some expect ↦ ite (String_discrete expect value) rest (not_equal key value expect)
]

module _ (B : BoltDb) where
  -- The first transaction: keys and values up to the first key with no value, whose error is dropped.
  unfoldable pub collect : B.Bucket → List String → List String × List String
  collect s [] = ([], [])
  collect s (key ∷ ks) =
      let (keys, values) = collect s ks in
      elim (B.bucket_get s key) [
        | none ↦ (key ∷ [], [])
        | some value ↦ (key ∷ keys, value ∷ values)
      ]

  unfoldable pub compare_from : B.Bucket → List String → List String → List String → Compared
  unfolding compare_at last_index
  compare_from t keys values [] = same
  compare_from t keys values (key ∷ ks) =
      let rest = compare_from t keys values ks in
      compare_at values key (text_of B (B.bucket_get t key)) (last_index key 0 keys none) rest

  -- Two databases as what `tx.Bucket` gives for a name. Both are asked for the bucket of the first store; a
  -- cursor on the nil of a name that is not there panics.
  unfoldable pub equal : (bucket_name : String) → (s t : String → Option B.Bucket) → Compared
  unfolding collect compare_from
  equal bucket_name s t = elim (s bucket_name) [
    | none ↦ panicked
    | some b ↦ elim (t bucket_name) [
      | none ↦ panicked
      | some c ↦ let (keys, values) = collect b (B.keys b) in compare_from c keys values (B.keys c)
    ]
  ]
