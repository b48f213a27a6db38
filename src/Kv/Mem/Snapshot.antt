-- ===== src/Kv/Mem/Snapshot.antt =====
-- `Equal` of kv/mem_kv.go.
use curp.Kv.Mem.{MemStore, equal, equal_from}
use curp.Prelude.{
  IsMap, String_discrete, String, ◌≡◌, refl, true, none, some, List, [], ◌∷◌, lookup, arith,
}

-- Every entry of the list is what a read of the map finds.
abbrev Shows : List (String × String) → List (String × String) → Type 0
Shows m [] = Unit
Shows m ((k, v) ∷ entries) = (lookup String_discrete k m ≡ some v) × Shows m entries

equal_from_shown :
    (m : MemStore) (entries : List (String × String))
    → Shows m.kv entries
    → equal_from m entries ≡ true
unfolding equal_from
equal_from_shown m [] h = refl
equal_from_shown m ((k, v) ∷ entries) h = ground (arith, equal_from_shown m entries h.1)

Shows-cons :
    (e : String × String) (m entries : List (String × String))
    → lookup String_discrete e.0 entries ≡ none
    → Shows m entries
    → Shows (e ∷ m) entries
unfolding lookup
Shows-cons e m [] h s = tt
Shows-cons e m ((k, v) ∷ entries) h s = (ground arith, Shows-cons e m entries (ground arith) s.1)

IsMap-Shows : (m : List (String × String)) → IsMap String_discrete m → Shows m m
unfolding lookup
IsMap-Shows [] h = tt
IsMap-Shows (e ∷ m) h = (ground arith, Shows-cons e m m h.0 (IsMap-Shows m h.1))

-- `Equal` answers true for every store and every argument: it compares the store with itself.
pub equal_always : (m kv : MemStore) → IsMap String_discrete m.kv → equal m kv ≡ true
unfolding equal
equal_always m kv h = equal_from_shown m m.kv (IsMap-Shows m.kv h)
