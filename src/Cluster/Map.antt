-- ===== src/Cluster/Map.antt =====
-- What the store of a cluster promises its client: a map from keys to texts. It says nothing of servers,
-- rounds or commits.
use curp.Cluster.{Request, puts, gets, dels}
use curp.Kv.{KvStore, IsStore}
use curp.Machine.{execute_sync}
use curp.Machine.Execute.{get-execute_sync}
use curp.Client.{GrpcClient, put, get, del}
use curp.Cluster.{request}
use curp.Prelude.{String_discrete, String, ◌≡◌, refl, ite, Option, none, some, List, [], ◌∷◌, arith}

abbrev pub KeyMap : Type 0
KeyMap = String → Option String

-- The text of a failed `GET` is the answer of a key that is not there.
abbrev pub map_get : Option String → String
map_get none = "NOT FOUND IN STATE"
map_get (some value) = value

unfoldable pub map_step : KeyMap → Request → KeyMap × String
map_step m (puts key value) = (λ k. ite (String_discrete k key) (some value) (m k), "")
map_step m (gets key) = (m, map_get (m key))
map_step m (dels key) = (λ k. ite (String_discrete k key) none (m k), "")

unfoldable pub map_run : KeyMap → List Request → KeyMap × List String
map_run m [] = (m, [])
map_run m (r ∷ rs) =
    let (next, answer) = map_step m r in
    let (last, answers) = map_run next rs in (last, answer ∷ answers)

-- The map that a store holds: a read that fails is a key that is not there.
abbrev pub read_back : String × Option String → Option String
read_back (value, none) = some value
read_back (value, some _) = none

module _ (K : KvStore) where
  abbrev pub Holds : K.Store → KeyMap → Type 0
  Holds s m = (k : String) → read_back (K.get s k) ≡ m k

  module _ (L : IsStore K) where
    pub execute_sync-Holds :
        (s : K.Store) (m : KeyMap) (c : GrpcClient) (r : Request)
        → Holds s m
        → Holds (execute_sync K s (request c r).1).0 (map_step m r).0
          × ((execute_sync K s (request c r).1).1 ≡ (map_step m r).1)
    unfolding request map_step put get del execute_sync
    execute_sync-Holds s m c (puts key value) h =
        (λ k. ground (arith, h k, get-execute_sync K L s (request c (puts key value)).1 k), refl)
    execute_sync-Holds s m c (gets key) h = (λ k. h k, ground (arith, h key))
    execute_sync-Holds s m c (dels key) h =
        (λ k. ground (arith, h k, get-execute_sync K L s (request c (dels key)).1 k), refl)
