-- ===== src/Machine/Execute.antt =====
-- What the execution of commands by curp/state.go does to the store: which commands commute.
use curp.Command.{CurpClientCommand, conflict}
use curp.Command.Op
use curp.Kv.{KvStore, IsStore}
use curp.Machine.{execute_sync, execute_async, not_found_in_state}
use curp.Prelude.{
  if◌then◌else◌, ◌==◌, String_discrete, String, ◌≡◌, ◌⊎◌, ite, false, Option, none, some, arith,
}

module _ (K : KvStore) where
  -- The two paths of the code agree: the slow path changes the store as the fast path does, and
  -- answers alike but for a read that fails, which the fast path alone reports.
  pub execute_async-execute_sync :
      (s : K.Store) (c : CurpClientCommand)
      → ((execute_async K s c).0 ≡ (execute_sync K s c).0)
        × (((execute_async K s c).1 ≡ (execute_sync K s c).1)
            ⊎ ((c.op ≡ Op.get) × ((execute_sync K s c).1 ≡ not_found_in_state K)))
  unfolding execute_sync execute_async
  execute_async-execute_sync s c = (ground arith, ground arith)

module _ (K : KvStore) (L : IsStore K) where
  -- Two stores that no read tells apart.
  abbrev pub Same : K.Store → K.Store → Type 0
  Same s t = (k : String) → K.get s k ≡ K.get t k

  -- What a read gives after a command: what it writes to its key, and else what a read gave before.
  abbrev pub written : CurpClientCommand → String × Option String → String × Option String
  written c old =
      if c.op == Op.put
      then (c.value, none)
      else (if c.op == Op.delete then ("", some L.missing) else old)

  pub get-execute_sync :
      (s : K.Store) (c : CurpClientCommand) (k : String)
      → K.get (execute_sync K s c).0 k
        ≡ ite (String_discrete k c.key) (written c (K.get s k)) (K.get s k)
  unfolding execute_sync
  get-execute_sync s c k = ground (arith, L.get-put s c.key c.value k, L.get-delete s c.key k)

  -- What a command answers, from what a read of its key gives.
  abbrev pub result : CurpClientCommand → String × Option String → String
  result c read =
      if c.op == Op.get then elim read.1 [ none ↦ read.0 | some _ ↦ not_found_in_state K ] else ""

  pub result-execute_sync :
      (s : K.Store) (c : CurpClientCommand) → (execute_sync K s c).1 ≡ result c (K.get s c.key)
  unfolding execute_sync
  result-execute_sync s c = ground arith

  -- Commands that do not conflict commute: in both orders every later read is the same, and each
  -- command has the same result.
  pub execute_sync_comm :
      (s : K.Store) (c d : CurpClientCommand)
      → conflict c d ≡ false
      → Same (execute_sync K (execute_sync K s c).0 d).0 (execute_sync K (execute_sync K s d).0 c).0
        × ((execute_sync K (execute_sync K s c).0 d).1 ≡ (execute_sync K s d).1)
        × ((execute_sync K (execute_sync K s d).0 c).1 ≡ (execute_sync K s c).1)
  unfolding conflict
  execute_sync_comm s c d h = (
    λ k. ground (
      arith,
      get-execute_sync s c k,
      get-execute_sync s d k,
      get-execute_sync (execute_sync K s c).0 d k,
      get-execute_sync (execute_sync K s d).0 c k,
    ),
    ground (
      arith,
      result-execute_sync s d,
      result-execute_sync (execute_sync K s c).0 d,
      get-execute_sync s c d.key,
    ),
    ground (
      arith,
      result-execute_sync s c,
      result-execute_sync (execute_sync K s d).0 c,
      get-execute_sync s d c.key,
    ),
  )

  pub execute_sync-Same :
      (s t : K.Store) (c : CurpClientCommand)
      → Same s t
      → Same (execute_sync K s c).0 (execute_sync K t c).0
  execute_sync-Same s t c h =
      λ k. ground (arith, h k, get-execute_sync s c k, get-execute_sync t c k)
