-- ===== src/Command/Op.antt =====
-- The operation codes of curp/command/command.go, and the texts that name them in a trace.
use curp.Prelude.{
  zero, suc, ◌≤◌, ◌<◌, ◌≡◌, refl, some, none, arith, ℕ, String, Option, List, [], ◌∷◌, get_elem?,
}

abbrev pub put : ℕ
put = 0

abbrev pub get : ℕ
get = 1

abbrev pub delete : ℕ
delete = 2

abbrev pub rlock : ℕ
rlock = 3

abbrev pub wlock : ℕ
wlock = 4

abbrev pub op_fmt : List String
op_fmt = "PUT" ∷ "GET" ∷ "DELETE" ∷ "RLOCK" ∷ "WLOCK" ∷ []

-- `OpFmt[op]`; none is the run-time panic of an index out of range.
unfoldable pub format : ℕ → Option String
format op = get_elem? op_fmt op

pub format_in_range : (op : ℕ) → op ≤ wlock → (text : String) × (format op ≡ some text)
unfolding format
format_in_range zero h = ("PUT", refl)
format_in_range (suc zero) h = ("GET", refl)
format_in_range (suc (suc zero)) h = ("DELETE", refl)
format_in_range (suc (suc (suc zero))) h = ("RLOCK", refl)
format_in_range (suc (suc (suc (suc zero)))) h = ("WLOCK", refl)
format_in_range (suc (suc (suc (suc (suc op))))) h = absurd (omega arith)

pub format_out_of_range : (op : ℕ) → wlock < op → format op ≡ none
unfolding format
format_out_of_range (suc (suc (suc (suc (suc op))))) h = refl
format_out_of_range _ h = absurd (omega arith)
