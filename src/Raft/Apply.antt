-- ===== src/Raft/Apply.antt =====
-- Which entries `entriesToApply` of curp/raft.go lets through.
use curp.Raft.{Entry, entries_to_apply, u64}
use curp.Prelude.{
  if◌then◌else◌, ltb, length, drop, ℕ, zero, suc, ◌+◌, ◌-◌, ◌≤◌, ◌<◌, ◌≡◌, refl, sym, some, List,
  [], ◌∷◌, arith,
}

-- The indices count up by one from the first.
abbrev pub Contiguous : ℕ → List Entry → Type 0
Contiguous first [] = Unit
Contiguous first (e ∷ es) = (e.index ≡ first) × Contiguous (first + 1) es

-- The entries above an index, in order.
unfoldable pub newer : ℕ → List Entry → List Entry
newer applied [] = []
newer applied (e ∷ es) = if ltb applied e.index then e ∷ newer applied es else newer applied es

pub newer_all :
    (applied first : ℕ) (es : List Entry)
    → Contiguous first es
    → applied < first
    → newer applied es ≡ es
unfolding newer
newer_all applied first [] c h = refl
newer_all applied first (e ∷ es) c h = ground (arith, newer_all applied (first + 1) es)

drop-newer :
    (k applied first : ℕ) (es : List Entry)
    → Contiguous first es
    → first + k ≡ applied + 1
    → drop k es ≡ newer applied es
unfolding newer
drop-newer zero applied first es c h = sym (newer_all applied first es c (omega arith))
drop-newer (suc k) applied first [] c h = refl
drop-newer (suc k) applied first (e ∷ es) c h = ground (arith, drop-newer k applied (first + 1) es)

newer_none :
    (applied first : ℕ) (es : List Entry)
    → Contiguous first es
    → first + length es ≤ applied + 1
    → newer applied es ≡ []
unfolding newer
newer_none applied first [] c h = refl
newer_none applied first (e ∷ es) c h = ground (arith, newer_none applied (first + 1) es)

-- For entries whose indices count up from at most the next one, `entriesToApply` gives exactly those
-- above the applied index, and never ends in the fatal error, as long as the indices stay below 2^64.
pub entries_to_apply-newer :
    (applied first : ℕ) (es : List Entry)
    → Contiguous first es
    → first ≤ applied + 1
    → applied + 1 < u64
    → first + length es < u64
    → entries_to_apply applied es ≡ some (newer applied es)
unfolding entries_to_apply newer
entries_to_apply-newer applied first [] c h b l = refl
entries_to_apply-newer applied first (e ∷ es) c h b l = ground (
  arith,
  drop-newer (applied + 1 - first) applied first (e ∷ es) c (omega arith),
  newer_none applied first (e ∷ es) c,
)
