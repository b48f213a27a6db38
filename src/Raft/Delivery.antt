-- ===== src/Raft/Delivery.antt =====
-- Batches of committed entries of curp/raft.go, taken from one log: the part above the applied index.
use curp.Raft.{Entry}
use mathlib.Core.Path.{ap₂}
use curp.Raft.Apply.{newer_all, Contiguous, newer}
use curp.Prelude.{
  length, ℕ, zero, suc, ◌+◌, ◌-◌, ◌≤◌, ◌≡◌, refl, sym, ap, ◌∙◌, List, [], ◌∷◌, ◌++◌, arith, dec_lt,
}

-- The log from an index on.
abbrev pub segment : (ℕ → Entry) → ℕ → ℕ → List Entry
segment log first zero = []
segment log first (suc n) = log first ∷ segment log (first + 1) n

-- The entries are those of the log, from this index on.
abbrev pub FromLog : (ℕ → Entry) → ℕ → List Entry → Type 0
FromLog log first [] = Unit
FromLog log first (e ∷ es) = (e ≡ log first) × FromLog log (first + 1) es

module _ (log : ℕ → Entry) where
  pub segment-append :
      (f g a k n : ℕ) → f + a ≡ g → a + k ≡ n → segment log f a ++ segment log g k ≡ segment log f n
  segment-append f g zero k n p q =
      let same : f ≡ g = omega arith in
      let long : k ≡ n = omega arith in ap₂ (segment log) (sym same) long
  segment-append f g (suc a) k zero p q = absurd (omega arith)
  segment-append f g (suc a) k (suc n) p q =
      ap (◌∷◌ (log f)) (segment-append (f + 1) g a k n (omega arith) (omega arith))

  pub FromLog-segment :
      (first n : ℕ) (es : List Entry)
      → FromLog log first es
      → n ≡ length es
      → es ≡ segment log first n
  FromLog-segment first zero [] h e = refl
  FromLog-segment first zero (x ∷ es) h e = absurd (omega arith)
  FromLog-segment first (suc n) [] h e = absurd (omega arith)
  FromLog-segment first (suc n) (x ∷ es) h e =
      ap₂ ◌∷◌ h.0 (FromLog-segment (first + 1) n es h.1 (omega arith))

  module _ (indexed : (i : ℕ) → (log i).index ≡ i) where
    pub FromLog-Contiguous :
        (first : ℕ) (es : List Entry) → FromLog log first es → Contiguous first es
    FromLog-Contiguous first [] h = tt
    FromLog-Contiguous first (e ∷ es) h =
        (ap (λ (x : Entry). x.index) h.0 ∙ indexed first, FromLog-Contiguous (first + 1) es h.1)

    pub newer-segment :
        (a first n : ℕ) (es : List Entry)
        → FromLog log first es
        → first ≤ a + 1
        → n ≡ first + length es - (a + 1)
        → newer a es ≡ segment log (a + 1) n
    unfolding newer
    newer-segment a first zero [] h l e = refl
    newer-segment a first (suc n) [] h l e = absurd (omega arith)
    newer-segment a first n (x ∷ es) h l e =
        let index : x.index ≡ first = ap (λ (y : Entry). y.index) h.0 ∙ indexed first in
        elim (dec_lt a first) [
          | yes above ↦
              let next : first ≡ a + 1 = omega arith in
              ground (
                arith,
                newer_all a (first + 1) es (FromLog-Contiguous (first + 1) es h.1) (omega arith),
                rw next at (FromLog-segment first n (x ∷ es) h (omega arith)),
              )
          | no below ↦
              ground (arith, newer-segment a (first + 1) n es h.1 (omega arith) (omega arith))
        ]
