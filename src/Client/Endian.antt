-- ===== src/Client/Endian.antt =====
-- readInt on a machine of either byte order.
use russian_ai_cup.Base.{ℕ, ◌≡◌, refl, inl, inr, [], ◌∷◌, Bool-cases, if◌then◌else◌}
use russian_ai_cup.Client.Monad.{Platform}
use russian_ai_cup.Client.Scalars.{
  bytes_of, value_of, reverse_range, store, load, is_little_endian_machine, reorder,
}

-- The number that four bytes of the wire become, on a machine of either byte order. On a
-- little-endian machine they count from the lowest up, as they are sent. On a big-endian machine the
-- reversal leaves out the last of them: what is loaded has it lowest, and each of the others one
-- place too high.
pub load-reorder_four :
    {S : Type 0} (p : Platform S) (a b c d : ℕ)
    → load p (reorder p (a ∷ b ∷ c ∷ d ∷ []))
      ≡ (if p.little_endian then value_of (a ∷ b ∷ c ∷ d ∷ []) else value_of (d ∷ a ∷ b ∷ c ∷ []))
unfolding load reorder is_little_endian_machine store bytes_of reverse_range
load-reorder_four p a b c d = elim (Bool-cases p.little_endian) [
  | inl e ↦ rw (load, reorder, is_little_endian_machine, store, e) refl
  | inr e ↦ rw (load, reorder, is_little_endian_machine, store, e) refl
]
