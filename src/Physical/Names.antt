-- ===== src/Physical/Names.antt =====
-- The comparison of names up to a length is an equivalence.
use rofl_fork.Base.{ℕ, zero, suc, ◌≡◌, refl, true, List, [], ◌∷◌, arith}
use rofl_fork.Physical.{same_up_to}

pub same_up_to_refl : (n : ℕ) (a : List ℕ) → same_up_to n a a ≡ true
unfolding same_up_to
same_up_to_refl zero a = refl
same_up_to_refl (suc n) [] = refl
same_up_to_refl (suc n) (c ∷ a) = ground (arith, same_up_to_refl n a)

pub same_up_to_sym : (n : ℕ) (a b : List ℕ) → same_up_to n a b ≡ same_up_to n b a
unfolding same_up_to
same_up_to_sym zero a b = refl
same_up_to_sym (suc n) [] [] = refl
same_up_to_sym (suc n) [] (d ∷ b) = refl
same_up_to_sym (suc n) (c ∷ a) [] = refl
same_up_to_sym (suc n) (c ∷ a) (d ∷ b) = ground (arith, same_up_to_sym n a b)

pub same_up_to_trans :
    (n : ℕ) (a b c : List ℕ)
    → same_up_to n a b ≡ true
    → same_up_to n b c ≡ true
    → same_up_to n a c ≡ true
unfolding same_up_to
same_up_to_trans zero a b c p q = refl
same_up_to_trans (suc n) [] [] c p q = q
same_up_to_trans (suc n) [] (y ∷ b) c p q = ground arith
same_up_to_trans (suc n) (x ∷ a) [] c p q = ground arith
same_up_to_trans (suc n) (x ∷ a) (y ∷ b) [] p q = ground arith
same_up_to_trans (suc n) (x ∷ a) (y ∷ b) (z ∷ c) p q = ground (arith, same_up_to_trans n a b c)
