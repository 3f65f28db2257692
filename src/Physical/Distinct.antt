-- ===== src/Physical/Distinct.antt =====
-- Arrays whose elements are distinct by a test, and the search in them when a place changes.
use rofl_fork.Base.{
  ◌≡◌, sym, ◌∙◌, refl, Bool, true, false, Bool-cases, inl, inr, List, [], ◌∷◌, ◌++◌, Option, none,
  some, if◌then◌else◌, arith,
}
use rofl_fork.Physical.{find_in}
use rofl_fork.Physical.Arrays.{Every, Every-map, Changes}

module _ {A : Type 0} (R : A → A → Bool) where
  abbrev pub AreDistinct : List (Option A) → Type 0
  AreDistinct [] = Unit
  AreDistinct (none ∷ xs) = AreDistinct xs
  AreDistinct (some a ∷ xs) = Every (λ b. R a b ≡ false) xs × AreDistinct xs

module _ {A : Type 0} where
  Every-put :
      (P : A → Type 0) (ks zs : List (Option A)) (a : A)
      → Every P (ks ++ none ∷ zs)
      → P a
      → Every P (ks ++ some a ∷ zs)
  Every-put P [] zs a e h = (h, e)
  Every-put P (none ∷ ks) zs a e h = Every-put P ks zs a e h
  Every-put P (some k ∷ ks) zs a e h = (e.0, Every-put P ks zs a e.1 h)

  Every-clear :
      (P : A → Type 0) (ks zs : List (Option A)) (a : A)
      → Every P (ks ++ some a ∷ zs)
      → P a × Every P (ks ++ none ∷ zs)
  Every-clear P [] zs a e = e
  Every-clear P (none ∷ ks) zs a e = Every-clear P ks zs a e
  Every-clear P (some k ∷ ks) zs a e = let (h, f) = Every-clear P ks zs a e.1 in (h, (e.0, f))

  -- An element that nothing equals is put, and found by its test; other tests find what they found.
  find_in-put :
      (q : A → Bool) (ks zs : List (Option A)) (a : A)
      → (q a ≡ true → Every (λ b. q b ≡ false) (ks ++ none ∷ zs))
      → find_in q (ks ++ some a ∷ zs) ≡ (if q a then some a else find_in q (ks ++ none ∷ zs))
  unfolding find_in
  find_in-put q [] zs a h = refl
  find_in-put q (none ∷ ks) zs a h = find_in-put q ks zs a h
  find_in-put q (some k ∷ ks) zs a h = elim (Bool-cases (q a)) [
    | inl y ↦ let f = find_in-put q ks zs a (λ z. (h z).1) in rw ((h y).0, y) (rw y at f)
    | inr m ↦
        let f = find_in-put q ks zs a (λ z. let c = sym z ∙ m in ground arith) in
        rw m (elim (Bool-cases (q k)) [ inl y ↦ rw y refl | inr n ↦ rw n (rw m at f) ])
  ]

  find_in-clear :
      (q : A → Bool) (ks zs : List (Option A)) (a : A)
      → q a ≡ false
      → find_in q (ks ++ none ∷ zs) ≡ find_in q (ks ++ some a ∷ zs)
  unfolding find_in
  find_in-clear q [] zs a m = rw m refl
  find_in-clear q (none ∷ ks) zs a m = find_in-clear q ks zs a m
  find_in-clear q (some k ∷ ks) zs a m = elim (Bool-cases (q k)) [
    | inl y ↦ rw y refl
    | inr n ↦ rw n (find_in-clear q ks zs a m)
  ]

  pub Changes-find_put :
      (q : A → Bool) (a : A) (xs ys : List (Option A))
      → Changes none (some a) xs ys
      → (q a ≡ true → Every (λ b. q b ≡ false) xs)
      → find_in q ys ≡ (if q a then some a else find_in q xs)
  Changes-find_put q a xs ys (ks, zs, e, f) h =
      rw (e, f) (find_in-put q ks zs a (λ y. rw e at (h y)))

  pub Changes-find_clear :
      (q : A → Bool) (a : A) (xs ys : List (Option A))
      → Changes (some a) none xs ys
      → q a ≡ false
      → find_in q ys ≡ find_in q xs
  Changes-find_clear q a xs ys (ks, zs, e, f) m = rw (e, f) (find_in-clear q ks zs a m)

  pub Changes-Every :
      (P : A → Type 0) (a : A) (xs ys : List (Option A))
      → Changes (some a) none xs ys
      → Every P xs
      → Every P ys
  Changes-Every P a xs ys (ks, zs, e, f) h = rw f (Every-clear P ks zs a (rw e at h)).1

module _ {A : Type 0} (R : A → A → Bool) (R_sym : (a b : A) → R a b ≡ R b a) where
  put-AreDistinct :
      (ks zs : List (Option A)) (a : A)
      → Every (λ b. R b a ≡ false) (ks ++ none ∷ zs)
      → AreDistinct R (ks ++ none ∷ zs)
      → AreDistinct R (ks ++ some a ∷ zs)
  put-AreDistinct [] zs a e d = (Every-map _ _ zs (λ b h. R_sym a b ∙ h) e, d)
  put-AreDistinct (none ∷ ks) zs a e d = put-AreDistinct ks zs a e d
  put-AreDistinct (some k ∷ ks) zs a e d =
      (Every-put (λ b. R k b ≡ false) ks zs a d.0 e.0, put-AreDistinct ks zs a e.1 d.1)

  clear-AreDistinct :
      (ks zs : List (Option A)) (a : A)
      → AreDistinct R (ks ++ some a ∷ zs)
      → AreDistinct R (ks ++ none ∷ zs) × Every (λ b. R a b ≡ false) (ks ++ none ∷ zs)
  clear-AreDistinct [] zs a d = (d.1, d.0)
  clear-AreDistinct (none ∷ ks) zs a d = clear-AreDistinct ks zs a d
  clear-AreDistinct (some k ∷ ks) zs a d =
      let (h, f) = Every-clear (λ b. R k b ≡ false) ks zs a d.0 in
      let (g, i) = clear-AreDistinct ks zs a d.1 in ((f, g), (R_sym a k ∙ h, i))

  pub Changes-put :
      (a : A) (xs ys : List (Option A))
      → Changes none (some a) xs ys
      → Every (λ b. R b a ≡ false) xs
      → AreDistinct R xs
      → AreDistinct R ys
  Changes-put a xs ys (ks, zs, e, f) h d = rw f (put-AreDistinct ks zs a (rw e at h) (rw e at d))

  -- What is left when an element is taken out differs from it.
  pub Changes-clear :
      (a : A) (xs ys : List (Option A))
      → Changes (some a) none xs ys
      → AreDistinct R xs
      → AreDistinct R ys × Every (λ b. R a b ≡ false) ys
  Changes-clear a xs ys (ks, zs, e, f) d = rw f (clear-AreDistinct ks zs a (rw e at d))
