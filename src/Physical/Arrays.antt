-- ===== src/Physical/Arrays.antt =====
-- Arrays of pointers: the search, and what a change of a place does to it.
use rofl_fork.Base.{
  ℕ, suc, ◌+◌, ◌≡◌, ◌≢◌, ap, sym, ◌∙◌, refl, Bool, true, false, Bool-cases, inl, inr, List, [], ◌∷◌,
  ◌++◌, Option, none, some, some_injective, Option-cases, length, length-append, append_assoc,
  arith,
}
use rofl_fork.Physical.{find_in, put_in, clear_in, or_else}

module _ {A : Type 0} where
  -- The number of places that are not empty.
  abbrev pub occupied : List (Option A) → ℕ
  occupied [] = 0
  occupied (none ∷ xs) = occupied xs
  occupied (some a ∷ xs) = suc (occupied xs)

  -- Every element has the property.
  abbrev pub Every : (A → Type 0) → List (Option A) → Type 0
  Every P [] = Unit
  Every P (none ∷ xs) = Every P xs
  Every P (some a ∷ xs) = P a × Every P xs

  pub find_in-none :
      (p : A → Bool) (xs : List (Option A)) → find_in p xs ≡ none → Every (λ a. p a ≡ false) xs
  unfolding find_in
  find_in-none p [] n = tt
  find_in-none p (none ∷ xs) n = find_in-none p xs n
  find_in-none p (some a ∷ xs) n = elim (Bool-cases (p a)) [
    | inl y ↦ let z = rw y at n in ground arith
    | inr m ↦ (m, find_in-none p xs (rw m at n))
  ]

  pub none-find_in :
      (p : A → Bool) (xs : List (Option A)) → Every (λ a. p a ≡ false) xs → find_in p xs ≡ none
  unfolding find_in
  none-find_in p [] n = refl
  none-find_in p (none ∷ xs) n = none-find_in p xs n
  none-find_in p (some a ∷ xs) n = rw n.0 (none-find_in p xs n.1)

  -- One place changes from a value to another.
  abbrev pub Changes : Option A → Option A → List (Option A) → List (Option A) → Type 0
  Changes x y xs ys =
      (ks : List (Option A)) × (zs : List (Option A)) × (xs ≡ ks ++ x ∷ zs) × (ys ≡ ks ++ y ∷ zs)

  Changes-cons :
      (u x y : Option A) (xs ys : List (Option A))
      → Changes x y xs ys
      → Changes x y (u ∷ xs) (u ∷ ys)
  Changes-cons u x y xs ys (ks, zs, e, f) = (u ∷ ks, zs, ap (λ l. u ∷ l) e, ap (λ l. u ∷ l) f)

  pub Changes-prepend :
      (us : List (Option A)) (x y : Option A) (xs ys : List (Option A))
      → Changes x y xs ys
      → Changes x y (us ++ xs) (us ++ ys)
  Changes-prepend [] x y xs ys c = c
  Changes-prepend (u ∷ us) x y xs ys c =
      Changes-cons u x y (us ++ xs) (us ++ ys) (Changes-prepend us x y xs ys c)

  pub Changes-append :
      (us : List (Option A)) (x y : Option A) (xs ys : List (Option A))
      → Changes x y xs ys
      → Changes x y (xs ++ us) (ys ++ us)
  Changes-append us x y xs ys (ks, zs, e, f) = (
    ks,
    zs ++ us,
    ap (λ l. l ++ us) e ∙ append_assoc ks (x ∷ zs) us,
    ap (λ l. l ++ us) f ∙ append_assoc ks (y ∷ zs) us,
  )

  pub put_in-Changes :
      (a : A) (xs ys : List (Option A)) → put_in a xs ≡ some ys → Changes none (some a) xs ys
  unfolding put_in
  put_in-Changes a [] ys q = ground arith
  put_in-Changes a (none ∷ xs) ys q = ([], xs, refl, sym (some_injective q))
  put_in-Changes a (some b ∷ xs) ys q = elim (Option-cases (put_in a xs)) [
    | inl n ↦ let z = rw n at q in ground arith
    | inr (us, y) ↦
        let z : some b ∷ us ≡ ys = some_injective (rw y at q) in
        rw (← z) (Changes-cons (some b) none (some a) xs us (put_in-Changes a xs us y))
  ]

  pub put_in-some :
      (a : A) (xs : List (Option A))
      → occupied xs ≢ length xs
      → (ys : List (Option A)) × (put_in a xs ≡ some ys)
  unfolding put_in
  put_in-some a [] n = absurd (n refl)
  put_in-some a (none ∷ xs) n = (some a ∷ xs, refl)
  put_in-some a (some b ∷ xs) n =
      let (ys, q) = put_in-some a xs (λ z. n (ap suc z)) in (some b ∷ ys, rw q refl)

  pub find_in-test :
      (p : A → Bool) (xs : List (Option A)) (a : A) → find_in p xs ≡ some a → p a ≡ true
  unfolding find_in
  find_in-test p [] a q = ground arith
  find_in-test p (none ∷ xs) a q = find_in-test p xs a q
  find_in-test p (some b ∷ xs) a q = elim (Bool-cases (p b)) [
    | inl y ↦ let e : b ≡ a = some_injective (rw y at q) in rw (← e) y
    | inr m ↦ find_in-test p xs a (rw m at q)
  ]

  -- The first element that meets the test is removed, and none before it meets it.
  pub clear_in-Changes :
      (p : A → Bool) (xs : List (Option A)) (a : A)
      → find_in p xs ≡ some a
      → Changes (some a) none xs (clear_in p xs)
  unfolding find_in clear_in
  clear_in-Changes p [] a q = ground arith
  clear_in-Changes p (none ∷ xs) a q =
      Changes-cons none (some a) none xs (clear_in p xs) (clear_in-Changes p xs a q)
  clear_in-Changes p (some b ∷ xs) a q = elim (Bool-cases (p b)) [
    | inl y ↦
        let e : b ≡ a = some_injective (rw y at q) in rw y ([], xs, ap (λ c. some c ∷ xs) e, refl)
    | inr m ↦ rw m (
        Changes-cons (some b) (some a) none xs (clear_in p xs)
          (clear_in-Changes p xs a (rw m at q)))
  ]

  pub find_in-append :
      (p : A → Bool) (xs ys : List (Option A))
      → find_in p (xs ++ ys) ≡ or_else (find_in p xs) (find_in p ys)
  unfolding find_in
  find_in-append p [] ys = refl
  find_in-append p (none ∷ xs) ys = find_in-append p xs ys
  find_in-append p (some a ∷ xs) ys = elim (Bool-cases (p a)) [
    | inl y ↦ rw y refl
    | inr m ↦ rw m (find_in-append p xs ys)
  ]

  abbrev pub count_of : Option A → ℕ
  count_of none = 0
  count_of (some a) = 1

  occupied-cons :
      (x : Option A) (xs : List (Option A)) → occupied (x ∷ xs) ≡ count_of x + occupied xs
  occupied-cons none xs = omega arith
  occupied-cons (some a) xs = omega arith

  pub Changes-length :
      (x y : Option A) (xs ys : List (Option A)) → Changes x y xs ys → length ys ≡ length xs
  Changes-length x y xs ys (ks, zs, e, f) =
      ap length f ∙ length-append ks (y ∷ zs) ∙ sym (length-append ks (x ∷ zs)) ∙ sym (ap length e)

  occupied-append : (xs ys : List (Option A)) → occupied (xs ++ ys) ≡ occupied xs + occupied ys
  occupied-append [] ys = omega arith
  occupied-append (none ∷ xs) ys = occupied-append xs ys
  occupied-append (some a ∷ xs) ys = omega (arith, occupied-append xs ys)

  pub Changes-occupied :
      (x y : Option A) (xs ys : List (Option A))
      → Changes x y xs ys
      → occupied ys + count_of x ≡ occupied xs + count_of y
  Changes-occupied x y xs ys (ks, zs, e, f) =
      let a = ap occupied e ∙ occupied-append ks (x ∷ zs) in
      let b = ap occupied f ∙ occupied-append ks (y ∷ zs) in
      let c = occupied-cons x zs in let d = occupied-cons y zs in omega (arith, a, b, c, d)

  pub Every-append :
      (P : A → Type 0) (xs ys : List (Option A)) → Every P (xs ++ ys) → Every P xs × Every P ys
  Every-append P [] ys h = (tt, h)
  Every-append P (none ∷ xs) ys h = Every-append P xs ys h
  Every-append P (some a ∷ xs) ys (h, k) = let (f, g) = Every-append P xs ys k in ((h, f), g)

  pub append-Every :
      (P : A → Type 0) (xs ys : List (Option A)) → Every P xs → Every P ys → Every P (xs ++ ys)
  append-Every P [] ys f g = g
  append-Every P (none ∷ xs) ys f g = append-Every P xs ys f g
  append-Every P (some a ∷ xs) ys (h, f) g = (h, append-Every P xs ys f g)

  pub Every-map :
      (P Q : A → Type 0) (xs : List (Option A)) → ((a : A) → P a → Q a) → Every P xs → Every Q xs
  Every-map P Q [] f h = tt
  Every-map P Q (none ∷ xs) f h = Every-map P Q xs f h
  Every-map P Q (some a ∷ xs) f (h, k) = (f a h, Every-map P Q xs f k)
