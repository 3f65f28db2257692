-- ===== src/Base/Lists.antt =====
-- Lists measured and indexed by native numbers, filtered by Boolean tests, and predicates on them.
use Prim.Native.Nat.{ℕ, zero, suc, ◌+◌}
use mathlib.Core.Path.{◌≡◌, refl, ap, subst}
use mathlib.Core.Bool.{Bool, true, false, ◌||◌, ◌&&◌}
use mathlib.Core.List.{List, [], ◌∷◌, ◌++◌}
use mathlib.Core.Option.{Option, none, some}
use native.Mathlib.Omega.{arith}
use rofl_fork.Base.Tests.{if◌then◌else◌, Bool-cases, some_injective}
use mathlib.Core.Logic.{inl, inr, ◌↔◌}

module _ {ℓ} {A : Type ℓ} where
  abbrev pub length : List A → ℕ
  length [] = 0
  length (x ∷ xs) = suc (length xs)

  abbrev pub get_elem? : List A → ℕ → Option A
  get_elem? [] i = none
  get_elem? (x ∷ xs) zero = some x
  get_elem? (x ∷ xs) (suc i) = get_elem? xs i

  -- A write out of bounds changes nothing.
  abbrev pub set : List A → ℕ → A → List A
  set [] i v = []
  set (x ∷ xs) zero v = v ∷ xs
  set (x ∷ xs) (suc i) v = x ∷ set xs i v

  pub length-append : (xs ys : List A) → length (xs ++ ys) ≡ length xs + length ys
  length-append [] ys = omega arith
  length-append (x ∷ xs) ys = omega (arith, length-append xs ys)

  -- The first element that passes the test.
  unfoldable pub find_first : (A → Bool) → List A → Option A
  find_first p [] = none
  find_first p (x ∷ xs) = if p x then some x else find_first p xs

  -- The elements that pass the test, in their order.
  unfoldable pub keep : (A → Bool) → List A → List A
  keep p [] = []
  keep p (x ∷ xs) = if p x then x ∷ keep p xs else keep p xs

  abbrev pub any : (A → Bool) → List A → Bool
  any p [] = false
  any p (x ∷ xs) = p x || any p xs

module _ {ℓ} {A : Type ℓ} where
  pub length-set : (xs : List A) (i : ℕ) (v : A) → length (set xs i v) ≡ length xs
  length-set [] i v = refl
  length-set (x ∷ xs) zero v = refl
  length-set (x ∷ xs) (suc i) v = ap suc (length-set xs i v)

-- Every element meets the test.
abbrev pub all {ℓ} : {A : Type ℓ} → (A → Bool) → List A → Bool
all p [] = true
all p (x ∷ xs) = p x && all p xs

-- A predicate of all elements.
abbrev pub All {ℓ κ} : {A : Type ℓ} → (A → Type κ) → List A → Type κ
All P [] = Unit
All P (x ∷ xs) = P x × All P xs

module _ {ℓ} {A : Type ℓ} where
  pub append_assoc : (xs ys zs : List A) → (xs ++ ys) ++ zs ≡ xs ++ (ys ++ zs)
  append_assoc [] ys zs = refl
  append_assoc (x ∷ xs) ys zs = ap (λ l. x ∷ l) (append_assoc xs ys zs)

  -- Where an element stands that find_first gives: behind elements that all fail the test.
  abbrev pub FirstAt : (A → Bool) → List A → A → Type ℓ
  FirstAt p xs a =
      (ks : List A) × (es : List A) × (xs ≡ ks ++ a ∷ es) × All (λ x. p x ≡ false) ks × (p a ≡ true)

  pub find_first-FirstAt :
      (p : A → Bool) (xs : List A) (a : A) → find_first p xs ≡ some a → FirstAt p xs a
  unfolding find_first
  find_first-FirstAt p [] a e = ground arith
  find_first-FirstAt p (x ∷ xs) a e = elim (Bool-cases (p x)) [
    | inl y ↦ let q : x ≡ a = cc in ([], xs, ap (λ z. z ∷ xs) q, tt, cc)
    | inr n ↦
        let (ks, es, q, f, y) = find_first-FirstAt p xs a (ground arith) in
        (x ∷ ks, es, ap (λ l. x ∷ l) q, (n, f), y)
  ]

  pub find_first_behind :
      (p : A → Bool) (ks : List A) (a : A) (es : List A)
      → All (λ x. p x ≡ false) ks
      → p a ≡ true
      → find_first p (ks ++ a ∷ es) ≡ some a
  unfolding find_first
  find_first_behind p [] a es f y = rw y
  find_first_behind p (k ∷ ks) a es (n, f) y = rw n (find_first_behind p ks a es f y)

  -- Nothing is found exactly when every element fails the test.
  pub find_first-none :
      (p : A → Bool) (xs : List A) → (find_first p xs ≡ none) ↔ All (λ x. p x ≡ false) xs
  unfolding find_first
  find_first-none p [] = (λ _. tt, λ _. refl)
  find_first-none p (x ∷ xs) = elim (Bool-cases (p x)) [
    | inl y ↦ (λ e. ground arith, λ f. ground (arith, f.0))
    | inr n ↦ let ih = find_first-none p xs in (λ e. (n, ih.0 (ground arith)), λ f. rw n (ih.1 f.1))
  ]

  pub any_middle :
      (p : A → Bool) (ks : List A) (a : A) (es : List A) → p a ≡ true → any p (ks ++ a ∷ es) ≡ true
  any_middle p [] a es y = ground arith
  any_middle p (k ∷ ks) a es y = ground (arith, any_middle p ks a es y)

module _ {ℓ κ} {A : Type ℓ} (P : A → Type κ) where
  pub All_middle : (ks : List A) (a : A) (es : List A) → All P (ks ++ a ∷ es) → P a
  All_middle [] a es f = f.0
  All_middle (k ∷ ks) a es f = All_middle ks a es f.1

  pub All_tail : (ks es : List A) → All P (ks ++ es) → All P es
  All_tail [] es f = f
  All_tail (k ∷ ks) es f = All_tail ks es f.1

  pub All-append : (ks es : List A) → All P ks → All P es → All P (ks ++ es)
  All-append [] es f g = g
  All-append (k ∷ ks) es f g = (f.0, All-append ks es f.1 g)

  pub All-keep : (p : A → Bool) (es : List A) → All P es → All P (keep p es)
  unfolding keep
  All-keep p [] f = f
  All-keep p (e ∷ es) f = elim (Bool-cases (p e)) [
    | inl y ↦ rw y (f.0, All-keep p es f.1)
    | inr n ↦ rw n (All-keep p es f.1)
  ]

pub All_map {ℓ κ μ} :
    {A : Type ℓ} {P : A → Type κ} {Q : A → Type μ}
    → ((a : A) → P a → Q a)
    → (es : List A) → All P es
    → All Q es
All_map h [] f = tt
All_map h (e ∷ es) f = (h e f.0, All_map h es f.1)

module _ {ℓ} {A : Type ℓ} (p : A → Bool) where
  pub keep-append : (xs ys : List A) → keep p (xs ++ ys) ≡ keep p xs ++ keep p ys
  unfolding keep
  keep-append [] ys = refl
  keep-append (x ∷ xs) ys = elim (Bool-cases (p x)) [
    | inl y ↦ rw y (ap (λ l. x ∷ l) (keep-append xs ys))
    | inr n ↦ rw n (keep-append xs ys)
  ]

  -- A list of elements that all pass is kept whole.
  pub keep-all : (xs : List A) → All (λ x. p x ≡ true) xs → keep p xs ≡ xs
  unfolding keep
  keep-all [] f = refl
  keep-all (x ∷ xs) f = rw f.0 (ap (λ l. x ∷ l) (keep-all xs f.1))

  -- An element that fails may as well be missing.
  pub keep_middle :
      (ks : List A) (a : A) (es : List A) → p a ≡ false → keep p (ks ++ a ∷ es) ≡ keep p (ks ++ es)
  unfolding keep
  keep_middle [] a es n = rw n
  keep_middle (k ∷ ks) a es n = elim (Bool-cases (p k)) [
    | inl y ↦ rw y (ap (λ l. k ∷ l) (keep_middle ks a es n))
    | inr m ↦ rw m (keep_middle ks a es n)
  ]

module _ {ℓ κ} {A : Type ℓ} (P : A → Type κ) where
  pub All-set : (xs : List A) (i : ℕ) (a : A) → All P xs → P a → All P (set xs i a)
  All-set [] i a f p = tt
  All-set (x ∷ xs) zero a f p = (p, f.1)
  All-set (x ∷ xs) (suc i) a f p = (f.0, All-set xs i a f.1 p)

  pub All-get_elem? : (xs : List A) (i : ℕ) (a : A) → get_elem? xs i ≡ some a → All P xs → P a
  All-get_elem? [] i a e f = ground arith
  All-get_elem? (x ∷ xs) zero a e f = subst P (some_injective e) f.0
  All-get_elem? (x ∷ xs) (suc i) a e f = All-get_elem? xs i a e f.1

-- What is true of all elements is true of the one that is found.
pub All-find_first {ℓ κ} :
    {A : Type ℓ} (P : A → Type κ) (p : A → Bool) (xs : List A) (a : A)
    → All P xs
    → find_first p xs ≡ some a
    → P a
unfolding find_first
All-find_first P p [] a f e = ground arith
All-find_first P p (x ∷ xs) a f e = elim (Bool-cases (p x)) [
  | inl y ↦ let q : x ≡ a = cc in subst P q f.0
  | inr n ↦ All-find_first P p xs a f.1 (ground arith)
]

-- The element between the others.
module _ {ℓ} {A : Type ℓ} where
  pub get_middle :
      (ds : List A) (t : A) (ts : List A) → get_elem? (ds ++ t ∷ ts) (length ds) ≡ some t
  get_middle [] t ts = refl
  get_middle (d ∷ ds) t ts = get_middle ds t ts

  pub set_middle :
      (ds : List A) (t : A) (ts : List A) (u : A) → set (ds ++ t ∷ ts) (length ds) u ≡ ds ++ u ∷ ts
  set_middle [] t ts u = refl
  set_middle (d ∷ ds) t ts u = ap (λ l. d ∷ l) (set_middle ds t ts u)

  pub append_nil : (xs : List A) → xs ++ [] ≡ xs
  append_nil [] = refl
  append_nil (x ∷ xs) = ap (λ l. x ∷ l) (append_nil xs)
