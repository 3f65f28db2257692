-- ===== src/Loop/Members.antt =====
-- The entries of a table as a set: what the changes of the list do to it.
use rofl_fork.Base.{
  ℕ, ◌≡◌, ◌≢◌, ◌⊎◌, ◌↔◌, ap, sym, ◌∙◌, refl, true, false, Bool, List, [], ◌∷◌, ◌++◌, All, keep,
  Bool-cases, inl, inr, arith, ==_iff,
}
use rofl_fork.FlowEntry.{FlowEntry}
use rofl_fork.Loop.{goes_before, insert_entry, unlink, has_addr}
use rofl_fork.Loop.Invariant.{AreDistinct}

-- The list has the entry.
abbrev pub Has : List FlowEntry → FlowEntry → Type 0
Has [] x = false ≡ true
Has (e ∷ es) x = (x ≡ e) ⊎ Has es x

pub All-Has :
    (P : FlowEntry → Type 0) (es : List FlowEntry) (x : FlowEntry) → All P es → Has es x → P x
All-Has P [] x f h = ground arith
All-Has P (e ∷ es) x f (inl q) = rw q f.0
All-Has P (e ∷ es) x f (inr h) = All-Has P es x f.1 h

pub Has-middle : (ks : List FlowEntry) (x : FlowEntry) (es : List FlowEntry) → Has (ks ++ x ∷ es) x
Has-middle [] x es = inl refl
Has-middle (k ∷ ks) x es = inr (Has-middle ks x es)

pub Has-insert_entry :
    (e : FlowEntry) (es : List FlowEntry) (x : FlowEntry)
    → Has (insert_entry e es) x ↔ ((x ≡ e) ⊎ Has es x)
unfolding insert_entry
Has-insert_entry e [] x = ((λ h. h), λ h. h)
Has-insert_entry e (it ∷ es) x = elim (Bool-cases (goes_before e it)) [
  | inl y ↦ rw y ((λ h. h), λ h. h)
  | inr n ↦ let k = Has-insert_entry e es x in rw n (ground (arith, k))
]

pub Has-keep :
    (p : FlowEntry → Bool) (es : List FlowEntry) (x : FlowEntry)
    → Has (keep p es) x ↔ (Has es x × (p x ≡ true))
unfolding keep
Has-keep p [] x = ((λ h. (h, ground arith)), λ h. h.0)
Has-keep p (e ∷ es) x = elim (Bool-cases (p e)) [
  | inl y ↦ rw y (
    (λ (h : (x ≡ e) ⊎ Has (keep p es) x). elim h [
      | inl q ↦ (inl q, ap p q ∙ y)
      | inr g ↦ let (k, m) = (Has-keep p es x).0 g in (inr k, m)
    ]),
    λ (h : ((x ≡ e) ⊎ Has es x) × (p x ≡ true)). elim h.0 [
      | inl q ↦ inl q
      | inr g ↦ inr ((Has-keep p es x).1 (g, h.1))
    ],
  )
  | inr n ↦ rw n (
    (λ (h : Has (keep p es) x). let (k, m) = (Has-keep p es x).0 h in (inr k, m)),
    λ (h : ((x ≡ e) ⊎ Has es x) × (p x ≡ true)). elim h.0 [
      | inl q ↦ let z : true ≡ false = sym h.1 ∙ ap p q ∙ n in ground arith
      | inr g ↦ (Has-keep p es x).1 (g, h.1)
    ],
  )
]

pub Has-unlink :
    (a : ℕ) (es : List FlowEntry) (x : FlowEntry)
    → AreDistinct es
    → Has (unlink a es) x ↔ (Has es x × (x.addr ≢ a))
unfolding unlink
Has-unlink a [] x d = ((λ h. (h, ground arith)), λ h. h.0)
Has-unlink a (e ∷ es) x d = elim (Bool-cases (has_addr a e)) [
  | inl y ↦
      let s : e.addr ≡ a = (==_iff e.addr a).0 y in
      rw y (
        (λ (h : Has es x). (inr h, rw s at (All-Has (λ z. z.addr ≢ e.addr) es x d.0 h))),
        λ (h : ((x ≡ e) ⊎ Has es x) × (x.addr ≢ a)). elim h.0 [
          | inl q ↦ absurd (h.1 (ap (λ z. z.addr) q ∙ s))
          | inr g ↦ g
        ],
      )
  | inr n ↦
      let m : e.addr ≢ a = λ q. ground arith in
      rw n (
        (λ (h : (x ≡ e) ⊎ Has (unlink a es) x). elim h [
          | inl q ↦ (inl q, λ (z : x.addr ≡ a). m (sym (ap (λ v. v.addr) q) ∙ z))
          | inr g ↦ let (k, l) = (Has-unlink a es x d.1).0 g in (inr k, l)
        ]),
        λ (h : ((x ≡ e) ⊎ Has es x) × (x.addr ≢ a)). elim h.0 [
          | inl q ↦ inl q
          | inr g ↦ inr ((Has-unlink a es x d.1).1 (g, h.1))
        ],
      )
]
