-- ===== src/Loop/Order.antt =====
-- The order of the entries of a table, and what the first match of a lookup then is.
use rofl_fork.Base.{
  ℕ, ◌<◌, ◌≤◌, Bool-cases, inl, inr, ◌≡◌, ◌⊎◌, true, false, List, [], ◌∷◌, All, arith,
}
use rofl_fork.FlowEntry.{FlowEntry}
use rofl_fork.Loop.{goes_before, insert_entry, unlink, has_addr}

-- Of two entries, the first has the higher priority, or the same and no fewer matches.
abbrev pub IsBefore : FlowEntry → FlowEntry → Type 0
IsBefore a b =
    (b.priority < a.priority)
    ⊎ ((a.priority ≡ b.priority) × (b.matches.num_elements ≤ a.matches.num_elements))

-- Every entry is before those behind it.
abbrev pub IsOrdered : List FlowEntry → Type 0
IsOrdered [] = Unit
IsOrdered (e ∷ es) = All (IsBefore e) es × IsOrdered es

IsBefore-trans : (a b c : FlowEntry) → IsBefore a b → IsBefore b c → IsBefore a c
IsBefore-trans a b c p q = ground arith

All-IsBefore :
    (a b : FlowEntry) (es : List FlowEntry)
    → IsBefore a b
    → All (IsBefore b) es
    → All (IsBefore a) es
All-IsBefore a b [] p q = tt
All-IsBefore a b (e ∷ es) p q = (IsBefore-trans a b e p q.0, All-IsBefore a b es p q.1)

goes_before-true : (e it : FlowEntry) → goes_before e it ≡ true → IsBefore e it
goes_before-true e it p = ground arith

goes_before-false : (e it : FlowEntry) → goes_before e it ≡ false → IsBefore it e
goes_before-false e it p = ground arith

module _ (P : FlowEntry → Type 0) where
  pub All-insert_entry :
      (e : FlowEntry) (es : List FlowEntry) → P e → All P es → All P (insert_entry e es)
  unfolding insert_entry
  All-insert_entry e [] p ps = (p, tt)
  All-insert_entry e (it ∷ es) p (q, qs) = elim (Bool-cases (goes_before e it)) [
    | inl y ↦ rw y (p, (q, qs))
    | inr n ↦ rw n (q, All-insert_entry e es p qs)
  ]

  pub All-unlink : (a : ℕ) (es : List FlowEntry) → All P es → All P (unlink a es)
  unfolding unlink
  All-unlink a [] ps = tt
  All-unlink a (e ∷ es) (p, ps) = elim (Bool-cases (has_addr a e)) [
    | inl y ↦ rw y ps
    | inr n ↦ rw n (p, All-unlink a es ps)
  ]

-- An entry placed by goes_before keeps the order.
pub insert_entry-IsOrdered :
    (e : FlowEntry) (es : List FlowEntry) → IsOrdered es → IsOrdered (insert_entry e es)
unfolding insert_entry
insert_entry-IsOrdered e [] o = (tt, tt)
insert_entry-IsOrdered e (it ∷ es) (p, o) = elim (Bool-cases (goes_before e it)) [
  | inl y ↦ let b = goes_before-true e it y in rw y ((b, All-IsBefore e it es b p), (p, o))
  | inr n ↦ rw n (
    All-insert_entry (IsBefore it) e es (goes_before-false e it n) p,
    insert_entry-IsOrdered e es o,
  )
]

-- So does a removal.
pub unlink-IsOrdered : (a : ℕ) (es : List FlowEntry) → IsOrdered es → IsOrdered (unlink a es)
unfolding unlink
unlink-IsOrdered a [] o = tt
unlink-IsOrdered a (e ∷ es) (p, o) = elim (Bool-cases (has_addr a e)) [
  | inl y ↦ rw y o
  | inr n ↦ rw n (All-unlink (IsBefore e) a es p, unlink-IsOrdered a es o)
]
