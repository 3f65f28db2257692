-- ===== src/Loop/Invariant.antt =====
-- The invariant of a flow table, and that the operations of of1x_loop_match.c keep it.
use rofl_fork.Base.{
  ℕ, suc, ◌≡◌, ◌≤◌, ◌≢◌, sym, ◌⊎◌, true, List, [], ◌∷◌, some, refl, All, any, length, arith,
  Bool-cases, inl, inr, success, failure,
}
use rofl_fork.FlowEntry.{FlowEntry, RemoveReason}
use rofl_fork.Loop.{
  max_number_of_table_entries, Table, goes_before, insert_entry, unlink, has_addr, detach,
  remove_flow_entry_table_specific_imp,
}
use rofl_fork.Loop.Order.{IsOrdered, All-insert_entry, All-unlink, unlink-IsOrdered}

-- No entry has the address.
abbrev pub IsFresh : ℕ → List FlowEntry → Type 0
IsFresh a es = All (λ e. e.addr ≢ a) es

-- The entries have distinct addresses.
abbrev pub AreDistinct : List FlowEntry → Type 0
AreDistinct [] = Unit
AreDistinct (e ∷ es) = IsFresh e.addr es × AreDistinct es

-- The entry points to the table of the number.
abbrev pub PointsTo : ℕ → FlowEntry → Type 0
PointsTo n e = e.table ≡ some n

pub record IsTable (t : Table) : Type 0 where
  pub ordered : IsOrdered t.entries
  pub count : t.num_of_entries ≡ length t.entries
  pub bounded : t.num_of_entries ≤ max_number_of_table_entries
  pub points : All (PointsTo t.number) t.entries
  pub distinct : AreDistinct t.entries

pub length-insert_entry :
    (e : FlowEntry) (es : List FlowEntry) → length (insert_entry e es) ≡ suc (length es)
unfolding insert_entry
length-insert_entry e [] = refl
length-insert_entry e (it ∷ es) = elim (Bool-cases (goes_before e it)) [
  | inl y ↦ rw y
  | inr n ↦ rw n (omega (arith, length-insert_entry e es))
]

pub length-unlink :
    (a : ℕ) (es : List FlowEntry)
    → any (has_addr a) es ≡ true
    → suc (length (unlink a es)) ≡ length es
unfolding unlink
length-unlink a [] m = ground arith
length-unlink a (e ∷ es) m = elim (Bool-cases (has_addr a e)) [
  | inl y ↦ rw y
  | inr n ↦ let k = length-unlink a es (ground arith) in rw n (omega arith)
]

unlink-AreDistinct : (a : ℕ) (es : List FlowEntry) → AreDistinct es → AreDistinct (unlink a es)
unfolding unlink
unlink-AreDistinct a [] d = tt
unlink-AreDistinct a (e ∷ es) (f, d) = elim (Bool-cases (has_addr a e)) [
  | inl y ↦ rw y d
  | inr n ↦ rw n (All-unlink (λ x. x.addr ≢ e.addr) a es f, unlink-AreDistinct a es d)
]

pub insert_entry-AreDistinct :
    (e : FlowEntry) (es : List FlowEntry)
    → IsFresh e.addr es
    → AreDistinct es
    → AreDistinct (insert_entry e es)
unfolding insert_entry
insert_entry-AreDistinct e [] f d = (tt, tt)
insert_entry-AreDistinct e (it ∷ es) (g, f) (h, d) = elim (Bool-cases (goes_before e it)) [
  | inl y ↦ rw y ((g, f), (h, d))
  | inr n ↦ rw n (
    All-insert_entry (λ x. x.addr ≢ it.addr) e es (λ q. g (sym q)) h,
    insert_entry-AreDistinct e es f d,
  )
]

-- A removal fails and changes nothing, or the entry is in the list and goes.
pub remove-cases :
    (t : Table) (e : FlowEntry) (cause : RemoveReason)
    → (remove_flow_entry_table_specific_imp t e cause ≡ (failure, t))
      ⊎ ((any (has_addr e.addr) t.entries ≡ true)
          × (remove_flow_entry_table_specific_imp t e cause ≡ (success, detach t e cause)))
unfolding remove_flow_entry_table_specific_imp
remove-cases t e cause = ground arith

pub detach-IsTable :
    (t : Table) (e : FlowEntry) (cause : RemoveReason)
    → IsTable t
    → any (has_addr e.addr) t.entries ≡ true
    → IsTable (detach t e cause)
unfolding detach
detach-IsTable t e cause i m =
    let k = length-unlink e.addr t.entries m in
    let c = i.count in
    record {
      ordered = unlink-IsOrdered e.addr t.entries i.ordered;
      count = omega arith;
      bounded = ground (arith, i.bounded);
      points = All-unlink (PointsTo t.number) e.addr t.entries i.points;
      distinct = unlink-AreDistinct e.addr t.entries i.distinct;
    }

-- The removal of a specific entry keeps the invariant of a table in order, whichever entry it is
-- given.
pub remove_specific-IsTable :
    (t : Table) (e : FlowEntry) (cause : RemoveReason)
    → IsTable t
    → IsTable (remove_flow_entry_table_specific_imp t e cause).1
remove_specific-IsTable t e cause i = elim (remove-cases t e cause) [
  | inl f ↦ rw f i
  | inr s ↦ rw s.1 (detach-IsTable t e cause i s.0)
]
