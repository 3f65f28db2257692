-- ===== src/Loop/Add.antt =====
-- The addition of an entry to a flow table, of1x_add_flow_entry_table_imp.
use rofl_fork.Base.{
  ℕ, List, sym, ap, ◌∙◌, ◌++◌, Bool-cases, some_injective, find_first-FirstAt, ==_iff, success,
  true, some, none, [], ◌∷◌, ◌+◌, ◌≡◌, ◌≢◌, ◌⊎◌, Bool, true, false, Option, none, some, refl,
  find_first, arith, inl, inr, is_some, if◌then◌else◌,
}
use rofl_fork.FlowEntry.{FlowEntry, RemoveReason, Event, port_any}
use rofl_fork.Group.Table.{group_any}
use rofl_fork.Loop.{
  remove_flow_entry_table_specific_imp, unlink, has_addr, goes_before, detach, Table, FmResult,
  fm_success, fm_failure, fm_overlap, insert_entry, place_entry, keep_counts, check_identical,
  check_overlapping, add_flow_entry_table_imp, tell, max_number_of_table_entries,
}
use rofl_fork.Loop.Order.{insert_entry-IsOrdered, All-insert_entry}
use rofl_fork.Loop.Remove.{remove_specific_middle}
use rofl_fork.Loop.Invariant.{
  AreDistinct, IsFresh, IsTable, PointsTo, length-insert_entry, insert_entry-AreDistinct,
  remove_specific-IsTable,
}

-- The table with the entry at its place and no other change.
abbrev pub placed : Table → FlowEntry → Table
placed t e = record t {
  entries = insert_entry (record e { table = some t.number }) t.entries;
  num_of_entries = t.num_of_entries + 1;
}

pub placed-IsTable :
    (t : Table) (e : FlowEntry)
    → IsTable t
    → t.num_of_entries ≢ max_number_of_table_entries
    → IsFresh e.addr t.entries
    → IsTable (placed t e)
placed-IsTable t e i full f =
    let g = record e { table = some t.number } in
    let k = length-insert_entry g t.entries in
    let c = i.count in
    record {
      ordered = insert_entry-IsOrdered g t.entries i.ordered;
      count = omega arith;
      bounded = ground (arith, i.bounded);
      points = All-insert_entry (PointsTo t.number) g t.entries refl i.points;
      distinct = insert_entry-AreDistinct g t.entries f i.distinct;
    }

pub tell-IsTable : (x : Event) (t : Table) → IsTable t → IsTable (tell x t)
tell-IsTable x t i = record {
  ordered = i.ordered;
  count = i.count;
  bounded = i.bounded;
  points = i.points;
  distinct = i.distinct;
}

place_entry-IsTable :
    (t : Table) (e : FlowEntry) (existing : Option FlowEntry)
    → IsTable t
    → t.num_of_entries ≢ max_number_of_table_entries
    → IsFresh e.addr t.entries
    → IsTable (place_entry t e existing)
unfolding place_entry
place_entry-IsTable t e none i full f = tell-IsTable _ _ (placed-IsTable t e i full f)
place_entry-IsTable t e (some old) i full f =
    tell-IsTable _ _ (
      remove_specific-IsTable (placed t e) old RemoveReason.no_reason (placed-IsTable t e i full f))

-- The entry that is placed instead of an equal one.
abbrev pub renewed : FlowEntry → FlowEntry → Bool → FlowEntry
renewed e old reset = if reset then e else keep_counts e old

-- What an addition does: nothing, on a full table or an overlap, or it places the entry, which
-- replaces the equal one, if that was looked for.
unfoldable pub AddOutcome : Table → FlowEntry → Bool → Bool → FmResult × Table → Type 0
AddOutcome t e check_overlap reset r =
    ((t.num_of_entries ≡ max_number_of_table_entries) × (r ≡ (fm_failure, t)))
    ⊎ ((t.num_of_entries ≢ max_number_of_table_entries)
        × (((check_overlap ≡ true)
              × (is_some (check_overlapping t.entries e false port_any group_any) ≡ true)
              × (r ≡ (fm_overlap, t)))
            ⊎ (((check_overlap ≡ true)
                  → check_overlapping t.entries e false port_any group_any ≡ none)
                × ((check_overlap ≡ false)
                    → check_identical t.entries e port_any group_any false ≡ none)
                × (r ≡ (fm_success, place_entry t e none)))
            ⊎ ((old : FlowEntry) × (check_overlap ≡ false)
                × (check_identical t.entries e port_any group_any false ≡ some old)
                × (r ≡ (fm_success, place_entry t (renewed e old reset) (some old))))))

pub add-AddOutcome :
    (t : Table) (e : FlowEntry) (check_overlap reset : Bool)
    → AddOutcome t e check_overlap reset (add_flow_entry_table_imp t e check_overlap reset)
unfolding AddOutcome add_flow_entry_table_imp place_entry insert_entry check_overlapping
    check_identical find_first
add-AddOutcome t e check_overlap reset = ground arith

pub renewed-addr : (e old : FlowEntry) (reset : Bool) → (renewed e old reset).addr ≡ e.addr
renewed-addr e old true = refl
renewed-addr e old false = refl

-- An addition keeps the invariant of a table in order: the order, the count and its bound, the
-- back pointers and the distinct addresses; the address of the new entry must not be in the table.
pub add-IsTable :
    (t : Table) (e : FlowEntry) (check_overlap reset : Bool)
    → IsTable t
    → IsFresh e.addr t.entries
    → IsTable (add_flow_entry_table_imp t e check_overlap reset).1
unfolding AddOutcome
add-IsTable t e check_overlap reset i f = elim (add-AddOutcome t e check_overlap reset) [
  | inl (_, r) ↦ rw r i
  | inr (full, inl (_, _, r)) ↦ rw r i
  | inr (full, inr (inl (_, _, r))) ↦ rw r (place_entry-IsTable t e none i full f)
  | inr (full, inr (inr (old, _, _, r))) ↦
      let g = renewed e old reset in
      let h = rw (← renewed-addr e old reset) at f in
      rw r (place_entry-IsTable t g (some old) i full h)
]

IsFresh-unlink : (a : ℕ) (es : List FlowEntry) → AreDistinct es → IsFresh a (unlink a es)
unfolding unlink
IsFresh-unlink a [] d = tt
IsFresh-unlink a (e ∷ es) (f, d) = elim (Bool-cases (has_addr a e)) [
  | inl y ↦ rw y (rw ((==_iff e.addr a).0 y) at f)
  | inr n ↦ let m : e.addr ≢ a = λ q. ground arith in rw n (m, IsFresh-unlink a es d)
]

-- Where the list has an entry, it has it after an insertion.
pub insert_entry-member :
    (e : FlowEntry) (ks : List FlowEntry) (it : FlowEntry) (es : List FlowEntry)
    → (hs : List FlowEntry) × (ts : List FlowEntry) × (insert_entry e (ks ++ it ∷ es)
        ≡ hs ++ it ∷ ts)
unfolding insert_entry
insert_entry-member e [] it es = elim (Bool-cases (goes_before e it)) [
  | inl y ↦ (e ∷ [], es, rw y)
  | inr n ↦ ([], insert_entry e es, rw n)
]
insert_entry-member e (k ∷ ks) it es = elim (Bool-cases (goes_before e k)) [
  | inl y ↦ (e ∷ k ∷ ks, es, rw y)
  | inr n ↦
      let (hs, ts, q) = insert_entry-member e ks it es in (k ∷ hs, ts, rw n (ap (λ l. k ∷ l) q))
]

-- An addition without the overlap check, to a table in order and with room, of an entry whose
-- address is not in it, replaces the equal entry if there is one: it succeeds, the old entry is
-- gone, the number of entries is what it was, and the removal of the old entry inside it succeeds,
-- so its assertion does not fire.
pub add_replaces :
    (t : Table) (e old : FlowEntry) (reset : Bool)
    → IsTable t
    → IsFresh e.addr t.entries
    → t.num_of_entries ≢ max_number_of_table_entries
    → check_identical t.entries e port_any group_any false ≡ some old
    → ((add_flow_entry_table_imp t e false reset).0 ≡ fm_success)
      × IsFresh old.addr (add_flow_entry_table_imp t e false reset).1.entries
      × ((add_flow_entry_table_imp t e false reset).1.num_of_entries ≡ t.num_of_entries)
      × ((remove_flow_entry_table_specific_imp
            (placed t (renewed e old reset))
            old
            RemoveReason.no_reason).0
          ≡ success)
unfolding AddOutcome check_identical place_entry detach
add_replaces t e old reset i f full q = elim (add-AddOutcome t e false reset) [
  | inl (z, _) ↦ ground (arith, full z)
  | inr (_, inl (z, _, _)) ↦ ground arith
  | inr (_, inr (inl (_, n, _))) ↦ ground (arith, sym (n refl) ∙ q)
  | inr (_, inr (inr (x, _, p, r))) ↦
      let g = renewed e old reset in
      let same : x ≡ old = some_injective (sym p ∙ q) in
      let h = rw (← renewed-addr e old reset) at f in
      let j = placed-IsTable t g i full h in
      let (ks, es, w, _, _) = find_first-FirstAt _ t.entries old q in
      let (hs, ts, v) = insert_entry-member (record g { table = some t.number }) ks old es in
      let u = ap (insert_entry (record g { table = some t.number })) w ∙ v in
      let d = remove_specific_middle (placed t g) hs old ts RemoveReason.no_reason j u in
      rw r (rw same (rw d (refl, IsFresh-unlink old.addr _ j.distinct, omega arith, refl)))
]
