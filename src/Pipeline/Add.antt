-- ===== src/Pipeline/Add.antt =====
-- The addition of an entry to a table of the pipeline, of1x_add_flow_entry_table.
use rofl_fork.Base.{
  false, List, [], ◌∷◌, length, Bool-cases, sym, ◌∙◌, ==_iff, ◌==◌, All_map, ℕ, ◌≡◌, refl, Bool,
  true, Option, some, is_some, All, All-set, All-get_elem?, get_elem?, arith, Option-cases, inl,
  inr, RoflResult, success, failure,
}
use rofl_fork.FlowEntry.{FlowEntry, equal_lists, compare_matches, compare_entries, port_any}
use rofl_fork.Match.{Match, equal_matches}
use rofl_fork.FlowEntry.Validate.{validate_flow_entry}
use rofl_fork.Group.Table.{GroupTable, group_any}
use rofl_fork.Instruction.Complete.{IsComplete, validate_instructions-some}
use rofl_fork.Loop.{Table, FmResult, fm_success, fm_failure, fm_overlap, add_flow_entry_table_imp}
use rofl_fork.Loop.Add.{add-IsTable, tell-IsTable}
use rofl_fork.Loop.Invariant.{IsTable, IsFresh}
use rofl_fork.Pipeline.{Pipeline, add_flow_entry_table, start_timer, validated, on_valid}

validate_flow_entry-some :
    (version : ℕ) (gt : Option GroupTable) (e : FlowEntry)
    → All IsComplete e.inst_grp.instructions
    → is_some (validate_flow_entry version gt e) ≡ true
unfolding validate_flow_entry
validate_flow_entry-some version gt e c =
    ground (arith, validate_instructions-some version gt e.inst_grp c)

validate_flow_entry-addr :
    (version : ℕ) (gt : Option GroupTable) (e : FlowEntry) (r : RoflResult × FlowEntry)
    → validate_flow_entry version gt e ≡ some r
    → r.1.addr ≡ e.addr
unfolding validate_flow_entry
validate_flow_entry-addr version gt e r p = ground arith

start_timer-IsTable :
    (f : FlowEntry) (r : FmResult) (t : Table) → IsTable t → IsTable (start_timer f (r, t)).1
start_timer-IsTable f fm_success t i = tell-IsTable _ t i
start_timer-IsTable f fm_failure t i = i
start_timer-IsTable f fm_overlap t i = i

-- All tables of the pipeline are in order.
abbrev pub AreTables : Pipeline → Type 0
AreTables p = All IsTable p.tables

on_valid-AreTables :
    (p : Pipeline) (i : ℕ) (run : FlowEntry → FmResult × Table) (r : RoflResult × FlowEntry)
    → AreTables p
    → IsTable (run r.1).1
    → (s : FmResult × Pipeline) × (on_valid p i fm_failure run (some r) ≡ some s) × AreTables s.1
on_valid-AreTables p i run (failure, e) a t = (_, refl, a)
on_valid-AreTables p i run (success, e) a t = (_, refl, All-set IsTable p.tables i (run e).1 a t)

-- The count of the matches is right.
abbrev pub IsCounted : FlowEntry → Type 0
IsCounted e = e.matches.num_elements ≡ length e.matches.elements

equal_lists-some : (os ms : List Match) → length os ≡ length ms → is_some (equal_lists os ms) ≡ true
unfolding equal_lists
equal_lists-some os [] l = refl
equal_lists-some [] (m ∷ ms) l = ground arith
equal_lists-some (o ∷ os) (m ∷ ms) l =
    let h = equal_lists-some os ms (omega (arith, l)) in
    elim (Bool-cases (equal_matches o m)) [ inl y ↦ rw y h | inr n ↦ rw n refl ]

compare_matches-some :
    (e : FlowEntry)
    → IsCounted e
    → (it : FlowEntry) → IsCounted it
    → is_some (compare_matches it.matches e.matches) ≡ true
unfolding compare_matches
compare_matches-some e c it d =
    elim (Bool-cases (it.matches.num_elements == e.matches.num_elements)) [
      | inr n ↦ rw n refl
      | inl y ↦
          let z = (==_iff it.matches.num_elements e.matches.num_elements).0 y in
          rw y (equal_lists-some it.matches.elements e.matches.elements (sym d ∙ z ∙ c))
    ]

add-AreTables :
    (p : Pipeline) (i : ℕ) (e : FlowEntry) (check_overlap reset : Bool)
    → AreTables p
    → All IsComplete e.inst_grp.instructions
    → All (λ t. IsFresh e.addr t.entries) p.tables
    → (s : FmResult × Pipeline) × (add_flow_entry_table p i e check_overlap reset ≡ some s)
      × AreTables s.1
unfolding add_flow_entry_table
add-AreTables p i e check_overlap reset a c f = elim (Option-cases (get_elem? p.tables i)) [
  | inl n ↦ ((fm_failure, p), rw n refl, a)
  | inr (t, q) ↦ elim (Option-cases (validated p e)) [
    | inl n ↦ ground (arith, validate_flow_entry-some p.of_ver (some p.groups) e c)
    | inr (r, v) ↦
        let k = validate_flow_entry-addr p.of_ver (some p.groups) e r v in
        let g = rw (← k) at (All-get_elem? (λ u. IsFresh e.addr u.entries) p.tables i t q f) in
        let j = add-IsTable t r.1 check_overlap reset (All-get_elem? IsTable p.tables i t q a) g in
        let run =
          λ (x : FlowEntry). start_timer x (add_flow_entry_table_imp t x check_overlap reset) in
        let (s, o, b) = on_valid-AreTables p i run r a (start_timer-IsTable r.1 _ _ j) in
        (s, rw q (rw v o), b)
  ]
]

compare_entries-some :
    (e : FlowEntry)
    → IsCounted e
    → (it : FlowEntry) → IsCounted it
    → is_some (compare_entries it e port_any group_any false) ≡ true
unfolding compare_entries
compare_entries-some e c it d = ground (arith, compare_matches-some e c it d)

-- The comparison that an addition makes, of the entry with an entry of a table, has an outcome for each.
abbrev pub AreComparable : Pipeline → FlowEntry → Type 0
AreComparable p e =
    All (λ t. All (λ it. is_some (compare_entries it e port_any group_any false) ≡ true) t.entries)
      p.tables

-- An addition to a table of the pipeline has an outcome, so that the validation of the instructions
-- reads through no NULL pointer, and all tables are in order afterwards, whatever it returns; and the
-- comparison that it makes, of the new entry with any entry of the tables, reads through no NULL
-- pointer. The tables must be in order, no entry of theirs have the address of the new one, the counts
-- of the matches of all entries be right, and the instructions of the new entry that apply or write
-- actions have actions.
pub add_flow_entry_table-AreTables :
    (p : Pipeline) (i : ℕ) (e : FlowEntry) (check_overlap reset : Bool)
    → AreTables p
    → All IsComplete e.inst_grp.instructions
    → All (λ t. IsFresh e.addr t.entries) p.tables
    → IsCounted e
    → All (λ t. All IsCounted t.entries) p.tables
    → (s : FmResult × Pipeline) × (add_flow_entry_table p i e check_overlap reset ≡ some s)
      × AreTables s.1
      × AreComparable p e
add_flow_entry_table-AreTables p i e check_overlap reset a c f n ns =
    let (s, q, b) = add-AreTables p i e check_overlap reset a c f in
    let inner = λ (t : Table) (d : All IsCounted t.entries).
      All_map (λ it (k : IsCounted it). compare_entries-some e n it k) t.entries d in
    (s, q, b, All_map inner p.tables ns)
