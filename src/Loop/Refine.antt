-- ===== src/Loop/Refine.antt =====
-- A flow table as OpenFlow describes it: a set of rules, of which a packet gets one of the highest
-- priority. The sorted list of of1x_loop_match.c implements it.
use rofl_fork.Base.{
  ℕ, ◌≡◌, ◌≢◌, ◌⊎◌, ◌↔◌, ◌≤◌, ap, sym, ◌∙◌, refl, true, false, Bool, List, ◌∷◌, ◌++◌, Option, none,
  some, find_first-FirstAt, inl, inr, arith, RoflResult, success,
}
use rofl_fork.FlowEntry.{FlowEntry, RemoveReason, delete, port_any, flow_entry_check_equal}
use rofl_fork.Group.Table.{group_any}
use rofl_fork.Loop.{
  FmResult, fm_success, fm_failure, Table, max_number_of_table_entries, not_strict, insert_entry,
  detach, place_entry, check_identical, add_flow_entry_table_imp, remove_flow_entry_loop,
}
use rofl_fork.Loop.Add.{
  placed, renewed, placed-IsTable, renewed-addr, insert_entry-member, AddOutcome, add-AddOutcome,
  add-IsTable,
}
use rofl_fork.Loop.Best.{find_best-IsFirst, find_best-none}
use rofl_fork.Loop.Invariant.{IsTable, IsFresh}
use rofl_fork.Loop.Lookup.{find_best_match_loop, entry_matches}
use rofl_fork.Loop.Members.{Has, All-Has, Has-middle, Has-insert_entry, Has-keep, Has-unlink}
use rofl_fork.Loop.Order.{IsBefore}
use rofl_fork.Loop.Remove.{remove_not_strict-Leaves, remove_specific_middle, stays}
use rofl_fork.Match.Packet.{PacketMatches}

-- A set of rules.
abbrev pub Rules : Type 1
Rules = FlowEntry → Type 0

abbrev pub IsSame : Rules → Rules → Type 0
IsSame S T = (x : FlowEntry) → T x ↔ S x

-- What a packet may get of the rules: one that it meets, of the highest priority, or nothing if it
-- meets none.
abbrev pub IsBest : Rules → PacketMatches → Option FlowEntry → Type 0
IsBest S pkt none = (x : FlowEntry) → S x → entry_matches pkt x ≡ false
IsBest S pkt (some e) =
    S e
    × (entry_matches pkt e ≡ true)
    × ((x : FlowEntry) → S x → entry_matches pkt x ≡ true → x.priority ≤ e.priority)

-- The rule is the one that was sent, up to its counters and its table.
abbrev pub IsRule : FlowEntry → FlowEntry → Type 0
IsRule e f =
    (f.addr ≡ e.addr)
    × (f.priority ≡ e.priority)
    × (f.matches ≡ e.matches)
    × (f.inst_grp ≡ e.inst_grp)

pub data Command : Type 0 where
  add : FlowEntry → Bool → Bool → Command
  remove : FlowEntry → ℕ → ℕ → Command

-- What a command with a result does to the rules. An addition that is refused changes nothing; else it
-- adds the rule, or the rule takes the place of an equal one.
abbrev pub Step : Command → FmResult → Rules → Rules → Type 0
Step (add e check_overlap reset) r S T =
    ((r ≢ fm_success) × IsSame S T)
    ⊎ ((r ≡ fm_success)
        × ((f : FlowEntry) × IsRule e f × ((x : FlowEntry) → T x ↔ ((x ≡ f) ⊎ S x))))
    ⊎ ((r ≡ fm_success)
        × ((f : FlowEntry) × (old : FlowEntry) × IsRule e f
            × S old
            × (flow_entry_check_equal old e port_any group_any false ≡ true)
            × ((x : FlowEntry) → T x ↔ ((x ≡ f) ⊎ (S x × (x.addr ≢ old.addr))))))
Step (remove e out_port out_group) r S T =
    (r ≡ fm_success) × ((x : FlowEntry) → T x ↔ (S x × (stays e out_port out_group x ≡ true)))

abbrev fm_result : RoflResult → FmResult
fm_result success = fm_success
fm_result _ = fm_failure

-- The command on the table of the code.
abbrev pub execute : Command → Table → FmResult × Table
execute (add e check_overlap reset) t = add_flow_entry_table_imp t e check_overlap reset
execute (remove e out_port out_group) t =
    let r = remove_flow_entry_loop t (some e) none not_strict out_port out_group delete in
    (fm_result r.0, r.1)

-- The address of a new entry is not in the table.
abbrev pub IsFreshFor : Command → Table → Type 0
IsFreshFor (add e check_overlap reset) t = IsFresh e.addr t.entries
IsFreshFor (remove e out_port out_group) t = Unit

placed-Has :
    (t : Table) (e x : FlowEntry)
    → Has (place_entry t e none).entries x
      ↔ ((x ≡ record e { table = some t.number }) ⊎ Has t.entries x)
unfolding place_entry
placed-Has t e x = Has-insert_entry (record e { table = some t.number }) t.entries x

lookup-IsBest :
    (t : Table) (pkt : PacketMatches) (o : Option FlowEntry)
    → IsTable t
    → find_best_match_loop t pkt ≡ o
    → IsBest (Has t.entries) pkt o
unfolding find_best_match_loop
lookup-IsBest t pkt none i q =
    λ x h. All-Has (λ z. entry_matches pkt z ≡ false) t.entries x ((find_best-none t pkt).0 q) h
lookup-IsBest t pkt (some e) i q =
    let (y, f) = find_best-IsFirst t pkt e i q in
    let (ks, es, w, _, _) = find_first-FirstAt (entry_matches pkt) t.entries e q in
    (
      rw w (Has-middle ks e es),
      y,
      λ x h m.
          let b = All-Has (λ z. entry_matches pkt z ≡ true → IsBefore e z) t.entries x f h m in
          ground arith,
    )

remove-Step :
    (t : Table) (e : FlowEntry) (out_port out_group : ℕ)
    → IsTable t
    → Step
        (remove e out_port out_group)
        (execute (remove e out_port out_group) t).0
        (Has t.entries)
        (Has (execute (remove e out_port out_group) t).1.entries)
remove-Step t e out_port out_group i =
    let l = remove_not_strict-Leaves t e out_port out_group delete i in
    (ap fm_result l.0, λ x. rw l.2 (Has-keep (stays e out_port out_group) t.entries x))

replaced-Has :
    (t : Table) (g old x : FlowEntry) (ks es : List FlowEntry)
    → IsTable t
    → t.num_of_entries ≢ max_number_of_table_entries
    → IsFresh g.addr t.entries
    → t.entries ≡ ks ++ old ∷ es
    → Has (place_entry t g (some old)).entries x
      ↔ ((x ≡ record g { table = some t.number }) ⊎ (Has t.entries x × (x.addr ≢ old.addr)))
unfolding place_entry detach
replaced-Has t g old x ks es i full h w =
    let f = record g { table = some t.number } in
    let j = placed-IsTable t g i full h in
    let (hs, ts, v) = insert_entry-member f ks old es in
    let u = ap (insert_entry f) w ∙ v in
    let d = remove_specific_middle (placed t g) hs old ts RemoveReason.no_reason j u in
    let k : Has t.entries old = rw w (Has-middle ks old es) in
    let n : g.addr ≢ old.addr = λ q. All-Has (λ z. z.addr ≢ g.addr) t.entries old h k (sym q) in
    let a = Has-unlink old.addr (insert_entry f t.entries) x j.distinct in
    let b = Has-insert_entry f t.entries x in
    rw d (
      (λ y. elim (b.0 (a.0 y).0) [ inl q ↦ inl q | inr m ↦ inr (m, (a.0 y).1) ]),
      λ (y : (x ≡ f) ⊎ (Has t.entries x × (x.addr ≢ old.addr))). elim y [
        | inl q ↦ a.1 (b.1 (inl q), λ z. n (sym (ap (λ e. e.addr) q) ∙ z))
        | inr m ↦ a.1 (b.1 (inr m.0), m.1)
      ],
    )

renewed-IsRule :
    (e old : FlowEntry) (reset : Bool) (n : ℕ)
    → IsRule e (record (renewed e old reset) { table = some n })
renewed-IsRule e old true n = (refl, refl, refl, refl)
renewed-IsRule e old false n = (refl, refl, refl, refl)

add-Step :
    (t : Table) (e : FlowEntry) (check_overlap reset : Bool)
    → IsTable t
    → IsFresh e.addr t.entries
    → Step
        (add e check_overlap reset)
        (execute (add e check_overlap reset) t).0
        (Has t.entries)
        (Has (execute (add e check_overlap reset) t).1.entries)
unfolding AddOutcome check_identical
add-Step t e check_overlap reset i f = elim (add-AddOutcome t e check_overlap reset) [
  | inl (_, r) ↦ rw r (inl ((λ z. ground arith), λ x. ((λ h. h), λ h. h)))
  | inr (full, inl (_, _, r)) ↦ rw r (inl ((λ z. ground arith), λ x. ((λ h. h), λ h. h)))
  | inr (full, inr (inl (_, _, r))) ↦
      let g = record e { table = some t.number } in
      rw r (inr (inl (refl, (g, (refl, refl, refl, refl), placed-Has t e))))
  | inr (full, inr (inr (old, _, p, r))) ↦
      let g = renewed e old reset in
      let h = rw (← renewed-addr e old reset) at f in
      let (ks, es, w, _, y) = find_first-FirstAt _ t.entries old p in
      rw r (
        inr (
          inr (
            refl,
            (
              record g { table = some t.number },
              old,
              renewed-IsRule e old reset t.number,
              rw w (Has-middle ks old es),
              y,
              λ x. replaced-Has t g old x ks es i full h w,
            ),
          )))
]

execute-IsTable : (c : Command) (t : Table) → IsTable t → IsFreshFor c t → IsTable (execute c t).1
execute-IsTable (add e check_overlap reset) t i f = add-IsTable t e check_overlap reset i f
execute-IsTable (remove e out_port out_group) t i f =
    (remove_not_strict-Leaves t e out_port out_group delete i).1

execute-Step :
    (c : Command) (t : Table)
    → IsTable t
    → IsFreshFor c t
    → Step c (execute c t).0 (Has t.entries) (Has (execute c t).1.entries)
execute-Step (add e check_overlap reset) t i f = add-Step t e check_overlap reset i f
execute-Step (remove e out_port out_group) t i f = remove-Step t e out_port out_group i

-- On a table in order, an addition of an entry whose address is not in it, and a removal that is not
-- strict, do to the set of the rules of the table what `Step` says, and leave a table in order, in
-- which a lookup of any packet finds a rule of the highest priority among those that it meets, and
-- nothing only if it meets none.
pub execute-refines :
    (c : Command) (t : Table)
    → IsTable t
    → IsFreshFor c t
    → Step c (execute c t).0 (Has t.entries) (Has (execute c t).1.entries)
      × IsTable (execute c t).1
      × ((pkt : PacketMatches)
          → IsBest (Has (execute c t).1.entries) pkt (find_best_match_loop (execute c t).1 pkt))
execute-refines c t i f =
    let j = execute-IsTable c t i f in
    (execute-Step c t i f, j, λ pkt. lookup-IsBest (execute c t).1 pkt _ j refl)
