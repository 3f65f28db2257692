-- ===== src/Loop/Keep.antt =====
-- What a modification in of1x_loop_match.c keeps: the keys of the entries, and so the lookup.
use rofl_fork.Base.{
  suc, ℕ, ◌≡◌, ◌≢◌, refl, sym, ap, ◌∙◌, Bool, true, false, List, [], ◌∷◌, some, All, find_first,
  length, Bool-cases, arith, inl, inr, ◌==◌,
}
use rofl_fork.FlowEntry.{
  FlowEntry, update_flow_entry, flow_entry_check_contained, flow_entry_check_equal, port_any,
}
use rofl_fork.Group.Table.{group_any}
use rofl_fork.Loop.{Table, Strictness, strict, not_strict, fm_success}
use rofl_fork.Loop.Add.{add-IsTable}
use rofl_fork.Loop.Invariant.{IsTable, IsFresh, AreDistinct, PointsTo}
use rofl_fork.Loop.Lookup.{find_best_match_loop, entry_matches}
use rofl_fork.Loop.Modify.{modify_strict, modify_contained, modify_entries, modify_flow_entry_loop}
use rofl_fork.Loop.Order.{IsBefore, IsOrdered}
use rofl_fork.Match.Packet.{PacketMatches}

-- The same entry, with other instructions and counters.
pub record IsUpdate (e f : FlowEntry) : Type 0 where
  pub addr : f.addr ≡ e.addr
  pub priority : f.priority ≡ e.priority
  pub matches : f.matches ≡ e.matches
  pub table : f.table ≡ e.table

-- Lists of the same entries in the same order.
abbrev pub AreUpdates : List FlowEntry → List FlowEntry → Type 0
AreUpdates [] fs = fs ≡ []
AreUpdates (e ∷ es) fs =
    (f : FlowEntry) × (gs : List FlowEntry) × (fs ≡ f ∷ gs) × IsUpdate e f × AreUpdates es gs

same : (e : FlowEntry) → IsUpdate e e
same e = record { addr = refl; priority = refl; matches = refl; table = refl }

all_same : (es : List FlowEntry) → AreUpdates es es
all_same [] = refl
all_same (e ∷ es) = (e, es, refl, same e, all_same es)

updated : (e change : FlowEntry) (reset : Bool) → IsUpdate e (update_flow_entry e change reset).0
unfolding update_flow_entry
updated e change reset = record { addr = refl; priority = refl; matches = refl; table = refl }

modify_strict-AreUpdates :
    (es : List FlowEntry) (change : FlowEntry) (reset : Bool)
    → AreUpdates es (modify_strict es change reset).entries
unfolding modify_strict
modify_strict-AreUpdates [] change reset = refl
modify_strict-AreUpdates (e ∷ es) change reset =
    elim (Bool-cases (flow_entry_check_equal e change port_any group_any true)) [
      | inl y ↦ rw y (_, es, refl, updated e change reset, all_same es)
      | inr n ↦ rw n (e, _, refl, same e, modify_strict-AreUpdates es change reset)
    ]

contained_yes :
    (it : FlowEntry) (es : List FlowEntry) (change : FlowEntry) (reset : Bool)
    → flow_entry_check_contained it change false true port_any group_any false ≡ true
    → (modify_contained (it ∷ es) change reset).entries
      ≡ (update_flow_entry it change reset).0
        ∷ (modify_contained es (update_flow_entry it change reset).1 reset).entries
unfolding modify_contained
contained_yes it es change reset y = ground arith

contained_no :
    (it : FlowEntry) (es : List FlowEntry) (change : FlowEntry) (reset : Bool)
    → flow_entry_check_contained it change false true port_any group_any false ≡ false
    → (modify_contained (it ∷ es) change reset).entries
      ≡ it ∷ (modify_contained es change reset).entries
unfolding modify_contained
contained_no it es change reset n = ground arith

modify_contained-AreUpdates :
    (es : List FlowEntry) (change : FlowEntry) (reset : Bool)
    → AreUpdates es (modify_contained es change reset).entries
unfolding modify_contained
modify_contained-AreUpdates [] change reset = refl
modify_contained-AreUpdates (e ∷ es) change reset =
    elim (Bool-cases (flow_entry_check_contained e change false true port_any group_any false)) [
      | inl y ↦ (
        _,
        _,
        contained_yes e es change reset y,
        updated e change reset,
        modify_contained-AreUpdates es (update_flow_entry e change reset).1 reset,
      )
      | inr n ↦ (
        e,
        _,
        contained_no e es change reset n,
        same e,
        modify_contained-AreUpdates es change reset,
      )
    ]

modify_entries-AreUpdates :
    (es : List FlowEntry) (change : FlowEntry) (s : Strictness) (reset : Bool)
    → AreUpdates es (modify_entries es change s reset).entries
unfolding modify_entries
modify_entries-AreUpdates es change strict reset = modify_strict-AreUpdates es change reset
modify_entries-AreUpdates es change not_strict reset = modify_contained-AreUpdates es change reset

All-AreUpdates :
    (P Q : FlowEntry → Type 0)
    → ((e f : FlowEntry) → IsUpdate e f → P e → Q f)
    → (es fs : List FlowEntry) → AreUpdates es fs
    → All P es
    → All Q fs
All-AreUpdates P Q h [] fs u a = rw u tt
All-AreUpdates P Q h (e ∷ es) fs (f, gs, q, s, u) a =
    rw q (h e f s a.0, All-AreUpdates P Q h es gs u a.1)

IsBefore-IsUpdate :
    (e f : FlowEntry)
    → IsUpdate e f
    → (x y : FlowEntry) → IsUpdate x y
    → IsBefore e x
    → IsBefore f y
IsBefore-IsUpdate e f s x y t b =
    let p = s.priority in
    let q = t.priority in
    let m = ap (λ g. g.num_elements) s.matches in
    let n = ap (λ g. g.num_elements) t.matches in ground arith

apart-IsUpdate :
    (e f : FlowEntry)
    → IsUpdate e f
    → (x y : FlowEntry) → IsUpdate x y
    → x.addr ≢ e.addr
    → y.addr ≢ f.addr
apart-IsUpdate e f s x y t d = let p = s.addr in let q = t.addr in ground arith

ordered : (es fs : List FlowEntry) → AreUpdates es fs → IsOrdered es → IsOrdered fs
ordered [] fs u o = rw u tt
ordered (e ∷ es) fs (f, gs, q, s, u) o = rw q (
  All-AreUpdates (IsBefore e) (IsBefore f) (IsBefore-IsUpdate e f s) es gs u o.0,
  ordered es gs u o.1,
)

distinct : (es fs : List FlowEntry) → AreUpdates es fs → AreDistinct es → AreDistinct fs
distinct [] fs u d = rw u tt
distinct (e ∷ es) fs (f, gs, q, s, u) d = rw q (
  All-AreUpdates (λ x. x.addr ≢ e.addr) (λ x. x.addr ≢ f.addr) (apart-IsUpdate e f s) es gs u d.0,
  distinct es gs u d.1,
)

length-AreUpdates : (es fs : List FlowEntry) → AreUpdates es fs → length fs ≡ length es
length-AreUpdates [] fs u = rw u refl
length-AreUpdates (e ∷ es) fs (f, gs, q, s, u) = rw q (ap suc (length-AreUpdates es gs u))

-- The lookup in the updated list finds the update of what it found, or nothing as before.
find_first-AreUpdates :
    (pkt : PacketMatches) (es fs : List FlowEntry)
    → AreUpdates es fs
    → (e : FlowEntry) → find_first (entry_matches pkt) es ≡ some e
    → (f : FlowEntry) × (find_first (entry_matches pkt) fs ≡ some f) × IsUpdate e f
unfolding find_first entry_matches
find_first-AreUpdates pkt [] fs u e p = ground arith
find_first-AreUpdates pkt (x ∷ es) fs (f, gs, q, s, u) e p =
    elim (Bool-cases (entry_matches pkt x)) [
      | inl y ↦
          let w : x ≡ e = cc in
          let z : entry_matches pkt f ≡ true = rw s.matches y in (f, rw q (rw z refl), rw (← w) s)
      | inr n ↦
          let z : entry_matches pkt f ≡ false = rw s.matches n in
          let (g, r, t) = find_first-AreUpdates pkt es gs u e (ground arith) in
          (g, rw q (rw z r), t)
    ]

PointsTo-IsUpdate :
    {n m : ℕ} → m ≡ n → (e f : FlowEntry) → IsUpdate e f → PointsTo n e → PointsTo m f
PointsTo-IsUpdate q e f s p = s.table ∙ p ∙ ap some (sym q)

AreUpdates-IsTable :
    (t u : Table)
    → AreUpdates t.entries u.entries
    → u.number ≡ t.number
    → u.num_of_entries ≡ t.num_of_entries
    → IsTable t
    → IsTable u
AreUpdates-IsTable t u a n c i =
    let l = length-AreUpdates t.entries u.entries a in
    let k = i.count in
    let b = i.bounded in
    record {
      ordered = ordered t.entries u.entries a i.ordered;
      count = c ∙ k ∙ sym l;
      bounded = rw c b;
      points =
          All-AreUpdates (PointsTo t.number) (PointsTo u.number) (PointsTo-IsUpdate n) t.entries
            u.entries a i.points;
      distinct = distinct t.entries u.entries a i.distinct;
    }

-- A modification keeps the invariant of a table in order, whether it updates entries or is added
-- as a new one, if its address is not in the table.
pub modify-IsTable :
    (t : Table) (change : FlowEntry) (s : Strictness) (reset : Bool)
    → IsTable t
    → IsFresh change.addr t.entries
    → IsTable (modify_flow_entry_loop t change s reset).1
unfolding modify_flow_entry_loop
modify-IsTable t change s reset i f =
    elim (Bool-cases ((modify_entries t.entries change s reset).moded == 0)) [
      | inl y ↦ rw y (add-IsTable t change false reset i f)
      | inr n ↦
          let a = modify_entries-AreUpdates t.entries change s reset in
          rw n (AreUpdates-IsTable t _ a refl refl i)
    ]

-- A modification that updates entries succeeds, and then a packet finds an entry at the address, with
-- the priority and the matches, of the one that it found before.
pub modify-find_best :
    (t : Table) (change : FlowEntry) (s : Strictness) (reset : Bool) (pkt : PacketMatches)
    (e : FlowEntry)
    → (modify_entries t.entries change s reset).moded ≢ 0
    → find_best_match_loop t pkt ≡ some e
    → ((modify_flow_entry_loop t change s reset).0 ≡ fm_success)
      × ((f : FlowEntry) × (find_best_match_loop (modify_flow_entry_loop t change s reset).1 pkt
            ≡ some f)
          × IsUpdate e f)
unfolding modify_flow_entry_loop find_best_match_loop
modify-find_best t change s reset pkt e m p =
    let n : ((modify_entries t.entries change s reset).moded == 0) ≡ false = ground arith in
    let a = modify_entries-AreUpdates t.entries change s reset in
    rw n (refl, find_first-AreUpdates pkt t.entries _ a e p)
