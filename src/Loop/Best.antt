-- ===== src/Loop/Best.antt =====
-- What the lookup in a flow table finds, of1x_find_best_match_loop.
use rofl_fork.Base.{
  ℕ, ◌≡◌, ◌≢◌, ◌↔◌, refl, sym, ap, ◌∙◌, Bool, true, false, List, [], ◌∷◌, ◌++◌, Option, none, some,
  All, find_first, find_first-FirstAt, find_first-none, All_map, All_middle, some_injective,
  Bool-cases, inl, inr, arith, if◌then◌else◌,
}
use rofl_fork.FlowEntry.{FlowEntry, RemoveReason, port_any}
use rofl_fork.Group.Table.{group_any}
use rofl_fork.Loop.{
  Table, fm_success, insert_entry, unlink, has_addr, goes_before, place_entry,
  add_flow_entry_table_imp, detach, check_identical, remove_flow_entry_table_specific_imp,
}
use rofl_fork.Loop.Add.{AddOutcome, add-AddOutcome, renewed}
use rofl_fork.Loop.Invariant.{IsTable, IsFresh, remove-cases}
use rofl_fork.Loop.Lookup.{entry_matches, find_best_match_loop}
use rofl_fork.Loop.Order.{IsBefore, IsOrdered}
use rofl_fork.Match.Packet.{PacketMatches}

-- The entry is before every one that the packet meets.
abbrev pub IsFirst : PacketMatches → FlowEntry → List FlowEntry → Type 0
IsFirst pkt e es = All (λ f. entry_matches pkt f ≡ true → IsBefore e f) es

IsFirst-behind :
    (pkt : PacketMatches) (ks : List FlowEntry) (e : FlowEntry) (es : List FlowEntry)
    → IsOrdered (ks ++ e ∷ es)
    → All (λ f. entry_matches pkt f ≡ false) ks
    → IsFirst pkt e (ks ++ e ∷ es)
IsFirst-behind pkt [] e es o f = (λ _. ground arith, All_map (λ x b _. b) es o.0)
IsFirst-behind pkt (k ∷ ks) e es o f =
    (λ y. ground (arith, f.0), IsFirst-behind pkt ks e es o.1 f.1)

-- In a table in order, the packet meets the entry that is found, and that entry is before every
-- one that the packet meets: none of them has a higher priority, and none of the same priority has
-- more matches.
pub find_best-IsFirst :
    (t : Table) (pkt : PacketMatches) (e : FlowEntry)
    → IsTable t
    → find_best_match_loop t pkt ≡ some e
    → (entry_matches pkt e ≡ true) × IsFirst pkt e t.entries
unfolding find_best_match_loop
find_best-IsFirst t pkt e i p =
    let (ks, es, q, f, y) = find_first-FirstAt (entry_matches pkt) t.entries e p in
    (y, rw q (IsFirst-behind pkt ks e es (rw q at i.ordered) f))

-- No entry is found exactly when the packet meets none.
pub find_best-none :
    (t : Table) (pkt : PacketMatches)
    → (find_best_match_loop t pkt ≡ none) ↔ All (λ e. entry_matches pkt e ≡ false) t.entries
unfolding find_best_match_loop
find_best-none t pkt = find_first-none (entry_matches pkt) t.entries

-- Every entry that passes the test is one that the new entry goes before.
abbrev pub Yields : (FlowEntry → Bool) → FlowEntry → List FlowEntry → Type 0
Yields p e es = All (λ f. p f ≡ true → goes_before e f ≡ true) es

find_first-insert_entry :
    (p : FlowEntry → Bool) (e : FlowEntry) (es : List FlowEntry)
    → p e ≡ true
    → Yields p e es
    → find_first p (insert_entry e es) ≡ some e
unfolding find_first insert_entry
find_first-insert_entry p e [] y h = rw y
find_first-insert_entry p e (it ∷ es) y h = elim (Bool-cases (goes_before e it)) [
  | inl b ↦ rw b (rw y)
  | inr n ↦
      let z : p it ≡ false = ground (arith, h.0) in
      rw n (rw z (find_first-insert_entry p e es y h.1))
]

find_first-insert_entry_other :
    (p : FlowEntry → Bool) (e : FlowEntry) (es : List FlowEntry)
    → p e ≡ false
    → find_first p (insert_entry e es) ≡ find_first p es
unfolding find_first insert_entry
find_first-insert_entry_other p e [] n = rw n
find_first-insert_entry_other p e (it ∷ es) n = elim (Bool-cases (goes_before e it)) [
  | inl b ↦ rw b (rw n)
  | inr c ↦ rw c (ap (λ o. if p it then some it else o) (find_first-insert_entry_other p e es n))
]

-- The removal of another entry leaves the one that is found.
find_first-unlink :
    (p : FlowEntry → Bool) (a : ℕ) (e : FlowEntry) (es : List FlowEntry)
    → e.addr ≢ a
    → find_first p es ≡ some e
    → find_first p (unlink a es) ≡ some e
unfolding find_first unlink
find_first-unlink p a e [] d f = ground arith
find_first-unlink p a e (it ∷ es) d f = elim (Bool-cases (has_addr a it)) [
  | inl y ↦
      let w : find_first p es ≡ some e = elim (Bool-cases (p it)) [
        | inl z ↦ let q : it ≡ e = cc in ground (arith, ap (λ x. x.addr) q)
        | inr m ↦ ground arith
      ] in
      rw y w
  | inr n ↦
      let w : find_first p (it ∷ unlink a es) ≡ some e = elim (Bool-cases (p it)) [
        | inl z ↦ let q : it ≡ e = cc in rw z (ap some q)
        | inr m ↦ rw m (find_first-unlink p a e es d (ground arith))
      ] in
      rw n w
]

-- The removal inside an addition, whatever it is given, leaves what a lookup finds elsewhere.
find_best-removed :
    (t : Table) (old e : FlowEntry) (cause : RemoveReason) (p : FlowEntry → Bool)
    → e.addr ≢ old.addr
    → find_first p t.entries ≡ some e
    → find_first p (remove_flow_entry_table_specific_imp t old cause).1.entries ≡ some e
unfolding detach
find_best-removed t old e cause p d f = elim (remove-cases t old cause) [
  | inl r ↦ rw r f
  | inr (_, r) ↦ rw r (find_first-unlink p old.addr e t.entries d f)
]

-- The entry as the table has it.
abbrev pub owned : Table → FlowEntry → FlowEntry
owned t e = record e { table = some t.number }

place_entry-find :
    (t : Table) (e : FlowEntry) (existing : Option FlowEntry) (p : FlowEntry → Bool)
    → p (owned t e) ≡ true
    → Yields p (owned t e) t.entries
    → ((old : FlowEntry) → existing ≡ some old → e.addr ≢ old.addr)
    → find_first p (place_entry t e existing).entries ≡ some (owned t e)
unfolding place_entry
place_entry-find t e none p y h d = find_first-insert_entry p (owned t e) t.entries y h
place_entry-find t e (some old) p y h d =
    find_best-removed _ old (owned t e) RemoveReason.no_reason p (d old refl)
      (find_first-insert_entry p (owned t e) t.entries y h)

-- What the lookup reads of the entry is the same when it takes over counters.
renewed-same :
    (t : Table) (e old : FlowEntry) (reset : Bool) (pkt : PacketMatches)
    → entry_matches pkt e ≡ true
    → Yields (entry_matches pkt) e t.entries
    → (entry_matches pkt (owned t (renewed e old reset)) ≡ true)
      × Yields (entry_matches pkt) (owned t (renewed e old reset)) t.entries
      × ((renewed e old reset).addr ≡ e.addr)
      × ((renewed e old reset).inst_grp ≡ e.inst_grp)
unfolding entry_matches
renewed-same t e old true pkt y h = (y, h, refl, refl)
renewed-same t e old false pkt y h = (y, h, refl, refl)

some_addr : {a b : FlowEntry} → some a ≡ some b → a.addr ≡ b.addr
some_addr w = ap (λ x. x.addr) (some_injective w)

-- After a successful addition of an entry whose address is not in the table, a packet that meets
-- the new entry, and of the old entries only such as the new one goes before, finds an entry with
-- the address and the instructions of the new one.
pub find_best-add :
    (t : Table) (e : FlowEntry) (check_overlap reset : Bool) (pkt : PacketMatches)
    → IsFresh e.addr t.entries
    → entry_matches pkt e ≡ true
    → Yields (entry_matches pkt) e t.entries
    → (add_flow_entry_table_imp t e check_overlap reset).0 ≡ fm_success
    → (g : FlowEntry) × (find_best_match_loop
          (add_flow_entry_table_imp t e check_overlap reset).1
          pkt
        ≡ some g)
      × (g.addr ≡ e.addr)
      × (g.inst_grp ≡ e.inst_grp)
unfolding find_best_match_loop AddOutcome entry_matches check_identical
find_best-add t e check_overlap reset pkt f y h ok = elim (add-AddOutcome t e check_overlap reset) [
  | inl (_, r) ↦ ground (arith, sym (ap (λ x. x.0) r) ∙ ok)
  | inr (_, inl (_, _, r)) ↦ ground (arith, sym (ap (λ x. x.0) r) ∙ ok)
  | inr (_, inr (inl (_, _, r))) ↦ (
    owned t e,
    rw r (place_entry-find t e none (entry_matches pkt) y h (λ old q. ground arith)),
    refl,
    refl,
  )
  | inr (_, inr (inr (old, _, q, r))) ↦
      let g = renewed e old reset in
      let s = find_first-FirstAt _ t.entries old q in
      let away = All_middle (λ x. x.addr ≢ e.addr) s.0 old s.1 (rw (s.2) at f) in
      let (m, z, a, u) = renewed-same t e old reset pkt y h in
      (
        owned t g,
        rw r (
            place_entry-find t g (some old) (entry_matches pkt) m z
              (λ x w v. away (some_addr w ∙ sym v ∙ a))),
        a,
        u,
      )
]

-- An addition that replaces no entry leaves the lookup of every packet that the new entry does not
-- match as it was, whatever the addition returns.
pub find_best-add_other :
    (t : Table) (e : FlowEntry) (check_overlap reset : Bool) (pkt : PacketMatches)
    → entry_matches pkt e ≡ false
    → check_identical t.entries e port_any group_any false ≡ none
    → find_best_match_loop (add_flow_entry_table_imp t e check_overlap reset).1 pkt
      ≡ find_best_match_loop t pkt
unfolding find_best_match_loop AddOutcome place_entry entry_matches
find_best-add_other t e check_overlap reset pkt y n =
    elim (add-AddOutcome t e check_overlap reset) [
      | inl (_, r) ↦ rw r
      | inr (_, inl (_, _, r)) ↦ rw r
      | inr (_, inr (inl (_, _, r))) ↦
          rw r (find_first-insert_entry_other (entry_matches pkt) (owned t e) t.entries y)
      | inr (_, inr (inr (old, _, q, r))) ↦ ground (arith, sym n ∙ q)
    ]
