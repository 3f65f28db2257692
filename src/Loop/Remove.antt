-- ===== src/Loop/Remove.antt =====
-- The removal of entries in of1x_loop_match.c: what goes and what stays.
use rofl_fork.Base.{
  ℕ, suc, ◌+◌, ◌≡◌, ◌≢◌, ◌⊎◌, ap, sym, ◌∙◌, not, Bool, true, false, List, [], ◌∷◌, ◌++◌, none, some,
  refl, find_first, any, length, FirstAt, find_first-FirstAt, Option-cases, arith, ==_iff,
  Bool-cases, inl, inr, RoflResult, success, keep, append_assoc, All_middle, any_middle,
  length-append, ◌==◌,
}
use rofl_fork.FlowEntry.{
  FlowEntry, RemoveReason, flow_entry_check_contained, flow_entry_check_equal,
}
use rofl_fork.Loop.{
  Table, unlink, has_addr, detach, points_to, remove_flow_entry_table_specific_imp,
  remove_contained, remove_strict, remove_flow_entry_loop, not_strict, strict,
  remove_flow_entry_table_non_specific_imp,
}
use rofl_fork.Loop.Invariant.{AreDistinct, PointsTo, IsTable, detach-IsTable}

-- The removal unlinks the one entry at the address.
unlink_middle :
    (ks : List FlowEntry) (it : FlowEntry) (es : List FlowEntry)
    → AreDistinct (ks ++ it ∷ es)
    → unlink it.addr (ks ++ it ∷ es) ≡ ks ++ es
unfolding unlink
unlink_middle [] it es d = let y : has_addr it.addr it ≡ true = ground arith in rw y
unlink_middle (k ∷ ks) it es (f, d) =
    let g = All_middle (λ x. x.addr ≢ k.addr) ks it es f in
    let n : has_addr it.addr k ≡ false = ground arith in
    rw n (ap (λ l. k ∷ l) (unlink_middle ks it es d))

length-zero : (es : List FlowEntry) → length es ≡ 0 → es ≡ []
length-zero [] z = refl
length-zero (e ∷ es) z = ground arith

PointsTo-points_to : (t : Table) (e : FlowEntry) → PointsTo t.number e → points_to t e ≡ true
PointsTo-points_to t e p = ground arith

-- An entry of the table is removed, so the assertions behind the removals hold.
pub remove_specific_middle :
    (t : Table) (ks : List FlowEntry) (it : FlowEntry) (es : List FlowEntry) (cause : RemoveReason)
    → IsTable t
    → t.entries ≡ ks ++ it ∷ es
    → remove_flow_entry_table_specific_imp t it cause ≡ (success, detach t it cause)
unfolding remove_flow_entry_table_specific_imp
remove_specific_middle t ks it es cause i e =
    let p = All_middle (PointsTo t.number) ks it es (rw e at i.points) in
    let q : points_to t it ≡ true = PointsTo-points_to t it p in
    let m : any (has_addr it.addr) t.entries ≡ true =
      rw e (any_middle (has_addr it.addr) ks it es (ground arith)) in
    let k : t.num_of_entries ≡ length ks + suc (length es) =
      i.count ∙ ap length e ∙ length-append ks (it ∷ es) in
    ground arith

pub detach_middle :
    (t : Table) (ks : List FlowEntry) (it : FlowEntry) (es : List FlowEntry) (cause : RemoveReason)
    → IsTable t
    → t.entries ≡ ks ++ it ∷ es
    → IsTable (detach t it cause) × ((detach t it cause).entries ≡ ks ++ es)
unfolding detach
detach_middle t ks it es cause i e = (
  detach-IsTable t it cause i (rw e (any_middle (has_addr it.addr) ks it es (ground arith))),
  ap (unlink it.addr) e ∙ unlink_middle ks it es (rw e at i.distinct),
)

-- The entry stays when a request that is not strict is carried out.
abbrev pub stays : FlowEntry → ℕ → ℕ → FlowEntry → Bool
stays e out_port out_group it =
    not (flow_entry_check_contained it e false true out_port out_group false)

-- A loop that succeeds and leaves the table in order, with the given entries.
abbrev pub Leaves : RoflResult × Table → List FlowEntry → Type 0
Leaves r es = (r.0 ≡ success) × IsTable r.1 × (r.1.entries ≡ es)

module _ (e : FlowEntry) (out_port out_group : ℕ) (cause : RemoveReason) where
  step_yes :
      (t u : Table) (it : FlowEntry) (es : List FlowEntry)
      → flow_entry_check_contained it e false true out_port out_group false ≡ true
      → remove_flow_entry_table_specific_imp t it cause ≡ (success, u)
      → remove_contained t (it ∷ es) e out_port out_group cause
        ≡ remove_contained u es e out_port out_group cause
  unfolding remove_contained
  step_yes t u it es y r = ground arith

  step_no :
      (t : Table) (it : FlowEntry) (es : List FlowEntry)
      → flow_entry_check_contained it e false true out_port out_group false ≡ false
      → remove_contained t (it ∷ es) e out_port out_group cause
        ≡ remove_contained t es e out_port out_group cause
  unfolding remove_contained
  step_no t it es n = ground arith

remove_contained-Leaves :
    (t : Table) (ks es : List FlowEntry) (e : FlowEntry) (out_port out_group : ℕ)
    (cause : RemoveReason)
    → IsTable t
    → t.entries ≡ ks ++ es
    → Leaves
        (remove_contained t es e out_port out_group cause)
        (ks ++ keep (stays e out_port out_group) es)
unfolding remove_contained keep
remove_contained-Leaves t ks [] e out_port out_group cause i q = (refl, i, q)
remove_contained-Leaves t ks (it ∷ es) e out_port out_group cause i q =
    elim (Bool-cases (flow_entry_check_contained it e false true out_port out_group false)) [
      | inl y ↦
          let r = remove_specific_middle t ks it es cause i q in
          let (j, p) = detach_middle t ks it es cause i q in
          rw (step_yes e out_port out_group cause t _ it es y r) (
            rw y (remove_contained-Leaves (detach t it cause) ks es e out_port out_group cause j p))
      | inr n ↦
          let l = append_assoc ks (it ∷ []) in
          let q' = q ∙ sym (l es) in
          rw (step_no e out_port out_group cause t it es n) (
            rw n (
              rw (l (keep (stays e out_port out_group) es)) at
                (remove_contained-Leaves t (ks ++ it ∷ []) es e out_port out_group cause i q')))
    ]

-- On a table in order, a removal that is not strict succeeds and leaves, in their order and in a
-- table in order, exactly the entries that the request does not contain.
pub remove_not_strict-Leaves :
    (t : Table) (e : FlowEntry) (out_port out_group : ℕ) (cause : RemoveReason)
    → IsTable t
    → Leaves
        (remove_flow_entry_loop t (some e) none not_strict out_port out_group cause)
        (keep (stays e out_port out_group) t.entries)
unfolding remove_flow_entry_loop remove_flow_entry_table_non_specific_imp keep
remove_not_strict-Leaves t e out_port out_group cause i =
    elim (Bool-cases (t.num_of_entries == 0)) [
      | inl y ↦
          let z : t.entries ≡ [] =
            length-zero t.entries (sym i.count ∙ (==_iff t.num_of_entries 0).0 y) in
          rw y (refl, i, rw z refl)
      | inr n ↦ rw n (remove_contained-Leaves t [] t.entries e out_port out_group cause i refl)
    ]

module _ (t : Table) (e : FlowEntry) (out_port out_group : ℕ) (cause : RemoveReason) where
  -- The entry is the one that a strict request asks for.
  abbrev pub asked_for : FlowEntry → Bool
  asked_for it = flow_entry_check_equal it e out_port out_group true

  remove_strict-none :
      (es : List FlowEntry)
      → find_first asked_for es ≡ none
      → remove_strict t es e out_port out_group cause ≡ (success, t)
  unfolding remove_strict find_first
  remove_strict-none [] n = refl
  remove_strict-none (it ∷ es) n = ground (arith, remove_strict-none es)

  remove_strict-some :
      (es : List FlowEntry) (it : FlowEntry)
      → find_first asked_for es ≡ some it
      → remove_strict t es e out_port out_group cause
        ≡ remove_flow_entry_table_specific_imp t it cause
  unfolding remove_strict find_first
  remove_strict-some [] it y = ground arith
  remove_strict-some (x ∷ es) it y = elim (Bool-cases (asked_for x)) [
    | inl p ↦ let q : x ≡ it = cc in rw p (rw q refl)
    | inr p ↦ rw p (remove_strict-some es it (ground arith))
  ]

  strict_loop :
      IsTable t
      → remove_flow_entry_loop t (some e) none strict out_port out_group cause
        ≡ remove_strict t t.entries e out_port out_group cause
  unfolding remove_flow_entry_loop remove_flow_entry_table_non_specific_imp remove_strict
  strict_loop i = elim (Bool-cases (t.num_of_entries == 0)) [
    | inl y ↦
        let z : t.entries ≡ [] =
          length-zero t.entries (sym i.count ∙ (==_iff t.num_of_entries 0).0 y) in
        rw y (rw z refl)
    | inr n ↦ rw n
  ]

  -- On a table in order, a strict removal succeeds. If no entry is equal to the request, it
  -- changes nothing; else exactly the first such entry goes, and the table is in order again.
  pub remove_strict-Leaves :
      IsTable t
      → ((find_first asked_for t.entries ≡ none)
          × (remove_flow_entry_loop t (some e) none strict out_port out_group cause ≡ (success, t)))
        ⊎ ((it : FlowEntry) × (at : FirstAt asked_for t.entries it) × Leaves
              (remove_flow_entry_loop t (some e) none strict out_port out_group cause)
              (at.0 ++ at.1))
  remove_strict-Leaves i =
      let l = strict_loop i in
      elim (Option-cases (find_first asked_for t.entries)) [
        | inl n ↦ inl (n, l ∙ remove_strict-none t.entries n)
        | inr (it, y) ↦
            let f = find_first-FirstAt asked_for t.entries it y in
            let r =
              l
              ∙ remove_strict-some t.entries it y
              ∙ remove_specific_middle t f.0 it f.1 cause i f.2 in
            let (j, p) = detach_middle t f.0 it f.1 cause i f.2 in inr (it, f, rw r (refl, j, p))
      ]
