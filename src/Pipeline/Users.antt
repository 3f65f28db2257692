-- ===== src/Pipeline/Users.antt =====
-- The removal of the entries that use a group, in of1x_group_delete.
use rofl_fork.Base.{
  ℕ, zero, suc, ◌≡◌, ◌≤◌, refl, sym, ap, ◌∙◌, Bool, true, false, not, List, [], ◌∷◌, Option, none,
  some, All, All_map, find_first, find_first-none, find_first-FirstAt, keep, keep-all, keep_middle,
  All-keep, Bool-cases, ==_iff, ◌==◌, length, length-append, Option-cases, inl, inr, arith,
}
use rofl_fork.FlowEntry.{FlowEntry, RemoveReason}
use rofl_fork.Group.Table.{group_all, GroupTable, Group}
use rofl_fork.Loop.{Table, detach, remove_flow_entry_loop, remove_flow_entry_table_specific_imp}
use rofl_fork.Loop.Invariant.{IsTable}
use rofl_fork.Loop.Lookup.{uses_group, find_entry_using_group_loop}
use rofl_fork.Loop.Remove.{remove_specific_middle, detach_middle}
use rofl_fork.Pipeline.Delete.{
  remove_users, remove_all_users, delete_groups, group_delete, extract_group, unlink_group,
}

abbrev pub is_free_of : ℕ → FlowEntry → Bool
is_free_of id e = not (uses_group id e)

remove_users-none :
    (n : ℕ) (t : Table) (id : ℕ)
    → find_entry_using_group_loop t id ≡ none
    → remove_users n t id ≡ some t
unfolding remove_users
remove_users-none zero t id e = ground arith
remove_users-none (suc n) t id e = ground arith

remove_users-some :
    (n : ℕ) (t : Table) (id : ℕ) (it : FlowEntry)
    → find_entry_using_group_loop t id ≡ some it
    → remove_users (suc n) t id
      ≡ remove_users n (remove_flow_entry_table_specific_imp t it RemoveReason.group_delete).1 id
unfolding remove_users remove_flow_entry_loop
remove_users-some n t id it e = ground arith

-- The loop ends with a table in order, which has exactly the entries that do not use the group.
abbrev pub Frees : Table → ℕ → Option Table → Type 0
Frees t id o = (u : Table) × (o ≡ some u) × IsTable u × (u.entries ≡ keep (is_free_of id) t.entries)

remove_users-done :
    (n : ℕ) (t : Table) (id : ℕ)
    → IsTable t
    → find_first (uses_group id) t.entries ≡ none
    → Frees t id (remove_users n t id)
unfolding find_entry_using_group_loop
remove_users-done n t id i e =
    let f = (find_first-none (uses_group id) t.entries).0 e in
    let g = All_map (λ x (h : uses_group id x ≡ false). ap not h) t.entries f in
    (t, remove_users-none n t id e, i, sym (keep-all (is_free_of id) t.entries g))

-- With fuel for each entry of a table that is in order, the loop ends: it leaves the table in
-- order, and exactly the entries that the search does not report as users of the group, in their
-- order.
pub remove_users-Frees :
    (n : ℕ) (t : Table) (id : ℕ)
    → IsTable t
    → length t.entries ≤ n
    → Frees t id (remove_users n t id)
unfolding find_entry_using_group_loop
remove_users-Frees zero t id i l = elim (Option-cases (find_first (uses_group id) t.entries)) [
  | inl e ↦ remove_users-done 0 t id i e
  | inr (it, e) ↦
      let (ks, es, q, _, _) = find_first-FirstAt (uses_group id) t.entries it e in
      let k = ap length q ∙ length-append ks (it ∷ es) in ground (arith, k)
]
remove_users-Frees (suc n) t id i l = elim (Option-cases (find_first (uses_group id) t.entries)) [
  | inl e ↦ remove_users-done (suc n) t id i e
  | inr (it, e) ↦
      let (ks, es, q, _, y) = find_first-FirstAt (uses_group id) t.entries it e in
      let r = remove_specific_middle t ks it es RemoveReason.group_delete i q in
      let (j, p) = detach_middle t ks it es RemoveReason.group_delete i q in
      let d = detach t it RemoveReason.group_delete in
      let b : length d.entries ≤ n =
        let k = ap length q ∙ length-append ks (it ∷ es) in
        let m = ap length p ∙ length-append ks es in omega arith in
      let (u, s, o, w) = remove_users-Frees n d id j b in
      let v =
        ap (keep (is_free_of id)) p
        ∙ sym (keep_middle (is_free_of id) ks it es (ap not y))
        ∙ ap (keep (is_free_of id)) (sym q) in
      (u, remove_users-some n t id it e ∙ ap (λ x. remove_users n x.1 id) r ∙ s, o, w ∙ v)
]

-- No entry of the tables uses the group.
abbrev pub AreFreeOf : List Table → ℕ → Type 0
AreFreeOf ts id = All (λ t. All (λ e. uses_group id e ≡ false) t.entries) ts

keep-free :
    (id : ℕ) (es : List FlowEntry) → All (λ e. uses_group id e ≡ false) (keep (is_free_of id) es)
unfolding keep
keep-free id [] = tt
keep-free id (e ∷ es) = elim (Bool-cases (uses_group id e)) [
  | inl y ↦ rw y (keep-free id es)
  | inr n ↦ rw n (n, keep-free id es)
]

-- What the removal from all tables gives: tables in order, free of the group and of each that they
-- were free of before.
abbrev pub AllFreed : List Table → ℕ → Option (List Table) → Type 0
AllFreed ts id o =
    (us : List Table) × (o ≡ some us)
    × All IsTable us
    × AreFreeOf us id
    × ((k : ℕ) → AreFreeOf ts k → AreFreeOf us k)

remove_all_users-AllFreed :
    (ts : List Table) (id : ℕ) → All IsTable ts → AllFreed ts id (remove_all_users ts id)
unfolding remove_all_users
remove_all_users-AllFreed [] id i = ([], refl, tt, tt, λ k f. tt)
remove_all_users-AllFreed (t ∷ ts) id i =
    let (u, s, o, w) = remove_users-Frees (length t.entries) t id i.0 (omega arith) in
    let (us, r, p, f, h) = remove_all_users-AllFreed ts id i.1 in
    let g = All-keep (λ e. uses_group id e ≡ false) in
    (
      u ∷ us,
      ground (arith, s, r),
      (o, p),
      (rw w (keep-free id t.entries), f),
      λ k q. (rw w (All-keep (λ e. uses_group k e ≡ false) (is_free_of id) t.entries q.0), h k q.1),
    )

delete_groups-empty :
    (ts : List Table) (gt : GroupTable) (gs : List Group)
    → All IsTable ts
    → All (λ g. g.attached ≡ true) gs
    → gt.groups ≡ gs
    → (us : List Table) × (new : GroupTable) × (delete_groups ts gt gs ≡ some (us, new))
      × (new.groups ≡ [])
      × All IsTable us
      × All (λ g. AreFreeOf us g.id) gs
      × ((k : ℕ) → AreFreeOf ts k → AreFreeOf us k)
unfolding delete_groups extract_group unlink_group
delete_groups-empty ts gt [] i a q = (ts, gt, refl, q, i, tt, λ k f. f)
delete_groups-empty ts gt (g ∷ gs) i (y, a) q =
    let (us, r, j, f, h) = remove_all_users-AllFreed ts g.id i in
    let next = (extract_group gt g).1 in
    let z : (g.addr == g.addr) ≡ true = (==_iff g.addr g.addr).1 refl in
    let w : next.groups ≡ gs = rw y (rw q (rw z refl)) in
    let (vs, new, s, e, k, m, l) = delete_groups-empty us next gs j a w in
    (vs, new, ground (arith, y, r, s), e, k, (l g.id f, m), λ n p. l n (h n p))

-- For flow tables in order and groups that are all attached, the deletion of all groups ends: it
-- leaves an empty group table, and the flow tables in order, with no entry that the search for
-- users would report for one of the groups.
pub group_delete-all :
    (ts : List Table) (gt : GroupTable)
    → All IsTable ts
    → All (λ g. g.attached ≡ true) gt.groups
    → (us : List Table) × (new : GroupTable) × (group_delete ts gt group_all ≡ some (us, new))
      × (new.groups ≡ [])
      × All IsTable us
      × All (λ g. AreFreeOf us g.id) gt.groups
unfolding group_delete
group_delete-all ts gt i a =
    let (us, new, s, e, k, m, _) = delete_groups-empty ts gt gt.groups i a refl in
    (us, new, s, e, k, m)
