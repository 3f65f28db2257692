-- ===== src/Group/Invariant.antt =====
-- The invariant of the group table, and that additions and modifications keep it.
use rofl_fork.Base.{
  ℕ, ◌%◌, ◌^◌, ◌≡◌, ◌⊎◌, inl, inr, refl, false, List, [], ◌∷◌, ◌++◌, Option, none, some, All,
  length, length-append, find_first-none, Bool-cases, is_some, Option-cases, arith, All-append,
}
use rofl_fork.Group.{
  GmResult, ok, is_ok, append_group, check_group_parameters, new_group, init_group, group_add,
  group_modify, replace_buckets,
}
use rofl_fork.Group.Table.{BucketList, Group, GroupTable, GroupType, group_search, has_id}
use rofl_fork.Group.Parameters.{IsGroup, check-IsGroup, is_ok-ok}

-- No group has the identifier.
abbrev pub IsUnused : ℕ → List Group → Type 0
IsUnused id gs = All (λ g. has_id id g ≡ false) gs

-- The identifiers are distinct.
abbrev pub AreDistinct : List Group → Type 0
AreDistinct [] = Unit
AreDistinct (g ∷ gs) = IsUnused g.id gs × AreDistinct gs

pub record IsGroupTable (gt : GroupTable) : Type 0 where
  pub groups : All IsGroup gt.groups
  pub distinct : AreDistinct gt.groups
  pub count : gt.num_of_entries ≡ length gt.groups % 2 ^ 32

-- What an addition does: it fails and changes nothing, or it appends a well-formed group whose
-- identifier was unused.
unfoldable pub AddOutcome : GroupTable → GroupType → ℕ → BucketList → GmResult × GroupTable → Type 0
AddOutcome gt type id bl r =
    ((is_ok r.0 ≡ false) × (r.1 ≡ gt))
    ⊎ ((addr : ℕ) × (group_search gt id ≡ none)
        × ((check_group_parameters type id bl).0 ≡ ok)
        × (r
            ≡ (ok, append_group gt (new_group addr type id (check_group_parameters type id bl).1))))

pub group_add-AddOutcome :
    (addr : Option ℕ) (gt : GroupTable) (type : GroupType) (id : ℕ) (bl : BucketList)
    → AddOutcome gt type id bl (group_add addr gt type id bl)
unfolding AddOutcome group_add init_group
group_add-AddOutcome none gt type id bl = ground arith
group_add-AddOutcome (some a) gt type id bl = elim (Option-cases (group_search gt id)) [
  | inr (g, s) ↦ inl (ground arith, ground arith)
  | inl s ↦ elim (Bool-cases (is_ok (check_group_parameters type id bl).0)) [
    | inr n ↦ inl (ground arith, ground arith)
    | inl y ↦ inr (a, s, is_ok-ok _ y, ground arith)
  ]
]

append-AreDistinct :
    (g : Group) (gs : List Group) → AreDistinct gs → IsUnused g.id gs → AreDistinct (gs ++ g ∷ [])
append-AreDistinct g [] d u = (tt, tt)
append-AreDistinct g (h ∷ gs) (v, d) (n, u) = (
  All-append (λ x. has_id h.id x ≡ false) gs (g ∷ []) v (ground arith, tt),
  append-AreDistinct g gs d u,
)

-- An addition keeps the invariant of the group table, whatever it returns: the groups are well
-- formed, their identifiers are distinct, and the count is the number of groups.
pub group_add-IsGroupTable :
    (addr : Option ℕ) (gt : GroupTable) (type : GroupType) (id : ℕ) (bl : BucketList)
    → IsGroupTable gt
    → IsGroupTable (group_add addr gt type id bl).1
unfolding AddOutcome group_search
group_add-IsGroupTable addr gt type id bl i = elim (group_add-AddOutcome addr gt type id bl) [
  | inl (_, r) ↦ rw r i
  | inr (a, s, e, r) ↦
      let g = new_group a type id (check_group_parameters type id bl).1 in
      let u = (find_first-none (has_id id) gt.groups).0 s in
      let c = i.count in
      let l = length-append gt.groups (g ∷ []) in
      rw r (record {
        groups = All-append IsGroup gt.groups (g ∷ []) i.groups (check-IsGroup a type id bl e, tt);
        distinct = append-AreDistinct g gt.groups i.distinct u;
        count = omega arith;
      })
]

-- A modification of well-formed groups by a well-formed one.
module _ (id : ℕ) (type : GroupType) (bl : BucketList) where
  replace_buckets-IsGroup :
      (gs : List Group)
      → IsGroup (new_group 0 type id bl)
      → All IsGroup gs
      → All IsGroup (replace_buckets id type bl gs)
  unfolding replace_buckets
  replace_buckets-IsGroup [] n f = tt
  replace_buckets-IsGroup (g ∷ gs) n f = elim (Bool-cases (has_id id g)) [
    | inl y ↦
        rw y (
          record { unreserved = f.0.unreserved; supported = n.supported; buckets = n.buckets },
          f.1,
        )
    | inr m ↦ rw m (f.0, replace_buckets-IsGroup gs n f.1)
  ]

  replace_buckets-IsUnused :
      (gs : List Group) (k : ℕ) → IsUnused k gs → IsUnused k (replace_buckets id type bl gs)
  unfolding replace_buckets
  replace_buckets-IsUnused [] k u = tt
  replace_buckets-IsUnused (g ∷ gs) k u = elim (Bool-cases (has_id id g)) [
    | inl y ↦ rw y u
    | inr m ↦ rw m (u.0, replace_buckets-IsUnused gs k u.1)
  ]

  replace_buckets-AreDistinct :
      (gs : List Group) → AreDistinct gs → AreDistinct (replace_buckets id type bl gs)
  unfolding replace_buckets
  replace_buckets-AreDistinct [] d = tt
  replace_buckets-AreDistinct (g ∷ gs) d = elim (Bool-cases (has_id id g)) [
    | inl y ↦ rw y d
    | inr m ↦ rw m (replace_buckets-IsUnused gs g.id d.0, replace_buckets-AreDistinct gs d.1)
  ]

  length-replace_buckets : (gs : List Group) → length (replace_buckets id type bl gs) ≡ length gs
  unfolding replace_buckets
  length-replace_buckets [] = refl
  length-replace_buckets (g ∷ gs) = elim (Bool-cases (has_id id g)) [
    | inl y ↦ rw y
    | inr m ↦ rw m (omega (arith, length-replace_buckets gs))
  ]

-- A modification keeps the invariant of the group table, whatever it returns.
pub group_modify-IsGroupTable :
    (gt : GroupTable) (type : GroupType) (id : ℕ) (bl : BucketList)
    → IsGroupTable gt
    → IsGroupTable (group_modify gt type id bl).1
unfolding group_modify
group_modify-IsGroupTable gt type id bl i =
    elim (Bool-cases (is_ok (check_group_parameters type id bl).0)) [
      | inr n ↦ rw n i
      | inl y ↦ elim (Bool-cases (is_some (group_search gt id))) [
        | inr m ↦ rw y (rw m i)
        | inl s ↦
            let c = (check_group_parameters type id bl).1 in
            let l = length-replace_buckets id type c gt.groups in
            let w = check-IsGroup 0 type id bl (is_ok-ok _ y) in
            rw y (
              rw s (record {
                groups = replace_buckets-IsGroup id type c gt.groups w i.groups;
                distinct = replace_buckets-AreDistinct id type c gt.groups i.distinct;
                count = rw l i.count;
              }))
      ]
    ]
