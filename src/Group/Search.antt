-- ===== src/Group/Search.antt =====
-- What a search in the group table finds after an operation of of1x_group_table.c.
use rofl_fork.Base.{
  ℕ, ◌≡◌, ◌≢◌, ◌↔◌, ◌⊎◌, refl, ap, ◌∙◌, Bool, true, false, List, [], ◌∷◌, ◌++◌, Option, none, some,
  is_some, find_first, Bool-cases, Option-cases, inl, inr, arith, if◌then◌else◌,
}
use rofl_fork.Action.{Action}
use rofl_fork.Group.{
  GmResult, ok, exists, is_ok, new_group, group_add, group_modify, replace_buckets,
  check_group_parameters, init_group, check_actions, validate_buckets, validate_group, check_type,
}
use rofl_fork.Group.Invariant.{AddOutcome, group_add-AddOutcome}
use rofl_fork.Group.Table.{Bucket, BucketList, Group, GroupTable, GroupType, group_search, has_id}

find_first-append :
    (p : Group → Bool) (gs : List Group) (g : Group)
    → find_first p gs ≡ none
    → find_first p (gs ++ g ∷ []) ≡ (if p g then some g else none)
unfolding find_first
find_first-append p [] g n = refl
find_first-append p (h ∷ gs) g n = elim (Bool-cases (p h)) [
  | inl y ↦ ground arith
  | inr m ↦ rw m (find_first-append p gs g (ground arith))
]

find_first-append_other :
    (p : Group → Bool) (gs : List Group) (g : Group)
    → p g ≡ false
    → find_first p (gs ++ g ∷ []) ≡ find_first p gs
unfolding find_first
find_first-append_other p [] g n = rw n
find_first-append_other p (h ∷ gs) g n =
    ap (λ o. if p h then some h else o) (find_first-append_other p gs g n)

-- After an addition that returns OK, the search finds the new group by its identifier, with its type
-- and with its buckets as the check of the parameters leaves them, and every other identifier finds
-- what it found before.
pub group_add-search :
    (addr : Option ℕ) (gt : GroupTable) (type : GroupType) (id : ℕ) (bl : BucketList)
    → (group_add addr gt type id bl).0 ≡ ok
    → ((g : Group) × (group_search (group_add addr gt type id bl).1 id ≡ some g)
        × (g.id ≡ id)
        × (g.type ≡ type)
        × (g.bc_list ≡ (check_group_parameters type id bl).1))
      × ((k : ℕ) → k ≢ id → group_search (group_add addr gt type id bl).1 k ≡ group_search gt k)
unfolding AddOutcome group_search
group_add-search addr gt type id bl y = elim (group_add-AddOutcome addr gt type id bl) [
  | inl (n, _) ↦ ground (arith, n, y)
  | inr (a, s, e, r) ↦
      let g = new_group a type id (check_group_parameters type id bl).1 in
      let t : has_id id g ≡ true = ground arith in
      (
        (g, rw r (find_first-append (has_id id) gt.groups g s ∙ (rw t)), refl, refl, refl),
        λ k d.
            let f : has_id k g ≡ false = ground arith in
            rw r (find_first-append_other (has_id k) gt.groups g f),
      )
]

check_actions_not_exists : (xs : List Action) → check_actions xs ≢ exists
unfolding check_actions
check_actions_not_exists [] = ground arith
check_actions_not_exists (a ∷ xs) = ground (arith, check_actions_not_exists xs)

validate_buckets_not_exists : (bs : List Bucket) → (validate_buckets bs).0 ≢ exists
unfolding validate_buckets validate_group
validate_buckets_not_exists [] = ground arith
validate_buckets_not_exists (b ∷ bs) =
    ground (arith, validate_buckets_not_exists bs, check_actions_not_exists b.actions.actions)

check_type_not_exists : (type : GroupType) (bl : BucketList) → check_type type bl ≢ exists
unfolding check_type
check_type_not_exists GroupType.all bl = ground arith
check_type_not_exists GroupType.select bl = ground arith
check_type_not_exists GroupType.indirect bl = ground arith
check_type_not_exists GroupType.ff bl = ground arith

check_group_parameters_not_exists :
    (type : GroupType) (id : ℕ) (bl : BucketList) → (check_group_parameters type id bl).0 ≢ exists
unfolding check_group_parameters
check_group_parameters_not_exists type id bl =
    let v = validate_buckets bl.buckets in
    ground (
      arith,
      validate_buckets_not_exists bl.buckets,
      check_type_not_exists type (record bl { buckets = v.1 }),
    )

-- Where the memory for a group is given, an addition returns EXISTS exactly when the table has a group
-- with the identifier.
pub group_add-exists :
    (addr : ℕ) (gt : GroupTable) (type : GroupType) (id : ℕ) (bl : BucketList)
    → ((group_add (some addr) gt type id bl).0 ≡ exists) ↔ (is_some (group_search gt id) ≡ true)
unfolding group_add init_group
group_add-exists addr gt type id bl = elim (Option-cases (group_search gt id)) [
  | inl n ↦
      let c = check_group_parameters_not_exists type id bl in (λ e. ground arith, λ e. ground arith)
  | inr (g, s) ↦ (λ _. ground arith, λ _. ground arith)
]

module _ (id k : ℕ) (type : GroupType) (bl : BucketList) where
  find_first-replace_buckets_other :
      (gs : List Group)
      → k ≢ id
      → find_first (has_id k) (replace_buckets id type bl gs) ≡ find_first (has_id k) gs
  unfolding find_first replace_buckets
  find_first-replace_buckets_other [] d = refl
  find_first-replace_buckets_other (g ∷ gs) d = elim (Bool-cases (has_id id g)) [
    | inl y ↦ let n : has_id k g ≡ false = ground arith in rw y (rw n)
    | inr m ↦
        rw m (ap (λ o. if has_id k g then some g else o) (find_first-replace_buckets_other gs d))
  ]

module _ (id : ℕ) (type : GroupType) (bl : BucketList) where
  find_first-replace_buckets :
      (gs : List Group) (g : Group)
      → find_first (has_id id) gs ≡ some g
      → find_first (has_id id) (replace_buckets id type bl gs)
        ≡ some (record g { bc_list = bl; type = type; attached = true })
  unfolding find_first replace_buckets
  find_first-replace_buckets [] g f = ground arith
  find_first-replace_buckets (h ∷ gs) g f = elim (Bool-cases (has_id id h)) [
    | inl y ↦ let q : h ≡ g = cc in rw y (rw q (rw (rw q at y)))
    | inr m ↦ rw m (rw m (find_first-replace_buckets gs g (ground arith)))
  ]

-- What a modification does: it fails and changes nothing, or it changes the group that is found.
unfoldable pub ModifyOutcome :
    GroupTable → GroupType → ℕ → BucketList → GmResult × GroupTable → Type 0
ModifyOutcome gt type id bl r =
    ((is_ok r.0 ≡ false) × (r.1 ≡ gt))
    ⊎ ((g : Group) × (group_search gt id ≡ some g)
        × (r ≡ (
          ok,
          record gt {
            groups = replace_buckets id type (check_group_parameters type id bl).1 gt.groups;
          },
        )))

group_modify-ModifyOutcome :
    (gt : GroupTable) (type : GroupType) (id : ℕ) (bl : BucketList)
    → ModifyOutcome gt type id bl (group_modify gt type id bl)
unfolding ModifyOutcome group_modify
group_modify-ModifyOutcome gt type id bl =
    elim (Bool-cases (is_ok (check_group_parameters type id bl).0)) [
      | inr n ↦ inl (ground arith, ground arith)
      | inl p ↦ elim (Option-cases (group_search gt id)) [
        | inl n ↦ inl (ground arith, ground arith)
        | inr (g, s) ↦ inr (g, s, ground arith)
      ]
    ]

-- After a modification that returns OK, the search finds the old group with the new type and the new
-- buckets as the check leaves them, and every other identifier finds what it found before.
pub group_modify-search :
    (gt : GroupTable) (type : GroupType) (id : ℕ) (bl : BucketList)
    → (group_modify gt type id bl).0 ≡ ok
    → ((g : Group) × (group_search gt id ≡ some g)
        × (group_search (group_modify gt type id bl).1 id
            ≡ some (record g {
              bc_list = (check_group_parameters type id bl).1;
              type = type;
              attached = true;
            })))
      × ((k : ℕ) → k ≢ id → group_search (group_modify gt type id bl).1 k ≡ group_search gt k)
unfolding ModifyOutcome group_search
group_modify-search gt type id bl y = elim (group_modify-ModifyOutcome gt type id bl) [
  | inl (n, _) ↦ ground (arith, n, y)
  | inr (g, s, r) ↦
      let c = (check_group_parameters type id bl).1 in
      (
        (g, s, rw r (find_first-replace_buckets id type c gt.groups g s)),
        λ k d. rw r (find_first-replace_buckets_other id k type c gt.groups d),
      )
]
