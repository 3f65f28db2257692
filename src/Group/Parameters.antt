-- ===== src/Group/Parameters.antt =====
-- The parameters of a group that of1x_group_table.c accepts, and what they say of the group.
use rofl_fork.Base.{
  ℕ, ◌+◌, ◌%◌, ◌^◌, ◌≡◌, ◌≤◌, ◌⊎◌, inl, inr, refl, true, false, not, any, ◌&&◌, List, [], ◌∷◌, none,
  ◌==◌, All, Bool-cases, arith,
}
use rofl_fork.Action.{Action, ActionGroup, is_action}
use rofl_fork.Action.Types.{ActionType}
use rofl_fork.Action.Validate.{validate_action, validate_actions, validate_action_group}
use rofl_fork.Group.{
  GmResult, ok, is_ok, check_actions, validate_group, validate_buckets, check_type, is_reserved,
  port_table, check_group_parameters, new_group, bucket_list_has_weights,
}
use rofl_fork.Group.Table.{Bucket, BucketList, Group, GroupType}
use rofl_fork.Ternary.{u64}

-- The action neither names a group nor sends the packet back to the tables.
abbrev pub IsPlain : Action → Type 0
IsPlain a =
    (is_action ActionType.group a ≡ false)
    × ((is_action ActionType.output a && u64 a.field == port_table) ≡ false)

-- A bucket without a weight, of plain actions.
abbrev pub IsBucket : Bucket → Type 0
IsBucket b = (b.weight ≡ 0) × All IsPlain b.actions.actions

-- The type is supported: all, or indirect with at most one bucket.
abbrev pub IsSupported : GroupType → BucketList → Type 0
IsSupported type bl =
    (type ≡ GroupType.all) ⊎ ((type ≡ GroupType.indirect) × (bl.num_of_buckets ≤ 1))

pub record IsGroup (g : Group) : Type 0 where
  pub unreserved : is_reserved g.id ≡ false
  pub supported : IsSupported g.type g.bc_list
  pub buckets : All IsBucket g.bc_list.buckets

check_actions-IsPlain : (xs : List Action) → check_actions xs ≡ ok → All IsPlain xs
unfolding check_actions
check_actions-IsPlain [] e = tt
check_actions-IsPlain (a ∷ xs) e = elim (Bool-cases (is_action ActionType.group a)) [
  | inl y ↦ ground arith
  | inr n ↦ elim (Bool-cases (is_action ActionType.output a && u64 a.field == port_table)) [
    | inl y ↦ ground arith
    | inr m ↦ ((n, m), check_actions-IsPlain xs (ground arith))
  ]
]

-- Without a group table, the validation changes no action.
validate_actions-none : (xs : List Action) (n : ℕ) → (validate_actions none xs n).actions ≡ xs
unfolding validate_actions validate_action
validate_actions-none [] n = refl
validate_actions-none (a ∷ xs) n = elim (Bool-cases (is_action ActionType.output a)) [
  | inl y ↦ ground (arith, validate_actions-none xs ((n + 1) % 2 ^ 32))
  | inr m ↦ ground (arith, validate_actions-none xs ((n + 0) % 2 ^ 32))
]

pub is_ok-ok : (r : GmResult) → is_ok r ≡ true → r ≡ ok
is_ok-ok r e = ground arith

validate_group-IsPlain :
    (g : ActionGroup) → (validate_group g).0 ≡ ok → All IsPlain (validate_group g).1.actions
unfolding validate_group validate_action_group
validate_group-IsPlain g e = elim (Bool-cases (is_ok (check_actions g.actions))) [
  | inl y ↦ rw y (
      rw (validate_actions-none g.actions g.num_of_output_actions)
        (check_actions-IsPlain g.actions (is_ok-ok _ y)))
  | inr n ↦ ground arith
]

validate_buckets-IsPlain :
    (bs : List Bucket)
    → (validate_buckets bs).0 ≡ ok
    → All (λ b. All IsPlain b.actions.actions) (validate_buckets bs).1
unfolding validate_buckets
validate_buckets-IsPlain [] e = tt
validate_buckets-IsPlain (b ∷ bs) e = elim (Bool-cases (is_ok (validate_group b.actions).0)) [
  | inl y ↦
      rw y (
        validate_group-IsPlain b.actions (is_ok-ok _ y),
        validate_buckets-IsPlain bs (ground arith),
      )
  | inr n ↦ ground arith
]

-- The verdict on the type says that it is supported and that no bucket has a weight.
check_type-IsSupported :
    (type : GroupType) (bl : BucketList)
    → check_type type bl ≡ ok
    → IsSupported type bl × (bucket_list_has_weights bl ≡ false)
unfolding check_type
check_type-IsSupported GroupType.select bl e = ground arith
check_type-IsSupported GroupType.ff bl e = ground arith
check_type-IsSupported GroupType.indirect bl e = (inr (refl, ground arith), ground arith)
check_type-IsSupported GroupType.all bl e = (inl refl, ground arith)

no_weights :
    (bs : List Bucket) → any (λ b. not (b.weight == 0)) bs ≡ false → All (λ b. b.weight ≡ 0) bs
no_weights [] e = tt
no_weights (b ∷ bs) e = (ground arith, no_weights bs (ground arith))

both :
    (bs : List Bucket)
    → All (λ b. b.weight ≡ 0) bs
    → All (λ b. All IsPlain b.actions.actions) bs
    → All IsBucket bs
both [] f g = tt
both (b ∷ bs) f g = ((f.0, g.0), both bs f.1 g.1)

-- Parameters that are accepted make a well-formed group.
pub check-IsGroup :
    (addr : ℕ) (type : GroupType) (id : ℕ) (bl : BucketList)
    → (check_group_parameters type id bl).0 ≡ ok
    → IsGroup (new_group addr type id (check_group_parameters type id bl).1)
unfolding check_group_parameters bucket_list_has_weights
check-IsGroup addr type id bl e = elim (Bool-cases (is_reserved id)) [
  | inl y ↦ ground arith
  | inr n ↦ elim (Bool-cases (is_ok (validate_buckets bl.buckets).0)) [
    | inr m ↦ ground arith
    | inl y ↦
        let c = record bl { buckets = (validate_buckets bl.buckets).1 } in
        let t = check_type-IsSupported type c (ground arith) in
        let p = validate_buckets-IsPlain bl.buckets (is_ok-ok _ y) in
        rw n
          (rw y (record { unreserved = n; supported = t.0; buckets = both _ (no_weights _ t.1) p }))
  ]
]
