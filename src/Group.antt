-- ===== src/Group.antt =====
-- of1x_group_table.c: the table of groups, a list with the oldest group first. An operation runs
-- under the lock of the table. The address of a new group is what the allocation gives, or none.
pub mod Table
pub mod Parameters
pub mod Invariant
pub mod Search
pub mod Tests
use rofl_fork.Base.{
  ℕ, ◌+◌, ◌%◌, ◌^◌, Bool, true, false, ◌&&◌, ◌||◌, not, List, [], ◌∷◌, ◌++◌, Option, none, some,
  ltb, ◌==◌, if◌then◌else◌, any, is_some,
}
use rofl_fork.Action.{Action, ActionGroup, is_action}
use rofl_fork.Action.Types.{ActionType}
use rofl_fork.Action.Validate.{validate_action_group}
use rofl_fork.Ternary.{u64}
use Table.{
  Bucket, BucketList, Group, GroupTable, GroupType, group_search, group_max, group_all, group_any,
  has_id,
}

-- rofl_of1x_gm_result_t, the results that the code returns.
pub data GmResult : Type 0 where
  ok exists inval ogrups chain unkgrp : GmResult

abbrev pub is_ok : GmResult → Bool
is_ok ok = true
is_ok exists = false
is_ok inval = false
is_ok ogrups = false
is_ok chain = false
is_ok unkgrp = false

unfoldable pub init_group_table : GroupTable
init_group_table = record { groups = []; num_of_entries = 0 }

unfoldable pub init_bucket_list : BucketList
init_bucket_list = record { buckets = []; num_of_buckets = 0 }

unfoldable pub insert_bucket_in_list : BucketList → Bucket → BucketList
insert_bucket_in_list bl b = record {
  buckets = bl.buckets ++ b ∷ [];
  num_of_buckets = (bl.num_of_buckets + 1) % 2 ^ 32;
}

unfoldable pub init_bucket : ℕ → ℕ → ℕ → ActionGroup → Bucket
init_bucket weight port group actions = record {
  weight = weight;
  port = port;
  group = group;
  actions = actions;
  packet_count = 0;
  byte_count = 0;
}

-- OF1X_PORT_TABLE.
abbrev pub port_table : ℕ
port_table = 0xfffffff9

-- The loop of __of1x_validate_group.
unfoldable pub check_actions : List Action → GmResult
check_actions [] = ok
check_actions (a ∷ xs) =
    let rest = check_actions xs in
    if is_action ActionType.group a
    then chain
    else if is_action ActionType.output a && u64 a.field == port_table
    then inval
    else rest

-- The outputs of a list that passes are counted.
unfoldable pub validate_group : ActionGroup → GmResult × ActionGroup
unfolding check_actions
validate_group g =
    let r = check_actions g.actions in
    if is_ok r then (ok, (validate_action_group none g).1) else (r, g)

unfoldable pub validate_buckets : List Bucket → GmResult × List Bucket
unfolding validate_group
validate_buckets [] = (ok, [])
validate_buckets (b ∷ bs) =
    let v = validate_group b.actions in
    let rest = validate_buckets bs in
    let c = record b { actions = v.1 } in if is_ok v.0 then (rest.0, c ∷ rest.1) else (v.0, c ∷ bs)

unfoldable pub bucket_list_has_weights : BucketList → Bool
bucket_list_has_weights bl = any (λ b. not (b.weight == 0)) bl.buckets

-- The tests on the type of the group, of which only two are supported.
unfoldable pub check_type : GroupType → BucketList → GmResult
unfolding bucket_list_has_weights
check_type GroupType.select bl = inval
check_type GroupType.ff bl = inval
check_type GroupType.indirect bl =
    if ltb 1 bl.num_of_buckets then inval else if bucket_list_has_weights bl then inval else ok
check_type GroupType.all bl = if bucket_list_has_weights bl then inval else ok

abbrev pub is_reserved : ℕ → Bool
is_reserved id = id == group_all || id == group_any || ltb group_max id

-- The verdict, and the buckets with the outputs of their actions counted so far.
unfoldable pub check_group_parameters : GroupType → ℕ → BucketList → GmResult × BucketList
unfolding validate_buckets check_type
check_group_parameters type id bl =
    if is_reserved id
    then (inval, bl)
    else (let v = validate_buckets bl.buckets in
        let c = record bl { buckets = v.1 } in
        if is_ok v.0 then (check_type type c, c) else (v.0, c))

unfoldable pub count_outputs : List Bucket → ℕ
count_outputs [] = 0
count_outputs (b ∷ bs) = (b.actions.num_of_output_actions + count_outputs bs) % 2 ^ 32

abbrev pub new_group : ℕ → GroupType → ℕ → BucketList → Group
new_group addr type id bl = record {
  addr = addr;
  id = id;
  type = type;
  packet_count = 0;
  byte_count = 0;
  ref_count = 0;
  bc_list = bl;
  attached = true;
  num_of_output_actions = count_outputs bl.buckets;
}

abbrev pub append_group : GroupTable → Group → GroupTable
append_group gt g = record {
  groups = gt.groups ++ g ∷ [];
  num_of_entries = (gt.num_of_entries + 1) % 2 ^ 32;
}

-- The new group goes to the end.
unfoldable pub init_group :
    Option ℕ → GroupTable → GroupType → ℕ → BucketList → GmResult × GroupTable
unfolding check_group_parameters count_outputs
init_group none gt type id bl = (ogrups, gt)
init_group (some addr) gt type id bl =
    let v = check_group_parameters type id bl in
    if is_ok v.0 then (ok, append_group gt (new_group addr type id v.1)) else (v.0, gt)

unfoldable pub group_add :
    Option ℕ → GroupTable → GroupType → ℕ → BucketList → GmResult × GroupTable
unfolding init_group
group_add addr gt type id bl = elim (group_search gt id) [
  | some g ↦ (exists, gt)
  | none ↦ init_group addr gt type id bl
]

-- The first group with the identifier gets the type and the buckets.
unfoldable pub replace_buckets : ℕ → GroupType → BucketList → List Group → List Group
replace_buckets id type bl [] = []
replace_buckets id type bl (g ∷ gs) =
    let rest = replace_buckets id type bl gs in
    if has_id id g then record g { bc_list = bl; type = type; attached = true } ∷ gs else g ∷ rest

-- The counted outputs of the group stay as they were.
unfoldable pub group_modify : GroupTable → GroupType → ℕ → BucketList → GmResult × GroupTable
unfolding check_group_parameters replace_buckets
group_modify gt type id bl =
    let v = check_group_parameters type id bl in
    let modified = record gt { groups = replace_buckets id type v.1 gt.groups } in
    if not (is_ok v.0)
    then (v.0, gt)
    else if is_some (group_search gt id)
    then (ok, modified)
    else (unkgrp, gt)
