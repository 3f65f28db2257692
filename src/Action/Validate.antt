-- ===== src/Action/Validate.antt =====
-- The validation of lists and sets of actions in of1x_action.c: each group is looked up in the group
-- table, if there is one, and the outputs are counted on top of the count so far.
use rofl_fork.Base.{
  ℕ, ◌+◌, ◌%◌, ◌^◌, List, [], ◌∷◌, Option, none, some, if◌then◌else◌, RoflResult, success, failure,
}
use rofl_fork.Ternary.{u64}
use rofl_fork.Action.{Action, ActionGroup, WriteActions, is_action}
use rofl_fork.Action.Types.{ActionType}
use rofl_fork.Group.Table.{Group, GroupTable, group_search}

-- The outcome of one action: the outputs that it adds, or none when its group is missing.
pub record Outcome : Type 0 where
  pub action : Action
  pub outputs : Option ℕ

found : Action → Option Group → Outcome
found a none = record { action = record a { group = none }; outputs = none }
found a (some g) = record { action = record a { group = some g.addr }; outputs = some 2 }

unfoldable pub validate_action : Option GroupTable → Action → Outcome
unfolding found
validate_action none a = record {
  action = a;
  outputs = if is_action ActionType.output a then some 1 else some 0;
}
validate_action (some gt) a =
    if is_action ActionType.output a
    then record { action = a; outputs = some 1 }
    else if is_action ActionType.group a
    then found a (group_search gt (u64 a.field % 2 ^ 32))
    else record { action = a; outputs = some 0 }

pub record Validated : Type 0 where
  pub result : RoflResult
  pub actions : List Action
  pub outputs : ℕ

-- The loop over the actions; a missing group ends it.
unfoldable pub validate_actions : Option GroupTable → List Action → ℕ → Validated
unfolding validate_action
validate_actions gt [] n = record { result = success; actions = []; outputs = n }
validate_actions gt (a ∷ xs) n =
    let o = validate_action gt a in
    elim o.outputs [
      | none ↦ record { result = failure; actions = o.action ∷ xs; outputs = n }
      | some k ↦
          let rest = validate_actions gt xs ((n + k) % 2 ^ 32) in
          record rest { actions = o.action ∷ rest.actions }
    ]

unfoldable pub validate_action_group : Option GroupTable → ActionGroup → RoflResult × ActionGroup
unfolding validate_actions
validate_action_group gt g =
    let v = validate_actions gt g.actions g.num_of_output_actions in
    (v.result, record g { actions = v.actions; num_of_output_actions = v.outputs })

unfoldable pub validate_write_actions : Option GroupTable → WriteActions → RoflResult × WriteActions
unfolding validate_actions
validate_write_actions gt w =
    let v = validate_actions gt w.write_actions w.num_of_output_actions in
    (v.result, record w { write_actions = v.actions; num_of_output_actions = v.outputs })
