-- ===== src/FlowEntry/Validate.antt =====
-- __of1x_validate_flow_entry of of1x_flow_entry.c, for a pipeline of the given version and groups.
use rofl_fork.Base.{
  ℕ, ◌&&◌, not, Bool, false, bit_or, [], ◌∷◌, Option, none, some, ◌==◌, if◌then◌else◌, RoflResult,
  success, failure,
}
use rofl_fork.Match.{MatchGroup, of_version_10}
use rofl_fork.FlowEntry.{FlowEntry}
use rofl_fork.Group.Table.{GroupTable}
use rofl_fork.Instruction.Validate.{validate_instructions, outside}

abbrev pub of10_non_wildcarded_priority_flag : ℕ
of10_non_wildcarded_priority_flag = 0x10000

abbrev pub has_matches : MatchGroup → Bool
has_matches g = elim g.elements [ [] ↦ false | m ∷ ms ↦ not false ]

abbrev flag_priority : FlowEntry → FlowEntry
flag_priority e = record e { priority = bit_or e.priority of10_non_wildcarded_priority_flag }

-- The outcome is `none` where the code reads through NULL.
unfoldable pub validate_flow_entry :
    ℕ → Option GroupTable → FlowEntry → Option (RoflResult × FlowEntry)
validate_flow_entry version gt e =
    if has_matches e.matches && outside version e.matches.ver_req
    then some (failure, e)
    else elim (validate_instructions version gt e.inst_grp) [
      | none ↦ none
      | some r ↦
          let f = record e { inst_grp = r.1 } in
          elim r.0 [
            | failure ↦ some (failure, f)
            | success ↦
                if version == of_version_10 && has_matches e.matches && not e.matches.has_wildcard
                then some (success, flag_priority f)
                else some (success, f)
          ]
    ]
