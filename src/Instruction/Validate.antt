-- ===== src/Instruction/Validate.antt =====
-- __of1x_validate_instructions of of1x_instruction.c. An instruction whose kind needs a list or a set
-- of actions and has none makes the code read through NULL: the outcome is then `none`.
use rofl_fork.Base.{
  ℕ, ◌+◌, ◌%◌, ◌^◌, Bool, ◌||◌, List, [], ◌∷◌, Option, none, some, ltb, if◌then◌else◌, RoflResult,
  success, failure,
}
use rofl_fork.Match.{VerReq, of_version_12, of_version_13}
use rofl_fork.Action.Validate.{validate_action_group, validate_write_actions}
use rofl_fork.Group.Table.{GroupTable}
use rofl_fork.Instruction.{Instruction, InstructionGroup, InstructionType}

-- The version is outside the range.
abbrev pub outside : ℕ → VerReq → Bool
outside version r = ltb version r.min_ver || ltb r.max_ver version

-- The verdict on the actions, then that on the versions that they need.
abbrev and_within : ℕ → VerReq → RoflResult → RoflResult
and_within version r failure = failure
and_within version r success = if outside version r then failure else success

-- One slot after its turn: the verdict, and the outputs that it adds.
pub record SlotOutcome : Type 0 where
  pub result : RoflResult
  pub instruction : Instruction
  pub outputs : ℕ

abbrev since : ℕ → ℕ → Instruction → Option SlotOutcome
since first version i = some (record {
  result = if ltb version first then failure else success;
  instruction = i;
  outputs = 0;
})

unfoldable pub validate_slot : ℕ → Option GroupTable → Instruction → Option SlotOutcome
validate_slot version gt i = elim i.type [
  | InstructionType.no_instruction ↦ since 0 version i
  | InstructionType.apply_actions ↦ elim i.apply_actions [
    | none ↦ none
    | some g ↦
        let v = validate_action_group gt g in
        let h = v.1 in
        let verdict = and_within version h.ver_req v.0 in
        some (record {
          result = verdict;
          instruction = record i { apply_actions = some h };
          outputs = h.num_of_output_actions;
        })
  ]
  | InstructionType.write_actions ↦
      if ltb version of_version_12
      then some (record { result = failure; instruction = i; outputs = 0 })
      else elim i.write_actions [
        | none ↦ none
        | some w ↦
            let v = validate_write_actions gt w in
            let h = v.1 in
            let verdict = and_within version h.ver_req v.0 in
            some (record {
              result = verdict;
              instruction = record i { write_actions = some h };
              outputs = h.num_of_output_actions;
            })
      ]
  | InstructionType.goto_table ↦ since 0 version i
  | InstructionType.write_metadata ↦ since of_version_12 version i
  | InstructionType.clear_actions ↦ since of_version_12 version i
  | InstructionType.experimenter ↦ since of_version_12 version i
  | InstructionType.meter ↦ since of_version_13 version i
]

pub record SlotsOutcome : Type 0 where
  pub result : RoflResult
  pub instructions : List Instruction
  pub outputs : ℕ

-- The loop over the slots; the first that fails ends it.
unfoldable pub validate_slots : ℕ → Option GroupTable → List Instruction → ℕ → Option SlotsOutcome
validate_slots version gt [] n = some (record { result = success; instructions = []; outputs = n })
validate_slots version gt (i ∷ is) n = elim (validate_slot version gt i) [
  | none ↦ none
  | some o ↦ elim o.result [
    | failure ↦ some (record { result = failure; instructions = o.instruction ∷ is; outputs = n })
    | success ↦ elim (validate_slots version gt is ((n + o.outputs) % 2 ^ 32)) [
      | none ↦ none
      | some r ↦ some (record r { instructions = o.instruction ∷ r.instructions })
    ]
  ]
]

-- The number of outputs is stored only when all slots are valid.
unfoldable pub validate_instructions :
    ℕ → Option GroupTable → InstructionGroup → Option (RoflResult × InstructionGroup)
validate_instructions version gt g = elim (validate_slots version gt g.instructions 0) [
  | none ↦ none
  | some r ↦ elim r.result [
    | failure ↦ some (failure, record g { instructions = r.instructions })
    | success ↦
        some (success, record g { instructions = r.instructions; num_of_outputs = r.outputs })
  ]
]
