-- ===== src/Statistics/Copies.antt =====
-- The copies of matches, actions and instructions for the messages of statistics: __of1x_copy_matches
-- (of1x_match.c), __of1x_copy_action_group and __of1x_copy_write_actions (of1x_action.c), and
-- __of1x_copy_instruction_group (of1x_instruction.c).
use rofl_fork.Base.{ℕ, suc, List, [], ◌∷◌, Option, none, some}
use rofl_fork.Ternary.{Raw, Block}
use rofl_fork.Match.{Match, VerReq}
use rofl_fork.Match.Copy.{copy_match}
use rofl_fork.Action.{Action, ActionGroup, WriteActions}
use rofl_fork.Instruction.{
  Instruction, InstructionGroup, no_instruction, apply_actions, clear_actions, write_actions,
  write_metadata, experimenter, goto_table, meter,
}

-- What platform_malloc_shared gives from now on, the blocks of matches aside.
abbrev pub Memory : Type 0
Memory = ℕ → Block

-- What is in new blocks that are not cleared; `block` is for the copy of a match.
pub record Leftover : Type 0 where
  pub block : Match → Raw
  pub ver_req : VerReq
  pub table_id : ℕ
  pub num_of_instructions : ℕ
  pub num_of_outputs : ℕ

abbrev pub later : Memory → Memory
later m i = m (suc i)

-- The constructors of matches do not ask whether there is memory, so none of them gives NULL.
unfoldable pub copy_matches : Leftover → List Match → List Match
copy_matches w [] = []
copy_matches w (x ∷ xs) = copy_match (w.block x) x ∷ copy_matches w xs

-- The list up to a failure is lost.
unfoldable pub copy_actions : List Action → Memory → Option (List Action) × Memory
copy_actions [] m = (some [], m)
copy_actions (x ∷ xs) m =
    let rest = copy_actions xs (later m) in
    elim (m 0) [
      | none ↦ (none, later m)
      | some raw ↦ elim rest.0 [ none ↦ rest | some ys ↦ (some (x ∷ ys), rest.1) ]
    ]

-- The required versions of a list are not copied.
unfoldable pub copy_action_group :
    Leftover → Option ActionGroup → Memory → Option ActionGroup × Memory
unfolding copy_actions
copy_action_group w none m = (none, m)
copy_action_group w (some g) m = elim (m 0) [
  | none ↦ (none, later m)
  | some raw ↦
      let r = copy_actions g.actions (later m) in
      elim r.0 [
        | none ↦ (none, r.1)
        | some xs ↦ (some (record g { actions = xs; ver_req = w.ver_req }), r.1)
      ]
]

unfoldable pub copy_write_actions : Option WriteActions → Memory → Option WriteActions × Memory
copy_write_actions none m = (none, m)
copy_write_actions (some g) m = elim (m 0) [ none ↦ (none, later m) | some raw ↦ (some g, later m) ]

unfoldable pub copy_instruction : Leftover → Instruction → Memory → Instruction × Memory
unfolding copy_action_group copy_write_actions
copy_instruction w i m = elim i.type [
  | no_instruction ↦ (i, m)
  | clear_actions ↦ (i, m)
  | write_metadata ↦ (i, m)
  | experimenter ↦ (i, m)
  | goto_table ↦ (i, m)
  | meter ↦ (i, m)
  | apply_actions ↦
      let r = copy_action_group w i.apply_actions m in (record i { apply_actions = r.0 }, r.1)
  | write_actions ↦
      let r = copy_write_actions i.write_actions m in (record i { write_actions = r.0 }, r.1)
]

unfoldable pub copy_slots : Leftover → List Instruction → Memory → List Instruction × Memory
unfolding copy_instruction
copy_slots w [] m = ([], m)
copy_slots w (i ∷ is) m =
    let r = copy_instruction w i m in let rest = copy_slots w is r.1 in (r.0 ∷ rest.0, rest.1)

-- The counts of the new group are not set.
unfoldable pub copy_instruction_group :
    Leftover → InstructionGroup → Memory → InstructionGroup × Memory
unfolding copy_slots
copy_instruction_group w g m =
    let r = copy_slots w g.instructions m in
    (
      record {
        num_of_instructions = w.num_of_instructions;
        instructions = r.0;
        num_of_outputs = w.num_of_outputs;
      },
      r.1,
    )
