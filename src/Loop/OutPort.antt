-- ===== src/Loop/OutPort.antt =====
-- What of1x_flow_entry.c makes of the output port in a strict comparison: it reads the slots at the
-- numbers of the kinds of instructions and not at the indices, so it looks for actions where there
-- are none.
use rofl_fork.Base.{
  ℕ, ◌≡◌, ◌≢◌, refl, Bool, true, false, none, some, All, All_map, All_middle, inl, inr, success,
  arith,
}
use rofl_fork.Action.{write_actions_has, apply_actions_has}
use rofl_fork.Action.Types.{ActionType}
use rofl_fork.FlowEntry.{
  FlowEntry, RemoveReason, flow_entry_check_equal, meets_out, has_at_code, port_any,
}
use rofl_fork.Instruction.{InstructionGroup, instruction_at}
use rofl_fork.Loop.{Table, remove_flow_entry_loop, strict}
use rofl_fork.Loop.Invariant.{IsTable}
use rofl_fork.Loop.Remove.{remove_strict-Leaves}

-- The slots of WRITE_METADATA and CLEAR_ACTIONS have no actions.
abbrev pub IsSlotted : InstructionGroup → Type 0
IsSlotted g =
    ((instruction_at g.instructions 3).write_actions ≡ none)
    × ((instruction_at g.instructions 1).apply_actions ≡ none)

has_at_code-none :
    (g : InstructionGroup) (type : ActionType) (value : ℕ)
    → IsSlotted g
    → has_at_code g type value ≡ false
unfolding has_at_code write_actions_has apply_actions_has
has_at_code-none g type value (w, a) = rw w (rw a refl)

-- A strict comparison that names an output port fails, whatever the actions of the entry are.
check_equal-out_port :
    (original e : FlowEntry) (out_port out_group : ℕ) (check_cookie : Bool)
    → IsSlotted original.inst_grp
    → out_port ≢ port_any
    → flow_entry_check_equal original e out_port out_group check_cookie ≡ false
unfolding flow_entry_check_equal meets_out
check_equal-out_port original e out_port out_group check_cookie s p =
    let h = has_at_code-none original.inst_grp ActionType.output out_port s in ground (arith, h)

-- A strict removal that names an output port removes nothing from a table in order whose entries
-- have no write actions in the slot of WRITE_METADATA and no apply actions in that of
-- CLEAR_ACTIONS.
pub remove_strict-out_port :
    (t : Table) (e : FlowEntry) (out_port out_group : ℕ) (cause : RemoveReason)
    → IsTable t
    → All (λ it. IsSlotted it.inst_grp) t.entries
    → out_port ≢ port_any
    → remove_flow_entry_loop t (some e) none strict out_port out_group cause ≡ (success, t)
remove_strict-out_port t e out_port out_group cause i s p =
    let f =
      All_map
        (λ it (h : IsSlotted it.inst_grp). check_equal-out_port it e out_port out_group true h p)
        t.entries s in
    elim (remove_strict-Leaves t e out_port out_group cause i) [
      | inl (_, r) ↦ r
      | inr (it, at, _) ↦
          let z =
            All_middle (λ x. flow_entry_check_equal x e out_port out_group true ≡ false) at.0 it
              at.1 (rw (at.2) at f) in
          ground (arith, z, at.4)
    ]
