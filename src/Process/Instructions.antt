-- ===== src/Process/Instructions.antt =====
-- of1x_instruction.c: __of1x_process_instructions.
use rofl_fork.Action.{update_packet_write_actions, clear_write_actions}
use rofl_fork.Base.{
  ◌>>=◌, ℕ, ◌-◌, ◌^◌, bit_and, bit_or, Bool, List, [], ◌∷◌, Option, some, if◌then◌else◌,
}
use rofl_fork.Instruction.{
  Instruction, InstructionGroup, is_instruction, InstructionType, WriteMetadata,
  process_instructions_must_replicate,
}
use rofl_fork.Packet.{Platform}
use rofl_fork.Process.{Run, Switch, on_packet, process_apply_actions}

-- The new metadata of a packet. The code puts an `and` where the specification has an `or`.
unfoldable pub write_metadata : WriteMetadata → ℕ → ℕ
write_metadata w metadata =
    bit_and (bit_or metadata (2 ^ 64 - 1 - w.metadata_mask)) (bit_and w.metadata w.metadata_mask)

module _ {D : Type 0} (platform : Platform D) (sw : Switch) (table_id : ℕ) where
  -- The instruction of a slot; GOTO_TABLE ends the loop before this.
  unfoldable pub process_instruction : Bool → Instruction → InstructionType → Run D → Option (Run D)
  unfolding process_apply_actions write_metadata clear_write_actions update_packet_write_actions
  process_instruction replicate i InstructionType.apply_actions r = do
    g ← i.apply_actions
    process_apply_actions platform sw table_id g.actions replicate r
  process_instruction replicate i InstructionType.clear_actions r =
      some (on_packet (λ pkt. record pkt { write_actions = clear_write_actions }) r)
  process_instruction replicate i InstructionType.write_actions r = some (
      on_packet
        (λ pkt. record pkt {
          write_actions = update_packet_write_actions pkt.write_actions i.write_actions;
        })
        r)
  process_instruction replicate i InstructionType.write_metadata r = some (
      on_packet
        (λ pkt. record pkt {
          matches = record pkt.matches {
            metadata = write_metadata i.write_metadata pkt.matches.metadata;
          };
        })
        r)
  process_instruction replicate i type r = some r

  -- The table to go to, 0 if there is none.
  unfoldable pub process_instruction_slots : Bool → List Instruction → Run D → Option (ℕ × Run D)
  unfolding process_instruction
  process_instruction_slots replicate [] r = some (0, r)
  process_instruction_slots replicate (i ∷ is) r =
      if is_instruction InstructionType.goto_table i
      then some (i.go_to_table, r)
      else do s ← process_instruction replicate i i.type r; process_instruction_slots replicate is s

  unfoldable pub process_instructions : InstructionGroup → Run D → Option (ℕ × Run D)
  unfolding process_instruction_slots process_instructions_must_replicate
  process_instructions g r =
      process_instruction_slots (process_instructions_must_replicate g) g.instructions r
