-- ===== src/Statistics/Flows.antt =====
-- What the messages of flow statistics report, where there is memory.
use rofl_fork.Base.{◌%◌, ◌^◌, ℕ, suc, ◌≡◌, ap, refl, List, [], ◌∷◌, map, Option, none, some}
use rofl_fork.Action.{Action, ActionGroup, WriteActions}
use rofl_fork.FlowEntry.{FlowEntry}
use rofl_fork.Instruction.{
  Instruction, InstructionType, no_instruction, apply_actions, clear_actions, write_actions,
  write_metadata, experimenter, goto_table, meter,
}
use rofl_fork.Ternary.{Raw}
use rofl_fork.Statistics.Copies.{
  Memory, Leftover, later, copy_matches, copy_actions, copy_action_group, copy_write_actions,
  copy_instruction, copy_slots, copy_instruction_group,
}
use rofl_fork.Statistics.Messages.{
  SingleFlow, stats_flow_get_duration, fill_single_flow, init_stats_single_flow_msg,
}

-- Every allocation succeeds.
abbrev pub IsPlentiful : Memory → Type 0
IsPlentiful m = (i : ℕ) → (raw : Raw) × (m i ≡ some raw)

-- The call gives a value, with plenty of memory left.
abbrev pub Gives : {A : Type 0} → A × Memory → A → Type 0
Gives r a = (m : Memory) × (r ≡ (a, m)) × IsPlentiful m

copy_actions-Gives :
    (xs : List Action) (m : Memory) → IsPlentiful m → Gives (copy_actions xs m) (some xs)
unfolding copy_actions
copy_actions-Gives [] m l = (m, refl, l)
copy_actions-Gives (x ∷ xs) m l =
    let (n, q, k) = copy_actions-Gives xs (later m) (λ i. l (suc i)) in
    (n, rw (copy_actions, (l 0).1, q) (ap (λ r. (some (x ∷ xs), r.1)) q), k)

-- An action list and its copy, whose required versions are what the memory had.
abbrev pub cloned_group : Leftover → ActionGroup → ActionGroup
cloned_group w g = record g { ver_req = w.ver_req }

abbrev pub cloned_option : Leftover → Option ActionGroup → Option ActionGroup
cloned_option w none = none
cloned_option w (some g) = some (cloned_group w g)

copy_action_group-Gives :
    (w : Leftover) (o : Option ActionGroup) (m : Memory)
    → IsPlentiful m
    → Gives (copy_action_group w o m) (cloned_option w o)
unfolding copy_action_group
copy_action_group-Gives w none m l = (m, refl, l)
copy_action_group-Gives w (some g) m l =
    let (n, q, k) = copy_actions-Gives g.actions (later m) (λ i. l (suc i)) in
    (n, rw (copy_action_group, (l 0).1, q) (ap (λ r. (some (cloned_group w g), r.1)) q), k)

copy_write_actions-Gives :
    (o : Option WriteActions) (m : Memory) → IsPlentiful m → Gives (copy_write_actions o m) o
unfolding copy_write_actions
copy_write_actions-Gives none m l = (m, refl, l)
copy_write_actions-Gives (some g) m l =
    (later m, rw (copy_write_actions, (l 0).1) refl, λ i. l (suc i))

-- An instruction and its copy: only the list to apply differs, in its required versions.
abbrev pub cloned : Leftover → Instruction → Instruction
cloned w i = elim i.type [
  | no_instruction ↦ i
  | clear_actions ↦ i
  | write_metadata ↦ i
  | experimenter ↦ i
  | goto_table ↦ i
  | meter ↦ i
  | apply_actions ↦ record i { apply_actions = cloned_option w i.apply_actions }
  | write_actions ↦ i
]

copy_as_kind :
    (t : InstructionType) (w : Leftover) (i : Instruction) (m : Memory)
    → IsPlentiful m
    → i.type ≡ t
    → Gives (copy_instruction w i m) (cloned w i)
unfolding copy_instruction
copy_as_kind no_instruction w i m l q = (m, rw q refl, l)
copy_as_kind clear_actions w i m l q = (m, rw q refl, l)
copy_as_kind write_metadata w i m l q = (m, rw q refl, l)
copy_as_kind experimenter w i m l q = (m, rw q refl, l)
copy_as_kind goto_table w i m l q = (m, rw q refl, l)
copy_as_kind meter w i m l q = (m, rw q refl, l)
copy_as_kind apply_actions w i m l q =
    let (n, e, k) = copy_action_group-Gives w i.apply_actions m l in (n, rw (q, e) refl, k)
copy_as_kind write_actions w i m l q =
    let (n, e, k) = copy_write_actions-Gives i.write_actions m l in (n, rw (q, e) refl, k)

copy_slots-Gives :
    (w : Leftover) (is : List Instruction) (m : Memory)
    → IsPlentiful m
    → Gives (copy_slots w is m) (map (cloned w) is)
unfolding copy_slots
copy_slots-Gives w [] m l = (m, refl, l)
copy_slots-Gives w (i ∷ is) m l =
    let (n, q, k) = copy_as_kind i.type w i m l refl in
    let (o, r, j) = copy_slots-Gives w is n k in (o, rw (q, r) refl, j)

-- What the message of an entry says of it.
abbrev pub single : Leftover → ℕ → FlowEntry → SingleFlow
single w now e = record {
  table_id = elim e.table [ none ↦ w.table_id | some t ↦ t % 2 ^ 8 ];
  priority = e.priority % 2 ^ 16;
  cookie = e.cookie;
  duration_sec = (stats_flow_get_duration now e).0;
  duration_nsec = (stats_flow_get_duration now e).1;
  idle_timeout = e.timer_info.idle_timeout % 2 ^ 16;
  hard_timeout = e.timer_info.hard_timeout % 2 ^ 16;
  packet_count = e.stats.packet_count;
  byte_count = e.stats.byte_count;
  matches = copy_matches w e.matches.elements;
  inst_grp = record {
    num_of_instructions = w.num_of_instructions;
    instructions = map (cloned w) e.inst_grp.instructions;
    num_of_outputs = w.num_of_outputs;
  };
}

pub init_stats_single_flow_msg-Gives :
    (w : Leftover) (now : ℕ) (e : FlowEntry) (m : Memory)
    → IsPlentiful m
    → Gives (init_stats_single_flow_msg w now e m) (some (single w now e))
unfolding init_stats_single_flow_msg fill_single_flow copy_instruction_group
init_stats_single_flow_msg-Gives w now e m l =
    let (n, q, k) =
      copy_slots-Gives w e.inst_grp.instructions (later (later m)) (λ i. l (suc (suc i))) in
    (
      n,
      rw (init_stats_single_flow_msg, (l 0).1, (l 1).1, fill_single_flow, copy_instruction_group, q)
          refl,
      k,
    )
