-- ===== src/Switch/Tests.antt =====
-- Runs on a small switch.
use rofl_fork.Base.{
  ℕ, ◌+◌, zero, suc, ◌==◌, if◌then◌else◌, ◌≡◌, refl, true, List, [], ◌∷◌, none, some, All,
  RoflResult, success, failure, arith, inr, length,
}
use rofl_fork.Loop.Tests.{two_entries, two_entries-IsTable}
use rofl_fork.Group.{init_group_table}
use rofl_fork.Pipeline.{Pipeline}
use rofl_fork.Switch.{
  free_slot, first_slot, state_free, state_attached, LogicalPort, Port, Attachments,
  attach_port_to_switch, attach_port_to_switch_at_port_num, detach_all_ports_from_switch,
  of_reconfigure_switch,
}
use rofl_fork.Switch.Attach.{attach_at, perform, perform-ArePorts}
use rofl_fork.Switch.Ports.{AreSlots, ArePorts}
use rofl_fork.Switch.Reset.{IsReset, of_reconfigure_switch-IsReset}
use rofl_fork.Switch.Return.{IsReturned, attach-returns}
use rofl_fork.Switch.Retire.{detach_all-refuses}

abbrev free : LogicalPort
free = record { attachment_state = state_free; port = none }

abbrev frees : ℕ → List LogicalPort
frees zero = []
frees (suc n) = free ∷ frees n

-- A switch with the port at address 50 at number 1.
abbrev pub one_port : Attachments
one_port = record {
  addr = 900;
  of_ver = 3;
  num_of_ports = 1;
  logical_ports = free ∷ record { attachment_state = state_attached; port = some 50 } ∷ frees 127;
  store = λ a.
      if a == 50
      then record { of_port_num = 1; attached_sw = some 900 }
      else record { of_port_num = 0; attached_sw = none };
}

frees-AreSlots : (addr : ℕ) (store : ℕ → Port) (i n : ℕ) → AreSlots addr store i (frees n)
frees-AreSlots addr store i zero = tt
frees-AreSlots addr store i (suc n) = ((refl, tt), frees-AreSlots addr store (i + 1) n)

pub one_port-ArePorts : ArePorts one_port
one_port-ArePorts = record {
  slots = ((refl, tt), ((refl, (refl, refl)), frees-AreSlots 900 one_port.store 2 127));
  count = refl;
  size = refl;
}

perform-ArePorts_example :
    (s : RoflResult × Attachments) × (perform (attach_at 7 (some 60)) one_port ≡ some s)
    × ArePorts s.1
perform-ArePorts_example =
    perform-ArePorts (attach_at 7 (some 60)) one_port one_port-ArePorts (λ z. ground arith)

detach_all-refuses_example :
    ((attach_port_to_switch (detach_all_ports_from_switch one_port).1 (some 60)).0.0 ≡ failure)
    × (attach_port_to_switch_at_port_num (detach_all_ports_from_switch one_port).1 7 (some 60)
        ≡ some (failure, (detach_all_ports_from_switch one_port).1))
detach_all-refuses_example = detach_all-refuses one_port (some 60) 7 refl

abbrev of12 : Pipeline
of12 = record {
  of_ver = 3;
  num_of_buffers = 0;
  capabilities = 79;
  miss_send_len = 128;
  tables = two_entries ∷ [];
  groups = init_group_table;
}

of_reconfigure_switch-IsReset_example :
    (q : Pipeline) × (of_reconfigure_switch (some 9) true 0 of12 4 ≡ some (success, q))
    × (q.of_ver ≡ 4)
    × All (IsReset 4) q.tables
    × (length q.tables ≡ 1)
of_reconfigure_switch-IsReset_example =
    of_reconfigure_switch-IsReset 9 0 of12 4 (two_entries-IsTable, tt) (inr (inr refl))
      (ground arith)

attach-returns_example :
    (n : ℕ) × (w : Attachments) × (attach_port_to_switch one_port (some 60)
      ≡ ((success, some n), w))
    × IsReturned one_port n 60 w
unfolding free_slot first_slot
attach-returns_example = attach-returns one_port 60 one_port-ArePorts refl (λ q. ground arith)
