-- ===== src/Physical/Tests.antt =====
-- Runs of the physical switch with two ports and a logical switch.
use rofl_fork.Base.{
  RoflResult, success, failure, ℕ, List, true, false, ◌≡◌, refl, [], ◌∷◌, none, some, if◌then◌else◌,
}
use rofl_fork.Physical.{
  SystemPort, Instance, PhysicalSwitch, physical, virtual, place_port, max_len_name, same_up_to,
  is_named, add_port, physical_switch_init, remove_port, get_port_by_name, find_in, put_in,
  clear_in, empty_array,
}
use rofl_fork.Physical.Invariant.{IsPhysical}
use rofl_fork.Physical.Lookup.{add_port-get, remove_port-get}
use rofl_fork.Physical.Manage.{
  new_port, drop_port, new_switch, drop_switch, manage_all, reachable-IsPhysical,
}
use rofl_fork.Physical.Port.{SwitchPort, QueueRequest, switch_port_init}
use rofl_fork.Physical.Queues.{
  Call, add_queue, remove_queue, answer_all, intended_all, no_queues, Implements,
  reachable-Implements,
}

-- A queue at a number.
abbrev one_queue : ℕ → QueueRequest
one_queue n = record { id = n; name = 113 ∷ []; length = 8; min_rate = 0; max_rate = 0 }

abbrev some_calls : List Call
some_calls =
    add_queue true (one_queue 3)
    ∷ add_queue true (one_queue 3)
    ∷ add_queue false (one_queue 15)
    ∷ add_queue true (one_queue 16)
    ∷ remove_queue 3
    ∷ remove_queue 4
    ∷ []

abbrev eth0 : SystemPort
eth0 = record { addr = 50; name = 101 ∷ 48 ∷ []; type = physical }

abbrev vir0 : SystemPort
vir0 = record { addr = 60; name = 118 ∷ 48 ∷ []; type = virtual }

abbrev one_switch : Instance
one_switch = record { addr = 900; dpid = 7 }

abbrev with_eth0 : PhysicalSwitch
with_eth0 = (add_port physical_switch_init (some eth0)).1

abbrev with_both : PhysicalSwitch
with_both = (add_port with_eth0 (some vir0)).1

reachable-IsPhysical_example :
    (ps : PhysicalSwitch) × (manage_all
        (new_port (some eth0)
          ∷ new_switch one_switch
          ∷ new_port (some eth0)
          ∷ drop_switch 7
          ∷ new_port (some vir0)
          ∷ drop_port (some eth0.name)
          ∷ [])
        physical_switch_init
      ≡ some ps)
    × IsPhysical ps
reachable-IsPhysical_example = reachable-IsPhysical (
    new_port (some eth0)
    ∷ new_switch one_switch
    ∷ new_port (some eth0)
    ∷ drop_switch 7
    ∷ new_port (some vir0)
    ∷ drop_port (some eth0.name)
    ∷ [])

add_port-get_example :
    get_port_by_name with_both vir0.name
    ≡ (if is_named vir0.name vir0 then some vir0 else get_port_by_name with_eth0 vir0.name)
unfolding add_port place_port put_in find_in get_port_by_name same_up_to physical_switch_init
    empty_array
add_port-get_example = add_port-get with_eth0 with_both vir0 vir0.name refl

remove_port-get_example : get_port_by_name (remove_port with_both (some eth0.name)).1 vir0.name ≡ (
    if same_up_to max_len_name eth0.name vir0.name
    then none
    else get_port_by_name with_both vir0.name)
unfolding add_port place_port put_in find_in get_port_by_name same_up_to physical_switch_init
    empty_array remove_port clear_in
remove_port-get_example =
    remove_port-get with_both (remove_port with_both (some eth0.name)).1 eth0.name vir0.name
      ((refl, tt), (tt, tt)) refl

reachable-Implements_example :
    (p : SwitchPort) × (s : SwitchPort) × (switch_port_init true true true eth0.name true physical 0
      ≡ some p)
    × (answer_all some_calls p ≡ some ((intended_all some_calls no_queues).0, s))
    × Implements (intended_all some_calls no_queues).1 s
reachable-Implements_example = reachable-Implements eth0.name true physical 0 some_calls

-- What the calls are to answer.
abbrev some_results : List RoflResult
some_results = success ∷ failure ∷ success ∷ failure ∷ success ∷ failure ∷ []

some_calls-results : (intended_all some_calls no_queues).0 ≡ some_results
some_calls-results = refl
