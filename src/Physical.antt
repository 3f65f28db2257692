-- ===== src/Physical.antt =====
-- physical_switch.c: the ports of the system and the logical switches, and the attachment of ports.
-- A pointer to a port or a switch is its address, and an array of pointers a list of them, with NULL as
-- none. `freed` has the addresses of the ports and switches that were destroyed, the latest first.
pub mod Arrays
pub mod Distinct
pub mod Names
pub mod Ports
pub mod Lookup
pub mod Invariant
pub mod Manage
pub mod Port
pub mod Queues
pub mod Tests
use rofl_fork.Base.{
  ◌>>=◌, ℕ, zero, suc, ◌+◌, ◌-◌, ◌%◌, ◌^◌, Bool, true, false, ◌&&◌, ◌||◌, not, List, [], ◌∷◌,
  Option, none, some, leb, ◌==◌, if◌then◌else◌, is_some, get_elem?, RoflResult, success, failure,
}
use rofl_fork.Switch.{
  Attachments, LogicalPort, is_attached, max_log_ports, of_attach_port_to_switch,
  of_attach_port_to_switch_at_port_num, of_detach_port_from_switch_by_port_num,
  of_detach_port_from_switch, of_detach_all_ports_from_switch,
}

-- port_type_t.
pub data PortType : Type 0 where
  invalid physical virtual tunnel meta_flood meta_in_port meta_all : PortType

-- A port of the system; the name is the characters before its end.
pub record SystemPort : Type 0 where
  pub addr : ℕ
  pub name : List ℕ
  pub type : PortType

-- A logical switch.
pub record Instance : Type 0 where
  pub addr : ℕ
  pub dpid : ℕ

-- SWITCH_PORT_MAX_LEN_NAME, PHYSICAL_SWITCH_MAX_LS and the numbers of ports.
abbrev pub max_len_name : ℕ
max_len_name = 32

abbrev pub max_ls : ℕ
max_ls = 64

abbrev pub max_phy_ports : ℕ
max_phy_ports = 128

abbrev pub max_vir_ports : ℕ
max_vir_ports = 128

abbrev pub max_tun_ports : ℕ
max_tun_ports = 32

-- physical_switch_t without the meta ports.
pub record PhysicalSwitch : Type 0 where
  pub num_of_logical_switches : ℕ
  pub logical_switches : List (Option Instance)
  pub physical_ports : List (Option SystemPort)
  pub tunnel_ports : List (Option SystemPort)
  pub virtual_ports : List (Option SystemPort)
  pub freed : List ℕ

-- strncmp of two names, up to so many characters, is 0.
unfoldable pub same_up_to : ℕ → List ℕ → List ℕ → Bool
same_up_to zero a b = true
same_up_to (suc n) [] [] = true
same_up_to (suc n) [] (d ∷ b) = false
same_up_to (suc n) (c ∷ a) [] = false
same_up_to (suc n) (c ∷ a) (d ∷ b) = c == d && same_up_to n a b

abbrev pub is_named : List ℕ → SystemPort → Bool
is_named name p = same_up_to max_len_name p.name name

module _ {A : Type 0} where
  -- The first element that meets the test, over the elements that are not NULL.
  unfoldable pub find_in : (A → Bool) → List (Option A) → Option A
  find_in p [] = none
  find_in p (none ∷ xs) = find_in p xs
  find_in p (some a ∷ xs) = let rest = find_in p xs in if p a then some a else rest

  -- The element at the first empty place, if there is one.
  unfoldable pub put_in : A → List (Option A) → Option (List (Option A))
  put_in a [] = none
  put_in a (none ∷ xs) = some (some a ∷ xs)
  put_in a (some b ∷ xs) = do bs ← put_in a xs; some (some b ∷ bs)

  -- The array without the first element that meets the test.
  unfoldable pub clear_in : (A → Bool) → List (Option A) → List (Option A)
  clear_in p [] = []
  clear_in p (none ∷ xs) = none ∷ clear_in p xs
  clear_in p (some a ∷ xs) = let rest = clear_in p xs in if p a then none ∷ xs else some a ∷ rest

  abbrev pub or_else : Option A → Option A → Option A
  or_else none o = o
  or_else (some a) o = some a

-- Of the memory for the switch; the arrays are cleared.
unfoldable pub empty_array : {A : Type 0} → ℕ → List (Option A)
empty_array zero = []
empty_array (suc n) = none ∷ empty_array n

unfoldable pub physical_switch_init : PhysicalSwitch
unfolding empty_array
physical_switch_init = record {
  num_of_logical_switches = 0;
  logical_switches = empty_array max_ls;
  physical_ports = empty_array max_phy_ports;
  tunnel_ports = empty_array max_tun_ports;
  virtual_ports = empty_array max_vir_ports;
  freed = [];
}

unfoldable pub get_port_by_name : PhysicalSwitch → List ℕ → Option SystemPort
unfolding find_in
get_port_by_name ps name =
    or_else (find_in (is_named name) ps.physical_ports)
      (or_else (find_in (is_named name) ps.virtual_ports) (find_in (is_named name) ps.tunnel_ports))

-- The switch with the changed array, or none if no place is left.
abbrev pub store_array :
    PhysicalSwitch
    → Option (List (Option SystemPort))
    → (List (Option SystemPort) → PhysicalSwitch)
    → RoflResult × PhysicalSwitch
store_array ps none f = (failure, ps)
store_array ps (some xs) f = (success, f xs)

-- The port goes to the first empty slot of the array of its type.
unfoldable pub place_port : PhysicalSwitch → SystemPort → PortType → RoflResult × PhysicalSwitch
unfolding put_in
place_port ps p invalid = (failure, ps)
place_port ps p physical =
    store_array ps (put_in p ps.physical_ports) (λ xs. record ps { physical_ports = xs })
place_port ps p virtual =
    store_array ps (put_in p ps.virtual_ports) (λ xs. record ps { virtual_ports = xs })
place_port ps p tunnel =
    store_array ps (put_in p ps.tunnel_ports) (λ xs. record ps { tunnel_ports = xs })
place_port ps p meta_flood = (failure, ps)
place_port ps p meta_in_port = (failure, ps)
place_port ps p meta_all = (failure, ps)

-- The pointer to the port may be NULL.
unfoldable pub add_port : PhysicalSwitch → Option SystemPort → RoflResult × PhysicalSwitch
unfolding get_port_by_name place_port
add_port ps none = (failure, ps)
add_port ps (some p) =
    if is_some (get_port_by_name ps p.name) then (failure, ps) else place_port ps p p.type

abbrev pub free : ℕ → PhysicalSwitch → PhysicalSwitch
free a ps = record ps { freed = a ∷ ps.freed }

-- The port is taken out of the first array that has it, and destroyed.
unfoldable pub remove_port : PhysicalSwitch → Option (List ℕ) → RoflResult × PhysicalSwitch
unfolding find_in clear_in
remove_port ps none = (failure, ps)
remove_port ps (some name) = elim (find_in (is_named name) ps.physical_ports) [
  | some p ↦ (
    success,
    free p.addr (record ps { physical_ports = clear_in (is_named name) ps.physical_ports }),
  )
  | none ↦ elim (find_in (is_named name) ps.virtual_ports) [
    | some p ↦ (
      success,
      free p.addr (record ps { virtual_ports = clear_in (is_named name) ps.virtual_ports }),
    )
    | none ↦ elim (find_in (is_named name) ps.tunnel_ports) [
      | some p ↦ (
        success,
        free p.addr (record ps { tunnel_ports = clear_in (is_named name) ps.tunnel_ports }),
      )
      | none ↦ (failure, ps)
    ]
  ]
]

abbrev pub has_dpid : ℕ → Instance → Bool
has_dpid dpid i = i.dpid == dpid

unfoldable pub get_logical_switch_by_dpid : PhysicalSwitch → ℕ → Option Instance
unfolding find_in
get_logical_switch_by_dpid ps dpid = find_in (has_dpid dpid) ps.logical_switches

-- Where no place is left although the count allows it, the code writes behind the array.
unfoldable pub add_logical_switch : PhysicalSwitch → Instance → Option (RoflResult × PhysicalSwitch)
unfolding get_logical_switch_by_dpid put_in
add_logical_switch ps sw =
    if is_some (get_logical_switch_by_dpid ps sw.dpid)
    then some (failure, ps)
    else if ps.num_of_logical_switches == max_ls
    then some (failure, ps)
    else do
      xs ← put_in sw ps.logical_switches
      some (
        success,
        record ps {
          logical_switches = xs;
          num_of_logical_switches = (ps.num_of_logical_switches + 1) % 2 ^ 32;
        },
      )

unfoldable pub remove_logical_switch_by_dpid : PhysicalSwitch → ℕ → RoflResult × PhysicalSwitch
unfolding get_logical_switch_by_dpid clear_in
remove_logical_switch_by_dpid ps dpid = elim (get_logical_switch_by_dpid ps dpid) [
  | none ↦ (failure, ps)
  | some sw ↦ (
    success,
    free sw.addr (record ps {
      logical_switches = clear_in (has_dpid dpid) ps.logical_switches;
      num_of_logical_switches = (ps.num_of_logical_switches + (2 ^ 32 - 1)) % 2 ^ 32;
    }),
  )
]

-- The port at a number of the logical switch, whose slots are those of the second argument; the outer
-- `none` is a slot read out of bounds.
unfoldable pub get_port_by_num : PhysicalSwitch → (ℕ → List LogicalPort) → ℕ → ℕ → Option (Option ℕ)
unfolding get_logical_switch_by_dpid
get_port_by_num ps slots dpid n = elim (get_logical_switch_by_dpid ps dpid) [
  | none ↦ some none
  | some sw ↦
      if leb max_log_ports n || n == 0
      then some none
      else do l ← get_elem? (slots sw.addr) n; some (if not (is_attached l) then none else l.port)
]

-- The attachments test first that the port is attached nowhere. Switch and port are not NULL here.
unfoldable pub attach_port_to_logical_switch :
    Attachments → ℕ → (RoflResult × Option ℕ) × Attachments
unfolding of_attach_port_to_switch
attach_port_to_logical_switch sw a =
    if is_some (sw.store a).attached_sw
    then ((failure, none), sw)
    else of_attach_port_to_switch sw (some a)

unfoldable pub attach_port_to_logical_switch_at_port_num :
    Attachments → ℕ → ℕ → Option (RoflResult × Attachments)
unfolding of_attach_port_to_switch_at_port_num
attach_port_to_logical_switch_at_port_num sw a n =
    if is_some (sw.store a).attached_sw
    then some (failure, sw)
    else of_attach_port_to_switch_at_port_num sw n (some a)
