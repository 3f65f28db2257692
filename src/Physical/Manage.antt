-- ===== src/Physical/Manage.antt =====
-- Requests to the physical switch, and those that attach ports to a logical switch through it.
use rofl_fork.Base.{◌>>=◌, [], ◌∷◌, ℕ, ◌≡◌, refl, List, Option, some, RoflResult}
use rofl_fork.Physical.{
  SystemPort, Instance, PhysicalSwitch, physical_switch_init, empty_array, add_port, remove_port,
  add_logical_switch, remove_logical_switch_by_dpid,
}
use rofl_fork.Physical.Invariant.{
  IsPhysical, add_port-IsPhysical, remove_port-IsPhysical, add_logical_switch-IsPhysical,
  remove_logical_switch-IsPhysical,
}

pub data Request : Type 0 where
  new_port : Option SystemPort → Request
  drop_port : Option (List ℕ) → Request
  new_switch : Instance → Request
  drop_switch : ℕ → Request

abbrev pub manage : Request → PhysicalSwitch → Option (RoflResult × PhysicalSwitch)
manage (new_port p) ps = some (add_port ps p)
manage (drop_port name) ps = some (remove_port ps name)
manage (new_switch sw) ps = add_logical_switch ps sw
manage (drop_switch dpid) ps = some (remove_logical_switch_by_dpid ps dpid)

pub manage-IsPhysical :
    (r : Request) (ps : PhysicalSwitch)
    → IsPhysical ps
    → (s : RoflResult × PhysicalSwitch) × (manage r ps ≡ some s) × IsPhysical s.1
manage-IsPhysical (new_port p) ps i = (_, refl, add_port-IsPhysical ps p i)
manage-IsPhysical (drop_port name) ps i = (_, refl, remove_port-IsPhysical ps name i)
manage-IsPhysical (new_switch sw) ps i = add_logical_switch-IsPhysical ps sw i
manage-IsPhysical (drop_switch dpid) ps i = (_, refl, remove_logical_switch-IsPhysical ps dpid i)

-- The requests one after another; the outcomes do not stop them.
abbrev pub manage_all : List Request → PhysicalSwitch → Option PhysicalSwitch
manage_all [] ps = some ps
manage_all (r ∷ rs) ps = do s ← manage r ps; manage_all rs s.1

manage_all-IsPhysical :
    (rs : List Request) (ps : PhysicalSwitch)
    → IsPhysical ps
    → (qs : PhysicalSwitch) × (manage_all rs ps ≡ some qs) × IsPhysical qs
manage_all-IsPhysical [] ps i = (ps, refl, i)
manage_all-IsPhysical (r ∷ rs) ps i =
    let (s, q, j) = manage-IsPhysical r ps i in
    let (qs, e, k) = manage_all-IsPhysical rs s.1 j in (qs, rw (q, ◌>>=◌) e, k)

physical_switch_init-IsPhysical : IsPhysical physical_switch_init
unfolding physical_switch_init empty_array
physical_switch_init-IsPhysical = record {
  names = tt;
  dpids = tt;
  count = refl;
  switches = refl;
  physicals = refl;
  virtuals = refl;
  tunnels = refl;
}

-- From the initialised physical switch, any additions and removals of ports and logical switches, in
-- any order and whether they succeed or not, have an outcome, so that no switch is written behind the
-- array, and lead to a physical switch whose ports have distinct names and whose logical switches
-- have distinct identifiers, which counts its logical switches, and whose arrays have the fixed sizes.
pub reachable-IsPhysical :
    (rs : List Request)
    → (ps : PhysicalSwitch) × (manage_all rs physical_switch_init ≡ some ps) × IsPhysical ps
reachable-IsPhysical rs =
    manage_all-IsPhysical rs physical_switch_init physical_switch_init-IsPhysical
