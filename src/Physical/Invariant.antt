-- ===== src/Physical/Invariant.antt =====
-- What the operations of the physical switch keep.
use rofl_fork.Base.{
  ℕ, ◌+◌, ◌%◌, ◌^◌, ◌≡◌, ◌≢◌, ◌≤◌, ap, sym, ◌∙◌, refl, Bool, Bool-cases, inl, inr, List, [], ◌∷◌,
  Option, none, some, length, ◌==◌, Option-cases, arith, RoflResult, success, failure,
}
use rofl_fork.Physical.{
  SystemPort, Instance, PhysicalSwitch, max_ls, max_phy_ports, max_vir_ports, max_tun_ports,
  find_in, clear_in, add_port, remove_port, has_dpid, get_logical_switch_by_dpid,
  add_logical_switch, remove_logical_switch_by_dpid,
}
use rofl_fork.Physical.Arrays.{
  occupied, Changes-length, Changes-occupied, put_in-Changes, put_in-some, clear_in-Changes,
  find_in-none,
}
use rofl_fork.Physical.Distinct.{AreDistinct, Changes-put, Changes-clear}
use rofl_fork.Physical.Ports.{
  same_name, same_name-sym, all_ports, Changed, add_port-PortOutcome, remove_port-PortOutcome,
}

abbrev pub same_dpid : Instance → Instance → Bool
same_dpid a b = has_dpid b.dpid a

same_dpid-sym : (a b : Instance) → same_dpid a b ≡ same_dpid b a
same_dpid-sym a b = ground arith

-- The ports have distinct names and the logical switches distinct identifiers, the count is that of
-- the switches, and the arrays have their sizes.
pub record IsPhysical (ps : PhysicalSwitch) : Type 0 where
  pub names : AreDistinct same_name (all_ports ps)
  pub dpids : AreDistinct same_dpid ps.logical_switches
  pub count : ps.num_of_logical_switches ≡ occupied ps.logical_switches
  pub switches : length ps.logical_switches ≡ max_ls
  pub physicals : length ps.physical_ports ≡ max_phy_ports
  pub virtuals : length ps.virtual_ports ≡ max_vir_ports
  pub tunnels : length ps.tunnel_ports ≡ max_tun_ports

occupied-le-length : (xs : List (Option Instance)) → occupied xs ≤ length xs
occupied-le-length [] = omega arith
occupied-le-length (none ∷ xs) = omega (arith, occupied-le-length xs)
occupied-le-length (some a ∷ xs) = omega (arith, occupied-le-length xs)

Changed-IsPhysical :
    (x y : Option SystemPort) (ps qs : PhysicalSwitch)
    → IsPhysical ps
    → Changed x y ps qs
    → AreDistinct same_name (all_ports qs)
    → IsPhysical qs
Changed-IsPhysical x y ps qs i (_, (l, n, p, v, t)) d = record {
  names = d;
  dpids = rw l i.dpids;
  count = n ∙ i.count ∙ sym (ap occupied l);
  switches = ap length l ∙ i.switches;
  physicals = p ∙ i.physicals;
  virtuals = v ∙ i.virtuals;
  tunnels = t ∙ i.tunnels;
}

pub add_port-IsPhysical :
    (ps : PhysicalSwitch) (port : Option SystemPort)
    → IsPhysical ps
    → IsPhysical (add_port ps port).1
unfolding add_port
add_port-IsPhysical ps none i = i
add_port-IsPhysical ps (some p) i = elim (add_port-PortOutcome ps p) [
  | inl f ↦ rw f i
  | inr (unused, inl f) ↦ rw f i
  | inr (unused, inr (_, (c, r))) ↦
      let qs = (add_port ps (some p)).1 in
      Changed-IsPhysical none (some p) ps qs i (c, r)
        (Changes-put same_name same_name-sym p (all_ports ps) (all_ports qs) c unused i.names)
]

pub remove_port-IsPhysical :
    (ps : PhysicalSwitch) (name : Option (List ℕ))
    → IsPhysical ps
    → IsPhysical (remove_port ps name).1
unfolding remove_port
remove_port-IsPhysical ps none i = i
remove_port-IsPhysical ps (some name) i = elim (remove_port-PortOutcome ps name) [
  | inl (_, f) ↦ rw f i
  | inr (p, _, _, (c, r)) ↦
      let qs = (remove_port ps (some name)).1 in
      Changed-IsPhysical (some p) none ps qs i (c, r)
        (Changes-clear same_name same_name-sym p (all_ports ps) (all_ports qs) c i.names).0
]

-- An addition of a logical switch finds a place wherever the count admits it.
pub add_logical_switch-IsPhysical :
    (ps : PhysicalSwitch) (sw : Instance)
    → IsPhysical ps
    → (r : RoflResult × PhysicalSwitch) × (add_logical_switch ps sw ≡ some r) × IsPhysical r.1
unfolding add_logical_switch get_logical_switch_by_dpid
add_logical_switch-IsPhysical ps sw i =
    elim (Option-cases (find_in (has_dpid sw.dpid) ps.logical_switches)) [
      | inr (b, q) ↦ ((failure, ps), rw q refl, i)
      | inl n ↦ elim (Bool-cases (ps.num_of_logical_switches == max_ls)) [
        | inl y ↦ ((failure, ps), rw (n, y) refl, i)
        | inr m ↦
            let full : occupied ps.logical_switches ≢ length ps.logical_switches =
              λ z. let a = i.count in let b = i.switches in ground arith in
            let (xs, q) = put_in-some sw ps.logical_switches full in
            let c = put_in-Changes sw ps.logical_switches xs q in
            let o = Changes-occupied none (some sw) ps.logical_switches xs c in
            let le = occupied-le-length ps.logical_switches in
            let count = i.count in
            let size = i.switches in
            let unused = find_in-none (has_dpid sw.dpid) ps.logical_switches n in
            (
              (
                success,
                record ps {
                  logical_switches = xs;
                  num_of_logical_switches = (ps.num_of_logical_switches + 1) % 2 ^ 32;
                },
              ),
              rw (n, m, q) refl,
              record {
                names = i.names;
                dpids =
                    Changes-put same_dpid same_dpid-sym sw ps.logical_switches xs c unused i.dpids;
                count = omega (arith, o, le, count, size);
                switches = Changes-length none (some sw) ps.logical_switches xs c ∙ i.switches;
                physicals = i.physicals;
                virtuals = i.virtuals;
                tunnels = i.tunnels;
              },
            )
      ]
    ]

pub remove_logical_switch-IsPhysical :
    (ps : PhysicalSwitch) (dpid : ℕ)
    → IsPhysical ps
    → IsPhysical (remove_logical_switch_by_dpid ps dpid).1
unfolding remove_logical_switch_by_dpid get_logical_switch_by_dpid
remove_logical_switch-IsPhysical ps dpid i =
    elim (Option-cases (find_in (has_dpid dpid) ps.logical_switches)) [
      | inl n ↦ rw (remove_logical_switch_by_dpid, n) i
      | inr (sw, q) ↦
          let xs = clear_in (has_dpid dpid) ps.logical_switches in
          let c = clear_in-Changes (has_dpid dpid) ps.logical_switches sw q in
          let o = Changes-occupied (some sw) none ps.logical_switches xs c in
          let le = occupied-le-length ps.logical_switches in
          let count = i.count in
          let size = i.switches in
          rw (remove_logical_switch_by_dpid, q)
            (record {
              names = i.names;
              dpids = (Changes-clear same_dpid same_dpid-sym sw ps.logical_switches xs c i.dpids).0;
              count = omega (arith, o, le, count, size);
              switches = Changes-length (some sw) none ps.logical_switches xs c ∙ i.switches;
              physicals = i.physicals;
              virtuals = i.virtuals;
              tunnels = i.tunnels;
            })
    ]
