-- ===== src/Physical/Lookup.antt =====
-- The search of a port by its name, after an addition and after a removal.
use rofl_fork.Base.{
  ℕ, ◌≡◌, ap, sym, ◌∙◌, true, false, Bool-cases, inl, inr, List, none, some, if◌then◌else◌, arith,
  success,
}
use rofl_fork.Physical.{
  SystemPort, PhysicalSwitch, max_len_name, same_up_to, is_named, get_port_by_name, add_port,
  remove_port,
}
use rofl_fork.Physical.Arrays.{Every-map, find_in-test, none-find_in}
use rofl_fork.Physical.Distinct.{AreDistinct, Changes-find_put, Changes-find_clear, Changes-clear}
use rofl_fork.Physical.Names.{same_up_to_sym, same_up_to_trans}
use rofl_fork.Physical.Ports.{
  same_name, same_name-sym, all_ports, get_port_by_name-all, add_port-PortOutcome,
  remove_port-PortOutcome,
}

same_name-other :
    (name : List ℕ) (p b : SystemPort)
    → is_named name p ≡ true
    → same_name b p ≡ false
    → is_named name b ≡ false
same_name-other name p b y n = elim (Bool-cases (is_named name b)) [
  | inr m ↦ m
  | inl z ↦
      let t =
        same_up_to_trans max_len_name b.name name p.name z
          (same_up_to_sym max_len_name name p.name ∙ y) in
      let c = sym t ∙ n in ground arith
]

not_named :
    (name other : List ℕ) (p : SystemPort)
    → is_named name p ≡ true
    → same_up_to max_len_name name other ≡ false
    → is_named other p ≡ false
not_named name other p y n = elim (Bool-cases (is_named other p)) [
  | inr m ↦ m
  | inl z ↦
      let t =
        same_up_to_trans max_len_name name p.name other
          (same_up_to_sym max_len_name name p.name ∙ y) z in
      let c = sym t ∙ n in ground arith
]

-- When a port has been added, the search by its name finds it, and the search by any other name
-- finds what it found before.
pub add_port-get :
    (ps qs : PhysicalSwitch) (p : SystemPort) (name : List ℕ)
    → add_port ps (some p) ≡ (success, qs)
    → get_port_by_name qs name ≡ (if is_named name p then some p else get_port_by_name ps name)
add_port-get ps qs p name h = elim (add_port-PortOutcome ps p) [
  | inl f ↦ let z = ap (λ r. r.0) (sym h ∙ f) in ground arith
  | inr (unused, inl f) ↦ let z = ap (λ r. r.0) (sym h ∙ f) in ground arith
  | inr (unused, inr (_, (c, _))) ↦
      let c' = rw h at c in
      let all =
        Changes-find_put (is_named name) p (all_ports ps) (all_ports qs) c'
          (λ y. Every-map _ _ (all_ports ps) (λ b n. same_name-other name p b y n) unused) in
      rw (get_port_by_name-all qs name, get_port_by_name-all ps name) all
]

-- When a port has been removed by its name, of ports of distinct names, the search by that name finds
-- none, and the search by any other name finds what it found before.
pub remove_port-get :
    (ps qs : PhysicalSwitch) (name other : List ℕ)
    → AreDistinct same_name (all_ports ps)
    → remove_port ps (some name) ≡ (success, qs)
    → get_port_by_name qs other
      ≡ (if same_up_to max_len_name name other then none else get_port_by_name ps other)
remove_port-get ps qs name other d h = elim (remove_port-PortOutcome ps name) [
  | inl (_, f) ↦ let z = ap (λ r. r.0) (sym h ∙ f) in ground arith
  | inr (p, found, _, (c, _)) ↦
      let c' = rw h at c in
      let y = find_in-test (is_named name) (all_ports ps) p found in
      rw (get_port_by_name-all qs other, get_port_by_name-all ps other)
        (elim (Bool-cases (same_up_to max_len_name name other)) [
          | inl e ↦
              let w = same_up_to_trans max_len_name p.name name other y e in
              let left =
                (Changes-clear same_name same_name-sym p (all_ports ps) (all_ports qs) c' d).1 in
              rw e (
                none-find_in (is_named other) (all_ports qs) (
                  Every-map _ _ (all_ports qs)
                    (λ b n. same_name-other other p b w (same_name-sym b p ∙ n)) left))
          | inr e ↦ rw e (
              Changes-find_clear (is_named other) p (all_ports ps) (all_ports qs) c'
                (not_named name other p y e))
        ])
]
