-- ===== src/Switch/Reset.antt =====
-- The change of the version of a switch, which starts with its tables empty.
use rofl_fork.Base.{
  ◌>>=◌, ℕ, suc, ◌≡◌, ◌≢◌, ap, ◌∙◌, refl, true, false, inl, inr, List, [], ◌∷◌, some, All, length,
  success, arith, ◌==◌,
}
use rofl_fork.FlowTable.{
  set_table_defaults, of10_set_table_defaults, of12_set_table_defaults, of13_set_table_defaults,
}
use rofl_fork.Loop.{Table}
use rofl_fork.Loop.Invariant.{IsTable}
use rofl_fork.Pipeline.{Pipeline}
use rofl_fork.Pipeline.Create.{IsKnown, empty-IsTable}
use rofl_fork.Pipeline.Manage.{set_defaults, set_pipeline_tables_defaults}
use rofl_fork.Pipeline.Purge.{IsEmpty, purge_pipeline_entries-IsEmpty}
use rofl_fork.Switch.{is_supported, reconfigure_switch, of_reconfigure_switch}

-- An empty table in order that has the defaults of the version.
abbrev pub IsReset : ℕ → Table → Type 0
IsReset version t = IsEmpty t × (set_table_defaults version t ≡ some t)

IsEmpty-same :
    (t u : Table)
    → u.entries ≡ t.entries
    → u.num_of_entries ≡ t.num_of_entries
    → IsEmpty t
    → IsEmpty u
IsEmpty-same t u p q e =
    let c = e.0 in (empty-IsTable u (p ∙ e.1) (q ∙ c.count ∙ ap length e.1), p ∙ e.1)

defaults-IsReset :
    (version : ℕ) (t : Table)
    → IsKnown version
    → IsEmpty t
    → (u : Table) × (set_table_defaults version t ≡ some u) × IsReset version u
unfolding set_table_defaults of10_set_table_defaults of12_set_table_defaults of13_set_table_defaults
defaults-IsReset version t k e = elim k [
  | inl v ↦ rw v (of10_set_table_defaults t, refl, (IsEmpty-same t _ refl refl e, refl))
  | inr (inl v) ↦ rw v (of12_set_table_defaults t, refl, (IsEmpty-same t _ refl refl e, refl))
  | inr (inr v) ↦ rw v (of13_set_table_defaults t, refl, (IsEmpty-same t _ refl refl e, refl))
]

set_defaults-IsReset :
    (version : ℕ) (ts : List Table)
    → IsKnown version
    → All IsEmpty ts
    → (us : List Table) × (set_defaults version ts ≡ (success, us))
      × All (IsReset version) us
      × (length us ≡ length ts)
unfolding set_defaults
set_defaults-IsReset version [] k f = ([], refl, tt, refl)
set_defaults-IsReset version (t ∷ ts) k f =
    let (u, q, r) = defaults-IsReset version t k f.0 in
    let (us, s, a, l) = set_defaults-IsReset version ts k f.1 in
    (u ∷ us, rw (set_defaults, q, s) refl, (r, a), ap suc l)

known_supported : (version : ℕ) → IsKnown version → is_supported version ≡ true
known_supported version k = ground arith

known_not_11 : (version : ℕ) → IsKnown version → (version == 2) ≡ false
known_not_11 version k = ground arith

-- A switch whose tables are in order is changed to another version that is known with success, if
-- there is memory for the request of the purge: it has the version, and as many tables as before, in
-- order, all of them empty and with the defaults of the version.
pub of_reconfigure_switch-IsReset :
    (addr now : ℕ) (p : Pipeline) (version : ℕ)
    → All IsTable p.tables
    → IsKnown version
    → p.of_ver ≢ version
    → (q : Pipeline) × (of_reconfigure_switch (some addr) true now p version ≡ some (success, q))
      × (q.of_ver ≡ version)
      × All (IsReset version) q.tables
      × (length q.tables ≡ length p.tables)
unfolding of_reconfigure_switch reconfigure_switch set_pipeline_tables_defaults
of_reconfigure_switch-IsReset addr now p version i k d =
    let n : (p.of_ver == version) ≡ false = ground arith in
    let (q, e, f, l, _) = purge_pipeline_entries-IsEmpty addr now p i in
    let (us, s, a, m) = set_defaults-IsReset version q.tables k f in
    (
      record q { of_ver = version; tables = us },
      rw
          (
            known_supported version k,
            n,
            known_not_11 version k,
            e,
            ◌>>=◌,
            set_pipeline_tables_defaults,
            s,
          )
          (ap (λ r. some (success, record q { of_ver = version; tables = r.1 })) s),
      refl,
      a,
      m ∙ l,
    )
