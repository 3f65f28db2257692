-- ===== src/Timers/Until.antt =====
-- The loop of __of1x_process_pipeline_tables_timeout_expirations over the slots that are over.
use rofl_fork.Base.{
  ◌>>=◌, ℕ, zero, suc, ◌+◌, ◌*◌, ◌≡◌, ◌<◌, refl, false, Bool-cases, inl, inr, some, leb, arith,
}
use rofl_fork.Timers.{slot_ms}
use rofl_fork.Timers.Expiry.{Schedule, Surroundings, timer_group_rotate, rotate_until}

module _ (w : ℕ → Surroundings) (now : ℕ) (I : ℕ → Schedule → Type 0) where
  -- The invariant gives the time of the current group, and a rotation keeps it, one slot later.
  abbrev pub IsKept : Type 0
  IsKept =
      (base : ℕ) (s : Schedule) (n : ℕ)
      → I base s
      → ((s.timers.groups s.timers.current).timeout ≡ base)
        × ((u : Schedule) × (timer_group_rotate (w n) s ≡ some u) × I (base + slot_ms) u)

  -- The loop ends, with the invariant for a time that is not over, if it may take as many rounds as
  -- there are slots until then.
  pub rotate_until-ends :
      (n base : ℕ) (s : Schedule)
      → IsKept
      → I base s
      → now < base + slot_ms * n
      → (u : Schedule) × (b : ℕ) × (rotate_until n w now s ≡ some u) × I b u × (now < b)
  unfolding rotate_until
  rotate_until-ends zero base s k i h =
      let e = (k base s 0 i).0 in
      let m : leb (s.timers.groups s.timers.current).timeout now ≡ false = ground arith in
      (s, base, rw (rotate_until, m) refl, i, omega arith)
  rotate_until-ends (suc n) base s k i h =
      elim (Bool-cases (leb (s.timers.groups s.timers.current).timeout now)) [
        | inr m ↦ let e = (k base s n i).0 in (s, base, rw (rotate_until, m) refl, i, ground arith)
        | inl y ↦
            let (e, (v, x, j)) = k base s n i in
            let (u, b, q, l, z) = rotate_until-ends n (base + slot_ms) v k j (omega (arith, h)) in
            (u, b, rw (rotate_until, y, ◌>>=◌, x) q, l, z)
      ]
