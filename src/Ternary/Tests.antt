-- ===== src/Ternary/Tests.antt =====
-- A run of the containment of masked values.
use rofl_fork.Base.{◌≡◌, ◌↔◌, refl, true}
use rofl_fork.Ternary.{Utern, Wrap, new_bits, utern16_t, utern_is_contained}
use rofl_fork.Ternary.Contained.{utern_is_contained_iff, utern_compare}

abbrev wide : Utern
wide = new_bits 16 utern16_t (record { hi = 0; lo = 0 }, record { hi = 0; lo = 0 }) 0x0800 0xff00

abbrev narrow : Utern
narrow = new_bits 16 utern16_t (record { hi = 0; lo = 0 }, record { hi = 0; lo = 0 }) 0x0806 0xffff

utern_is_contained_iff_example :
    (utern_is_contained wide narrow ≡ true)
    ↔ ((x : Wrap) → utern_compare narrow x ≡ true → utern_compare wide x ≡ true)
utern_is_contained_iff_example = utern_is_contained_iff wide narrow refl
