-- ===== src/Descriptors/Address.antt =====
-- The address in a segment descriptor, mm.c.
use zeos_soa.Base.{ℕ, ◌+◌, ◌*◌, ◌^◌, ◌<◌, ◌≡◌, ◌≢◌, arith}
use zeos_soa.Descriptors.{Descriptor, set_gdt}

-- The 32-bit address that the processor reads from the three parts.
abbrev pub base_of : Descriptor → ℕ
base_of d = d.low_base + 2 ^ 16 * d.mid_base + 2 ^ 24 * d.high_base

-- `setGdt` makes descriptor 6 point at the task state segment, wherever that lies; its limit and
-- flags and the other descriptors stay as they were.
pub set_gdt_lem :
    (tss : ℕ) (gdt : ℕ → Descriptor) (i : ℕ)
    → tss < 2 ^ 32
    → (base_of (set_gdt tss gdt 6) ≡ tss)
      × ((set_gdt tss gdt 6).limit ≡ (gdt 6).limit)
      × ((set_gdt tss gdt 6).flags1 ≡ (gdt 6).flags1)
      × ((set_gdt tss gdt 6).flags2 ≡ (gdt 6).flags2)
      × (i ≢ 6 → set_gdt tss gdt i ≡ gdt i)
unfolding set_gdt
set_gdt_lem tss gdt i small =
    (ground arith, ground arith, ground arith, ground arith, λ ne. ground arith)
