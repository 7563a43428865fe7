-- ===== src/Interrupt/Gates.antt =====
-- The gates of the interrupt table, interrupt.c.
use Prim.Native.Nat.{bit_or}
use zeos_soa.Base.{ℕ, zero, suc, ◌+◌, ◌*◌, ◌/◌, ◌%◌, ◌^◌, ◌<◌, ◌≡◌, ◌≢◌, refl, arith}
use zeos_soa.Interrupt.{Gate, kernel_cs, set_interrupt_handler}

-- The processor's reading of a gate: the code's address, present, its privilege level, and the
-- type of a 32-bit interrupt gate.
pub record Decodes (g : Gate) (handler pl : ℕ) : Type 0 where
  pub offset : g.low_offset + 2 ^ 16 * g.high_offset ≡ handler
  pub segment : g.segment_selector ≡ kernel_cs
  pub is_present : g.flags / 2 ^ 15 ≡ 1
  pub privilege : g.flags / 2 ^ 13 % 4 ≡ pl
  pub type : g.flags % 2 ^ 13 ≡ 0x0e00

flags_lem :
    (pl : ℕ)
    → pl < 4
    → (bit_or (pl * 2 ^ 13 % 2 ^ 16) 0x8e00 / 2 ^ 15 ≡ 1)
      × (bit_or (pl * 2 ^ 13 % 2 ^ 16) 0x8e00 / 2 ^ 13 % 4 ≡ pl)
      × (bit_or (pl * 2 ^ 13 % 2 ^ 16) 0x8e00 % 2 ^ 13 ≡ 0x0e00)
flags_lem zero h = (refl, refl, refl)
flags_lem (suc zero) h = (refl, refl, refl)
flags_lem (suc (suc zero)) h = (refl, refl, refl)
flags_lem (suc (suc (suc zero))) h = (refl, refl, refl)
flags_lem (suc (suc (suc (suc pl)))) h = absurd (more h)
  where
    more : suc (suc (suc (suc pl))) < 4 → ⊥
    more l = omega arith

-- A gate that the kernel writes decodes to the 32-bit address of its handler and to the privilege
-- level that was asked for, and the other gates of the table stay as they were.
pub set_interrupt_handler-Decodes :
    (idt : ℕ → Gate) (vector handler pl v : ℕ)
    → handler < 2 ^ 32
    → pl < 4
    → Decodes (set_interrupt_handler idt vector handler pl vector) handler pl
      × (v ≢ vector → set_interrupt_handler idt vector handler pl v ≡ idt v)
unfolding set_interrupt_handler
set_interrupt_handler-Decodes idt vector handler pl v small level =
    let (p, d, t) = flags_lem pl level in
    (
      record {
        offset = ground arith;
        segment = ground arith;
        is_present = ground (arith, p);
        privilege = ground (arith, d);
        type = ground (arith, t);
      },
      λ ne. ground arith,
    )
