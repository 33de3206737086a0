-- ===== src/Safety/Runs.antt =====
-- The joypad and resets of libgbc/machine.cpp keep a machine in order.
use gamebro.Base.{
  ℕ, ◌-◌, ◌/◌, ◌^◌, ◌<◌, inl, inr, refl, arith, Bool, true, false, ◌!=◌, Bool-cases, bit_and,
}
use gamebro.Base.{bit_or, or-lt}
use gamebro.State.Ports.{trigger, reg_if}
use gamebro.Gpu.{lcd_enabled}
use gamebro.Memory.Ports.{set_reg-IsValid}
use gamebro.Memory.Kept.{set_reg-Control}
use gamebro.Safety.Access.{Sound}
use gamebro.State.{Machine, Cpu, Io, reg, set_reg}
use gamebro.State.Ports.{joypadint}
use gamebro.Gpu.{get_mode, is_vblank}
use gamebro.Gpu as GpuUnit
use gamebro.Io as IoUnit
use gamebro.Io.{trigger_keys}
use gamebro.Cpu as CpuUnit
use gamebro.Machine.{reset, set_inputs}
use gamebro.Memory.Invariant.{IsValid}
use gamebro.Memory.Control.{Control, IsRegs}
use gamebro.Safety.{IsSafe}

module _ (m : Machine) (s : Sound (tt, m)) where
  keys-Sound :
      (keypad buttons last : ℕ)
      → keypad < 256
      → buttons < 256
      → Sound (
        tt,
        record m {
          io = record m.io {
            joypad = record m.io.joypad { keypad = keypad; buttons = buttons; last_mask = last };
          };
        },
      )
  unfolding get_mode lcd_enabled reg
  keys-Sound keypad buttons last hk hb = (
    ground (arith, s.0),
    record {
      registers = s.1.registers;
      speed = s.1.speed;
      period_small = s.1.period_small;
      screen = s.1.screen;
      transfers = record {
        dma_source = s.1.transfers.dma_source;
        dma_target = s.1.transfers.dma_target;
        hdma_source = s.1.transfers.hdma_source;
        hdma_target = s.1.transfers.hdma_target;
      };
    },
  )

trigger-Sound : (m : Machine) → Sound (tt, m) → Sound (tt, record m { io = trigger joypadint m.io })
unfolding trigger reg
trigger-Sound m s =
    let x : ℕ = bit_or (m.io.ioregs (bit_and reg_if 0x7f)) 0x10 in
    (
      set_reg-IsValid m s.0 reg_if x (
          or-lt 8 (m.io.ioregs (bit_and reg_if 0x7f)) 0x10 (s.0.port_bytes (bit_and reg_if 0x7f))
            (omega arith)),
      set_reg-Control m s.1 reg_if x (omega arith) (omega arith),
    )

-- The joypad leaves a machine valid and in order.
pub set_inputs-Sound :
    (m : Machine) (mask : ℕ) → mask < 256 → Sound (tt, m) → Sound (tt, set_inputs mask m)
unfolding set_inputs trigger_keys
set_inputs-Sound m mask h s =
    let keypad : ℕ = 255 - bit_and mask 0xf in
    let buttons : ℕ = 255 - mask / 2 ^ 4 in
    elim (Bool-cases (m.io.joypad.last_mask != mask)) [
      | inl e ↦
          rw e (trigger-Sound _ (keys-Sound m s keypad buttons mask (omega arith) (omega arith)))
      | inr e ↦
          rw e (keys-Sound m s keypad buttons m.io.joypad.last_mask (omega arith) (omega arith))
    ]

cpu_reset-IsRegs : (b : Bool) (c : Cpu) → IsRegs (CpuUnit.reset b c).registers
unfolding CpuUnit.reset
cpu_reset-IsRegs true c = ground arith
cpu_reset-IsRegs false c = ground arith

io_reset_bytes :
    (io : Io) → ((i : ℕ) → io.ioregs i < 256) → (i : ℕ) → (IoUnit.reset io).ioregs i < 256
unfolding IoUnit.reset set_reg
io_reset_bytes io h i = ground (arith, h i)

-- A reset leaves even a machine safe whose LCD has just been switched on.
pub reset-IsSafe : (m : Machine) → IsValid m → Control m → IsSafe (reset m)
unfolding reset IoUnit.reset GpuUnit.reset get_mode set_reg reg
reset-IsSafe m v c = record {
  valid = record {
    mbc = v.mbc;
    video_bank = omega arith;
    ioswitch = v.ioswitch;
    rom_bytes = v.rom_bytes;
    video_bytes = v.video_bytes;
    oam_bytes = v.oam_bytes;
    zram_bytes = v.zram_bytes;
    port_bytes = io_reset_bytes m.io v.port_bytes;
    palette_bytes = v.palette_bytes;
    ie_byte = omega arith;
    keypad_byte = v.keypad_byte;
    buttons_byte = v.buttons_byte;
  };
  control = record {
    registers = cpu_reset-IsRegs m.cgb_mode m.cpu;
    speed = c.speed;
    period_small = c.period_small;
    screen = inl (inl refl);
    transfers = record {
      dma_source = c.transfers.dma_source;
      dma_target = c.transfers.dma_target;
      hdma_source = c.transfers.hdma_source;
      hdma_target = c.transfers.hdma_target;
    };
  };
  settled = inl refl;
}
