-- ===== src/Checks/Machines.antt =====
-- A small machine, and the unit test of src/tests.cpp.
use gamebro.Base.{
  none, ℕ, ◌≡◌, refl, true, false, pos, ◌-◌, ◌==◌, if◌then◌else◌, Outcome, ok, fault, List, [], ◌∷◌,
}
use gamebro.State.{Machine, Cpu, Mbc}
use gamebro.State.Monad.{M, Unit₀, pure, ◌>>◌}
use gamebro.State.{reg, set_reg}
use gamebro.Cpu.{incr_cycles, peekop8, readop8, hardware_tick, put_dest}
use gamebro.Cpu.Decode.{decode}
use gamebro.Cpu.Load.{handler_ld_d_n}
use gamebro.Cpu.Arithmetic.{handler_alu_a_n}
use gamebro.Memory.{read8, rom_at, read_traps, traps, fetch8}
use gamebro.Video.Render as Render
use gamebro.Gpu.{
  lcd_enabled, count_period, next_mode, get_mode, scanline_cycles, oam_cycles, vram_cycles,
  hblank_cycles,
}
use gamebro.Io.{interrupt_mask}
use gamebro.Io.Simulate as IoSimulate
use gamebro.Io.Simulate.{count_divider, run_tima, run_dma, run_hdma}
use gamebro.Registers.{setdest, alu, alu_case, setflag, half_borrow, mask}
use gamebro.Cpu.Execute
use gamebro.Base.{arith}
use gamebro.Mbc.Invariant as MbcInvariant
use gamebro.Memory.Invariant.{IsValid}

abbrev nth : List ℕ → ℕ → ℕ
nth [] i = 0
nth (x ∷ xs) i = if i == 0 then x else nth xs (i - 1)

abbrev pub cpu : Cpu
cpu = record {
  registers = record {
    flags = 0;
    accum = 0;
    c = 0;
    b = 0;
    e = 0;
    d = 0;
    l = 0;
    h = 0;
    sp = 0xfffe;
    pc = 0;
  };
  cycles_total = 0;
  intr_pending = pos 0;
  ime = false;
  stopped = false;
  asleep = false;
  haltbug = false;
  switch_cycles = 0;
  m_break = false;
  break_steps = 0;
  break_steps_cnt = 0;
  breakpoints = [];
}

abbrev pub mbc : Mbc
mbc = record {
  rom_bank_offset = 0x4000;
  ram_banks = 0;
  ram_bank_offset = 0;
  ram_bank_size = 0;
  wram_offset = 0x1000;
  wram_size = 0x8000;
  ram_enabled = false;
  rtc_enabled = false;
  rumble = false;
  rom_bank_reg = 1;
  mode_select = 0;
  version = 1;
  wram = λ i. 0;
  ram = λ i. 0;
}

abbrev pub machine : List ℕ → Machine
machine code = record {
  cpu = cpu;
  memory = record {
    mbc = mbc;
    video_ram = λ i. 0;
    oam_ram = λ i. 0;
    zram = λ i. 0;
    bootrom_enabled = false;
    speed_factor = 1;
    read_breakpoints = [];
    write_breakpoints = [];
  };
  io = record {
    ioregs = λ i. if i == 0x40 then 0x91 else if i == 0x41 then 0x81 else 0;
    joypad = record { ioswitch = 0; keypad = 0xff; buttons = 0xff; last_mask = 0 };
    divider = 0;
    timabug = 0;
    lcd_powered = false;
    reg_ie = 0;
    dma = record { cur_line = 0; slow_start = 0; src = 0; dst = 0; bytes_left = 0 };
    hdma = record { cur_line = 0; slow_start = 0; src = 0; dst = 0; bytes_left = 0 };
  };
  gpu = record {
    period = 0;
    frame_count = 0;
    current_scanline = 0;
    video_offset = 0;
    white_frame = false;
    cgb_palette = λ i. 0;
    pixels = λ i. 0;
    render = true;
  };
  rom_size = 0x8000;
  rom = nth code;
  running = true;
  cgb_mode = false;
  stop_when_undefined = false;
  break_on_interrupts = false;
  break_on_io = false;
  verbose_instructions = false;
  console = [];
}

abbrev pub no_callbacks : Execute.Callbacks
no_callbacks = record { vblank = none; timerint = none; joypadint = none; debugint = none }

abbrev pub no_pause : ℕ → M Unit₀
no_pause opcode = pure tt

abbrev two_steps : List ℕ → Outcome (Unit₀ × Machine)
two_steps code =
    (Execute.simulate no_callbacks no_pause >> Execute.simulate no_callbacks no_pause)
      (machine code)

abbrev accumulator : Outcome (Unit₀ × Machine) → ℕ
accumulator (ok (u, m)) = m.cpu.registers.accum
accumulator (fault e) = 999

-- `test_alu` of src/tests.cpp: LD A, 255 and SUB A, 1 leave 254 in A.
test_alu : accumulator (two_steps (0x3e ∷ 0xff ∷ 0xd6 ∷ 0x1 ∷ 0 ∷ 0 ∷ [])) ≡ 0xfe
unfolding Execute.simulate Execute.run_step Execute.handle_interrupts Execute.count_pending
    Execute.execute Execute.handler peekop8 readop8 hardware_tick put_dest read8 rom_at
    Render.simulate lcd_enabled count_period next_mode get_mode scanline_cycles oam_cycles
    vram_cycles hblank_cycles reg set_reg IoSimulate.simulate count_divider run_tima run_dma
    run_hdma decode handler_ld_d_n handler_alu_a_n setdest alu alu_case setflag half_borrow mask
    interrupt_mask incr_cycles Execute.break_time Execute.count_break read_traps traps fetch8
test_alu = refl

-- A cartridge controller in the state it starts in is valid.
pub mbc-IsValid : MbcInvariant.IsValid 0x8000 mbc
mbc-IsValid = record {
  rom_aligned = omega arith;
  rom_fits = omega arith;
  ram_small = omega arith;
  wram_fits = omega arith;
  wram_small = omega arith;
  reg_small = omega arith;
  version_known = refl;
  wram_bytes = λ i. omega arith;
  ram_bytes = λ i. omega arith;
}

-- So is a machine with an empty cartridge.
pub machine-IsValid : IsValid (machine [])
machine-IsValid = record {
  mbc = mbc-IsValid;
  video_bank = omega arith;
  ioswitch = omega arith;
  rom_bytes = λ i. omega arith;
  video_bytes = λ i. omega arith;
  oam_bytes = λ i. omega arith;
  zram_bytes = λ i. omega arith;
  port_bytes = λ i. ground arith;
  palette_bytes = λ i. omega arith;
  ie_byte = omega arith;
  keypad_byte = omega arith;
  buttons_byte = omega arith;
}
