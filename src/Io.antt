-- ===== src/Io.antt =====
-- The I/O registers: libgbc/io.cpp and the handlers of libgbc/io_regs.cpp, with `APU::read` and
-- `APU::write` of libgbc/apu.cpp. No joypad callback is set.
pub mod Write
pub mod Simulate
pub mod Timer
use gamebro.Base.{
  ℕ, ◌+◌, ◌-◌, ◌*◌, ◌/◌, ◌%◌, ◌^◌, bit_and, bit_or, Bool, true, false, not, ◌&&◌, ◌||◌,
}
use gamebro.Base.{ltb, leb, ◌==◌, ◌!=◌, if◌then◌else◌, assertion}
use gamebro.State.{Io, Joypad, Dma, Machine, reg, set_reg}
use gamebro.State.Monad.{M, Unit₀, pure, ◌>>◌, ◌>>=◌, when, gets, modify_io, break_now, stop_with}
use gamebro.State.Ports.{trigger, joypadint, reg_p1, reg_div, reg_tima, reg_tma, reg_tac, reg_nr10}
use gamebro.State.Ports.{reg_nr11, reg_nr52, reg_lcdc, reg_stat, reg_ly, reg_lyc, reg_dma, reg_bgp}
use gamebro.State.Ports.{reg_obp0, reg_obp1, reg_key1, reg_vbk, reg_boot, reg_hdma1, reg_hdma2}
use gamebro.State.Ports.{reg_hdma3, reg_hdma4, reg_hdma5, reg_bgpi, reg_bgpd, reg_obpi, reg_obpd}
use gamebro.State.Ports.{reg_svbk, reg_if, reg_ie}
use gamebro.Gpu.{getpal}

-- `IO::reset`, register by register.
unfoldable pub reset : Io → Io
reset io =
    let p1 =
      set_reg reg_tac 0xf8 (set_reg reg_tma 0 (set_reg reg_tima 0 (set_reg reg_p1 0xcf io))) in
    let p2 = set_reg reg_nr52 0xf1 (set_reg reg_nr11 0xbf (set_reg reg_nr10 0x80 p1)) in
    let p3 =
      set_reg reg_lyc 0 (set_reg reg_ly 0x90 (set_reg reg_stat 0x81 (set_reg reg_lcdc 0x91 p2))) in
    let p4 =
      set_reg reg_obp1 0xff (set_reg reg_obp0 0xff (set_reg reg_bgp 0xfc (set_reg reg_dma 0 p3))) in
    let p5 = set_reg reg_hdma5 0xff (set_reg reg_boot 0 p4) in record p5 { reg_ie = 0 }

unfoldable pub interrupt_mask : Io → ℕ
interrupt_mask io = bit_and io.reg_ie (reg reg_if io)

-- `~` on a byte, stored into a `uint8_t`.
abbrev pub complement : ℕ → ℕ
complement x = 255 - x

unfoldable pub trigger_keys : ℕ → Io → Io
trigger_keys mask io =
    let pad = record io.joypad {
      keypad = complement (bit_and mask 0xf);
      buttons = complement (mask / 2 ^ 4);
    } in
    if io.joypad.last_mask != mask
    then trigger joypadint (record io { joypad = record pad { last_mask = mask } })
    else record io { joypad = pad }

unfoldable pub joypad_is_disabled : Io → Bool
joypad_is_disabled io = bit_and (reg reg_p1 io) 0x30 == 0x30

unfoldable pub start_dma : ℕ → Io → Io
start_dma src io = record io {
  dma = record io.dma { slow_start = 2; src = src; dst = 0xfe00; bytes_left = 160 };
}

unfoldable pub start_hdma : ℕ → ℕ → ℕ → Io → Io
start_hdma src dst bytes io = record io {
  hdma = record io.hdma { src = src; dst = dst; bytes_left = bytes; cur_line = 0xff };
}

abbrev pub dma_active : Io → Bool
dma_active io = ltb 0 io.dma.bytes_left

abbrev pub hdma_active : Io → Bool
hdma_active io = ltb 0 io.hdma.bytes_left

unfoldable pub perform_stop : Io → Io
perform_stop io =
    let io1 = set_reg reg_key1 0x1 io in
    let lcdc = reg reg_lcdc io1 in
    let io2 = record io1 { lcd_powered = bit_and lcdc 0x80 != 0 } in
    let io3 = set_reg reg_lcdc (bit_and lcdc (complement 0x80)) io2 in
    record io3 { reg_ie = bit_or io3.reg_ie joypadint.mask }

unfoldable pub deactivate_stop : Bool → Io → Io
deactivate_stop double_speed io =
    let io1 = if io.lcd_powered then set_reg reg_lcdc (bit_or (reg reg_lcdc io) 0x80) io else io in
    set_reg reg_key1 (if double_speed then 0x80 else 0) io1

unfoldable pub reset_divider : Io → Io
reset_divider io = set_reg reg_div 0 (record io { divider = 0 })

-- `Machine::undefined`.
abbrev pub undefined : M Unit₀
undefined = gets (λ m. m.stop_when_undefined) >>= λ b. when b break_now

-- `break_on_io` stops once, at the first access while the debugger is not breaking.
abbrev pub break_on_access : M Unit₀
break_on_access = gets (λ m. m.break_on_io && not m.cpu.m_break) >>= λ b. when b break_now

unfoldable pub ioread_joyp : M ℕ
ioread_joyp m =
    let pad = m.io.joypad in
    if pad.ioswitch == 0
    then pure (bit_or 0xd0 pad.buttons) m
    else if pad.ioswitch == 1
    then pure (bit_or 0xe0 pad.keypad) m
    else stop_with assertion m

unfoldable pub ioread_key1 : Machine → ℕ
ioread_key1 m = if not m.cgb_mode then 0xff else bit_or (bit_and (reg reg_key1 m.io) 0x81) 0x7e

unfoldable pub ioread_hdma : ℕ → Io → ℕ
ioread_hdma addr io = if addr == reg_hdma5 then reg addr io else 0xff

-- `ioread_BGPD` with base 0 and the index register BGPI, `ioread_OBPD` with 64 and OBPI.
unfoldable pub ioread_palette : ℕ → ℕ → M ℕ
ioread_palette base index = gets (λ m. bit_and (reg index m.io) 63) >>= λ idx. getpal (base + idx)

-- The table `iologic` of read handlers; a register that has none is returned as it is.
unfoldable pub read_handler : ℕ → M ℕ
read_handler addr =
    if addr == reg_p1
    then ioread_joyp
    else if addr == reg_stat
    then gets (λ m. bit_or (reg addr m.io) 0x80)
    else if addr == reg_key1
    then gets ioread_key1
    else if addr == reg_vbk
    then gets (λ m. bit_or (reg addr m.io) 0xfe)
    else if leb reg_hdma1 addr && leb addr reg_hdma5
    then gets (λ m. ioread_hdma addr m.io)
    else if addr == reg_bgpd
    then ioread_palette 0 reg_bgpi
    else if addr == reg_obpd
    then ioread_palette 64 reg_obpi
    else gets (λ m. reg addr m.io)

unfoldable pub read_io : ℕ → M ℕ
read_io addr =
    if leb 0xff00 addr && ltb addr 0xff80
    then break_on_access >> read_handler addr
    else if addr == reg_ie
    then gets (λ m. m.io.reg_ie)
    else undefined >> pure 0xff
