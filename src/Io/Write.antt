-- ===== src/Io/Write.antt =====
-- Writes to the I/O registers: `IO::write_io` and the `iowrite_` handlers of libgbc/io_regs.cpp.
use gamebro.Base.{
  ℕ, zero, suc, ◌+◌, ◌-◌, ◌*◌, ◌%◌, ◌^◌, bit_and, bit_or, true, false, not, ◌&&◌, ◌||◌,
}
use gamebro.Base.{ltb, leb, ◌==◌, ◌!=◌, if◌then◌else◌}
use gamebro.State.{Io, reg, set_reg}
use gamebro.State.Monad.{
  M, Unit₀, pure, ◌>>◌, ◌>>=◌, when, gets, modify_io, modify_memory, break_now,
}
use gamebro.State.Ports.{reg_p1, reg_div, reg_nr52, reg_lcdc, reg_stat, reg_dma, reg_key1, reg_vbk}
use gamebro.State.Ports.{reg_boot, reg_hdma1, reg_hdma2, reg_hdma3, reg_hdma4, reg_hdma5, reg_bgpi}
use gamebro.State.Ports.{reg_bgpd, reg_obpi, reg_obpd, reg_svbk, reg_ie}
use gamebro.Gpu.{setpal, set_video_bank, lcd_power_changed}
use gamebro.Io.{reset_divider, start_dma, start_hdma, hdma_active, undefined, break_on_access}
use gamebro.Mbc.{set_wrambank}

unfoldable pub iowrite_joyp : ℕ → Io → Io
iowrite_joyp value io =
    if bit_and value 0x10 != 0
    then record io { joypad = record io.joypad { ioswitch = 0 } }
    else if bit_and value 0x20 != 0
    then record io { joypad = record io.joypad { ioswitch = 1 } }
    else io

unfoldable pub iowrite_lcdc : ℕ → ℕ → M Unit₀
iowrite_lcdc addr value m =
    let was_enabled = bit_and (reg addr m.io) 0x80 != 0 in
    let io = set_reg addr value m.io in
    let is_enabled = bit_and (reg addr io) 0x80 != 0 in
    let speed = m.memory.speed_factor in
    let (gpu1, io1) =
      if not was_enabled && is_enabled
      then lcd_power_changed true speed m.gpu io
      else if was_enabled && not is_enabled
      then lcd_power_changed false speed m.gpu io
      else (m.gpu, io) in
    pure tt (record m { gpu = gpu1; io = io1 })

unfoldable pub iowrite_stat : ℕ → ℕ → Io → Io
iowrite_stat addr value io =
    set_reg addr (bit_or (bit_and (reg addr io) 0x87) (bit_and value 0x78)) io

-- `APU::write` at its one register.
unfoldable pub iowrite_audio : ℕ → ℕ → Io → Io
iowrite_audio addr value io =
    set_reg addr (bit_or (bit_and (reg addr io) 0xf) (bit_and value 0x80)) io

unfoldable pub iowrite_key1 : ℕ → ℕ → Io → Io
iowrite_key1 addr value io = set_reg addr (bit_or (bit_and (reg addr io) 0x80) (bit_and value 1)) io

unfoldable pub iowrite_vbk : ℕ → ℕ → M Unit₀
iowrite_vbk addr value =
    modify_io (set_reg addr (bit_and value 1)) >> set_video_bank (bit_and value 1)

unfoldable pub iowrite_boot : ℕ → ℕ → M Unit₀
iowrite_boot addr value =
    when (value != 0) (modify_memory (λ mem. record mem { bootrom_enabled = false }))
    >> modify_io (λ io. set_reg addr (bit_or (reg addr io) value) io)

-- `Memory::set_wram_bank`.
unfoldable pub set_wram_bank : ℕ → M Unit₀
set_wram_bank bank m =
    let (mbc, broke) = set_wrambank bank m.memory.mbc in
    (modify_memory (λ mem. record mem { mbc = mbc }) >> when broke break_now) m

unfoldable pub iowrite_svbk : ℕ → ℕ → M Unit₀
iowrite_svbk addr value =
    let low = bit_and value 0x7 in
    let bank = if low == 0 then 1 else low in modify_io (set_reg addr bank) >> set_wram_bank bank

unfoldable pub auto_increment : ℕ → ℕ → ℕ
auto_increment idx mask =
    let v = bit_and idx mask in bit_or (bit_and idx (255 - mask)) (bit_and (v + 1) mask)

-- `iowrite_BGPD` with base 0 and the index register BGPI, `iowrite_OBPD` with 64 and OBPI.
unfoldable pub iowrite_palette : ℕ → ℕ → ℕ → M Unit₀
iowrite_palette base index value = gets (λ m. reg index m.io) >>= λ idx.
    setpal (base + bit_and idx 63) value
    >> when (bit_and idx 0x80 != 0) (modify_io (set_reg index (auto_increment idx 63)))

module _ (read8 : ℕ → M ℕ) (write8 : ℕ → ℕ → M Unit₀) where
  -- `while (src < end) mem.write8(dst++, mem.read8(src++))`, with as many rounds as fuel.
  unfoldable pub copy_block : ℕ → ℕ → ℕ → ℕ → M Unit₀
  copy_block zero src end dst m = pure tt m
  copy_block (suc fuel) src end dst m = elim (ltb src end) [
    | true ↦
        (read8 src >>= λ v.
        write8 dst v >> copy_block fuel ((src + 1) % 65536) end ((dst + 1) % 65536))
          m
    | false ↦ pure tt m
  ]

  -- HDMA5: the source, the target in video RAM, and the length in bytes. A transfer is at most
  -- 2048 bytes, so 2048 rounds are enough.
  unfoldable pub start_transfer : ℕ → M Unit₀
  unfolding copy_block
  start_transfer value m =
      let src = bit_and (bit_or (reg reg_hdma1 m.io * 2 ^ 8) (reg reg_hdma2 m.io)) 0xfff0 in
      let dst0 = bit_and (bit_or (reg reg_hdma3 m.io * 2 ^ 8) (reg reg_hdma4 m.io)) 0x9ff0 in
      let dst = bit_or dst0 0x8000 in
      let num_bytes = (1 + bit_and value 0x7f) * 16 in
      if bit_and value 0x80 == 0
      then (if hdma_active m.io
          then modify_io (λ io. set_reg reg_hdma5 value (start_hdma 0 0 0 io)) m
          else (copy_block 2048 src ((src + num_bytes) % 65536) dst
                >> modify_io (set_reg reg_hdma5 0xff))
              m)
      else modify_io (λ io. set_reg reg_hdma5 value (start_hdma src dst num_bytes io)) m

  unfoldable pub iowrite_hdma : ℕ → ℕ → M Unit₀
  iowrite_hdma addr value = gets (λ m. m.cgb_mode) >>= λ cgb.
      if not cgb
      then pure tt
      else if addr == reg_hdma1 || addr == reg_hdma3
      then modify_io (set_reg addr value)
      else if addr == reg_hdma2 || addr == reg_hdma4
      then modify_io (set_reg addr (bit_and value 0xf0))
      else start_transfer value

  -- The table `iologic` of write handlers; a register that has none is just written.
  unfoldable pub write_handler : ℕ → ℕ → M Unit₀
  write_handler addr value =
      if addr == reg_p1
      then modify_io (iowrite_joyp value)
      else if addr == reg_div
      then modify_io reset_divider
      else if addr == reg_lcdc
      then iowrite_lcdc addr value
      else if addr == reg_stat
      then modify_io (iowrite_stat addr value)
      else if addr == reg_dma
      then modify_io (start_dma (value * 2 ^ 8))
      else if addr == reg_nr52
      then modify_io (iowrite_audio addr value)
      else if addr == reg_key1
      then modify_io (iowrite_key1 addr value)
      else if addr == reg_vbk
      then iowrite_vbk addr value
      else if addr == reg_svbk
      then iowrite_svbk addr value
      else if addr == reg_boot
      then iowrite_boot addr value
      else if leb reg_hdma1 addr && leb addr reg_hdma5
      then iowrite_hdma addr value
      else if addr == reg_bgpd
      then iowrite_palette 0 reg_bgpi value
      else if addr == reg_obpd
      then iowrite_palette 64 reg_obpi value
      else modify_io (set_reg addr value)

  unfoldable pub write_io : ℕ → ℕ → M Unit₀
  write_io addr value =
      if leb 0xff00 addr && ltb addr 0xff80
      then break_on_access >> write_handler addr value
      else if addr == reg_ie
      then modify_io (λ io. record io { reg_ie = value })
      else undefined
