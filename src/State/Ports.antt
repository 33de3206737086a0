-- ===== src/State/Ports.antt =====
-- The addresses of the I/O registers and the interrupt sources (libgbc/io.hpp, libgbc/io.cpp).
use gamebro.Base.{ℕ, bit_or}
use gamebro.State.{Io, reg, set_reg}

-- The enumerators of `IO::regnames_t` that the emulator names.
abbrev pub reg_p1 : ℕ
reg_p1 = 0xff00

abbrev pub reg_div : ℕ
reg_div = 0xff04

abbrev pub reg_tima : ℕ
reg_tima = 0xff05

abbrev pub reg_tma : ℕ
reg_tma = 0xff06

abbrev pub reg_tac : ℕ
reg_tac = 0xff07

abbrev pub reg_if : ℕ
reg_if = 0xff0f

abbrev pub reg_nr10 : ℕ
reg_nr10 = 0xff10

abbrev pub reg_nr11 : ℕ
reg_nr11 = 0xff11

abbrev pub reg_nr52 : ℕ
reg_nr52 = 0xff26

abbrev pub reg_lcdc : ℕ
reg_lcdc = 0xff40

abbrev pub reg_stat : ℕ
reg_stat = 0xff41

abbrev pub reg_scy : ℕ
reg_scy = 0xff42

abbrev pub reg_scx : ℕ
reg_scx = 0xff43

abbrev pub reg_ly : ℕ
reg_ly = 0xff44

abbrev pub reg_lyc : ℕ
reg_lyc = 0xff45

abbrev pub reg_dma : ℕ
reg_dma = 0xff46

abbrev pub reg_bgp : ℕ
reg_bgp = 0xff47

abbrev pub reg_obp0 : ℕ
reg_obp0 = 0xff48

abbrev pub reg_obp1 : ℕ
reg_obp1 = 0xff49

abbrev pub reg_wy : ℕ
reg_wy = 0xff4a

abbrev pub reg_wx : ℕ
reg_wx = 0xff4b

abbrev pub reg_key1 : ℕ
reg_key1 = 0xff4d

abbrev pub reg_vbk : ℕ
reg_vbk = 0xff4f

abbrev pub reg_boot : ℕ
reg_boot = 0xff50

abbrev pub reg_hdma1 : ℕ
reg_hdma1 = 0xff51

abbrev pub reg_hdma2 : ℕ
reg_hdma2 = 0xff52

abbrev pub reg_hdma3 : ℕ
reg_hdma3 = 0xff53

abbrev pub reg_hdma4 : ℕ
reg_hdma4 = 0xff54

abbrev pub reg_hdma5 : ℕ
reg_hdma5 = 0xff55

abbrev pub reg_bgpi : ℕ
reg_bgpi = 0xff68

abbrev pub reg_bgpd : ℕ
reg_bgpd = 0xff69

abbrev pub reg_obpi : ℕ
reg_obpi = 0xff6a

abbrev pub reg_obpd : ℕ
reg_obpd = 0xff6b

abbrev pub reg_svbk : ℕ
reg_svbk = 0xff70

abbrev pub reg_ie : ℕ
reg_ie = 0xffff

-- `interrupt_t`, without its name and its callback, which is null until a client sets it.
pub record Interrupt : Type 0 where
  pub mask : ℕ
  pub fixed_address : ℕ

abbrev pub vblank : Interrupt
vblank = record { mask = 0x1; fixed_address = 0x40 }

abbrev pub lcd_stat : Interrupt
lcd_stat = record { mask = 0x2; fixed_address = 0x48 }

abbrev pub timerint : Interrupt
timerint = record { mask = 0x4; fixed_address = 0x50 }

abbrev pub serialint : Interrupt
serialint = record { mask = 0x8; fixed_address = 0x58 }

abbrev pub joypadint : Interrupt
joypadint = record { mask = 0x10; fixed_address = 0x60 }

-- `IO::trigger`.
unfoldable pub trigger : Interrupt → Io → Io
trigger intr io = set_reg reg_if (bit_or (reg reg_if io) intr.mask) io
