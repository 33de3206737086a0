-- ===== src/Cpu/Load.antt =====
-- The load and stack instructions of libgbc/instructions.cpp.
use gamebro.Base.{ℕ, ◌+◌, ◌/◌, ◌%◌, ◌^◌, bit_and}
use gamebro.Base.{◌==◌, ◌!=◌, if◌then◌else◌, add_signed, assertion}
use gamebro.Registers.{Regs, mask_halfcarry, mask_carry, setflag}
use gamebro.Registers.{hl, set_hl, getreg_sp, setreg_sp, getreg_af, setreg_af}
use gamebro.State.Monad.{M, Unit₀, ◌>>◌, ◌>>=◌, when, stop_with}
use gamebro.Cpu.{regs, modify_regs, hardware_tick, readop8, readop16, mtread8, mtwrite8, mtread16}
use gamebro.Cpu.{mtwrite16, read_hl, write_hl, dest, put_dest, push_value}

unfoldable pub handler_ld_n_sp : M Unit₀
handler_ld_n_sp = do addr ← readop16; r ← regs; mtwrite16 addr r.sp

unfoldable pub handler_ld_r_n : ℕ → M Unit₀
handler_ld_r_n opcode = do v ← readop16; modify_regs (setreg_sp opcode v)

unfoldable pub handler_ld_r_a_r : ℕ → M Unit₀
handler_ld_r_a_r opcode = do
  r ← regs
  (if bit_and opcode 0x8 != 0
      then (mtread8 (getreg_sp opcode r) >>= λ v. modify_regs (λ r. record r { accum = v }))
      else mtwrite8 (getreg_sp opcode r) r.accum)

unfoldable pub handler_ld_d_n : ℕ → M Unit₀
handler_ld_d_n opcode = do
  imm8 ← readop8
  if bit_and (opcode / 2 ^ 3) 0x7 != 0x6 then put_dest (opcode / 2 ^ 3) imm8 else write_hl imm8

unfoldable pub handler_ld_d_d : ℕ → M Unit₀
handler_ld_d_d opcode = do
  v ← if bit_and opcode 0x7 != 0x6 then dest opcode else read_hl
  if bit_and (opcode / 2 ^ 3) 0x7 != 0x6 then put_dest (opcode / 2 ^ 3) v else write_hl v

unfoldable pub handler_ld_n_a_n : ℕ → M Unit₀
handler_ld_n_a_n opcode = do
  addr ← readop16
  r ← regs
  (if opcode == 0xea
      then mtwrite8 addr r.accum
      else (mtread8 addr >>= λ v. modify_regs (λ r. record r { accum = v })))
  hardware_tick

unfoldable pub handler_ldid_hl_a : ℕ → M Unit₀
handler_ldid_hl_a opcode = do
  r ← regs
  (if bit_and opcode 0x8 == 0
      then write_hl r.accum
      else (read_hl >>= λ v. modify_regs (λ r. record r { accum = v })))
  modify_regs (λ r.
      set_hl (if bit_and opcode 0x10 == 0 then (hl r + 1) % 65536 else (hl r + 65535) % 65536) r)

unfoldable pub handler_push_pop : ℕ → M Unit₀
handler_push_pop opcode = do
  r ← regs
  (if bit_and opcode 4 != 0
      then push_value (getreg_af opcode r)
      else (mtread16 r.sp >>= λ v.
          modify_regs (setreg_af opcode v)
          >> modify_regs (λ r. record r { sp = (r.sp + 2) % 65536 })
          >> when (bit_and (opcode / 2 ^ 4) 0x3 == 0x3)
              (modify_regs (λ r. record r { flags = bit_and r.flags 0xf0 }))))

-- The constant 0xFF00 + n is below 2 ^ 16. The last branch is the failed assertion.
unfoldable pub handler_ld_ff00_a : ℕ → M Unit₀
handler_ld_ff00_a opcode = do
  r ← regs
  (if opcode == 0xe2
      then mtwrite8 (0xff00 + r.c) r.accum
      else if opcode == 0xf2
      then (mtread8 (0xff00 + r.c) >>= λ v. modify_regs (λ r. record r { accum = v }))
      else if opcode == 0xe0
      then (readop8 >>= λ n. mtwrite8 (0xff00 + n) r.accum)
      else if opcode == 0xf0
      then (readop8 >>= λ n.
          mtread8 (0xff00 + n) >>= λ v. modify_regs (λ r. record r { accum = v }))
      else stop_with assertion)

-- 0xF8 adds a signed byte to SP, with the flags of the unsigned addition of the low bytes.
unfoldable pub ld_hl_sp_n : ℕ → Regs → Regs
ld_hl_sp_n imm r =
    let f1 = setflag (bit_and (bit_and r.sp 0xf + bit_and imm 0x0f) 0x10 != 0) 0 mask_halfcarry in
    let f2 = setflag (bit_and (bit_and r.sp 0xff + bit_and imm 0xff) 0x100 != 0) f1 mask_carry in
    set_hl (add_signed r.sp imm) (record r { flags = f2 })

unfoldable pub handler_ld_hl_sp : ℕ → M Unit₀
handler_ld_hl_sp opcode = do
  (if opcode == 0xf8
      then (readop8 >>= λ imm. modify_regs (ld_hl_sp_n imm))
      else modify_regs (λ r. record r { sp = hl r }))
  hardware_tick
