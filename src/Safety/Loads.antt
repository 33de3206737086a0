-- ===== src/Safety/Loads.antt =====
-- The load and stack instructions of libgbc/instructions.cpp, and its jumps, are safe.
use gamebro.Base.{
  ℕ, ◌+◌, ◌/◌, ◌%◌, ◌^◌, ◌<◌, ◌≡◌, ◌≢◌, arith, Bool, true, false, ◌||◌, ◌==◌, ◌!=◌, if◌then◌else◌,
  bit_and, and-le, assertion,
}
use gamebro.Registers.{hl, set_hl, getreg_sp, setreg_sp, getreg_af, setreg_af}
use gamebro.State.Monad.{stop_with}
use gamebro.Cpu.{modify_regs, read_hl, write_hl, dest, put_dest}
use gamebro.Cpu.Load.{
  handler_ld_n_sp, handler_ld_r_n, handler_ld_r_a_r, handler_ld_d_n, handler_ld_d_d,
  handler_ld_n_a_n, handler_ldid_hl_a, handler_push_pop, handler_ld_ff00_a, handler_ld_hl_sp,
  ld_hl_sp_n,
}
use gamebro.Safety.Rules.{Safely, Any, Safely-bind, Safely-then, Safely-if, Safely-when}
use gamebro.Safety.Access.{
  Byte, hardware_tick-Safely, modify_regs-Safely, regs-Safely, readop8-Safely, readop16-Safely,
  mtread8-Safely, mtread16-Safely, mtwrite8-Safely, mtwrite16-Safely, read_hl-Safely,
  write_hl-Safely, dest-Safely, put_dest-Safely, push_value-Safely,
}
use gamebro.Safety.Ranges.{set_hl-IsRegs, getreg-word, setreg-IsRegs, ld_hl_sp_n-IsRegs}

-- Storing a byte in the accumulator.
pub set_accum-Safely : (v : ℕ) → v < 256 → Safely Any (modify_regs (λ r. record r { accum = v }))
set_accum-Safely v h = modify_regs-Safely (λ r. record r { accum = v }) (λ r k. ground (arith, k))

pub ld_n_sp-Safely : Safely Any handler_ld_n_sp
unfolding handler_ld_n_sp
ld_n_sp-Safely =
    Safely-bind readop16-Safely
      (λ addr h. Safely-bind regs-Safely (λ r k. mtwrite16-Safely addr r.sp h k.sp_word))

pub ld_r_n-Safely : (opcode : ℕ) → Safely Any (handler_ld_r_n opcode)
unfolding handler_ld_r_n
ld_r_n-Safely opcode =
    Safely-bind readop16-Safely
      (λ v h. modify_regs-Safely (setreg_sp opcode v) (λ r k. setreg-IsRegs _ true v r k))

pub ld_r_a_r-Safely : (opcode : ℕ) → Safely Any (handler_ld_r_a_r opcode)
unfolding handler_ld_r_a_r
ld_r_a_r-Safely opcode = Safely-bind regs-Safely (λ r k.
    let addr : getreg_sp opcode r < 65536 = getreg-word _ true r k in
    Safely-if (bit_and opcode 0x8 != 0)
      (λ e. Safely-bind (mtread8-Safely _ addr) (λ v h. set_accum-Safely v h))
      (λ e. mtwrite8-Safely _ r.accum addr k.accum_byte))

-- A value stored in the register or in memory, by a code.
pub store-Safely :
    (b : Bool) (bf v : ℕ)
    → ((b ≡ true) → bit_and bf 7 ≢ 6)
    → v < 256
    → Safely Any (if b then put_dest bf v else write_hl v)
store-Safely b bf v h hv =
    Safely-if b (λ e. put_dest-Safely bf v (h e) hv) (λ e. write_hl-Safely v hv)

pub fetch-Safely :
    (opcode : ℕ) → Safely Byte (if bit_and opcode 7 != 6 then dest opcode else read_hl)
fetch-Safely opcode =
    Safely-if (bit_and opcode 7 != 6) (λ e. dest-Safely opcode (ground (arith, e)))
      (λ e. read_hl-Safely)

pub ld_d_n-Safely : (opcode : ℕ) → Safely Any (handler_ld_d_n opcode)
unfolding handler_ld_d_n
ld_d_n-Safely opcode = Safely-bind readop8-Safely (λ v h.
    store-Safely (bit_and (opcode / 2 ^ 3) 0x7 != 0x6) (opcode / 2 ^ 3) v (λ e. ground (arith, e))
      h)

pub ld_d_d-Safely : (opcode : ℕ) → Safely Any (handler_ld_d_d opcode)
unfolding handler_ld_d_d
ld_d_d-Safely opcode = Safely-bind (fetch-Safely opcode) (λ v h.
    store-Safely (bit_and (opcode / 2 ^ 3) 0x7 != 0x6) (opcode / 2 ^ 3) v (λ e. ground (arith, e))
      h)

pub ld_n_a_n-Safely : (opcode : ℕ) → Safely Any (handler_ld_n_a_n opcode)
unfolding handler_ld_n_a_n
ld_n_a_n-Safely opcode = Safely-bind readop16-Safely (λ addr h. Safely-bind regs-Safely (λ r k.
    Safely-then
      (Safely-if (opcode == 0xea) (λ e. mtwrite8-Safely addr r.accum h k.accum_byte)
        (λ e. Safely-bind (mtread8-Safely addr h) (λ v hv. set_accum-Safely v hv)))
      hardware_tick-Safely))

pub ldid_hl_a-Safely : (opcode : ℕ) → Safely Any (handler_ldid_hl_a opcode)
unfolding handler_ldid_hl_a
ldid_hl_a-Safely opcode = Safely-bind regs-Safely (λ r k.
    Safely-then
      (Safely-if (bit_and opcode 0x8 == 0) (λ e. write_hl-Safely r.accum k.accum_byte)
        (λ e. Safely-bind read_hl-Safely (λ v hv. set_accum-Safely v hv)))
      (modify_regs-Safely
        (λ r.
          set_hl (if bit_and opcode 0x10 == 0 then (hl r + 1) % 65536 else (hl r + 65535) % 65536)
            r)
        (λ r k. set_hl-IsRegs _ r k)))

pub push_pop-Safely : (opcode : ℕ) → Safely Any (handler_push_pop opcode)
unfolding handler_push_pop
push_pop-Safely opcode = Safely-bind regs-Safely (λ r k.
    Safely-if (bit_and opcode 4 != 0)
      (λ e. push_value-Safely (getreg_af opcode r) (getreg-word _ false r k))
      (λ e. Safely-bind (mtread16-Safely r.sp k.sp_word) (λ v h.
        Safely-then
          (Safely-then
            (modify_regs-Safely (setreg_af opcode v) (λ r k. setreg-IsRegs _ false v r k))
            (modify_regs-Safely (λ r. record r { sp = (r.sp + 2) % 65536 })
              (λ r k. ground (arith, k))))
          (Safely-when (bit_and (opcode / 2 ^ 4) 0x3 == 0x3) (
            modify_regs-Safely (λ r. record r { flags = bit_and r.flags 0xf0 })
              (λ r k. ground (arith, k, and-le r.flags 0xf0)))))))

pub ld_hl_sp-Safely : (opcode : ℕ) → Safely Any (handler_ld_hl_sp opcode)
unfolding handler_ld_hl_sp
ld_hl_sp-Safely opcode =
    Safely-then
      (Safely-if (opcode == 0xf8)
        (λ e.
          Safely-bind readop8-Safely
            (λ imm h. modify_regs-Safely (ld_hl_sp_n imm) (λ r k. ld_hl_sp_n-IsRegs imm r k)))
        (λ e. modify_regs-Safely (λ r. record r { sp = hl r }) (λ r k. ground (arith, k))))
      hardware_tick-Safely

-- The four opcodes that the decoder sends here; any other fails the assertion.
pub ld_ff00_a-Safely :
    (opcode : ℕ)
    → ((opcode == 0xe2) || ((opcode == 0xf2) || ((opcode == 0xe0) || (opcode == 0xf0)))) ≡ true
    → Safely Any (handler_ld_ff00_a opcode)
unfolding handler_ld_ff00_a
ld_ff00_a-Safely opcode one = Safely-bind regs-Safely (λ r k.
    Safely-if (opcode == 0xe2)
      (λ e. mtwrite8-Safely (0xff00 + r.c) r.accum (omega (arith, k.c_byte)) k.accum_byte)
      (λ e1.
        Safely-if (opcode == 0xf2)
          (λ e.
            Safely-bind (mtread8-Safely (0xff00 + r.c) (omega (arith, k.c_byte)))
              (λ v hv. set_accum-Safely v hv))
          (λ e2.
            Safely-if (opcode == 0xe0)
              (λ e.
                Safely-bind readop8-Safely
                  (λ n hn. mtwrite8-Safely (0xff00 + n) r.accum (omega arith) k.accum_byte))
              (λ e3.
                Safely-if {q = stop_with assertion} (opcode == 0xf0)
                  (λ e. Safely-bind readop8-Safely (λ n hn.
                    Safely-bind (mtread8-Safely (0xff00 + n) (omega arith))
                      (λ v hv. set_accum-Safely v hv)))
                  (λ e4. absurd (ground (arith, one, e1, e2, e3, e4)))))))
