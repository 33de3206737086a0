-- ===== src/Checks/Words.antt =====
-- The theorems on registers and arithmetic (libgbc/registers.hpp, instructions.cpp) at concrete
-- inputs.
use gamebro.Base.{◌+◌, ◌-◌, ◌%◌, ◌≡◌, refl, arith, ltb}
use gamebro.Registers.{Regs, mask_carry, flag, alu_case, add, adc, sub, sbc, cp, carry_in}
use gamebro.Registers.Alu.{IsSum, IsDifference, alu_case-IsSum, alu_case-IsDifference}
use gamebro.Registers.Decimal.{packed, daa-sum, daa-difference}
use gamebro.Cpu.Arithmetic.{daa}
use gamebro.Cpu.Decode.{decode}
use gamebro.Cpu.Table.{is_missing, unused_opcodes, decode-missing}
use gamebro.Cpu.Decode.{one_of}
use gamebro.Checks.Machines.{cpu}

abbrev regs : Regs
regs = let r = cpu.registers in record r { accum = 0x45; flags = 0x10; b = 7 }

alu_case-IsSum_example :
    IsSum 0x45 0xc8 0 (alu_case add 0xc8 regs)
    × IsSum 0x45 0xc8 (carry_in regs) (alu_case adc 0xc8 regs)
alu_case-IsSum_example = alu_case-IsSum 0xc8 regs (omega arith) (omega arith)

alu_case-IsDifference_example :
    IsDifference 0x45 0xc8 0 (alu_case sub 0xc8 regs).accum (alu_case sub 0xc8 regs)
    × IsDifference 0x45 0xc8 (carry_in regs) (alu_case sbc 0xc8 regs).accum (alu_case sbc 0xc8 regs)
    × IsDifference 0x45 0xc8 0 (alu_case sub 0xc8 regs).accum (alu_case cp 0xc8 regs)
    × ((alu_case cp 0xc8 regs).accum ≡ 0x45)
alu_case-IsDifference_example = alu_case-IsDifference 0xc8 regs (omega arith) (omega arith)

-- 45 + 78, with and without the carry flag.
daa-sum_example :
    let s = daa (alu_case add (packed 78) regs) in
    let t = daa (alu_case adc (packed 78) regs) in
    (s.accum ≡ packed ((45 + 78) % 100))
    × (flag mask_carry s.flags ≡ ltb 99 (45 + 78))
    × (t.accum ≡ packed ((45 + 78 + carry_in regs) % 100))
    × (flag mask_carry t.flags ≡ ltb 99 (45 + 78 + carry_in regs))
unfolding packed
daa-sum_example = daa-sum 45 78 regs (omega arith) (omega arith) refl

-- 45 - 78, with and without the carry flag.
daa-difference_example :
    let s = daa (alu_case sub (packed 78) regs) in
    let t = daa (alu_case sbc (packed 78) regs) in
    (s.accum ≡ packed ((45 + 100 - 78) % 100))
    × (flag mask_carry s.flags ≡ ltb 45 78)
    × (t.accum ≡ packed ((45 + 100 - (78 + carry_in regs)) % 100))
    × (flag mask_carry t.flags ≡ ltb 45 (78 + carry_in regs))
unfolding packed
daa-difference_example = daa-difference 45 78 regs (omega arith) (omega arith) refl

decode-missing_example : is_missing (decode 0xfd) ≡ one_of 0xfd unused_opcodes
decode-missing_example = decode-missing 0xfd (omega arith)
