-- ===== src/Registers/Select.antt =====
-- The selectors `getdest` and `getreg` of libgbc/registers.hpp: a write through a selector is read
-- back through it, and is seen through no other.
use gamebro.Base.{ℕ, ◌%◌, ◌<◌, ◌≡◌, ◌≢◌, arith, Bool, ◌==◌, if◌then◌else◌, ok, Returns, and_mask}
use gamebro.Registers.{Regs, getdest, setdest, getreg, setreg}

-- A write to the byte register with code `bf`, which is not that of (HL), is read back through
-- every code of the same register; any other code reads what it read before.
pub getdest-setdest :
    (bf bf' v : ℕ) (r : Regs)
    → bf % 8 ≢ 6
    → Returns
        (λ r'. getdest bf' r' ≡ (if bf % 8 == bf' % 8 then ok v else getdest bf' r))
        (setdest bf v r)
unfolding getdest setdest
getdest-setdest bf bf' v r h = ground (arith, and_mask 3 bf, and_mask 3 bf')

-- A write of a 16-bit word to the register pair with code `bf` is read back through it, and another
-- code reads what it read before.
pub getreg-setreg :
    (bf bf' v : ℕ) (use_sp : Bool) (r : Regs)
    → v < 65536
    → getreg bf' use_sp (setreg bf use_sp v r)
      ≡ (if bf % 4 == bf' % 4 then v else getreg bf' use_sp r)
unfolding getreg setreg
getreg-setreg bf bf' v use_sp r h = ground (arith, and_mask 2 bf, and_mask 2 bf')
