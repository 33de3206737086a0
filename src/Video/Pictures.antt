-- ===== src/Video/Pictures.antt =====
-- The dumps of libgbc/gpu.cpp have the sizes of their pictures and stay inside video RAM.
use gamebro.Base.{
  sym, inl, inr, Bool-cases, fault, ◌>>=◌, Returns-imp, ℕ, zero, suc, ◌+◌, ◌*◌, ◌<◌, ◌≤◌, ◌≡◌, refl,
  ap, arith, ◌∙◌, and-le, Bool, Outcome, ok, ◌==◌, if◌then◌else◌, Returns, Returns-bind,
}
use gamebro.State.{Machine, update}
use gamebro.Gpu.{bg_tiles, tile_data}
use gamebro.Memory.Invariant.{IsValid, Looks, with_break, with_break-IsValid}
use gamebro.Video.{TileConf, pattern_at}
use gamebro.Video.Render.{create_tiledata, tile_config, map_pixel}
use gamebro.Video.Bounds.{map_pixel-create_tiledata}
use gamebro.Video.Dump.{
  Vector, allocate, put_at, dump_row, dump_rows, background_pixel, draw, dump_background,
  tile_pixel, dump_tiles,
}
use gamebro.Safety.Setup.{tile_config-Looks}

-- A call that returns, returns what it returns.
Returns-self :
    {A : Type 0} (P : A → Type 0) (o : Outcome A) → Returns P o → Returns (λ a. o ≡ ok a) o
Returns-self P (ok a) h = refl
Returns-self P (fault e) h = absurd h

-- From the index `low` on, up to the end of the rows, the picture has been drawn over an older one.
module _ (pixel : ℕ → ℕ → Outcome ℕ) (width height size : ℕ)
    (fits : (x y : ℕ) → x < width → y < height → y * width + x < size)
    (fine : (x y : ℕ) → x < width → y < height → Returns (λ c. Unit) (pixel x y)) where
  record IsRow (y x : ℕ) (old new : Vector) : Type 0 where
    same_size : new.size ≡ old.size
    kept : (i : ℕ) → i < y * width + x → new.elements i ≡ old.elements i
    drawn : (x' : ℕ) → x ≤ x' → x' < width → pixel x' y ≡ ok (new.elements (y * width + x'))

  put_at-Returns :
      (i color : ℕ) (old : Vector)
      → i < old.size
      → put_at i color old ≡ ok (record old { elements = update old.elements i color })
  unfolding put_at
  put_at-Returns i color old h = ground (arith, h)

  IsRow-update :
      (y x color : ℕ) (old new : Vector)
      → x < width
      → pixel x y ≡ ok color
      → IsRow y (x + 1) (record old { elements = update old.elements (y * width + x) color }) new
      → IsRow y x old new
  IsRow-update y x color old new hx e r = record {
    same_size = r.same_size;
    kept = λ i h. r.kept i (omega (arith, h)) ∙ ground (arith, h);
    drawn = λ x' lo hi. elim (Bool-cases (x' == x)) [
      | inl s ↦
          let same : x' ≡ x = ground (arith, s) in
          rw same (e ∙ ap ok (sym (r.kept (y * width + x) (omega arith) ∙ ground arith)))
      | inr s ↦ r.drawn x' (ground (arith, s, lo)) hi
    ];
  }

  dump_row-IsRow :
      (y left x : ℕ) (old : Vector)
      → y < height
      → left + x ≡ width
      → old.size ≡ size
      → Returns (IsRow y x old) (dump_row pixel width y left x old)
  unfolding dump_row
  dump_row-IsRow y zero x old hy h s = record {
    same_size = refl;
    kept = λ i k. refl;
    drawn = λ x' lo hi. absurd (omega (arith, h, lo, hi));
  }
  dump_row-IsRow y (suc left) x old hy h s =
      Returns-bind (λ color. pixel x y ≡ ok color) (IsRow y x old) (pixel x y) _
        (Returns-self (λ c. Unit) (pixel x y) (fine x y (omega (arith, h)) hy))
        (λ color e.
          rw (put_at-Returns (y * width + x) color old (rw s (fits x y (omega (arith, h)) hy))) (
            Returns-imp
              (IsRow y (x + 1)
                (record old { elements = update old.elements (y * width + x) color }))
              (IsRow y x old) (dump_row pixel width y left (x + 1) _)
              (λ new r. IsRow-update y x color old new (omega (arith, h)) e r)
              (dump_row-IsRow y left (x + 1) _ hy (omega (arith, h)) s)))

  record AreRows (y : ℕ) (old new : Vector) : Type 0 where
    same_size : new.size ≡ old.size
    kept : (i : ℕ) → i < y * width → new.elements i ≡ old.elements i
    drawn :
        (x' y' : ℕ)
        → x' < width
        → y ≤ y'
        → y' < height
        → pixel x' y' ≡ ok (new.elements (y' * width + x'))

  next_row : (y : ℕ) → (y + 1) * width ≡ y * width + width
  next_row y = omega arith

  AreRows-IsRow :
      (y : ℕ) (old mid new : Vector)
      → IsRow y 0 old mid
      → AreRows (y + 1) mid new
      → AreRows y old new
  AreRows-IsRow y old mid new row rows = record {
    same_size = rows.same_size ∙ row.same_size;
    kept = λ i h. rows.kept i (omega (arith, h, next_row y)) ∙ row.kept i (omega (arith, h));
    drawn = λ x' y' hx lo hi. elim (Bool-cases (y' == y)) [
      | inl s ↦
          let same : y' ≡ y = ground (arith, s) in
          rw same (
            row.drawn x' (omega arith) hx
            ∙ ap ok (sym (rows.kept (y * width + x') (omega (arith, hx, next_row y)))))
      | inr s ↦ rows.drawn x' y' hx (ground (arith, s, lo)) hi
    ];
  }

  dump_rows-AreRows :
      (left y : ℕ) (old : Vector)
      → left + y ≡ height
      → old.size ≡ size
      → Returns (AreRows y old) (dump_rows pixel width left y old)
  unfolding dump_rows
  dump_rows-AreRows zero y old h s = record {
    same_size = refl;
    kept = λ i k. refl;
    drawn = λ x' y' hx lo hi. absurd (omega (arith, h, lo, hi));
  }
  dump_rows-AreRows (suc left) y old h s =
      Returns-bind (IsRow y 0 old) (AreRows y old) (dump_row pixel width y width 0 old) _
        (dump_row-IsRow y width 0 old (omega (arith, h)) (omega arith) s)
        (λ mid row.
          Returns-imp (AreRows (y + 1) mid) (AreRows y old) (dump_rows pixel width left (y + 1) mid)
            (λ new rows. AreRows-IsRow y old mid new row rows)
            (dump_rows-AreRows left (y + 1) mid (omega (arith, h)) (row.same_size ∙ s)))

  -- The whole picture, in a vector that is large enough.
  picture-Returns :
      Returns
        (λ v.
          (v.size ≡ size)
          × ((x y : ℕ) → x < width → y < height → pixel x y ≡ ok (v.elements (y * width + x))))
        (dump_rows pixel width height 0 (allocate size))
  picture-Returns =
      Returns-imp (AreRows 0 (allocate size)) _ (dump_rows pixel width height 0 (allocate size))
        (λ v rows. (rows.same_size, λ x y hx hy. rows.drawn x y hx (omega arith) hy))
        (dump_rows-AreRows height 0 (allocate size) (omega arith) refl)

tile_pixel-Returns :
    (m : Machine) (tconf : TileConf) (bank x y : ℕ)
    → x < 128
    → y < 192
    → Returns (λ c. Unit) (tile_pixel m tconf (if bank == 0 then 0x00 else 0x08) x y)
unfolding create_tiledata pattern_at
tile_pixel-Returns m tconf bank x y hx hy = ground (arith, and-le x 7, and-le y 7)

background_pixel-Returns :
    (m : Machine) (tconf : TileConf) (x y : ℕ)
    → IsValid m
    → x < 256
    → y < 256
    → Returns (λ c. Unit) (background_pixel m tconf x y)
background_pixel-Returns m tconf x y v hx hy =
    Returns-bind (λ c. Unit) (λ c. Unit)
      (map_pixel m.memory.video_ram tconf (create_tiledata (bg_tiles m.io) (tile_data m.io) m) x y)
      (λ shown. ok shown.2) ((map_pixel-create_tiledata m tconf x y v hx hy).0) (λ shown u. tt)

-- A picture: the size of its vector, the colour of every pixel at its index, as it is computed in
-- the machine with the tile configuration that is read first, and no change but the debugger's flag.
abbrev pub Pictures :
    (Machine → TileConf → ℕ → ℕ → Outcome ℕ) → ℕ → ℕ → ℕ → Machine → Vector × Machine → Type 0
Pictures pixel width height size m out =
    (out.0.size ≡ size)
    × Looks m out
    × ((x y : ℕ)
        → x < width
        → y < height
        → Returns (λ conf. pixel conf.1 conf.0 x y ≡ ok (out.0.elements (y * width + x)))
            (tile_config m))

module _ (pixel : Machine → TileConf → ℕ → ℕ → Outcome ℕ) (width height size : ℕ)
    (fits : (x y : ℕ) → x < width → y < height → y * width + x < size) (m : Machine) (v : IsValid m)
    (fine : (b : Bool) (tconf : TileConf) (x y : ℕ)
      → x < width
      → y < height
      → Returns (λ c. Unit) (pixel (with_break b m) tconf x y)) where
  draw-Pictures :
      Returns
        (Pictures pixel width height size m)
        (draw (λ m tconf. dump_rows (pixel m tconf) width height 0 (allocate size)) m)
  draw-Pictures = go (tile_config m) (tile_config-Looks m v)
    where
      go :
          (o : Outcome (TileConf × Machine))
          → Returns (Looks m) o
          → Returns
              (λ out.
                (out.0.size ≡ size)
                × Looks m out
                × ((x y : ℕ)
                    → x < width
                    → y < height
                    → Returns
                        (λ conf. pixel conf.1 conf.0 x y ≡ ok (out.0.elements (y * width + x)))
                        o))
              (o >>= λ out.
                dump_rows (pixel out.1 out.0) width height 0 (allocate size) >>= λ colors.
                ok (colors, out.1))
      go (ok (tconf, m')) e =
          let b : Bool = m'.cpu.m_break in
          Returns-bind
            (λ v.
              (v.size ≡ size)
              × ((x y : ℕ)
                  → x < width
                  → y < height
                  → pixel m' tconf x y ≡ ok (v.elements (y * width + x))))
            _ (dump_rows (pixel m' tconf) width height 0 (allocate size)) _
            (picture-Returns (pixel m' tconf) width height size fits
              (λ x y hx hy. rw e (fine b tconf x y hx hy)))
            (λ v r. (r.0, e, r.1))
      go (fault e) h = absurd h

-- In a valid machine the dump of the background returns a vector of 256 by 256 elements and the dump
-- of the tiles of either bank one of 128 by 192. The element at `y` times the width plus `x` is the
-- colour that the code computes for the pixel at `x` and `y`: no index is refused by `at`, no read of
-- video RAM is out of bounds, and nothing changes but the debugger's flag.
pub dumps-Pictures :
    (m : Machine) (bank : ℕ)
    → IsValid m
    → Returns (Pictures background_pixel 256 256 65536 m) (dump_background m)
      × Returns
          (Pictures
            (λ m tconf. tile_pixel m tconf (if bank == 0 then 0x00 else 0x08))
            128
            192
            24576
            m)
          (dump_tiles bank m)
unfolding dump_background dump_tiles
dumps-Pictures m bank v = (
  draw-Pictures background_pixel 256 256 65536 (λ x y hx hy. omega (arith, hx, hy)) m v
      (λ b tconf x y hx hy.
        background_pixel-Returns (with_break b m) tconf x y (with_break-IsValid b m v) hx hy),
  draw-Pictures (λ m tconf. tile_pixel m tconf (if bank == 0 then 0x00 else 0x08)) 128 192 24576
      (λ x y hx hy. omega (arith, hx, hy)) m v
      (λ b tconf x y hx hy. tile_pixel-Returns (with_break b m) tconf bank x y hx hy),
)
