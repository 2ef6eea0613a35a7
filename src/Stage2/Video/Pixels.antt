-- ===== src/Stage2/Video/Pixels.antt =====
-- What a glyph changes in the frame buffer, by the coordinates of a pixel.
use ziemniak.Base.{
  ℕ, zero, suc, ◌+◌, ◌-◌, ◌*◌, ◌^◌, ◌<◌, ◌≤◌, ◌≡◌, inl, inr, refl, ap, ◌∙◌, arith, ltb, leb, ◌==◌,
  ◌&&◌, if◌then◌else◌, bit_and, u16, u32, ◌>>>◌, Bool-cases, ==-cases, ne→==,
}
use native.Mathlib.Nat.{mul-le-mul, le_refl}
use native.Mathlib.Decide.{dec_lt}
use ziemniak.Stage2.Video.{
  Buffer, setpixel, clearpixel, putpixel, line_loop, glyph_loop, font_size_x,
}

-- White or black, for a bit of a line of a glyph.
unfoldable pub colour : (line fx : ℕ) → ℕ
colour line fx = if bit_and line (128 >>> fx) == 0 then 0x00000000 else 0xFFFFFFFF

-- A pixel left of `w` in a row above another lies before that row.
pub row-le : (w y y' : ℕ) → y < y' → y * w + w ≤ y' * w
row-le w y y' h =
    let below : suc y ≤ y' = omega arith in
    let product : suc y * w ≤ y' * w = mul-le-mul below (le_refl w) in omega arith

index-lt : (w h x y : ℕ) → w < 2 ^ 16 → h < 2 ^ 16 → x < w → y < h → y * w + x < 2 ^ 32
index-lt w h x y narrow low hx hy =
    let inside : y * w + w ≤ h * w = row-le w y h hy in
    let top : h * w ≤ 65535 * 65535 =
      mul-le-mul {n₂ = 65535} {m₂ = 65535} (omega arith) (omega arith) in
    omega arith

index-eq : (w x y x' y' : ℕ) → x < w → x' < w → (y * w + x == y' * w + x') ≡ (x == x' && y == y')
index-eq w x y x' y' hx hx' = elim (dec_lt y y') [
  | yes above ↦ ground (arith, row-le w y y' above)
  | no other ↦ elim (dec_lt y' y) [
    | yes below ↦ ground (arith, row-le w y' y below)
    | no same ↦ let e : y ≡ y' = omega arith in rw e (ground arith)
  ]
]

-- Outside the screen nothing changes.
abbrev pub Within : (w h : ℕ) (old new : Buffer) → Type 0
Within w h old new = (j : ℕ) → h * w ≤ j → new j ≡ old j

module _ (w h : ℕ) (narrow : w < 2 ^ 16) (low : h < 2 ^ 16) where
  setpixel-at :
      (x y val px py : ℕ) (b : Buffer)
      → x < w
      → y < h
      → px < w
      → setpixel w x y val b (py * w + px) ≡ (if px == x && py == y then val else b (py * w + px))
  unfolding setpixel
  setpixel-at x y val px py b hx hy hp =
      let fits : u32 (y * w + x) ≡ y * w + x = omega (arith, index-lt w h x y narrow low hx hy) in
      rw (fits, index-eq w px py x y hp hx) refl

  setpixel-Within : (x y val : ℕ) (b : Buffer) → x < w → y < h → Within w h b (setpixel w x y val b)
  unfolding setpixel
  setpixel-Within x y val b hx hy j out =
      ground (arith, index-lt w h x y narrow low hx hy, row-le w y h hy)

  -- One round of the loop on `fnt_x`.
  dot : (x y line fx : ℕ) → Buffer → Buffer
  dot x y line fx b =
      if bit_and line (128 >>> fx) == 0
      then clearpixel w (u16 (x + fx)) y b
      else putpixel w (u16 (x + fx)) y b

  dot-setpixel :
      (x y line fx : ℕ) (b : Buffer)
      → x + fx < w
      → dot x y line fx b ≡ setpixel w (x + fx) y (colour line fx) b
  unfolding dot colour
  dot-setpixel x y line fx b hx =
      let fits : u16 (x + fx) ≡ x + fx = omega arith in
      rw fits (elim (Bool-cases (bit_and line (128 >>> fx) == 0)) [
        | inl off ↦ rw off refl
        | inr on ↦ rw on refl
      ])

  dot-at :
      (x y line fx px py : ℕ) (b : Buffer)
      → x + fx < w
      → y < h
      → px < w
      → dot x y line fx b (py * w + px)
        ≡ (if px == x + fx && py == y then colour line (px - x) else b (py * w + px))
  dot-at x y line fx px py b hx hy hp =
      ap (λ (f : Buffer). f (py * w + px)) (dot-setpixel x y line fx b hx)
      ∙ setpixel-at (x + fx) y (colour line fx) px py b hx hy hp
      ∙ elim (==-cases px (x + fx)) [
        | inl here ↦ let same : fx ≡ px - x = omega arith in rw (← same) refl
        | inr other ↦ rw (ne→== px (x + fx) other) refl
      ]

  line_loop-at :
      (left fx x y line px py : ℕ) (b : Buffer)
      → x + fx + left ≤ w
      → y < h
      → px < w
      → line_loop left fx w x y line b (py * w + px) ≡ (
          if py == y && (leb (x + fx) px && ltb px (x + fx + left))
          then colour line (px - x)
          else b (py * w + px))
  unfolding line_loop dot
  line_loop-at zero fx x y line px py b hx hy hp = ground arith
  line_loop-at (suc left) fx x y line px py b hx hy hp =
      line_loop-at left (fx + 1) x y line px py (dot x y line fx b) (omega arith) hy hp
      ∙ ground (arith, dot-at x y line fx px py b)

  line_loop-Within :
      (left fx x y line : ℕ) (b : Buffer)
      → x + fx + left ≤ w
      → y < h
      → Within w h b (line_loop left fx w x y line b)
  unfolding line_loop dot
  line_loop-Within zero fx x y line b hx hy j out = refl
  line_loop-Within (suc left) fx x y line b hx hy j out =
      line_loop-Within left (fx + 1) x y line (dot x y line fx b) (omega arith) hy j out
      ∙ ap (λ (f : Buffer). f j) (dot-setpixel x y line fx b (omega arith))
      ∙ setpixel-Within (x + fx) y (colour line fx) b (omega arith) hy j out

  -- One round of the loop on `fnt_y`.
  abbrev row : (x y line fy : ℕ) → Buffer → Buffer
  row x y line fy b = line_loop font_size_x 0 w x (u16 (y + fy)) line b

  row-at :
      (x y fy px py : ℕ) (glyph : ℕ → ℕ) (b : Buffer)
      → x + 8 ≤ w
      → y + fy < h
      → px < w
      → row x y (glyph fy) fy b (py * w + px) ≡ (
          if py == y + fy && (leb x px && ltb px (x + 8))
          then colour (glyph (py - y)) (px - x)
          else b (py * w + px))
  row-at x y fy px py glyph b hx hy hp =
      let fits : u16 (y + fy) ≡ y + fy = omega arith in
      rw fits (
        line_loop-at 8 0 x (y + fy) (glyph fy) px py b (omega arith) hy hp
        ∙ elim (==-cases py (y + fy)) [
          | inl here ↦ let same : fy ≡ py - y = omega arith in rw (← same) (ground arith)
          | inr other ↦ rw (ne→== py (y + fy) other) refl
        ])

  -- A pixel of the cell at (x, y) shows its bit of the glyph, any other pixel what it did before.
  pub glyph_loop-at :
      (left fy x y px py : ℕ) (glyph : ℕ → ℕ) (b : Buffer)
      → x + 8 ≤ w
      → y + fy + left ≤ h
      → px < w
      → glyph_loop left fy w x y glyph b (py * w + px) ≡ (
          if (leb (y + fy) py && ltb py (y + fy + left)) && (leb x px && ltb px (x + 8))
          then colour (glyph (py - y)) (px - x)
          else b (py * w + px))
  unfolding glyph_loop
  glyph_loop-at zero fy x y px py glyph b hx hy hp = ground arith
  glyph_loop-at (suc left) fy x y px py glyph b hx hy hp =
      glyph_loop-at left (fy + 1) x y px py glyph (row x y (glyph fy) fy b) hx (omega arith) hp
      ∙ ground (arith, row-at x y fy px py glyph b)

  pub glyph_loop-Within :
      (left fy x y : ℕ) (glyph : ℕ → ℕ) (b : Buffer)
      → x + 8 ≤ w
      → y + fy + left ≤ h
      → Within w h b (glyph_loop left fy w x y glyph b)
  unfolding glyph_loop
  glyph_loop-Within zero fy x y glyph b hx hy j out = refl
  glyph_loop-Within (suc left) fy x y glyph b hx hy j out =
      let fits : u16 (y + fy) ≡ y + fy = omega arith in
      glyph_loop-Within left (fy + 1) x y glyph (row x y (glyph fy) fy b) hx (omega arith) j out
      ∙ rw fits (line_loop-Within 8 0 x (y + fy) (glyph fy) b (omega arith) (omega arith) j out)
