-- ===== src/Stage2/Video/Terminal.antt =====
-- A terminal as a grid of characters, and that the frame buffer shows it.
use ziemniak.Base.{
  ℕ, ◌+◌, ◌-◌, ◌*◌, ◌/◌, ◌^◌, ◌<◌, ◌≤◌, ◌≡◌, refl, ap, ◌∙◌, arith, List, [], ◌∷◌, Option, none,
  some, ltb, leb, ◌==◌, ◌&&◌, if◌then◌else◌, Bool-cases, true, false, inl, inr, length, u16,
}
use ziemniak.Stage2.Video.{Video, Buffer, newline, wrap, draw, putc, glyph_loop, font_size_x}
use ziemniak.Stage2.Video.Pixels.{colour, Within, glyph_loop-at, glyph_loop-Within}

-- The cursor, which may stand right of the last column, and what each cell shows.
pub record Terminal : Type 0 where
  pub col : ℕ
  pub row : ℕ
  pub cell : (col row : ℕ) → Option ℕ

abbrev pub place : (chr : ℕ) → Terminal → Terminal
place chr t = record t {
  col = t.col + 1;
  cell = λ c r. if c == t.col && r == t.row then some chr else t.cell c r;
}

module _ (cols rows : ℕ) where
  -- After the last row the first one follows; nothing is scrolled or cleared.
  abbrev pub next_line : Terminal → Terminal
  next_line t = record t { col = 0; row = if t.row + 1 == rows then 0 else t.row + 1 }

  abbrev pub enter : (chr : ℕ) → Terminal → Terminal
  enter chr t =
      if chr == b'\n' then next_line t else place chr (if t.col == cols then next_line t else t)

  abbrev pub enter_all : List ℕ → Terminal → Terminal
  enter_all [] t = t
  enter_all (c ∷ cs) t = enter_all cs (enter c t)

-- A screen with room for a character.
pub record IsScreen (s : Video) : Type 0 where
  pub narrow : s.scr_width < 2 ^ 16
  pub low : s.scr_height < 2 ^ 16
  pub wide : 8 ≤ s.scr_width
  pub high : 16 ≤ s.scr_height

abbrev pub cols : Video → ℕ
cols s = s.scr_width / 8

abbrev pub rows : Video → ℕ
rows s = s.scr_height / 16

-- A pixel of a cell, black if the cell is empty.
abbrev pub shade : (font : ℕ → ℕ) → Option ℕ → (fx fy : ℕ) → ℕ
shade font none fx fy = 0
shade font (some chr) fx fy = colour (font (chr * 16 + fy)) fx

-- The screen of `s` is that of `start`, with nothing changed outside the visible area, and shows
-- the terminal.
pub record Shows (start : Video) (t : Terminal) (s : Video) : Type 0 where
  pub width : s.scr_width ≡ start.scr_width
  pub height : s.scr_height ≡ start.scr_height
  pub font : s.bios_font ≡ start.bios_font
  pub col : s.text_col ≡ t.col
  pub row : s.text_row ≡ t.row
  pub col-le : t.col ≤ cols start
  pub row-lt : t.row < rows start
  pub pixels :
      (c r fx fy : ℕ)
      → c < cols start
      → r < rows start
      → fx < 8
      → fy < 16
      → s.vid_buf ((r * 16 + fy) * start.scr_width + (c * 8 + fx))
        ≡ shade start.bios_font (t.cell c r) fx fy
  pub outside : Within start.scr_width start.scr_height start.vid_buf s.vid_buf
  pub room : length s.buf ≡ 17

module _ (start : Video) (screen : IsScreen start) where
  pub newline-Shows :
      (t : Terminal) (s : Video)
      → Shows start t s
      → Shows start (next_line (cols start) (rows start) t) (newline s)
  unfolding newline
  newline-Shows t s shows = record {
    width = shows.width;
    height = shows.height;
    font = shows.font;
    col = refl;
    row = ground (arith, shows.row, shows.row-lt, shows.height);
    col-le = omega arith;
    row-lt = ground (arith, shows.row-lt);
    pixels = shows.pixels;
    outside = shows.outside;
    room = shows.room;
  }

  -- The buffer after a character.
  drawn :
      (chr : ℕ) (t : Terminal) (s : Video)
      → t.col < cols start
      → Shows start t s
      → (draw chr s).vid_buf
        ≡ glyph_loop 16 0 start.scr_width
            (t.col * 8)
            (t.row * 16)
            (λ i. start.bios_font (chr * 16 + i))
            s.vid_buf
  unfolding draw
  drawn chr t s left shows =
      let x : u16 (t.col * 8) ≡ t.col * 8 = omega arith in
      let y : u16 (t.row * 16) ≡ t.row * 16 = omega (arith, shows.row-lt) in
      rw (shows.width, shows.font, shows.col, shows.row, x, y) refl

  drawn-pixels :
      (chr : ℕ) (t : Terminal) (s : Video)
      → t.col < cols start
      → Shows start t s
      → (c r fx fy : ℕ) → c < cols start
      → r < rows start
      → fx < 8
      → fy < 16
      → (draw chr s).vid_buf ((r * 16 + fy) * start.scr_width + (c * 8 + fx))
        ≡ shade start.bios_font ((place chr t).cell c r) fx fy
  drawn-pixels chr t s left shows c r fx fy hc hr hx hy =
      let inside : ((leb (t.row * 16 + 0) (r * 16 + fy) && ltb (r * 16 + fy) (t.row * 16 + 0 + 16))
            && (leb (t.col * 8) (c * 8 + fx) && ltb (c * 8 + fx) (t.col * 8 + 8)))
          ≡ (c == t.col && r == t.row) =
        ground arith in
      ap (λ (f : Buffer). f ((r * 16 + fy) * start.scr_width + (c * 8 + fx)))
        (drawn chr t s left shows)
      ∙ glyph_loop-at start.scr_width start.scr_height screen.narrow screen.low 16 0 (t.col * 8)
          (t.row * 16) (c * 8 + fx) (r * 16 + fy) (λ i. start.bios_font (chr * 16 + i)) s.vid_buf
          (omega arith) (omega (arith, shows.row-lt)) (omega arith)
      ∙ rw inside (elim (Bool-cases (c == t.col && r == t.row)) [
        | inl here ↦
            let x : c * 8 + fx - t.col * 8 ≡ fx = ground arith in
            let y : r * 16 + fy - t.row * 16 ≡ fy = ground arith in rw (here, x, y) refl
        | inr other ↦ rw other (shows.pixels c r fx fy hc hr hx hy)
      ])

  draw-Shows :
      (chr : ℕ) (t : Terminal) (s : Video)
      → t.col < cols start
      → Shows start t s
      → Shows start (place chr t) (draw chr s)
  unfolding draw
  draw-Shows chr t s left shows = record {
    width = shows.width;
    height = shows.height;
    font = shows.font;
    col = omega (arith, shows.col);
    row = shows.row;
    col-le = omega arith;
    row-lt = shows.row-lt;
    pixels = drawn-pixels chr t s left shows;
    outside = λ j out.
        ap (λ (f : Buffer). f j) (drawn chr t s left shows)
        ∙ glyph_loop-Within start.scr_width start.scr_height screen.narrow screen.low 16 0
            (t.col * 8) (t.row * 16) (λ i. start.bios_font (chr * 16 + i)) s.vid_buf (omega arith)
            (omega (arith, shows.row-lt)) j out
        ∙ shows.outside j out;
    room = shows.room;
  }

  -- `putc` wraps a full line first.
  pub putc-Shows :
      (chr : ℕ) (t : Terminal) (s : Video)
      → Shows start t s
      → Shows start
          (place chr (if t.col == cols start then next_line (cols start) (rows start) t else t))
          (putc chr s)
  unfolding putc wrap
  putc-Shows chr t s shows = elim (Bool-cases (t.col == cols start)) [
    | inl full ↦
        let test : leb (s.scr_width / font_size_x) s.text_col ≡ true =
          ground (arith, shows.width, shows.col) in
        rw (full, test)
          (draw-Shows chr (next_line (cols start) (rows start) t) (newline s)
            (omega (arith, screen.wide)) (newline-Shows t s shows))
    | inr part ↦
        let test : leb (s.scr_width / font_size_x) s.text_col ≡ false =
          ground (arith, shows.width, shows.col, shows.col-le) in
        rw (part, test) (draw-Shows chr t s (ground (arith, shows.col-le)) shows)
  ]
