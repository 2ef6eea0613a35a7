-- ===== src/Stage2/Video.antt =====
-- The text output of the boot loader, bootloader/stage2/src/video.c. The frame buffer is a function
-- from an index to a value of 32 bits, the font of the BIOS one from an index to a byte.
pub mod Ending
pub mod Hex
pub mod Pixels
pub mod Print
pub mod Reach
pub mod Terminal
use ziemniak.Base.{
  ℕ, zero, suc, ◌+◌, ◌-◌, ◌*◌, ◌/◌, ◌%◌, ◌^◌, List, bit_and, ltb, leb, ◌==◌, if◌then◌else◌, none,
  some, get_or, set, drop, Cmd, pure, ◌>>=◌, ◌>>◌, codes, u8, u16, u32, ◌>>>◌,
}

abbrev pub font_size_x : ℕ
font_size_x = 8

abbrev pub font_size_y : ℕ
font_size_y = 16

abbrev pub Buffer : Type 0
Buffer = ℕ → ℕ

-- The static variables; `buf` is that of `video_convert_hex`.
pub record Video : Type 0 where
  pub scr_width : ℕ
  pub scr_height : ℕ
  pub vid_buf : Buffer
  pub bios_font : ℕ → ℕ
  pub text_col : ℕ
  pub text_row : ℕ
  pub buf : List ℕ

-- Only `scr_width` and the buffer are used.
unfoldable pub setpixel : (scr_width x y val : ℕ) → Buffer → Buffer
setpixel scr_width x y val vid_buf j = if j == u32 (y * scr_width + x) then val else vid_buf j

abbrev pub putpixel : (scr_width x y : ℕ) → Buffer → Buffer
putpixel scr_width x y = setpixel scr_width x y 0xFFFFFFFF

abbrev pub clearpixel : (scr_width x y : ℕ) → Buffer → Buffer
clearpixel scr_width x y = setpixel scr_width x y 0x00000000

unfoldable pub newline : Video → Video
newline s =
    let row = u16 (s.text_row + 1) in
    record s { text_col = 0; text_row = if leb (s.scr_height / font_size_y) row then 0 else row }

-- The loop on `fnt_x`, for the row `line` of the glyph.
unfoldable pub line_loop : (left fnt_x scr_width x y line : ℕ) → Buffer → Buffer
line_loop zero fnt_x scr_width x y line vid_buf = vid_buf
line_loop (suc left) fnt_x scr_width x y line vid_buf =
    line_loop left (fnt_x + 1) scr_width x y line (
      if bit_and line (128 >>> fnt_x) == 0
      then clearpixel scr_width (u16 (x + fnt_x)) y vid_buf
      else putpixel scr_width (u16 (x + fnt_x)) y vid_buf)

-- The loop on `fnt_y`.
unfoldable pub glyph_loop : (left fnt_y scr_width x y : ℕ) (glyph : ℕ → ℕ) → Buffer → Buffer
glyph_loop zero fnt_y scr_width x y glyph vid_buf = vid_buf
glyph_loop (suc left) fnt_y scr_width x y glyph vid_buf =
    glyph_loop left (fnt_y + 1) scr_width x y glyph
      (line_loop font_size_x 0 scr_width x (u16 (y + fnt_y)) (glyph fnt_y) vid_buf)

-- The cursor is moved to the next line when the line is full.
unfoldable pub wrap : Video → Video
wrap s = if leb (s.scr_width / font_size_x) s.text_col then newline s else s

unfoldable pub draw : (chr : ℕ) → Video → Video
draw chr s = record s {
  vid_buf =
      glyph_loop font_size_y 0 s.scr_width (u16 (s.text_col * font_size_x))
        (u16 (s.text_row * font_size_y)) (λ i. s.bios_font (chr * font_size_y + i)) s.vid_buf;
  text_col = u16 (s.text_col + 1);
}

unfoldable pub putc : (chr : ℕ) → Video → Video
putc chr s = draw chr (wrap s)

unfoldable pub video_init : (width height : ℕ) (vbuf : Buffer) (font : ℕ → ℕ) → Video → Video
video_init width height vbuf font s = record s {
  scr_width = width;
  scr_height = height;
  vid_buf = vbuf;
  bios_font = font;
  text_col = 0;
  text_row = 0;
}

unfoldable pub clr_loop : (left i : ℕ) → Buffer → Buffer
clr_loop zero i vid_buf = vid_buf
clr_loop (suc left) i vid_buf = clr_loop left (i + 1) (λ j. if j == i then 0x00 else vid_buf j)

unfoldable pub video_clr : Video → Video
video_clr s = record s { vid_buf = clr_loop (s.scr_width * s.scr_height) 0 s.vid_buf }

-- The index `i` is an `uint16_t`; a text with no NUL below 65536 is printed again and again.
unfoldable pub print_loop : (fuel i : ℕ) (text : List ℕ) → Cmd Video (Unit {0})
print_loop zero i text s = none
print_loop (suc fuel) i text s =
    let c = get_or text i 0 in
    let again = print_loop fuel (u16 (i + 1)) text in
    if c == 0 then some (tt, s) else if c == b'\n' then again (newline s) else again (putc (u8 c) s)

unfoldable pub video_print : (fuel : ℕ) (text : List ℕ) → Cmd Video (Unit {0})
video_print fuel text = print_loop fuel 0 text

unfoldable pub convert_loop : (left i val : ℕ) → List ℕ → List ℕ
convert_loop zero i val buf = buf
convert_loop (suc left) i val buf =
    let temp = u8 (bit_and (val >>> (4 * (15 - i))) 0x0F) in
    convert_loop left (i + 1) val
      (if ltb temp 0x0A then set buf i (temp + b'0') else set buf i (temp - 10 + b'A'))

-- The new contents of the static buffer.
unfoldable pub video_convert_hex : (val : ℕ) → List ℕ → List ℕ
video_convert_hex val buf = set (convert_loop 16 0 val buf) 16 0

unfoldable pub video_print_hex : (fuel val offset : ℕ) → Cmd Video (Unit {0})
video_print_hex fuel val offset =
    if ltb offset 16
    then (do
      video_print fuel (codes "0x")
      λ s.
          (let buf = video_convert_hex val s.buf in
            video_print fuel (drop offset buf) (record s { buf = buf }))
      video_print fuel (codes " "))
    else pure tt
