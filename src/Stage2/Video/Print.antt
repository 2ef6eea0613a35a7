-- ===== src/Stage2/Video/Print.antt =====
-- `video_print` and `video_clr` against the terminal.
use ziemniak.Base.{
  ℕ, zero, suc, ◌+◌, ◌*◌, ◌<◌, ◌≡◌, ◌≢◌, refl, ap, ◌∙◌, arith, List, [], ◌∷◌, none, inl, inr,
  get_or, ltb, leb, ◌==◌, ◌&&◌, if◌then◌else◌, length, drop, Returns, returns, until_nul, IsBytes,
  u8, u16, ==-cases, ne→==,
}
use ziemniak.Stage2.Video.{
  Video, Buffer, newline, putc, print_loop, video_print, video_init, clr_loop, video_clr,
}
use ziemniak.Stage2.Video.Pixels.{row-le}
use ziemniak.Stage2.Video.Terminal.{
  Terminal, enter, enter_all, IsScreen, Shows, cols, rows, newline-Shows, putc-Shows,
}

get_or-drop : (xs : List ℕ) (i d : ℕ) → get_or xs i d ≡ get_or (drop i xs) 0 d
get_or-drop [] zero d = refl
get_or-drop [] (suc i) d = refl
get_or-drop (x ∷ xs) zero d = refl
get_or-drop (x ∷ xs) (suc i) d = get_or-drop xs i d

drop-suc : (xs : List ℕ) (i : ℕ) → drop (suc i) xs ≡ drop 1 (drop i xs)
drop-suc [] zero = refl
drop-suc [] (suc i) = refl
drop-suc (x ∷ xs) zero = refl
drop-suc (x ∷ xs) (suc i) = drop-suc xs i

module _ (start : Video) (screen : IsScreen start) where
  abbrev type_all : List ℕ → Terminal → Terminal
  type_all = enter_all (cols start) (rows start)

  typed :
      (c : ℕ) (t : Terminal) (s : Video)
      → c ≢ b'\n'
      → Shows start t s
      → Shows start (enter (cols start) (rows start) c t) (putc c s)
  typed c t s glyph shows = rw (ne→== c b'\n' glyph) (putc-Shows start screen c t s shows)

  print_loop-Shows :
      (fuel i : ℕ) (rest text : List ℕ) (t : Terminal) (s : Video)
      → drop i text ≡ rest
      → i + length rest < 65536
      → length rest < fuel
      → IsBytes rest
      → Shows start t s
      → Returns (λ _ s'. Shows start (type_all (until_nul rest) t) s') (print_loop fuel i text s)
  unfolding print_loop
  print_loop-Shows zero i rest text t s at short enough bytes shows = absurd (omega arith)
  print_loop-Shows (suc fuel) i [] text t s at short enough bytes shows =
      let c : get_or text i 0 ≡ 0 = get_or-drop text i 0 ∙ ap (λ (r : List ℕ). get_or r 0 0) at in
      rw c (returns shows)
  print_loop-Shows (suc fuel) i (c ∷ rest) text t s at short enough bytes shows =
      let same : get_or text i 0 ≡ c =
        get_or-drop text i 0 ∙ ap (λ (r : List ℕ). get_or r 0 0) at in
      let next : drop (i + 1) text ≡ rest =
        let up : i + 1 ≡ suc i = omega arith in rw up (drop-suc text i ∙ ap (drop 1) at) in
      let fits : u16 (i + 1) ≡ i + 1 = omega arith in
      let byte : u8 c ≡ c = omega (arith, bytes.0) in
      rw (same, fits, byte)
        (elim (==-cases c 0) [
          | inl end ↦ rw end (returns shows)
          | inr more ↦ rw (ne→== c 0 more) (elim (==-cases c b'\n') [
            | inl break ↦ rw break (
                print_loop-Shows fuel (i + 1) rest text (enter (cols start) (rows start) b'\n' t)
                  (newline s) next (omega arith) (omega arith) bytes.1
                  (newline-Shows start screen t s shows))
            | inr glyph ↦
                let shows' = typed c t s glyph shows in
                rw (ne→== c b'\n' glyph) (
                  print_loop-Shows fuel (i + 1) rest text (enter (cols start) (rows start) c t)
                    (putc c s) next (omega arith) (omega arith) bytes.1 shows')
          ])
        ])

  -- The frame buffer shows a terminal that the text, up to its NUL, has been typed on: lines are
  -- wrapped after the last column, the first row follows the last, and nothing outside the visible
  -- area is written. This holds for text shorter than 65536 characters, the range of the index.
  pub video_print-Shows :
      (fuel : ℕ) (text : List ℕ) (t : Terminal) (s : Video)
      → IsBytes text
      → length text < 65536
      → length text < fuel
      → Shows start t s
      → Returns
          (λ _ s'. Shows start (enter_all (cols start) (rows start) (until_nul text) t) s')
          (video_print fuel text s)
  unfolding video_print
  video_print-Shows fuel text t s bytes short enough shows =
      print_loop-Shows fuel 0 text text t s refl (omega arith) enough bytes shows

pub clr_loop-at :
    (left i : ℕ) (b : Buffer) (j : ℕ)
    → clr_loop left i b j ≡ (if leb i j && ltb j (i + left) then 0 else b j)
unfolding clr_loop
clr_loop-at zero i b j = ground arith
clr_loop-at (suc left) i b j =
    ground (arith, clr_loop-at left (i + 1) (λ j. if j == i then 0x00 else b j) j)

abbrev pub blank : Terminal
blank = record { col = 0; row = 0; cell = λ _ _. none }

-- After `video_init` and `video_clr` the screen shows an empty terminal, whatever the buffer held.
pub video_clr-Shows :
    (width height : ℕ) (vbuf : Buffer) (font : ℕ → ℕ) (s : Video)
    → IsScreen (video_init width height vbuf font s)
    → length s.buf ≡ 17
    → Shows
        (video_init width height vbuf font s)
        blank
        (video_clr (video_init width height vbuf font s))
unfolding video_init video_clr
video_clr-Shows width height vbuf font s screen room = record {
  width = refl;
  height = refl;
  font = refl;
  col = refl;
  row = refl;
  col-le = omega arith;
  row-lt = omega (arith, screen.high);
  pixels = λ c r fx fy hc hr hx hy.
      clr_loop-at (width * height) 0 vbuf _ ∙ ground (arith, row-le width (r * 16 + fy) height);
  outside = λ j out. clr_loop-at (width * height) 0 vbuf j ∙ ground arith;
  room = room;
}
