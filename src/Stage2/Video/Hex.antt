-- ===== src/Stage2/Video/Hex.antt =====
-- `video_convert_hex` writes the 16 digits of its argument; `video_print_hex` shows the last of them.
use ziemniak.Base.{
  ℕ, zero, suc, ◌+◌, ◌-◌, ◌/◌, ◌%◌, ◌^◌, ◌<◌, ◌≡◌, refl, ap, sym, ◌∙◌, arith, List, [], ◌∷◌, ◌++◌,
  ltb, lt→ltb, if◌then◌else◌, length, length-append, set, set-append, split_last, drop, Returns,
  Returns-bind, Returns-mono, returns, le→ltb, codes,
}
use native.Mathlib.Decide.{dec_lt}
use mathlib.Core.List.{append_assoc}
use ziemniak.Hex.{digit, digits, nibble, length-digits, until_nul-digits, digits-IsBytes}
use ziemniak.Stage2.Video.{Video, convert_loop, video_convert_hex, video_print, video_print_hex}
use ziemniak.Stage2.Video.Terminal.{Terminal, IsScreen, Shows, enter_all, cols, rows}
use ziemniak.Stage2.Video.Print.{video_print-Shows}

store-digit :
    (buf : List ℕ) (i d : ℕ)
    → (if ltb d 10 then set buf i (d + b'0') else set buf i (d - 10 + b'A')) ≡ set buf i (digit d)
unfolding digit
store-digit buf i d = ground arith

convert_loop-digits :
    (left i val z : ℕ) (front rest : List ℕ)
    → left + i ≡ 16
    → length front ≡ i
    → length rest ≡ left
    → convert_loop left i val (front ++ (rest ++ z ∷ [])) ≡ front ++ (digits left val ++ z ∷ [])
unfolding convert_loop digits
convert_loop-digits zero i val z front [] e f r = refl
convert_loop-digits zero i val z front (x ∷ rest) e f r = absurd (omega arith)
convert_loop-digits (suc left) i val z front [] e f r = absurd (omega arith)
convert_loop-digits (suc left) i val z front (x ∷ rest) e f r =
    let d = val / 16 ^ left % 16 in
    let place : 15 - i ≡ left = omega arith in
    let long : length (front ++ (digit d ∷ [])) ≡ i + 1 =
      omega (arith, length-append front (digit d ∷ [])) in
    rw (place, nibble val left)
      (ap (convert_loop left (i + 1) val) (
          store-digit (front ++ (x ∷ (rest ++ z ∷ []))) i d
          ∙ set-append front (rest ++ z ∷ []) x (digit d) i (sym f)
          ∙ sym (append_assoc front (digit d ∷ []) (rest ++ z ∷ [])))
        ∙ convert_loop-digits left (i + 1) val z (front ++ (digit d ∷ [])) rest (omega arith) long
            (omega arith)
        ∙ append_assoc front (digit d ∷ []) (digits left val ++ z ∷ []))

pub video_convert_hex-digits :
    (val : ℕ) (buf : List ℕ) → length buf ≡ 17 → video_convert_hex val buf ≡ digits 16 val ++ 0 ∷ []
unfolding video_convert_hex
video_convert_hex-digits val buf room =
    let (text, z, long, split) = split_last 16 buf room in
    ap (λ b. set b 16 0)
      (ap (convert_loop 16 0 val) split ∙ convert_loop-digits 16 0 val z [] text refl refl long)
    ∙ set-append (digits 16 val) [] z 0 16 (sym (length-digits 16 val))

pub length-text : (val : ℕ) → length (digits 16 val ++ 0 ∷ []) ≡ 17
length-text val = omega (arith, length-append (digits 16 val) (0 ∷ []), length-digits 16 val)

drop-digits :
    (skip k val : ℕ) (rest : List ℕ)
    → drop skip (digits (skip + k) val ++ rest) ≡ digits k val ++ rest
unfolding digits
drop-digits zero k val rest = let e : 0 + k ≡ k = omega arith in rw e refl
drop-digits (suc skip) k val rest =
    let e : suc skip + k ≡ suc (skip + k) = omega arith in rw e (drop-digits skip k val rest)

pub enter_all-append :
    (w h : ℕ) (a b : List ℕ) (t : Terminal)
    → enter_all w h (a ++ b) t ≡ enter_all w h b (enter_all w h a t)
enter_all-append w h [] b t = refl
enter_all-append w h (c ∷ a) b t = enter_all-append w h a b _

-- What is typed: the digits of `val` without the first `offset`, nothing if that is all of them.
abbrev pub hex_text : (val offset : ℕ) → List ℕ
hex_text val offset =
    if ltb offset 16 then codes "0x" ++ (digits (16 - offset) val ++ codes " ") else []

module _ (start : Video) (screen : IsScreen start) where
  abbrev typed : List ℕ → Terminal → Terminal
  typed = enter_all (cols start) (rows start)

  pub with_buf :
      (t : Terminal) (s : Video)
      → Shows start t s
      → (buf : List ℕ) → length buf ≡ 17
      → Shows start t (record s { buf = buf })
  with_buf t s shows buf room = record {
    width = shows.width;
    height = shows.height;
    font = shows.font;
    col = shows.col;
    row = shows.row;
    col-le = shows.col-le;
    row-lt = shows.row-lt;
    pixels = shows.pixels;
    outside = shows.outside;
    room = room;
  }

  -- The digits are printed from the static buffer.
  tail-Shows :
      (fuel val offset : ℕ) (t : Terminal) (s : Video)
      → offset < 16
      → 17 < fuel
      → Shows start t s
      → Returns
          (λ _ s'. Shows start (typed (digits (16 - offset) val) t) s')
          (video_print fuel
            (drop offset (video_convert_hex val s.buf))
            (record s { buf = video_convert_hex val s.buf }))
  tail-Shows fuel val offset t s short enough shows =
      let k = 16 - offset in
      let split : offset + k ≡ 16 = omega arith in
      let buf : video_convert_hex val s.buf ≡ digits 16 val ++ 0 ∷ [] =
        video_convert_hex-digits val s.buf shows.room in
      let rest : drop offset (video_convert_hex val s.buf) ≡ digits k val ++ 0 ∷ [] =
        ap (drop offset) (buf ∙ ap (λ n. digits n val ++ 0 ∷ []) (sym split))
        ∙ drop-digits offset k val (0 ∷ []) in
      let size : length (digits k val ++ 0 ∷ []) ≡ k + 1 =
        omega (arith, length-append (digits k val) (0 ∷ []), length-digits k val) in
      let room : length (video_convert_hex val s.buf) ≡ 17 = ap length buf ∙ length-text val in
      rw rest (
        Returns-mono
          (video_print-Shows start screen fuel (digits k val ++ 0 ∷ []) t
            (record s { buf = video_convert_hex val s.buf }) (digits-IsBytes k val) (omega arith)
            (omega arith) (with_buf t s shows (video_convert_hex val s.buf) room))
          λ _ s' shown. rw (← until_nul-digits k val) shown)

  -- The frame buffer shows a terminal that `0x`, the low `16 - offset` hexadecimal digits of `val`
  -- and a space have been typed on, or that is as before if `offset` is 16 or more.
  pub video_print_hex-Shows :
      (fuel val offset : ℕ) (t : Terminal) (s : Video)
      → 17 < fuel
      → Shows start t s
      → Returns
          (λ _ s'. Shows start (enter_all (cols start) (rows start) (hex_text val offset) t) s')
          (video_print_hex fuel val offset s)
  unfolding video_print_hex
  video_print_hex-Shows fuel val offset t s enough shows = elim (dec_lt offset 16) [
    | no long ↦ rw (le→ltb offset 16 (omega arith)) (returns shows)
    | yes short ↦
        rw
          (
            lt→ltb offset 16 short,
            enter_all-append (cols start) (rows start) (digits (16 - offset) val) (codes " "),
          )
          (Returns-bind
            (video_print-Shows start screen fuel (codes "0x") t s (omega arith) (omega arith)
              (omega arith) shows)
            λ _ s1 shows1.
              Returns-bind (tail-Shows fuel val offset _ s1 short enough shows1) λ _ s2 shows2.
                video_print-Shows start screen fuel (codes " ") _ s2 (omega arith) (omega arith)
                  (omega arith) shows2)
  ]
