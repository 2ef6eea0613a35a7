-- ===== src/Stage2/Main/Print.antt =====
-- What the functions of bootloader/stage2/src/stage2.c print.
pub mod Report
use ziemniak.Base.{
  ℕ, suc, ◌+◌, ◌-◌, ◌*◌, ◌/◌, ◌%◌, ◌^◌, ◌<◌, ◌≤◌, ◌≡◌, refl, ap, sym, ◌∙◌, arith, List, [], ◌∷◌,
  ◌++◌, Bool, true, false, not, ◌&&◌, ◌==◌, ltb, leb, ltb→lt, if◌then◌else◌, length, until_nul,
  IsBytes, codes, Cmd, pure, ◌>>=◌, ◌>>◌, none, some, Option, Returns, returns, Returns-bind,
  Returns-mono, Bool-cases, inl, inr,
}
use ziemniak.Stage2.Video.{Video, video_print, video_print_hex}
use ziemniak.Stage2.Video.Terminal.{Terminal, IsScreen, Shows, enter_all, cols, rows}
use ziemniak.Stage2.Video.Print.{video_print-Shows}
use ziemniak.Stage2.Video.Hex.{hex_text, video_print_hex-Shows, enter_all-append}
use ziemniak.Stage2.Loader.{Loader, with_video, on_video, print, print_hex}

-- Bytes without a NUL.
abbrev pub plain : List ℕ → Bool
plain [] = true
plain (c ∷ cs) = ltb c 256 && (not (c == 0) && plain cs)

plain-IsBytes : (text : List ℕ) → plain text ≡ true → IsBytes text × (until_nul text ≡ text)
plain-IsBytes [] h = (tt, refl)
plain-IsBytes (c ∷ cs) h =
    let more : plain cs ≡ true = ground arith in
    let (bytes, whole) = plain-IsBytes cs more in
    let small : ltb c 256 ≡ true = ground arith in
    let glyph : (c == 0) ≡ false = ground arith in
    ((ltb→lt c 256 small, bytes), rw (glyph, whole) refl)

-- A literal of the program.
abbrev pub is_literal : List ℕ → Bool
is_literal text = ltb (length text) 100 && plain text

module _ (start : Video) (screen : IsScreen start) where
  abbrev pub typed : List ℕ → Terminal → Terminal
  typed = enter_all (cols start) (rows start)

  -- The command types the text on the screen and changes nothing else.
  pub record Prints (text : List ℕ) (m : Cmd Loader (Unit {0})) : Type 0 where
    pub prints :
        (t : Terminal) (s : Loader)
        → Shows start t s.video
        → Returns
            (λ _ s'. (v : Video) × Shows start (typed text t) v × (s' ≡ record s { video = v }))
            (m s)

  pub on_video-Prints :
      (text : List ℕ) (m : Cmd Video (Unit {0}))
      → ((t : Terminal) (v : Video)
          → Shows start t v
          → Returns (λ _ v'. Shows start (typed text t) v') (m v))
      → Prints text (on_video m)
  on_video-Prints text m shown = record { prints = λ t s shows. lift t s (shown t s.video shows) }
    where
      lift :
          (t : Terminal) {r : Option (Unit {0} × Video)} (s : Loader)
          → Returns (λ _ v'. Shows start (typed text t) v') r
          → Returns
              (λ _ s'. (v : Video) × Shows start (typed text t) v × (s' ≡ record s { video = v }))
              (with_video s r)
      lift t s (returns shows) = returns (_, shows, refl)

-- One command after another.
infixr 4 ◌⨟◌
pub ◌⨟◌ :
    {start : Video} {screen : IsScreen start} {a b : List ℕ} {m k : Cmd Loader (Unit {0})}
    → Prints start screen a m
    → Prints start screen b k
    → Prints start screen (a ++ b) (m >> k)
◌⨟◌ {start} pm pk = record {
  prints = λ t s shows. Returns-bind (pm.prints t s shows) λ _ s1 (v1, shows1, same1). rw same1 (
      Returns-mono (pk.prints _ (record s { video = v1 }) shows1) λ _ s2 (v2, shows2, same2).
        (v2, rw (enter_all-append (cols start) (rows start) _ _ t) shows2, same2));
}

module _ (start : Video) (screen : IsScreen start) (fuel : ℕ) (enough : 100 ≤ fuel) where
  pub literal :
      (text : List ℕ) → is_literal text ≡ true → Prints start screen text (print fuel text)
  literal text h = on_video-Prints start screen text (video_print fuel text) λ t v shows.
      let short : ltb (length text) 100 ≡ true = ground arith in
      let clean : plain text ≡ true = ground arith in
      let (bytes, whole) = plain-IsBytes text clean in
      let size = ltb→lt (length text) 100 short in
      Returns-mono
        (video_print-Shows start screen fuel text t v bytes (omega arith) (omega arith) shows)
        λ _ v' shown. rw (← whole) shown

  pub number :
      (val offset : ℕ) → Prints start screen (hex_text val offset) (print_hex fuel val offset)
  number val offset =
      on_video-Prints start screen (hex_text val offset) (video_print_hex fuel val offset)
        λ t v shows. video_print_hex-Shows start screen fuel val offset t v (omega arith) shows
