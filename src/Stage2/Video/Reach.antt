-- ===== src/Stage2/Video/Reach.antt =====
-- The state of bootloader/stage2/src/video.c after any sequence of calls.
use ziemniak.Base.{ℕ, ◌≡◌, List, some}
use ziemniak.Stage2.Video.{Video, video_print, video_print_hex, video_clr}
use ziemniak.Stage2.Video.Terminal.{Terminal, Shows}

-- A call of one of the functions that video.h declares, with any arguments, that returns.
pub data Step : Video → Video → Type 0 where
  printed :
      (fuel : ℕ) (text : List ℕ) {s s' : Video}
      → video_print fuel text s ≡ some (tt, s')
      → Step s s'
  printed_hex :
      (fuel val offset : ℕ) {s s' : Video}
      → video_print_hex fuel val offset s ≡ some (tt, s')
      → Step s s'
  cleared : {s : Video} → Step s (video_clr s)

pub data Reach (start : Video) : Video → Type 0 where
  here : Reach start start
  after : {s s' : Video} → Reach start s → Step s s' → Reach start s'

-- The screen shows some terminal.
abbrev pub IsShown : (start s : Video) → Type 0
IsShown start s = (t : Terminal) × Shows start t s
