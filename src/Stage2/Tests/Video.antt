-- ===== src/Stage2/Tests/Video.antt =====
-- The boot loader's text output on a screen of 640 by 480 pixels.
use ziemniak.Base.{
  ℕ, ◌<◌, ◌≤◌, ◌≢◌, get_or, some, none, ◌≡◌, refl, arith, replicate, Returns, until_nul, codes,
}
use ziemniak.Stage2.Video.Ending.{video_print-Ends}
use ziemniak.Stage2.Video.{
  Video, video_init, video_clr, video_print, video_convert_hex, convert_loop,
}
use ziemniak.Stage2.Video.Terminal.{IsScreen, Shows, enter_all, cols, rows}
use ziemniak.Stage2.Video.Print.{blank, video_print-Shows, video_clr-Shows}

-- The buffer holds noise, and each line of a glyph is its own index.
abbrev boot : Video
boot = record {
  scr_width = 0;
  scr_height = 0;
  vid_buf = λ j. j;
  bios_font = λ i. i;
  text_col = 3;
  text_row = 4;
  buf = replicate 17 7;
}

abbrev start : Video
start = record boot { scr_width = 640; scr_height = 480; text_col = 0; text_row = 0 }

screen : IsScreen start
screen = record { narrow = omega arith; low = omega arith; wide = omega arith; high = omega arith }

abbrev cleared : Video
cleared = video_clr start

convert_runs : video_convert_hex 0xBEEF (replicate 17 7) ≡ codes "000000000000BEEF\0"
unfolding video_convert_hex convert_loop
convert_runs = refl

clear : Shows start blank cleared
unfolding video_init
clear = video_clr-Shows 640 480 (λ j. j) (λ i. i) boot screen refl

video_print-Shows_example :
    Returns
      (λ _ s'.
        Shows start (enter_all (cols start) (rows start) (until_nul (codes "CPU\nOK")) blank) s')
      (video_print 9 (codes "CPU\nOK") cleared)
video_print-Shows_example =
    video_print-Shows start screen 9 (codes "CPU\nOK") blank cleared (omega arith) (omega arith)
      (omega arith) clear

video_print-Ends_example :
    ((stop fuel : ℕ)
      → stop < 65536
      → get_or (codes "OK") stop 0 ≡ 0
      → 65536 ≤ fuel
      → (s' : Video) × (video_print fuel (codes "OK") cleared ≡ some (tt, s')))
    × (((j : ℕ) → j < 65536 → get_or (codes "OK") j 0 ≢ 0)
        → (fuel : ℕ) → video_print fuel (codes "OK") cleared ≡ none)
video_print-Ends_example = video_print-Ends (codes "OK") cleared
