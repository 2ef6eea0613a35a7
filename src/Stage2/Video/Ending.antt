-- ===== src/Stage2/Video/Ending.antt =====
-- Whether `video_print` of bootloader/stage2/src/video.c returns: its index has 16 bits.
use ziemniak.Base.{
  ℕ, zero, suc, ◌+◌, ◌-◌, ◌<◌, ◌≤◌, ◌≡◌, ◌≢◌, refl, arith, List, none, some, Bool-cases, true, inl,
  inr, get_or, ◌==◌, ==-cases, ne→==, u8, u16,
}
use ziemniak.Stage2.Video.{Video, newline, putc, print_loop, video_print}

print_loop-ends :
    (fuel i stop : ℕ) (text : List ℕ) (s : Video)
    → get_or text stop 0 ≡ 0
    → i ≤ stop
    → stop < 65536
    → stop - i < fuel
    → (s' : Video) × (print_loop fuel i text s ≡ some (tt, s'))
unfolding print_loop
print_loop-ends zero i stop text s nul before short enough = absurd (omega arith)
print_loop-ends (suc fuel) i stop text s nul before short enough =
    let c = get_or text i 0 in
    elim (==-cases c 0) [
      | inl end ↦ let test : (c == 0) ≡ true = ground arith in (s, rw test refl)
      | inr more ↦
          let apart : i ≢ stop = λ same. more (rw same nul) in
          let next : u16 (i + 1) ≡ i + 1 = omega arith in
          let test = ne→== c 0 more in
          elim (Bool-cases (c == b'\n')) [
            | inl break ↦
                let (s', run) =
                  print_loop-ends fuel (u16 (i + 1)) stop text (newline s) nul (omega arith) short
                    (omega arith) in
                (s', rw (test, break) run)
            | inr glyph ↦
                let (s', run) =
                  print_loop-ends fuel (u16 (i + 1)) stop text (putc (u8 c) s) nul (omega arith)
                    short (omega arith) in
                (s', rw (test, glyph) run)
          ]
    ]

print_loop-runs :
    (fuel i : ℕ) (text : List ℕ) (s : Video)
    → ((j : ℕ) → j < 65536 → get_or text j 0 ≢ 0)
    → i < 65536
    → print_loop fuel i text s ≡ none
unfolding print_loop
print_loop-runs zero i text s full inside = refl
print_loop-runs (suc fuel) i text s full inside =
    let c = get_or text i 0 in
    let next : u16 (i + 1) < 65536 = omega arith in
    rw (ne→== c 0 (full i inside)) (elim (Bool-cases (c == b'\n')) [
      | inl break ↦ rw break (print_loop-runs fuel (u16 (i + 1)) text (newline s) full next)
      | inr glyph ↦ rw glyph (print_loop-runs fuel (u16 (i + 1)) text (putc (u8 c) s) full next)
    ])

-- `video_print` returns for a text with a NUL among its first 65536 characters, from every state, and
-- never returns for any other text.
pub video_print-Ends :
    (text : List ℕ) (s : Video)
    → ((stop fuel : ℕ)
        → stop < 65536
        → get_or text stop 0 ≡ 0
        → 65536 ≤ fuel
        → (s' : Video) × (video_print fuel text s ≡ some (tt, s')))
      × (((j : ℕ) → j < 65536 → get_or text j 0 ≢ 0) → (fuel : ℕ) → video_print fuel text s ≡ none)
unfolding video_print
video_print-Ends text s = (
  λ stop fuel short nul enough.
      print_loop-ends fuel 0 stop text s nul (omega arith) short (omega arith),
  λ full fuel. print_loop-runs fuel 0 text s full (omega arith),
)
