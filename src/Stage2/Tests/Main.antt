-- ===== src/Stage2/Tests/Main.antt =====
-- A boot from a disc with a kernel of 24 KiB in sector 30, on a PC with 128 MiB.
use ziemniak.Base.{
  ℕ, ◌+◌, ◌-◌, ◌^◌, ◌<◌, ◌≡◌, ◌≢◌, refl, arith, List, [], ◌∷◌, some, leb, ◌==◌, if◌then◌else◌,
  Bool-cases, inl, inr, get_or, replicate, IsBytes, Returns, zero, suc,
}
use ziemniak.Stage2.Interrupts.{Handler, init_idt}
use ziemniak.Stage2.Video.{video_init}
use ziemniak.Stage2.Video.Print.{blank}
use ziemniak.Stage2.Disc.{Buffer, load32}
use ziemniak.Stage2.Disc.Directory.{IsListed, entry, ends, Lookup, first, later}
use ziemniak.Stage2.Disc.Search.Outcome.{view, IsVolume, Outcome, absent, present}
use ziemniak.Stage2.Boot.{MemMap}
use ziemniak.Stage2.Boot.Memory.{load64, header_in, mem_maps, mem_map_at}
use ziemniak.Stage2.Boot.Placement.{IsImage}
use ziemniak.Stage2.Boot.Region.{First}
use ziemniak.Stage2.Loader.{RealModeData, Loader, kernel_name, memmap}
use ziemniak.Stage2.Main.{main}
use ziemniak.Stage2.Main.Run.{Ran, Ends}
use ziemniak.Stage2.Main.Run.Whole.{opened, main-Ends}
use ziemniak.Stage2.Tests.Drive.{drive, drive-IsAtapi, drive-IsChannel, set_up}

abbrev descriptor : Buffer
descriptor j = if j == 0 then 1 else if j == 0x9E then 20 else if j == 0xA7 then 8 else 0

-- One record of 48 bytes: extent 30, 0x6000 bytes.
abbrev directory : Buffer
directory j =
    if j == 0
    then 48
    else if j == 2
    then 30
    else if j == 11
    then 0x60
    else if leb 33 j
    then get_or kernel_name (j - 33) 0
    else 0

-- Start 0x50, `ebss` 0x6F00 and a stack of 16 KiB.
abbrev pub header_sector : Buffer
header_sector j = if j == 0 then 0x50 else if j == 65 then 0x6F else if j == 73 then 0x40 else 0

abbrev pub sector : ℕ → Buffer
sector lba =
    if lba == 16
    then descriptor
    else if lba == 20
    then directory
    else if lba == 30
    then header_sector
    else λ _. 0

abbrev pub memory : Buffer
memory p =
    if p == 0x5002
    then 0x10
    else if p == 0x500A
    then 0xEE
    else if p == 0x500B
    then 0x07
    else if p == 0x5010
    then 1
    else 0

abbrev pub rm_data : RealModeData
rm_data = record {
  framebuf_ptr = 0xE0000000;
  font_ptr = 0xFA000;
  red_pos = 16;
  green_pos = 8;
  blue_pos = 0;
  rsrvd_pos = 24;
  memmap_seg = 0x500;
  memmap_size = 1;
  scr_width = 640;
  scr_height = 480;
  boot_disk = 0xE0;
  is_boot_disk_slv = 0;
  boot_disk_io = 0x1F0;
  boot_disk_ctl = 0x3F6;
}

abbrev pub place : Handler → ℕ
place h = 0x8000

abbrev pub frame : ℕ → ℕ → ℕ
frame ptr i = 7

abbrev pub loader : Loader
loader = record {
  interrupts = record {
    idt = λ _. record { offset_low = 0; sel = 0; zero_byte = 0; attr = 0; offset_high = 0 };
    data_ready = 0;
    history = [];
  };
  video = record {
    scr_width = 0;
    scr_height = 0;
    vid_buf = λ _. 0;
    bios_font = λ _. 0;
    text_col = 0;
    text_row = 0;
    buf = replicate 17 0;
  };
  disc = set_up;
  cdrom_buf = λ _. 0;
  memory = memory;
}

get_or-lt : (xs : List ℕ) (i : ℕ) → IsBytes xs → get_or xs i 0 < 256
get_or-lt [] i bytes = omega arith
get_or-lt (x ∷ xs) zero bytes = bytes.0
get_or-lt (x ∷ xs) (suc i) bytes = get_or-lt xs i bytes.1

sector-lt : (lba j : ℕ) → sector lba j < 256
sector-lt lba j = elim (Bool-cases (lba == 16)) [
  | inl here ↦ rw here (ground arith)
  | inr other ↦ rw other (elim (Bool-cases (lba == 20)) [
    | inl here ↦ rw here (ground (arith, get_or-lt kernel_name (j - 33) (omega arith)))
    | inr more ↦ rw more (elim (Bool-cases (lba == 30)) [
      | inl here ↦ rw here (ground arith)
      | inr free ↦ rw free (omega arith)
    ])
  ])
]

-- The number of bytes that the loader may wait for.
abbrev pub fuel : ℕ
fuel = 2 ^ 32

abbrev pub entries : ℕ → List ℕ
entries c = 0 ∷ []

directory-IsListed : IsListed directory 0 (0 ∷ [])
directory-IsListed = entry (omega arith) (omega arith) (ends refl)

pub root_view : Buffer
unfolding load32
root_view = view sector (λ _. 0) 0

pub named : (at : ℕ) → Lookup kernel_name root_view (entries 0) (some at) → at ≡ 0
unfolding root_view load32
named at (first found) = refl
named at (later other found) =
    absurd
      (other (refl, (refl, (refl, (refl, (refl, (refl, (refl, (refl, (refl, (refl, tt)))))))))))

extent :
    (at : ℕ) → Lookup kernel_name root_view (entries 0) (some at) → load32 root_view (0x02 + at) ≢ 0
unfolding load32 root_view
extent at found = rw (named at found) (omega arith)

volume : IsVolume sector (λ _. 0) kernel_name entries fuel
unfolding load32 root_view
volume = record {
  unread = omega arith;
  descriptor = refl;
  listed = λ c h.
      let only : c ≡ 0 = omega arith in rw only (entry (omega arith) (omega arith) (ends refl));
  few = λ c h. omega arith;
  extents = λ c at h. let only : c ≡ 0 = omega arith in rw only (extent at);
}

pub image : IsImage (header_in header_sector) 30 0x6000
unfolding header_in load64 load32
image = record {
  sane = record { ordered = omega arith; word = omega arith; small = omega arith };
  some_code = omega arith;
  kernel = omega arith;
  stack_pages = omega arith;
  stack_aligned = omega arith;
  inside = omega arith;
  sectors = omega arith;
}

image_at :
    (at : ℕ)
    → Lookup kernel_name root_view (entries 0) (some at)
    → IsImage
        (header_in (sector (load32 root_view (0x02 + at))))
        (load32 root_view (0x02 + at))
        (load32 root_view (0x0A + at))
unfolding load32 root_view
image_at at found = rw (named at found) image

images :
    (lba size : ℕ)
    → Outcome sector (λ _. 0) kernel_name entries (lba, size)
    → lba ≢ 0
    → IsImage (header_in (sector lba)) lba size
unfolding load32 root_view
images lba size (absent all) some_lba = absurd (some_lba refl)
images lba size (present {c} {at} inside before found) some_lba =
    let only : c ≡ 0 = omega arith in
    let here : Lookup kernel_name (view sector (λ _. 0) c) (entries c) (some at)
        → IsImage (header_in (sector (load32 (view sector (λ _. 0) c) (0x02 + at))))
            (load32 (view sector (λ _. 0) c) (0x02 + at))
            (load32 (view sector (λ _. 0) c) (0x0A + at)) =
      rw only (image_at at) in
    here found

space : (total : ℕ) (m : MemMap) → First total m (memmap rm_data memory) → m.base + m.len < 2 ^ 32
unfolding mem_maps mem_map_at load64 load32
space total m (First.first suit) = omega arith
space total m (First.later _ found) = elim found [ ]

main-Ends_example :
    Returns
      (Ends
        (opened frame rm_data loader)
        (Ran rm_data sector memory 0xEB14 (λ _. 0) entries)
        blank
        (init_idt place 0x9000 loader.interrupts))
      (main place 0x9000 frame rm_data fuel (drive sector) 0 loader)
unfolding video_init
main-Ends_example =
    main-Ends place 0x9000 frame rm_data fuel 0 entries loader (drive-IsAtapi sector sector-lt)
      (drive-IsChannel sector) (omega arith) (omega arith) (omega arith) (omega arith)
      (record { narrow = omega arith; low = omega arith; wide = omega arith; high = omega arith })
      refl volume images space
