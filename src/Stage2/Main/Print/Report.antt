-- ===== src/Stage2/Main/Print/Report.antt =====
-- The texts that the boot loader prints, and that it does.
use ziemniak.Base.{ℕ, ◌≤◌, ◌≡◌, refl, List, [], ◌∷◌, ◌++◌, codes, returns, true}
use ziemniak.Stage2.Boot.{MemMap, KernelHeader, Layout, required}
use ziemniak.Stage2.Boot.Load.{load_sectors}
use ziemniak.Stage2.Video.{Video}
use ziemniak.Stage2.Video.Terminal.{IsScreen}
use ziemniak.Stage2.Video.Hex.{hex_text}
use ziemniak.Stage2.Loader.{print, print_hex}
use ziemniak.Stage2.Loader.Messages.{
  memmap_loop, print_memmap, print_header, print_layout, print_found, print_required, print_loading,
}
use ziemniak.Stage2.Main.Print.{is_literal, Prints, ◌⨟◌, literal, number}

-- Texts one after another, grouped from the right.
infixr 5 ◌⧺◌
abbrev ◌⧺◌ : List ℕ → List ℕ → List ℕ
a ⧺ b = a ++ b

-- A line for each region.
unfoldable pub regions_text : List MemMap → List ℕ
regions_text [] = []
regions_text (m ∷ ms) =
    hex_text m.base 0
    ⧺ hex_text m.len 0
    ⧺ hex_text m.type 8
    ⧺ hex_text m.attrs 8
    ⧺ codes "\n"
    ⧺ regions_text ms

unfoldable pub memmap_text : List MemMap → List ℕ
memmap_text ms = codes "Memory map:\n" ⧺ regions_text ms

unfoldable pub header_text : KernelHeader → List ℕ
header_text header =
    codes "Header contents:\n"
    ⧺ codes "start:      "
    ⧺ hex_text header.start 0
    ⧺ codes "\nstext:      "
    ⧺ hex_text header.stext 0
    ⧺ codes "\netext:      "
    ⧺ hex_text header.etext 0
    ⧺ codes "\nsdata:      "
    ⧺ hex_text header.sdata 0
    ⧺ codes "\nedata:      "
    ⧺ hex_text header.edata 0
    ⧺ codes "\nsrodata:    "
    ⧺ hex_text header.srodata 0
    ⧺ codes "\nerodata:    "
    ⧺ hex_text header.erodata 0
    ⧺ codes "\nsbss:       "
    ⧺ hex_text header.sbss 0
    ⧺ codes "\nebss:       "
    ⧺ hex_text header.ebss 0
    ⧺ codes "\nstack_size: "
    ⧺ hex_text header.stack_size 0
    ⧺ codes "\n"

unfoldable pub found_text : (kernel_lba load_size : ℕ) → List ℕ
found_text kernel_lba load_size =
    codes "Kernel image found at : "
    ⧺ hex_text kernel_lba 8
    ⧺ codes ", size : "
    ⧺ hex_text load_size 8
    ⧺ codes "\n"
    ⧺ codes "Loading kernel header...\n"

unfoldable pub required_text : KernelHeader → List ℕ
required_text header =
    codes "Total required memory size for kernel :" ⧺ hex_text (required header) 8 ⧺ codes "\n"

unfoldable pub layout_text : Layout → List ℕ
layout_text l =
    codes "Kernel pointer : "
    ⧺ hex_text l.load_buf 0
    ⧺ codes "\n"
    ⧺ codes "Page structure pointer : "
    ⧺ hex_text l.pages 0
    ⧺ codes "\n"
    ⧺ codes "Stack pointer : "
    ⧺ hex_text l.stack 0
    ⧺ codes "\n"
    ⧺ codes "End pointer : "
    ⧺ hex_text l.load_end 0
    ⧺ codes "\n"

unfoldable pub loading_text : (load_size : ℕ) → List ℕ
loading_text load_size =
    codes "Loading : " ⧺ hex_text (load_sectors load_size) 0 ⧺ codes " sectors\n"

module _ (start : Video) (screen : IsScreen start) (fuel : ℕ) (enough : 100 ≤ fuel) where
  lit : (text : List ℕ) → is_literal text ≡ true → Prints start screen text (print fuel text)
  lit = literal start screen fuel enough

  hex : (val offset : ℕ) → Prints start screen (hex_text val offset) (print_hex fuel val offset)
  hex = number start screen fuel enough

  memmap_loop-Prints :
      (ms : List MemMap) → Prints start screen (regions_text ms) (memmap_loop fuel ms)
  unfolding memmap_loop regions_text
  memmap_loop-Prints [] = record { prints = λ t s shows. returns (s.video, shows, refl) }
  memmap_loop-Prints (m ∷ ms) =
      hex m.base 0
      ⨟ hex m.len 0
      ⨟ hex m.type 8
      ⨟ hex m.attrs 8
      ⨟ lit (codes "\n") refl
      ⨟ memmap_loop-Prints ms

  pub print_memmap-Prints :
      (ms : List MemMap) → Prints start screen (memmap_text ms) (print_memmap fuel ms)
  unfolding print_memmap memmap_text
  print_memmap-Prints ms = lit (codes "Memory map:\n") refl ⨟ memmap_loop-Prints ms

  pub print_header-Prints :
      (header : KernelHeader) → Prints start screen (header_text header) (print_header fuel header)
  unfolding print_header header_text
  print_header-Prints header =
      lit (codes "Header contents:\n") refl
      ⨟ lit (codes "start:      ") refl
      ⨟ hex header.start 0
      ⨟ lit (codes "\nstext:      ") refl
      ⨟ hex header.stext 0
      ⨟ lit (codes "\netext:      ") refl
      ⨟ hex header.etext 0
      ⨟ lit (codes "\nsdata:      ") refl
      ⨟ hex header.sdata 0
      ⨟ lit (codes "\nedata:      ") refl
      ⨟ hex header.edata 0
      ⨟ lit (codes "\nsrodata:    ") refl
      ⨟ hex header.srodata 0
      ⨟ lit (codes "\nerodata:    ") refl
      ⨟ hex header.erodata 0
      ⨟ lit (codes "\nsbss:       ") refl
      ⨟ hex header.sbss 0
      ⨟ lit (codes "\nebss:       ") refl
      ⨟ hex header.ebss 0
      ⨟ lit (codes "\nstack_size: ") refl
      ⨟ hex header.stack_size 0
      ⨟ lit (codes "\n") refl

  pub print_found-Prints :
      (kernel_lba load_size : ℕ)
      → Prints start screen
          (found_text kernel_lba load_size)
          (print_found fuel kernel_lba load_size)
  unfolding print_found found_text
  print_found-Prints kernel_lba load_size =
      lit (codes "Kernel image found at : ") refl
      ⨟ hex kernel_lba 8
      ⨟ lit (codes ", size : ") refl
      ⨟ hex load_size 8
      ⨟ lit (codes "\n") refl
      ⨟ lit (codes "Loading kernel header...\n") refl

  pub print_required-Prints :
      (header : KernelHeader)
      → Prints start screen (required_text header) (print_required fuel header)
  unfolding print_required required_text
  print_required-Prints header =
      lit (codes "Total required memory size for kernel :") refl
      ⨟ hex (required header) 8
      ⨟ lit (codes "\n") refl

  pub print_layout-Prints : (l : Layout) → Prints start screen (layout_text l) (print_layout fuel l)
  unfolding print_layout layout_text
  print_layout-Prints l =
      lit (codes "Kernel pointer : ") refl
      ⨟ hex l.load_buf 0
      ⨟ lit (codes "\n") refl
      ⨟ lit (codes "Page structure pointer : ") refl
      ⨟ hex l.pages 0
      ⨟ lit (codes "\n") refl
      ⨟ lit (codes "Stack pointer : ") refl
      ⨟ hex l.stack 0
      ⨟ lit (codes "\n") refl
      ⨟ lit (codes "End pointer : ") refl
      ⨟ hex l.load_end 0
      ⨟ lit (codes "\n") refl

  pub print_loading-Prints :
      (load_size : ℕ) → Prints start screen (loading_text load_size) (print_loading fuel load_size)
  unfolding print_loading loading_text
  print_loading-Prints load_size =
      lit (codes "Loading : ") refl ⨟ hex (load_sectors load_size) 0 ⨟ lit (codes " sectors\n") refl
