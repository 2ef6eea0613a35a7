-- ===== src/Stage2/Loader/Messages.antt =====
-- What bootloader/stage2/src/stage2.c prints.
use ziemniak.Base.{ℕ, List, [], ◌∷◌, Cmd, pure, ◌>>◌, codes}
use ziemniak.Stage2.Boot.{MemMap, KernelHeader, Layout, required}
use ziemniak.Stage2.Boot.Load.{load_sectors}
use ziemniak.Stage2.Loader.{Loader, Outcome, halted, print, print_hex}

module _ (fuel : ℕ) where
  unfoldable pub memmap_loop : List MemMap → Cmd Loader (Unit {0})
  memmap_loop [] = pure tt
  memmap_loop (m ∷ ms) = do
    print_hex fuel m.base 0
    print_hex fuel m.len 0
    print_hex fuel m.type 8
    print_hex fuel m.attrs 8
    print fuel (codes "\n")
    memmap_loop ms

  unfoldable pub print_memmap : List MemMap → Cmd Loader (Unit {0})
  print_memmap ms = print fuel (codes "Memory map:\n") >> memmap_loop ms

  unfoldable pub print_header : KernelHeader → Cmd Loader (Unit {0})
  print_header header = do
    print fuel (codes "Header contents:\n")
    print fuel (codes "start:      ")
    print_hex fuel header.start 0
    print fuel (codes "\nstext:      ")
    print_hex fuel header.stext 0
    print fuel (codes "\netext:      ")
    print_hex fuel header.etext 0
    print fuel (codes "\nsdata:      ")
    print_hex fuel header.sdata 0
    print fuel (codes "\nedata:      ")
    print_hex fuel header.edata 0
    print fuel (codes "\nsrodata:    ")
    print_hex fuel header.srodata 0
    print fuel (codes "\nerodata:    ")
    print_hex fuel header.erodata 0
    print fuel (codes "\nsbss:       ")
    print_hex fuel header.sbss 0
    print fuel (codes "\nebss:       ")
    print_hex fuel header.ebss 0
    print fuel (codes "\nstack_size: ")
    print_hex fuel header.stack_size 0
    print fuel (codes "\n")

  -- A message before `halt`.
  abbrev pub halt : (text : List ℕ) → Cmd Loader Outcome
  halt text = print fuel text >> pure halted

  unfoldable pub print_layout : Layout → Cmd Loader (Unit {0})
  print_layout l = do
    print fuel (codes "Kernel pointer : ")
    print_hex fuel l.load_buf 0
    print fuel (codes "\n")
    print fuel (codes "Page structure pointer : ")
    print_hex fuel l.pages 0
    print fuel (codes "\n")
    print fuel (codes "Stack pointer : ")
    print_hex fuel l.stack 0
    print fuel (codes "\n")
    print fuel (codes "End pointer : ")
    print_hex fuel l.load_end 0
    print fuel (codes "\n")

  unfoldable pub print_found : (kernel_lba load_size : ℕ) → Cmd Loader (Unit {0})
  print_found kernel_lba load_size = do
    print fuel (codes "Kernel image found at : ")
    print_hex fuel kernel_lba 8
    print fuel (codes ", size : ")
    print_hex fuel load_size 8
    print fuel (codes "\n")
    print fuel (codes "Loading kernel header...\n")

  unfoldable pub print_required : KernelHeader → Cmd Loader (Unit {0})
  print_required header = do
    print fuel (codes "Total required memory size for kernel :")
    print_hex fuel (required header) 8
    print fuel (codes "\n")

  unfoldable pub print_loading : (load_size : ℕ) → Cmd Loader (Unit {0})
  print_loading load_size = do
    print fuel (codes "Loading : ")
    print_hex fuel (load_sectors load_size) 0
    print fuel (codes " sectors\n")
