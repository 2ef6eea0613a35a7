-- ===== src/Kernel/Entry.antt =====
-- The kernel's `main`, kernel/src/init/kernel.c.
pub mod Start
use ziemniak.Base.{ℕ, ◌+◌, ◌*◌, ◌%◌, ◌^◌, List, Option, none, some, Cmd, pure, ◌>>=◌, codes, u64}
use ziemniak.Machine.{History, Device}
use ziemniak.Kernel.Debug.{Debug, debug_init, debug_info}
use ziemniak.Kernel.Interrupts.{IdtEntry, Interrupts, Stopped, stopped, interrupts_init}
use ziemniak.Kernel.Memory.{Mm, mm_peek}
use ziemniak.Kernel.Memory.Init.{MemMap, mm_init}

-- `struct long_mode_data`
pub record LongModeData : Type 0 where
  pub framebuf_ptr : ℕ
  pub font_ptr : ℕ
  pub memmap_ptr : ℕ
  pub load_buf : ℕ
  pub load_end : ℕ
  pub peek_entry : ℕ
  pub memmap_size : ℕ
  pub scr_width : ℕ
  pub scr_height : ℕ
  pub boot_disk_io : ℕ
  pub boot_disk_ctl : ℕ
  pub is_boot_disk_slv : ℕ
  pub red_pos : ℕ
  pub green_pos : ℕ
  pub blue_pos : ℕ
  pub rsrvd_pos : ℕ

-- The states of the parts. There is one history: that of `debug`; a call of another part gets it
-- and hands it back.
pub record Kernel : Type 0 where
  pub idt : ℕ → IdtEntry
  pub debug : Debug
  pub mm : Mm

abbrev pub with_history : History → Debug → Debug
with_history h d = record d { serial = record d.serial { history = h } }

-- The calls from `debug_init` to `debug_info`, which end with the state of the memory manager.
-- `memmap` is the map of `memmap_size` entries at `memmap_ptr`.
unfoldable pub report :
    (dev : Device) (fuel : ℕ) (bda_coms : ℕ → ℕ) (memmap : List MemMap) (lm_data : LongModeData)
    → Mm
    → Cmd Debug Mm
report dev fuel bda_coms memmap lm_data mm = debug_init dev bda_coms >>= λ _.
    (mm_init dev fuel lm_data.peek_entry memmap lm_data.load_buf lm_data.load_end mm
      >>= λ (_, _, mm'). (debug_info dev fuel (codes "Kernel started") >>= λ _. pure mm'))

-- The call of `mm_peek`; the loop after it has an empty body. `vmem` is the address of the static
-- pointer, and the size of the screen is an `int`.
unfoldable pub peek_screen :
    (vmem : ℕ) (lm_data : LongModeData) (idt : ℕ → IdtEntry)
    → Option (Mm × Debug)
    → Option (Stopped × Kernel)
peek_screen vmem lm_data idt none = none
peek_screen vmem lm_data idt (some (mm, d)) =
    let (_, mm') =
      mm_peek vmem lm_data.framebuf_ptr (lm_data.scr_width * lm_data.scr_height * 4)
        (record mm { history = d.serial.history }) in
    some (stopped, record { idt = idt; debug = with_history mm'.history d; mm = mm' })

unfoldable pub main :
    (dev : Device) (fuel : ℕ) (isr_tab : ℕ → ℕ) (idt_addr : ℕ) (bda_coms : ℕ → ℕ) (vmem : ℕ)
    (memmap : List MemMap) (lm_data : LongModeData)
    → Kernel
    → Option (Stopped × Kernel)
main dev fuel isr_tab idt_addr bda_coms vmem memmap lm_data s =
    let (_, i) =
      interrupts_init isr_tab idt_addr (record { idt = s.idt; history = s.debug.serial.history }) in
    peek_screen vmem lm_data i.idt
      (report dev fuel bda_coms memmap lm_data s.mm (with_history i.history s.debug))
