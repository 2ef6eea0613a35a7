-- ===== src/Handover/Started.antt =====
-- A run of the boot loader that enters the kernel, and the run of the kernel that follows.
use ziemniak.Base.{
  ℕ, zero, suc, ◌+◌, ◌*◌, ◌%◌, ◌^◌, ◌<◌, ◌≤◌, ◌≡◌, ◌≢◌, inl, refl, ap, sym, ◌∙◌, arith, List, map,
  some, Returns, Returns-mono, u16, u32,
}
use ziemniak.Machine.{Device}
use ziemniak.Pic.{Pics}
use ziemniak.Pages.{block_size}
use ziemniak.Kernel.Serial.Print.{Drains}
use ziemniak.Kernel.Interrupts.{interrupts_init}
use ziemniak.Kernel.Memory.{peek_addr, m1gb, entry_cnt}
use ziemniak.Kernel.Memory.Mmu.{access}
use ziemniak.Kernel.Memory.Window.{IsRequest, blocks}
use ziemniak.Kernel.Entry.{Kernel, with_history, main}
use ziemniak.Kernel.Entry.Start.{IsPort, IsStarted, screen_size, main-IsStarted}
use ziemniak.Stage2.Disc.{Buffer}
use ziemniak.Stage2.Boot.{Layout, KernelHeader, total_size, at_table}
use ziemniak.Stage2.Boot.Region.{First-suits}
use ziemniak.Stage2.Main.Run.Load.{base-lt}
use ziemniak.Stage2.Boot.Memory.{mem_map_at, mem_maps}
use ziemniak.Stage2.Boot.Memory.Tables.{tables_at, load64-same, load32-same}
use ziemniak.Stage2.Boot.Paging.{walk}
use ziemniak.Stage2.Boot.Placement.{IsLoaded}
use ziemniak.Stage2.Loader.{RealModeData, LongModeData, entered, mem_map, memmap, long_mode_data}
use ziemniak.Stage2.Main.Run.{Placed, loaded, Found, found, Ran, supported}
use ziemniak.Handover.{as_entry, with_window, received, map_in}
use ziemniak.Handover.Window.{access-walk}

-- What a run leaves that enters the kernel.
data IsEntered (rm_data : RealModeData) (sector : ℕ → Buffer) (start memory : Buffer)
    : (pml4e : ℕ) (lm : LongModeData) → Type 0 where
  with_layout :
      {header : KernelHeader} (l : Layout) {lba size pml4e : ℕ}
      → IsLoaded header l lba size sector start memory
      → 0x100000 ≤ l.load_buf
      → pml4e ≡ l.pages
      → IsEntered rm_data sector start memory pml4e (long_mode_data rm_data l)

Placed-IsEntered :
    {rm_data : RealModeData} {sector : ℕ → Buffer} {start memory : Buffer} {lba size : ℕ}
    {header : KernelHeader} {addr pml4e : ℕ} {lm : LongModeData} {texts : List (List ℕ)}
    → Placed rm_data sector start lba size header (entered addr pml4e lm) texts memory
    → IsEntered rm_data sector start memory pml4e lm
Placed-IsEntered {header} (loaded {m} {l} chosen fits is_loaded) =
    with_layout l is_loaded
      (omega (arith, base-lt (total_size header) m (First-suits chosen), fits.starts))
      (omega (arith, is_loaded.low.tables, is_loaded.low.top))

Found-IsEntered :
    {rm_data : RealModeData} {sector : ℕ → Buffer} {start memory buf : Buffer}
    {entries : ℕ → List ℕ} {addr pml4e : ℕ} {lm : LongModeData} {texts : List (List ℕ)}
    → Found rm_data sector start buf entries (entered addr pml4e lm) texts memory
    → IsEntered rm_data sector start memory pml4e lm
Found-IsEntered (found outcome some_lba placed) = Placed-IsEntered placed

Ran-IsEntered :
    {rm_data : RealModeData} {sector : ℕ → Buffer} {start memory buf : Buffer} {signature : ℕ}
    {entries : ℕ → List ℕ} {addr pml4e : ℕ} {lm : LongModeData} {texts : List (List ℕ)}
    → Ran rm_data sector start signature buf entries (entered addr pml4e lm) texts memory
    → IsEntered rm_data sector start memory pml4e lm
Ran-IsEntered (supported same ran) = Found-IsEntered ran

-- The memory map is where it was.
mem_maps-same :
    (a b : Buffer) (mem_map left i : ℕ)
    → ((p : ℕ) → p < mem_map + (i + left) * 24 → a p ≡ b p)
    → mem_maps a mem_map left i ≡ mem_maps b mem_map left i
unfolding mem_maps mem_map_at
mem_maps-same a b mem_map zero i same = refl
mem_maps-same a b mem_map (suc left) i same =
    let at = mem_map + i * 24 in
    let base = load64-same a b at λ p from to. same p (omega arith) in
    let len = load64-same a b (at + 8) λ p from to. same p (omega arith) in
    let type_word = load32-same a b (at + 16) λ p from to. same p (omega arith) in
    let attrs = load32-same a b (at + 20) λ p from to. same p (omega arith) in
    let rest = mem_maps-same a b mem_map left (i + 1) λ p h. same p (omega arith) in
    rw (base, len, type_word, attrs, rest) refl

module _ (dev : Device) (fuel : ℕ) (bda_coms : ℕ → ℕ) {depth : ℕ}
    (drains : Drains dev (u16 (bda_coms 0)) depth) (enough : depth ≤ fuel) (isr_tab : ℕ → ℕ)
    (small : (v : ℕ) → isr_tab v < 2 ^ 64) where
  IsEntered-IsStarted :
      {rm_data : RealModeData} {sector : ℕ → Buffer} {start memory : Buffer} {pml4e : ℕ}
      {lm : LongModeData} (firmware : Pics) (idt_addr vmem : ℕ) (s : Kernel)
      → IsEntered rm_data sector start memory pml4e lm
      → mem_map rm_data + rm_data.memmap_size * 24 ≤ 0x100000
      → lm.peek_entry + 4096 ≤ 2 ^ 21
      → IsPort dev (u16 (bda_coms 0)) (
          with_history
            (interrupts_init isr_tab idt_addr
              (record { idt = s.idt; history = s.debug.serial.history })).1.history
            s.debug)
      → vmem ≢ 0
      → screen_size (received lm) ≤ m1gb
      → rm_data.framebuf_ptr + screen_size (received lm) + block_size ≤ 2 ^ 52
      → blocks rm_data.framebuf_ptr (screen_size (received lm)) ≤ entry_cnt
      → rm_data.framebuf_ptr % block_size < 8192
      → Returns
          (λ _ s'.
            IsStarted isr_tab idt_addr firmware
              (u16 (bda_coms 0))
              vmem
              (map as_entry (memmap rm_data start))
              (received lm)
              s
              s'
            × ((off : ℕ)
                → off < screen_size (received lm)
                → walk pml4e
                    (with_window pml4e s'.mm.peek_pde s'.mm.entries (tables_at memory pml4e))
                    (s'.mm.pointers vmem + off)
                  ≡ some (rm_data.framebuf_ptr + off))
            × ((a : ℕ)
                → a < 4096
                → walk pml4e (tables_at memory pml4e) (lm.peek_entry + a)
                  ≡ some (lm.peek_entry + a)))
          (main dev fuel isr_tab idt_addr bda_coms vmem
            (map_in memory (received lm))
            (received lm)
            s)
  unfolding long_mode_data
  IsEntered-IsStarted {rm_data} {sector} {start} {memory} firmware idt_addr vmem s
        (with_layout {header} l is_loaded high table) below near is target size fits spans aligned =
      let low = is_loaded.low in
      let lm = long_mode_data rm_data l in
      let place : at_table l.pages 6 ≡ l.pages + 6 * 4096 = omega (arith, low.tables, low.top) in
      let pointer : u32 (mem_map rm_data) ≡ mem_map rm_data = omega arith in
      let same_map : mem_maps memory (u32 (mem_map rm_data)) rm_data.memmap_size 0
          ≡ memmap rm_data start =
        rw pointer (
          mem_maps-same memory start (mem_map rm_data) rm_data.memmap_size 0
            λ p h. is_loaded.rest p (inl (omega arith))) in
      let request : IsRequest vmem rm_data.framebuf_ptr (screen_size (received lm))
          (record s.mm { peek_pde = lm.peek_entry }) =
        record {
          ready = omega (arith, low.tables, low.ordered);
          room = omega (arith, low.tables, low.top);
          target = target;
          small = size;
          fits = fits;
          spans = spans;
        } in
      rw same_map (
        Returns-mono
          (main-IsStarted dev fuel bda_coms drains enough isr_tab small firmware idt_addr vmem
            (map as_entry (memmap rm_data start)) (received lm) s is request aligned)
          λ _ s' started. (
            started,
            λ off h.
                let phys = rm_data.framebuf_ptr % block_size in
                let virt : s'.mm.pointers vmem + off ≡ peek_addr + (phys + off) =
                  ap (λ n. n + off) started.pointer ∙ omega arith in
                rw (table, virt)
                  (access-walk header l low (tables_at memory l.pages)
                    (λ j inside out. is_loaded.tables j inside) s'.mm (phys + off)
                    (rm_data.framebuf_ptr + off) (omega arith) (started.table ∙ place)
                    (ap (λ n. access s'.mm n) (sym virt) ∙ started.screen off h)),
            λ a h. rw table (is_loaded.mapped.boot (lm.peek_entry + a) (omega arith)),
          ))

  -- If the boot loader enters the kernel, with its memory map below 1 MiB and the table for `mm_peek`
  -- in the low 2 MiB, on a machine with a first serial port that drains and passes its self test and a
  -- frame buffer within the limits of `mm_peek` that starts in one of the first two pages of its block,
  -- then `main` of the kernel, run on the memory and the structure that it is handed, reaches its last
  -- loop: its history is the set-up of the interrupts and of the port, the free regions of the memory
  -- map that the boot loader had, the totals and the greeting sent, and the flushes of the frame buffer,
  -- in this order; and through the page tables of the boot loader the pointer that it has then leads to the frame buffer of the boot loader, and
  -- the addresses at which the kernel has written its table entries lead to that table.
  pub entered-IsStarted :
      {rm_data : RealModeData} {sector : ℕ → Buffer} {start memory buf : Buffer} {signature : ℕ}
      {entries : ℕ → List ℕ} {addr pml4e : ℕ} {lm : LongModeData} {texts : List (List ℕ)}
      (firmware : Pics) (idt_addr vmem : ℕ) (s : Kernel)
      → Ran rm_data sector start signature buf entries (entered addr pml4e lm) texts memory
      → mem_map rm_data + rm_data.memmap_size * 24 ≤ 0x100000
      → lm.peek_entry + 4096 ≤ 2 ^ 21
      → IsPort dev (u16 (bda_coms 0)) (
          with_history
            (interrupts_init isr_tab idt_addr
              (record { idt = s.idt; history = s.debug.serial.history })).1.history
            s.debug)
      → vmem ≢ 0
      → screen_size (received lm) ≤ m1gb
      → rm_data.framebuf_ptr + screen_size (received lm) + block_size ≤ 2 ^ 52
      → blocks rm_data.framebuf_ptr (screen_size (received lm)) ≤ entry_cnt
      → rm_data.framebuf_ptr % block_size < 8192
      → Returns
          (λ _ s'.
            IsStarted isr_tab idt_addr firmware
              (u16 (bda_coms 0))
              vmem
              (map as_entry (memmap rm_data start))
              (received lm)
              s
              s'
            × ((off : ℕ)
                → off < screen_size (received lm)
                → walk pml4e
                    (with_window pml4e s'.mm.peek_pde s'.mm.entries (tables_at memory pml4e))
                    (s'.mm.pointers vmem + off)
                  ≡ some (rm_data.framebuf_ptr + off))
            × ((a : ℕ)
                → a < 4096
                → walk pml4e (tables_at memory pml4e) (lm.peek_entry + a)
                  ≡ some (lm.peek_entry + a)))
          (main dev fuel isr_tab idt_addr bda_coms vmem
            (map_in memory (received lm))
            (received lm)
            s)
  entered-IsStarted firmware idt_addr vmem s ran =
      IsEntered-IsStarted firmware idt_addr vmem s (Ran-IsEntered ran)
