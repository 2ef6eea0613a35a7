-- ===== src/Handover/Window.antt =====
-- `mm_peek` of the kernel, through the page tables of the boot loader.
use ziemniak.Base.{ℕ, ◌+◌, ◌-◌, ◌*◌, ◌/◌, ◌%◌, ◌^◌, ◌<◌, ◌≤◌, ◌≡◌, ap, sym, ◌∙◌, arith, some}
use ziemniak.Pages.{block_size}
use ziemniak.Kernel.Memory.{PageEntry, Mm, peek_addr, mm_peek}
use ziemniak.Kernel.Memory.Mmu.{word, translate, access}
use ziemniak.Kernel.Memory.Window.{IsRequest, mm_peek-Finds, mm_peek-table}
use ziemniak.Stage2.Boot.{KernelHeader, Layout, Page, Tables, page_tables}
use ziemniak.Stage2.Boot.Memory.{page_of}
use ziemniak.Stage2.Boot.Paging.{walk, block, IsLow, IsMapped, Agrees}
use ziemniak.Stage2.Boot.Paging.Mapped.{same-IsMapped, window-walk}
use ziemniak.Stage2.Loader.{RealModeData, long_mode_data}
use ziemniak.Handover.{with_window}

-- The two descriptions of an entry of a 2 MiB page agree.
block-translate :
    (w offset p : ℕ)
    → translate w offset ≡ some p
    → ((page_of w).pres ≡ 1) × ((page_of w).big ≡ 1) × (block (page_of w) offset ≡ some p)
unfolding page_of translate
block-translate w offset p h = (ground arith, ground arith, ground arith)

with_window-Agrees :
    (header : KernelHeader) (l : Layout) (tab : Tables) (peek_pde : ℕ) (entries : ℕ → PageEntry)
    → peek_pde ≡ l.pages + 6 * 4096
    → Agrees header l tab
    → Agrees header l (with_window l.pages peek_pde entries tab)
with_window-Agrees header l tab peek_pde entries table same j inside out =
    ground (arith, same j inside out)

window_entry :
    (pages peek_pde k : ℕ) (entries : ℕ → PageEntry) (tab : Tables)
    → k < 512
    → peek_pde ≡ pages + 6 * 4096
    → with_window pages peek_pde entries tab (3072 + k)
      ≡ page_of (word (entries (peek_pde + k * 8)))
window_entry pages peek_pde k entries tab h table =
    let place : pages + (3072 + k) * 8 ≡ peek_pde + k * 8 = omega arith in rw place (ground arith)

pub access-walk :
    (header : KernelHeader) (l : Layout)
    → IsLow header l
    → (tab : Tables) → Agrees header l tab
    → (s : Mm) (off p : ℕ) → off < 2 ^ 30
    → s.peek_pde ≡ l.pages + 6 * 4096
    → access s (peek_addr + off) ≡ some p
    → walk l.pages (with_window l.pages s.peek_pde s.entries tab) (peek_addr + off) ≡ some p
access-walk header l low tab same s off p small table found =
    let k = off / 2 ^ 21 in
    let w = word (s.entries (s.peek_pde + k * 8)) in
    let back : peek_addr + off - peek_addr ≡ off = omega arith in
    let inner : translate w ((peek_addr + off) % block_size) ≡ some p =
      ap
        (λ (n : ℕ).
          translate (word (s.entries (s.peek_pde + n / block_size * 8)))
            ((peek_addr + off) % block_size))
        (sym back)
      ∙ found in
    let (present_entry, big_entry, leads) =
      block-translate w ((peek_addr + off) % block_size) p inner in
    let slot : with_window l.pages s.peek_pde s.entries tab (3072 + k) ≡ page_of w =
      window_entry l.pages s.peek_pde k s.entries tab (omega arith) table in
    window-walk header l low (with_window l.pages s.peek_pde s.entries tab)
      (with_window-Agrees header l tab s.peek_pde s.entries table same) off small
      (ap (λ (e : Page). e.pres) slot ∙ present_entry) (ap (λ (e : Page). e.big) slot ∙ big_entry)
    ∙ ap (λ (e : Page). block e ((peek_addr + off) % 2 ^ 21)) slot
    ∙ leads

-- What the kernel sees after the call: the range leads to the memory asked for, its own code, its
-- stack and the low 2 MiB to what they led to before.
pub record IsPeeked (header : KernelHeader) (l : Layout) (tab : Tables) (virt phys size : ℕ)
    (after : Mm) : Type 0 where
  pub range :
      (off : ℕ) → off < size → walk l.pages tab (after.pointers virt + off) ≡ some (phys + off)
  pub others : IsMapped header l tab

-- For a layout that the page tables are right for, and a table for `mm_peek` that is the
-- one in `lm_data` and lies in the low 2 MiB, the kernel reaches that table at its physical address; and a
-- call of `mm_peek` within the limits, for memory that starts in one of the first two pages of a 2 MiB
-- block, makes the walk through all four levels of the boot loader's tables lead from the pointer that
-- it stores to the memory asked for, and leaves kernel, stack and low memory mapped as they were.
pub mm_peek-IsPeeked :
    (header : KernelHeader) (l : Layout) (rm_data : RealModeData) (tab : Tables)
    (virt phys size : ℕ) (s : Mm)
    → IsLow header l
    → ((j : ℕ) → j < 5120 → tab j ≡ page_tables header l j)
    → s.peek_pde ≡ (long_mode_data rm_data l).peek_entry
    → l.pages + 7 * 4096 ≤ 2 ^ 21
    → IsRequest virt phys size s
    → phys % block_size < 8192
    → ((a : ℕ) → a < 4096 → walk l.pages tab (s.peek_pde + a) ≡ some (s.peek_pde + a))
      × (let after = (mm_peek virt phys size s).1 in
          IsPeeked header l
            (with_window l.pages after.peek_pde after.entries tab)
            virt
            phys
            size
            after)
unfolding long_mode_data
mm_peek-IsPeeked header l rm_data tab virt phys size s low same table near req start =
    let after = (mm_peek virt phys size s).1 in
    let agrees : Agrees header l tab = λ j inside out. same j inside in
    let mapped = same-IsMapped header l low tab agrees in
    let (call, finds) = mm_peek-Finds req start in
    let place6 : after.peek_pde ≡ l.pages + 6 * 4096 =
      mm_peek-table req ∙ table ∙ omega (arith, low.tables, low.top) in
    (
      λ a h. mapped.boot (s.peek_pde + a) (omega (arith, low.tables, low.top)),
      record {
        range = λ off h.
            let place : after.pointers virt + off ≡ peek_addr + (phys % block_size + off) =
              ap (λ n. n + off) call.stored ∙ omega arith in
            rw place (
              access-walk header l low tab agrees after (phys % block_size + off) (phys + off)
                (omega (arith, req.spans)) place6
                (ap (λ n. access after n) (sym place) ∙ finds off h));
        others =
            same-IsMapped header l low (with_window l.pages after.peek_pde after.entries tab)
              (with_window-Agrees header l tab after.peek_pde after.entries place6 agrees);
      },
    )
