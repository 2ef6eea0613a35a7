-- ===== src/Handover/Regions.antt =====
-- `mm_init` of the kernel, on the map that the boot loader chose a region from: which memory it takes
-- for free.
use ziemniak.Base.{
  ℕ, ◌+◌, ◌-◌, ◌%◌, ◌^◌, ◌<◌, ◌≤◌, ◌≡◌, ◌⊎◌, inl, inr, sym, ap, ◌∙◌, arith, some, sub64,
}
use ziemniak.Pages.{page_up, page_up_lem, page_cnt}
use ziemniak.Kernel.Memory.Init.{trim}
use ziemniak.Kernel.Memory.Init.Regions.{trim-IsKept}
use ziemniak.Stage2.Boot.{MemMap, KernelHeader, Layout, Tables, page_tables}
use ziemniak.Stage2.Boot.Region.{Fits}
use ziemniak.Stage2.Boot.Paging.{walk, IsLow}
use ziemniak.Stage2.Boot.Paging.Mapped.{same-IsMapped}
use ziemniak.Handover.{as_entry}

-- Two regions without a common byte.
abbrev pub Apart : (e m : MemMap) → Type 0
Apart e m = (e.base + e.len ≤ m.base) ⊎ (m.base + m.len ≤ e.base)

-- The kernel holds the page for free, in a region of the map.
abbrev pub Keeps : Layout → (e : MemMap) (page : ℕ) → Type 0
Keeps l e page =
    let e' = trim l.load_buf (sub64 (page_up l.load_end) l.load_buf) (as_entry e) in
    (e'.base ≤ page) × (page < e'.last)

module _ (header : KernelHeader) (m : MemMap) (l : Layout) (fits : Fits header m l)
    (low : IsLow header l) (own : l.load_buf ≡ page_up m.base) (end : m.base + m.len < 2 ^ 32) where
  ordered : l.load_buf ≤ l.load_end
  ordered = omega (arith, low.ordered, low.tables)

  -- If the kernel was loaded from the first page border of a region below 4 GiB on, then a page that
  -- `mm_init` keeps of this region, or of one apart from it, lies outside the memory from `load_buf` to
  -- `load_end`: the image of the kernel, the page tables and the memory that was cleared for the stack.
  pub trim-Spares :
      (e : MemMap) (page : ℕ)
      → (e ≡ m) ⊎ Apart e m
      → e.base + e.len < 2 ^ 64
      → e.base + 4095 < 2 ^ 64
      → page % 4096 ≡ 0
      → Keeps l e page
      → (page + 4096 ≤ l.load_buf) ⊎ (l.load_end ≤ page)
  trim-Spares e page which space round aligned keeps =
      let kept =
        (trim-IsKept l.load_buf l.load_end (as_entry e) space round ordered (omega (arith, low.top))
            page aligned).0
          keeps in
      elim kept.free [
        | inl past ↦ inr (omega (arith, page_up_lem l.load_end (omega (arith, low.top))))
        | inr other ↦ elim which [
          | inl same ↦ absurd (other (ap (λ (m : MemMap). page_up m.base) same ∙ sym own))
          | inr (inl before) ↦ inl (omega (arith, kept.ends, fits.starts))
          | inr (inr after) ↦ inr (omega (arith, kept.starts, fits.ends))
        ]
      ]

  -- But the stack pages are counted down from the page that starts at `load_end`: the top of the
  -- kernel's stack is mapped to that page, and the kernel keeps it for free if it lies whole in the
  -- region.
  pub trim-Shared :
      (tab : Tables)
      → ((j : ℕ) → j < 5120 → tab j ≡ page_tables header l j)
      → 0 < page_cnt header.stack_size
      → l.load_end + 4096 ≤ m.base + m.len
      → Keeps l m l.load_end
        × ((r : ℕ) → r < 4096 → walk l.pages tab (2 ^ 64 - 4096 + r) ≡ some (l.load_end + r))
  trim-Shared tab same some_stack room = (
    (trim-IsKept l.load_buf l.load_end (as_entry m) (omega arith) (omega arith) ordered
          (omega (arith, low.top)) l.load_end low.stack_aligned).1
        (record {
          starts = omega (arith, fits.starts, ordered);
          ends = room;
          free =
              inl
                (omega (arith, page_up_lem l.load_end (omega (arith, low.top)), low.stack_aligned));
        }),
    λ r h.
        (same-IsMapped header l low tab (λ j inside out. same j inside)).stack 0 r some_stack h
        ∙ ap some (omega arith),
  )
