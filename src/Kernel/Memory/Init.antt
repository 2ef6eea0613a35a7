-- ===== src/Kernel/Memory/Init.antt =====
-- `mm_init` of kernel/src/memory/mm.c: the walk over the memory map of the firmware.
pub mod Listed
pub mod Output
pub mod Regions
use ziemniak.Base.{
  ℕ, suc, ◌+◌, ◌%◌, ◌^◌, List, [], ◌∷◌, Bool, ◌&&◌, ltb, leb, ◌==◌, if◌then◌else◌, Cmd, pure, ◌>>=◌,
  ◌>>◌, codes, u64, sub64,
}
use ziemniak.Machine.{Device}
use ziemniak.Pages.{page_up, page_down}
use ziemniak.Kernel.Bitmap.{AllocatorApi, bitmap_allocator}
use ziemniak.Kernel.Debug.{Debug, debug_num}
use ziemniak.Kernel.Memory.{Mm}

abbrev pub free_ram : ℕ
free_ram = 1

-- `struct memmap`. `len` and `end` are one member under two names; `last` is its value, the length
-- of the region before the walk and its end after it.
pub record MemMap : Type 0 where
  pub base : ℕ
  pub last : ℕ
  pub type : ℕ
  pub attrs : ℕ

-- The locals of `mm_init` that the walk changes.
pub record Totals : Type 0 where
  pub valid_cnt : ℕ
  pub free_mem : ℕ
  pub max : ℕ

abbrev pub no_totals : Totals
no_totals = record { valid_cnt = 0; free_mem = 0; max = 0 }

-- The three assignments to an entry.
unfoldable pub trim : (load_buf load_size : ℕ) → MemMap → MemMap
trim load_buf load_size e =
    let end = page_down (u64 (e.base + e.last)) in
    let base = page_up e.base in
    record e { base = if base == load_buf then u64 (base + load_size) else base; last = end }

abbrev pub usable : MemMap → Bool
usable e = e.type == free_ram && leb 0x100000 e.base

unfoldable pub count : MemMap → Totals → Totals
count e t =
    let t' =
      if usable e
      then record t {
        valid_cnt = u64 (t.valid_cnt + 1);
        free_mem = u64 (t.free_mem + sub64 e.last e.base);
      }
      else t in
    if ltb t'.max e.last then record t' { max = e.last } else t'

module _ (dev : Device) (fuel : ℕ) where
  -- What a round prints of an entry.
  unfoldable pub show : MemMap → Cmd Debug (Unit {0})
  show e =
      if usable e
      then (do
        debug_num dev fuel (codes "Base: ") e.base
        debug_num dev fuel (codes "End: ") e.last)
      else pure tt

  unfoldable pub map_loop :
      (load_buf load_size : ℕ) → List MemMap → Totals → Cmd Debug (List MemMap × Totals)
  map_loop load_buf load_size [] t s = pure ([], t) s
  map_loop load_buf load_size (e ∷ es) t s =
      let e' = trim load_buf load_size e in
      (show e'
          >> (map_loop load_buf load_size es (count e' t) >>= λ (es', t'). pure (e' ∷ es', t')))
        s

  -- The memory map, the totals of the walk, which the code does not keep, and the manager's state.
  unfoldable pub mm_init :
      (peek_entry : ℕ) (memmap : List MemMap) (load_buf load_end : ℕ)
      → Mm
      → Cmd Debug (List MemMap × Totals × Mm)
  mm_init peek_entry memmap load_buf load_end mm =
      let load_size = sub64 (page_up load_end) load_buf in
      map_loop load_buf load_size memmap no_totals >>= λ (map, t). (do
        debug_num dev fuel (codes "Bitmap allocator requirements: ")
            (bitmap_allocator.get_req t.max)
        debug_num dev fuel (codes "Max address: ") t.max
        pure (map, t, record mm { peek_pde = peek_entry }))
