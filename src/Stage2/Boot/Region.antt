-- ===== src/Stage2/Boot/Region.antt =====
-- The region that is chosen, and that all the boot loader places in it fits.
use ziemniak.Base.{
  ℕ, ◌+◌, ◌-◌, ◌*◌, ◌%◌, ◌^◌, ◌<◌, ◌≤◌, ◌≡◌, ◌⊎◌, inl, inr, refl, arith, List, [], ◌∷◌, leb, ◌==◌,
  ◌&&◌, if◌then◌else◌, Bool-cases, Bool, true, false, sub64,
}
use ziemniak.Pages.{page_up, page_up_lem}
use ziemniak.Stage2.Boot.{
  MemMap, KernelHeader, Layout, free_ram, required, total_size, choose, layout,
}

-- A region that can take `total_size` bytes.
abbrev pub suits : (total_size : ℕ) → MemMap → Bool
suits total m = m.type == free_ram && (leb 0x100000 m.base && leb total m.len)

-- The first region of a list that suits.
pub data First (total : ℕ) (m : MemMap) : List MemMap → Type 0 where
  first : {ms : List MemMap} → suits total m ≡ true → First total m (m ∷ ms)
  later :
      {m' : MemMap} {ms : List MemMap}
      → suits total m' ≡ false
      → First total m ms
      → First total m (m' ∷ ms)

pub data None (total : ℕ) : List MemMap → Type 0 where
  none_left : None total []
  passed :
      {m' : MemMap} {ms : List MemMap}
      → suits total m' ≡ false
      → None total ms
      → None total (m' ∷ ms)

pub First-suits :
    {total : ℕ} {m : MemMap} {ms : List MemMap} → First total m ms → suits total m ≡ true
First-suits (first suit) = suit
First-suits (later _ found) = First-suits found

choose-step :
    (total : ℕ) (m : MemMap) (ms : List MemMap)
    → choose total (m ∷ ms) ≡ (if suits total m then page_up m.base else choose total ms)
unfolding choose
choose-step total m ms = ground arith

pub choose-First :
    (total : ℕ) (ms : List MemMap)
    → ((m : MemMap) × First total m ms × (choose total ms ≡ page_up m.base))
      ⊎ (None total ms × (choose total ms ≡ 0))
choose-First total [] = unfold choose in inr (none_left, refl)
choose-First total (m ∷ ms) = elim (Bool-cases (suits total m)) [
  | inl here ↦ inl (m, first here, rw (choose-step total m ms, here) refl)
  | inr other ↦ elim (choose-First total ms) [
    | inl (m', found, at) ↦ inl (m', later other found, rw (choose-step total m ms, other) at)
    | inr (missing, zero_buf) ↦
        inr (passed other missing, rw (choose-step total m ms, other) zero_buf)
  ]
]

-- A header whose sizes the code's 32-bit arithmetic holds.
pub record IsSane (header : KernelHeader) : Type 0 where
  pub ordered : header.stext ≤ header.ebss
  pub word : header.ebss < 2 ^ 64
  pub small : (header.ebss - header.stext) + header.stack_size + 12 * 4096 < 2 ^ 32

-- Kernel, page tables and stack lie one after another in the region.
pub record Fits (header : KernelHeader) (m : MemMap) (l : Layout) : Type 0 where
  pub starts : m.base ≤ l.load_buf
  pub kernel : l.load_buf + (header.ebss - header.stext) ≤ l.pages
  pub tables : l.pages + 10 * 4096 ≡ l.stack
  pub stack : l.stack + header.stack_size ≡ l.load_end
  pub ends : l.load_end ≤ m.base + m.len
  pub aligned : (l.load_buf % 4096 ≡ 0) × (l.pages % 4096 ≡ 0)

pub suits-le : (total : ℕ) (m : MemMap) → suits total m ≡ true → total ≤ m.len
suits-le total m suit = ground arith

total_size-exact :
    (header : KernelHeader)
    → IsSane header
    → total_size header ≡ header.ebss - header.stext + header.stack_size + 12 * 4096
unfolding total_size required
total_size-exact header sane =
    let k : sub64 header.ebss header.stext ≡ header.ebss - header.stext =
      omega (arith, sane.ordered, sane.word) in
    rw k (omega (arith, sane.small))

-- For a kernel whose sizes the 32-bit arithmetic holds, and a region that suits, kernel, tables and
-- stack lie one after another inside the region, on page borders.
pub layout-Fits :
    (header : KernelHeader) (m : MemMap)
    → IsSane header
    → suits (total_size header) m ≡ true
    → m.base + m.len < 2 ^ 64
    → Fits header m (layout header (page_up m.base))
unfolding layout
layout-Fits header m sane suit space =
    let k : sub64 header.ebss header.stext ≡ header.ebss - header.stext =
      omega (arith, sane.ordered, sane.word) in
    let total = total_size-exact header sane in
    let large = suits-le (total_size header) m suit in
    let base = page_up_lem m.base (omega arith) in
    let size = page_up_lem (header.ebss - header.stext) (omega (arith, sane.small)) in
    rw k (record {
      starts = omega arith;
      kernel = omega (arith, sane.small);
      tables = omega (arith, sane.small);
      stack = omega (arith, sane.small);
      ends = omega (arith, sane.small);
      aligned = (omega arith, omega (arith, sane.small));
    })

-- The boot loader takes the first region that is free, above 1 MiB and large enough, and kernel,
-- page tables and stack then lie one after another inside it, on page borders; it takes none only
-- if there is none. The regions end below 2^64, and the sizes in the header fit 32 bits.
pub choose-Fits :
    (header : KernelHeader) (ms : List MemMap)
    → IsSane header
    → ((m : MemMap) → First (total_size header) m ms → m.base + m.len < 2 ^ 64)
    → ((m : MemMap) × First (total_size header) m ms
        × Fits header m (layout header (choose (total_size header) ms)))
      ⊎ (None (total_size header) ms × (choose (total_size header) ms ≡ 0))
choose-Fits header ms sane space = elim (choose-First (total_size header) ms) [
  | inr none_found ↦ inr none_found
  | inl (m, found, at) ↦
      inl (m, found, rw at (layout-Fits header m sane (First-suits found) (space m found)))
]
