-- ===== src/Kernel/Memory/Window.antt =====
-- `mm_peek`: what the processor finds at the virtual range that it returns, and its refusals.
use ziemniak.Base.{
  ℕ, ◌+◌, ◌-◌, ◌*◌, ◌/◌, ◌%◌, ◌^◌, ◌<◌, ◌≤◌, ◌≡◌, ◌≢◌, ◌⊎◌, refl, ap, ◌∙◌, arith, Option, none,
  some, false, true, ltb, ◌==◌, if◌then◌else◌, u64,
}
use ziemniak.Pages.{page_down_lem, block_up_lem, block_down_lem, block_size}
use ziemniak.Kernel.Errno.{einval, eperm, enotsup}
use ziemniak.Kernel.Memory.{
  Mm, gen_entry, gen_pdpe_pde, peek_addr, m1gb, entry_cnt, peek_loop, peek_cnt, mm_peek,
}
use ziemniak.Kernel.Memory.Mmu.{word, translate, access}
use ziemniak.Kernel.Memory.Peek.{block_entry, flushes, IsFilled, peek_loop-IsFilled}

word-block_entry :
    (addr i : ℕ)
    → addr + i * block_size < 2 ^ 52
    → word (block_entry addr i) ≡ 0x83 + (addr + i * block_size) / 4096 * 4096
unfolding gen_pdpe_pde gen_entry word
word-block_entry addr i h = rw (page_down_lem (addr + i * block_size) (omega arith)) (omega arith)

module _ (addr i offset : ℕ) (fits : addr + i * block_size < 2 ^ 52) where
  translate-block_entry :
      addr % block_size < 8192
      → translate (word (block_entry addr i)) offset
        ≡ some ((addr / block_size + i) * block_size + offset)
  unfolding translate
  translate-block_entry low = rw (word-block_entry addr i fits) (ground arith)

  translate-reserved :
      8192 ≤ addr % block_size → translate (word (block_entry addr i)) offset ≡ none
  unfolding translate
  translate-reserved high = rw (word-block_entry addr i fits) (ground arith)

-- The number of 2 MiB blocks from the one that holds `addr` to the end of the range.
abbrev pub blocks : (addr size : ℕ) → ℕ
blocks addr size = (addr + size + (block_size - 1)) / block_size - addr / block_size

peek_cnt-blocks :
    (addr size : ℕ) → addr + size + block_size ≤ 2 ^ 52 → peek_cnt addr size ≡ blocks addr size
unfolding peek_cnt
peek_cnt-blocks addr size h =
    let sum : u64 (addr + size) ≡ addr + size = omega arith in
    rw (sum, block_up_lem (addr + size) (omega arith), block_down_lem addr (omega arith))
      (omega arith)

-- A call within the limits that mm.h states, in a machine with 52 address bits.
pub record IsRequest (virt phys size : ℕ) (s : Mm) : Type 0 where
  pub ready : s.peek_pde ≢ 0
  pub room : s.peek_pde + 4096 ≤ 2 ^ 64
  pub target : virt ≢ 0
  pub small : size ≤ m1gb
  pub fits : phys + size + block_size ≤ 2 ^ 52
  pub spans : blocks phys size ≤ entry_cnt

abbrev pub window : (phys : ℕ) → ℕ
window phys = peek_addr + phys % block_size

-- What a successful call does besides: it stores the virtual address and nothing else in memory
-- that pointers live in, writes only entries of blocks of the range, and flushes each block.
pub record IsWindow (virt phys size : ℕ) (s : Mm) (result : ℕ × Mm) : Type 0 where
  pub status : result.0 ≡ 0
  pub stored : result.1.pointers virt ≡ window phys
  pub others : (p : ℕ) → p ≢ virt → result.1.pointers p ≡ s.pointers p
  pub kept :
      (a : ℕ)
      → (a < s.peek_pde) ⊎ (s.peek_pde + blocks phys size * 8 ≤ a)
      → result.1.entries a ≡ s.entries a
  pub history : result.1.history ≡ flushes (blocks phys size) 0 s.history

-- Every address of the range, through the pointer that the call has stored, leads to `found`.
abbrev pub Finds : (virt size : ℕ) → (ℕ → Option ℕ) → ℕ × Mm → Type 0
Finds virt size found result =
    (off : ℕ) → off < size → access result.1 (result.1.pointers virt + off) ≡ found off

module _ {virt phys size : ℕ} {s : Mm} (req : IsRequest virt phys size s) where
  abbrev filled : Mm
  filled = peek_loop (blocks phys size) 0 phys s

  mm_peek-filled :
      mm_peek virt phys size s
      ≡ (0, record filled { pointers = λ p. if p == virt then window phys else filled.pointers p })
  unfolding mm_peek
  mm_peek-filled =
      let ready : (s.peek_pde == 0) ≡ false = ground (arith, req.ready) in
      let target : (virt == 0) ≡ false = ground (arith, req.target) in
      let small : ltb m1gb size ≡ false = ground (arith, req.small) in
      let spans : ltb entry_cnt (blocks phys size) ≡ false = ground (arith, req.spans) in
      let place : u64 (peek_addr + phys % block_size) ≡ window phys = omega arith in
      rw (ready, target, small, peek_cnt-blocks phys size req.fits, spans, place)

  filled-IsFilled : IsFilled phys (blocks phys size) 0 (blocks phys size) s filled
  filled-IsFilled =
      peek_loop-IsFilled (blocks phys size) 0 (blocks phys size) phys s (omega arith)
        (omega (arith, req.fits)) req.spans req.room

  access-filled :
      (off : ℕ)
      → off < size
      → access filled (window phys + off)
        ≡ translate
            (word (block_entry phys ((phys % block_size + off) / block_size)))
            ((phys % block_size + off) % block_size)
  access-filled off h =
      let j = (phys % block_size + off) / block_size in
      let index : (window phys + off - peek_addr) / block_size ≡ j = omega arith in
      let inner : (window phys + off) % block_size ≡ (phys % block_size + off) % block_size =
        omega arith in
      let entry = filled-IsFilled.inside j (omega arith) (omega (arith, req.fits)) in
      rw (inner, index, filled-IsFilled.table, entry)

  access-mapped :
      (off : ℕ)
      → phys % block_size < 8192
      → off < size
      → access filled (window phys + off) ≡ some (phys + off)
  access-mapped off low h =
      access-filled off h
      ∙ translate-block_entry phys ((phys % block_size + off) / block_size)
          ((phys % block_size + off) % block_size) (omega (arith, req.fits)) low
      ∙ ap some (omega arith)

  access-faults :
      (off : ℕ) → 8192 ≤ phys % block_size → off < size → access filled (window phys + off) ≡ none
  access-faults off high h =
      access-filled off h
      ∙ translate-reserved phys ((phys % block_size + off) / block_size)
          ((phys % block_size + off) % block_size) (omega (arith, req.fits)) high

  -- The table stays where it is.
  pub mm_peek-table : (mm_peek virt phys size s).1.peek_pde ≡ s.peek_pde
  mm_peek-table = rw mm_peek-filled filled-IsFilled.table

  mm_peek-IsWindow : IsWindow virt phys size s (mm_peek virt phys size s)
  mm_peek-IsWindow = rw mm_peek-filled (record {
    status = refl;
    stored = ground arith;
    others = λ p ne.
        ground (arith, filled-IsFilled.pointers, ap (λ (f : ℕ → ℕ). f p) filled-IsFilled.pointers);
    kept = λ a out. filled-IsFilled.outside a (ground arith);
    history = filled-IsFilled.history;
  })

  Finds-filled :
      (found : ℕ → Option ℕ)
      → ((off : ℕ) → off < size → access filled (window phys + off) ≡ found off)
      → Finds virt size found (mm_peek virt phys size s)
  Finds-filled found h =
      rw mm_peek-filled
        λ off below. let own : (virt == virt) ≡ true = ground arith in rw own (h off below)

  -- For physical memory that starts in one of the first two pages of a 2 MiB block, a call within
  -- the limits returns 0 with a virtual range in which every address leads to the physical address
  -- asked for; it writes no other entry or pointer, and flushes every block that it maps.
  pub mm_peek-Finds :
      phys % block_size < 8192
      → IsWindow virt phys size s (mm_peek virt phys size s)
        × Finds virt size (λ off. some (phys + off)) (mm_peek virt phys size s)
  mm_peek-Finds low = (mm_peek-IsWindow, Finds-filled _ λ off below. access-mapped off low below)

  -- For physical memory that starts further up in its block, a call within the limits returns 0 as
  -- well, but every access to the range faults: the entries have reserved bits set.
  pub mm_peek_faults :
      8192 ≤ phys % block_size
      → IsWindow virt phys size s (mm_peek virt phys size s)
        × Finds virt size (λ off. none) (mm_peek virt phys size s)
  mm_peek_faults high = (mm_peek-IsWindow, Finds-filled _ λ off below. access-faults off high below)

-- The refusals: without a table `EPERM`, without a place for the result `EINVAL`, and for a range
-- that is longer than 1 GiB or touches more blocks than the table has entries `ENOTSUP`; nothing
-- is changed.
pub mm_peek_refused :
    (virt phys size : ℕ) (s : Mm)
    → (s.peek_pde ≡ 0) ⊎ (virt ≡ 0) ⊎ (m1gb < size) ⊎ (entry_cnt < peek_cnt phys size)
    → mm_peek virt phys size s
      ≡ (if s.peek_pde == 0 then eperm else if virt == 0 then einval else enotsup, s)
unfolding mm_peek
mm_peek_refused virt phys size s h = ground arith
