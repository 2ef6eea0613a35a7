-- ===== src/Kernel/Memory/Peek.antt =====
-- `mm_peek`: what the processor finds at the virtual range that it returns.
use ziemniak.Base.{
  ℕ, zero, suc, ◌+◌, ◌*◌, ◌^◌, ◌<◌, ◌≤◌, ◌≡◌, ◌∷◌, ◌⊎◌, refl, ap, ◌∙◌, arith, false, u64,
}
use ziemniak.Machine.{History, flushed}
use ziemniak.Pages.{page_down, block_size}
use ziemniak.Kernel.Memory.{
  PageEntry, Mm, gen_pdpe_pde, peek_addr, entry_cnt, peek_block, peek_loop,
}

-- The entry that round `i` writes.
abbrev pub block_entry : ℕ → ℕ → PageEntry
block_entry addr i = gen_pdpe_pde (page_down (addr + i * block_size)) false 0x83

-- The rounds `i`, `i + 1`, …, `left` in number, each flush the block that they have mapped.
abbrev pub flushes : (left i : ℕ) → History → History
flushes zero i h = h
flushes (suc left) i h = flushes left (i + 1) (flushed (peek_addr + i * block_size) ∷ h)

pub record IsFilled (addr left lo hi : ℕ) (s s' : Mm) : Type 0 where
  pub table : s'.peek_pde ≡ s.peek_pde
  pub pointers : s'.pointers ≡ s.pointers
  pub inside : (j : ℕ) → lo ≤ j → j < hi → s'.entries (s.peek_pde + j * 8) ≡ block_entry addr j
  pub outside :
      (a : ℕ) → (a < s.peek_pde + lo * 8) ⊎ (s.peek_pde + hi * 8 ≤ a) → s'.entries a ≡ s.entries a
  pub history : s'.history ≡ flushes left lo s.history

peek_block-IsFilled :
    (addr i : ℕ) (s : Mm)
    → addr < 2 ^ 52
    → i < entry_cnt
    → s.peek_pde + 4096 ≤ 2 ^ 64
    → IsFilled addr 1 i (i + 1) s (peek_block addr i s)
unfolding peek_block
peek_block-IsFilled addr i s fits few room =
    let slot : u64 (s.peek_pde + i * 8) ≡ s.peek_pde + i * 8 = omega arith in
    let block : u64 (addr + i * block_size) ≡ addr + i * block_size = omega arith in
    let page : u64 (peek_addr + i * block_size) ≡ peek_addr + i * block_size = omega arith in
    record {
      table = refl;
      pointers = refl;
      inside = λ j p q. let same : j ≡ i = omega arith in rw (slot, block, same) (ground arith);
      outside = λ a p. rw slot (ground arith);
      history = rw page;
    }

pub peek_loop-IsFilled :
    (left i hi addr : ℕ) (s : Mm)
    → left + i ≡ hi
    → addr < 2 ^ 52
    → hi ≤ entry_cnt
    → s.peek_pde + 4096 ≤ 2 ^ 64
    → IsFilled addr left i hi s (peek_loop left i addr s)
unfolding peek_loop
peek_loop-IsFilled zero i hi addr s e fits few room = record {
  table = refl;
  pointers = refl;
  inside = λ j p q. absurd (omega arith);
  outside = λ a p. refl;
  history = refl;
}
peek_loop-IsFilled (suc left) i hi addr s e fits few room =
    let first = peek_block-IsFilled addr i s fits (omega arith) room in
    let rest =
      peek_loop-IsFilled left (i + 1) hi addr (peek_block addr i s) (omega arith) fits few
        (rw first.table room) in
    record {
      table = rest.table ∙ first.table;
      pointers = rest.pointers ∙ first.pointers;
      inside = λ j p q.
          ground
            (arith, first.table, first.inside j, rest.inside j, rest.outside (s.peek_pde + j * 8));
      outside =
          λ a p. rest.outside a (rw first.table (ground arith)) ∙ first.outside a (ground arith);
      history = rest.history ∙ ap (flushes left (i + 1)) first.history;
    }
