-- ===== src/Stage2/Boot/Memory/Tables.antt =====
-- The page tables in memory are those of `page_tables`.
use ziemniak.Base.{
  ℕ, zero, suc, ◌+◌, ◌-◌, ◌*◌, ◌/◌, ◌%◌, ◌^◌, ◌<◌, ◌≤◌, ◌≡◌, refl, arith, ◌⊎◌, u32, u64, inl, inr,
  sub64,
}
use ziemniak.Pages.{page_cnt}
use ziemniak.Stage2.Disc.{Buffer, load32}
use ziemniak.Stage2.Boot.{
  KernelHeader, Layout, Page, no_page, Tables, gen_pml4e_pdpe_pte, gen_pde, at_table, upper_tables,
  kernel_loop, stack_loop, stack_pages, fill_tables, kernel_page, stack_page,
}
use ziemniak.Stage2.Boot.Memory.{load64, store64, page_word, page_of}

-- The tables that memory holds from `pages` on.
abbrev pub tables_at : Buffer → (pages : ℕ) → Tables
tables_at memory pages j = page_of (load64 memory (pages + j * 8))

store64-in :
    (at val k : ℕ) (memory : Buffer)
    → k < 8
    → store64 at val memory (at + k) ≡ val / 2 ^ (8 * k) % 2 ^ 8
unfolding store64
store64-in at val k memory h = ground arith

store64-first :
    (at val : ℕ) (memory : Buffer) → store64 at val memory at ≡ val / 2 ^ (8 * 0) % 2 ^ 8
unfolding store64
store64-first at val memory = ground arith

pub store64-out :
    (at val p : ℕ) (memory : Buffer) → (p < at) ⊎ (at + 8 ≤ p) → store64 at val memory p ≡ memory p
unfolding store64
store64-out at val p memory h = ground arith

bytes-word :
    (v : ℕ)
    → v / 2 ^ (8 * 0) % 2 ^ 8
        + v / 2 ^ (8 * 1) % 2 ^ 8 * 2 ^ 8
        + v / 2 ^ (8 * 2) % 2 ^ 8 * 2 ^ 16
        + v / 2 ^ (8 * 3) % 2 ^ 8 * 2 ^ 24
        + (v / 2 ^ (8 * 4) % 2 ^ 8
            + v / 2 ^ (8 * 5) % 2 ^ 8 * 2 ^ 8
            + v / 2 ^ (8 * 6) % 2 ^ 8 * 2 ^ 16
            + v / 2 ^ (8 * 7) % 2 ^ 8 * 2 ^ 24)
          * 2 ^ 32
      ≡ u64 v
bytes-word v = omega arith

pub load64-store64_self : (at v : ℕ) (memory : Buffer) → load64 (store64 at v memory) at ≡ u64 v
unfolding load64 load32
load64-store64_self at v memory =
    let n0 : store64 at v memory at ≡ v / 2 ^ (8 * 0) % 2 ^ 8 = store64-first at v memory in
    let n4 : store64 at v memory (at + 4) ≡ v / 2 ^ (8 * 4) % 2 ^ 8 =
      store64-in at v 4 memory (omega arith) in
    let e1 : at + 4 + 1 ≡ at + 5 = omega arith in
    let e2 : at + 4 + 2 ≡ at + 6 = omega arith in
    let e3 : at + 4 + 3 ≡ at + 7 = omega arith in
    rw
      (
        e1,
        e2,
        e3,
        n0,
        n4,
        store64-in at v 1 memory (omega arith),
        store64-in at v 2 memory (omega arith),
        store64-in at v 3 memory (omega arith),
        store64-in at v 5 memory (omega arith),
        store64-in at v 6 memory (omega arith),
        store64-in at v 7 memory (omega arith),
      )
      (bytes-word v)

pub load32-same :
    (a b : Buffer) (at : ℕ)
    → ((p : ℕ) → at ≤ p → p < at + 4 → a p ≡ b p)
    → load32 a at ≡ load32 b at
unfolding load32
load32-same a b at same =
    let h0 = same at (omega arith) (omega arith) in
    let h1 = same (at + 1) (omega arith) (omega arith) in
    let h2 = same (at + 2) (omega arith) (omega arith) in
    let h3 = same (at + 3) (omega arith) (omega arith) in rw (h0, h1, h2, h3) refl

pub load64-same :
    (a b : Buffer) (at : ℕ)
    → ((p : ℕ) → at ≤ p → p < at + 8 → a p ≡ b p)
    → load64 a at ≡ load64 b at
unfolding load64
load64-same a b at same =
    let low = load32-same a b at λ p from to. same p from (omega arith) in
    let high = load32-same a b (at + 4) λ p from to. same p (omega arith) (omega arith) in
    rw (low, high) refl

pub load64-store64_other :
    (at v p : ℕ) (memory : Buffer)
    → (p + 8 ≤ at) ⊎ (at + 8 ≤ p)
    → load64 (store64 at v memory) p ≡ load64 memory p
load64-store64_other at v p memory apart = load64-same (store64 at v memory) memory p λ q low high.
    store64-out at v q memory
      (elim apart [ inl before ↦ inl (omega arith) | inr after ↦ inr (omega arith) ])

-- An entry that its word determines.
abbrev pub IsStored : Page → Type 0
IsStored page = page_of (u64 (page_word page)) ≡ page

page_of-fields :
    (word addr big : ℕ)
    → word ≡ 3 + big * 2 ^ 7 + addr * 2 ^ 12
    → big < 2
    → addr < 2 ^ 40
    → page_of word ≡ record no_page { addr = addr; writ = 1; big = big; pres = 1 }
unfolding page_of
page_of-fields word addr big whole one small =
    let pres : word % 2 ≡ 1 = omega arith in
    let writ : word / 2 % 2 ≡ 1 = omega arith in
    let user : word / 2 ^ 2 % 2 ≡ 0 = omega arith in
    let wr_th : word / 2 ^ 3 % 2 ≡ 0 = omega arith in
    let d_cach : word / 2 ^ 4 % 2 ≡ 0 = omega arith in
    let accd : word / 2 ^ 5 % 2 ≡ 0 = omega arith in
    let dirty : word / 2 ^ 6 % 2 ≡ 0 = omega arith in
    let large : word / 2 ^ 7 % 2 ≡ big = omega arith in
    let glob : word / 2 ^ 8 % 2 ≡ 0 = omega arith in
    let avl2 : word / 2 ^ 9 % 2 ^ 3 ≡ 0 = omega arith in
    let number : word / 2 ^ 12 % 2 ^ 40 ≡ addr = omega arith in
    let avl1 : word / 2 ^ 52 % 2 ^ 11 ≡ 0 = omega arith in
    let nx : word / 2 ^ 63 % 2 ≡ 0 = omega arith in
    rw (pres, writ, user, wr_th, d_cach, accd, dirty, large, glob, avl2, number, avl1, nx) refl

pub gen_pde-IsStored : (addr big : ℕ) → big < 2 → IsStored (gen_pde addr big)
unfolding page_word
gen_pde-IsStored addr big one =
    page_of-fields (u64 (page_word (gen_pde addr big))) (u32 addr / 2 ^ 12) big (omega arith) one
      (omega arith)

gen_pml4e_pdpe_pte-IsStored : (addr : ℕ) → IsStored (gen_pml4e_pdpe_pte addr)
unfolding page_word
gen_pml4e_pdpe_pte-IsStored addr = gen_pde-IsStored addr 0 (omega arith)

-- Two ways to build the tables, of which each assignment keeps a relation.
module _ {T U : Type 0} (R : T → U → Type 0) (f : ℕ → ℕ → Page → T → T) (g : ℕ → ℕ → Page → U → U)
    (step : (table i : ℕ) (page : Page) (t : T) (u : U)
      → table * 512 + i < 5120
      → IsStored page
      → R t u
      → R (f table i page t) (g table i page u)) where
  upper_tables-related :
      (pages : ℕ) (t : T) (u : U) → R t u → R (upper_tables f pages t) (upper_tables g pages u)
  unfolding upper_tables
  upper_tables-related pages t u r =
      step 5 511 (gen_pde (at_table pages 9) 0) _ _ (omega arith)
        (gen_pde-IsStored _ 0 (omega arith))
        (step 7 0 (gen_pde 0 1) _ _ (omega arith) (gen_pde-IsStored 0 1 (omega arith)) (
          step 4 0 (gen_pde (at_table pages 8) 0) _ _ (omega arith)
            (gen_pde-IsStored _ 0 (omega arith))
            (entry 3 0 7 (omega arith) (
              entry 2 0 6 (omega arith) (
                entry 1 511 5 (omega arith) (
                  entry 1 510 4 (omega arith) (
                    entry 0 0 3 (omega arith)
                      (entry 0 256 2 (omega arith) (entry 0 511 1 (omega arith) r)))))))))
    where
      entry :
          (table i to : ℕ) {t : T} {u : U}
          → table * 512 + i < 5120
          → R t u
          → R
              (f table i (gen_pml4e_pdpe_pte (at_table pages to)) t)
              (g table i (gen_pml4e_pdpe_pte (at_table pages to)) u)
      entry table i to inside r =
          step table i _ _ _ inside (gen_pml4e_pdpe_pte-IsStored (at_table pages to)) r

  kernel_loop-related :
      (left i load_buf : ℕ) (t : T) (u : U)
      → i + left ≤ 512
      → R t u
      → R (kernel_loop f left i load_buf t) (kernel_loop g left i load_buf u)
  unfolding kernel_loop kernel_page
  kernel_loop-related zero i load_buf t u inside r = r
  kernel_loop-related (suc left) i load_buf t u inside r =
      let next : u32 (i + 1) ≡ i + 1 = omega arith in
      rw next (
        kernel_loop-related left (i + 1) load_buf _ _ (omega arith)
          (step 8 i _ t u (omega arith) (gen_pml4e_pdpe_pte-IsStored _) r))

  stack_loop-related :
      (left i load_end : ℕ) (t : T) (u : U)
      → i < 512
      → R t u
      → R (stack_loop f left i load_end t) (stack_loop g left i load_end u)
  unfolding stack_loop stack_page
  stack_loop-related zero i load_end t u inside r = r
  stack_loop-related (suc left) i load_end t u inside r =
      stack_loop-related left (i - 1) load_end _ _ (omega arith)
        (step 9 i _ t u (omega arith) (gen_pml4e_pdpe_pte-IsStored _) r)

  pub fill_tables-related :
      (header : KernelHeader) (l : Layout) (t : T) (u : U)
      → page_cnt (sub64 l.pages l.load_buf) ≤ 512
      → R t u
      → R (fill_tables f header l t) (fill_tables g header l u)
  unfolding fill_tables
  fill_tables-related header l t u inside r =
      stack_loop-related (stack_pages header.stack_size) 511 l.load_end _ _ (omega arith) (
        kernel_loop-related (page_cnt (sub64 l.pages l.load_buf)) 0 l.load_buf _ _ (omega arith)
          (upper_tables-related l.pages t u r))
