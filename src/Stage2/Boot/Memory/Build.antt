-- ===== src/Stage2/Boot/Memory/Build.antt =====
-- The memory after it has been cleared and the page tables have been written to it.
use ziemniak.Base.{
  ℕ, zero, suc, ◌+◌, ◌-◌, ◌*◌, ◌^◌, ◌<◌, ◌≤◌, ◌≡◌, refl, ap, ◌∙◌, arith, ◌⊎◌, ◌==◌, ◌&&◌,
  if◌then◌else◌, ltb, leb, u32, sub64, none, some, ==-cases, ne→==, ==_refl, inl, inr, lt→ltb,
  le→ltb,
}
use native.Mathlib.Decide.{dec_lt}
use ziemniak.Pages.{page_cnt}
use mathlib.Core.Option
use ziemniak.Stage2.Disc.{Buffer, load32}
use ziemniak.Stage2.Boot.{
  KernelHeader, Layout, Page, no_page, Tables, put, fill_tables, page_tables,
}
use ziemniak.Stage2.Boot.Memory.{load64, page_word, page_of, store_page, clear_loop, build_tables}
use ziemniak.Stage2.Boot.Memory.Tables.{
  tables_at, IsStored, load64-store64_self, load64-store64_other, store64-out, load64-same,
  fill_tables-related,
}
use ziemniak.Stage2.Boot.Paging.{IsLow, count}

clear_loop-at :
    (fuel i load_end : ℕ) (memory : Buffer)
    → load_end < 2 ^ 32
    → i ≤ load_end
    → load_end - i < fuel
    → (cleared : Buffer) × (clear_loop fuel i load_end memory ≡ some cleared)
      × ((p : ℕ) → cleared p ≡ (if leb i p && ltb p load_end then 0 else memory p))
unfolding clear_loop
clear_loop-at zero i load_end memory low more enough = absurd (omega arith)
clear_loop-at (suc fuel) i load_end memory low more enough = elim (dec_lt i load_end) [
  | no over ↦ (memory, rw (le→ltb i load_end (omega arith)) refl, λ p. ground arith)
  | yes left ↦
      let next : u32 (i + 1) ≡ i + 1 = omega arith in
      let (cleared, run, all) =
        clear_loop-at fuel (i + 1) load_end (λ p. if p == i then 0x00 else memory p) low
          (omega arith) (omega arith) in
      (
        cleared,
        rw (lt→ltb i load_end left) (
            ap (λ n. clear_loop fuel n load_end (λ p. if p == i then 0x00 else memory p)) next
            ∙ run),
        λ p. all p ∙ ground arith,
      )
]

clear_loop-runs :
    (fuel i load_end : ℕ) (memory : Buffer)
    → 2 ^ 32 ≤ load_end
    → i < 2 ^ 32
    → clear_loop fuel i load_end memory ≡ none
unfolding clear_loop
clear_loop-runs zero i load_end memory high word = refl
clear_loop-runs (suc fuel) i load_end memory high word =
    rw (lt→ltb i load_end (omega arith))
      (clear_loop-runs fuel (u32 (i + 1)) load_end _ high (omega arith))

-- The loop that clears the tables and the stack ends if they end below 4 GiB, and has then cleared
-- them and nothing else; otherwise it never ends, whatever the fuel.
pub clear_loop-Ends :
    (fuel pages load_end : ℕ) (memory : Buffer)
    → pages ≤ load_end
    → 2 ^ 32 ≤ fuel
    → (load_end < 2 ^ 32
        → (cleared : Buffer) × (clear_loop fuel (u32 pages) load_end memory ≡ some cleared)
          × ((p : ℕ) → cleared p ≡ (if leb pages p && ltb p load_end then 0 else memory p)))
      × (2 ^ 32 ≤ load_end → (more : ℕ) → clear_loop more (u32 pages) load_end memory ≡ none)
clear_loop-Ends fuel pages load_end memory more enough = (
  λ low.
      let same : u32 pages ≡ pages = omega arith in
      rw same (clear_loop-at fuel pages load_end memory low more (omega arith)),
  λ high f. clear_loop-runs f (u32 pages) load_end memory high (omega arith),
)

-- Memory with the tables `tab`, and otherwise as `start`.
abbrev Tabled : (pages : ℕ) (start : Buffer) → Buffer → Tables → Type 0
Tabled pages start memory tab =
    ((j : ℕ) → j < 5120 → tables_at memory pages j ≡ tab j)
    × ((p : ℕ) → (p < pages) ⊎ (pages + 40960 ≤ p) → memory p ≡ start p)

store_page-Tabled :
    (pages : ℕ) (start : Buffer)
    → pages + 40960 < 2 ^ 32
    → (table i : ℕ) (page : Page) (memory : Buffer) (tab : Tables) → table * 512 + i < 5120
    → IsStored page
    → Tabled pages start memory tab
    → Tabled pages start (store_page pages table i page memory) (put table i page tab)
unfolding store_page put
store_page-Tabled pages start low table i page memory tab inside stored (same, rest) =
    let k = table * 512 + i in
    let at : u32 (u32 pages + k * 8) ≡ pages + k * 8 = omega arith in
    rw at (
      λ j h. elim (==-cases j k) [
        | inl here ↦
            rw (here, ==_refl k)
              (ap page_of (load64-store64_self (pages + k * 8) (page_word page) memory) ∙ stored)
        | inr other ↦ rw (ne→== j k other) (
            ap page_of (
              load64-store64_other (pages + k * 8) (page_word page) (pages + j * 8) memory
                (elim (dec_lt j k) [
                  | yes below ↦ inl (omega arith)
                  | no above ↦ inr (omega arith)
                ]))
            ∙ same j h)
      ],
      λ p out.
          store64-out (pages + k * 8) (page_word page) p memory
            (elim out [ inl before ↦ inl (omega arith) | inr after ↦ inr (omega arith) ])
          ∙ rest p out,
    )

-- The memory after `build_tables`.
pub record IsBuilt (header : KernelHeader) (l : Layout) (start memory : Buffer) : Type 0 where
  pub tables : (j : ℕ) → j < 5120 → tables_at memory l.pages j ≡ page_tables header l j
  pub stack : (p : ℕ) → l.pages + 40960 ≤ p → p < l.load_end → memory p ≡ 0
  pub rest : (p : ℕ) → (p < l.pages) ⊎ (l.load_end ≤ p) → memory p ≡ start p

-- No table has an entry in memory that is cleared.
cleared-Tabled :
    (header : KernelHeader) (l : Layout) (memory : Buffer)
    → IsLow header l
    → ((p : ℕ) → l.pages ≤ p → p < l.load_end → memory p ≡ 0)
    → Tabled l.pages memory memory (λ _. no_page)
unfolding page_of load64 load32
cleared-Tabled header l memory low zeros = (
  λ j h.
      let word : load64 memory (l.pages + j * 8) ≡ 0 =
        load64-same memory (λ _. 0) (l.pages + j * 8)
          λ p low_end high_end. zeros p (omega arith) (omega (arith, low.tables)) in
      ap page_of word,
  λ p out. refl,
)

count-le :
    (header : KernelHeader) (l : Layout)
    → IsLow header l
    → page_cnt (sub64 l.pages l.load_buf) ≤ 512
count-le header l low = omega (arith, count header l low, low.kernel_size)

-- For a layout below 4 GiB, the clearing and the assignments end, the tables in memory are those of
-- `page_tables`, the stack is cleared, and no other byte has changed.
pub build_tables-IsBuilt :
    (fuel : ℕ) (header : KernelHeader) (l : Layout) (memory : Buffer)
    → IsLow header l
    → 2 ^ 32 ≤ fuel
    → (built : Buffer) × (build_tables fuel header l memory ≡ some built)
      × IsBuilt header l memory built
unfolding build_tables page_tables
build_tables-IsBuilt fuel header l memory low enough =
    let (cleared, run, all) =
      (clear_loop-Ends fuel l.pages l.load_end memory (omega (arith, low.tables)) enough).0
        low.top in
    let (same, outside) =
      fill_tables-related (Tabled l.pages cleared) (store_page l.pages) put
        (store_page-Tabled l.pages cleared (omega (arith, low.tables, low.top))) header l cleared
        (λ _. no_page) (count-le header l low)
        (cleared-Tabled header l cleared low λ p above below. all p ∙ ground arith) in
    (
      fill_tables (store_page l.pages) header l cleared,
      ap (Option.map (fill_tables (store_page l.pages) header l)) run,
      record {
        tables = same;
        stack = λ p above below. outside p (inr above) ∙ all p ∙ ground arith;
        rest = λ p out.
            outside p
              (elim out [ inl before ↦ inl before | inr after ↦ inr (omega (arith, low.tables)) ])
            ∙ all p
            ∙ ground arith;
      },
    )
