-- ===== src/Kernel/Memory/Init/Regions.antt =====
-- Which memory `mm_init` keeps of an entry of the map, and its totals.
use ziemniak.Base.{
  ℕ, ◌+◌, ◌%◌, ◌^◌, ◌<◌, ◌≤◌, ◌≡◌, ◌≢◌, ◌↔◌, ◌⊎◌, inl, inr, arith, refl, ap, ◌∙◌, ◌/◌, ◌*◌, u64,
  sub64, ==_refl, ne→==, ==-cases,
}
use ziemniak.Pages.{page_up, page_down, page_up_lem, page_down_lem}
use ziemniak.Kernel.Memory.Init.{MemMap, trim}

-- A page that lies whole in the region of an entry, and past the kernel if the kernel was loaded at
-- the first page of the region.
pub record IsKept (load_buf load_end page : ℕ) (e : MemMap) : Type 0 where
  pub starts : e.base ≤ page
  pub ends : page + 4096 ≤ e.base + e.last
  pub free : (page_up load_end ≤ page) ⊎ (page_up e.base ≢ load_buf)

-- A page that lies whole in the region of an entry, and has no byte of the kernel that is loaded from
-- `load_buf` to `load_end`.
pub record IsSpare (load_buf load_end page : ℕ) (e : MemMap) : Type 0 where
  pub starts : e.base ≤ page
  pub ends : page + 4096 ≤ e.base + e.last
  pub outside : (page + 4096 ≤ load_buf) ⊎ (load_end ≤ page)

-- The kernel lies from the first page border of the region on, or apart from the region.
abbrev pub Clear : (load_buf load_end : ℕ) → MemMap → Type 0
Clear load_buf load_end e =
    ((e.base + 4095) / 4096 * 4096 ≡ load_buf) ⊎ (e.base + e.last ≤ load_buf) ⊎ (load_end ≤ e.base)

module _ (load_buf load_end : ℕ) (e : MemMap) (in_space : e.base + e.last < 2 ^ 64)
    (round : e.base + 4095 < 2 ^ 64) (ordered : load_buf ≤ load_end)
    (round_end : load_end + 4095 < 2 ^ 64) where
  abbrev load_size : ℕ
  load_size = sub64 (page_up load_end) load_buf

  abbrev trimmed : MemMap
  trimmed = trim load_buf load_size e

  trim-last : trimmed.last ≡ page_down (e.base + e.last)
  unfolding trim
  trim-last = let fits : u64 (e.base + e.last) ≡ e.base + e.last = omega arith in ap page_down fits

  trim-base_moved : page_up e.base ≡ load_buf → trimmed.base ≡ page_up load_end
  unfolding trim
  trim-base_moved at_load =
      rw (at_load, ==_refl load_buf) (ground (arith, page_up_lem load_end round_end))

  trim-base_same : page_up e.base ≢ load_buf → trimmed.base ≡ page_up e.base
  unfolding trim
  trim-base_same other = rw (ne→== (page_up e.base) load_buf other) refl

  facts :
      (page_up e.base ≡ (e.base + 4095) / 4096 * 4096)
      × (page_up load_end ≡ (load_end + 4095) / 4096 * 4096)
      × (trimmed.last ≡ (e.base + e.last) / 4096 * 4096)
  facts = (
    page_up_lem e.base round,
    page_up_lem load_end round_end,
    trim-last ∙ page_down_lem (e.base + e.last) in_space,
  )

  -- A page remains of an entry exactly if it lies whole in the region of the firmware, and past the
  -- end of the kernel in case the region's first page is where the kernel was loaded. Neither the
  -- region nor the kernel reaches the end of the address space.
  pub trim-IsKept :
      (page : ℕ)
      → page % 4096 ≡ 0
      → ((trimmed.base ≤ page) × (page < trimmed.last)) ↔ IsKept load_buf load_end page e
  trim-IsKept page aligned = (
    λ (above, below). elim (==-cases (page_up e.base) load_buf) [
      | inl at_load ↦
          let b = trim-base_moved at_load in
          record {
            starts = omega (arith, facts);
            ends = omega (arith, facts);
            free = inl (omega arith);
          }
      | inr other ↦
          let b = trim-base_same other in
          record { starts = omega (arith, facts); ends = omega (arith, facts); free = inr other }
    ],
    λ kept. elim (==-cases (page_up e.base) load_buf) [
      | inl at_load ↦
          let b = trim-base_moved at_load in
          elim kept.free [
            | inl past ↦ (omega arith, omega (arith, facts, kept.ends))
            | inr other ↦ absurd (other at_load)
          ]
      | inr other ↦
          let b = trim-base_same other in
          (omega (arith, facts, kept.starts), omega (arith, facts, kept.ends))
    ],
  )

  -- If the kernel was loaded at the first page border of a region, or apart from the region, then a page
  -- remains of the region exactly if it lies whole in it and has no byte of the loaded kernel. Neither
  -- the region nor the kernel reaches the end of the address space.
  pub trim-IsSpare :
      (page : ℕ)
      → page % 4096 ≡ 0
      → Clear load_buf load_end e
      → ((trimmed.base ≤ page) × (page < trimmed.last)) ↔ IsSpare load_buf load_end page e
  trim-IsSpare page aligned clear = (
    λ keeps.
        let kept = (trim-IsKept page aligned).0 keeps in
        record {
          starts = kept.starts;
          ends = kept.ends;
          outside = elim kept.free [
            | inl past ↦ inr (omega (arith, facts))
            | inr other ↦ elim clear [
              | inl same ↦ absurd (other (facts.0 ∙ same))
              | inr (inl before) ↦ inl (omega (arith, kept.ends))
              | inr (inr after) ↦ inr (omega (arith, kept.starts))
            ]
          ];
        },
    λ spare. (trim-IsKept page aligned).1 (record {
      starts = spare.starts;
      ends = spare.ends;
      free = elim (==-cases (page_up e.base) load_buf) [
        | inr other ↦ inr other
        | inl at_load ↦ inl (elim spare.outside [
          | inl before ↦ absurd (omega (arith, facts, spare.starts))
          | inr past ↦ omega (arith, facts)
        ])
      ];
    }),
  )
