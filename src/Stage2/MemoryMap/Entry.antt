-- ===== src/Stage2/MemoryMap/Entry.antt =====
-- One answer of the BIOS: the entry that it leaves in memory, and when the code skips it.
use ziemniak.Base.{
  ℕ, ◌+◌, ◌-◌, ◌*◌, ◌%◌, ◌^◌, ◌<◌, ◌≤◌, ◌≡◌, ◌≢◌, refl, arith, List, [], ◌∷◌, Bool, false, not,
  ◌&&◌, ◌||◌, ◌==◌, ltb, leb, if◌then◌else◌, u16, u32,
}
use ziemniak.Base.Bits.{bit_and_low}
use ziemniak.Stage2.Disc.{Buffer, load32}
use ziemniak.Stage2.Boot.{MemMap}
use ziemniak.Stage2.Boot.Memory.{load64, mem_map_at}
use ziemniak.Stage2.Boot.Memory.Tables.{load32-same}
use ziemniak.Stage2.Loader.{mem_map}
use ziemniak.Stage2.MemoryMap.{Answer, Scan, memmap_seg, signature, at, prepared, answered, skips}

-- The 24 bytes of an entry: those of the answer, then attributes with bit 0 set.
abbrev pub image : Answer → Buffer
image a p = if ltb p a.size then a.bytes p else if p == 20 then 1 else 0

abbrev pub entry_of : Answer → MemMap
entry_of a = mem_map_at (image a) 0 0

-- An entry that is not to be ignored and not empty.
abbrev pub is_region : MemMap → Bool
is_region e = e.attrs % 2 == 1 && not (e.len == 0)

abbrev pub listed : List Answer → List MemMap
listed [] = []
listed (a ∷ answers) =
    if is_region (entry_of a) then entry_of a ∷ listed answers else listed answers

-- What is documented of an answer, and a length whose halves do not add up to 2^32.
pub record IsReply (a : Answer) : Type 0 where
  pub success : a.carry ≡ false
  pub signed : a.eax ≡ signature
  pub written : a.ecx ≡ a.size
  pub enough : (20 ≤ a.size) × (a.size ≤ 24)
  pub octets : (j : ℕ) → a.bytes j < 256
  pub halves : load32 a.bytes 8 + load32 a.bytes 12 ≢ 2 ^ 32

-- Entries in two memories that hold the same 24 bytes.
module _ (m b : Buffer) (base : ℕ) (same : (j : ℕ) → j < 24 → m (base + j) ≡ b j) where
  byte-at : (p j : ℕ) → p ≡ base + j → j < 24 → m p ≡ b j
  byte-at p j place h = rw place (same j h)

  load32-at : (p k : ℕ) → p ≡ base + k → k + 4 ≤ 24 → load32 m p ≡ load32 b k
  unfolding load32
  load32-at p k place h =
      rw
        (
          byte-at p k place (omega arith),
          byte-at (p + 1) (k + 1) (omega (arith, place)) (omega arith),
          byte-at (p + 2) (k + 2) (omega (arith, place)) (omega arith),
          byte-at (p + 3) (k + 3) (omega (arith, place)) (omega arith),
        )
        refl

  pub mem_map-at :
      (mem_map i : ℕ) → base ≡ mem_map + i * 24 → mem_map_at m mem_map i ≡ mem_map_at b 0 0
  unfolding mem_map_at load64
  mem_map-at mem_map i place =
      let p = mem_map + i * 24 in
      rw
        (
          load32-at p 0 (omega (arith, place)) (omega arith),
          load32-at (p + 4) 4 (omega (arith, place)) (omega arith),
          load32-at (p + 8) 8 (omega (arith, place)) (omega arith),
          load32-at (p + 8 + 4) 12 (omega (arith, place)) (omega arith),
          load32-at (p + 16) 16 (omega (arith, place)) (omega arith),
          load32-at (p + 20) 20 (omega (arith, place)) (omega arith),
        )
        refl

skip_test :
    (size byte attrs lo hi : ℕ)
    → 20 ≤ size
    → size ≤ 24
    → byte % 2 ≡ attrs % 2
    → (size ≤ 20 → byte ≡ 1)
    → lo < 2 ^ 32
    → hi < 2 ^ 32
    → lo + hi ≢ 2 ^ 32
    → (u16 size == 0 || not (leb size 20) && byte % 2 == 0 || u32 (lo + hi) == 0)
      ≡ not (attrs % 2 == 1 && not (lo + hi * 2 ^ 32 == 0))
skip_test size byte attrs lo hi least most same plain low high apart = ground arith

-- A call leaves the memory outside one entry.
module _ (a : Answer) (s : Scan) (room : s.di + 24 ≤ 2 ^ 16) (small : a.size ≤ 24) where
  pub answered-above :
      (p : ℕ) → memmap_seg * 16 + s.di + 24 ≤ p → (answered a (prepared s)).mem p ≡ s.mem p
  unfolding answered prepared
  answered-above p h = ground (arith, small)

  pub answered-below :
      (p : ℕ) → p < memmap_seg * 16 + s.di → (answered a (prepared s)).mem p ≡ s.mem p
  unfolding answered prepared
  answered-below p h = ground (arith, small)

-- The memory right after a call.
module _ (a : Answer) (s : Scan) (room : s.di + 24 ≤ 2 ^ 16) (is : IsReply a) where
  pub answered-at :
      (j : ℕ) → j < 24 → (answered a (prepared s)).mem (memmap_seg * 16 + s.di + j) ≡ image a j
  unfolding answered prepared
  answered-at j h =
      let start : at (prepared s) 0 ≡ memmap_seg * 16 + s.di = omega arith in
      let end_part : at s 20 ≡ memmap_seg * 16 + s.di + 20 = omega arith in
      let offset : memmap_seg * 16 + s.di + j - (memmap_seg * 16 + s.di) ≡ j = omega arith in
      rw (start, end_part, offset) (ground (arith, is.enough))

  unfoldable pub after : Scan
  after = answered a (prepared s)

  base : ℕ
  base = memmap_seg * 16 + s.di

  load32-image : (k : ℕ) → k + 4 ≤ 24 → load32 after.mem (at s k) ≡ load32 (image a) k
  unfolding after
  load32-image k h =
      load32-at after.mem (image a) (memmap_seg * 16 + s.di) answered-at (at s k) k (omega arith) h

  image-lt : (j : ℕ) → image a j < 256
  image-lt j = ground (arith, is.octets j)

  load32-lt : (k : ℕ) → load32 (image a) k < 2 ^ 32
  unfolding load32
  load32-lt k = omega (arith, image-lt k, image-lt (k + 1), image-lt (k + 2), image-lt (k + 3))

  attrs_bit : image a 20 % 2 ≡ load32 (image a) 20 % 2
  unfolding load32
  attrs_bit = omega arith

  halves-ne : load32 (image a) 8 + load32 (image a) 12 ≢ 2 ^ 32
  halves-ne =
      let low = load32-same (image a) a.bytes 8 λ p f t. ground (arith, is.enough) in
      let high = load32-same (image a) a.bytes 12 λ p f t. ground (arith, is.enough) in
      rw (low, high) is.halves

  after-byte : after.mem (at s 20) ≡ image a 20
  unfolding after
  after-byte =
      let place : at s 20 ≡ memmap_seg * 16 + s.di + 20 = omega arith in
      rw place (answered-at 20 (omega arith))

  -- The tests read the entry's attributes and length.
  pub skips_lem : skips a after ≡ not (is_region (entry_of a))
  unfolding skips mem_map_at load64 after answered prepared
  skips_lem =
      rw
        (
          is.written,
          bit_and_low 1 (after.mem (at s 20)),
          after-byte,
          load32-image 8 (omega arith),
          load32-image 12 (omega arith),
        )
        (skip_test a.size (image a 20) (load32 (image a) 20) (load32 (image a) 8)
          (load32 (image a) 12) is.enough.0 is.enough.1 attrs_bit (λ h. ground arith) (load32-lt 8)
          (load32-lt 12) halves-ne)
