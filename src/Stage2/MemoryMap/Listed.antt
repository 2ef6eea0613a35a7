-- ===== src/Stage2/MemoryMap/Listed.antt =====
-- The list that is saved holds the regions that the BIOS reports, in order.
use ziemniak.Base.{
  ℕ, zero, suc, ◌+◌, ◌*◌, ◌^◌, ◌<◌, ◌≤◌, ◌≡◌, ◌≢◌, refl, ap, ◌∙◌, arith, List, [], ◌∷◌, Bool-cases,
  true, false, inl, inr, not, ◌==◌, some, length, Returns, returns, Returns-mono, Returns-eq, ◌⊎◌,
  u16,
}
use ziemniak.Stage2.Disc.{Buffer}
use ziemniak.Stage2.Boot.{MemMap}
use ziemniak.Stage2.Boot.Memory.{mem_map_at, mem_maps}
use ziemniak.Stage2.Loader.{RealModeData, mem_map, memmap}
use ziemniak.Stage2.MemoryMap.{
  Answer, Bios, Scan, memmap_seg, signature, prepared, answered, skips, advance, handled, e820_loop,
  e820, map_memory,
}
use ziemniak.Stage2.MemoryMap.Entry.{
  image, entry_of, is_region, listed, IsReply, mem_map-at, answered-at, answered-above,
  answered-below, after, skips_lem,
}

-- The replies from a call on: the last has the continuation value 0, or the call after it fails.
pub data Replies (bios : Bios) : (call ebx : ℕ) → List Answer → Type 0 where
  last :
      {call ebx : ℕ}
      → IsReply (bios call ebx)
      → (bios call ebx).ebx ≡ 0
      → Replies bios call ebx (bios call ebx ∷ [])
  more :
      {call ebx : ℕ} {answers : List Answer}
      → IsReply (bios call ebx)
      → (bios call ebx).ebx ≢ 0
      → Replies bios (suc call) (bios call ebx).ebx answers
      → Replies bios call ebx (bios call ebx ∷ answers)
  refused :
      {call ebx : ℕ}
      → (bios (suc call) ebx).carry ≡ true
      → (bios (suc call) ebx).size ≤ 24
      → Replies bios (suc call) ebx []

abbrev list_at : ℕ
list_at = memmap_seg * 16

-- The list from entry `i` on holds the entries, and the bytes outside it and one more entry are left.
record Lists (limit : ℕ) (entries : List MemMap) (s s' : Scan) : Type 0 where
  count : s'.bp ≡ s.bp + length entries
  content : mem_maps s'.mem list_at (length entries) s.bp ≡ entries
  below : (p : ℕ) → p < list_at + s.di → s'.mem p ≡ s.mem p
  above : (p : ℕ) → limit ≤ p → s'.mem p ≡ s.mem p

-- Where the scan is: `size` bytes are left for entries.
record HasSpace (limit n : ℕ) (s : Scan) : Type 0 where
  offset : s.di ≡ s.bp * 24
  segment : s.di + (n + 1) * 24 ≤ 2 ^ 16
  bounded : list_at + s.di + (n + 1) * 24 ≤ limit

module _ {limit n : ℕ} (a : Answer) (s : Scan) (is : IsReply a)
    (space : HasSpace limit (suc n) s) where
  room : s.di + 24 ≤ 2 ^ 16
  room = omega (arith, space.segment)

  called : Scan
  called = answered a (prepared s)

  keep-Lists :
      {s' : Scan} (entries : List MemMap)
      → Lists limit entries (advance called) s'
      → Lists limit (entry_of a ∷ entries) s s'
  unfolding called answered prepared mem_maps
  keep-Lists {s'} entries rest =
      let next : u16 (s.bp + 1) ≡ s.bp + 1 = omega (arith, space.offset, room) in
      let further : u16 (s.di + 24) ≡ s.di + 24 = omega (arith, space.segment) in
      let old : (p : ℕ) → p < list_at + s.di + 24 → s'.mem p ≡ called.mem p =
        λ p h. rest.below p (omega (arith, further)) in
      let first : mem_map_at s'.mem list_at s.bp ≡ entry_of a =
        mem_map-at s'.mem (image a) (list_at + s.di)
          (λ j h. old (list_at + s.di + j) (omega arith) ∙ answered-at a s room is j h) list_at s.bp
          (omega (arith, space.offset)) in
      record {
        count = omega (arith, rest.count, next);
        content = rw (first, rw next at rest.content) refl;
        below = λ p h. old p (omega arith) ∙ answered-below a s room is.enough.1 p h;
        above = λ p h.
            rest.above p h ∙ answered-above a s room is.enough.1 p (omega (arith, space.bounded));
      }

  skip-Lists :
      {s' : Scan} (entries : List MemMap) → Lists limit entries called s' → Lists limit entries s s'
  unfolding called answered prepared
  skip-Lists entries rest = record {
    count = rest.count;
    content = rest.content;
    below = λ p h. rest.below p h ∙ answered-below a s room is.enough.1 p h;
    above = λ p h.
        rest.above p h ∙ answered-above a s room is.enough.1 p (omega (arith, space.bounded));
  }

  handled-Lists :
      {s' : Scan} (answers : List Answer)
      → Lists limit (listed answers) (handled a called) s'
      → Lists limit (listed (a ∷ answers)) s s'
  unfolding called answered after
  handled-Lists answers rest =
      let skips_it : skips a (answered a (prepared s)) ≡ not (is_region (entry_of a)) =
        skips_lem a s room is in
      elim (Bool-cases (is_region (entry_of a))) [
        | inl region ↦
            let kept : skips a (answered a (prepared s)) ≡ false = skips_it ∙ ap not region in
            rw region (keep-Lists (listed answers) (rw kept at rest))
        | inr none_there ↦
            let gone : skips a (answered a (prepared s)) ≡ true = skips_it ∙ ap not none_there in
            rw none_there (skip-Lists (listed answers) (rw gone at rest))
      ]

  handled-HasSpace : HasSpace limit n (handled a called)
  unfolding called answered prepared
  handled-HasSpace = elim (Bool-cases (skips a called)) [
    | inl gone ↦ rw gone (record {
      offset = space.offset;
      segment = omega (arith, space.segment);
      bounded = omega (arith, space.bounded);
    })
    | inr kept ↦ rw kept (record {
      offset = omega (arith, space.offset, space.segment);
      segment = omega (arith, space.segment);
      bounded = omega (arith, space.bounded, space.segment);
    })
  ]

loop-Lists :
    {bios : Bios} {call ebx limit : ℕ} {answers : List Answer} (fuel : ℕ) (s : Scan)
    → Replies bios call ebx answers
    → length answers < fuel
    → HasSpace limit (length answers) s
    → Returns
        (λ carry s'. (carry ≡ false) × Lists limit (listed answers) s s')
        (e820_loop bios fuel call ebx s)
unfolding e820_loop called mem_maps answered prepared skips
loop-Lists zero s replies enough space = absurd (omega arith)
loop-Lists {bios} (suc fuel) s (last {call} {ebx} is end_reply) enough space =
    let a = bios call ebx in
    let signed : (a.eax == signature) ≡ true = ground (arith, is.signed) in
    let ends : (a.ebx == 0) ≡ true = ground (arith, end_reply) in
    rw (is.success, signed, ends)
      (returns (
        refl,
        handled-Lists a s is space [] (record {
          count = omega arith;
          content = refl;
          below = λ p h. refl;
          above = λ p h. refl;
        }),
      ))
loop-Lists {bios} (suc fuel) s (more {call} {ebx} {answers} is goes_on replies) enough space =
    let a = bios call ebx in
    let signed : (a.eax == signature) ≡ true = ground (arith, is.signed) in
    let ends : (a.ebx == 0) ≡ false = ground (arith, goes_on) in
    let next : call + 1 ≡ suc call = omega arith in
    rw (is.success, signed, ends, next)
      (Returns-mono
        (loop-Lists fuel (handled a (called a s is space)) replies (omega arith)
          (handled-HasSpace a s is space))
        λ carry s' (none_left, rest). (none_left, handled-Lists a s is space answers rest))
loop-Lists {bios} (suc fuel) s (refused {call} {ebx} carry small) enough space =
    let a = bios (suc call) ebx in
    let later : (suc call == 0) ≡ false = ground arith in
    let room : s.di + 24 ≤ 2 ^ 16 = omega (arith, space.segment) in
    rw (carry, later)
      (returns (
        refl,
        record {
          count = omega arith;
          content = refl;
          below = answered-below a s room small;
          above = λ p h. answered-above a s room small p (omega (arith, space.bounded));
        },
      ))

-- The memory map that the boot loader reads holds the entries, and other bytes are as in `mem`.
pub record IsMap (mem : Buffer) (limit : ℕ) (entries : List MemMap) (seg size : ℕ) (mem' : Buffer)
    : Type 0 where
  pub entries_read :
      (rm_data : RealModeData)
      → rm_data.memmap_seg ≡ seg
      → rm_data.memmap_size ≡ size
      → memmap rm_data mem' ≡ entries
  pub others : (p : ℕ) → (p < 0xA000) ⊎ (limit ≤ p) → mem' p ≡ mem p

-- For a BIOS whose replies are the documented ones, fit the segment and have no length whose halves
-- add up to 2^32, the calls end, and the memory map that the boot loader then reads is the list of
-- the reported entries that are not to be ignored and not empty, in order; other memory than the list
-- and one entry more is left.
pub map_memory-IsMap :
    {bios : Bios} {answers : List Answer} (fuel : ℕ) (mem : Buffer)
    → Replies bios 0 0 answers
    → length answers < fuel
    → (length answers + 1) * 24 ≤ 2 ^ 16
    → (seg : ℕ) × (size : ℕ) × (mem' : Buffer) × (map_memory bios fuel mem
        ≡ some (some (seg, size, mem')))
      × IsMap mem (0xA000 + (length answers + 1) * 24) (listed answers) seg size mem'
unfolding map_memory e820
map_memory-IsMap {bios} {answers} fuel mem replies enough short =
    let start : Scan = record { mem = mem; di = 0; bp = 0 } in
    let (carry, s', run, (clear, lists)) = Returns-eq (
      loop-Lists {limit = 0xA000 + (length answers + 1) * 24} fuel start replies enough
        (record { offset = refl; segment = omega arith; bounded = omega arith })) in
    let size : s'.bp ≡ length (listed answers) = omega (arith, lists.count) in
    (
      memmap_seg,
      s'.bp,
      s'.mem,
      rw (run, clear) refl,
      record {
        entries_read = λ rm_data seg same.
            let place : mem_map rm_data ≡ list_at = ap (λ (n : ℕ). n * 2 ^ 4) seg in
            rw (place, same, size) lists.content;
        others = λ p out. elim out [
          | inl low ↦ lists.below p (omega arith)
          | inr high ↦ lists.above p high
        ];
      },
    )
