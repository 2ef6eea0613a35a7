-- ===== src/Stage2/MemoryMap.antt =====
-- The list of memory regions that bootloader/stage2/src/stub.asm asks the BIOS for, from `map_memory`
-- to `save_memmap`. The BIOS is a parameter.
pub mod Entry
pub mod Failed
pub mod Listed
use ziemniak.Base.{
  ℕ, zero, suc, ◌+◌, ◌-◌, ◌*◌, ◌%◌, ◌^◌, Bool, true, false, not, ◌&&◌, ◌||◌, ◌==◌, ltb, leb,
  if◌then◌else◌, Option, none, some, bit_and, Cmd, pure, u16, u32,
}
use ziemniak.Stage2.Disc.{Buffer, load32}

-- What `int 0x15` leaves: the carry flag, three registers, and `size` bytes at the start of the
-- buffer.
pub record Answer : Type 0 where
  pub carry : Bool
  pub eax : ℕ
  pub ebx : ℕ
  pub ecx : ℕ
  pub size : ℕ
  pub bytes : ℕ → ℕ

-- The answer to the call with this number and with the continuation value `ebx`.
abbrev pub Bios : Type 0
Bios = (call ebx : ℕ) → Answer

-- Memory, the offset `di` in the segment `es`, and the count `bp`.
pub record Scan : Type 0 where
  pub mem : Buffer
  pub di : ℕ
  pub bp : ℕ

abbrev pub memmap_seg : ℕ
memmap_seg = 0x0A00

abbrev pub signature : ℕ
signature = 0x534D4150

-- The address of `[es:di+off]`.
abbrev pub at : Scan → (off : ℕ) → ℕ
at s off = memmap_seg * 16 + u16 (s.di + off)

-- `mov dword [es:di+20], 1`
unfoldable pub prepared : Scan → Scan
prepared s = record s {
  mem = λ p.
      if p == at s 20 then 1 else if leb (at s 20) p && ltb p (at s 20 + 4) then 0 else s.mem p;
}

unfoldable pub answered : Answer → Scan → Scan
answered a s = record s {
  mem = λ p. if leb (at s 0) p && ltb p (at s 0 + a.size) then a.bytes (p - at s 0) else s.mem p;
}

-- The three jumps to `.skip`.
unfoldable pub skips : Answer → Scan → Bool
skips a s =
    u16 a.ecx == 0
    || not (leb a.ecx 20) && bit_and (s.mem (at s 20)) 1 == 0
    || u32 (load32 s.mem (at s 8) + load32 s.mem (at s 12)) == 0

abbrev pub advance : Scan → Scan
advance s = record s { bp = u16 (s.bp + 1); di = u16 (s.di + 24) }

abbrev pub handled : Answer → Scan → Scan
handled a s = if skips a s then s else advance s

-- The result is the carry flag. A carry fails only the first call.
unfoldable pub e820_loop : Bios → (fuel call ebx : ℕ) → Cmd Scan Bool
e820_loop bios zero call ebx s = none
e820_loop bios (suc fuel) call ebx s =
    let a = bios call ebx in
    let s = answered a (prepared s) in
    let s' = handled a s in
    let rest = e820_loop bios fuel (call + 1) a.ebx s' in
    if a.carry
    then pure (call == 0) s
    else if not (a.eax == signature)
    then pure true s
    else if a.ebx == 0
    then pure false s'
    else rest

unfoldable pub e820 : Bios → (fuel : ℕ) → Cmd Scan Bool
e820 bios fuel s = e820_loop bios fuel 0 0 (record s { bp = 0 })

-- The fields `rmd_memmap_seg` and `rmd_memmap_size` and the memory; `none` if the boot fails with a
-- message.
abbrev pub saved : Bool × Scan → Option (ℕ × ℕ × Buffer)
saved (true, s) = none
saved (false, s) = some (memmap_seg, s.bp, s.mem)

abbrev pub save_memmap : Option (Bool × Scan) → Option (Option (ℕ × ℕ × Buffer))
save_memmap none = none
save_memmap (some r) = some (saved r)

unfoldable pub map_memory : Bios → (fuel : ℕ) → Buffer → Option (Option (ℕ × ℕ × Buffer))
map_memory bios fuel mem = save_memmap (e820 bios fuel (record { mem = mem; di = 0; bp = 0 }))
