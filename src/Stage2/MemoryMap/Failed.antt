-- ===== src/Stage2/MemoryMap/Failed.antt =====
-- When the BIOS does not report a memory map, the boot fails.
use ziemniak.Base.{
  ℕ, zero, suc, ◌+◌, ◌≤◌, ◌≡◌, ◌≢◌, refl, arith, true, false, ◌==◌, ne→==, none, some, Returns,
  returns, Returns-eq,
}
use ziemniak.Stage2.Disc.{Buffer}
use ziemniak.Stage2.MemoryMap.{Bios, Scan, signature, e820_loop, e820, map_memory}

-- The calls from one on up to a failure, at most `n`: the first call ends with a carry, or the answer
-- to some call has another signature.
pub data Fails (bios : Bios) : (n call ebx : ℕ) → Type 0 where
  unsupported : {n ebx : ℕ} → (bios 0 ebx).carry ≡ true → Fails bios (suc n) 0 ebx
  unsigned :
      {n call ebx : ℕ}
      → (bios call ebx).carry ≡ false
      → (bios call ebx).eax ≢ signature
      → Fails bios (suc n) call ebx
  later :
      {n call ebx : ℕ}
      → (bios call ebx).carry ≡ false
      → (bios call ebx).eax ≡ signature
      → (bios call ebx).ebx ≢ 0
      → Fails bios n (suc call) (bios call ebx).ebx
      → Fails bios (suc n) call ebx

e820_loop-Fails :
    (fuel : ℕ) {bios : Bios} {n call ebx : ℕ} (s : Scan)
    → Fails bios n call ebx
    → n ≤ fuel
    → Returns (λ carry _. carry ≡ true) (e820_loop bios fuel call ebx s)
unfolding e820_loop
e820_loop-Fails zero s (unsupported carry) enough = absurd (omega arith)
e820_loop-Fails zero s (unsigned success other) enough = absurd (omega arith)
e820_loop-Fails zero s (later success signed more rest) enough = absurd (omega arith)
e820_loop-Fails (suc fuel) s (unsupported carry) enough = rw carry (returns refl)
e820_loop-Fails (suc fuel) {bios} s (unsigned {n} {call} {ebx} success other) enough =
    rw (success, ne→== (bios call ebx).eax signature other) (returns refl)
e820_loop-Fails (suc fuel) {bios} s (later {n} {call} {ebx} success signed more rest) enough =
    let same : ((bios call ebx).eax == signature) ≡ true = ground (arith, signed) in
    let next : call + 1 ≡ suc call = omega arith in
    rw (success, same, ne→== (bios call ebx).ebx 0 more, next)
      (e820_loop-Fails fuel _ rest (omega arith))

-- If the first call of the BIOS fails, or any answer before the end of the list is not signed, the
-- boot stops with a message instead of a memory map, after as many calls as that takes.
pub map_memory-Fails :
    {bios : Bios} {n : ℕ} (fuel : ℕ) (mem : Buffer)
    → Fails bios n 0 0
    → n ≤ fuel
    → map_memory bios fuel mem ≡ some none
unfolding map_memory e820
map_memory-Fails fuel mem fails enough =
    let (carry, s', run, failed) =
      Returns-eq (e820_loop-Fails fuel (record { mem = mem; di = 0; bp = 0 }) fails enough) in
    rw (run, failed) refl
