-- ===== src/Stage2/Tests/MemoryMap.antt =====
-- A BIOS that reports low memory, an entry to be ignored and 511 MiB above 1 MiB, the last in the old
-- form of 20 bytes.
use ziemniak.Base.{
  none, ℕ, ◌+◌, ◌*◌, ◌≡◌, refl, arith, List, [], ◌∷◌, ◌++◌, true, false, some, ◌==◌, if◌then◌else◌,
  get_or, replicate, length, u8,
}
use ziemniak.Stage2.Disc.{Buffer, load32}
use ziemniak.Stage2.Boot.Memory.{load64, mem_map_at}
use ziemniak.Stage2.MemoryMap.{Answer, Bios, signature, prepared, answered, skips, map_memory}
use ziemniak.Stage2.MemoryMap.Entry.{IsReply, listed}
use ziemniak.Stage2.MemoryMap.Failed.{unsigned, later, map_memory-Fails}
use ziemniak.Stage2.MemoryMap.Listed.{Replies, last, more, IsMap, map_memory-IsMap}

abbrev answer : (next size : ℕ) → List ℕ → Answer
answer next size bytes = record {
  carry = false;
  eax = signature;
  ebx = next;
  ecx = size;
  size = size;
  bytes = λ j. u8 (get_or bytes j 0);
}

abbrev low : Answer
low = answer 7 24 (replicate 8 0 ++ 0 ∷ 0xFC ∷ 0x09 ∷ replicate 5 0 ++ 1 ∷ 0 ∷ 0 ∷ 0 ∷ 1 ∷ [])

abbrev ignored : Answer
ignored = answer 8 24 (replicate 8 0 ++ 0 ∷ 0xFC ∷ 0x09 ∷ replicate 5 0 ++ 1 ∷ [])

abbrev high : Answer
high = answer 0 20 (0 ∷ 0 ∷ 0x10 ∷ replicate 5 0 ++ 0 ∷ 0 ∷ 0xF0 ∷ 0x1F ∷ replicate 4 0 ++ 1 ∷ [])

abbrev bios : Bios
bios call ebx = if ebx == 0 then low else if ebx == 7 then ignored else high

low-IsReply : IsReply low
unfolding load32
low-IsReply = record {
  success = refl;
  signed = refl;
  written = refl;
  enough = (omega arith, omega arith);
  octets = λ j. omega arith;
  halves = omega arith;
}

ignored-IsReply : IsReply ignored
unfolding load32
ignored-IsReply = record {
  success = refl;
  signed = refl;
  written = refl;
  enough = (omega arith, omega arith);
  octets = λ j. omega arith;
  halves = omega arith;
}

high-IsReply : IsReply high
unfolding load32
high-IsReply = record {
  success = refl;
  signed = refl;
  written = refl;
  enough = (omega arith, omega arith);
  octets = λ j. omega arith;
  halves = omega arith;
}

answers : List Answer
answers = low ∷ ignored ∷ high ∷ []

replies : Replies bios 0 0 answers
unfolding answers
replies =
    more low-IsReply (omega arith) (more ignored-IsReply (omega arith) (last high-IsReply refl))

-- Two entries are left.
listed_runs : length (listed answers) ≡ 2
unfolding answers mem_map_at load64 load32
listed_runs = refl

-- 2^33 - 1 bytes, whose halves add up to 2^32, are taken for an empty region.
abbrev halves : Answer
halves = answer 0 20 (replicate 8 0 ++ 0xFF ∷ 0xFF ∷ 0xFF ∷ 0xFF ∷ 1 ∷ 0 ∷ 0 ∷ 0 ∷ 1 ∷ [])

halves_runs :
    skips halves (answered halves (prepared (record { mem = λ p. 0; di = 0; bp = 0 }))) ≡ true
unfolding skips answered prepared load32
halves_runs = refl

map_memory-IsMap_example :
    (seg : ℕ) × (size : ℕ) × (mem' : Buffer) × (map_memory bios 9 (λ p. p)
      ≡ some (some (seg, size, mem')))
    × IsMap (λ p. p) (0xA000 + (length answers + 1) * 24) (listed answers) seg size mem'
unfolding answers
map_memory-IsMap_example = map_memory-IsMap 9 (λ p. p) replies (omega arith) (omega arith)

-- A BIOS that loses its signature in the second answer.
abbrev broken : Bios
broken call ebx = if call == 0 then low else record high { eax = 0x86 }

map_memory-Fails_example : map_memory broken 9 (λ p. p) ≡ some none
map_memory-Fails_example =
    map_memory-Fails {n = 2} 9 (λ p. p)
      (later refl refl (omega arith) (unsigned refl (omega arith))) (omega arith)
