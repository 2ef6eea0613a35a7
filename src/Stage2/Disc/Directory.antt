-- ===== src/Stage2/Disc/Directory.antt =====
-- What `search_directory` finds in a sector of a directory.
use ziemniak.Base.{
  ℕ, zero, suc, ◌+◌, ◌^◌, ◌<◌, ◌≤◌, ◌≡◌, ◌≢◌, ◌↔◌, refl, arith, List, [], ◌∷◌, Option, none, some,
  length, ==-cases, ==_refl, ne→==, false, inl, inr, ◌==◌, u32,
}
use ziemniak.Stage2.Disc.{Buffer, compare_loop, compare_str, load32, search_loop, search_directory}

-- A name that a caller may look for.
abbrev pub IsName : List ℕ → Type 0
IsName [] = Unit
IsName (c ∷ cs) = (c ≢ 0) × IsName cs

-- The memory from index `i` on starts with the text.
abbrev pub StartsWith : (i : ℕ) → List ℕ → Buffer → Type 0
StartsWith i [] mem = Unit
StartsWith i (c ∷ cs) mem = (c ≡ mem i) × StartsWith (i + 1) cs mem

compare_loop-StartsWith :
    (i : ℕ) (str : List ℕ) (mem : Buffer)
    → IsName str
    → i + length str ≤ 256
    → (compare_loop i str mem ≡ 0) ↔ StartsWith i str mem
unfolding compare_loop
compare_loop-StartsWith i [] mem name short = (λ _. tt, λ _. refl)
compare_loop-StartsWith i (c ∷ cs) mem (more, name) short =
    let inside : i ≢ 256 = omega arith in
    let rest = compare_loop-StartsWith (i + 1) cs mem name (omega arith) in
    rw (ne→== c 0 more, ne→== i 256 inside)
      (elim (==-cases c (mem i)) [
        | inl same ↦ rw (same, ==_refl (mem i)) (λ z. (refl, rest.0 z), λ p. rest.1 p.1)
        | inr other ↦ rw (ne→== c (mem i) other) (λ z. omega arith, λ p. absurd (other p.0))
      ])

-- `compare_str` compares a prefix only: it is 0 exactly if the memory starts with the text.
pub compare_str-StartsWith :
    (str : List ℕ) (mem : Buffer)
    → IsName str
    → length str ≤ 256
    → (compare_str str mem ≡ 0) ↔ StartsWith 0 str mem
unfolding compare_str
compare_str-StartsWith str mem name short = compare_loop-StartsWith 0 str mem name (omega arith)

-- The records of a directory from an offset on, by their offsets; a record starts with its size,
-- and the size 0 ends the list.
pub data IsListed (buf : Buffer) : ℕ → List ℕ → Type 0 where
  ends : {at : ℕ} → buf at ≡ 0 → IsListed buf at []
  entry :
      {at : ℕ} {rs : List ℕ}
      → 0 < buf at
      → at + buf at < 2 ^ 32
      → IsListed buf (at + buf at) rs
      → IsListed buf at (at ∷ rs)

-- The name that the record at an offset holds starts with the text.
abbrev pub IsNamed : List ℕ → Buffer → ℕ → Type 0
IsNamed fname buf at = StartsWith 0 fname (λ j. buf (0x21 + at + j))

-- The first of the records with such a name.
pub data Lookup (fname : List ℕ) (buf : Buffer) : List ℕ → Option ℕ → Type 0 where
  missing : Lookup fname buf [] none
  first : {at : ℕ} {rs : List ℕ} → IsNamed fname buf at → Lookup fname buf (at ∷ rs) (some at)
  later :
      {at : ℕ} {rs : List ℕ} {r : Option ℕ}
      → ¬ IsNamed fname buf at
      → Lookup fname buf rs r
      → Lookup fname buf (at ∷ rs) r

-- Its extent and, in place of `fsize`, its size.
abbrev pub answer : Buffer → (fsize : ℕ) → Option ℕ → ℕ × ℕ
answer buf fsize none = (0, fsize)
answer buf fsize (some at) = (load32 buf (0x02 + at), load32 buf (0x0A + at))

module _ (fsize : ℕ) (buf : Buffer) (fname : List ℕ) (name : IsName fname)
    (short : length fname ≤ 256) where
  search_loop-Lookup :
      (fuel at : ℕ) (rs : List ℕ)
      → IsListed buf at rs
      → length rs < fuel
      → (r : Option ℕ) × Lookup fname buf rs r
        × (search_loop fuel at fsize buf fname ≡ some (answer buf fsize r))
  unfolding search_loop
  search_loop-Lookup zero at rs listed enough = absurd (omega arith)
  search_loop-Lookup (suc fuel) at [] (ends stop) enough =
      let here : 0x00 + at ≡ at = omega arith in (none, missing, rw (here, stop) refl)
  search_loop-Lookup (suc fuel) at (_ ∷ rs) (entry some_size fits listed) enough =
      let here : 0x00 + at ≡ at = omega arith in
      let next : u32 (at + buf at) ≡ at + buf at = omega arith in
      let size : (buf at == 0x00) ≡ false = ground arith in
      let match = compare_str-StartsWith fname (λ j. buf (0x21 + at + j)) name short in
      elim (==-cases (compare_str fname (λ j. buf (0x21 + at + j))) 0) [
        | inl same ↦ (some at, first (match.0 same), rw (here, size, same) refl)
        | inr other ↦
            let (r, found, run) = search_loop-Lookup fuel (at + buf at) rs listed (omega arith) in
            (
              r,
              later (λ named. other (match.1 named)) found,
              rw (here, size, ne→== (compare_str fname (λ j. buf (0x21 + at + j))) 0 other, next)
                  run,
            )
      ]

  -- In a sector of directory records `search_directory` returns with the extent and the size of the
  -- first record whose name starts with `fname`; if there is none, with 0 and `*fsize` unchanged.
  pub search_directory-Lookup :
      (fuel : ℕ) (rs : List ℕ)
      → IsListed buf 0 rs
      → length rs < fuel
      → (r : Option ℕ) × Lookup fname buf rs r
        × (search_directory fuel fsize buf fname ≡ some (answer buf fsize r))
  unfolding search_directory
  search_directory-Lookup fuel rs listed enough = search_loop-Lookup fuel 0 rs listed enough
