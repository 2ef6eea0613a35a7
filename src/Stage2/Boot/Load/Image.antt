-- ===== src/Stage2/Boot/Load/Image.antt =====
-- The memory after the kernel has been loaded.
use ziemniak.Base.{
  ℕ, zero, suc, ◌+◌, ◌-◌, ◌*◌, ◌/◌, ◌%◌, ◌^◌, ◌<◌, ◌≤◌, ◌≡◌, refl, ◌∙◌, arith, leb, ltb, ◌&&◌,
  if◌then◌else◌, true, Bool-cases, inl, inr, Returns, returns, Returns-bind, Returns-mono, u32,
}
use native.Mathlib.Decide.{dec_lt}
use ziemniak.Stage2.Disc.{Buffer}
use ziemniak.Stage2.Disc.Search.{Reader}
use ziemniak.Stage2.Disc.Search.Outcome.{over, IsReader}
use ziemniak.Stage2.Boot.Load.{from, back, load_sectors, load_loop, load}

back-over :
    (at : ℕ) (sector memory : Buffer) (p : ℕ)
    → back at (over sector (from at memory)) memory p
      ≡ (if leb at p && ltb p (at + 2048) then sector (p - at) else memory p)
back-over at sector memory p = elim (dec_lt p at) [
  | yes below ↦ ground arith
  | no above ↦
      let here : at + (p - at) ≡ p = omega arith in
      let test : leb at p ≡ true = ground arith in rw (here, test) (ground arith)
]

-- The piece of an image that a sector is.
piece :
    (sector : ℕ → Buffer) (lba load_buf i p : ℕ)
    → (leb (load_buf + i * 2048) p && ltb p (load_buf + i * 2048 + 2048)) ≡ true
    → sector (lba + (p - load_buf) / 2048) ((p - load_buf) % 2048)
      ≡ sector (lba + i) (p - (load_buf + i * 2048))
piece sector lba load_buf i p inside =
    let place : (p - load_buf) / 2048 ≡ i = ground arith in
    let offset : (p - load_buf) % 2048 ≡ p - (load_buf + i * 2048) = ground arith in
    rw (place, offset) refl

module _ {S : Type 0} {IsReady : S → Type 0} {read : Reader S} {sector : ℕ → Buffer}
    (reader : IsReader sector IsReady read) (lba load_buf : ℕ) where
  -- `n` sectors of the disc from `lba` on, at the address `at`.
  abbrev image : (i n : ℕ) (memory : Buffer) → Buffer
  image i n memory p =
      if leb (load_buf + i * 2048) p && ltb p (load_buf + (i + n) * 2048)
      then sector (lba + (p - load_buf) / 2048) ((p - load_buf) % 2048)
      else memory p

  image-step :
      (i left : ℕ) (memory : Buffer) (p : ℕ)
      → image
          (i + 1)
          left
          (back
            (load_buf + i * 2048)
            (over (sector (lba + i)) (from (load_buf + i * 2048) memory))
            memory)
          p
        ≡ image i (suc left) memory p
  image-step i left memory p =
      let at = load_buf + i * 2048 in
      rw (back-over at (sector (lba + i)) memory p)
        (elim (Bool-cases (leb at p && ltb p (at + 2048))) [
          | inl inside ↦ rw (inside, ← piece sector lba load_buf i p inside) (ground arith)
          | inr outside ↦ rw outside (ground arith)
        ])

  load_loop-image :
      (left i : ℕ) (memory : Buffer) (s : S)
      → IsReady s
      → lba + i + left ≤ 2 ^ 32
      → load_buf + (i + left) * 2048 ≤ 2 ^ 32
      → Returns
          (λ m s'. IsReady s' × ((p : ℕ) → m p ≡ image i left memory p))
          (load_loop read left i lba load_buf memory s)
  unfolding load_loop
  load_loop-image zero i memory s ready small fits = returns (ready, λ p. ground arith)
  load_loop-image (suc left) i memory s ready small fits =
      let next : u32 (lba + i) ≡ lba + i = omega arith in
      let place : u32 (u32 load_buf + i * 2048) ≡ load_buf + i * 2048 = omega arith in
      rw (next, place)
        (Returns-bind
          (reader.reads (lba + i) (from (load_buf + i * 2048) memory) s (omega arith) ready)
          λ r s' (ready', same). rw same (
            Returns-mono
              (load_loop-image left (i + 1)
                (back (load_buf + i * 2048)
                  (over (sector (lba + i)) (from (load_buf + i * 2048) memory)) memory)
                s' ready' (omega arith) (omega arith))
              λ m s'' (ready'', all). (ready'', λ p. all p ∙ image-step i left memory p)))

  -- For an image that ends below 4 GiB, at an address and at sector numbers of 32 bits, the loop
  -- returns with the sectors of the file one after another in memory from `load_buf` on, the last
  -- one whole, and no other byte changed.
  pub load-image :
      (load_size : ℕ) (memory : Buffer) (s : S)
      → IsReady s
      → load_size + 2047 < 2 ^ 32
      → lba + (load_size + 2047) / 2048 ≤ 2 ^ 32
      → load_buf + (load_size + 2047) / 2048 * 2048 ≤ 2 ^ 32
      → Returns
          (λ m s'.
            IsReady s'
            × ((p : ℕ)
                → m p ≡ (
                    if leb load_buf p && ltb p (load_buf + (load_size + 2047) / 2048 * 2048)
                    then sector (lba + (p - load_buf) / 2048) ((p - load_buf) % 2048)
                    else memory p)))
          (load read load_size lba load_buf memory s)
  unfolding load load_sectors
  load-image load_size memory s ready small sectors fits =
      let n : u32 (load_size + 2047) / 2048 ≡ (load_size + 2047) / 2048 = omega arith in
      rw n (
        Returns-mono
          (load_loop-image ((load_size + 2047) / 2048) 0 memory s ready (omega arith) (omega arith))
          λ m s' (ready', all). (ready', λ p. all p ∙ ground arith))
