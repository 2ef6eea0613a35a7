-- ===== src/Stage2/Disc/Search/Outcome.antt =====
-- What `cdrom_search` finds on a disc.
use ziemniak.Base.{
  ℕ, zero, suc, ◌+◌, ◌^◌, ◌/◌, ◌<◌, ◌≤◌, ◌≡◌, ◌≢◌, refl, ◌∙◌, arith, List, Option, none, some,
  length, ltb, ◌==◌, if◌then◌else◌, Cmd, pure, ◌>>=◌, not, Returns, returns, Returns-bind, ne→==,
  u16, u32,
}
use native.Mathlib.Decide.{dec_lt}
use mathlib.Core.Path.{fun_ext}
use ziemniak.Stage2.Disc.{Buffer, load32, search_directory}
use ziemniak.Stage2.Disc.Directory.{IsName, IsListed, Lookup, answer, search_directory-Lookup}
use ziemniak.Stage2.Disc.Search.{Reader, found_in, pvd_loop, sector_loop, cdrom_search}

-- A buffer after a sector has been read over its first 2048 bytes.
abbrev pub over : (sector buf : Buffer) → Buffer
over sector buf j = if ltb j 2048 then sector j else buf j

over-over : (a b buf : Buffer) → over a (over b buf) ≡ over a buf
over-over a b buf = fun_ext λ j. ground arith

-- A function that reads the sectors of a disc in every state that is ready, and leaves it ready.
pub record IsReader {S : Type 0} (sector : ℕ → Buffer) (IsReady : S → Type 0) (read : Reader S)
    : Type 0 where
  pub reads :
      (lba : ℕ) (buf : Buffer) (s : S)
      → lba < 2 ^ 32
      → IsReady s
      → Returns (λ r s'. IsReady s' × (r.1 ≡ over (sector lba) buf)) (read lba buf s)

module _ (sector : ℕ → Buffer) (buf : Buffer) where
  -- The place of the root directory, from the volume descriptor.
  abbrev pub root : ℕ
  root = load32 (sector 16) 0x9E

  abbrev pub root_sectors : ℕ
  root_sectors = u16 (load32 (sector 16) 0xA6 / 2048)

  -- The buffer with sector `c` of the root directory.
  abbrev pub view : (c : ℕ) → Buffer
  view c = over (sector (u32 (root + c))) buf

  module _ (fname : List ℕ) (entries : ℕ → List ℕ) where
    -- The volume descriptor is sector 16, the buffer does not look like one before it is read, and
    -- the sectors of the root directory hold the records `entries`, none of extent 0.
    pub record IsVolume (fuel : ℕ) : Type 0 where
      pub unread : buf 0 ≢ 1
      pub descriptor : sector 16 0 ≡ 1
      pub listed : (c : ℕ) → c < root_sectors → IsListed (view c) 0 (entries c)
      pub few : (c : ℕ) → c < root_sectors → length (entries c) < fuel
      pub extents :
          (c at : ℕ)
          → c < root_sectors
          → Lookup fname (view c) (entries c) (some at)
          → load32 (view c) (0x02 + at) ≢ 0

    -- The first record of the directory with the name, by its extent and size, or 0 and 0.
    pub data Outcome : ℕ × ℕ → Type 0 where
      absent :
          ((c : ℕ) → c < root_sectors → Lookup fname (view c) (entries c) none) → Outcome (0, 0)
      present :
          {c at : ℕ}
          → c < root_sectors
          → ((c' : ℕ) → c' < c → Lookup fname (view c') (entries c') none)
          → Lookup fname (view c) (entries c) (some at)
          → Outcome (load32 (view c) (0x02 + at), load32 (view c) (0x0A + at))

module _ {S : Type 0} {IsReady : S → Type 0} {read : Reader S} {sector : ℕ → Buffer} {buf : Buffer}
    {fname : List ℕ} {entries : ℕ → List ℕ} {fuel : ℕ} (reader : IsReader sector IsReady read)
    (volume : IsVolume sector buf fname entries fuel) (name : IsName fname)
    (short : length fname ≤ 256) where
  -- One sector: what is found there decides whether the search goes on.
  found_in-Outcome :
      (c fsize : ℕ) (rest : ℕ → Cmd S (ℕ × ℕ)) (s : S)
      → IsReady s
      → c < root_sectors sector buf
      → ((c' : ℕ) → c' < c → Lookup fname (view sector buf c') (entries c') none)
      → (Lookup fname (view sector buf c) (entries c) none
          → Returns (λ r s'. IsReady s' × Outcome sector buf fname entries r) (rest fsize s))
      → Returns
          (λ r s'. IsReady s' × Outcome sector buf fname entries r)
          ((found_in (search_directory fuel fsize (view sector buf c) fname) >>= λ (temp, fsize').
              (if not (temp == 0) then pure (temp, fsize') else rest fsize'))
            s)
  found_in-Outcome c fsize rest s ready inside before next =
      let (r, found, run) =
        search_directory-Lookup fsize (view sector buf c) fname name short fuel (entries c)
          (volume.listed c inside) (volume.few c inside) in
      rw run (decide r found)
    where
      decide :
          (r : Option ℕ)
          → Lookup fname (view sector buf c) (entries c) r
          → Returns
              (λ r s'. IsReady s' × Outcome sector buf fname entries r)
              ((found_in (some (answer (view sector buf c) fsize r)) >>= λ (temp, fsize').
                  (if not (temp == 0) then pure (temp, fsize') else rest fsize'))
                s)
      decide none found = next found
      decide (some at) found =
          rw (ne→== (load32 (view sector buf c) (0x02 + at)) 0 (volume.extents c at inside found))
            (returns (ready, present inside before found))

  sector_loop-Outcome :
      (left c fsize : ℕ) (b : Buffer) (s : S)
      → c + left ≡ root_sectors sector buf
      → ((c' : ℕ) → c' < c → Lookup fname (view sector buf c') (entries c') none)
      → ((a : Buffer) → over a b ≡ over a buf)
      → IsReady s
      → Returns
          (λ r s'. IsReady s' × Outcome sector buf fname entries r)
          (sector_loop read left c (root sector buf) fuel fsize fname b s)
  unfolding sector_loop
  sector_loop-Outcome zero c fsize b s count before fresh ready =
      returns (ready, absent λ c' h. before c' (omega arith))
  sector_loop-Outcome (suc left) c fsize b s count before fresh ready =
      Returns-bind (reader.reads (u32 (root sector buf + c)) b s (omega arith) ready)
        λ r s' (ready', same).
          let b' : r.1 ≡ view sector buf c = same ∙ fresh (sector (u32 (root sector buf + c))) in
          rw b' (
            found_in-Outcome c fsize _ s' ready' (omega arith) before λ missed.
              sector_loop-Outcome left (c + 1) fsize (view sector buf c) s' (omega arith)
                (λ c' h. elim (dec_lt c' c) [
                  | yes below ↦ before c' below
                  | no other ↦ let last : c' ≡ c = omega arith in rw last missed
                ])
                (λ a. over-over a _ buf) ready')

  -- The sector that is read first is the volume descriptor, so the second round stops.
  pvd_loop-view :
      (s : S)
      → IsReady s
      → 2 ≤ fuel
      → Returns (λ b s'. IsReady s' × (b ≡ over (sector 16) buf)) (pvd_loop read fuel 0 buf s)
  unfolding pvd_loop
  pvd_loop-view s ready enough = two_rounds fuel enough
    where
      two_rounds :
          (n : ℕ)
          → 2 ≤ n
          → Returns (λ b s'. IsReady s' × (b ≡ over (sector 16) buf)) (pvd_loop read n 0 buf s)
      two_rounds zero h = absurd (omega arith)
      two_rounds (suc zero) h = absurd (omega arith)
      two_rounds (suc (suc n)) h = rw (ne→== (buf 0) 1 volume.unread) (
          Returns-bind (reader.reads 16 buf s (omega arith) ready)
            λ r s' (ready', same). rw (same, volume.descriptor) (returns (ready', refl)))

  -- On a disc with an ISO 9660 volume descriptor in sector 16, `cdrom_search` returns with the
  -- extent and the size of the first record of the root directory whose name starts with `fname`,
  -- and with 0 and 0 if no record has such a name.
  pub cdrom_search-Outcome :
      (fsize : ℕ) (s : S)
      → IsReady s
      → 2 ≤ fuel
      → Returns
          (λ r s'. IsReady s' × Outcome sector buf fname entries r)
          (cdrom_search read fuel fname fsize buf s)
  unfolding cdrom_search load32
  cdrom_search-Outcome fsize s ready enough =
      Returns-bind (pvd_loop-view s ready enough) λ b s' (ready', same). rw same (
        sector_loop-Outcome (root_sectors sector buf) 0 fsize (over (sector 16) buf) s'
          (omega arith) (λ c' h. absurd (omega arith)) (λ a. over-over a (sector 16) buf) ready')
