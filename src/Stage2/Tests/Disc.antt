-- ===== src/Stage2/Tests/Disc.antt =====
-- The search on a disc with one file, `K`, of 9 bytes in sector 5.
use ziemniak.Base.{
  ℕ, ◌+◌, ◌≡◌, ◌≢◌, refl, arith, List, [], ◌∷◌, some, ◌==◌, if◌then◌else◌, returns, codes,
}
use ziemniak.Stage2.Disc.{Buffer, load32, search_directory, compare_str, search_loop, compare_loop}
use ziemniak.Stage2.Disc.Directory.{IsListed, entry, ends, Lookup, first, later}
use ziemniak.Stage2.Disc.Search.{Reader}
use ziemniak.Stage2.Disc.Search.Outcome.{over, view, IsReader, IsVolume}

abbrev descriptor : Buffer
descriptor j = if j == 0 then 1 else if j == 0x9E then 20 else if j == 0xA7 then 8 else 0

abbrev directory : Buffer
directory j =
    if j == 0 then 40 else if j == 2 then 5 else if j == 10 then 9 else if j == 33 then b'K' else 0

abbrev pub sector : ℕ → Buffer
sector lba = if lba == 16 then descriptor else if lba == 20 then directory else λ _. 0

abbrev pub memory : Buffer
memory j = 0

abbrev pub IsReady : Unit {0} → Type 0
IsReady _ = Unit

abbrev pub read : Reader (Unit {0})
read lba buf s = some ((2048, over (sector lba) buf), s)

pub reader : IsReader sector IsReady read
reader = record { reads = λ lba buf s small ready. returns (ready, refl) }

abbrev pub entries : ℕ → List ℕ
entries c = 0 ∷ []

directory-IsListed : IsListed directory 0 (0 ∷ [])
directory-IsListed = entry (omega arith) (omega arith) (ends refl)

search_runs : search_directory 3 7 directory (codes "K") ≡ some (5, 9)
unfolding search_directory search_loop compare_str compare_loop load32
search_runs = refl

root_view : Buffer
unfolding load32
root_view = view sector memory 0

extent :
    (at : ℕ) → Lookup (codes "K") root_view (entries 0) (some at) → load32 root_view (0x02 + at) ≢ 0
unfolding load32 root_view
extent at (first named) = omega arith
extent at (later other found) = absurd (other (refl, tt))

pub volume : IsVolume sector memory (codes "K") entries 3
unfolding load32 root_view
volume = record {
  unread = omega arith;
  descriptor = refl;
  listed = λ c h.
      let only : c ≡ 0 = omega arith in rw only (entry (omega arith) (omega arith) (ends refl));
  few = λ c h. omega arith;
  extents = λ c at h. let only : c ≡ 0 = omega arith in rw only (extent at);
}
