-- ===== src/Stage2/Disc.antt =====
-- The ATAPI driver of the boot loader, bootloader/stage2/src/cdrom.c. Memory is a function from an
-- offset to a byte.
pub mod Atapi
pub mod Directory
pub mod Probe
pub mod Read
pub mod Refused
pub mod Search
pub mod Waits
use ziemniak.Base.{
  ℕ, zero, suc, ◌+◌, ◌-◌, ◌*◌, ◌/◌, ◌%◌, ◌^◌, List, [], ◌∷◌, Option, none, some, Bool, true, false,
  not, ◌&&◌, bit_and, bit_or, ltb, ◌==◌, if◌then◌else◌, Cmd, pure, ◌>>=◌, ◌>>◌, u8, u16, u32, ◌<<<◌,
  ◌>>>◌,
}

abbrev pub Buffer : Type 0
Buffer = ℕ → ℕ

-- What the processor does with the drive, the latest event first: bytes to and from a port, the
-- packet of a command, a transfer of words into memory, and the flag of the interrupt handler.
pub data Event : Type 0 where
  wrote : (port val : ℕ) → Event
  got : (port val : ℕ) → Event
  sent : (port : ℕ) (bytes : List ℕ) → Event
  received : (port words : ℕ) → Event
  cleared : Event
  looked : (flag : ℕ) → Event

abbrev pub History : Type 0
History = List Event

-- The drive, and the interrupt handler that sets the flag `data_ready`: what a read of a port, of
-- word `k` of a transfer, or of the flag gives after a history.
pub record Drive : Type 0 where
  pub byte : History → (port : ℕ) → ℕ
  pub word : History → (k : ℕ) → ℕ
  pub flag : History → ℕ

-- The static variables of the driver, and the history.
pub record Disc : Type 0 where
  pub io_port : ℕ
  pub ctl_port : ℕ
  pub is_slave : ℕ
  pub history : History

-- The 32 bits of the `int` -1.
abbrev pub minus_one : ℕ
minus_one = 0xFFFFFFFF

abbrev pub cd_sector_size : ℕ
cd_sector_size = 2048

abbrev pub outb : (port val : ℕ) → Cmd Disc (Unit {0})
outb port val s = some (tt, record s { history = wrote (u16 port) (u8 val) ∷ s.history })

-- The 12 bytes in memory are 6 words.
abbrev pub outsw : (port : ℕ) (bytes : List ℕ) → Cmd Disc (Unit {0})
outsw port bytes s = some (tt, record s { history = sent (u16 port) bytes ∷ s.history })

unfoldable pub compare_loop : (i : ℕ) (str : List ℕ) (mem : Buffer) → ℕ
compare_loop i [] mem = 0
compare_loop i (c ∷ cs) mem =
    if c == 0
    then 0
    else if not (c == mem i)
    then i + 1
    else if i == 256
    then i
    else compare_loop (i + 1) cs mem

unfoldable pub compare_str : (str : List ℕ) (mem : Buffer) → ℕ
compare_str str mem = compare_loop 0 str mem

-- A `uint32_t` in memory, the low byte first.
unfoldable pub load32 : Buffer → ℕ → ℕ
load32 buf at = buf at + buf (at + 1) * 2 ^ 8 + buf (at + 2) * 2 ^ 16 + buf (at + 3) * 2 ^ 24

abbrev pub dir_size : ℕ
dir_size = 0x00

abbrev pub dir_ext_loc : ℕ
dir_ext_loc = 0x02

abbrev pub dir_ext_size : ℕ
dir_ext_size = 0x0A

abbrev pub dir_filename : ℕ
dir_filename = 0x21

-- The result and the new value of `*fsize`.
unfoldable pub search_loop :
    (fuel offset fsize : ℕ) (buf : Buffer) (fname : List ℕ) → Option (ℕ × ℕ)
search_loop zero offset fsize buf fname = none
search_loop (suc fuel) offset fsize buf fname =
    let rest = search_loop fuel (u32 (offset + buf (dir_size + offset))) fsize buf fname in
    if buf (dir_size + offset) == 0x00
    then some (0, fsize)
    else if compare_str fname (λ j. buf (dir_filename + offset + j)) == 0
    then some (load32 buf (dir_ext_loc + offset), load32 buf (dir_ext_size + offset))
    else rest

unfoldable pub search_directory : (fuel fsize : ℕ) (buf : Buffer) (fname : List ℕ) → Option (ℕ × ℕ)
search_directory fuel fsize buf fname = search_loop fuel 0 fsize buf fname

unfoldable pub read_cmd : (lba : ℕ) → List ℕ
read_cmd lba =
    0x28
    ∷ 0
    ∷ bit_and (lba >>> 0x18) 0xFF
    ∷ bit_and (lba >>> 0x10) 0xFF
    ∷ bit_and (lba >>> 0x08) 0xFF
    ∷ bit_and (lba >>> 0x00) 0xFF
    ∷ 0
    ∷ 0
    ∷ 1
    ∷ 0
    ∷ 0
    ∷ 0
    ∷ []

module _ (drive : Drive) where
  abbrev pub inb : (port : ℕ) → Cmd Disc ℕ
  inb port s =
      let v = u8 (drive.byte s.history (u16 port)) in
      some (v, record s { history = got (u16 port) v ∷ s.history })

  -- The reads are stored over the start of the buffer.
  abbrev pub insw : (port : ℕ) (buf : Buffer) (count : ℕ) → Cmd Disc Buffer
  insw port buf count s =
      let h = s.history in
      some (
        (λ j.
            if ltb j (2 * count) then drive.word h (j / 2) / 2 ^ (8 * (j % 2)) % 2 ^ 8 else buf j),
        record s { history = received (u16 port) count ∷ h },
      )

  -- A loop that reads a port as long as the value asks for it.
  unfoldable pub poll : (again : ℕ → Bool) (fuel port : ℕ) → Cmd Disc ℕ
  poll again zero port s = none
  poll again (suc fuel) port s =
      (inb port >>= λ sts. if again sts then poll again fuel port else pure sts) s

  -- `while (*data_ready == 0);`
  unfoldable pub wait_flag : (fuel : ℕ) → Cmd Disc (Unit {0})
  wait_flag zero s = none
  wait_flag (suc fuel) s =
      let v = drive.flag s.history in
      let s' : Disc = record s { history = looked v ∷ s.history } in
      let again = wait_flag fuel s' in if v == 0 then again else some (tt, s')

  unfoldable pub four_reads : (port : ℕ) → Cmd Disc (Unit {0})
  four_reads port = do inb port; inb port; inb port; inb port; pure tt

  unfoldable pub cdrom_soft_reset : (fuel : ℕ) → Cmd Disc (Unit {0})
  cdrom_soft_reset fuel s =
      (do
        outb s.ctl_port 0x04
        outb s.ctl_port 0x00
        four_reads s.ctl_port
        poll (λ sts. bit_and sts 0xC0 == 0x80) fuel s.ctl_port
        pure tt)
        s

  unfoldable pub cdrom_init : (fuel disk_io disk_ctl is_slv : ℕ) → Cmd Disc ℕ
  cdrom_init fuel disk_io disk_ctl is_slv s =
      let slave = if not (is_slv == 0) then 1 else 0 in
      (do
        cdrom_soft_reset fuel
        outb (disk_io + 0x06) (bit_or 0xA0 (slave <<< 4))
        four_reads disk_ctl
        sig_low ← inb (disk_io + 0x04)
        sig_high ← inb (disk_io + 0x05)
        pure (if bit_or (sig_high <<< 8) sig_low == 0xEB14 then 0 else minus_one))
        (record s { io_port = disk_io; ctl_port = disk_ctl; is_slave = slave })

  -- The part after the packet has been accepted.
  unfoldable pub transfer : (fuel io_port lba : ℕ) (buf : Buffer) → Cmd Disc (ℕ × Buffer)
  transfer fuel io_port lba buf = do
    outsw io_port (read_cmd lba)
    wait_flag fuel
    high ← inb (io_port + 0x05)
    low ← inb (io_port + 0x04)
    let rd_size = u16 (bit_or (high <<< 8) low)
    buf' ← insw io_port buf (rd_size / 2)
    poll (λ sts. not (bit_and sts 0x88 == 0)) fuel (io_port + 0x07)
    pure (rd_size, buf')

  unfoldable pub cdrom_read_sector : (fuel lba : ℕ) (buf : Buffer) → Cmd Disc (ℕ × Buffer)
  cdrom_read_sector fuel lba buf s =
      let io_port = s.io_port in
      (do
        λ s. some (tt, record s { history = cleared ∷ s.history })
        outb (io_port + 0x06) (s.is_slave <<< 4)
        four_reads s.ctl_port
        outb (io_port + 0x01) 0x00
        outb (io_port + 0x04) (bit_and cd_sector_size 0xFF)
        outb (io_port + 0x05) (cd_sector_size >>> 8)
        outb (io_port + 0x07) 0xA0
        poll (λ sts. not (bit_and sts 0x80 == 0)) fuel (io_port + 0x07)
        sts ← poll (λ sts. bit_and sts 0x8 == 0 && bit_and sts 0x1 == 0) fuel (io_port + 0x07)
        if bit_and sts 0x01 == 0 then transfer fuel io_port lba buf else pure (0, buf))
        s
