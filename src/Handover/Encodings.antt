-- ===== src/Handover/Encodings.antt =====
-- The boot loader and the kernel have code of their own for the same encodings: hexadecimal text, and
-- entries of page tables.
use ziemniak.Base.{ℕ, ◌^◌, ◌<◌, ◌≡◌, ap, sym, ◌∙◌, arith, List, ◌∷◌, length, false}
use ziemniak.Kernel.Debug.{hex}
use ziemniak.Kernel.Debug.Hex.{hex-hex_buf}
use ziemniak.Kernel.Memory.{gen_entry, gen_pml4, gen_pdpe_pde, gen_pte}
use ziemniak.Kernel.Memory.Mmu.{word}
use ziemniak.Stage2.Video.{video_convert_hex}
use ziemniak.Stage2.Video.Hex.{video_convert_hex-digits}
use ziemniak.Stage2.Boot.{gen_pml4e_pdpe_pte, gen_pde}
use ziemniak.Stage2.Boot.Memory.{page_word}

-- `hex` of the kernel leaves `0x` and what `video_convert_hex` of the boot loader leaves, whatever
-- the two static buffers held.
pub video_convert_hex-hex :
    (val : ℕ) (buf kernel_buf : List ℕ)
    → length buf ≡ 17
    → length kernel_buf ≡ 19
    → hex val kernel_buf ≡ b'0' ∷ b'x' ∷ video_convert_hex val buf
video_convert_hex-hex val buf kernel_buf room kernel_room =
    hex-hex_buf val kernel_buf kernel_room
    ∙ ap (λ t. b'0' ∷ b'x' ∷ t) (sym (video_convert_hex-digits val buf room))

-- For an address of 32 bits, the entries that the boot loader writes are, as words, those that the
-- kernel's functions give for the flags present and writable, with the bit for a big page in a page
-- directory exactly if `big` is 1.
pub page_word-word :
    (addr : ℕ)
    → addr < 2 ^ 32
    → (page_word (gen_pml4e_pdpe_pte addr) ≡ word (gen_pml4 addr false 0x03))
      × (page_word (gen_pml4e_pdpe_pte addr) ≡ word (gen_pdpe_pde addr false 0x03))
      × (page_word (gen_pml4e_pdpe_pte addr) ≡ word (gen_pte addr false 0x03))
      × (page_word (gen_pde addr 0) ≡ word (gen_pdpe_pde addr false 0x03))
      × (page_word (gen_pde addr 1) ≡ word (gen_pdpe_pde addr false 0x83))
unfolding page_word word gen_entry gen_pml4 gen_pdpe_pde gen_pte
page_word-word addr small = omega arith
