-- ===== src/Kernel/Bitmap.antt =====
-- The page allocator, kernel/src/memory/bitmap.c: so far its four functions ignore their arguments
-- and return 0. A pointer argument that a function leaves alone is not returned.
use ziemniak.Base.{ℕ}

-- `struct allocator_api` of kernel/include/memory/mm.h
pub record AllocatorApi : Type 0 where
  pub get_req : (max_addr : ℕ) → ℕ
  pub init : (buf : ℕ) → ℕ
  pub alloc : (buf len : ℕ) → ℕ
  pub free : (buf len : ℕ) → ℕ

abbrev pub bitmap_allocator : AllocatorApi
bitmap_allocator = record { get_req = λ _. 0; init = λ _. 0; alloc = λ _ _. 0; free = λ _ _. 0 }
