-- ===== src/PageAllocator/Tests.antt =====
-- mp/g/LowestLevelAllocator.h: the laws of alignment, page access and areas at pages of 4096 bytes.
use garbage.Prelude.{ℕ, Bool, true}
use garbage.PageAllocator.{AreaHeader}

abbrev one_page : AreaHeader
one_page = record { begin = 4096; end = 8192; max_pages_for_extend = 4 }

abbrev every_reservation : ℕ → ℕ → Bool
every_reservation e size = true
