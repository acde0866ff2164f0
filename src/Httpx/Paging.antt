-- ===== src/Httpx/Paging.antt =====
-- ClampPagination of internal/httpx.
use open_aura.Prelude.{ℕ, ◌≡◌, ◌≤◌, ℤ, pos, negsuc, pos_part, arith}
use open_aura.Httpx.{clamp_pagination}

-- Whatever a client asks for, the limit that is used is between 1 and 100, and the offset that is used
-- is what was asked for, or 0 when that is negative.
pub clamp_pagination-bounds :
    (limit offset : ℤ)
    → (1 ≤ pos_part (clamp_pagination limit offset).0)
      × (pos_part (clamp_pagination limit offset).0 ≤ 100)
      × (clamp_pagination limit offset
          ≡ (pos (pos_part (clamp_pagination limit offset).0), pos (pos_part offset)))
unfolding clamp_pagination
clamp_pagination-bounds (pos n) (pos k) = ground arith
clamp_pagination-bounds (pos n) (negsuc k) = ground arith
clamp_pagination-bounds (negsuc n) (pos k) = ground arith
clamp_pagination-bounds (negsuc n) (negsuc k) = ground arith

-- A limit in the range is used as it is.
pub clamp_pagination_kept :
    (n : ℕ) (offset : ℤ) → 1 ≤ n → n ≤ 100 → (clamp_pagination (pos n) offset).0 ≡ pos n
unfolding clamp_pagination
clamp_pagination_kept n offset h k = ground arith
