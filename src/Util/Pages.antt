-- ===== src/Util/Pages.antt =====
-- Page rounding as arithmetic.
use librave.Base.{ℕ, ◌+◌, ◌*◌, ◌/◌, ◌%◌, ◌^◌, ◌≤◌, ◌<◌, ◌≡◌, refl, arith}
use librave.Base.Masks.{bit_and_page_mask}
use librave.Util.{page_down, page_up}

pub page_down_lem : (a : ℕ) → a < 2 ^ 64 → page_down a ≡ a / 4096 * 4096
unfolding page_down
page_down_lem a h = bit_and_page_mask a h

-- `PAGE_DOWN` is the greatest multiple of the page size that is not above the address: it is a
-- multiple, and the address lies less than a page above it.
pub page_down_greatest :
    (a : ℕ) → a < 2 ^ 64 → (page_down a % 4096 ≡ 0) × (page_down a ≤ a) × (a < page_down a + 4096)
page_down_greatest a h = omega (arith, page_down_lem a h)

page_up-page_down : (a : ℕ) → page_up a ≡ page_down ((a + 4095) % 2 ^ 64)
unfolding page_up
page_up-page_down a = refl

-- For every address that is at least a page below the end of the address space, `PAGE_UP` is the
-- least multiple of the page size that is not below it: it is a multiple, and lies less than a page
-- above the address.
pub page_up_least :
    (a : ℕ) → a + 4095 < 2 ^ 64 → (page_up a % 4096 ≡ 0) × (a ≤ page_up a) × (page_up a < a + 4096)
page_up_least a h =
    omega (arith, page_up-page_down a, page_down_lem ((a + 4095) % 2 ^ 64) (omega arith))

-- Within a page of the end of the address space `PAGE_UP` wraps to zero.
pub page_up_wraps : (a : ℕ) → a < 2 ^ 64 → 2 ^ 64 ≤ a + 4095 → page_up a ≡ 0
page_up_wraps a h g =
    omega (arith, page_up-page_down a, page_down_lem ((a + 4095) % 2 ^ 64) (omega arith))
