-- ===== src/Util/Tests.antt =====
-- Page rounding at concrete addresses.
use librave.Base.{◌+◌, ◌%◌, ◌≤◌, ◌<◌, ◌≡◌, refl, arith}
use librave.Util.{page_down, page_up}
use librave.Util.Pages.{page_up_least, page_down_greatest}

down : page_down 0x12345 ≡ 0x12000
unfolding page_down
down = refl

page_down_greatest_example :
    (page_down 0x12345 % 4096 ≡ 0)
    × (page_down 0x12345 ≤ 0x12345)
    × (0x12345 < page_down 0x12345 + 4096)
page_down_greatest_example = page_down_greatest 0x12345 (omega arith)

page_up_least_example :
    (page_up 0x12345 % 4096 ≡ 0) × (0x12345 ≤ page_up 0x12345) × (page_up 0x12345 < 0x12345 + 4096)
page_up_least_example = page_up_least 0x12345 (omega arith)
