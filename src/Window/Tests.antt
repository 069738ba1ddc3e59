-- ===== src/Window/Tests.antt =====
-- Windows at concrete addresses.
use librave.Base.{◌-◌, ◌^◌, ◌≡◌, refl, false, some, none, arith}
use librave.Window.{Window, window_contains, window_view, window_init}
use librave.Window.Range.{window_view_lem, window_contains_wrapped}
use librave.Errno.{einval}

abbrev text : Window
text = record { orig = 0x1000; data_ptr = 0x7000; length = 0x200 }

abbrev top : Window
top = record { orig = 2 ^ 64 - 0x1000; data_ptr = 0x7000; length = 0x1000 }

view_inside : window_view (some text) 0x1010 (some 0) ≡ (0x7010, some 0x1f0)
unfolding window_view
view_inside = refl

view_null : window_view none 0x1010 (some 3) ≡ (0, some 3)
unfolding window_view
view_null = refl

init_null : window_init none 1 2 3 ≡ (einval, none)
unfolding window_init
init_null = refl

window_view_lem_example : window_view (some text) 0x11ff (some 9) ≡ (0x71ff, some 1)
window_view_lem_example = window_view_lem text 0x11ff 9 (omega arith) (omega arith)

window_contains_wrapped_example : window_contains (some top) (2 ^ 64 - 1) ≡ false
window_contains_wrapped_example =
    window_contains_wrapped top (2 ^ 64 - 1) (omega arith) (omega arith) (omega arith)
