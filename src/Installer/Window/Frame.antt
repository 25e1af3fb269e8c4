-- ===== src/Installer/Window/Frame.antt =====
-- The main window of `LaunchGUI` in sentinel/src/installer/gui_windows.go: its fonts, its style and
-- its place on the screen.
use remote_pc_controller.Prelude.{
  ℕ, ◌+◌, ◌-◌, ◌/◌, ◌%◌, ◌^◌, ◌≤◌, ◌<◌, Bool, true, false, Option, ◌≡◌, ltb, if◌then◌else◌, arith,
}
use remote_pc_controller.Prelude.Int.{ℤ, pos, negsuc, neg, ◌-ℤ◌, ◌+ℤ◌, leb_ℤ, ltb_ℤ}
use remote_pc_controller.Prelude.Text.{Text, codes}
use remote_pc_controller.Installer.Window.Controls.{utf16_ptr}
use remote_pc_controller.Installer.Window.Layout.{Fonts, window_width, window_height}

-- What `CreateFontW` gets.
pub record FontRequest : Type 0 where
  pub size : ℕ
  pub weight : ℕ
  pub name : Option Text

-- createFont
unfoldable pub create_font : (FontRequest → ℕ) → Text → ℕ → Bool → ℕ
unfolding utf16_ptr
create_font create_font_w name size bold =
    create_font_w
      (record { size = size; weight = if bold then 700 else 400; name = utf16_ptr name })

-- The fonts that `LaunchGUI` makes.
unfoldable pub fonts : (FontRequest → ℕ) → Fonts
unfolding create_font
fonts create_font_w = record {
  normal = create_font create_font_w (codes "Segoe UI") 15 false;
  small = create_font create_font_w (codes "Segoe UI") 13 false;
  bold = create_font create_font_w (codes "Segoe UI") 15 true;
  title = create_font create_font_w (codes "Segoe UI") 20 true;
  mono = create_font create_font_w (codes "Consolas") 13 false;
}

-- int32(r), for the number that a call returns.
unfoldable pub to_int32 : ℕ → ℤ
to_int32 r = let n = r % 2 ^ 32 in if ltb n (2 ^ 31) then pos n else negsuc (2 ^ 32 - 1 - n)

-- A difference of two numbers of 32 bits, which wraps around.
unfoldable pub wrap32 : ℤ → ℤ
wrap32 a =
    if leb_ℤ (pos (2 ^ 31)) a
    then a -ℤ pos (2 ^ 32)
    else if ltb_ℤ a (negsuc (2 ^ 31 - 1))
    then a +ℤ pos (2 ^ 32)
    else a

-- Half of a number, rounded towards zero.
unfoldable pub half : ℤ → ℤ
half (pos n) = pos (n / 2)
half (negsuc n) = neg (pos ((n + 1) / 2))

-- What `CreateWindowExW` gets for the main window.
pub record Frame : Type 0 where
  pub style : ℕ
  pub x : ℤ
  pub y : ℤ
  pub width : ℕ
  pub height : ℕ

-- The main window, on what `GetSystemMetrics` returns for the width and the height of the screen;
-- the flags of the style are bits of their own.
unfoldable pub main_frame : ℕ → ℕ → Frame
unfolding to_int32 wrap32 half
main_frame screen_width screen_height = record {
  style = 0x00C00000 + 0x00080000 + 0x00020000 + 0x10000000;
  x = half (wrap32 (to_int32 screen_width -ℤ pos window_width));
  y = half (wrap32 (to_int32 screen_height -ℤ pos window_height));
  width = window_width;
  height = window_height;
}

-- The place of the window along one side of the screen.
placed :
    (screen size : ℕ)
    → screen < 2 ^ 31
    → size ≤ screen
    → half (wrap32 (to_int32 screen -ℤ pos size)) ≡ pos ((screen - size) / 2)
unfolding to_int32 wrap32 half ◌-ℤ◌
placed screen size small fits = ground arith

-- On a screen that is as large as the window, the window is in the middle, and no part of it is
-- outside.
pub main_frame-centred :
    (screen_width screen_height : ℕ)
    → screen_width < 2 ^ 31
    → screen_height < 2 ^ 31
    → window_width ≤ screen_width
    → window_height ≤ screen_height
    → ((main_frame screen_width screen_height).x ≡ pos ((screen_width - window_width) / 2))
      × ((main_frame screen_width screen_height).y ≡ pos ((screen_height - window_height) / 2))
unfolding main_frame
main_frame-centred screen_width screen_height w h w' h' =
    (placed screen_width window_width w w', placed screen_height window_height h h')
