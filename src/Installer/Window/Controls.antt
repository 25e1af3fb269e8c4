-- ===== src/Installer/Window/Controls.antt =====
-- The functions of sentinel/src/installer/gui_windows.go that create a control: a call of
-- `CreateWindowExW`, and messages to the window that it returns, which set its font, the limit of
-- its text, and its mark. The flags of a style are bits of their own, so that their sum is their `|`.
use remote_pc_controller.Prelude.{
  ℕ, ◌+◌, Bool, true, false, Option, none, some, List, [], ◌∷◌, length, ltb, ◌==◌, if◌then◌else◌,
}
use remote_pc_controller.Prelude.Text.{Text, codes}
use remote_pc_controller.Sentinel.Notify.{has_zero}

abbrev ws_visible : ℕ
ws_visible = 0x10000000

abbrev ws_child : ℕ
ws_child = 0x40000000

abbrev ws_tabstop : ℕ
ws_tabstop = 0x00010000

abbrev ws_border : ℕ
ws_border = 0x00800000

abbrev ws_vscroll : ℕ
ws_vscroll = 0x00200000

abbrev ws_ex_clientedge : ℕ
ws_ex_clientedge = 0x00000200

abbrev es_number : ℕ
es_number = 0x2000

abbrev es_multiline : ℕ
es_multiline = 0x0004

abbrev es_autovscroll : ℕ
es_autovscroll = 0x0040

abbrev es_wantreturn : ℕ
es_wantreturn = 0x1000

abbrev bs_pushbutton : ℕ
bs_pushbutton = 0x0000

abbrev bs_autocheckbox : ℕ
bs_autocheckbox = 0x0003

abbrev bs_groupbox : ℕ
bs_groupbox = 0x0007

-- syscall.UTF16PtrFromString without its error: the pointer is nil for a text with a zero.
unfoldable pub utf16_ptr : Text → Option Text
unfolding has_zero
utf16_ptr s = if has_zero s then none else some s

-- A control, as the calls leave it: what `CreateWindowExW` got and returned, and what the messages
-- set.
pub record Control : Type 0 where
  pub handle : ℕ
  pub ex_style : ℕ
  pub class : Text
  pub text : Option Text
  pub style : ℕ
  pub x : ℕ
  pub y : ℕ
  pub w : ℕ
  pub h : ℕ
  pub parent : ℕ
  pub id : ℕ
  pub font : Option ℕ
  pub limit : Option ℕ
  pub checked : Bool
  pub enabled : Bool

-- The controls that were created, the last one first, and the handles that `CreateWindowExW`
-- returns, in their order.
pub record Screen : Type 0 where
  pub handles : ℕ → ℕ
  pub controls : List Control

-- The place of a control.
pub record Place : Type 0 where
  pub left : ℕ
  pub top : ℕ
  pub width : ℕ
  pub height : ℕ

abbrev pub at : ℕ → ℕ → ℕ → ℕ → Place
at x y w h = record { left = x; top = y; width = w; height = h }

-- A font that could not be made is zero, and is not set.
abbrev set_font : ℕ → Option ℕ
set_font font = if font == 0 then none else some font

abbrev set_limit : ℕ → Option ℕ
set_limit max_len = if ltb 0 max_len then some max_len else none

-- CreateWindowExW
create_window :
    (ex_style : ℕ) (class text : Text) (style : ℕ)
    → Place
    → (parent id font : ℕ) → Screen
    → ℕ × Screen
unfolding utf16_ptr
create_window ex_style class text style p parent id font s =
    let handle = s.handles (length s.controls) in
    (
      handle,
      record s {
        controls =
            record {
              handle = handle;
              ex_style = ex_style;
              class = class;
              text = utf16_ptr text;
              style = style;
              x = p.left;
              y = p.top;
              w = p.width;
              h = p.height;
              parent = parent;
              id = id;
              font = set_font font;
              limit = none;
              checked = false;
              enabled = true;
            }
            ∷ s.controls;
      },
    )

unfoldable pub create_label : (parent : ℕ) → Text → Place → (font : ℕ) → Screen → ℕ × Screen
unfolding create_window
create_label parent text p font s =
    create_window 0 (codes "STATIC") text (ws_child + ws_visible) p parent 0 font s

unfoldable pub create_group_box : (parent : ℕ) → Text → Place → (font : ℕ) → Screen → ℕ × Screen
unfolding create_window
create_group_box parent text p font s =
    create_window 0 (codes "BUTTON") text (ws_child + ws_visible + bs_groupbox) p parent 0 font s

unfoldable pub create_edit : (parent : ℕ) → Text → Place → (id font : ℕ) → Screen → ℕ × Screen
unfolding create_window
create_edit parent text p id font s =
    create_window ws_ex_clientedge (codes "EDIT") text
      (ws_child + ws_visible + ws_tabstop + ws_border) p parent id font s

-- A message that limits the text of the control that was created last.
limit_last : ℕ → List Control → List Control
limit_last max_len [] = []
limit_last max_len (c ∷ cs) = record c { limit = set_limit max_len } ∷ cs

unfoldable pub create_numeric_edit :
    (parent : ℕ) → Text → Place → (id font max_len : ℕ) → Screen → ℕ × Screen
unfolding create_window limit_last
create_numeric_edit parent text p id font max_len s =
    let (handle, s') =
      create_window ws_ex_clientedge (codes "EDIT") text
        (ws_child + ws_visible + ws_tabstop + ws_border + es_number) p parent id font s in
    (handle, record s' { controls = limit_last max_len s'.controls })

unfoldable pub create_multiline_edit :
    (parent : ℕ) → Text → Place → (id font : ℕ) → Screen → ℕ × Screen
unfolding create_window
create_multiline_edit parent text p id font s =
    create_window ws_ex_clientedge (codes "EDIT") text
      (ws_child + ws_visible + ws_tabstop + ws_border + ws_vscroll + es_multiline + es_autovscroll
        + es_wantreturn)
      p parent id font s

unfoldable pub create_button : (parent : ℕ) → Text → Place → (id font : ℕ) → Screen → ℕ × Screen
unfolding create_window
create_button parent text p id font s =
    create_window 0 (codes "BUTTON") text (ws_child + ws_visible + ws_tabstop + bs_pushbutton) p
      parent id font s

-- A message that marks the check box that was created last.
check_last : Bool → List Control → List Control
check_last checked [] = []
check_last checked (c ∷ cs) = record c { checked = checked } ∷ cs

unfoldable pub create_check_box :
    (parent : ℕ) → Text → Place → (id font : ℕ) → Bool → Screen → ℕ × Screen
unfolding create_window check_last
create_check_box parent text p id font checked s =
    let (handle, s') =
      create_window 0 (codes "BUTTON") text (ws_child + ws_visible + ws_tabstop + bs_autocheckbox) p
        parent id font s in
    (handle, record s' { controls = check_last checked s'.controls })
