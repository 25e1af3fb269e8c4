-- ===== src/Installer/Window/Dialogs.antt =====
-- `getClipboardText` and `openFileDialog` of sentinel/src/installer/gui_windows.go, on what Windows
-- answers.
use remote_pc_controller.Prelude.{
  ℕ, ◌+◌, Bool, true, false, Option, none, some, List, [], ◌∷◌, ◌++◌, ◌≡◌, refl, ◌==◌,
  if◌then◌else◌, arith,
}
use remote_pc_controller.Prelude.Text.{Text, codes}
use remote_pc_controller.Installer.Window.Controls.{utf16_ptr}

-- The calls of the clipboard's functions; those that may fail tell whether they did their work.
pub data Call : Type 0 where
  open_clipboard : (opened : Bool) → Call
  get_clipboard_data : Call
  global_lock : (locked : Bool) → Call
  global_unlock close_clipboard : Call

-- What a function returns, and its calls in their order, the deferred ones at the end.
pub record Traced : Type 0 where
  pub text : Text
  pub trace : List Call

abbrev deferring : Call → Traced → Traced
deferring c r = record r { trace = r.trace ++ c ∷ [] }

abbrev behind : Call → Traced → Traced
behind c r = record r { trace = c ∷ r.trace }

abbrev nothing : Traced
nothing = record { text = []; trace = [] }

-- getClipboardText from `GlobalLock` on: the pointer, and the text behind it.
read_locked : ℕ → Text → Traced
read_locked ptr text =
    if ptr == 0
    then behind (global_lock false) nothing
    else behind (global_lock true) (deferring global_unlock (record { text = text; trace = [] }))

-- From `GetClipboardData` on.
read_opened : ℕ → ℕ → Text → Traced
unfolding read_locked
read_opened handle ptr text =
    behind get_clipboard_data (if handle == 0 then nothing else read_locked ptr text)

-- getClipboardText, on what its calls return.
unfoldable pub get_clipboard_text : (opens handle ptr : ℕ) → Text → Traced
unfolding read_opened
get_clipboard_text opens handle ptr text =
    if opens == 0
    then behind (open_clipboard false) nothing
    else behind (open_clipboard true) (deferring close_clipboard (read_opened handle ptr text))

-- The clipboard, and the memory of its text, as the program holds them.
pub data Held : Type 0 where
  released opened locked : Held

-- What a call makes of them; `none` is a call that is not allowed.
unfoldable pub step : Call → Held → Option Held
step (open_clipboard false) released = some released
step (open_clipboard true) released = some opened
step get_clipboard_data opened = some opened
step (global_lock false) opened = some opened
step (global_lock true) opened = some locked
step global_unlock locked = some opened
step close_clipboard opened = some released
step c h = none

unfoldable pub run : List Call → Option Held → Option Held
unfolding step
run calls none = none
run [] (some h) = some h
run (c ∷ calls) (some h) = run calls (step c h)

-- On every path of `getClipboardText`, whatever its calls return, the memory of the text is
-- unlocked and the clipboard closed at the end, in this order, and only what was locked or
-- opened.
pub get_clipboard_text-Released :
    (opens handle ptr : ℕ) (text : Text)
    → run ((get_clipboard_text opens handle ptr text).trace) (some released) ≡ some released
unfolding get_clipboard_text run
get_clipboard_text-Released opens handle ptr text = ground arith

-- The options of `openFileDialog` that are set.
pub record FileDialog : Type 0 where
  pub owner : ℕ
  pub filter : Option Text
  pub max_file : ℕ
  pub title : Option Text
  pub flags : ℕ

-- The texts of the filter, with a zero behind each.
abbrev file_filter : Text
file_filter =
    codes "Archivos PEM (*.pem)"
    ++ 0 ∷ codes "*.pem"
    ++ 0 ∷ codes "Archivos de Claves (*.pem;*.pub;*.txt;*.env;*.key)"
    ++ 0 ∷ codes "*.pem;*.pub;*.txt;*.env;*.key"
    ++ 0 ∷ codes "Todos los Archivos (*.*)"
    ++ 0 ∷ codes "*.*"
    ++ 0 ∷ 0 ∷ []

unfoldable pub file_dialog : ℕ → FileDialog
unfolding utf16_ptr
file_dialog owner = record {
  owner = owner;
  filter = utf16_ptr file_filter;
  max_file = 1024;
  title = utf16_ptr (codes "Seleccionar Clave Pública RSA (.pem)");
  flags = 0x1000 + 0x0800;
}

-- openFileDialog: `GetOpenFileNameW` returns a number, and leaves a path in the buffer.
unfoldable pub open_file_dialog : (FileDialog → ℕ × Text) → ℕ → Text
unfolding file_dialog
open_file_dialog get_open_file_name owner =
    let (r, path) = get_open_file_name (file_dialog owner) in if r == 0 then [] else path

-- The dialog has no filter: the text of the filter has zeros, for which there is no pointer.
pub file_dialog-filter : (owner : ℕ) → (file_dialog owner).filter ≡ none
unfolding file_dialog
file_dialog-filter owner = refl
