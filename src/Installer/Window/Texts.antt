-- ===== src/Installer/Window/Texts.antt =====
-- The texts that the handlers of sentinel/src/installer/gui_windows.go show: the lines of the log, the
-- boxes for errors, and a key that was loaded or pasted.
use remote_pc_controller.Prelude.{ℕ, Option, none, some, List, [], ◌∷◌, ◌++◌, if◌then◌else◌}
use remote_pc_controller.Prelude.Decimal.{show}
use remote_pc_controller.Prelude.Int.{pos}
use remote_pc_controller.Prelude.Text.{Text, codes, is_empty, trim_space}
use remote_pc_controller.Installer.Window.KeyText.{
  Extract, panics, found, extract_public_key_from_text,
}
use remote_pc_controller.Installer.Window.Desktop.{Box, Act, boxed}

abbrev pub port_text : ℕ → Text
port_text port = show (pos port)

-- The lines of the log for what a command returned.
unfoldable pub command_line : Text → Text → Option Text → Text
command_line trouble success (some e) = trouble ++ e
command_line trouble success none = success

unfoldable pub installed_line : ℕ → Option Text → Text
unfolding command_line show
installed_line port r =
    command_line (codes "Servicio instalado pero no se pudo iniciar: ")
      (codes "¡Servicio instalado y escuchando en 0.0.0.0:" ++ (port_text port ++ codes "!")) r

unfoldable pub started_line : ℕ → Option Text → Text
unfolding command_line show
started_line port r =
    command_line (codes "Error al iniciar: ")
      (codes "Servicio iniciado correctamente (escuchando en 0.0.0.0:"
        ++ (port_text port ++ codes ")."))
      r

-- The box for an error.
abbrev pub trouble_box : (Text → Box) → Option Text → List Act
trouble_box box (some e) = boxed (box e) ∷ []
trouble_box box none = []

-- The text of a key that was loaded or pasted, on what was extracted from it.
unfoldable pub key_or_all : Text → Extract → Extract
unfolding trim_space
key_or_all text panics = panics
key_or_all text (found t) = found (if is_empty t then trim_space text else t)

unfoldable pub key_text : Text → Extract
unfolding extract_public_key_from_text key_or_all
key_text text = key_or_all text (extract_public_key_from_text text)
