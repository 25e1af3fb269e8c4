-- ===== src/Sentinel/Saving.antt =====
-- `DefaultValues`, `Save` and `LoadWithDefaults` of sentinel/src/config/config.go: the `.env` file
-- that the installer writes.
pub mod Keeping
pub mod RoundTrip
use remote_pc_controller.Prelude.{
  ℕ, Bool, true, false, Option, none, some, List, [], ◌∷◌, ◌++◌, ◌==◌, if◌then◌else◌,
}
use remote_pc_controller.Prelude.Dict.{Dict, insert}
use remote_pc_controller.Prelude.Text.{Text, codes, is_empty, trim_space}
use remote_pc_controller.Errors.{Error, Result, ok, err, kind}
use remote_pc_controller.DotEnv.{
  ConfigError, newline, carriage_return, double_quote, backslash, get, read_dot_env,
}

-- What `os.Hostname` returns: its error counts as an empty name, as in the source.
abbrev pub host_name : Option Text → Text
host_name none = []
host_name (some h) = h

-- DefaultValues
unfoldable pub default_values : Option Text → Dict Text
default_values host =
    (codes "PORT", codes "9876")
    ∷ (
      codes "DEVICE_ID",
      if is_empty (host_name host) then codes "sentinel-device" else host_name host,
    )
    ∷ (codes "CLOCK_SKEW_SECONDS", codes "5")
    ∷ (codes "MAX_BODY_BYTES", codes "65536")
    ∷ (codes "PUBLIC_KEY", [])
    ∷ (codes "ENABLE_NOTIFICATIONS", codes "true")
    ∷ []

-- valueOr
unfoldable pub value_or : Text → Text → Text
unfolding trim_space
value_or v fallback = if is_empty (trim_space v) then fallback else trim_space v

-- strings.ReplaceAll(s, "\r", "")
unfoldable pub without_returns : Text → Text
without_returns [] = []
without_returns (c ∷ s) =
    let rest = without_returns s in if c == carriage_return then rest else c ∷ rest

-- strings.ReplaceAll(s, "\n", `\n`)
unfoldable pub escape_newlines : Text → Text
escape_newlines [] = []
escape_newlines (c ∷ s) =
    let rest = escape_newlines s in if c == newline then backslash ∷ b'n' ∷ rest else c ∷ rest

-- The key that is written, before its ends of lines are escaped.
unfoldable pub clean_key : Text → Text
unfolding without_returns trim_space
clean_key key = without_returns (trim_space key)

-- The device that is written.
unfoldable pub saved_device : Option Text → Dict Text → Text
unfolding get value_or
saved_device host values =
    let device = get (codes "DEVICE_ID") values in
    if is_empty device then value_or (host_name host) (codes "sentinel-device") else device

-- The value that is written for one of the other keys.
unfoldable pub saved_value : Text → Text → Dict Text → Text
unfolding get value_or
saved_value key fallback values = value_or (get key values) fallback

-- A line of the file.
abbrev line : Text → Text → Text
line l rest = l ++ newline ∷ rest

-- The comments in the file.
abbrev rule : Text
rule = codes "# =========================================="

abbrev title : Text
title = codes "# Configuración del Agente Sentinel (.env)"

abbrev port_comment : Text
port_comment = codes "# Puerto de escucha del agente en la PC Windows"

abbrev device_comment : Text
device_comment = codes "# Identificador único de este dispositivo (debe coincidir con el Relay)"

abbrev key_comment : Text
key_comment =
    codes "# Clave pública RSA en formato PEM (una línea con \\n o multilinea entre comillas)"

abbrev skew_comment : Text
skew_comment = codes "# Tolerancia máxima para desajustes de reloj en segundos"

abbrev body_comment : Text
body_comment = codes "# Tamaño máximo permitido para el cuerpo de la petición en bytes"

abbrev notification_comment : Text
notification_comment =
    codes "# Habilitar notificaciones en el escritorio de Windows para validaciones y eventos"

-- The text that `Save` writes.
unfoldable pub save_text : Option Text → Dict Text → Text
unfolding saved_device saved_value clean_key escape_newlines get
save_text host values = line rule (
    line title (
      line rule (
        line [] (
          line port_comment (
            line (codes "PORT=" ++ saved_value (codes "PORT") (codes "9876") values) (
              line [] (
                line device_comment (
                  line (codes "DEVICE_ID=" ++ saved_device host values) (
                    line [] (
                      line key_comment (
                        line
                          (codes "PUBLIC_KEY=\""
                            ++ (escape_newlines (clean_key (get (codes "PUBLIC_KEY") values))
                                ++ double_quote ∷ []))
                          (line [] (
                            line skew_comment (
                              line
                                (codes "CLOCK_SKEW_SECONDS="
                                  ++ saved_value (codes "CLOCK_SKEW_SECONDS") (codes "5") values)
                                (line [] (
                                  line body_comment (
                                    line
                                      (codes "MAX_BODY_BYTES="
                                        ++ saved_value (codes "MAX_BODY_BYTES") (codes "65536")
                                            values)
                                      (line [] (
                                        line notification_comment (
                                          line
                                            (codes "ENABLE_NOTIFICATIONS="
                                              ++ saved_value (codes "ENABLE_NOTIFICATIONS")
                                                  (codes "true") values)
                                            []))))))))))))))))))))

-- Save, on the error of `os.WriteFile`: what the file holds afterwards is known without one.
unfoldable pub save :
    Option Text → Option (Error ConfigError) → Dict Text → Option (Error ConfigError) × Option Text
unfolding save_text
save host (some e) values = (some e, none)
save host none values = (none, some (save_text host values))

-- The loop of `LoadWithDefaults`. The keys of a map differ, so its order does not matter.
unfoldable pub merge : Dict Text → Dict Text → Dict Text
unfolding insert
merge defaults [] = defaults
merge defaults ((k, v) ∷ values) =
    merge (if is_empty v then defaults else insert k v defaults) values

with_defaults : Dict Text → Result ConfigError (Dict Text) → Result ConfigError (Dict Text)
unfolding merge
with_defaults defaults (ok values) = ok (merge defaults values)
with_defaults defaults (err e) = elim (kind e) [
  | some ConfigError.not_exist ↦ ok defaults
  | some ConfigError.panic ↦ err e
  | none ↦ err e
]

-- LoadWithDefaults, on what `os.Hostname` and `os.ReadFile` return.
unfoldable pub load_with_defaults :
    Option Text → Text → Result ConfigError Text → Result ConfigError (Dict Text)
unfolding with_defaults default_values read_dot_env
load_with_defaults host path file = with_defaults (default_values host) (read_dot_env path file)
