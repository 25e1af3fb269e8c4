-- ===== src/Sentinel/Notify.antt =====
-- sentinel/src/notify/notify_windows.go: the messages on the desktop.
use remote_pc_controller.Prelude.{
  ℕ, ◌+◌, ◌*◌, Bool, false, ◌||◌, Option, none, some, [], ◌∷◌, ◌++◌, ◌==◌, ltb, if◌then◌else◌,
}
use remote_pc_controller.Prelude.Text.{Text, codes}

-- What `WTSSendMessageW` is called with: the session, the texts with their sizes in bytes, and the
-- style; it shows the message for 15 seconds.
pub record Message : Type 0 where
  pub session : ℕ
  pub title : Text
  pub title_size : ℕ
  pub text : Text
  pub text_size : ℕ
  pub style : ℕ

abbrev no_session : ℕ
no_session = 0xFFFFFFFF

-- syscall.UTF16FromString refuses a text with a zero.
unfoldable pub has_zero : Text → Bool
has_zero [] = false
has_zero (c ∷ s) = c == 0 || has_zero s

-- The length of what it returns: a code point behind the basic plane takes two units, and a zero ends
-- the text.
unfoldable pub utf16_length : Text → ℕ
utf16_length [] = 1
utf16_length (c ∷ s) = (if ltb 0xFFFF c then 2 else 1) + utf16_length s

-- sendWTSMessage
unfoldable pub send_wts_message : ℕ → Text → Text → ℕ → Option Message
unfolding has_zero utf16_length
send_wts_message session title text style =
    if session == no_session || has_zero title || has_zero text
    then none
    else some (record {
      session = session;
      title = title;
      title_size = utf16_length title * 2;
      text = text;
      text_size = utf16_length text * 2;
      style = style;
    })

-- windowsNotifier.NotifyValidationFailure, with the session of the console.
unfoldable pub notify_validation_failure : ℕ → Text → Text → Option Message
unfolding send_wts_message
notify_validation_failure session command_id reason =
    send_wts_message session (codes "Sentinel - Solicitud Rechazada")
      (codes "⚠"
        ++ (0xFE0F
            ∷ (codes " Se rechazó una solicitud remota:\n\nMotivo: "
                ++ (reason
                    ++ (codes "\nID de Comando: "
                        ++ (command_id
                            ++ codes
                                "\n\nVerifica que el Relay use la misma clave privada y DEVICE_ID."))))))
      0x00050030

-- windowsNotifier.NotifyActionExecuted
unfoldable pub notify_action_executed : ℕ → Text → Text → Option Message
unfolding send_wts_message
notify_action_executed session action device =
    send_wts_message session (codes "Sentinel - Acción Ejecutada")
      (codes "🚀 Se validó y ejecutó la orden remota:\n\nAcción: "
        ++ (action ++ (codes "\nDispositivo: " ++ device)))
      0x00050040
