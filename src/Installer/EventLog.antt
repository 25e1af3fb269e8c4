-- ===== src/Installer/EventLog.antt =====
-- sentinel/src/installer/eventlog.go: the event log as the output of the service's logger. What is
-- written is a list of bytes.
use remote_pc_controller.Prelude.{
  ℕ, Bool, true, false, ◌&&◌, ◌||◌, ◌⊎◌, inl, inr, Option, none, List, [], ◌∷◌, ◌==◌, length,
  if◌then◌else◌,
}
use remote_pc_controller.Prelude.Text.{Text, is_empty}

abbrev is_line_end : ℕ → Bool
is_line_end c = c == 10 || c == 13

-- strings.TrimRight(s, "\r\n")
unfoldable pub without_line_ends : List ℕ → List ℕ
without_line_ends [] = []
without_line_ends (c ∷ s) =
    let rest = without_line_ends s in if is_empty rest && is_line_end c then [] else c ∷ rest

-- EventLogWriter.Write, on the error of `Info`: the length that is returned, the error, and the
-- messages that are logged.
unfoldable pub write : Option Text → List ℕ → ℕ × Option Text × List (List ℕ)
unfolding without_line_ends
write failure text =
    let message = without_line_ends text in
    if is_empty message then (length text, none, []) else (length text, failure, message ∷ [])

-- EventLogWriter.Close, on whether there is a log, and on the error of its `Close`.
unfoldable pub close : Bool → Option Text → Option Text
close true failure = failure
close false failure = none

-- An EventLogWriter, with its log.
pub record Writer (Log : Type 0) : Type 0 where
  pub elog : Log

-- OpenEventLog, on what `eventlog.Open` returns.
unfoldable pub open_event_log : {Log : Type 0} → Log ⊎ Text → Writer Log ⊎ Text
open_event_log (inl elog) = inl (record { elog = elog })
open_event_log (inr e) = inr e
