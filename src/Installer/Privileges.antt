-- ===== src/Installer/Privileges.antt =====
-- `isAdmin` of sentinel/src/installer/installer.go, and `IsLaunchedFromExplorer` and `ElevateSelf` of
-- sentinel/src/installer/uac_windows.go.
use remote_pc_controller.Prelude.{
  ℕ, ◌%◌, ◌^◌, Bool, true, false, Option, none, some, List, [], ◌∷◌, ◌++◌, ◌⊎◌, inl, inr, ◌==◌,
  if◌then◌else◌,
}
use remote_pc_controller.Prelude.Text.{Text, codes}
use remote_pc_controller.Sentinel.Notify.{has_zero}

-- isAdmin, on whether the identifier of the administrators was made, and what `IsMember` answers: an
-- error, or whether the process belongs to them.
unfoldable pub is_admin : Bool → Option Bool → Bool
is_admin false member = false
is_admin true none = false
is_admin true (some member) = member

-- A process of the snapshot: its number, and the name of its file.
pub record Process : Type 0 where
  pub process_id : ℕ
  pub exe_file : Text

module _ (equal_fold : Text → Text → Bool) where
  -- The search for the parent in the snapshot.
  find_parent : ℕ → List Process → Bool
  find_parent parent [] = false
  find_parent parent (p ∷ processes) =
      let later = find_parent parent processes in
      if p.process_id == parent % 2 ^ 32
      then equal_fold p.exe_file (codes "explorer.exe")
      else later

  -- IsLaunchedFromExplorer, on the number of the parent process, which is 0 for none, and on the
  -- processes up to the first error; `equal_fold` is strings.EqualFold.
  unfoldable pub is_launched_from_explorer : ℕ → Option (List Process) → Bool
  unfolding find_parent
  is_launched_from_explorer parent none = false
  is_launched_from_explorer parent (some processes) =
      if parent == 0 then false else find_parent parent processes

-- strings.Join(args, " ")
unfoldable pub join : List Text → Text
join [] = []
join (arg ∷ []) = arg
join (arg ∷ next ∷ args) = arg ++ (b' ' ∷ join (next ∷ args))

-- What `ElevateSelf` comes to: an error, or the end of the process.
pub data Elevation : Type 0 where
  fails : Text → Elevation
  exits : Elevation

abbrev invalid_text : Text
invalid_text = codes "invalid argument"

shell : Option Text → Elevation
shell (some e) = fails (codes "ShellExecute runas: " ++ e)
shell none = exits

-- ElevateSelf, on the path of the executable, or the error for it, and on the error of
-- `ShellExecute`: a text with a zero is refused.
unfoldable pub elevate_self : Text ⊎ Text → Option Text → List Text → Elevation
unfolding has_zero join shell
elevate_self (inl e) executed args = fails (codes "resolve executable: " ++ e)
elevate_self (inr exe) executed args =
    if has_zero exe
    then fails invalid_text
    else if has_zero (join args)
    then fails invalid_text
    else shell executed

-- Where the program's output goes.
pub data Stream : Type 0 where
  own parent_console : Stream

pub record Outputs : Type 0 where
  pub stdout : Stream
  pub stderr : Stream

-- AttachConsoleIfCLI, on what `AttachConsole` returns, and whether the console's output opens.
unfoldable pub attach_console_if_cli : ℕ → Bool → Outputs → Outputs
attach_console_if_cli attached opens outputs =
    if attached == 0
    then outputs
    else if opens
    then record { stdout = parent_console; stderr = parent_console }
    else outputs
