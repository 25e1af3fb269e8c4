-- ===== src/Installer/Signals.antt =====
-- When `start`, `stop` and `install` of sentinel/src/installer/installer.go send their signals.
use remote_pc_controller.Prelude.{
  true, false, none, some, List, [], ◌∷◌, ◌++◌, ◌≡◌, ◌≢◌, ◌↔◌, ◌⊎◌, inl, inr, refl, if◌then◌else◌,
  Option-cases, arith,
}
use remote_pc_controller.Installer.{
  Answer, state, failed, Effect, stop_signal, start_signal, delete_service, Machine, running,
  stopped, connected, start_opened, stop_opened, is_state, replaced, start, stop,
}
use remote_pc_controller.Installer.Waiting.{IsOpened}

-- The query tells a state, and it is not the stopped one.
abbrev pub IsUp : Answer → Type 0
IsUp (state s) = s ≢ stopped
IsUp (failed e) = true ≡ false

-- The service can be opened, is in a state that is not the stopped one, and takes the signal.
abbrev pub TakesStop : Machine → Type 0
TakesStop m = IsOpened m × IsUp m.query × (m.control ≡ none)

-- The service can be opened, does not run, and takes the signal.
abbrev pub TakesStart : Machine → Type 0
TakesStart m = IsOpened m × (m.query ≢ state running) × (m.start_service ≡ none)

-- The list has the signal alone if the property holds, and else nothing.
abbrev pub IsSignal : Type 0 → Effect → List Effect → Type 0
IsSignal P e es = ((es ≡ []) ⊎ (es ≡ e ∷ [])) × ((es ≡ e ∷ []) ↔ P)

stop_opened-IsSignal :
    (m : Machine) (q : Answer)
    → IsSignal (IsUp q × (m.control ≡ none)) stop_signal (stop_opened m q).1
unfolding stop_opened
stop_opened-IsSignal m (failed e) = (inl refl, (λ h. cc, λ h. cc (h.0)))
stop_opened-IsSignal m (state s) =
    (ground arith, (λ h. (ground arith, ground arith), λ h. ground (arith, h.0, h.1)))

pub start-IsSignal : (m : Machine) → IsSignal (TakesStart m) start_signal (start m).1
unfolding start connected start_opened
start-IsSignal m = (ground arith, (λ h. ground arith, λ h. ground arith))

pub stop-IsSignal : (m : Machine) → IsSignal (TakesStop m) stop_signal (stop m).1
unfolding stop connected
stop-IsSignal m =
    let opened = stop_opened-IsSignal m m.query in
    (ground (arith, opened.0), (λ h. ground (arith, opened.1.0), λ h. ground (arith, opened.1.1)))

-- An old service is there, does not say that it is stopped, and takes the signal.
abbrev pub OldTakesStop : Machine → Type 0
OldTakesStop m = (m.open_service ≡ none) × (m.query ≢ state stopped) × (m.control ≡ none)

-- An old service is there, and is deleted.
abbrev pub OldIsDeleted : Machine → Type 0
OldIsDeleted m = (m.open_service ≡ none) × (m.delete ≡ none)

-- The effects of `install` on an old service: the signal to stop, then the deletion, each exactly if
-- it succeeds.
pub record IsReplacing (m : Machine) (es : List Effect) : Type 0 where
  pub stops : List Effect
  pub deletes : List Effect
  pub in_order : es ≡ stops ++ deletes
  pub stops_if_taken : IsSignal (OldTakesStop m) stop_signal stops
  pub deletes_if_made : IsSignal (OldIsDeleted m) delete_service deletes

old_stop : Machine → List Effect
old_stop m =
    if is_state stopped m.query
    then []
    else elim m.control [ some e ↦ [] | none ↦ stop_signal ∷ [] ]

old_delete : Machine → List Effect
old_delete m = elim m.delete [ some e ↦ [] | none ↦ delete_service ∷ [] ]

pub replaced-IsReplacing : (m : Machine) → IsReplacing m (replaced m)
unfolding replaced old_stop old_delete
replaced-IsReplacing m = elim (Option-cases m.open_service) [
  | inr (e, absent) ↦ record {
    stops = [];
    deletes = [];
    in_order = rw absent refl;
    stops_if_taken = (inl refl, (λ h. cc, λ h. cc (h.0)));
    deletes_if_made = (inl refl, (λ h. cc, λ h. cc (h.0)));
  }
  | inl here ↦ record {
    stops = old_stop m;
    deletes = old_delete m;
    in_order = rw here refl;
    stops_if_taken = (ground arith, (λ h. ground arith, λ h. ground arith));
    deletes_if_made = (ground arith, (λ h. ground arith, λ h. ground arith));
  }
]
