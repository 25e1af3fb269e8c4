-- ===== src/Installer/Firewall.antt =====
-- `AddFirewallRule` and `RemoveFirewallRule` of sentinel/src/installer/firewall_windows.go: the
-- arguments of their calls of `netsh`.
use mathlib.Core.List.{append_cancel_left}
use remote_pc_controller.Prelude.{
  Option, none, some, List, [], ◌∷◌, ◌++◌, ◌≡◌, ◌↔◌, refl, ap, ℕ, zero, suc, ◌≤◌, arith,
}
use remote_pc_controller.Prelude.Decimal.{show}
use remote_pc_controller.Prelude.Decimal.RoundTrip.{show-injective}
use remote_pc_controller.Prelude.Int.{pos}
use remote_pc_controller.Prelude.Text.{Text, codes}

abbrev pub firewall_rule_name : Text
firewall_rule_name = codes "Remote PC Controller - Sentinel"

abbrev name_argument : Text
name_argument = codes "name=" ++ firewall_rule_name

-- The arguments of a call, behind the program's name.
abbrev pub Arguments : Type 0
Arguments = List Text

unfoldable pub delete_arguments : Arguments
delete_arguments =
    codes "advfirewall" ∷ codes "firewall" ∷ codes "delete" ∷ codes "rule" ∷ name_argument ∷ []

unfoldable pub add_arguments : ℕ → Text → Arguments
unfolding show
add_arguments port exe_path =
    codes "advfirewall"
    ∷ codes "firewall"
    ∷ codes "add"
    ∷ codes "rule"
    ∷ name_argument
    ∷ codes "dir=in"
    ∷ codes "action=allow"
    ∷ codes "protocol=TCP"
    ∷ (codes "localport=" ++ show (pos port))
    ∷ (codes "program=" ++ exe_path)
    ∷ (codes
          "description=Permite conexiones entrantes al agente Sentinel de Remote PC Controller en el puerto "
        ++ show (pos port))
    ∷ []

-- RemoveFirewallRule: the call; the error is dropped.
unfoldable pub remove_firewall_rule : List Arguments
unfolding delete_arguments
remove_firewall_rule = delete_arguments ∷ []

-- The error of the call that adds the rule, on its output.
added : Text → Option Text → Option Text
added output none = none
added output (some e) = some (codes "netsh firewall add rule (" ++ (e ++ (codes "): " ++ output)))

-- AddFirewallRule, on the output and the error of its second call: the error, and the calls in their
-- order.
unfoldable pub add_firewall_rule : Text → Option Text → ℕ → Text → Option Text × List Arguments
unfolding remove_firewall_rule add_arguments added
add_firewall_rule output failure port exe_path =
    (added output failure, remove_firewall_rule ++ add_arguments port exe_path ∷ [])

-- The error is that of the second call alone.
pub add_firewall_rule_iff :
    (output : Text) (failure : Option Text) (port : ℕ) (exe_path : Text)
    → ((add_firewall_rule output failure port exe_path).0 ≡ none) ↔ (failure ≡ none)
unfolding add_firewall_rule added
add_firewall_rule_iff output none port exe_path = (λ h. refl, λ h. refl)
add_firewall_rule_iff output (some e) port exe_path = (λ h. cc, λ h. cc)

nth : ℕ → Arguments → Text
nth n [] = []
nth zero (a ∷ as') = a
nth (suc n) (a ∷ as') = nth n as'

pos-injective : {m n : ℕ} → pos m ≡ pos n → m ≡ n
pos-injective h = cc

-- The call that adds a rule determines its port, which is one, and the program.
pub add_arguments-injective :
    (p q : ℕ) (exe exe' : Text)
    → p ≤ 65535
    → q ≤ 65535
    → add_arguments p exe ≡ add_arguments q exe'
    → (p ≡ q) × (exe ≡ exe')
unfolding add_arguments nth
add_arguments-injective p q exe exe' small small' h = (
  pos-injective (
      show-injective (pos p) (pos q) (omega arith, omega arith) (omega arith, omega arith)
        (append_cancel_left (codes "localport=") _ _ (ap (nth 8) h))),
  append_cancel_left (codes "program=") exe exe' (ap (nth 9) h),
)
