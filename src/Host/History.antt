-- ===== src/Host/History.antt =====
-- The commands that a host has been told to run, and the routes that it lists, as a view of its
-- world: exec.Command(...).Run() is recorded whether it fails or not, `ip route list` answers with
-- the listing, and no other call runs a command or changes a route.
use kube_static_egress_ip.Prelude.{◌≡◌, ℕ, String, List, [], ◌∷◌, ◌++◌}
use kube_static_egress_ip.Effect.{ok}
use kube_static_egress_ip.Effect.Keeps.{Keeps}
use kube_static_egress_ip.Host.{Host, RuleSpec}

-- The commands so far, and the output of `ip route list` for the custom table.
abbrev pub History : Type 0
History = List (List String) × String

abbrev pub route_list : List String
route_list = "ip" ∷ "route" ∷ "list" ∷ "table" ∷ "kube-static-egress-ip" ∷ []

module _ {W : Type 0} (h : Host W) where
  open h use {IpSet, exists, insert, append, delete, ipset_new, set_add, set_destroy, output, run}

  pub record HistoryLaws : Type 0 where
    pub history : W → History
    pub run_recorded :
        (args : List String) (w : W) → (history (run args w).1).0 ≡ (history w).0 ++ args ∷ []
    pub routes_listed : (w : W) → (output route_list w).0 ≡ ok (history w).1
    pub output-keeps : (args : List String) → Keeps history (output args)
    pub exists-keeps : (t c : String) (r : RuleSpec) → Keeps history (exists t c r)
    pub insert-keeps : (t c : String) (n : ℕ) (r : RuleSpec) → Keeps history (insert t c n r)
    pub append-keeps : (t c : String) (r : RuleSpec) → Keeps history (append t c r)
    pub delete-keeps : (t c : String) (r : RuleSpec) → Keeps history (delete t c r)
    pub ipset_new-keeps : (n k : String) → Keeps history (ipset_new n k)
    pub set_add-keeps :
        (s : IpSet) (ip : String) (timeout : ℕ) → Keeps history (set_add s ip timeout)
    pub set_destroy-keeps : (s : IpSet) → Keeps history (set_destroy s)
