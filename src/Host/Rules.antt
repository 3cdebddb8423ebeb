-- ===== src/Host/Rules.antt =====
-- The iptables rules of a host, as a view of its world, and what the documentation of iptables says
-- of each call: `-C` finds a rule, `-I` and `-A` add one, `-D` deletes the first that matches, a
-- call that fails changes no rule, and neither does a call to anything but iptables.
use kube_static_egress_ip.Prelude.{
  ◌≡◌, ℕ, String, Bool, true, false, ◌&&◌, List, [], ◌∷◌, ◌++◌, if◌then◌else◌, ◌==◌,
}
use kube_static_egress_ip.Effect.Keeps.{Keeps}
use kube_static_egress_ip.Effect.Edits.{After, Returns}
use kube_static_egress_ip.Host.{Host, RuleSpec, Interface}

-- The rules of each chain of each table.
abbrev pub Tables : Type 0
Tables = String → String → List RuleSpec

abbrev pub same_spec : RuleSpec → RuleSpec → Bool
same_spec [] [] = true
same_spec (a ∷ r) (b ∷ s) = a == b && same_spec r s
same_spec _ _ = false

abbrev pub has_rule : RuleSpec → List RuleSpec → Bool
has_rule r [] = false
has_rule r (s ∷ l) = if same_spec r s then true else has_rule r l

-- iptables -D
abbrev pub without_rule : RuleSpec → List RuleSpec → List RuleSpec
without_rule r [] = []
without_rule r (s ∷ l) = if same_spec r s then l else s ∷ without_rule r l

-- One chain changes.
unfoldable pub edit : String → String → (List RuleSpec → List RuleSpec) → Tables → Tables
edit t c f tables t' c' = if t == t' && c == c' then f (tables t' c') else tables t' c'

module _ {W : Type 0} (h : Host W) where
  open h use {
    IpSet, File, Ip, Addr, Link, new_chain, delete_chain, exists, insert, append, delete, ipset_new,
    set_add, set_destroy, output, run, read_file, write_file, open_append, write_string, getenv,
    hostname, interfaces, addrs, route_get, parse_addr, link_by_name, addr_add, addr_del,
  }

  pub record IptablesLaws : Type 0 where
    pub rules : W → Tables
    pub exists_answers :
        (t c : String) (r : RuleSpec) (w : W)
        → Returns (λ b. b ≡ has_rule r (rules w t c)) (exists t c r w).0
    pub insert_first :
        (t c : String) (r : RuleSpec) (w : W)
        → After rules (λ x. x ≡ rules w) (edit t c (λ l. r ∷ l) (rules w)) (insert t c 1 r w)
    pub append_last :
        (t c : String) (r : RuleSpec) (w : W)
        → After rules (λ x. x ≡ rules w) (edit t c (λ l. l ++ r ∷ []) (rules w)) (append t c r w)
    pub delete_one :
        (t c : String) (r : RuleSpec) (w : W)
        → After rules (λ x. x ≡ rules w) (edit t c (without_rule r) (rules w)) (delete t c r w)
    pub exists-keeps : (t c : String) (r : RuleSpec) → Keeps rules (exists t c r)
    pub new_chain-keeps : (t c : String) → Keeps rules (new_chain t c)
    pub ipset_new-keeps : (n k : String) → Keeps rules (ipset_new n k)
    pub set_add-keeps : (s : IpSet) (ip : String) (timeout : ℕ) → Keeps rules (set_add s ip timeout)
    pub set_destroy-keeps : (s : IpSet) → Keeps rules (set_destroy s)
    pub output-keeps : (args : List String) → Keeps rules (output args)
    pub run-keeps : (args : List String) → Keeps rules (run args)
    pub read_file-keeps : (path : String) → Keeps rules (read_file path)
    pub open_append-keeps : (path : String) → Keeps rules (open_append path)
    pub write_string-keeps : (f : File) (line : String) → Keeps rules (write_string f line)
    pub interfaces-keeps : Keeps rules interfaces
    pub addrs-keeps : (i : Interface) → Keeps rules (addrs i)
    pub route_get-keeps : (ip : Ip) → Keeps rules (route_get ip)
    pub parse_addr-keeps : (a : String) → Keeps rules (parse_addr a)
    pub link_by_name-keeps : (n : String) → Keeps rules (link_by_name n)
    pub addr_add-keeps : (l : Link) (a : Addr) → Keeps rules (addr_add l a)
    pub addr_del-keeps : (l : Link) (a : Addr) → Keeps rules (addr_del l a)
