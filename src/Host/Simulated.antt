-- ===== src/Host/Simulated.antt =====
-- A host that does what iptables, ipset and the commands are documented to do, on which the
-- development runs its tests. Addresses are their texts, and a subnet contains its own address.
use kube_static_egress_ip.Prelude.{
  ◌≡◌, refl, String, Bool, true, false, some, List, [], ◌∷◌, ◌++◌, ◌==◌, if◌then◌else◌, Bool-cases,
  inl, inr, arith,
}
use kube_static_egress_ip.Effect.{ok, err, iptables_error, M, pure}
use kube_static_egress_ip.Effect.Keeps.{Keeps}
use kube_static_egress_ip.Effect.Edits.{After}
use kube_static_egress_ip.Host.{Host, RuleSpec}
use kube_static_egress_ip.Host.Rules.{Tables, edit, has_rule, without_rule, IptablesLaws}
use kube_static_egress_ip.Host.Sets.{Members, put_members, add_member, IpsetLaws}
use kube_static_egress_ip.Host.History.{History, HistoryLaws, route_list}

pub record World : Type 0 where
  pub rules : Tables
  pub members : Members
  pub commands : List (List String)
  pub routes : String

abbrev same_args : List String → List String → Bool
same_args [] [] = true
same_args (a ∷ l) (b ∷ k) = if a == b then same_args l k else false
same_args _ _ = false

abbrev pub sim_delete : String → String → RuleSpec → M World (Unit {0})
sim_delete t c r w =
    if has_rule r (w.rules t c)
    then (ok tt, record w { rules = edit t c (without_rule r) w.rules })
    else (err (iptables_error 1 "iptables: Bad rule"), w)

abbrev pub simulated : Host World
simulated = record {
  iptables_new = pure tt;
  new_chain = λ t c. pure tt;
  delete_chain = λ t c. pure tt;
  exists = λ t c r w. (ok (has_rule r (w.rules t c)), w);
  insert = λ t c n r w. (ok tt, record w { rules = edit t c (λ l. r ∷ l) w.rules });
  append = λ t c r w. (ok tt, record w { rules = edit t c (λ l. l ++ r ∷ []) w.rules });
  delete = sim_delete;
  IpSet = String;
  ipset_new = λ s k w. (ok s, record w { members = put_members s [] w.members });
  set_add = λ s ip timeout w.
      (ok tt, record w { members = put_members s (add_member ip (w.members s)) w.members });
  set_destroy = λ s. pure tt;
  output = λ args w. (ok (if same_args args route_list then w.routes else ""), w);
  run = λ args w. (ok tt, record w { commands = w.commands ++ args ∷ [] });
  File = String;
  read_file = λ path. pure "";
  write_file = λ path text. pure tt;
  open_append = λ path. pure path;
  write_string = λ f line. pure tt;
  getenv = λ name. pure "node-1";
  hostname = pure "node-1";
  Ip = String;
  Subnet = String;
  parse_ip = λ a. some a;
  parse_cidr = λ a. some (a, a);
  ip_string = λ a. a;
  subnet_contains = λ n a. n == a;
  interfaces = pure (record { index = 2; name = "eth0" } ∷ []);
  addrs = λ i. pure ("100.137.146.100/32" ∷ []);
  Addr = String;
  Link = String;
  route_get = λ ip. pure (2 ∷ []);
  parse_addr = λ a. pure a;
  link_by_name = λ n. pure n;
  encoded_hash = λ s. s;
  addr_add = λ l a. pure tt;
  addr_del = λ l a. pure tt;
}

pub sim_delete_one :
    (t c : String) (r : RuleSpec) (w : World)
    → After
        (λ (v : World). v.rules)
        (λ x. x ≡ w.rules)
        (edit t c (without_rule r) w.rules)
        (sim_delete t c r w)
sim_delete_one t c r w = elim (Bool-cases (has_rule r (w.rules t c))) [
  | inl there ↦ rw there refl
  | inr absent ↦ rw absent refl
]

pub sim_delete-Keeps :
    (t c : String) (r : RuleSpec)
    → Keeps (λ (v : World). let x : History = (v.commands, v.routes) in x) (sim_delete t c r)
sim_delete-Keeps t c r = record { at = λ w. ground arith }

abbrev pub simulated_rules : IptablesLaws simulated
simulated_rules = record {
  rules = λ w. w.rules;
  exists_answers = λ t c r w. refl;
  insert_first = λ t c r w. refl;
  append_last = λ t c r w. refl;
  delete_one = sim_delete_one;
  exists-keeps = λ t c r. record { at = λ w. refl };
  new_chain-keeps = λ t c. record { at = λ w. refl };
  ipset_new-keeps = λ s k. record { at = λ w. refl };
  set_add-keeps = λ s ip timeout. record { at = λ w. refl };
  set_destroy-keeps = λ s. record { at = λ w. refl };
  output-keeps = λ args. record { at = λ w. refl };
  run-keeps = λ args. record { at = λ w. refl };
  read_file-keeps = λ path. record { at = λ w. refl };
  open_append-keeps = λ path. record { at = λ w. refl };
  write_string-keeps = λ f line. record { at = λ w. refl };
  interfaces-keeps = record { at = λ w. refl };
  addrs-keeps = λ i. record { at = λ w. refl };
  route_get-keeps = λ ip. record { at = λ w. refl };
  parse_addr-keeps = λ a. record { at = λ w. refl };
  link_by_name-keeps = λ n. record { at = λ w. refl };
  addr_add-keeps = λ l a. record { at = λ w. refl };
  addr_del-keeps = λ l a. record { at = λ w. refl };
}

abbrev pub simulated_sets : IpsetLaws simulated
simulated_sets = record {
  members = λ w. w.members;
  name_of = λ s. s;
  name-ipset_new = λ s k w. refl;
  ipset_new_empties = λ s k w. refl;
  set_add_adds = λ s ip timeout w. refl;
  exists-keeps = λ t c r. record { at = λ w. refl };
  insert-keeps = λ t c n r. record { at = λ w. refl };
  append-keeps = λ t c r. record { at = λ w. refl };
  output-keeps = λ args. record { at = λ w. refl };
  run-keeps = λ args. record { at = λ w. refl };
}

abbrev pub simulated_history : HistoryLaws simulated
simulated_history = record {
  history = λ w. (w.commands, w.routes);
  run_recorded = λ args w. refl;
  routes_listed = λ w. refl;
  output-keeps = λ args. record { at = λ w. refl };
  exists-keeps = λ t c r. record { at = λ w. refl };
  insert-keeps = λ t c n r. record { at = λ w. refl };
  append-keeps = λ t c r. record { at = λ w. refl };
  delete-keeps = sim_delete-Keeps;
  ipset_new-keeps = λ s k. record { at = λ w. refl };
  set_add-keeps = λ s ip timeout. record { at = λ w. refl };
  set_destroy-keeps = λ s. record { at = λ w. refl };
}
