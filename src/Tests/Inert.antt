-- ===== src/Tests/Inert.antt =====
-- A host and a cluster on which no call changes the world, over any type of worlds. Addresses are
-- their texts.
use kube_static_egress_ip.Prelude.{String, true, none, some, [], ◌==◌, refl}
use kube_static_egress_ip.Effect.Keeps.{Keeps}
use kube_static_egress_ip.Effect.{not_found, pure, fail}
use kube_static_egress_ip.Host.{Host}
use kube_static_egress_ip.Cluster.{Cluster}
use kube_static_egress_ip.Cluster.Calls.{CallsKeep}

abbrev pub inert : {W : Type 0} → Host W
inert = record {
  iptables_new = pure tt;
  new_chain = λ t c. pure tt;
  delete_chain = λ t c. pure tt;
  exists = λ t c r. pure true;
  insert = λ t c n r. pure tt;
  append = λ t c r. pure tt;
  delete = λ t c r. pure tt;
  IpSet = String;
  ipset_new = λ s k. pure s;
  set_add = λ s ip timeout. pure tt;
  set_destroy = λ s. pure tt;
  output = λ args. pure "";
  run = λ args. pure tt;
  File = String;
  read_file = λ path. pure "";
  write_file = λ path text. pure tt;
  open_append = λ path. pure path;
  write_string = λ f line. pure tt;
  getenv = λ name. pure "";
  hostname = pure "worker-2";
  encoded_hash = λ s. s;
  Ip = String;
  Subnet = String;
  parse_ip = λ a. some a;
  parse_cidr = λ a. some (a, a);
  ip_string = λ a. a;
  subnet_contains = λ n a. n == a;
  interfaces = pure [];
  addrs = λ i. pure [];
  Addr = String;
  Link = String;
  route_get = λ ip. pure [];
  parse_addr = λ a. pure a;
  link_by_name = λ n. pure n;
  addr_add = λ l a. pure tt;
  addr_del = λ l a. pure tt;
}

-- The cluster knows no object, and its queue is shut down.
abbrev pub empty_cluster : {W : Type 0} → Cluster W
empty_cluster = record {
  get_node = λ name. fail (not_found name);
  list_nodes = pure [];
  update_egress_ip = λ namespace e. pure tt;
  list_egress_ips = pure [];
  get_egress_ip = λ namespace name. fail (not_found name);
  get_endpoints = λ namespace name. fail (not_found name);
  queue_get = pure none;
  queue_done = λ i. pure tt;
  queue_forget = λ i. pure tt;
  queue_add_rate_limited = λ s. pure tt;
  queue_shut_down = pure tt;
  wait_for_cache_sync = pure true;
  go_worker = pure tt;
  wait_for_stop = pure tt;
  split_key = λ s. some ("default", s);
  key_of = λ e. some e.name;
}

-- Views that no read of the cluster changes are changed by no call.
abbrev pub inert_calls :
    {W V : Type 0} (k : Cluster W) (view : W → V)
    → ((name : String) → Keeps view (k.get_node name))
    → ((namespace name : String) → Keeps view (k.get_egress_ip namespace name))
    → ((namespace name : String) → Keeps view (k.get_endpoints namespace name))
    → CallsKeep inert k view
inert_calls k view node resource endpoints = record {
  exists-keeps = λ t c r. record { at = λ w. refl };
  insert-keeps = λ t c n r. record { at = λ w. refl };
  append-keeps = λ t c r. record { at = λ w. refl };
  delete-keeps = λ t c r. record { at = λ w. refl };
  ipset_new-keeps = λ n s. record { at = λ w. refl };
  set_add-keeps = λ s ip timeout. record { at = λ w. refl };
  set_destroy-keeps = λ s. record { at = λ w. refl };
  output-keeps = λ args. record { at = λ w. refl };
  run-keeps = λ args. record { at = λ w. refl };
  getenv-keeps = λ name. record { at = λ w. refl };
  hostname-keeps = record { at = λ w. refl };
  interfaces-keeps = record { at = λ w. refl };
  addrs-keeps = λ i. record { at = λ w. refl };
  route_get-keeps = λ ip. record { at = λ w. refl };
  parse_addr-keeps = λ a. record { at = λ w. refl };
  link_by_name-keeps = λ n. record { at = λ w. refl };
  addr_add-keeps = λ l a. record { at = λ w. refl };
  addr_del-keeps = λ l a. record { at = λ w. refl };
  get_node-keeps = node;
  get_egress_ip-keeps = resource;
  get_endpoints-keeps = endpoints;
}
