-- ===== src/Cluster/Calls.antt =====
-- Views of the world that no call to the host changes, and none to the cluster but those to the
-- work queue.
use kube_static_egress_ip.Prelude.{ℕ, String, List}
use kube_static_egress_ip.Effect.Keeps.{Keeps}
use kube_static_egress_ip.Host.{Host, RuleSpec, Interface}
use kube_static_egress_ip.Cluster.{Cluster}

module _ {W V : Type 0} (h : Host W) (k : Cluster W) (view : W → V) where
  open h use {
    IpSet, File, Ip, Addr, Link, exists, insert, append, delete, ipset_new, set_add, set_destroy,
    output, run, getenv, hostname, interfaces, addrs, route_get, parse_addr, link_by_name, addr_add,
    addr_del,
  }
  open k use {get_node, get_egress_ip, get_endpoints}

  pub record CallsKeep : Type 0 where
    pub exists-keeps : (t c : String) (r : RuleSpec) → Keeps view (exists t c r)
    pub insert-keeps : (t c : String) (n : ℕ) (r : RuleSpec) → Keeps view (insert t c n r)
    pub append-keeps : (t c : String) (r : RuleSpec) → Keeps view (append t c r)
    pub delete-keeps : (t c : String) (r : RuleSpec) → Keeps view (delete t c r)
    pub ipset_new-keeps : (n k : String) → Keeps view (ipset_new n k)
    pub set_add-keeps : (s : IpSet) (ip : String) (timeout : ℕ) → Keeps view (set_add s ip timeout)
    pub set_destroy-keeps : (s : IpSet) → Keeps view (set_destroy s)
    pub output-keeps : (args : List String) → Keeps view (output args)
    pub run-keeps : (args : List String) → Keeps view (run args)
    pub getenv-keeps : (name : String) → Keeps view (getenv name)
    pub hostname-keeps : Keeps view hostname
    pub interfaces-keeps : Keeps view interfaces
    pub addrs-keeps : (i : Interface) → Keeps view (addrs i)
    pub route_get-keeps : (ip : Ip) → Keeps view (route_get ip)
    pub parse_addr-keeps : (a : String) → Keeps view (parse_addr a)
    pub link_by_name-keeps : (n : String) → Keeps view (link_by_name n)
    pub addr_add-keeps : (l : Link) (a : Addr) → Keeps view (addr_add l a)
    pub addr_del-keeps : (l : Link) (a : Addr) → Keeps view (addr_del l a)
    pub get_node-keeps : (name : String) → Keeps view (get_node name)
    pub get_egress_ip-keeps : (namespace name : String) → Keeps view (get_egress_ip namespace name)
    pub get_endpoints-keeps : (namespace name : String) → Keeps view (get_endpoints namespace name)

  -- The calls by which a gateway node reaches the endpoints and gets or drops the egress address.
  pub record PathsKeep : Type 0 where
    pub output-keeps : (args : List String) → Keeps view (output args)
    pub run-keeps : (args : List String) → Keeps view (run args)
    pub interfaces-keeps : Keeps view interfaces
    pub addrs-keeps : (i : Interface) → Keeps view (addrs i)
    pub route_get-keeps : (ip : Ip) → Keeps view (route_get ip)
    pub parse_addr-keeps : (a : String) → Keeps view (parse_addr a)
    pub link_by_name-keeps : (n : String) → Keeps view (link_by_name n)
    pub addr_add-keeps : (l : Link) (a : Addr) → Keeps view (addr_add l a)
    pub addr_del-keeps : (l : Link) (a : Addr) → Keeps view (addr_del l a)
    pub get_node-keeps : (name : String) → Keeps view (get_node name)

  pub paths_of : CallsKeep → PathsKeep
  paths_of c = record {
    output-keeps = c.output-keeps;
    run-keeps = c.run-keeps;
    interfaces-keeps = c.interfaces-keeps;
    addrs-keeps = c.addrs-keeps;
    route_get-keeps = c.route_get-keeps;
    parse_addr-keeps = c.parse_addr-keeps;
    link_by_name-keeps = c.link_by_name-keeps;
    addr_add-keeps = c.addr_add-keeps;
    addr_del-keeps = c.addr_del-keeps;
    get_node-keeps = c.get_node-keeps;
  }
