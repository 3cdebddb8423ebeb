-- ===== src/Host.antt =====
-- What the program calls on a node and does not implement: the go-iptables, go-ipset and netlink
-- libraries, the commands that it runs, files, environment and network parsing. A world `W` holds
-- all of their state, and each call may change it and may fail.
pub mod Rules
pub mod Edit
pub mod Counts
pub mod Sets
pub mod Reliable
pub mod History
pub mod Simulated
use kube_static_egress_ip.Prelude.{ℕ, String, Bool, Option, List}
use kube_static_egress_ip.Effect.{M}

-- The arguments of an iptables rule.
abbrev pub RuleSpec : Type 0
RuleSpec = List String

pub record Interface : Type 0 where
  pub index : ℕ
  pub name : String

pub record Host (W : Type 0) : Type 1 where
  -- github.com/coreos/go-iptables/iptables: the table, the chain and the rule.
  pub iptables_new : M W (Unit {0})
  pub new_chain : String → String → M W (Unit {0})
  pub delete_chain : String → String → M W (Unit {0})
  pub exists : String → String → RuleSpec → M W Bool
  pub insert : String → String → ℕ → RuleSpec → M W (Unit {0})
  pub append : String → String → RuleSpec → M W (Unit {0})
  pub delete : String → String → RuleSpec → M W (Unit {0})
  -- github.com/janeczku/go-ipset/ipset, with the default parameters.
  pub IpSet : Type 0
  pub ipset_new : String → String → M W IpSet
  pub set_add : IpSet → String → ℕ → M W (Unit {0})
  pub set_destroy : IpSet → M W (Unit {0})
  -- exec.Command(...).Output() and exec.Command(...).Run()
  pub output : List String → M W String
  pub run : List String → M W (Unit {0})
  -- os and io/ioutil
  pub File : Type 0
  pub read_file : String → M W String
  pub write_file : String → String → M W (Unit {0})
  pub open_append : String → M W File
  pub write_string : File → String → M W (Unit {0})
  pub getenv : String → M W String
  pub hostname : M W String
  -- base32.StdEncoding.EncodeToString of the SHA-256 of a text, 56 characters
  pub encoded_hash : String → String
  -- net: `none` is a nil address, or an address that does not parse.
  pub Ip : Type 0
  pub Subnet : Type 0
  pub parse_ip : String → Option Ip
  pub parse_cidr : String → Option (Ip × Subnet)
  pub ip_string : Ip → String
  pub subnet_contains : Subnet → Ip → Bool
  pub interfaces : M W (List Interface)
  pub addrs : Interface → M W (List String)
  -- github.com/vishvananda/netlink: a route is known by its LinkIndex.
  pub Addr : Type 0
  pub Link : Type 0
  pub route_get : Ip → M W (List ℕ)
  pub parse_addr : String → M W Addr
  pub link_by_name : String → M W Link
  pub addr_add : Link → Addr → M W (Unit {0})
  pub addr_del : Link → Addr → M W (Unit {0})
