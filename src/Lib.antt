-- ===== src/Lib.antt =====
-- kube-static-egress-ip gives the pods behind a service a fixed source address for the traffic to a
-- network outside of the cluster. A custom resource StaticEgressIP lists rules (service, egress
-- address, destination). One process, the gateway manager, chooses for each resource a node that
-- acts as its gateway and writes it to the resource's status. On every node a controller reads the
-- resources: on the gateway node it accepts and translates the traffic (iptables, a second address
-- on an interface), on all others, the directors, it marks the traffic of the pods and routes it
-- through a GRE tunnel to the gateway node. This library models that program and proves what it
-- does to the rules, sets, routes and requests.
--
-- Files, by the code that they model; paths are from the root of the repository:
--   Api          pkg/apis/egressip/v1alpha1/types.go, and the fields of k8s.io/api/core/v1 in use
--   Utils        pkg/utils/node.go (GetNodeObject, GetNodeIP, GetNodeIPByNodeName, GetGatewayIP)
--   Manager      pkg/ha/gateway_manager.go (chooseGatewayNode is `choose_gateway_node`; the body of
--                the loop over the resources is `assign`; a tick of Run is `round`, and
--                the loop of a leader over its ticks is `lead`)
--                In Manager/Election is the whole of Run, with the leader election
--   Commands     cmd: the two main functions
--   Director     pkg/director/director.go, a function per method, named after it
--   Gateway      pkg/gateway/gateway.go, and in Gateway/StaticIp pkg/gateway/staticIP.go
--   Controller   pkg/controller/controller.go: the sync of a resource; in Controller/Handlers the
--                informer's handlers, in Controller/Queue the constructor, the workers and
--                the start, in Controller/Run the whole of Run, in Controller/Memory the pointer
--                through which Run sets the fields of the controller
--   Signals      pkg/signals: the goroutine of SetupSignalHandler, with every interleaving of its
--                steps and the signals as a list of events
--   DeepCopy     pkg/apis/egressip/v1alpha1/zz_generated.deepcopy.go, over a memory of arrays
--   Informers    pkg/client/informers/externalversions: factory.go, and in Informers/Egress the
--                informer of egressip/v1alpha1/staticegressip.go and generic.go
--   Registration pkg/apis/egressip/v1alpha1/register.go
--   Listers      pkg/client/listers/egressip/v1alpha1/staticegressip.go; in Listers/Queued the way of
--                a key from a handler to the lookup of a sync, in Listers/Served a round of a
--                worker
--   Client       pkg/client/clientset/versioned/typed/egressip/v1alpha1/staticegressip.go; in
--                Client/Fake the file fake/fake_staticegressip.go beside it, in Client/Sets the
--                constructors of egressip_client.go and of clientset.go
--   Chains       the steps that Director and Gateway repeat: a rule that is added unless it
--                exists or deleted if it exists, a set that is opened and filled
-- and, for all of them:
--   Prelude      names of the libraries that are passed on; lists, texts, tests
--   Effect       Go functions as functions from a world to an outcome (value, error, panic, exit)
--                and a world; its children are a calculus of what they do to a view of the
--                world and of how they end
--   Host         the calls of go-iptables, go-ipset, netlink, os/exec and files, as a record of
--                parameters over any type of worlds; its children hold the documented behaviour
--                as records of laws, and a simulated host that satisfies them
--   Cluster      the calls of the API server, the listers and the work queue, likewise
--   Tests        runs on simulated hosts, where the theorems are applied
--
-- Abstract views. Director/Directed reads the rules of a director as a set of pairs of an ipset and
-- a destination, and Gateway/Translated those of a gateway as the traffic that it accepts,
-- translates and marks; Manager/Settled reads the store of resources by what is chosen for each.
--
-- How the parts interact: `Commands.manager_main` starts `Election.manager_run`, whose leader runs
-- `Manager.lead`, and `Commands.controller_main` makes the clients and the informers, sets the
-- handlers, which read the controller through a pointer, and starts `Run.run` with that pointer,
-- and its workers. `Manager.round` reads resources and nodes and updates statuses; the update
-- reaches `Handlers.update_static_egress_ip`, which cleans up if the gateway moved, and puts the
-- key on the queue; `Queue.run_worker` takes it off and calls `sync_handler`, which calls Director
-- or Gateway by the node that it runs on.
--
-- Conventions. An informer that a program asks for is given the number of the request, so that two
-- requests never make the same one; a worker is given the controller as it is after the start,
-- whose fields nothing sets again. A pointer that may be nil is an Option, and its dereference a
-- panic. What a call did before it failed stays done. A rule is the list of its arguments; the
-- tables are a function from table and chain to the list of rules. Error texts are those of the
-- code. Logging is left out, and so is the close of a file. The Go of the repository is older than
-- 1.22: the variable of a range loop is one for all rounds, and `Manager.Pointer` models its
-- address. A map with list values is an association list, of which only the lookup is used.
--
-- Fuel. `run_worker` is the endless loop of a worker on fuel, where more than the number of items
-- that the queue hands out is meant to be enough (see run_worker_ends). `itoa` takes a number's
-- digits on one more than the number. All other loops are over lists.
--
-- Not modelled: handleObject of the controller, which nothing calls and which changes nothing; flags;
-- the clientset of the fake clients and the accessors between a factory and its informer, which pass
-- their arguments on; pkg/ipset, a copy of a library that nothing imports; pkg/version, two texts;
-- vendored code. Calls of all these are parameters or left out.
pub mod Prelude
pub mod Effect
pub mod Api
pub mod Registration
pub mod Host
pub mod Chains
pub mod Cluster
pub mod Utils
pub mod Manager
pub mod Director
pub mod Gateway
pub mod Controller
pub mod Signals
pub mod Informers
pub mod Listers
pub mod Client
pub mod DeepCopy
pub mod Commands
pub mod Tests
