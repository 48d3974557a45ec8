-- ===== src/Lib.antt =====
-- The multipath routing code of SEREADMO: the topology store, the shortest paths, the paths of datagrams
-- and the netfilter hooks of the kernel module src_iptables/ser_module; the plugin of olsrd that reports
-- the topology; and the Mojette transform that the senders and receivers of the testbed code their
-- datagrams with.
--
-- The module keeps the network topology that olsrd reports. For a UDP datagram that leaves the node it
-- asks for a path to the destination, which comes from a cache or from several runs of Dijkstra's
-- algorithm with raised costs, and writes the path between the IP header and the UDP header. Every node
-- on the way finds itself in the path, advances the current hop and sends the datagram to the next one;
-- the last node takes the path out again.
--
--   Common, and its children Tests, Lists and Maps: the names that the other files share.
--   Tc: src_iptables/ser_module/ser_path_def.h and ser_path_tc.c. `Topology` has the globals and the
--     fields of the structs. Tc/Hash, Tc/Local, Tc/Nodes and Tc/Links have the functions: `add_node` is
--     tc_add_node, `get_node` is tc_get_node, and so on. Tc/Lookup, Tc/Addresses, Tc/Wiring and
--     Tc/WellFormed have the invariant and the proofs that the operations keep it.
--   Tc/Network: the store as a graph whose nodes have names and whose arcs have costs; its children show
--     what each operation does to the graph.
--   Device: src_iptables/ser_module/ser_device.c: `device_write` is dev_device_write, with `run_token` for
--     the switch, and `device_read` is dev_device_read. Device/Accept and Device/Write keep the invariant of
--     the store, Device/Step and Device/Refine follow the graph, and Device/Read reads in pieces.
--   Module: sereadmo-module.c, as `init_module` and `exit_module`. Module/History has the stores that a
--     loaded module can come to.
--   Plugin: src_olsr/olsrd-0.5.6-r2/lib/sereadmo/src/ser_tc.c, the plugin of olsrd that turns a topology into
--     commands; `check_data` is tc_check_data. Plugin/Tables has the chains, Plugin/Entries and Plugin/Links say what a cache and
--     a sequence of commands mean, Plugin/Reset, Plugin/Activate, Plugin/Dsts, Plugin/Rounds and Plugin/Told follow the
--     marking, Plugin/Commands, Plugin/Removal, Plugin/Sweep, Plugin/Nodes, Plugin/Tidy and Plugin/Faults the removal,
--     Plugin/Mirror a round and Plugin/Runs many. Plugin/Store and its children compare the store of the module with
--     the graph of the commands, Plugin/Carry writes commands to the device, and Plugin/Delivered those of all rounds.
--   Queue: src_olsr/olsrd-0.5.6-r2/lib/old_sereadmo/src/ser_device.c, the queue between the plugin and the
--     device: `add_cmd` is dev_add_cmd, `send_all` is dev_send and `send_init` is dev_send_init. Queue/Chain and
--     Queue/Order are about the order of the commands, Queue/Init about what the module gets at the start.
--   Djk: the function dijkstra of ser_path_djk.c, with the proofs in its children.
--   Kdjk: tc_k_dijstra of ser_path_djk.c, as `k_dijkstra`; one round of its loop is `compute_path`.
--     Kdjk/Route and Kdjk/Path follow the walk back, Kdjk/Raise the costs that a round raises,
--     Kdjk/First and Kdjk/Total the loop of all rounds, and Kdjk/Keeps what is left alone.
--   Bytes: struct ser_header of ser_path.h in memory.
--   Pth: ser_path.c on bytes: `find_datagram_path`, `is_end_of_path`, `check_next_hop` and
--     `get_last_node` are the functions with the prefix pth_. Pth/Travel forwards a datagram through a
--     network of nodes, Pth/Copy starts at the node that sends it, and Pth/Cache is about the cache.
--   Skb: skb_tools.c: `add_path` is skb_addPath, `get_path` is skb_getPath, and so on. Skb/Moves has the
--     loops that move bytes, Skb/RoundTrip and Skb/Replace what becomes of the datagram.
--   Hooks: hook_pre_routing.c, hook_local_in.c and hook_local_out.c, each in a child of its name.
--     Hooks/Receive, Hooks/Journey, Hooks/Send and Hooks/Delivery follow a datagram from the hook of one
--     node to the hooks of the others.
--   Mojette: mojette/mojette.c, the forward transform; `bin_index` is the subscript in its loop, and
--     Mojette/Bounds shows that it stays within the arrays.
--   Tc/Tests, Device/Tests, Plugin/Tests, Plugin/Delivered/Tests, Queue/Tests, Module/Tests, Kdjk/Tests, Pth/Tests and Hooks/Tests try the theorems on a network of three nodes, and
--     Mojette/Tests on the example of mojette/main.c.
--
-- A pointer is a number, and memory is one function for each field of a struct. What an allocation or a
-- function of the kernel returns is an argument. A fault of C, such as a read through NULL or past the
-- end of a buffer, is `none`, and so is the end of the fuel. unsigned long has 32 bits, costs wrap, and
-- addresses are little endian. The fuel of the main loop of dijkstra is the length of its list, since
-- each round takes one node off, and that of the walk back from the destination is one more than its
-- hops. The fuel of a journey is the number of nodes of the path.
--
-- In the plugin, a hash is below HASHSIZE, and reading an entry that is freed but still linked is a
-- fault. The fuel for sending a queue is one more than its
-- commands.
--
-- Not modelled: the locks, as each operation holds its lock to the end; the release of memory; the debug
-- messages; the checksums; the kmem caches; the counter and the text of the device's message; the routing
-- that the kernel does between two hooks, in place of which stands the owner of an address; the inverse
-- Mojette transform.
pub mod Common
pub mod Bytes
pub mod Tc
pub mod Device
pub mod Module
pub mod Plugin
pub mod Queue
pub mod Djk
pub mod Kdjk
pub mod Pth
pub mod Skb
pub mod Hooks
pub mod Mojette
