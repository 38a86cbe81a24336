-- ===== src/Lib.antt =====
-- Verification of xtables-addons, extensions of the Linux packet filter: each match or target is a
-- kernel module extensions/xt_<name>.c that iptables rules call, with a check of the rule's
-- parameters when it is loaded, a verdict for every packet, and a release when it is deleted.
--
-- A packet meets the rules one after the other. Only CHAOS calls other extensions, TARPIT and DELUDE.
-- Apart from that they interact through what outlives a packet: the connection mark (lscan), counters
-- and objects that rules share by name (quota2, geoip, asn, condition), the peers of a knock rule
-- (pknock), the sources of packets (psd), the tables of a network namespace (ACCOUNT), the bindings of
-- addresses (DNETMAP), the number of the last request (SYSRQ).
--
-- The parts, with the files that model them:
--   Common   machine words, bits, lists and C conditions that the other files share.
--   Refs     the reference-counted kernel list of xt_geoip.c, xt_asn.c, xt_quota2.c and
--            xt_condition.c: `get_ref` finds an object and counts a reference, `put_ref` gives one back and frees at zero. A
--            pointer is the `id` of a node; Refs/Laws has the laws that the clients use.
--   Ipmark   extensions/xt_IPMARK.c: a mark from a part of an address. `ipmark_tg4`, `ipmark_tg6`
--            and `ipmark_from_ip6` keep the C names; shifts beyond the word are `none`.
--   Lscan    extensions/xt_lscan.c: `lscan_mt` with the mark machine `lscan_mt_full`. The module
--            parameters are the record Params; the connection mark is part of the packet's record.
--   Length2  extensions/xt_length2.c: `length2_mt`, `length2_mt6`, the payload lengths of layers 4,
--            5 and 7. The kernel's readers of headers are parameters. The SCTP loop runs on fuel,
--            which is an argument of the match, since the loop of the source may not end.
--   Fuzzy    extensions/xt_fuzzy.c: `fuzzy_mt`, its rate measurement and acceptance rate.
--   Geoip    extensions/xt_geoip.c: Geoip/Search has `geoip_bsearch4`, `geoip_bsearch6` and
--            `ipv6_cmp`, Geoip/Match the two matches, Geoip/Load `xt_geoip_mt_checkentry`,
--            `geoip_add_node` and `xt_geoip_mt_destroy`. A bisection runs on fuel of one round more
--            than elements; every round drops at least the middle. User memory and the allocators
--            are the record Env, functions that may fail at each call.
--   Quota2   extensions/xt_quota2.c: `quota_mt2`, `quota_mt2_check`, `quota_mt2_destroy` and
--            `quota_proc_write`. A counter's quota is passed explicitly; the kernel's number readers
--            are the record Strto, 64-bit numbers are their bits.
--   Account  extensions/ACCOUNT/xt_ACCOUNT.c: Account/Tables has the table array with
--            `ipt_acc_checkentry`, `ipt_acc_target` and `ipt_acc_destroy`, Account/Count the
--            insertions at the depths 0 to 2, Account/Handles the handles and both reads of a table,
--            Account/Sockopt the socket options with the reading of names of
--            extensions/ACCOUNT/libxt_ACCOUNT_cl.c, Account/Pages the number of freed pages. Pages are functions of the
--            slot, a missing page is `none`, and an oracle says which page allocations succeed.
--   Ipv4options  extensions/xt_ipv4options.c: `ipv4options_rd` on the bytes behind the fixed header,
--            with fuel of one round more than bytes, since every round takes at least one; and
--            `ipv4options_mt`.
--   Ipp2p    extensions/xt_ipp2p.c: Ipp2p/Payload has the reads of a payload, where a read outside is
--            `none`, Ipp2p/Udp, Ipp2p/Tcp and Ipp2p/Scan the searches by their C names, Ipp2p/Match
--            the two lists of commands and `ipp2p_mt`. `hx_memmem` is HX_memmem of
--            extensions/compat_xtables.c. Loops run as many rounds as bytes, since each round takes one.
--   Pknock   extensions/pknock/xt_pknock.c: Pknock/Peers has the peers of a rule and `peer_gc`,
--            Pknock/Secret the secrets, Pknock/Knock the state machine of a peer with `update_peer`
--            and the match in a rule (`match_rule`), Pknock/Rules the rules by name with `pknock_mt`,
--            `pknock_mt_check` and `pknock_mt_destroy`. Clock, allocator, `do_div` and the HMAC are the
--            record Env, which each call gets anew; a hash table is one list.
--   Psd      extensions/xt_psd.c: Psd/Scan has the ports of a source and `is_portscan`, Psd/Table the
--            table of sources with its hash chains and `handle_packet`, for both address families,
--            Psd/Match the two matches and the memory of the IPv6 table. A chain is the list of the
--            places from its head along `next`; `hashfunc` runs the four rounds that a 32-bit word takes.
--   Asn      extensions/xt_asn.c, in the order of Geoip: Asn/Search, Asn/Match, Asn/Load; Asn/Same
--            compares each with its counterpart of xt_geoip.c.
--   Condition  extensions/xt_condition.c: `condition_mt_check`, `condition_mt_destroy`,
--            `condition_mt` and the file of a variable, on the list of Refs.
--   Tarpit   extensions/xt_TARPIT.c: Tarpit has the reply's header in the three modes, Tarpit/Reply
--            `tarpit_tcp4`, `tarpit_tcp6` and the two targets, whose result is what is sent.
--   Dnetmap  extensions/xt_DNETMAP.c: Dnetmap has the entries, the prefixes and their lists,
--            Dnetmap/Target `dnetmap_tg`, Dnetmap/Rules the check and release of rules, the flush and
--            the namespaces, Dnetmap/Proc the files under /proc. A list operation on a node that is
--            not where the code expects it is a fault. The loop over the addresses of a prefix has
--            2^32 rounds, one more than addresses below 255.255.255.255. `in4_pton` is a parameter.
--   Sysrq    extensions/xt_SYSRQ.c: `sysrq_tg` with its fields and digest, `sysrq_tg4`, `sysrq_tg6` and
--            `sysrq_tg_check`; the hash is a parameter. Sysrq/Replay has the packets at both targets.
--   Chaos    extensions/xt_CHAOS.c and extensions/xt_DELUDE.c: `chaos_tg` with its call of DELUDE or of
--            the TARPIT of Tarpit/Reply, the check of rules, the references of the start and the exit,
--            and DELUDE's replies; Chaos/Delude has the replies and the calls.
--   Iface    extensions/xt_iface.c: `xt_iface_mt` and `iface_flagtest`; the kernel's interface flags are
--            a parameter.
--
-- Unsigned machine integers are natural numbers. Where the code adds, subtracts or shifts them the model
-- writes the wrap-around out, unless the operands are bounded, as lengths of packets are. Each modelled
-- operation is one step: the source holds a lock across the operations on shared lists and tables, but
-- none in the target of SYSRQ, so that packets handled at the same time are not covered there. Not modelled:
-- registration with the kernel, logging, RCU grace periods, the messages and the /proc files of
-- pknock, and the other extensions (ECHO, PROTO, LOGMARK,
-- DHCPMAC); the user space parsers extensions/libxt_*.c only print and parse options.
pub mod Common
pub mod Refs
pub mod Ipmark
pub mod Lscan
pub mod Length2
pub mod Fuzzy
pub mod Geoip
pub mod Quota2
pub mod Account
pub mod Ipv4options
pub mod Ipp2p
pub mod Pknock
pub mod Psd
pub mod Asn
pub mod Condition
pub mod Tarpit
pub mod Iface
pub mod Dnetmap
pub mod Sysrq
pub mod Chaos
