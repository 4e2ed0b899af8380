-- ===== src/Lib.antt =====
-- conwatch: a daemon that watches the network interfaces over netlink and runs, for each one that is
-- up and eligible, a tray program that pings a target every second and shows the result as a colour.
--
-- The parts and their files. Function names are the source's, in this language's spelling.
--   Processes    src/watcher/process_manager.*: the children, tracked by interface index and by pid.
--                fork(2) and waitpid(2) answer through arguments; SIGTERMs sent are a list. The two
--                maps together are one table of children (Processes.Table).
--   Config       src/watcher/config.hpp, config_load.cpp, config_resolve.cpp: the data, the load from
--                YAML, eligibility by patterns, and the values for one interface. A YAML node and
--                fnmatch(3) are parameters.
--   Config.File  src/watcher/config.cpp: where the file is and how it is created (Config.Default has
--                its text), over a file system whose laws are Config.Atomic and Config.Location.
--   Watcher      src/watcher/watcher.hpp, watcher_iface_state.cpp: what a link event does, by
--                Processes and Config; Watcher.Reach has its histories as a step relation, and
--                Watcher.Fate what a report does to the one child that it is about. Watcher.Commute
--                and Watcher.Revived set two reports side by side.
--   Watcher.Loop src/watcher/watcher.cpp: the event loop over a list of answers of poll(2), with
--                Netlink before the two handlers, and the signals behind them. Watcher.Heard and
--                Watcher.Reported follow the messages of the kernel through all of it, over a run.
--                Behind the last of the wakeups the source would wait on; the model ends there as if
--                the loop were left.
--   Watcher.Run  the rest of src/watcher/watcher.cpp, and src/watcher/main.cpp: the descriptors that a
--                run opens and closes around the loop, and the program from its environment on.
--   Rtnetlink    the macros and constants of the Linux headers, as a record with two laws; and the
--                loops over a buffer, which take as many rounds as there are bytes.
--   Netlink      src/watcher/netlink.cpp: from a received buffer to the calls of the two handlers of
--                Watcher; and the descriptor of the socket (Netlink.Socket).
--   Override     src/shared/gateway_override.*: the three modes of a gateway check.
--   Targets      src/shared/target_resolve.*: the addresses of a target.
--   Gateway      src/shared/gateway_resolver.*: the default route of an interface, from the batches of a
--                dump (Gateway) and from the socket and the request on (Gateway.Lookup).
--   Icmp         src/conwatch-tray/ping_monitor_addr.cpp, ping_monitor_socket4.cpp and
--                ping_monitor_socket6.cpp: checksum, packets, and the test of a reply.
--   Ping         src/conwatch-tray/ping_monitor.*: the state (Ping), sockets (Ping.Sockets), a tick of
--                one protocol (Ping.Tick), status, icon cache and the whole tick (Ping.Status), the
--                painting of an icon (Ping.Paint), the constructor (Ping.Setup), and the arguments in
--                main.cpp (Ping.Main). It uses Icmp, Override, Targets and Gateway. System calls are
--                functions on a world, which is a parameter, as are QString::arg, the decoding
--                of an argument to a QString, and the fonts; where
--                it matters what was sent or made, a log of sendto(2) (Ping.Sent) or a tally of socket(2)
--                (Ping.Remade.Count) is read from the world. Three networks for a run of ticks: one
--                that never answers (Ping.Silence), one that answers (Ping.Contact), and one that ends
--                at the gateway (Ping.Fallback).
--   Drawing      what the painting asks of QPainter; a pixmap is the list of the calls that drew it.
--   Prelude      numbers, texts, lists and maps that the parts share.
--
-- A text is its list of bytes or code points. A `std::unordered_map` and a `std::map` are association
-- lists that are read by key. `uint16_t` and `uint32_t` wrap; `int` counters are natural numbers, of
-- which only fail_streak grows, by one a second at most. Fuel have only the loops over a buffer, which
-- are given the bytes left, and the 200 rounds of stop_all, which the source has too; a wait for a
-- reply goes over the datagrams that arrive before recvfrom(2) gives up. The descriptors of a run and
-- the files are worlds of their own, which the event loop does not touch.
--
-- Not modelled: messages on stderr; the menu, the timer and the event loop of Qt, of which the monitor
-- sees a tick; and the pixels that QPainter makes of its calls.
pub mod Prelude
pub mod Processes
pub mod Config
pub mod Watcher
pub mod Override
pub mod Targets
pub mod Rtnetlink
pub mod Gateway
pub mod Netlink
pub mod Icmp
pub mod Drawing
pub mod Ping
