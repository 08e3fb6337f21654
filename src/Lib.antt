-- ===== src/Lib.antt =====
-- A model of quincy-tun. On Linux: how a TUN device is opened and configured, and how one that carries
-- virtio-net headers splits the large packets that the kernel hands over (GSO) and merges the small
-- packets that the user sends (GRO), with the Internet checksum under both. On Windows: how a Wintun
-- adapter is found, opened, switched, used and dropped, and how its addresses and routes are set.
--
-- The parts, each with the file that models it; checksum.rs, offload.rs and device.rs are under
-- src/platform/linux:
--   Base          how a Rust function ends (`Outcome`: a value, an `io::Error` by its kind, a panic),
--                 byte slices and `copy_from_slice`, lists measured by native numbers
--   Checksum      checksum.rs: the scalar `checksum_no_fold`, `checksum` and the pseudo-header sum
--   Offload       offload.rs: `VirtioNetHdr` with encode and decode, `gso_none_checksum`,
--                 `packet_is_gro_candidate`
--   Offload.Split offload.rs: `gso_split`, one definition for each step of a round of its loop
--   Gro           offload.rs: `TcpGROTable`, `UdpGROTable`, the flow keys; Gro.Compare decides whether
--                 two packets may be merged, Gro.Coalesce merges them, Gro.Tcp and Gro.Udp are
--                 `tcp_gro` and `udp_gro`, Gro.Accounting is the two `apply_*_coalesce_accounting`,
--                 Gro.Handle is `handle_gro` and `GROTable`
--   Device        device.rs: `recv_multiple0` with `handle_virtio_read`, and `send_multiple0`
--   AsyncDevice   src/async_device/unix/mod.rs: `recv_multiple` and `send_multiple` of `AsyncDevice`, and
--                 in AsyncDevice.Poll the loops of `poll_recv` and `poll_send` of tokio.rs
--   Unix          src/platform/unix/fd.rs: the descriptor; Unix.Tun is src/platform/unix/tun.rs on the
--                 systems that put the address family in front of a packet
--   Host          code that calls the system: each call and its answer in a log; Host.Laws says what a
--                 computation adds to the log and that it stops at a failure, Host.Answers when it ends with a value, Host.Runs what
--                 it does to a state that the log determines, Host.Meets the same as a condition before
--                 and one after
--   Net           src/builder.rs: addresses and netmasks in their spellings (`ToIpv4Address`,
--                 `ToIpv4Netmask` and the same for IPv6)
--   Linux         device.rs, the configuration: Linux.Open is `DeviceImpl::new`, Linux.Name its checks
--                 of the name, Linux.Settings and Linux.Addresses the operations on a setting and on
--                 an address; Linux.Sockaddr is src/platform/unix/sockaddr.rs; Linux.Held says which
--                 descriptors are open
--   Builder       src/builder.rs: `DeviceBuilder` and `config` over a record of device operations;
--                 Builder.Plan is the order of its requests, Builder.Setters those of a chain of
--                 setters, Builder.Build is `build_sync` with the Linux device in the place of the
--                 record
--   Windows       src/platform/windows/netsh.rs and dns.rs: the DNS servers of an interface
--   Windows.Wintun tun/mod.rs: Session sends and receives the packets of a session, Adapter opens, creates,
--                 enables, disables and drops an adapter; Held says what of the system these hold,
--                 Lifecycle is a device from its opening to its drop, Clock the loop of `send`, Switch
--                 the flag and the session
--   Windows.Orphans tun/adapter.rs and adapter_win7.rs: the search for an adapter that no process owns;
--                 Search says when it ends, Listed what it finds
--   Windows.Create device.rs of Windows, `DeviceImpl::new`; Windows.Names are the names it tries, and
--                 Windows.Device the operations on the device by the index of its interface
--   Windows.Ffi   ffi.rs: the addresses, default routes, metric and MTU of an interface; Ffi.Replace has
--                 the tables of the system, Ffi.Clear and Ffi.Add what is deleted from them and added,
--                 Ffi.Set both together
--   Freebsd       src/platform/freebsd/device.rs: how `DeviceImpl::new` finds and opens a device node
--   Tests         inputs that meet the theorems' hypotheses
--
-- How they interact: `recv_multiple0` decodes the header that a read put in front of the packet and
-- calls `gso_none_checksum` or `gso_split`; `send_multiple0` calls `handle_gro`, which puts a header in
-- front of each packet, and writes the buffers that `to_write` lists. `build_sync` opens the device
-- with `DeviceImpl::new`, whose flags `vnet_hdr` and `udp_gso` the batch operations read, and gives it
-- the settings of the builder through `config`. On Windows, `DeviceImpl::new` asks Windows.Orphans whether
-- a name that is taken belongs to an adapter without an owner, and opens or creates a `TunDevice`, whose
-- `enabled` starts and ends the session that packets go through; `set_network_address` of the device
-- calls `set_address` of Windows.Ffi.
--
-- How the source is read:
--   * A buffer is the list of its bytes; a `Vec<u8>` carries its capacity as well. A function that
--     changes a buffer returns the new one. On an error only the error is kept, by its kind (with the
--     errno of one that the system gave), not its text.
--   * An index or a slice out of range, a failed `expect` and a remainder by 0 are panics. Fixed-width
--     arithmetic wraps as in a release build; `usize` has 64 bits. A sum of a few `u16` and lengths in
--     `usize` is written without the wrap, which it cannot reach.
--   * A `HashMap` is an association list in the order in which its keys came in. The source leaves the
--     order of the values open; the model takes this one.
--   * The header's `u16` fields are copied as they lie in memory, so the byte order of the machine is a
--     parameter.
--   * The read and write of the descriptor are parameters of the batch operations.
--   * A request to the system (an ioctl, a call of `libc`, of `netconfig_rs` or of `getifaddrs`) is a
--     constructor of `Sys`; its answer is a parameter that may depend on all the requests before. An
--     ioctl on an `ifreq` carries the member of the union that it writes. A descriptor that is dropped
--     is closed by a request of its own. The lock `op_lock` is left out: an operation holds it from
--     start to end, so that operations run one after the other.
--   * The parsers of the standard library, `to_string_lossy`, and `IpNet::new_assert` and
--     `ip_mask_to_prefix` of the crate ipnet are parameters. Theorems that need it assume that the name
--     of an interface has no NUL.
--   * The poll loops try again for as long as an attempt is a false alarm; the number of attempts is
--     their fuel, and any above the number of false alarms is enough.
--   * The `while` loop of `gso_split` is recursion on the output buffers, each round taking one. The
--     folding loop of `checksum` has its accumulator as fuel, since each round makes it smaller.
--   * On Windows, a null pointer that a function gives is `none`, and the code of the last error is a request
--     of its own. The loop of `send` has 505 rounds: 35 ms of short pauses and 500 pauses of 10 ms are
--     more than its timeout of five seconds. `DeviceImpl::new` needs a round for each name of an interface
--     and five more. `recv` and the search for an orphaned adapter have a parameter for their rounds,
--     since the system decides how many they take. `enable` and `disable` hold the lock of the adapter's
--     state, and run one at a time with the other operations.
--
-- Not modelled: the AVX2 and SSE4.1 sums of checksum.rs, which are intrinsics (`checksum_no_fold` is the
-- build for a target without them); macOS, whose operations are calls of another system one by one; of
-- FreeBSD all but the device node; of Windows the generated bindings of wintun.dll, its log, the
-- wrappers in ffi.rs of files, of overlapped input and output and of SetupAPI, and the async device; the
-- parts of the async wrappers that only hand an operation to tokio; the fields of the builder for other
-- platforms.
pub mod Base
pub mod Checksum
pub mod Offload
pub mod Gro
pub mod Device
pub mod AsyncDevice
pub mod Unix
pub mod Host
pub mod Net
pub mod Linux
pub mod Freebsd
pub mod Windows
pub mod Builder
pub mod Tests
