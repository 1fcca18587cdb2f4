-- ===== src/Lib.antt =====
-- lwip-server: a TCP echo server and an MQTT client over lwIP on an STM32H7, and a model of them.
--
-- The program. A main loop (include/lwipserver/network/NetworkRTOS.h) serves the ethernet driver,
-- lwIP's timeouts and two timers: one checks the link, the other drives the DHCP process. The driver
-- (src/stm32h7/Ethernetif.cpp) hands lwIP's packets to the MAC's DMA through a ring of descriptors,
-- frees them once they are sent, and asks the PHY (include/lwipserver/drivers/Lan8742.h) for the
-- state of the link. On top of lwIP stand the TCP server with its echo server and the MQTT client.
-- Below all stand the startup code and the setup of memory protection, clocks, pins and the debug
-- UART (src/stm32h7).
--
-- The files, and the code that each is about:
-- - Base and its children: the libraries' names that all share, tests on numbers, lists and integers
--   over the native numbers, masks of bits, windows on a ring, and a memory written round its end.
-- - RxBuffer: include/lwipserver/utils/DmaRxBuffer.h and src/utils/DmaRxBuffer.cpp. `int` is an
--   integer; no operation leaves -128 to 256, so it cannot overflow. RxBuffer/Valid has the invariant
--   and the abstract view, the bytes in the order in which they arrived; RxBuffer/Queue adds the DMA
--   channel and a queue that keeps the latest bytes, as a relation on sequences of operations.
-- - TxBuffer: include/lwipserver/utils/DmaTxBuffer.h, the counts of the free places. `copy` and
--   `getSlice` are declared there but defined nowhere.
-- - LoopTimer: include/lwipserver/utils/LoopTimer.h, with the sum of the deadline modulo 2 ^ 32.
--   LoopTimer/Run is about sequences of polls.
-- - Board: include/lwipserver/concepts, a state of the hardware that each call takes and returns, and
--   the clock behind its tick.
-- - Lan8742: include/lwipserver/drivers/Lan8742.h. `find_address` takes 32 rounds, one for each
--   address. The loop that awaits the reset has fuel; Lan8742/Reset says how much is enough on a board
--   whose clock runs, where a register read takes time.
-- - Ethernet/TxDescriptor: include/lwipserver/stm32h7/TxDescriptor.h, with its masks of bits.
-- - Ethernet/TxRing: `lowLevelOutput` and `releaseTxBuffers` of src/stm32h7/Ethernetif.cpp. A packet
--   is the list of its buffers. The loop that releases has fuel: the ring has four descriptors, so
--   five rounds are enough. Lifetime adds the DMA, which writes descriptors back, and History what
--   becomes of the packets in any order of sends, releases and write-backs. Ownership is about the
--   descriptors that the DMA still owns, Earned and WrittenBack compare what a release gives back with
--   what the DMA has written back, and Recovery is a ring whose descriptors are all written back.
-- - Ethernet/LinkCheck: `ethernet_link_check_state` of src/stm32h7/Ethernetif.cpp, over Lan8742.
--   LinkCheck/Flag says what it makes of lwIP's flag and when lwIP calls back.
-- - Ethernet/Reception: the pool of receive buffers, the chain of a packet's buffers and the input
--   loop of src/stm32h7/Ethernetif.cpp. The input loop takes the number of packets that it may read;
--   what is shown holds for every number. Reception/Lengths is about the chain; its loop has as much
--   fuel as the packet has buffers, and one round more.
-- - Ethernet/Pins: `HAL_ETH_MspInit` of src/stm32h7/Ethernetif.cpp, as the list of its calls.
-- - Ethernet/Setup: `Ether`, `low_level_init` and `ethernetif_init` of src/stm32h7/Ethernetif.cpp.
-- - Lwip: the error codes that the network modules share.
-- - Mqtt: include/lwipserver/network/MqttClient.h and src/network/MqttClient.cpp. Mqtt/Topic is the
--   order of the map's keys, Mqtt/Client the client's functions; a heap maps the application's
--   subscriptions, to which the client holds pointers, to their contents. Mqtt/Message is one message
--   from its announcement on; Mqtt/Inbox is what the client promises about messages, a receiver with
--   one message under way, next to the client over every sequence of calls and callbacks. Mqtt/Health
--   is about registrations and the periodic check.
-- - Tcp: src/network/TcpServer.cpp, include/lwipserver/network/TcpServer.h and TcpEchoServer.h.
--   Tcp/Api is lwIP, Tcp/Connection the functions on one connection, Tcp/Server the server and lwIP's
--   callbacks. Tcp/Stream is the abstract view, the bytes that went out and those that wait, and who
--   holds a reference to which buffer; Tcp/Drain is the send loop, Tcp/Write what a write adds,
--   Tcp/Echo the echo server, Tcp/Session a connection over every order of the callbacks, Tcp/Close the
--   end of a connection and Tcp/Slots the list of connections. The send loop runs one round more than
--   the chain has buffers, which Tcp/Write shows to be enough.
-- - Network: include/lwipserver/network/NetworkRTOS.h and the functions of
--   include/lwipserver/stm32h7/Ethernetif.h that it calls. Network/Phy puts the network over the
--   driver: its link check is that of Ethernet/LinkCheck.
-- - DebugUart: src/stm32h7/DebugUart.cpp. The reading loop runs over the events between its rounds, an
--   explicit order of quiet rounds and error interrupts. DebugUart/Stream says what operations on the
--   output stream deliver, and DebugUart/Output is about any order of writes, services and errors.
--   DebugUart/Setup is `debugUartInit`.
-- - Syscalls: the stubs of src/stm32h7/Syscalls.cpp.
-- - Freertos: the wrappers of include/lwipserver/freertos, one call of the kernel each.
-- - Chip/Startup: src/stm32h7/Startup.cpp, on memory as a function of addresses; the addresses of the
--   sections are the linker's. Chip/System: src/stm32h7/System.cpp, on the registers that it writes.
-- - Chip/Tick: src/stm32h7/Timebase.cpp.
-- - Chip/Mpu: `Base::mpuConfig` of src/stm32h7/Base.cpp, as the list of its calls; Mpu/Regions has the
--   rules by which the regions govern addresses.
-- - Chip/Hal: the calls of the HAL that set the chip up. A routine ends, or it stays in a loop without
--   an end after a call that failed, or it still waits for a flag when its fuel is used up.
--   Chip/Clocks: `Base::systemClockConfig`; its only loop reads a flag, and the fuel must exceed the
--   number of reads after which the flag is set. Chip/Vectors: the table of src/stm32h7/Vectors.cpp
--   with the handlers that it names, resolved as the linker resolves weak symbols. Chip/Boot:
--   include/lwipserver/stm32h7/Base.h.
-- - App: `main` and the idle hook of src/app-freertos/MainRTOS.cpp. The components stand side by side,
--   each on its part of one state of the hardware. The parts are a parameter and may overlap, as the
--   network's tick is that of the HAL.
--
-- lwIP, ETL, the HAL and FreeRTOS are not part of the repository: what the code calls of them is a
-- record that the definitions take as a parameter. Where a theorem relies on how they behave, it takes
-- a second record with that behaviour, and each such record is filled in a module of tests.
--
-- Not modelled: `printf`; the callback of an error that lwIP makes inside `tcp_abort`; memory barriers
-- and the data cache; the bare-metal entry point src/app-bare-metal/__Main.cpp and the MQTT clock that
-- it uses, which the build leaves out and which include headers that are not in the repository; `copy`
-- and `getSlice` of include/lwipserver/utils/DmaTxBuffer.h, which have no implementation; the
-- configuration macros, the abstract interfaces, and the unit tests with their mocks.
pub mod App
pub mod Base
pub mod Syscalls
pub mod RxBuffer
pub mod TxBuffer
pub mod LoopTimer
pub mod Board
pub mod Lan8742
pub mod Ethernet
pub mod Lwip
pub mod Mqtt
pub mod Tcp
pub mod Network
pub mod DebugUart
pub mod Chip
pub mod Freertos
