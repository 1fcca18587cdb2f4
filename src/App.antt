-- ===== src/App.antt =====
-- The program, src/app-freertos/MainRTOS.cpp: what `main` sets up before it starts the scheduler, and
-- the hook that the kernel's idle task calls over and over. Each component reads and writes its part
-- of the hardware's state; the parts may overlap, as the network's tick is that of the HAL.
use lwip_server.Base.{ℕ, ◌*◌}
use lwip_server.Chip.Hal.{Hal, Outcome, done, halted, waiting}
use lwip_server.Chip.Boot.{base_init}
use lwip_server.DebugUart.{DebugUartConfig, UartApi, debug_uart_service}
use lwip_server.Network.{NetApi, Network, init, lwip_thread}
use lwip_server.Tcp.Api.{TcpApi}
use lwip_server.Tcp.Server.{TcpServer, echo_init}

-- A part of the state: how it is read and how it is replaced.
pub record Part (W A : Type 0) : Type 0 where
  pub get : W → A
  pub put : A → W → W

pub record Device : Type 1 where
  pub World : Type 0
  pub hal : Hal
  pub uart : UartApi
  pub net : NetApi
  pub tcp : TcpApi
  pub hal_part : Part World hal.World
  pub uart_part : Part World uart.World
  pub net_part : Part World net.World
  pub tcp_part : Part World tcp.World
  pub ip_addr_any : ℕ

-- configMINIMAL_STACK_SIZE of include/FreeRTOSConfig.h, and the stack of the idle task in words.
abbrev pub minimal_stack_size : ℕ
minimal_stack_size = 512

abbrev pub lwip_task_stack_size : ℕ
lwip_task_stack_size = 8 * minimal_stack_size

-- What `vApplicationGetIdleTaskMemory` returns: where the control block and the stack of the idle
-- task are, and the size of the stack in words.
pub record IdleTaskMemory : Type 0 where
  pub tcb_buffer : ℕ
  pub stack_buffer : ℕ
  pub stack_size : ℕ

abbrev pub get_idle_task_memory : ℕ → ℕ → IdleTaskMemory
get_idle_task_memory tcb stack = record {
  tcb_buffer = tcb;
  stack_buffer = stack;
  stack_size = lwip_task_stack_size;
}

module _ (d : Device) where
  open d use {World}

  -- `sNetwork`, `sTcpEchoServer` and the hardware.
  pub record Program : Type 0 where
    pub network : Network d.net
    pub echo_server : TcpServer d.tcp
    pub world : World

  -- The network and the echo server, once the board is set up,
  unfoldable pub start_services : Program → Program
  start_services p =
      let (n, a) = init d.net p.network (d.net_part.get p.world) in
      let w1 = d.net_part.put a p.world in
      let (s, b) = echo_init d.tcp d.ip_addr_any p.echo_server (d.tcp_part.get w1) in
      record p { network = n; echo_server = s; world = d.tcp_part.put b w1 }

  -- and how the setup of the board goes on to them.
  unfoldable pub launch : Program → Outcome d.hal.World → Outcome Program
  unfolding start_services
  launch p (done h) = done (start_services (record p { world = d.hal_part.put h p.world }))
  launch p (halted h) = halted (record p { world = d.hal_part.put h p.world })
  launch p (waiting h) = waiting (record p { world = d.hal_part.put h p.world })

  -- `main`, up to the start of the scheduler, which does not return.
  unfoldable pub main : ℕ → DebugUartConfig → Program → Outcome Program
  unfolding launch
  main fuel config p = launch p (base_init d.hal fuel config (d.hal_part.get p.world))

  -- `vApplicationIdleHook`.
  unfoldable pub idle_hook : Program → Program
  idle_hook p =
      let u = debug_uart_service d.uart (d.uart_part.get p.world) in
      let w1 = d.uart_part.put u p.world in
      let (n, a) = lwip_thread d.net p.network (d.net_part.get w1) in
      record p { network = n; world = d.net_part.put a w1 }
