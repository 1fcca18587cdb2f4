-- ===== src/Network/Tests.antt =====
-- The loop over a link that comes up at its first check.
use lwip_server.Base.{ℕ, ◌+◌, ◌≡◌, refl, Bool, true, false, not, ltb}
use lwip_server.LoopTimer.{new}
use lwip_server.Network.{NetApi, Network, link_down, init, lwip_thread}
use lwip_server.Network.Dhcp.{LinkLaws, InStep, init-InStep, lwip_thread-InStep}

record Stack : Type 0 where
  pub up : Bool
  now : ℕ

abbrev stack : NetApi
stack = record {
  World = Stack;
  lwip_init = λ w. w;
  netif_add = λ w a. w;
  netif_set_default = λ w. w;
  netif_set_link_callback = λ w. w;
  is_link_up = λ w. w.up;
  put_addresses = λ w a. w;
  dhcp_start = λ w. w;
  dhcp_supplied_address = λ w. ltb 3000 w.now;
  dhcp_tries = λ w. 1;
  netif_set_addr = λ w a. w;
  input = λ w. w;
  check_timeouts = λ w. w;
  link_check = λ w. (not w.up, record w { up = true });
  tick = λ w. (w.now, record w { now = w.now + 200 });
}

came_up : (b : Bool) → not b ≡ false → true ≡ b
came_up true h = refl
came_up false h = h

abbrev stack_laws : LinkLaws stack
stack_laws = record {
  link_callback = λ w h. came_up w.up h;
  callback_link = λ w. refl;
  put_link = λ w a. refl;
  start_link = λ w. refl;
  addr_link = λ w a. refl;
  input_link = λ w. refl;
  timeouts_link = λ w. refl;
  tick_link = λ w. refl;
}

abbrev network : Network stack
network = record { dhcp_state = link_down; dhcp_timer = new; link_timer = new }

abbrev boot : Stack
boot = record { up = false; now = 700 }

lwip_thread-InStep_example :
    let r = init stack network boot in
    let t = lwip_thread stack r.0 r.1 in InStep stack stack_laws t.0 t.1
lwip_thread-InStep_example =
    let r = init stack network boot in
    lwip_thread-InStep stack stack_laws r.0 r.1 (init-InStep stack stack_laws network boot)
