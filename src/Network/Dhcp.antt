-- ===== src/Network/Dhcp.antt =====
-- The DHCP process follows the link (include/lwipserver/network/NetworkRTOS.h).
use lwip_server.Base.{◌≡◌, refl, sym, ◌∙◌, Bool, true, false, Bool-cases, inl, inr, arith}
use lwip_server.LoopTimer.{poll}
use lwip_server.Network.{
  NetApi, Network, DhcpState, off, start, wait_address, address_assigned, timeout, link_down,
  link_status_updated, interface_init, init, interface_dhcp_start, set_static_ip, Addresses,
  no_addresses, static_addresses, dhcp_step, dhcp_process, check_link_state, poll_link, poll_dhcp,
  lwip_thread,
}

-- The documented behaviour of lwIP: only the check of the link changes the link's flag, and when it
-- does, it calls the link callback.
pub record LinkLaws (api : NetApi) : Type 0 where
  pub link_callback :
      (w : api.World)
      → (api.link_check w).0 ≡ false
      → api.is_link_up (api.link_check w).1 ≡ api.is_link_up w
  pub callback_link :
      (w : api.World) → api.is_link_up (api.netif_set_link_callback w) ≡ api.is_link_up w
  pub put_link :
      (w : api.World) (a : Addresses) → api.is_link_up (api.put_addresses w a) ≡ api.is_link_up w
  pub start_link : (w : api.World) → api.is_link_up (api.dhcp_start w) ≡ api.is_link_up w
  pub addr_link :
      (w : api.World) (a : Addresses) → api.is_link_up (api.netif_set_addr w a) ≡ api.is_link_up w
  pub input_link : (w : api.World) → api.is_link_up (api.input w) ≡ api.is_link_up w
  pub timeouts_link : (w : api.World) → api.is_link_up (api.check_timeouts w) ≡ api.is_link_up w
  pub tick_link : (w : api.World) → api.is_link_up (api.tick w).1 ≡ api.is_link_up w

-- The states in which the process takes the link to be up.
abbrev pub sees_link : DhcpState → Bool
sees_link off = false
sees_link link_down = false
sees_link _ = true

module _ (api : NetApi) (laws : LinkLaws api) where
  open api use {World}

  abbrev pub InStep : Network api → World → Type 0
  InStep n w = sees_link n.dhcp_state ≡ api.is_link_up w

  updated-InStep : (n : Network api) (w : World) → InStep (link_status_updated api n w) w
  unfolding link_status_updated
  updated-InStep n w = elim (Bool-cases (api.is_link_up w)) [
    | inl e ↦ rw e refl
    | inr e ↦ rw e refl
  ]

  -- After the start the process and the link agree, where lwIP keeps the link's flag.
  pub init-InStep : (n : Network api) (w : World) → let r = init api n w in InStep r.0 r.1
  unfolding init interface_init
  init-InStep n w = updated-InStep n _ ∙ sym (laws.callback_link _)

  step-InStep :
      (s : DhcpState) (n : Network api) (w : World)
      → n.dhcp_state ≡ s
      → InStep n w
      → let r = dhcp_step api s n w in InStep r.0 r.1
  unfolding dhcp_step interface_dhcp_start set_static_ip
  step-InStep start n w e i =
      ground
        (arith, laws.start_link (api.put_addresses w no_addresses), laws.put_link w no_addresses)
  step-InStep wait_address n w e i = ground (arith, laws.addr_link w static_addresses)
  step-InStep link_down n w e i = rw e at i
  step-InStep off n w e i = i
  step-InStep address_assigned n w e i = i
  step-InStep timeout n w e i = i

  check-InStep :
      (n : Network api) (w : World)
      → InStep n w
      → let r = check_link_state api n w in InStep r.0 r.1
  unfolding check_link_state
  check-InStep n w i = elim (Bool-cases (api.link_check w).0) [
    | inl e ↦ rw e (updated-InStep n (api.link_check w).1)
    | inr e ↦ rw e (i ∙ sym (laws.link_callback w e))
  ]

  poll_link-InStep :
      (n : Network api) (w : World) → InStep n w → let r = poll_link api n w in InStep r.0 r.1
  unfolding poll_link
  poll_link-InStep n w i =
      let (timer, fires) = poll n.link_timer (api.tick w).0 in
      let i' = i ∙ sym (laws.tick_link w) in
      elim (Bool-cases fires) [
        | inl e ↦ rw e (check-InStep (record n { link_timer = timer }) (api.tick w).1 i')
        | inr e ↦ rw e i'
      ]

  poll_dhcp-InStep :
      (n : Network api) (w : World) → InStep n w → let r = poll_dhcp api n w in InStep r.0 r.1
  unfolding poll_dhcp dhcp_process
  poll_dhcp-InStep n w i =
      let (timer, fires) = poll n.dhcp_timer (api.tick w).0 in
      let i' = i ∙ sym (laws.tick_link w) in
      elim (Bool-cases fires) [
        | inl e ↦
            rw e (step-InStep n.dhcp_state (record n { dhcp_timer = timer }) (api.tick w).1 refl i')
        | inr e ↦ rw e i'
      ]

  -- A turn of the main loop keeps the process and the link in agreement, where lwIP calls the link
  -- callback whenever the link changes: the process is off or waits for the link exactly when the
  -- link is down, however it changes in that turn.
  pub lwip_thread-InStep :
      (n : Network api) (w : World) → InStep n w → let r = lwip_thread api n w in InStep r.0 r.1
  unfolding lwip_thread
  lwip_thread-InStep n w i =
      let w1 = api.check_timeouts (api.input w) in
      let j = i ∙ sym (laws.input_link w) ∙ sym (laws.timeouts_link (api.input w)) in
      let r = poll_link api n w1 in poll_dhcp-InStep r.0 r.1 (poll_link-InStep n w1 j)
