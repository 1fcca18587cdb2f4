-- ===== src/Mqtt/Inbox/Alike.antt =====
-- The operations that leave the messages alone: they change only whether a subscription counts as
-- subscribed, and lwIP's state.
use lwip_server.Base.{
  ℕ, ◌≡◌, refl, ap, ◌∙◌, Bool, true, false, List, [], ◌∷◌, arith, Bool-cases, inl, inr, ◌==◌,
  if◌then◌else◌,
}
use lwip_server.Lwip.{Err, is_ok}
use lwip_server.LoopTimer.{poll}
use lwip_server.Mqtt.Topic.{Key}
use lwip_server.Mqtt.Client.{
  SubscriptionMap, MqttApi, Publication, Subscription, update, Client, subscribe, publish, connect,
  resubscribe, health_check, connected, subscribe_all, connection_changed, subscription_request_cb,
  service,
}

abbrev marked : Bool → Subscription → Subscription
marked b s = record s { subscribed = b }

module _ (maps : SubscriptionMap) (api : MqttApi) where
  pub record Alike (c d : Client maps api) : Type 0 where
    pub subscriptions : d.subscriptions ≡ c.subscriptions
    pub active : d.active_subscription ≡ c.active_subscription
    pub heap : (q : ℕ) → d.heap q ≡ record (c.heap q) { subscribed = (d.heap q).subscribed }

  Alike-refl : (c : Client maps api) → Alike c c
  Alike-refl c = record { subscriptions = refl; active = refl; heap = λ q. refl }

  Alike-trans : (c d e : Client maps api) → Alike c d → Alike d e → Alike c e
  Alike-trans c d e a b = record {
    subscriptions = b.subscriptions ∙ a.subscriptions;
    active = b.active ∙ a.active;
    heap = λ q. b.heap q ∙ ap (marked (e.heap q).subscribed) (a.heap q);
  }

  marked-Alike :
      (p : ℕ) (b : Bool) (c : Client maps api) (w : api.World)
      → Alike c
          (record c { heap = update c.heap p (record (c.heap p) { subscribed = b }); world = w })
  marked-Alike p b c w = record {
    subscriptions = refl;
    active = refl;
    heap = λ q. elim (Bool-cases (p == q)) [
      | inl e ↦ let same : p ≡ q = ground (arith, e) in rw e (ap (λ r. marked b (c.heap r)) same)
      | inr e ↦ rw e refl
    ];
  }

  pub subscribe-Alike : (p : ℕ) (c : Client maps api) → Alike c (subscribe maps api p c)
  unfolding subscribe
  subscribe-Alike p c =
      let r = api.subscribe c.world (c.heap p).topic in marked-Alike p (is_ok r.0) c r.1

  pub answered-Alike :
      (p : ℕ) (result : Err) (c : Client maps api)
      → Alike c (subscription_request_cb maps api p result c)
  unfolding subscription_request_cb
  answered-Alike p result c = marked-Alike p (is_ok result) c c.world

  resubscribe-Alike :
      (l : List (Key × ℕ)) (c : Client maps api) → Alike c (resubscribe maps api l c)
  unfolding resubscribe
  resubscribe-Alike [] c = Alike-refl c
  resubscribe-Alike ((k, p) ∷ l) c = elim (Bool-cases (c.heap p).subscribed) [
    | inl on ↦ rw on (resubscribe-Alike l c)
    | inr off ↦ rw off (
        Alike-trans c (subscribe maps api p c) (resubscribe maps api l (subscribe maps api p c))
          (subscribe-Alike p c) (resubscribe-Alike l (subscribe maps api p c)))
  ]

  subscribe_all-Alike :
      (l : List (Key × ℕ)) (c : Client maps api) → Alike c (subscribe_all maps api l c)
  unfolding subscribe_all
  subscribe_all-Alike [] c = Alike-refl c
  subscribe_all-Alike ((k, p) ∷ l) c =
      let d = subscribe maps api p c in
      Alike-trans c d (subscribe_all maps api l d) (subscribe-Alike p c) (subscribe_all-Alike l d)

  pub publish-Alike : (p : Publication) (c : Client maps api) → Alike c (publish maps api p c).1
  unfolding publish
  publish-Alike p c = record { subscriptions = refl; active = refl; heap = λ q. refl }

  health_check-Alike : (c : Client maps api) → Alike c (health_check maps api c)
  unfolding health_check connect
  health_check-Alike c = elim (Bool-cases (connected maps api c)) [
    | inl up ↦ rw up (resubscribe-Alike (maps.entries c.subscriptions) c)
    | inr down ↦
        let d = connect maps api c in
        let l = maps.entries c.subscriptions in
        rw down (
          Alike-trans c d (resubscribe maps api l d)
            (record { subscriptions = refl; active = refl; heap = λ q. refl })
            (resubscribe-Alike l d))
  ]

  pub connection-Alike :
      (accepted : Bool) (c : Client maps api) → Alike c (connection_changed maps api accepted c)
  unfolding connection_changed
  connection-Alike true c =
      let d = record c { world = api.set_inpub_callback c.world true } in
      let l = maps.entries c.subscriptions in
      Alike-trans c d (subscribe_all maps api l d)
        (record { subscriptions = refl; active = refl; heap = λ q. refl }) (subscribe_all-Alike l d)
  connection-Alike false c = record { subscriptions = refl; active = refl; heap = λ q. refl }

  cond-Alike :
      (b : Bool) (c d e : Client maps api) → Alike c d → Alike c e → Alike c (if b then d else e)
  cond-Alike true c d e x y = x
  cond-Alike false c d e x y = y

  pub service-Alike : (tick : ℕ) (c : Client maps api) → Alike c (service maps api tick c)
  unfolding service
  service-Alike tick c =
      let (timer, fires) = poll c.health_check_timer tick in
      let d = record c { health_check_timer = timer } in
      let polled : Alike c d = record { subscriptions = refl; active = refl; heap = λ q. refl } in
      cond-Alike c.has_client c (if fires then health_check maps api d else d) c
        (cond-Alike fires c (health_check maps api d) d
          (Alike-trans c d (health_check maps api d) polled (health_check-Alike d)) polled)
        (Alike-refl c)
