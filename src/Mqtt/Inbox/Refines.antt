-- ===== src/Mqtt/Inbox/Refines.antt =====
-- The client of src/network/MqttClient.cpp keeps the promise of the inbox.
use lwip_server.Base.{◌≡◌, refl, subst, ap, ap₂, none, List, [], ◌∷◌, ◌++◌}
use lwip_server.Mqtt.Client.{SubscriptionMap, MqttApi, Heap, Client, announce, incoming_publish}
use lwip_server.Mqtt.Receive.{IsValid}
use lwip_server.Mqtt.Inbox.{
  Event, registers, publishes, connection, announced, arrived, answered, served, Inbox, begin,
  inbox_step, inbox_run, step, run,
}
use lwip_server.Mqtt.Inbox.Alike.{publish-Alike, answered-Alike, connection-Alike, service-Alike}
use lwip_server.Mqtt.Inbox.Shows.{Shows, Alike-Shows, register-Shows, announce-Shows}
use lwip_server.Mqtt.Inbox.Portion.{receive-Shows}

module _ (maps : SubscriptionMap) (api : MqttApi) (heap : Heap) where
  step-Shows :
      (e : Event) (i : Inbox maps heap) (c : Client maps api)
      → Shows maps api heap i c
      → let r = step maps api e c in
        let a = inbox_step maps heap e i in (r.0 ≡ a.0) × Shows maps api heap a.1 r.1
  unfolding incoming_publish
  step-Shows (registers p) i c h = (refl, register-Shows maps api heap p i c h)
  step-Shows (publishes p) i c h =
      (refl, Alike-Shows maps api heap i c _ (publish-Alike maps api p c) h)
  step-Shows (connection accepted) i c h =
      (refl, Alike-Shows maps api heap i c _ (connection-Alike maps api accepted c) h)
  step-Shows (announced topic total) i c h =
      let c1 = record c { active_subscription = none } in
      let i1 = record i { current = none } in
      (
        refl,
        subst
            (λ o.
              Shows maps api heap (record i { current = begin maps heap total o })
                (announce maps api total (maps.find topic c.subscriptions) c1))
            (ap (maps.find topic) h.subscriptions)
            (announce-Shows maps api heap total (maps.find topic c.subscriptions) i1 c1
              (record {
                subscriptions = h.subscriptions;
                valid = h.valid;
                same = h.same;
                current = refl;
              })
              refl),
      )
  step-Shows (arrived bytes is_last) i c h =
      receive-Shows maps api heap i.current bytes is_last i c h refl h.current
  step-Shows (answered p result) i c h =
      (refl, Alike-Shows maps api heap i c _ (answered-Alike maps api p result c) h)
  step-Shows (served tick) i c h =
      (refl, Alike-Shows maps api heap i c _ (service-Alike maps api tick c) h)

  run-Shows :
      (es : List Event) (i : Inbox maps heap) (c : Client maps api)
      → Shows maps api heap i c
      → (run maps api es c).0 ≡ (inbox_run maps heap es i).0
  unfolding run inbox_run
  run-Shows [] i c h = refl
  run-Shows (e ∷ es) i c h =
      let (out, next) = step-Shows e i c h in
      ap₂ (◌++◌) out (run-Shows es (inbox_step maps heap e i).1 (step maps api e c).1 next)

-- Messages are delivered whole and in order. Whatever the application, the broker and lwIP do, in
-- any order, from a client with no message under way, whose buffers have the sizes that they are
-- said to have: what it hands to the application is what the inbox hands over. The inbox holds one
-- message at most; it begins anew with each announcement for a topic that is registered, joins the
-- portions in order as far as they fit the subscription's buffer, and hands over the message when a
-- portion that fits is the last and the bytes are as many as announced. Registrations, requests,
-- answers, a lost connection and the main loop neither lose nor add a byte.
pub run-inbox_run :
    (maps : SubscriptionMap) (api : MqttApi) (es : List Event) (c : Client maps api)
    → IsValid maps api c
    → c.active_subscription ≡ none
    → (run maps api es c).0
      ≡ (inbox_run maps c.heap es (record { subscriptions = c.subscriptions; current = none })).0
run-inbox_run maps api es c v a =
    run-Shows maps api c.heap es (record { subscriptions = c.subscriptions; current = none }) c
      (record {
        subscriptions = refl;
        valid = v;
        same = λ q. record { topic = refl; capacity = refl; has_callback = refl };
        current = a;
      })
