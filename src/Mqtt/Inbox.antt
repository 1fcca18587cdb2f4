-- ===== src/Mqtt/Inbox.antt =====
-- What the MQTT client promises the application about messages, over every order of its callbacks:
-- an inbox that has at most one message under way. The client of src/network/MqttClient.cpp runs
-- beside it.
mod Alike
mod Shows
mod Portion
pub mod Refines
use lwip_server.Base.{
  ℕ, ◌≡◌, Bool, ◌&&◌, Option, none, some, List, [], ◌∷◌, ◌++◌, length, leb, take, ◌==◌,
  if◌then◌else◌,
}
use lwip_server.Lwip.{Err}
use lwip_server.Mqtt.Topic.{Key}
use lwip_server.Mqtt.Client.{
  SubscriptionMap, MqttApi, Publication, Subscription, Heap, Client, Delivery,
  register_subscription, publish, connection_changed, incoming_publish, incoming_data,
  subscription_request_cb, service,
}
use lwip_server.Mqtt.Receive.{IsValid}

-- What happens to a client: the application's calls, lwIP's callbacks and the main loop.
pub data Event : Type 0 where
  registers : ℕ → Event
  publishes : Publication → Event
  connection : Bool → Event
  announced : Key → ℕ → Event
  arrived : List ℕ → Bool → Event
  answered : ℕ → Err → Event
  served : ℕ → Event

-- A message under way: the subscription, its length as announced, and what has come so far.
pub record Message : Type 0 where
  pub subscription : ℕ
  pub total : ℕ
  pub bytes : List ℕ

module _ (maps : SubscriptionMap) (heap : Heap) where
  pub record Inbox : Type 0 where
    pub subscriptions : maps.Map
    pub current : Option Message

  -- As much of the message as the application's buffer holds.
  abbrev pub kept : Message → List ℕ → List ℕ
  kept m bytes = take (heap m.subscription).capacity (m.bytes ++ bytes)

  -- The message is complete: it fits, this was its last portion, and it has the announced length.
  abbrev pub completes : Message → List ℕ → Bool → Bool
  completes m bytes is_last =
      leb (length (m.bytes ++ bytes)) (heap m.subscription).capacity
      && (is_last && (length (kept m bytes) == m.total))

  abbrev pub take_in : Option Message → List ℕ → Bool → Inbox → List (ℕ × List ℕ) × Inbox
  take_in none bytes is_last i = ([], i)
  take_in (some m) bytes is_last i =
      if completes m bytes is_last
      then (
        if (heap m.subscription).has_callback then (m.subscription, kept m bytes) ∷ [] else [],
        record i { current = none },
      )
      else ([], record i { current = some (record m { bytes = kept m bytes }) })

  abbrev pub begin : ℕ → Option ℕ → Option Message
  begin total none = none
  begin total (some p) = some (record { subscription = p; total = total; bytes = [] })

  abbrev pub inbox_step : Event → Inbox → List (ℕ × List ℕ) × Inbox
  inbox_step (registers p) i = (
    [],
    if maps.full i.subscriptions
        then i
        else record i { subscriptions = maps.emplace (heap p).topic p i.subscriptions },
  )
  inbox_step (announced topic total) i =
      ([], record i { current = begin total (maps.find topic i.subscriptions) })
  inbox_step (arrived bytes is_last) i = take_in i.current bytes is_last i
  inbox_step _ i = ([], i)

  unfoldable pub inbox_run : List Event → Inbox → List (ℕ × List ℕ) × Inbox
  inbox_run [] i = ([], i)
  inbox_run (e ∷ es) i =
      let (out, i1) = inbox_step e i in let (rest, i2) = inbox_run es i1 in (out ++ rest, i2)

module _ (maps : SubscriptionMap) (api : MqttApi) where
  abbrev pub step : Event → Client maps api → List (Delivery maps api) × Client maps api
  step (registers p) c = ([], (register_subscription maps api p c).1)
  step (publishes p) c = ([], (publish maps api p c).1)
  step (connection accepted) c = ([], connection_changed maps api accepted c)
  step (announced topic total) c = ([], incoming_publish maps api topic total c)
  step (arrived bytes is_last) c = incoming_data maps api bytes is_last c
  step (answered p result) c = ([], subscription_request_cb maps api p result c)
  step (served tick) c = ([], service maps api tick c)

  unfoldable pub run : List Event → Client maps api → List (Delivery maps api) × Client maps api
  run [] c = ([], c)
  run (e ∷ es) c = let (out, c1) = step e c in let (rest, c2) = run es c1 in (out ++ rest, c2)
