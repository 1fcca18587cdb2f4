-- ===== src/Mqtt/Tests.antt =====
-- The client at concrete inputs, over a list of subscriptions and a broker that can be connected.
use lwip_server.Base.{
  ℕ, ◌+◌, ◌≡◌, ◌≢◌, ◌↔◌, refl, Bool, true, false, not, ◌&&◌, Option, none, some, List, [], ◌∷◌,
  ◌++◌, length, leb, arith, replicate, if◌then◌else◌,
}
use lwip_server.Lwip.{Err, err_ok, err_other, is_ok}
use lwip_server.Mqtt.Topic.{Key, null, at, key_lt, SameTopic, key_lt_irrefl, key_lt-SameTopic}
use lwip_server.Mqtt.Client.{
  SubscriptionMap, MqttApi, Subscription, Client, incoming_publish, incoming_data,
  register_subscription,
}
use lwip_server.Mqtt.Receive.{IsValid, incoming_data-IsValid, incoming_publish-IsValid}
use lwip_server.Mqtt.Message.{receive, receive-incoming_publish}
use lwip_server.Mqtt.Inbox.{Event, announced, arrived, served, run, inbox_run}
use lwip_server.Mqtt.Inbox.Refines.{run-inbox_run}
use lwip_server.Mqtt.Health.{BrokerLaws, registered, find-register_subscription}

abbrev Table : Type 0
Table = List (Key × ℕ)

abbrev same_key : Key → Key → Bool
same_key k j = not (key_lt k j) && not (key_lt j k)

find_in : Key → Table → Option ℕ
find_in k [] = none
find_in k ((j, v) ∷ m) = if same_key k j then some v else find_in k m

abbrev emplace_in : Key → ℕ → Table → Table
emplace_in k v m = elim (find_in k m) [ none ↦ m ++ ((k, v) ∷ []) | some w ↦ m ]

find_in-append :
    (j : Key) (w : ℕ) (m n : Table) → find_in j m ≡ some w → find_in j (m ++ n) ≡ some w
unfolding find_in
find_in-append j w [] n e = cc e
find_in-append j w ((k, v) ∷ m) n e = ground (arith, find_in-append j w m n)

find_in-last :
    (k : Key) (v : ℕ) (m : Table) → find_in k m ≡ none → find_in k (m ++ ((k, v) ∷ [])) ≡ some v
unfolding find_in
find_in-last k v [] e = rw (key_lt_irrefl k) refl
find_in-last k v ((j, w) ∷ m) e = ground (arith, find_in-last k v m)

emplace_in_keeps :
    (j k : Key) (v w : ℕ) (m : Table)
    → leb 4 (length m) ≡ false
    → find_in j m ≡ some w
    → find_in j (emplace_in k v m) ≡ some w
emplace_in_keeps j k v w m room e = keeps (find_in k m)
  where
    keeps : (o : Option ℕ) → find_in j (elim o [ none ↦ m ++ ((k, v) ∷ []) | some w ↦ m ]) ≡ some w
    keeps none = find_in-append j w m ((k, v) ∷ []) e
    keeps (some x) = e

emplace_in_new :
    (k : Key) (v : ℕ) (m : Table)
    → find_in k m ≡ none
    → leb 4 (length m) ≡ false
    → find_in k (emplace_in k v m) ≡ some v
emplace_in_new k v m e room = added (find_in k m) e
  where
    added :
        (o : Option ℕ)
        → o ≡ none
        → find_in k (elim o [ none ↦ m ++ ((k, v) ∷ []) | some w ↦ m ]) ≡ some v
    added none _ = find_in-last k v m e
    added (some w) h = cc h

abbrev table : SubscriptionMap
table = record {
  Map = Table;
  empty = [];
  full = λ m. leb 4 (length m);
  emplace = emplace_in;
  find = find_in;
  entries = λ m. m;
  emplace_keeps = emplace_in_keeps;
  emplace_new = emplace_in_new;
}

-- Whether the client is connected, and the number of requests.
record Link : Type 0 where
  up : Bool
  requests : ℕ

abbrev asked : Link → Err × Link
asked w = (if w.up then err_ok else err_other 11, record w { requests = w.requests + 1 })

abbrev broker : MqttApi
broker = record {
  World = Link;
  client_new = λ w. (true, w);
  is_connected = λ w. w.up;
  client_connect = λ w cfg. (err_ok, record w { requests = w.requests + 1 });
  publish = λ w p. asked w;
  subscribe = λ w k. asked w;
  set_inpub_callback = λ w on. w;
}

asked_ok : (up : Bool) → is_ok (if up then err_ok else err_other 11) ≡ up
asked_ok true = refl
asked_ok false = refl

abbrev broker_laws : BrokerLaws table broker
broker_laws = record {
  takes = λ w k. asked_ok w.up;
  subscribe_later = λ w k. refl;
  connect_later = λ w cfg. refl;
  inpub_keeps = λ w on. refl;
}

abbrev clock_topic : Key
clock_topic = at (record { address = 0x800; text = b'c' ∷ b'l' ∷ b'k' ∷ [] })

abbrev clock_elsewhere : Key
clock_elsewhere = at (record { address = 0x900; text = b'c' ∷ b'l' ∷ b'k' ∷ [] })

abbrev clip_topic : Key
clip_topic = at (record { address = 0x700; text = b'c' ∷ b'l' ∷ b'i' ∷ b'p' ∷ [] })

abbrev clock : Subscription
clock = record {
  topic = clock_topic;
  buffer = 0 ∷ 0 ∷ 0 ∷ 0 ∷ 0 ∷ 0 ∷ [];
  capacity = 6;
  size = 0;
  total_size = 0;
  subscribed = false;
  has_callback = true;
}

abbrev client : Client table broker
client = record {
  subscriptions = (clock_topic, 1) ∷ [];
  config = record {
    broker_ip_addr = 0xC0A8700B;
    broker_port = 1883;
    keep_alive = 25;
    client_id = null;
  };
  health_check_timer = record { expiry = 2000; prev_tick = 0; has_callback = true };
  has_client = true;
  active_subscription = none;
  heap = λ p. clock;
  world = record { up = true; requests = 0 };
}

client-IsValid : IsValid table broker client
client-IsValid p = record { memory = refl; size_in = omega arith; capacity_in = omega arith }

key_lt-SameTopic_example :
    ((key_lt clock_topic clock_elsewhere ≡ false) × (key_lt clock_elsewhere clock_topic ≡ false))
    ↔ SameTopic clock_topic clock_elsewhere
key_lt-SameTopic_example = key_lt-SameTopic clock_topic clock_elsewhere (λ e. refl)

incoming_data-IsValid_example :
    IsValid table broker
      (incoming_data table broker
        (replicate 40 7)
        true
        (incoming_publish table broker clock_topic 40 client)).1
incoming_data-IsValid_example =
    incoming_data-IsValid table broker (replicate 40 7) true
      (incoming_publish table broker clock_topic 40 client)
      (incoming_publish-IsValid table broker clock_topic 40 client client-IsValid)

found : find_in clock_elsewhere ((clock_topic, 1) ∷ []) ≡ some 1
unfolding find_in key_lt
found = refl

-- A message of four bytes, in two portions.
abbrev portions : List (List ℕ)
portions = (1 ∷ 2 ∷ []) ∷ (3 ∷ 4 ∷ []) ∷ []

portions-ne-nil : portions ≢ []
portions-ne-nil = ground arith

clock_found : find_in clock_topic ((clock_topic, 1) ∷ []) ≡ some 1
unfolding find_in key_lt
clock_found = refl

receive-incoming_publish_example :
    (receive table broker portions (incoming_publish table broker clock_topic 4 client)).0
    ≡ (1, 1 ∷ 2 ∷ 3 ∷ 4 ∷ []) ∷ []
receive-incoming_publish_example =
    receive-incoming_publish table broker clock_topic 1 portions client client-IsValid clock_found
      refl portions-ne-nil

find-register_subscription_example :
    let r = register_subscription table broker 9 client in
    let later = registered table broker (5 ∷ 9 ∷ []) r.1 in
    (r.0 ≡ true)
    × ((incoming_publish table broker clock_topic 4 later).active_subscription ≡ some 1)
unfolding find_in key_lt
find-register_subscription_example =
    find-register_subscription table broker 9 (5 ∷ 9 ∷ []) 4 client refl

-- Two portions, with a health check between them.
abbrev events : List Event
events =
    announced clock_elsewhere 4
    ∷ arrived (1 ∷ 2 ∷ []) false
    ∷ served 5000
    ∷ arrived (3 ∷ 4 ∷ []) true
    ∷ []

run-inbox_run_example :
    (run table broker events client).0
    ≡ (inbox_run table
        (λ p. clock)
        events
        (record { subscriptions = (clock_topic, 1) ∷ []; current = none })).0
run-inbox_run_example = run-inbox_run table broker events client client-IsValid refl

handed_over :
    (inbox_run table
      (λ p. clock)
      events
      (record { subscriptions = (clock_topic, 1) ∷ []; current = none })).0
    ≡ (1, 1 ∷ 2 ∷ 3 ∷ 4 ∷ []) ∷ []
unfolding inbox_run find_in key_lt
handed_over = refl
