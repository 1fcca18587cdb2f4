-- ===== src/Mqtt/Client.antt =====
-- The client's state and its functions. A `Subscription` belongs to the application, and the client
-- holds pointers to it: `heap` maps such a pointer to the object. lwIP's MQTT functions and ETL's
-- map are parameters; the deliveries to the application are a list.
use lwip_server.Base.{
  ℕ, ◌+◌, ◌-◌, ◌%◌, ◌^◌, ◌≡◌, Bool, true, false, not, Option, none, some, List, [], ◌∷◌, ◌++◌,
  length, take, drop, min, ◌==◌, if◌then◌else◌,
}
use lwip_server.Lwip.{Err, is_ok}
use lwip_server.LoopTimer.{LoopTimer, set_expiry, register_callback, poll}
use lwip_server.Mqtt.Topic.{Key}

-- `etl::flat_map<SubscriptionKey, Subscription *, 4>`, keyed up to the equivalence of `key_lt`.
pub record SubscriptionMap : Type 1 where
  pub Map : Type 0
  pub empty : Map
  pub full : Map → Bool
  pub emplace : Key → ℕ → Map → Map
  pub find : Key → Map → Option ℕ
  pub entries : Map → List (Key × ℕ)
  -- A key that is there keeps its value, whichever key is put in.
  pub emplace_keeps :
      (j k : Key) (v w : ℕ) (m : Map)
      → full m ≡ false
      → find j m ≡ some w
      → find j (emplace k v m) ≡ some w
  pub emplace_new :
      (k : Key) (v : ℕ) (m : Map)
      → find k m ≡ none
      → full m ≡ false
      → find k (emplace k v m) ≡ some v

pub record Publication : Type 0 where
  pub topic_name : Key
  pub payload : List ℕ

pub record Config : Type 0 where
  pub broker_ip_addr : ℕ
  pub broker_port : ℕ
  pub keep_alive : ℕ
  pub client_id : Key

-- lwIP's client: a state that each call takes and returns. The callbacks that the code passes are
-- the functions below, which the environment calls.
pub record MqttApi : Type 1 where
  pub World : Type 0
  pub client_new : World → Bool × World
  pub is_connected : World → Bool
  pub client_connect : World → Config → Err × World
  pub publish : World → Publication → Err × World
  pub subscribe : World → Key → Err × World
  -- Whether the two callbacks for incoming messages are set.
  pub set_inpub_callback : World → Bool → World

pub record Subscription : Type 0 where
  pub topic : Key
  pub buffer : List ℕ
  pub capacity : ℕ
  pub size : ℕ
  pub total_size : ℕ
  pub subscribed : Bool
  pub has_callback : Bool

abbrev pub Heap : Type 0
Heap = ℕ → Subscription

abbrev pub update : Heap → ℕ → Subscription → Heap
update heap p s q = if p == q then s else heap q

abbrev pub max_subscriptions : ℕ
max_subscriptions = 4

abbrev pub health_check_expiry : ℕ
health_check_expiry = 2000

module _ (maps : SubscriptionMap) (api : MqttApi) where
  open maps use {Map}
  open api use {World}

  pub record MqttClient : Type 0 where
    pub subscriptions : Map
    pub config : Config
    pub health_check_timer : LoopTimer
    pub has_client : Bool
    pub active_subscription : Option ℕ
    pub heap : Heap
    pub world : World

  abbrev pub Client : Type 0
  Client = MqttClient

  abbrev pub connected : Client → Bool
  connected c = api.is_connected c.world

  -- Whether the client could be allocated.
  unfoldable pub init : Config → Client → Bool × Client
  init cfg c =
      let (allocated, w) = api.client_new c.world in
      if not allocated then (false, record c { config = cfg; has_client = false; world = w }) else (
        true,
        record c {
          config = cfg;
          has_client = true;
          world = w;
          health_check_timer =
              register_callback (set_expiry c.health_check_timer health_check_expiry);
        },
      )

  unfoldable pub subscribe : ℕ → Client → Client
  subscribe p c =
      let (err, w) = api.subscribe c.world (c.heap p).topic in
      record c { heap = update c.heap p (record (c.heap p) { subscribed = is_ok err }); world = w }

  unfoldable pub register_subscription : ℕ → Client → Bool × Client
  register_subscription p c = if maps.full c.subscriptions then (false, c) else (
    true,
    subscribe p (record c { subscriptions = maps.emplace (c.heap p).topic p c.subscriptions }),
  )

  -- What `publicationRequest` is called with, if it is called at once.
  unfoldable pub publish : Publication → Client → Option Bool × Client
  publish pub_ c =
      let (err, w) = api.publish c.world pub_ in
      (if is_ok err then none else some false, record c { world = w })

  unfoldable pub connect : Client → Client
  connect c = record c { world = (api.client_connect c.world c.config).1 }

  -- The loop of `healthCheck` over the map.
  unfoldable pub resubscribe : List (Key × ℕ) → Client → Client
  resubscribe [] c = c
  resubscribe ((k, p) ∷ l) c =
      resubscribe l (if not (c.heap p).subscribed then subscribe p c else c)

  unfoldable pub health_check : Client → Client
  health_check c =
      let c' = if not (connected c) then connect c else c in
      resubscribe (maps.entries c'.subscriptions) c'

  -- The loop of `connectionChanged`.
  unfoldable pub subscribe_all : List (Key × ℕ) → Client → Client
  subscribe_all [] c = c
  subscribe_all ((k, p) ∷ l) c = subscribe_all l (subscribe p c)

  -- The status is MQTT_CONNECT_ACCEPTED, or it is not.
  unfoldable pub connection_changed : Bool → Client → Client
  connection_changed true c =
      subscribe_all (maps.entries c.subscriptions)
        (record c { world = api.set_inpub_callback c.world true })
  connection_changed false c = record c { world = api.set_inpub_callback c.world false }

  unfoldable pub announce : ℕ → Option ℕ → Client → Client
  announce total none c = c
  announce total (some p) c = record c {
    active_subscription = some p;
    heap = update c.heap p (record (c.heap p) { size = 0; total_size = total });
  }

  unfoldable pub incoming_publish : Key → ℕ → Client → Client
  unfolding announce
  incoming_publish topic total c =
      announce total (maps.find topic c.subscriptions) (record c { active_subscription = none })

  -- A message handed to the application: the subscription, and its buffer's bytes up to `size`.
  abbrev pub Delivery : Type 0
  Delivery = ℕ × List ℕ

  unfoldable pub store : Subscription → List ℕ → ℕ → Subscription
  store s bytes n = record s {
    buffer = take s.size s.buffer ++ take n bytes ++ drop (s.size + n) s.buffer;
    size = (s.size + n) % 2 ^ 32;
  }

  -- The part of `incomingData` after the copy.
  unfoldable pub finish : ℕ → ℕ → ℕ → Bool → Client → List Delivery × Client
  finish p n len is_last c =
      let s = c.heap p in
      if not (n == len)
      then ([], c)
      else if not is_last
      then ([], c)
      else if not (s.size == s.total_size)
      then ([], c)
      else (
        if s.has_callback then (p, take s.size s.buffer) ∷ [] else [],
        record c { active_subscription = none },
      )

  unfoldable pub receive_into : Option ℕ → List ℕ → Bool → Client → List Delivery × Client
  unfolding store finish
  receive_into none bytes is_last c = ([], c)
  receive_into (some p) bytes is_last c =
      let s = c.heap p in
      let n = min (length bytes) ((s.capacity + 2 ^ 32 - s.size) % 2 ^ 32) in
      finish p n (length bytes) is_last (record c { heap = update c.heap p (store s bytes n) })

  unfoldable pub incoming_data : List ℕ → Bool → Client → List Delivery × Client
  unfolding receive_into
  incoming_data bytes is_last c = receive_into c.active_subscription bytes is_last c

  -- The callbacks of lwIP's requests.
  abbrev pub publish_request_cb : Err → Bool
  publish_request_cb err = is_ok err

  unfoldable pub subscription_request_cb : ℕ → Err → Client → Client
  subscription_request_cb p result c = record c {
    heap = update c.heap p (record (c.heap p) { subscribed = is_ok result });
  }

  -- `service` at a tick of the system.
  unfoldable pub service : ℕ → Client → Client
  service tick c =
      let (timer, fires) = poll c.health_check_timer tick in
      let c' = record c { health_check_timer = timer } in
      if c.has_client then (if fires then health_check c' else c') else c
