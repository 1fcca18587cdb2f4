-- ===== src/Mqtt/Health.antt =====
-- Subscriptions: which object a topic is dispatched to, and the periodic check that renews them.
use lwip_server.Base.{
  ℕ, ◌≡◌, refl, Bool, true, false, not, if◌then◌else◌, Option, none, some, List, [], ◌∷◌,
  Bool-cases, inl, inr,
}
use lwip_server.Lwip.{is_ok}
use lwip_server.Mqtt.Topic.{Key}
use lwip_server.Mqtt.Client.{
  SubscriptionMap, Config, MqttApi, Client, announce, incoming_publish, subscribe, health_check,
  register_subscription, connection_changed,
}

module _ (maps : SubscriptionMap) (api : MqttApi) where
  -- Every subscription of a list is subscribed to the broker.
  abbrev pub AllSubscribed : List (Key × ℕ) → Client maps api → Type 0
  AllSubscribed [] c = Unit {0}
  AllSubscribed ((k, p) ∷ l) c = ((c.heap p).subscribed ≡ true) × AllSubscribed l c

  -- What lwIP documents of the broker: it takes a subscription request over a connection only, and
  -- returns an error without one; a request is sent later and so is the request for a connection,
  -- whose outcome lwIP reports by a callback.
  pub record BrokerLaws : Type 0 where
    pub takes : (w : api.World) (k : Key) → is_ok (api.subscribe w k).0 ≡ api.is_connected w
    pub subscribe_later :
        (w : api.World) (k : Key) → api.is_connected (api.subscribe w k).1 ≡ api.is_connected w
    pub connect_later :
        (w : api.World) (cfg : Config)
        → api.is_connected (api.client_connect w cfg).1 ≡ api.is_connected w
    pub inpub_keeps :
        (w : api.World) (on : Bool)
        → api.is_connected (api.set_inpub_callback w on) ≡ api.is_connected w

  module _ (laws : BrokerLaws) where
    abbrev renewed : ℕ → Client maps api → Client maps api
    renewed p c = if not (c.heap p).subscribed then subscribe maps api p c else c

    -- What comes of the subscriptions, with a connection to the broker and without one.
    pub Checked : Bool → Client maps api → Type 0
    Checked true c =
        AllSubscribed (maps.entries c.subscriptions) (health_check maps api c)
        × AllSubscribed (maps.entries c.subscriptions) (connection_changed maps api true c)
    Checked false c =
        (q : ℕ) → ((health_check maps api c).heap q).subscribed ≡ (c.heap q).subscribed

  -- Registrations, one after the other.
  pub registered : List ℕ → Client maps api → Client maps api
  registered [] c = c
  registered (p ∷ ps) c = registered ps (register_subscription maps api p c).1

  register_keeps :
      (p q : ℕ) (k : Key) (c : Client maps api)
      → maps.find k c.subscriptions ≡ some q
      → maps.find k (register_subscription maps api p c).1.subscriptions ≡ some q
  unfolding register_subscription subscribe
  register_keeps p q k c e = elim (Bool-cases (maps.full c.subscriptions)) [
    | inl full ↦ rw full e
    | inr room ↦ rw room (maps.emplace_keeps k (c.heap p).topic p q c.subscriptions room e)
  ]

  registered_keeps :
      (ps : List ℕ) (q : ℕ) (k : Key) (c : Client maps api)
      → maps.find k c.subscriptions ≡ some q
      → maps.find k (registered ps c).subscriptions ≡ some q
  unfolding registered
  registered_keeps [] q k c e = e
  registered_keeps (p ∷ ps) q k c e =
      registered_keeps ps q k (register_subscription maps api p c).1 (register_keeps p q k c e)

  -- The subscription to which a topic goes once p is registered for it.
  abbrev pub owner : ℕ → Option ℕ → ℕ
  owner p none = p
  owner p (some q) = q

  register-owner :
      (p : ℕ) (c : Client maps api) (o : Option ℕ)
      → maps.full c.subscriptions ≡ false
      → maps.find (c.heap p).topic c.subscriptions ≡ o
      → maps.find (c.heap p).topic (register_subscription maps api p c).1.subscriptions
        ≡ some (owner p o)
  unfolding register_subscription subscribe
  register-owner p c none room e =
      rw room (maps.emplace_new (c.heap p).topic p c.subscriptions e room)
  register-owner p c (some q) room e =
      rw room (maps.emplace_keeps (c.heap p).topic (c.heap p).topic p q c.subscriptions room e)

  register_ok :
      (p : ℕ) (c : Client maps api)
      → maps.full c.subscriptions ≡ false
      → (register_subscription maps api p c).0 ≡ true
  unfolding register_subscription
  register_ok p c room = rw room refl

  incoming-active :
      (k : Key) (total q : ℕ) (c : Client maps api)
      → maps.find k c.subscriptions ≡ some q
      → (incoming_publish maps api k total c).active_subscription ≡ some q
  unfolding incoming_publish announce
  incoming-active k total q c e = rw e refl

  -- A registration that finds room in the map is reported as a success. After it, and after any
  -- further registrations, a message of its topic goes to the subscription that was registered for
  -- the topic before, and to the new one only if there was none. So a second object for a topic is
  -- reported as registered, but a message of the topic goes to the first.
  pub find-register_subscription :
      (p : ℕ) (ps : List ℕ) (total : ℕ) (c : Client maps api)
      → maps.full c.subscriptions ≡ false
      → let topic = (c.heap p).topic in
        let r = register_subscription maps api p c in
        (r.0 ≡ true)
        × ((incoming_publish maps api topic total (registered ps r.1)).active_subscription
            ≡ some (owner p (maps.find topic c.subscriptions)))
  find-register_subscription p ps total c room =
      let topic = (c.heap p).topic in
      let r = register_subscription maps api p c in
      let q = owner p (maps.find topic c.subscriptions) in
      (
        register_ok p c room,
        incoming-active topic total q (registered ps r.1)
            (registered_keeps ps q topic r.1 (register-owner p c _ room refl)),
      )
