-- ===== src/Mqtt/Inbox/Shows.antt =====
-- When the inbox shows what the client of src/network/MqttClient.cpp holds, and the operations that
-- leave the message under way alone or begin one.
use lwip_server.Base.{
  ℕ, ◌≡◌, refl, sym, ap, ap₂, ◌∙◌, true, Option, none, some, take, arith, Bool-cases, inl, inr,
  ◌==◌,
}
use lwip_server.Mqtt.Client.{
  SubscriptionMap, MqttApi, Subscription, Heap, Client, subscribe, register_subscription, announce,
}
use lwip_server.Mqtt.Receive.{IsValid, announce-IsValid}
use lwip_server.Mqtt.Inbox.{registers, Message, Inbox, begin, inbox_step}
use lwip_server.Mqtt.Inbox.Alike.{Alike, subscribe-Alike}

pub self : (p : ℕ) → (p == p) ≡ true
self p = ground arith

-- What the application set up once.
pub record Same (s t : Subscription) : Type 0 where
  pub topic : t.topic ≡ s.topic
  pub capacity : t.capacity ≡ s.capacity
  pub has_callback : t.has_callback ≡ s.has_callback

-- The message under way lies in the buffer of its subscription.
pub record Holds (m : Message) (s : Subscription) : Type 0 where
  pub total : s.total_size ≡ m.total
  pub bytes : take s.size s.buffer ≡ m.bytes

module _ (maps : SubscriptionMap) (api : MqttApi) (heap : Heap) where
  abbrev pub Current : Option Message → Client maps api → Type 0
  Current none c = c.active_subscription ≡ none
  Current (some m) c =
      (c.active_subscription ≡ some m.subscription) × Holds m (c.heap m.subscription)

  pub record Shows (i : Inbox maps heap) (c : Client maps api) : Type 0 where
    pub subscriptions : c.subscriptions ≡ i.subscriptions
    pub valid : IsValid maps api c
    pub same : (q : ℕ) → Same (heap q) (c.heap q)
    pub current : Current i.current c

  Alike-Current :
      (o : Option Message) (c d : Client maps api) → Alike maps api c d → Current o c → Current o d
  Alike-Current none c d a h = a.active ∙ h
  Alike-Current (some m) c d a h =
      (a.active ∙ h.0, rw (a.heap m.subscription) (record { total = h.1.total; bytes = h.1.bytes }))

  pub Alike-Shows :
      (i : Inbox maps heap) (c d : Client maps api) → Alike maps api c d → Shows i c → Shows i d
  Alike-Shows i c d a h = record {
    subscriptions = a.subscriptions ∙ h.subscriptions;
    valid = λ q. rw (a.heap q) (record {
      memory = (h.valid q).memory;
      size_in = (h.valid q).size_in;
      capacity_in = (h.valid q).capacity_in;
    });
    same = λ q. rw (a.heap q) (record {
      topic = (h.same q).topic;
      capacity = (h.same q).capacity;
      has_callback = (h.same q).has_callback;
    });
    current = Alike-Current i.current c d a h.current;
  }

  Current-map :
      (o : Option Message) (c : Client maps api) (m : maps.Map)
      → Current o c
      → Current o (record c { subscriptions = m })
  Current-map none c m h = h
  Current-map (some x) c m h = h

  pub register-Shows :
      (p : ℕ) (i : Inbox maps heap) (c : Client maps api)
      → Shows i c
      → Shows (inbox_step maps heap (registers p) i).1 (register_subscription maps api p c).1
  unfolding register_subscription
  register-Shows p i c h =
      let m = maps.emplace (heap p).topic p i.subscriptions in
      let c1 = record c { subscriptions = maps.emplace (c.heap p).topic p c.subscriptions } in
      let i1 = record i { subscriptions = m } in
      let full_too = ap maps.full (sym h.subscriptions) in
      elim (Bool-cases (maps.full c.subscriptions)) [
        | inl full ↦ rw (full, full_too ∙ full) h
        | inr room ↦
            rw (room, full_too ∙ room)
              (Alike-Shows i1 c1 (subscribe maps api p c1) (subscribe-Alike maps api p c1) (record {
                subscriptions = ap₂ (λ t x. maps.emplace t p x) (h.same p).topic h.subscriptions;
                valid = h.valid;
                same = h.same;
                current = Current-map i.current c (c1.subscriptions) h.current;
              }))
      ]

  pub announce-Shows :
      (total : ℕ) (o : Option ℕ) (i : Inbox maps heap) (c : Client maps api)
      → Shows i c
      → c.active_subscription ≡ none
      → Shows (record i { current = begin maps heap total o }) (announce maps api total o c)
  unfolding announce
  announce-Shows total none i c h a = record {
    subscriptions = h.subscriptions;
    valid = h.valid;
    same = h.same;
    current = a;
  }
  announce-Shows total (some p) i c h a = record {
    subscriptions = h.subscriptions;
    valid = unfold announce in announce-IsValid maps api total (some p) c h.valid;
    same = λ q. elim (Bool-cases (p == q)) [
      | inl e ↦
          let at : p ≡ q = ground (arith, e) in
          rw e (
            rw at (record {
              topic = (h.same q).topic;
              capacity = (h.same q).capacity;
              has_callback = (h.same q).has_callback;
            }))
      | inr e ↦ rw e (h.same q)
    ];
    current = (refl, rw (self p) (record { total = refl; bytes = refl }));
  }
