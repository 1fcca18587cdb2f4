-- ===== src/Mqtt/Inbox/Portion.antt =====
-- A portion of a message (`incomingData` of src/network/MqttClient.cpp) and the inbox.
use lwip_server.Base.{
  ℕ, ◌+◌, ◌-◌, ◌%◌, ◌^◌, ◌≤◌, ◌≡◌, refl, sym, subst, ap, ap₂, ◌∙◌, Bool, true, false, not, ◌&&◌,
  Option, none, some, List, [], ◌∷◌, ◌++◌, length, length-append, length-take, leb, take, min,
  arith, Bool-cases, inl, inr, ◌==◌, if◌then◌else◌,
}
use lwip_server.Mqtt.Client.{
  SubscriptionMap, MqttApi, Subscription, Heap, update, Client, incoming_data, store, finish,
  receive_into,
}
use lwip_server.Mqtt.Receive.{Fits, IsValid, store-Fits, room_lem, store-kept}
use lwip_server.Mqtt.Inbox.{Message, Inbox, kept, completes, take_in}
use lwip_server.Mqtt.Inbox.Shows.{self, Same, Holds, Current, Shows}

nest {ℓ} :
    {A : Type ℓ} (a b d : Bool) (x y : A)
    → (if not a then y else if not b then y else if not d then y else x)
      ≡ (if a && (b && d) then x else y)
nest true true true x y = refl
nest true true false x y = refl
nest true false d x y = refl
nest false b d x y = refl

module _ (maps : SubscriptionMap) (api : MqttApi) (heap : Heap) where
  -- What a portion makes of the subscription, of which n bytes are copied.
  record Stored (m : Message) (bytes : List ℕ) (n : ℕ) (t : Subscription) : Type 0 where
    same : Same (heap m.subscription) t
    total : t.total_size ≡ m.total
    size : t.size ≡ length (kept maps heap m bytes)
    bytes_kept : take t.size t.buffer ≡ kept maps heap m bytes
    whole : (n == length bytes) ≡ leb (length (m.bytes ++ bytes)) (heap m.subscription).capacity

  store-Stored :
      (m : Message) (bytes : List ℕ) (n : ℕ) (s : Subscription)
      → Fits s
      → Same (heap m.subscription) s
      → Holds m s
      → n ≡ min (length bytes) (s.capacity - s.size)
      → Stored m bytes n (store maps api s bytes n)
  unfolding store
  store-Stored m bytes n s f same h e =
      let front : length m.bytes ≡ s.size =
        omega (arith, sym (ap length h.bytes), length-take s.size s.buffer, f.memory, f.size_in) in
      let room : s.size + n ≤ s.capacity = omega (arith, f.size_in) in
      let both = length-append m.bytes bytes in
      let cut = length-take (heap m.subscription).capacity (m.bytes ++ bytes) in
      let sum : (s.size + n) % 2 ^ 32 ≡ s.size + n = omega (arith, f.capacity_in) in
      record {
        same = record {
          topic = same.topic;
          capacity = same.capacity;
          has_callback = same.has_callback;
        };
        total = h.total;
        size = omega (arith, same.capacity);
        bytes_kept =
            rw sum (unfold store in store-kept maps api s bytes n f e)
            ∙ ap₂ (λ k l. take k (l ++ bytes)) same.capacity h.bytes;
        whole = ground (arith, same.capacity);
      }

  finish-nested :
      (p n len : ℕ) (is_last : Bool) (c : Client maps api)
      → let s = c.heap p in
        finish maps api p n len is_last c ≡ (
          if (n == len) && (is_last && (s.size == s.total_size))
          then (
            if s.has_callback then (p, take s.size s.buffer) ∷ [] else [],
            record c { active_subscription = none },
          )
          else ([], c))
  unfolding finish
  finish-nested p n len is_last c =
      nest (n == len) is_last ((c.heap p).size == (c.heap p).total_size) _ _

  -- The client after a portion, before `finish` looks whether the message is complete.
  abbrev written : ℕ → ℕ → List ℕ → Client maps api → Client maps api
  written p n bytes c = record c { heap = update c.heap p (store maps api (c.heap p) bytes n) }

  written-IsValid :
      (p n : ℕ) (bytes : List ℕ) (c : Client maps api)
      → IsValid maps api c
      → n ≡ min (length bytes) ((c.heap p).capacity - (c.heap p).size)
      → IsValid maps api (written p n bytes c)
  written-IsValid p n bytes c v e = λ q. elim (Bool-cases (p == q)) [
    | inl at ↦
        rw at (
          store-Fits maps api (c.heap p) bytes n (v p) (omega arith) (omega (arith, (v p).size_in)))
    | inr apart ↦ rw apart (v q)
  ]

  written-Same :
      (p n : ℕ) (bytes : List ℕ) (c : Client maps api)
      → ((q : ℕ) → Same (heap q) (c.heap q))
      → Same (heap p) (store maps api (c.heap p) bytes n)
      → (q : ℕ) → Same (heap q) ((written p n bytes c).heap q)
  written-Same p n bytes c same st q = elim (Bool-cases (p == q)) [
    | inl at ↦
        let here : p ≡ q = ground (arith, at) in
        rw at (subst (λ r. Same (heap r) (store maps api (c.heap p) bytes n)) here st)
    | inr apart ↦ rw apart (same q)
  ]

  finish-take_in :
      (m : Message) (bytes : List ℕ) (n : ℕ) (is_last : Bool) (i : Inbox maps heap)
      (c : Client maps api)
      → c.subscriptions ≡ i.subscriptions
      → IsValid maps api c
      → ((q : ℕ) → Same (heap q) (c.heap q))
      → c.active_subscription ≡ some m.subscription
      → Stored m bytes n (c.heap m.subscription)
      → let r = finish maps api m.subscription n (length bytes) is_last c in
        let a = take_in maps heap (some m) bytes is_last i in
        (r.0 ≡ a.0) × Shows maps api heap a.1 r.1
  finish-take_in m bytes n is_last i c subs valid same active st =
      let p = m.subscription in
      let s = c.heap p in
      let done : ((n == length bytes) && (is_last && (s.size == s.total_size)))
          ≡ completes maps heap m bytes is_last =
        rw (st.whole, st.size, st.total) refl in
      rw (finish-nested p n (length bytes) is_last c, done)
        (elim (Bool-cases (completes maps heap m bytes is_last)) [
          | inl e ↦ rw e (
            rw ((same p).has_callback, st.bytes_kept) refl,
            record { subscriptions = subs; valid = valid; same = same; current = refl },
          )
          | inr e ↦ rw e (
            refl,
            record {
              subscriptions = subs;
              valid = valid;
              same = same;
              current = (active, record { total = st.total; bytes = st.bytes_kept });
            },
          )
        ])

  -- The same deliveries, and a state that the inbox shows.
  abbrev pub Agrees :
      List (ℕ × List ℕ) × Inbox maps heap → List (ℕ × List ℕ) × Client maps api → Type 0
  Agrees a r = (r.0 ≡ a.0) × Shows maps api heap a.1 r.1

  pub receive-Shows :
      (o : Option Message) (bytes : List ℕ) (is_last : Bool) (i : Inbox maps heap)
      (c : Client maps api)
      → Shows maps api heap i c
      → i.current ≡ o
      → Current maps api heap o c
      → let r = incoming_data maps api bytes is_last c in
        let a = take_in maps heap o bytes is_last i in (r.0 ≡ a.0) × Shows maps api heap a.1 r.1
  unfolding incoming_data receive_into
  receive-Shows none bytes is_last i c h e a =
      subst (λ q. Agrees ([], i) (receive_into maps api q bytes is_last c)) (sym a) (refl, h)
  receive-Shows (some m) bytes is_last i c h e (a, held) =
      let p = m.subscription in
      let s = c.heap p in
      let n = min (length bytes) ((s.capacity + 2 ^ 32 - s.size) % 2 ^ 32) in
      let st =
        store-Stored m bytes n s (h.valid p) (h.same p) held
          (omega (arith, room_lem maps api s (h.valid p))) in
      subst
        (λ q.
          Agrees (take_in maps heap (some m) bytes is_last i)
            (receive_into maps api q bytes is_last c))
        (sym a)
        (finish-take_in m bytes n is_last i (written p n bytes c) h.subscriptions
          (written-IsValid p n bytes c h.valid (omega (arith, room_lem maps api s (h.valid p))))
          (written-Same p n bytes c h.same st.same) a (rw (self p) st))
