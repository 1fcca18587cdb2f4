-- ===== src/Mqtt/Receive.antt =====
-- Incoming messages: the buffers of the subscriptions, and which messages are delivered.
use lwip_server.Base.{
  ℕ, zero, suc, ◌+◌, ◌-◌, ◌%◌, ◌^◌, ◌≤◌, ◌<◌, ◌≡◌, refl, sym, ap, ◌∙◌, Bool, Option, none, some,
  List, [], ◌∷◌, ◌++◌, arith, length, length-append, length-take, length-drop, take,
  take-append_right, take-min, drop, min, Bool-cases, inl, inr, ◌==◌,
}
use mathlib.Core.List.{append_assoc}
use lwip_server.Mqtt.Topic.{Key}
use lwip_server.Mqtt.Client.{
  SubscriptionMap, MqttApi, Subscription, update, Client, announce, incoming_publish, store, finish,
  receive_into, incoming_data,
}

-- The memory that the application gave is there, and the bytes counted are inside it.
pub record Fits (s : Subscription) : Type 0 where
  pub memory : length s.buffer ≡ s.capacity
  pub size_in : s.size ≤ s.capacity
  pub capacity_in : s.capacity < 2 ^ 32

module _ {ℓ} {A : Type ℓ} where
  take-length : (xs : List A) (n : ℕ) → n ≡ length xs → take n xs ≡ xs
  take-length [] zero e = refl
  take-length [] (suc n) e = refl
  take-length (x ∷ xs) zero e = absurd (omega arith)
  take-length (x ∷ xs) (suc n) e = ap (λ t. x ∷ t) (take-length xs n (omega arith))

  take-append : (xs ys : List A) (n : ℕ) → n ≡ length xs → take n (xs ++ ys) ≡ xs
  take-append [] ys zero e = refl
  take-append [] ys (suc n) e = absurd (omega arith)
  take-append (x ∷ xs) ys zero e = absurd (omega arith)
  take-append (x ∷ xs) ys (suc n) e = ap (λ t. x ∷ t) (take-append xs ys n (omega arith))

module _ (maps : SubscriptionMap) (api : MqttApi) where
  -- Every subscription that the client can reach is in order.
  abbrev pub IsValid : Client maps api → Type 0
  IsValid c = (p : ℕ) → Fits (c.heap p)

  pub store-Fits :
      (s : Subscription) (bytes : List ℕ) (n : ℕ)
      → Fits s
      → n ≤ length bytes
      → s.size + n ≤ s.capacity
      → Fits (store maps api s bytes n)
  unfolding store
  store-Fits s bytes n f le room = record {
    memory =
        let e : length (take s.size s.buffer ++ take n bytes ++ drop (s.size + n) s.buffer)
            ≡ s.capacity =
          omega (
            arith,
            length-append (take s.size s.buffer ++ take n bytes) (drop (s.size + n) s.buffer),
            length-append (take s.size s.buffer) (take n bytes),
            length-take s.size s.buffer,
            length-take n bytes,
            length-drop (s.size + n) s.buffer,
            f.memory,
          ) in
        e;
    size_in = omega (arith, f.capacity_in);
    capacity_in = f.capacity_in;
  }

  -- What a store writes: the bytes follow those that are there, in memory of the same length.
  pub store-take :
      (s : Subscription) (bytes : List ℕ)
      → Fits s
      → s.size + length bytes ≤ s.capacity
      → take (s.size + length bytes) (store maps api s bytes (length bytes)).buffer
        ≡ take s.size s.buffer ++ bytes
  unfolding store
  store-take s bytes f room = rw (take-length bytes (length bytes) refl) (
      take-append (take s.size s.buffer ++ bytes) (drop (s.size + length bytes) s.buffer)
        (s.size + length bytes)
        (omega (
          arith,
          length-append (take s.size s.buffer) bytes,
          length-take s.size s.buffer,
          f.memory,
        )))

  -- A store of as many bytes as there is room for.
  pub store-kept :
      (s : Subscription) (bytes : List ℕ) (n : ℕ)
      → Fits s
      → n ≡ min (length bytes) (s.capacity - s.size)
      → take (s.size + n) (store maps api s bytes n).buffer
        ≡ take s.capacity (take s.size s.buffer ++ bytes)
  unfolding store
  store-kept s bytes n f e =
      let front = take s.size s.buffer in
      let tail = drop (s.size + n) s.buffer in
      let at : s.size ≡ length front =
        omega (arith, length-take s.size s.buffer, f.memory, f.size_in) in
      let whole : n ≡ length (take n bytes) = omega (arith, length-take n bytes) in
      let all : s.capacity ≡ length front + (s.capacity - s.size) = omega (arith, f.size_in) in
      ap (take (s.size + n)) (append_assoc front (take n bytes) tail)
      ∙ take-append_right n (s.size + n) front (take n bytes ++ tail) (omega arith)
      ∙ ap (λ t. front ++ t)
          (take-append (take n bytes) tail n whole ∙ take-min n (s.capacity - s.size) bytes e)
      ∙ sym (take-append_right (s.capacity - s.size) s.capacity front bytes all)

  pub room_lem :
      (s : Subscription) → Fits s → (s.capacity + 2 ^ 32 - s.size) % 2 ^ 32 ≡ s.capacity - s.size
  room_lem s f = omega (arith, f.size_in, f.capacity_in)

  pub heap-finish :
      (p n len : ℕ) (last : Bool) (c : Client maps api)
      → (finish maps api p n len last c).1.heap ≡ c.heap
  unfolding finish
  heap-finish p n len last c = ground arith

  pub receive_into-IsValid :
      (a : Option ℕ) (bytes : List ℕ) (last : Bool) (c : Client maps api)
      → IsValid c
      → IsValid (receive_into maps api a bytes last c).1
  unfolding receive_into
  receive_into-IsValid none bytes last c v = v
  receive_into-IsValid (some p) bytes last c v = λ q.
      let s = c.heap p in
      let n = min (length bytes) ((s.capacity + 2 ^ 32 - s.size) % 2 ^ 32) in
      let c' = record c { heap = update c.heap p (store maps api s bytes n) } in
      rw (heap-finish p n (length bytes) last c') (elim (Bool-cases (p == q)) [
        | inl e ↦ rw e (
            store-Fits s bytes n (v p) (omega arith)
              (omega (arith, room_lem s (v p), (v p).size_in)))
        | inr ne ↦ rw ne (v q)
      ])

  -- Whatever the broker sends, a portion of a payload is written inside the buffer of its
  -- subscription: no buffer changes its length and no size passes its capacity.
  pub incoming_data-IsValid :
      (bytes : List ℕ) (last : Bool) (c : Client maps api)
      → IsValid c
      → IsValid (incoming_data maps api bytes last c).1
  unfolding incoming_data
  incoming_data-IsValid bytes last c v = receive_into-IsValid c.active_subscription bytes last c v

  pub announce-IsValid :
      (total : ℕ) (o : Option ℕ) (c : Client maps api)
      → IsValid c
      → IsValid (announce maps api total o c)
  unfolding announce
  announce-IsValid total none c v = v
  announce-IsValid total (some p) c v = λ q. elim (Bool-cases (p == q)) [
    | inl e ↦
        rw e
          (record { memory = (v p).memory; size_in = omega arith; capacity_in = (v p).capacity_in })
    | inr ne ↦ rw ne (v q)
  ]

  pub incoming_publish-IsValid :
      (topic : Key) (total : ℕ) (c : Client maps api)
      → IsValid c
      → IsValid (incoming_publish maps api topic total c)
  unfolding incoming_publish
  incoming_publish-IsValid topic total c v =
      announce-IsValid total (maps.find topic c.subscriptions)
        (record c { active_subscription = none }) v
