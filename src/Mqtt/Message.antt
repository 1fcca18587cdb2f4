-- ===== src/Mqtt/Message.antt =====
-- A whole message: `incomingPublish`, then `incomingData` for each portion of the payload.
use mathlib.Core.List.{append_assoc, append-nil}
use lwip_server.Base.{
  ℕ, ◌+◌, ◌-◌, ◌%◌, ◌^◌, ◌≤◌, ◌<◌, ◌≡◌, ◌≢◌, refl, ap, ◌∙◌, Bool, true, false, none, some, List, [],
  ◌∷◌, ◌++◌, arith, length, length-append, take, min, leb, Bool-cases, inl, inr, ◌==◌,
  if◌then◌else◌,
}
use lwip_server.Mqtt.Topic.{Key}
use lwip_server.Mqtt.Client.{
  SubscriptionMap, MqttApi, Subscription, update, Client, Delivery, announce, incoming_publish,
  store, finish, receive_into, incoming_data,
}
use lwip_server.Mqtt.Receive.{Fits, IsValid, store-Fits, store-take, room_lem}

abbrev pub joined : List (List ℕ) → List ℕ
joined [] = []
joined (b ∷ l) = b ++ joined l

self : (p : ℕ) → (p == p) ≡ true
self p = ground arith

-- `got` has arrived of a payload of `total` bytes.
record Holds (total : ℕ) (got : List ℕ) (s : Subscription) : Type 0 where
  fits : Fits s
  size : s.size ≡ length got
  bytes : take (length got) s.buffer ≡ got
  total_size : s.total_size ≡ total
  callback : s.has_callback ≡ true
  room : total ≤ s.capacity

-- The payload is longer than the buffer.
record Oversize (s : Subscription) : Type 0 where
  fits : Fits s
  over : s.capacity < s.total_size

module _ (maps : SubscriptionMap) (api : MqttApi) where
  -- `incomingData` for the portions of one payload, the last of them flagged.
  abbrev pub receive : List (List ℕ) → Client maps api → List (Delivery maps api) × Client maps api
  receive [] c = ([], c)
  receive (b ∷ []) c = incoming_data maps api b true c
  receive (b ∷ d ∷ l) c =
      let (out, c') = incoming_data maps api b false c in
      let (out', c'') = receive (d ∷ l) c' in (out ++ out', c'')

  store-Holds :
      (s : Subscription) (total : ℕ) (got b : List ℕ)
      → Holds total got s
      → length got + length b ≤ total
      → Holds total (got ++ b) (store maps api s b (length b))
  unfolding store
  store-Holds s total got b g le = record {
    fits = store-Fits maps api s b (length b) g.fits (omega arith) (omega (arith, g.size, g.room));
    size = omega (arith, length-append got b, g.size, g.room, g.fits.capacity_in);
    bytes =
        let e : length (got ++ b) ≡ s.size + length b =
          omega (arith, length-append got b, g.size) in
        rw e (
          store-take maps api s b g.fits (omega (arith, g.size, g.room))
          ∙ ap (λ t. t ++ b) (ap (λ k. take k s.buffer) g.size ∙ g.bytes));
    total_size = g.total_size;
    callback = g.callback;
    room = g.room;
  }

  -- The client after a portion that is copied whole.
  abbrev stored : ℕ → List ℕ → Client maps api → Client maps api
  stored p b c = record c { heap = update c.heap p (store maps api (c.heap p) b (length b)) }

  portion :
      (p total : ℕ) (got b : List ℕ) (last : Bool) (c : Client maps api)
      → c.active_subscription ≡ some p
      → Holds total got (c.heap p)
      → length got + length b ≤ total
      → incoming_data maps api b last c
        ≡ finish maps api p (length b) (length b) last (stored p b c)
  unfolding incoming_data receive_into
  portion p total got b last c a g le =
      let e : min (length b) (((c.heap p).capacity + 2 ^ 32 - (c.heap p).size) % 2 ^ 32)
          ≡ length b =
        omega (arith, room_lem maps api (c.heap p) g.fits, g.size, g.room) in
      rw (a, receive_into, e)

  stored-heap :
      (p : ℕ) (b : List ℕ) (c : Client maps api)
      → (stored p b c).heap p ≡ store maps api (c.heap p) b (length b)
  stored-heap p b c = rw (self p)

  finish-more : (p n : ℕ) (c : Client maps api) → finish maps api p n n false c ≡ ([], c)
  unfolding finish
  finish-more p n c = rw (self n)

  finish-last :
      (p n total : ℕ) (got : List ℕ) (c : Client maps api)
      → Holds total got (c.heap p)
      → length got ≡ total
      → (finish maps api p n n true c).0 ≡ (p, got) ∷ []
  unfolding finish
  finish-last p n total got c g e =
      let same : (c.heap p).size == (c.heap p).total_size ≡ true =
        ground (arith, g.size, g.total_size) in
      rw (self n, same, g.callback, g.size, g.bytes)

  receive-Holds :
      (p total : ℕ) (l : List (List ℕ)) (got : List ℕ) (c : Client maps api)
      → l ≢ []
      → c.active_subscription ≡ some p
      → Holds total got (c.heap p)
      → length got + length (joined l) ≡ total
      → (receive l c).0 ≡ (p, got ++ joined l) ∷ []
  receive-Holds p total [] got c ne a g e = absurd (ne refl)
  receive-Holds p total (b ∷ []) got c ne a g e =
      let le : length got + length b ≤ total = omega (arith, ap length (append-nil b)) in
      rw (portion p total got b true c a g le) (
        finish-last p (length b) total (got ++ (b ++ [])) (stored p b c)
          (rw (stored-heap p b c, append-nil) (store-Holds (c.heap p) total got b g le))
          (omega (arith, length-append got (b ++ []))))
  receive-Holds p total (b ∷ d ∷ l) got c ne a g e =
      let le : length got + length b ≤ total = omega (arith, length-append b (joined (d ∷ l))) in
      rw (portion p total got b false c a g le, finish-more p (length b) (stored p b c))
        (receive-Holds p total (d ∷ l) (got ++ b) (stored p b c) (λ e. cc) a
            (rw (stored-heap p b c) (store-Holds (c.heap p) total got b g le))
            (omega (arith, length-append got b, length-append b (joined (d ∷ l))))
          ∙ ap (λ t. (p, t) ∷ []) (append_assoc got b (joined (d ∷ l))))

  finish-Oversize :
      (p n len : ℕ) (last : Bool) (c : Client maps api)
      → Oversize (c.heap p)
      → finish maps api p n len last c ≡ ([], c)
  unfolding finish
  finish-Oversize p n len last c o =
      let apart : (c.heap p).size == (c.heap p).total_size ≡ false =
        ground (arith, o.fits.size_in, o.over) in
      rw apart (ground arith)

  store-Oversize :
      (s : Subscription) (b : List ℕ)
      → Oversize s
      → Oversize (store maps api s b (min (length b) ((s.capacity + 2 ^ 32 - s.size) % 2 ^ 32)))
  unfolding store
  store-Oversize s b o = record {
    fits =
        store-Fits maps api s b (min (length b) ((s.capacity + 2 ^ 32 - s.size) % 2 ^ 32)) o.fits
          (omega arith) (omega (arith, room_lem maps api s o.fits, o.fits.size_in));
    over = o.over;
  }

  -- The client after a portion of which a part may be cut off.
  abbrev cut : ℕ → List ℕ → Client maps api → Client maps api
  cut p b c = record c {
    heap = update c.heap p (
        store maps api (c.heap p) b
          (min (length b) (((c.heap p).capacity + 2 ^ 32 - (c.heap p).size) % 2 ^ 32)));
  }

  cut-Oversize :
      (p : ℕ) (b : List ℕ) (c : Client maps api)
      → Oversize (c.heap p)
      → Oversize ((cut p b c).heap p)
  cut-Oversize p b c o = rw (self p) (store-Oversize (c.heap p) b o)

  too_long :
      (p : ℕ) (b : List ℕ) (last : Bool) (c : Client maps api)
      → c.active_subscription ≡ some p
      → Oversize (c.heap p)
      → incoming_data maps api b last c ≡ ([], cut p b c)
  unfolding incoming_data receive_into
  too_long p b last c a o =
      ap (λ q. receive_into maps api q b last c) a
      ∙ finish-Oversize p _ (length b) last (cut p b c) (cut-Oversize p b c o)

  receive-Oversize :
      (p : ℕ) (l : List (List ℕ)) (c : Client maps api)
      → c.active_subscription ≡ some p
      → Oversize (c.heap p)
      → (receive l c).0 ≡ []
  receive-Oversize p [] c a o = refl
  receive-Oversize p (b ∷ []) c a o = rw (too_long p b true c a o)
  receive-Oversize p (b ∷ d ∷ l) c a o =
      rw (too_long p b false c a o)
        (receive-Oversize p (d ∷ l) (cut p b c) a (cut-Oversize p b c o))

  -- A message on the topic of a registered subscription, announced with its length and received in
  -- portions of any sizes: if it fits the buffer it is delivered once, whole and in order; else
  -- nothing is delivered.
  pub receive-incoming_publish :
      (topic : Key) (p : ℕ) (l : List (List ℕ)) (c : Client maps api)
      → IsValid maps api c
      → maps.find topic c.subscriptions ≡ some p
      → (c.heap p).has_callback ≡ true
      → l ≢ []
      → (receive l (incoming_publish maps api topic (length (joined l)) c)).0
        ≡ (if leb (length (joined l)) (c.heap p).capacity then (p, joined l) ∷ [] else [])
  unfolding incoming_publish announce
  receive-incoming_publish topic p l c v found cb ne =
      ap
        (λ o.
          (receive l
            (announce maps api (length (joined l)) o (record c { active_subscription = none }))).0)
        found
      ∙ elim (Bool-cases (leb (length (joined l)) (c.heap p).capacity)) [
        | inl fits ↦ rw fits (
            receive-Holds p (length (joined l)) l [] c' ne refl
              (rw (self p) (record {
                fits = record {
                  memory = (v p).memory;
                  size_in = omega arith;
                  capacity_in = (v p).capacity_in;
                };
                size = refl;
                bytes = refl;
                total_size = refl;
                callback = cb;
                room = ground (arith);
              }))
              (omega arith))
        | inr over ↦ rw over (
            receive-Oversize p l c' refl (
              rw (self p) (record {
                fits = record {
                  memory = (v p).memory;
                  size_in = omega arith;
                  capacity_in = (v p).capacity_in;
                };
                over = ground (arith);
              })))
      ]
    where
      c' : Client maps api
      c' = announce maps api (length (joined l)) (some p) (record c { active_subscription = none })
