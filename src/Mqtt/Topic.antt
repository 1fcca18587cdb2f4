-- ===== src/Mqtt/Topic.antt =====
-- `SubscriptionKey`: topics ordered by their text, the null pointer first.
use lwip_server.Base.{
  ℕ, ◌≡◌, refl, ◌↔◌, Bool, true, false, List, [], ◌∷◌, arith, ltb, ◌==◌, if◌then◌else◌,
}

-- A C string: where it is, and its bytes before the end.
pub record CString : Type 0 where
  pub address : ℕ
  pub text : List ℕ

-- `const char *`.
pub data Key : Type 0 where
  null : Key
  at : CString → Key

-- `strcmp(a, b) < 0`.
unfoldable pub strcmp_lt : List ℕ → List ℕ → Bool
strcmp_lt [] [] = false
strcmp_lt [] (b ∷ bs) = true
strcmp_lt (a ∷ as') [] = false
strcmp_lt (a ∷ as') (b ∷ bs) = let rest = strcmp_lt as' bs in if a == b then rest else ltb a b

abbrev same_pointer : Key → Key → Bool
same_pointer null null = true
same_pointer (at a) (at b) = a.address == b.address
same_pointer _ _ = false

abbrev text_lt : Key → Key → Bool
text_lt null _ = true
text_lt (at a) null = false
text_lt (at a) (at b) = strcmp_lt a.text b.text

-- `operator<`.
unfoldable pub key_lt : Key → Key → Bool
unfolding strcmp_lt
key_lt a b = if same_pointer a b then false else text_lt a b

-- A pointer stands for one text at a time.
abbrev pub Coherent : Key → Key → Type 0
Coherent (at a) (at b) = a.address ≡ b.address → a.text ≡ b.text
Coherent _ _ = Unit {0}

abbrev pub SameTopic : Key → Key → Type 0
SameTopic null null = Unit {0}
SameTopic (at a) (at b) = a.text ≡ b.text
SameTopic _ _ = ⊥

strcmp_lt_irrefl : (a : List ℕ) → strcmp_lt a a ≡ false
unfolding strcmp_lt
strcmp_lt_irrefl [] = refl
strcmp_lt_irrefl (x ∷ a) = ground (arith, strcmp_lt_irrefl a)

strcmp_lt_trans :
    (a b c : List ℕ) → strcmp_lt a b ≡ true → strcmp_lt b c ≡ true → strcmp_lt a c ≡ true
unfolding strcmp_lt
strcmp_lt_trans [] [] c h k = cc
strcmp_lt_trans [] (y ∷ b) [] h k = cc
strcmp_lt_trans [] (y ∷ b) (z ∷ c) h k = refl
strcmp_lt_trans (x ∷ a) [] c h k = cc
strcmp_lt_trans (x ∷ a) (y ∷ b) [] h k = cc
strcmp_lt_trans (x ∷ a) (y ∷ b) (z ∷ c) h k = ground (arith, strcmp_lt_trans a b c)

strcmp_lt-total : (a b : List ℕ) → strcmp_lt a b ≡ false → strcmp_lt b a ≡ false → a ≡ b
unfolding strcmp_lt
strcmp_lt-total [] [] h k = refl
strcmp_lt-total [] (y ∷ b) h k = cc
strcmp_lt-total (x ∷ a) [] h k = cc
strcmp_lt-total (x ∷ a) (y ∷ b) h k = ground (arith, strcmp_lt-total a b)

-- The order is strict and transitive.
pub key_lt_trans :
    (a b c : Key) → Coherent a c → key_lt a b ≡ true → key_lt b c ≡ true → key_lt a c ≡ true
unfolding key_lt
key_lt_trans null null c co h k = cc
key_lt_trans null (at b) null co h k = cc
key_lt_trans null (at b) (at c) co h k = refl
key_lt_trans (at a) null c co h k = ground arith
key_lt_trans (at a) (at b) null co h k = ground arith
key_lt_trans (at a) (at b) (at c) co h k =
    ground (arith, strcmp_lt_trans a.text b.text c.text, strcmp_lt_irrefl a.text)

-- Two keys are equivalent, neither before the other, exactly when both are null or their texts are
-- the same, wherever the texts are: so the map finds a topic by its text.
pub key_lt-SameTopic :
    (a b : Key) → Coherent a b → ((key_lt a b ≡ false) × (key_lt b a ≡ false)) ↔ SameTopic a b
unfolding key_lt
key_lt-SameTopic null null co = (λ h. tt, λ h. (refl, refl))
key_lt-SameTopic null (at b) co = (λ h. cc (h.0), λ h. absurd h)
key_lt-SameTopic (at a) null co = (λ h. cc (h.1), λ h. absurd h)
key_lt-SameTopic (at a) (at b) co = (
  λ h. ground (arith, strcmp_lt-total a.text b.text),
  λ h. ground (arith, strcmp_lt_irrefl a.text),
)

pub key_lt_irrefl : (k : Key) → key_lt k k ≡ false
unfolding key_lt
key_lt_irrefl null = refl
key_lt_irrefl (at a) = ground arith
