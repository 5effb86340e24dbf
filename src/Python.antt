-- ===== src/Python.antt =====
-- What the program takes from Python beside plain data: exceptions, and the functions on texts whose
-- tables (case mappings, the text of a value) belong to Python.
use nguyen_dinh_b.Prelude.{String, ◌≡◌, refl, Bool, true, false, Option, none, some}
use nguyen_dinh_b.Json.{Json}

-- The class of a raised exception; the messages are left out.
pub data Exc : Type 0 where
  value_error type_error key_error attribute_error os_error : Exc

-- The value of an expression that may raise.
pub data Result (A : Type 0) : Type 0 where
  err : Exc → Result A
  ok : A → Result A

module _ {B : Type 0} where
  -- the statements after one that may raise
  infixl 5 ◌>>=◌ ◌>>◌
  unfoldable pub ◌>>=◌ : {A : Type 0} → Result A → (A → Result B) → Result B
  err raised >>= next = err raised
  ok value >>= next = next value

  unfoldable pub ◌>>◌ : Result (Unit {0}) → Result B → Result B
  err raised >> next = err raised
  ok _ >> next = next

-- `if bad: raise e`
unfoldable pub raise_if : Bool → Exc → Result (Unit {0})
raise_if true e = err e
raise_if false e = ok tt

-- What a step and the rest have returned, where the block returns.
pub >>=-eq-ok :
    {A B : Type 0} (m : Result A) (rest : A → Result B) {b : B}
    → (m >>= rest) ≡ ok b
    → (a : A) × ((m ≡ ok a) × (rest a ≡ ok b))
unfolding ◌>>=◌
>>=-eq-ok (err raised) rest h = cc
>>=-eq-ok (ok a) rest h = (a, (refl, h))

-- The same, for a proof that goes on from what the step has returned.
pub bind-cases :
    {A B C : Type 0} (m : Result A) (rest : A → Result B) {b : B}
    → (m >>= rest) ≡ ok b
    → ((a : A) → m ≡ ok a → rest a ≡ ok b → C)
    → C
unfolding ◌>>=◌
bind-cases (err raised) rest h k = absurd (cc h)
bind-cases (ok a) rest h k = k a refl h

pub ok-injective : {A : Type 0} {a b : A} → ok a ≡ ok b → a ≡ b
ok-injective h = cc

-- The steps of a block whose parts are known to return.
pub bind-eq :
    {A B : Type 0} {m : Result A} (f : A → Result B) {r : Result B} (a : A)
    → m ≡ ok a
    → f a ≡ r
    → (m >>= f) ≡ r
unfolding ◌>>=◌
bind-eq f a e h = rw e h

pub raise_if-eq :
    {A : Type 0} {b : Bool} (e : Exc) {k r : Result A} → b ≡ false → k ≡ r → (raise_if b e >> k) ≡ r
unfolding raise_if ◌>>◌
raise_if-eq e p h = rw p h

pub then-eq :
    {A : Type 0} {m : Result (Unit {0})} {k r : Result A} → m ≡ ok tt → k ≡ r → (m >> k) ≡ r
unfolding ◌>>◌
then-eq p h = rw p h

pub raise_if-ok :
    {A : Type 0} (b : Bool) (e : Exc) (k : Result A) {a : A} → (raise_if b e >> k) ≡ ok a → k ≡ ok a
unfolding raise_if ◌>>◌
raise_if-ok true e k h = cc
raise_if-ok false e k h = h

-- A value that the code has tested for, or a `ValueError`.
unfoldable pub need : {A : Type 0} → Option A → Result A
need none = err value_error
need (some a) = ok a

pub need-eq-ok : {A : Type 0} (o : Option A) {a : A} → need o ≡ ok a → o ≡ some a
unfolding need
need-eq-ok none h = cc
need-eq-ok (some a) h = cc

pub need-eq : {A : Type 0} {o : Option A} {a : A} → o ≡ some a → need o ≡ ok a
unfolding need
need-eq h = rw h

-- If `m` returns, what it returns has `P`.
pub record Returns {A : Type 0} (P : A → Type 0) (m : Result A) : Type 0 where
  pub at : (a : A) → m ≡ ok a → P a

module _ {A : Type 0} {P : A → Type 0} where
  pub Returns-ok : {a : A} → P a → Returns P (ok a)
  Returns-ok p = record { at = λ b e. rw (← ok-injective e) p }

  pub Returns-err : {e : Exc} → Returns P (err e)
  Returns-err = record { at = λ a h. absurd (cc h) }

  pub Returns-bind :
      {B : Type 0} (m : Result B) (f : B → Result A)
      → ((b : B) → m ≡ ok b → Returns P (f b))
      → Returns P (m >>= f)
  unfolding ◌>>=◌
  Returns-bind (ok b) f k = k b refl
  Returns-bind (err e) f k = Returns-err

  pub Returns-then : (m : Result (Unit {0})) (k : Result A) → Returns P k → Returns P (m >> k)
  unfolding ◌>>◌
  Returns-then (ok _) k h = h
  Returns-then (err e) k h = Returns-err

  -- The rest of the block runs only if the guard has let it through.
  pub Returns-raise_if :
      (b : Bool) (e : Exc) (k : Result A)
      → (b ≡ false → Returns P k)
      → Returns P (raise_if b e >> k)
  unfolding raise_if ◌>>◌
  Returns-raise_if true e k h = Returns-err
  Returns-raise_if false e k h = h refl

-- `equal` is `==`, `upper` is `str.upper`, `casefold` is `str.casefold`, `to_str` is `str(value)`, `repr` is `repr(value)` and `sha256` is
-- `hashlib.sha256(text.encode()).hexdigest()`.
pub record PyText : Type 0 where
  pub equal : Json → Json → Bool
  pub upper : String → String
  pub casefold : String → String
  pub to_str : Json → String
  pub repr : Json → String
  pub sha256 : String → String
  pub upper-get : upper "GET" ≡ "GET"
  pub upper-post : upper "POST" ≡ "POST"
  pub equal-str : (v : Json) (s : String) → equal v (Json.str s) ≡ true → v ≡ Json.str s
  pub equal-trans : (u v w : Json) → equal u v ≡ true → equal v w ≡ true → equal u w ≡ true
  pub to_str-str : (s : String) → to_str (Json.str s) ≡ s
