-- ===== src/Effect.antt =====
-- What the sending of a request does to the world: the lines it appends, the wait for its turn and
-- the request itself, in order, beside a result that may be an exception.
use nguyen_dinh_b.Prelude.{
  ◌≡◌, refl, ap, ◌∙◌, ◌⊎◌, inl, inr, Bool, true, false, List, [], ◌∷◌, ◌++◌, if◌then◌else◌,
}
use mathlib.Core.Path.{subst}
use nguyen_dinh_b.Json.{Fields}
use nguyen_dinh_b.Python.{Exc, Result, ok, err, ok-injective}
use nguyen_dinh_b.Probe.{HttpRequest}
use nguyen_dinh_b.Audit.{GuardEvent}

pub data Action : Type 0 where
  audit : Fields → Action
  event : GuardEvent → Action
  waited : Action
  sent : HttpRequest → Action

pub record Act (A : Type 0) : Type 0 where
  pub trace : List Action
  pub result : Result A

abbrev pub pure : {A : Type 0} → A → Act A
pure a = record { trace = []; result = ok a }

abbrev pub emit : Action → Act (Unit {0})
emit a = record { trace = a ∷ []; result = ok tt }

abbrev pub lift : {A : Type 0} → Result A → Act A
lift r = record { trace = []; result = r }

infixl 5 ◌>>=◌ ◌>>◌
-- What has been done stays done when a later step raises.
unfoldable pub ◌>>=◌ : {A B : Type 0} → Act A → (A → Act B) → Act B
m >>= f = elim m.result [
  | ok a ↦ record { trace = m.trace ++ (f a).trace; result = (f a).result }
  | err e ↦ record { trace = m.trace; result = err e }
]

unfoldable pub ◌>>◌ : {B : Type 0} → Act (Unit {0}) → Act B → Act B
unfolding ◌>>=◌
m >> k = m >>= λ _. k

-- `if test: …`
unfoldable pub when : Bool → Act (Unit {0}) → Act (Unit {0})
when b m = if b then m else pure tt

-- The requests among some actions.
abbrev pub requests : List Action → List HttpRequest
requests [] = []
requests (sent r ∷ rest) = r ∷ requests rest
requests (_ ∷ rest) = requests rest

pub requests-append : (rest bs : List Action) → requests (rest ++ bs) ≡ requests rest ++ requests bs
requests-append [] bs = refl
requests-append (audit _ ∷ rest) bs = requests-append rest bs
requests-append (event _ ∷ rest) bs = requests-append rest bs
requests-append (waited ∷ rest) bs = requests-append rest bs
requests-append (sent r ∷ rest) bs = ap (λ rs. r ∷ rs) (requests-append rest bs)

-- It makes just the requests `rs`; if it returns, it returns a value with `P`; and it returns where
-- what it calls works, by the hypothesis `W`.
pub record Does {A : Type 0} (m : Act A) (W : Type 0) (rs : List HttpRequest) (P : A → Type 0)
    : Type 0 where
  pub made : requests m.trace ≡ rs
  pub if_returned : (a : A) → m.result ≡ ok a → P a
  pub returned : W → (a : A) × (m.result ≡ ok a)

pub Result-cases : {A : Type 0} (m : Result A) → ((e : Exc) × (m ≡ err e)) ⊎ ((a : A) × (m ≡ ok a))
Result-cases (err e) = inl (e, refl)
Result-cases (ok a) = inr (a, refl)

pub Does-pure : {A : Type 0} {W : Type 0} {P : A → Type 0} (a : A) → P a → Does (pure a) W [] P
Does-pure {P = P} a p = record {
  made = refl;
  if_returned = λ b h. subst P (ok-injective h) p;
  returned = λ _. (a, refl);
}

-- A step that makes no request, and what follows.
pub Does->>= :
    {A B : Type 0} {W : Type 0} (m : Act A) (f : A → Act B) {P : B → Type 0}
    → requests m.trace ≡ []
    → (W → (a : A) × (m.result ≡ ok a))
    → ((a : A) → m.result ≡ ok a → Does (f a) W [] P)
    → Does (m >>= f) W [] P
unfolding ◌>>=◌
Does->>= m f silent works h = elim (Result-cases m.result) [
  | inl (e, q) ↦ rw q (record {
    made = silent;
    if_returned = λ b k. absurd (cc k);
    returned = λ w. absurd (cc (q, (works w).1));
  })
  | inr (a, q) ↦
      let d = h a q in
      rw q (record {
        made = requests-append m.trace (f a).trace ∙ rw (silent, d.made) refl;
        if_returned = d.if_returned;
        returned = d.returned;
      })
]

pub Does->> :
    {B : Type 0} {W : Type 0} (m : Act (Unit {0})) (k : Act B) {P : B → Type 0}
    → Does m W [] (λ _. Unit)
    → Does k W [] P
    → Does (m >> k) W [] P
unfolding ◌>>◌
Does->> m k d e = Does->>= m (λ _. k) d.made d.returned (λ _ _. e)

pub Does-when :
    {W : Type 0} (b : Bool) (m : Act (Unit {0}))
    → Does m W [] (λ _. Unit)
    → Does (when b m) W [] (λ _. Unit)
unfolding when
Does-when true m d = d
Does-when false m d = Does-pure tt tt

pub Does->>-waited :
    {B : Type 0} {W : Type 0} {k : Act B} {rs : List HttpRequest} {P : B → Type 0}
    → Does k W rs P
    → Does (emit waited >> k) W rs P
unfolding ◌>>=◌ ◌>>◌
Does->>-waited d = record { made = d.made; if_returned = d.if_returned; returned = d.returned }

pub Does->>-sent :
    {B : Type 0} {W : Type 0} {r : HttpRequest} {k : Act B} {rs : List HttpRequest} {P : B → Type 0}
    → Does k W rs P
    → Does (emit (sent r) >> k) W (r ∷ rs) P
unfolding ◌>>=◌ ◌>>◌
Does->>-sent {r = r} d = record {
  made = ap (λ qs. r ∷ qs) d.made;
  if_returned = d.if_returned;
  returned = d.returned;
}
