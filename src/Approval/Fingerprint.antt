-- ===== src/Approval/Fingerprint.antt =====
-- What the fingerprint of a request identifies.
use mathlib.Core.Path.{ap₂}
use Prim.Native.Char.{Char}
use Prim.Native.String
use text.Mathlib.TextLemmas.{
  nil-append, cons-append, head-eq_of_cons-eq, tail-eq_of_cons-eq, append_cancel_left,
}
use nguyen_dinh_b.Prelude.{
  ◌==◌, Bool-cases, ne_of_test, String, ◌≡◌, refl, sym, ap, ◌∙◌, ◌≢◌, ◌⊎◌, inl, inr, true, false,
  false≢true, some, arith, eq_iff, Option-cases, codes, has_code, repeat,
}
use nguyen_dinh_b.Json.{Json, null, str}
use nguyen_dinh_b.Python.{PyText, ok, ◌>>=◌, >>=-eq-ok, ok-injective}
use nguyen_dinh_b.Probe.{
  SafePayloadType, long_string, special_chars, empty_value, wrong_type, SafeProbe, payload_body,
  payload_type, payload_for,
}
use nguyen_dinh_b.Approval.{payload_of, raw_request, request_fingerprint}

-- The text has no "|", the separator of the hashed text.
abbrev pub HasNoBar : String → Type 0
HasNoBar s = has_code b'|' (codes s) ≡ false

-- The separator in front of the rest of the hashed text.
bar : String → String
bar s = String.◌++◌ "|" s

bar-cons : (s : String) → bar s ≡ String.◌∷◌ "|" s
unfolding bar
bar-cons s = cons-append "|" "" s ∙ ap (String.◌∷◌ "|") (nil-append s)

bar_head : (c : Char) (s : String) → "|" ≡ c → ¬ HasNoBar (String.◌∷◌ c s)
unfolding has_code
bar_head c s e h = false≢true (sym (rw (← e) at h))

no_bar_tail : (c : Char) (s : String) → HasNoBar (String.◌∷◌ c s) → HasNoBar s
unfolding has_code
no_bar_tail c s h = ground arith

split_unique :
    (a b s t : String)
    → HasNoBar a
    → HasNoBar b
    → String.◌++◌ a (bar s) ≡ String.◌++◌ b (bar t)
    → (a ≡ b) × (s ≡ t)
unfolding has_code
split_unique String.[] String.[] s t ha hb e =
    (refl, append_cancel_left "|" s t (unfold bar in rw (nil-append, nil-append) at e))
split_unique String.[] (String.◌∷◌ d b) s t ha hb e =
    let h : String.◌∷◌ "|" s ≡ String.◌∷◌ d (String.◌++◌ b (bar t)) =
      rw (nil-append, bar-cons, cons-append) at e in
    absurd (bar_head d b (head-eq_of_cons-eq h) hb)
split_unique (String.◌∷◌ c a) String.[] s t ha hb e =
    let h : String.◌∷◌ "|" t ≡ String.◌∷◌ c (String.◌++◌ a (bar s)) =
      rw (nil-append, bar-cons, cons-append) at (sym e) in
    absurd (bar_head c a (head-eq_of_cons-eq h) ha)
split_unique (String.◌∷◌ c a) (String.◌∷◌ d b) s t ha hb e =
    let h : String.◌∷◌ c (String.◌++◌ a (bar s)) ≡ String.◌∷◌ d (String.◌++◌ b (bar t)) =
      rw (cons-append, cons-append) at e in
    let (same, rest) =
      split_unique a b s t (no_bar_tail c a ha) (no_bar_tail d b hb) (tail-eq_of_cons-eq h) in
    (ap₂ String.◌∷◌ (head-eq_of_cons-eq h) same, rest)

has_bar-append : (b t : String) → has_code b'|' (codes (String.◌++◌ b (bar t))) ≡ true
unfolding has_code
has_bar-append String.[] t = rw (nil-append, bar-cons) refl
has_bar-append (String.◌∷◌ c b) t = rw cons-append (ground (arith, has_bar-append b t))

bar_inside :
    (d : Char) (b s t : String)
    → HasNoBar s
    → String.◌∷◌ "|" s ≢ String.◌∷◌ d (String.◌++◌ b (bar t))
bar_inside d b s t h e = false≢true (sym h ∙ rw (tail-eq_of_cons-eq e) (has_bar-append b t))

-- The same for a text without "|" behind the separator: it is the last separator that counts.
split_last :
    (a b s t : String)
    → HasNoBar s
    → HasNoBar t
    → String.◌++◌ a (bar s) ≡ String.◌++◌ b (bar t)
    → (a ≡ b) × (s ≡ t)
split_last String.[] String.[] s t hs ht e =
    (refl, append_cancel_left "|" s t (unfold bar in rw (nil-append, nil-append) at e))
split_last String.[] (String.◌∷◌ d b) s t hs ht e =
    absurd (bar_inside d b s t hs (rw (nil-append, bar-cons, cons-append) at e))
split_last (String.◌∷◌ c a) String.[] s t hs ht e =
    absurd (bar_inside c a t s ht (rw (nil-append, bar-cons, cons-append) at (sym e)))
split_last (String.◌∷◌ c a) (String.◌∷◌ d b) s t hs ht e =
    let h : String.◌∷◌ c (String.◌++◌ a (bar s)) ≡ String.◌∷◌ d (String.◌++◌ b (bar t)) =
      rw (cons-append, cons-append) at e in
    let (same, rest) = split_last a b s t hs ht (tail-eq_of_cons-eq h) in
    (ap₂ String.◌∷◌ (head-eq_of_cons-eq h) same, rest)

payload_body-HasNoBar : (t : SafePayloadType) → HasNoBar (payload_body t)
unfolding payload_body repeat has_code
payload_body-HasNoBar long_string = refl
payload_body-HasNoBar t = refl

payload_body-injective : (t u : SafePayloadType) → payload_body t ≡ payload_body u → t ≡ u
unfolding payload_body repeat
payload_body-injective long_string long_string e = refl
payload_body-injective special_chars special_chars e = refl
payload_body-injective empty_value empty_value e = refl
payload_body-injective wrong_type wrong_type e = refl
payload_body-injective t u e = absurd (false≢true ((eq_iff _ _).1 e))

-- The `payload_kind` that selects a payload.
kind_name : SafePayloadType → String
kind_name long_string = "long_string"
kind_name special_chars = "special_chars"
kind_name empty_value = "empty_value"
kind_name wrong_type = "wrong_type"

payload_type-kind_name :
    (kind : String) (t : SafePayloadType) → payload_type kind ≡ some t → kind ≡ kind_name t
unfolding payload_type kind_name
payload_type-kind_name kind t h = ground (
  arith,
  eq_iff kind "long_string",
  eq_iff kind "special_chars",
  eq_iff kind "empty_value",
  eq_iff kind "wrong_type",
)

payload_body-ne : (t : SafePayloadType) → payload_body t ≢ ""
unfolding payload_body repeat
payload_body-ne long_string e = false≢true ((eq_iff _ _).1 e)
payload_body-ne t e = false≢true ((eq_iff _ _).1 e)

payload_of-cases :
    (k : Json) (s : String)
    → payload_of k ≡ ok s
    → ((k ≡ null) × (s ≡ ""))
      ⊎ ((t : SafePayloadType) × (k ≡ str (kind_name t)) × (s ≡ payload_body t))
unfolding payload_of payload_for ◌>>=◌
payload_of-cases null s h = inl (refl, sym (ok-injective h))
payload_of-cases (str kind) s h = elim (Option-cases (payload_type kind)) [
  | inl e ↦ absurd (ground arith)
  | inr (t, e) ↦ inr (t, ap str (payload_type-kind_name kind t e), ground arith)
]
payload_of-cases k s h = absurd (cc)

payload_of-HasNoBar : (k : Json) (s : String) → payload_of k ≡ ok s → HasNoBar s
unfolding has_code
payload_of-HasNoBar k s h = elim (payload_of-cases k s h) [
  | inl (_, e) ↦ rw e refl
  | inr (t, _, e) ↦ rw e (payload_body-HasNoBar t)
]

payload_of-injective : (k l : Json) (s : String) → payload_of k ≡ ok s → payload_of l ≡ ok s → k ≡ l
payload_of-injective k l s e h = both (payload_of-cases k s e) (payload_of-cases l s h)
  where
    both :
        ((k ≡ null) × (s ≡ ""))
          ⊎ ((t : SafePayloadType) × (k ≡ str (kind_name t)) × (s ≡ payload_body t))
        → ((l ≡ null) × (s ≡ ""))
          ⊎ ((t : SafePayloadType) × (l ≡ str (kind_name t)) × (s ≡ payload_body t))
        → k ≡ l
    both (inl (a, x)) (inl (b, y)) = a ∙ sym b
    both (inl (a, x)) (inr (t, b, y)) = absurd (payload_body-ne t (sym y ∙ x))
    both (inr (t, a, x)) (inl (b, y)) = absurd (payload_body-ne t (sym x ∙ y))
    both (inr (t, a, x)) (inr (u, b, y)) =
        a ∙ ap (λ v. str (kind_name v)) (payload_body-injective t u (sym x ∙ y)) ∙ sym b

-- `raw_request` once more, with its separators named.
abbrev hashed : ⦃py : PyText⦄ → String → String → String → String
hashed ⦃py⦄ method path payload =
    String.◌++◌ (py.upper method) (bar (String.◌++◌ path (bar payload)))

-- Two different texts with one hash.
abbrev pub IsCollision : ⦃py : PyText⦄ → String → String → Type 0
IsCollision ⦃py⦄ a b = (a ≢ b) × (py.sha256 a ≡ py.sha256 b)

-- Two requests with the same fingerprint, neither of whose methods in upper case holds a "|", have the
-- same method (in upper case), the same path and the same payload, unless the very texts that are
-- hashed for them differ and have the same SHA-256. Nothing is assumed of the hash.
pub request_fingerprint-binds :
    ⦃py : PyText⦄ (p q : SafeProbe) (f : String)
    → HasNoBar (py.upper p.method)
    → HasNoBar (py.upper q.method)
    → request_fingerprint p ≡ ok f
    → request_fingerprint q ≡ ok f
    → (x : String) × (y : String) × (payload_of p.payload_kind ≡ ok x)
      × (payload_of q.payload_kind ≡ ok y)
      × (((py.upper p.method ≡ py.upper q.method)
            × (p.path ≡ q.path)
            × (p.payload_kind ≡ q.payload_kind))
          ⊎ IsCollision (raw_request p.method p.path x) (raw_request q.method q.path y))
unfolding request_fingerprint
request_fingerprint-binds ⦃py⦄ p q f mp mq e h =
    let (x, (ex, fx)) = >>=-eq-ok (payload_of p.payload_kind) _ e in
    let (y, (ey, fy)) = >>=-eq-ok (payload_of q.payload_kind) _ h in
    let a = raw_request p.method p.path x in
    let b = raw_request q.method q.path y in
    (
      x,
      y,
      ex,
      ey,
      elim (Bool-cases (a == b)) [
        | inr other ↦ inr (ne_of_test a b other, ok-injective (fx ∙ sym fy))
        | inl same ↦
            let raw : hashed p.method p.path x ≡ hashed q.method q.path y =
              unfold bar in (eq_iff a b).0 same in
            let (m, rest) = split_unique (py.upper p.method) (py.upper q.method) _ _ mp mq raw in
            let (path, payload) =
              split_last p.path q.path x y (payload_of-HasNoBar p.payload_kind x ex)
                (payload_of-HasNoBar q.payload_kind y ey) rest in
            inl (m, path, payload_of-injective p.payload_kind q.payload_kind x ex (rw payload ey))
      ],
    )
