-- ===== src/Analysis/Correlation/Reached.antt =====
-- What `correlate` says of a finding.
use nguyen_dinh_b.Prelude.{
  String, ◌≡◌, refl, sym, ap, ◌∙◌, ◌≢◌, ◌↔◌, inl, inr, Bool, true, false, ◌||◌, false≢true, Option,
  none, some, List, [], ◌∷◌, map, arith, ◌==◌, eq_iff, eq_refl, if◌then◌else◌, Bool-cases, is_empty,
  All, Any, find_first-some, find_first-none, ne_of_test,
}
use nguyen_dinh_b.Prelude.Order.{In, sort, str_leb}
use nguyen_dinh_b.Json.{get_or, get, Json, str, obj, Fields, get_null, put}
use nguyen_dinh_b.Python.{Result, ok, PyText, bind-cases, ok-injective}
use nguyen_dinh_b.Analysis.Correlation.{
  distinct_ids, alerts_at, Mappings, ends_with, suffix_of, route_matches, is_zap, observed_paths,
  alerts_by_path, block_for, route_of, block_of, correlate_one, correlate,
}
use Prim.Native.String
use mathlib.Core.Path.{subst}
use text.Mathlib.TextLemmas.{nil-append, cons-append}

-- The path ends in the suffix.
abbrev pub EndsIn : (suffix path : String) → Type 0
EndsIn suffix path = (before : String) × (path ≡ String.◌++◌ before suffix)

whole_ends : {path : String} (suffix : String) → path ≡ suffix → path ≡ String.◌++◌ "" suffix
whole_ends suffix e = rw nil-append e

ends_with_sound : (suffix path : String) → ends_with suffix path ≡ true → EndsIn suffix path
unfolding ends_with
ends_with_sound suffix String.[] h = ("", whole_ends suffix ((eq_iff "" suffix).0 h))
ends_with_sound suffix (String.◌∷◌ c s) h = elim (Bool-cases (String.◌∷◌ c s == suffix)) [
  | inl e ↦ ("", whole_ends suffix ((eq_iff _ suffix).0 e))
  | inr e ↦
      let (before, q) = ends_with_sound suffix s (rw e at h) in
      (String.◌∷◌ c before, ap (String.◌∷◌ c) q ∙ sym (cons-append c before suffix))
]

ends_with_self : (suffix : String) → ends_with suffix suffix ≡ true
unfolding ends_with
ends_with_self String.[] = refl
ends_with_self (String.◌∷◌ c s) = rw (eq_refl (String.◌∷◌ c s)) refl

ends_with_after : (suffix before : String) → ends_with suffix (String.◌++◌ before suffix) ≡ true
unfolding ends_with
ends_with_after suffix String.[] = rw nil-append (ends_with_self suffix)
ends_with_after suffix (String.◌∷◌ c before) =
    rw cons-append (ground (arith, ends_with_after suffix before))

-- Some path that was observed ends in the route.
abbrev pub IsObserved : List String → String → Type 0
IsObserved observed route = (path : String) × In path observed × EndsIn (suffix_of route) path

-- what `_route_matches` tests
abbrev matches : String → String → Bool
matches route path = path == suffix_of route || ends_with (suffix_of route) path

matches-EndsIn : (route path : String) → matches route path ≡ true → EndsIn (suffix_of route) path
matches-EndsIn route path h = elim (Bool-cases (path == suffix_of route)) [
  | inl e ↦ ("", whole_ends (suffix_of route) ((eq_iff path (suffix_of route)).0 e))
  | inr e ↦ ends_with_sound (suffix_of route) path (rw e at h)
]

EndsIn-matches : (route path : String) → EndsIn (suffix_of route) path → matches route path ≡ true
EndsIn-matches route path (before, e) =
    let h : ends_with (suffix_of route) path ≡ true =
      subst (λ p. ends_with (suffix_of route) p ≡ true) (sym e)
        (ends_with_after (suffix_of route) before) in
    ground (arith, h)

Any-In : {A : Type 0} (P : A → Type 0) (xs : List A) → Any P xs → (a : A) × In a xs × P a
Any-In P [] p = elim p [ ]
Any-In P (x ∷ xs) (inl p) = (x, inl refl, p)
Any-In P (x ∷ xs) (inr i) = let (a, j, p) = Any-In P xs i in (a, inr j, p)

All-at : {A : Type 0} (P : A → Type 0) (xs : List A) → All P xs → (a : A) → In a xs → P a
All-at P [] h a i = elim i [ ]
All-at P (x ∷ xs) (p, h) a (inl e) = subst P e p
All-at P (x ∷ xs) (p, h) a (inr i) = All-at P xs h a i

route_matches-IsObserved :
    (route : String) (observed : List String) (path : String)
    → route_matches route observed ≡ some path
    → In path observed × EndsIn (suffix_of route) path
unfolding route_matches
route_matches-IsObserved route observed path h =
    let (a, i, (e, m)) = Any-In _ observed (find_first-some (matches route) observed path h) in
    (
      subst (λ p. In p observed) e i,
      matches-EndsIn route path (subst (λ p. matches route p ≡ true) e m),
    )

route_matches-none :
    (route : String) (observed : List String)
    → route_matches route observed ≡ none
    → ¬ IsObserved observed route
unfolding route_matches
route_matches-none route observed h (path, i, e) = false≢true (
    sym (All-at _ observed (find_first-none (matches route) observed h) path i)
    ∙ EndsIn-matches route path e)

-- `strength` is one of the two by which the pipeline takes a finding as reached.
abbrev pub is_reached : String → Bool
is_reached s = s == "reachable" || s == "reachable_and_alerted"

some-injective : {A : Type 0} {a b : A} → some a ≡ some b → a ≡ b
some-injective h = cc

-- What the block of a finding says: its strength is that there is no route just if the file declares
-- none, and that it was reached just if it declares one that an observed path ends in.
pub record IsMeasured (route : Option String) (observed : List String) (block : Json) : Type 0 where
  pub fields : Fields
  pub strength : String
  pub is_block : block ≡ obj fields
  pub has_strength : get_null "strength" fields ≡ str strength
  pub no_route : (strength ≡ "no_route") ↔ ((r : String) → route ≡ some r → r ≡ "")
  pub reached :
      (is_reached strength ≡ true)
      ↔ ((r : String) × (route ≡ some r) × (r ≢ "") × IsObserved observed r)

-- the strength of a finding that was reached, by whether there is no alert
abbrev reached_as : Bool → String
reached_as none_alerted = if none_alerted then "reachable" else "reachable_and_alerted"

reached_as-true : (b : Bool) → is_reached (reached_as b) ≡ true
reached_as-true true = refl
reached_as-true false = refl

reached_as-new : (b : Bool) → reached_as b ≢ "no_route"
reached_as-new true = ne_of_test "reachable" "no_route" refl
reached_as-new false = ne_of_test "reachable_and_alerted" "no_route" refl

module _ ⦃py : PyText⦄ (seen given : List String)
    (same : (x : String) → In x seen ↔ In x given) where
  block_for-IsMeasured :
      (route relative : String) (m : Option String) (alerts : List (String × String))
      → route ≢ ""
      → route_matches route seen ≡ m
      → IsMeasured (some route) given (block_for route relative m alerts)
  unfolding block_for get_or get
  block_for-IsMeasured route relative none alerts ne h = record {
    fields = _;
    strength = "route_known_not_reached";
    is_block = refl;
    has_strength = refl;
    no_route = (
      λ e. absurd (ne_of_test "route_known_not_reached" "no_route" refl e),
      λ k. absurd (ne (k route refl)),
    );
    reached = (
      λ e. absurd (false≢true e),
      λ (r, e, _, (path, i, ends)).
          absurd
            (route_matches-none route seen h (path, (same path).1 i, rw (some-injective e) ends)),
    );
  }
  block_for-IsMeasured route relative (some path) alerts ne h =
      let (i, ends) = route_matches-IsObserved route seen path h in
      let quiet = is_empty (sort str_leb (distinct_ids (alerts_at path alerts))) in
      record {
        fields = _;
        strength = reached_as quiet;
        is_block = refl;
        has_strength = refl;
        no_route = (λ e. absurd (reached_as-new quiet e), λ k. absurd (ne (k route refl)));
        reached =
            (λ _. (route, refl, ne, (path, (same path).0 i, ends)), λ _. reached_as-true quiet);
      }

  block_of-IsMeasured :
      (route : Option String) (relative : String) (alerts : List (String × String))
      → IsMeasured route given (block_of route relative seen alerts)
  unfolding block_of get_or get
  block_of-IsMeasured none relative alerts = record {
    fields = _;
    strength = "no_route";
    is_block = refl;
    has_strength = refl;
    no_route = (λ _ r e. absurd (cc e), λ _. refl);
    reached = (λ e. absurd (false≢true e), λ (r, e, _, _). absurd (cc e));
  }
  block_of-IsMeasured (some route) relative alerts = elim (Bool-cases (route == "")) [
    | inr e ↦ rw e (block_for-IsMeasured route relative _ alerts (ne_of_test route "" e) refl)
    | inl e ↦ rw e (record {
      fields = _;
      strength = "no_route";
      is_block = refl;
      has_strength = refl;
      no_route = (λ _ r k. sym (some-injective k) ∙ (eq_iff route "").0 e, λ _. refl);
      reached = (
        λ q. absurd (false≢true q),
        λ (r, k, ne, _). absurd (ne (sym (some-injective k) ∙ (eq_iff route "").0 e)),
      );
    })
  ]

-- An item of the result and the finding that it is made of.
abbrev pub IsCorrelated :
    ⦃py : PyText⦄ → (String → Option Mappings) → List String → Fields → Fields → Type 0
IsCorrelated mappings observed f item =
    (is_zap f ≡ true → item ≡ f)
    × (is_zap f ≡ false
        → (block : Json) × (item ≡ put "runtime_evidence" block f)
          × IsMeasured (route_of mappings f) observed block)

-- The items are those of the findings, one for each, in their order.
abbrev pub AllCorrelated :
    ⦃py : PyText⦄ → (String → Option Mappings) → List String → List Fields → List Fields → Type 0
AllCorrelated mappings observed [] items = items ≡ []
AllCorrelated mappings observed (f ∷ fs) [] = ⊥
AllCorrelated mappings observed (f ∷ fs) (item ∷ items) =
    IsCorrelated mappings observed f item × AllCorrelated mappings observed fs items

module _ ⦃py : PyText⦄ (mappings : String → Option Mappings) (order : List String → List String)
    (same : (x : String) (xs : List String) → In x (order xs) ↔ In x xs) where
  correlate_one-IsCorrelated :
      (observed : List String) (alerts : List (String × String)) (f : Fields)
      → IsCorrelated mappings observed f (correlate_one mappings (order observed) alerts f)
  unfolding correlate_one
  correlate_one-IsCorrelated observed alerts f = (
    λ e. rw e refl,
    λ e. rw e (
      _,
      refl,
      block_of-IsMeasured (order observed) observed (λ x. same x observed) (route_of mappings f) _
          alerts,
    ),
  )

  map-AllCorrelated :
      (observed : List String) (alerts : List (String × String)) (fs : List Fields)
      → AllCorrelated mappings observed fs (map (correlate_one mappings (order observed) alerts) fs)
  map-AllCorrelated observed alerts [] = refl
  map-AllCorrelated observed alerts (f ∷ fs) =
      (correlate_one-IsCorrelated observed alerts f, map-AllCorrelated observed alerts fs)

  -- In whatever order a set gives its elements: a correlation that succeeds leaves the findings in
  -- their order, those of the dynamic scan as they are, and gives each other one a block. That says
  -- that the finding has no route just if its file declares none, and that it was reached just if the
  -- file declares one that the path of some endpoint ends in.
  pub correlate-AllCorrelated :
      (url_path : String → Result String) (findings endpoints items : List Fields)
      → correlate url_path mappings order findings endpoints ≡ ok items
      → AllCorrelated mappings (observed_paths endpoints) findings items
  unfolding correlate
  correlate-AllCorrelated url_path findings endpoints items h =
      bind-cases (alerts_by_path url_path findings) _ h λ alerts p k.
        subst (AllCorrelated mappings (observed_paths endpoints) findings) (ok-injective k)
          (map-AllCorrelated (observed_paths endpoints) alerts findings)
