-- ===== src/Allowlist/Parse/Laws.antt =====
-- What holds of every inventory that `from_json` returns.
use nguyen_dinh_b.Prelude.{
  ℕ, ◌≤◌, ◌<◌, String, ◌≡◌, refl, ◌∙◌, ◌≢◌, ◌⊎◌, inl, inr, true, false, some, List, [], ◌∷◌, arith,
  ◌==◌, eq_iff, Bool-cases, is_empty, All, All-append, all, ne_of_test,
}
use nguyen_dinh_b.Prelude.Int.{pos}
use nguyen_dinh_b.Prelude.Dict.{insert, has_key}
use nguyen_dinh_b.Json.{Json, bool, int, str, obj, Fields}
use nguyen_dinh_b.Python.{
  ok, PyText, Returns, Returns-ok, Returns-err, Returns-bind, Returns-raise_if, need-eq-ok,
}
use nguyen_dinh_b.Allowlist.{ProbeTemplate, AllowlistRule, Allowlist, init}
use nguyen_dinh_b.Allowlist.Parse.{
  is_method, response_limit, nonempty_texts, is_path, Entry, check_entry, add_template,
  parse_templates, rules_for, parse_endpoint, parse_endpoints, all_registered, from_json,
}

-- What a rule of an inventory that was read from a file is like.
pub record IsReviewedRule (r : AllowlistRule) : Type 0 where
  pub exact : r.match ≡ "exact"
  pub method : (r.method ≡ "GET") ⊎ (r.method ≡ "POST")
  pub path : is_path r.path ≡ true
  pub named : r.endpoint_id ≢ ""
  pub some_template : is_empty r.allowed_template_ids ≡ false
  pub positive : 0 < r.max_response_bytes
  pub bounded : r.max_response_bytes ≤ 65536

pub record IsReviewedTemplate (entry : String × ProbeTemplate) : Type 0 where
  pub keyed : entry.0 ≡ entry.1.template_id
  pub named : entry.0 ≢ ""
  pub method : (entry.1.method ≡ "GET") ⊎ (entry.1.method ≡ "POST")

-- An inventory as the review of `endpoint-allowlist.json` means it.
pub record IsWellFormed (al : Allowlist) : Type 0 where
  pub some_rule : is_empty al.rules ≡ false
  pub rules : All IsReviewedRule al.rules
  pub registered :
      All (λ r. All (λ id. has_key id al.templates ≡ true) r.allowed_template_ids) al.rules
  pub templates : All IsReviewedTemplate al.templates

is_method_cases : (m : String) → is_method m ≡ true → (m ≡ "GET") ⊎ (m ≡ "POST")
is_method_cases m h = ground (arith, eq_iff m "GET", eq_iff m "POST")

response_limit_bounds : (v : Json) (n : ℕ) → response_limit v ≡ some n → (0 < n) × (n ≤ 65536)
unfolding response_limit
response_limit_bounds (int (pos k)) n h = ground arith
response_limit_bounds (bool true) n h = ground arith
response_limit_bounds _ n h = cc

nonempty_texts-is_empty :
    (vs : List Json) (ids : List String) → nonempty_texts vs ≡ some ids → is_empty ids ≡ is_empty vs
unfolding nonempty_texts
nonempty_texts-is_empty [] ids h = ground arith
nonempty_texts-is_empty (str s ∷ vs) ids h = ground arith
nonempty_texts-is_empty (_ ∷ vs) ids h = cc

-- What `check_entry` has tested of an entry that it returns.
record IsChecked (entry : Entry) : Type 0 where
  named : entry.endpoint_id ≢ ""
  path : is_path entry.path ≡ true
  some_template : is_empty entry.template_ids ≡ false

check_entry-IsChecked :
    (seen_ids : List String) (fs : Fields) → Returns IsChecked (check_entry seen_ids fs)
unfolding check_entry
check_entry-IsChecked seen_ids fs = Returns-bind _ _ λ id _. Returns-bind _ _ λ path _.
    Returns-bind _ _ λ methods _. Returns-bind _ _ λ ids _. Returns-raise_if _ _ _ λ fine.
      Returns-ok (record {
        named = ne_of_test id "" (ground arith);
        path = ground arith;
        some_template = ground arith;
      })

all-has_key :
    (templates : List (String × ProbeTemplate)) (ids : List String)
    → all (λ id. has_key id templates) ids ≡ true
    → All (λ id. has_key id templates ≡ true) ids
all-has_key templates [] h = tt
all-has_key templates (id ∷ ids) h = ground (arith, all-has_key templates ids)

all_registered-All :
    (rules : List AllowlistRule) (templates : List (String × ProbeTemplate))
    → all_registered templates rules ≡ true
    → All (λ r. All (λ id. has_key id templates ≡ true) r.allowed_template_ids) rules
all_registered-All [] templates h = tt
all_registered-All (r ∷ rs) templates h = (
  all-has_key templates r.allowed_template_ids (ground arith),
  all_registered-All rs templates (ground arith),
)

init-IsWellFormed :
    (rules : List AllowlistRule) (templates : List (String × ProbeTemplate))
    → All IsReviewedRule rules
    → All IsReviewedTemplate templates
    → All (λ r. All (λ id. has_key id templates ≡ true) r.allowed_template_ids) rules
    → Returns IsWellFormed (init rules templates)
unfolding init
init-IsWellFormed rules templates h k registered = Returns-raise_if _ _ _ λ some_rule.
    Returns-raise_if _ _ _ λ _.
      Returns-ok
        (record { some_rule = some_rule; rules = h; registered = registered; templates = k })

module _ ⦃py : PyText⦄ where
  rules_for-All :
      (id path : String) (ids : List String) (headers : List (String × List String)) (limit : ℕ)
      (vs : List Json)
      → id ≢ ""
      → is_path path ≡ true
      → is_empty ids ≡ false
      → (0 < limit) × (limit ≤ 65536)
      → Returns (All IsReviewedRule) (rules_for id path ids headers limit vs)
  unfolding rules_for
  rules_for-All id path ids headers limit [] a b c d = Returns-ok tt
  rules_for-All id path ids headers limit (v ∷ vs) a b c d =
      elim (Bool-cases (is_method (py.upper (py.to_str v)))) [
        | inr e ↦ rw e Returns-err
        | inl e ↦ rw e (
            Returns-bind _ _ λ more rest. Returns-ok (
              record {
                exact = refl;
                method = is_method_cases _ e;
                path = b;
                named = a;
                some_template = c;
                positive = d.0;
                bounded = d.1;
              },
              (rules_for-All id path ids headers limit vs a b c d).at more rest,
            ))
      ]

  parse_endpoint-All :
      (seen_ids : List String) (v : Json)
      → Returns (λ found. All IsReviewedRule found.0) (parse_endpoint seen_ids v)
  unfolding parse_endpoint
  parse_endpoint-All seen_ids (obj fs) = Returns-bind _ _ λ entry checked.
      Returns-bind _ _ λ limit limited. Returns-bind _ _ λ ids texts. Returns-bind _ _ λ rs made.
        let c = (check_entry-IsChecked seen_ids fs).at entry checked in
        Returns-ok (
          (rules_for-All entry.endpoint_id entry.path ids _ limit entry.methods c.named c.path
              (nonempty_texts-is_empty _ ids (need-eq-ok _ texts) ∙ c.some_template)
              (response_limit_bounds _ limit (need-eq-ok _ limited))).at
            rs made)
  parse_endpoint-All seen_ids _ = Returns-err

  parse_endpoints-All :
      (seen_ids : List String) (vs : List Json)
      → Returns (All IsReviewedRule) (parse_endpoints seen_ids vs)
  unfolding parse_endpoints
  parse_endpoints-All seen_ids [] = Returns-ok tt
  parse_endpoints-All seen_ids (v ∷ vs) = Returns-bind _ _ λ (first, id) now.
      Returns-bind _ _ λ more later. Returns-ok (
        All-append _ first more ((parse_endpoint-All seen_ids v).at (first, id) now)
          ((parse_endpoints-All (id ∷ seen_ids) vs).at more later))

  insert-All :
      (id : String) (t : ProbeTemplate) (ts : List (String × ProbeTemplate))
      → IsReviewedTemplate (id, t)
      → All IsReviewedTemplate ts
      → All IsReviewedTemplate (insert id t ts)
  unfolding insert
  insert-All id t [] h k = (h, tt)
  insert-All id t ((j, u) ∷ ts) h (k, ks) = elim (Bool-cases (j == id)) [
    | inl e ↦ rw e (rw ((eq_iff j id).0 e) h, ks)
    | inr e ↦ rw e (k, insert-All id t ts h ks)
  ]

  add_template-All :
      (ts : List (String × ProbeTemplate)) (v : Json)
      → All IsReviewedTemplate ts
      → Returns (All IsReviewedTemplate) (add_template ts v)
  unfolding add_template
  add_template-All ts (obj fs) k = Returns-bind _ _ λ id _. Returns-raise_if _ _ _ λ fine.
      Returns-ok (
        insert-All id _ ts
          (record {
            keyed = refl;
            named = ne_of_test id "" (ground arith);
            method = is_method_cases _ (ground arith);
          })
          k)
  add_template-All ts _ k = Returns-err

  parse_templates-All :
      (ts : List (String × ProbeTemplate)) (vs : List Json)
      → All IsReviewedTemplate ts
      → Returns (All IsReviewedTemplate) (parse_templates ts vs)
  unfolding parse_templates
  parse_templates-All ts [] k = Returns-ok k
  parse_templates-All ts (v ∷ vs) k =
      Returns-bind _ _ λ more e. parse_templates-All more vs ((add_template-All ts v k).at more e)

  from_json-Returns : (v : Json) → Returns IsWellFormed (from_json v)
  unfolding from_json
  from_json-Returns (obj fs) = Returns-bind _ _ λ vs _. Returns-raise_if _ _ _ λ _.
      Returns-bind _ _ λ entries _. Returns-bind _ _ λ templates read.
        Returns-bind _ _ λ rules made. Returns-raise_if _ _ _ λ registered.
          init-IsWellFormed rules templates ((parse_endpoints-All [] vs).at rules made)
            ((parse_templates-All [] entries tt).at templates read)
            (all_registered-All rules templates (ground arith))
  from_json-Returns _ = Returns-err

  -- An inventory that `from_json` returns is well formed: it has a rule, each
  -- rule matches exactly, for GET or POST, on a path that begins with "/" and has no "?", under a
  -- named endpoint, with a response limit from 1 to 65536 and at least one template, each of which
  -- is registered; each registered template has a name, is keyed by it, and is for GET or POST.
  pub from_json-IsWellFormed : (v : Json) (al : Allowlist) → from_json v ≡ ok al → IsWellFormed al
  from_json-IsWellFormed v al h = (from_json-Returns v).at al h
