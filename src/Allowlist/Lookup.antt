-- ===== src/Allowlist/Lookup.antt =====
-- What the queries of an inventory answer, against the rules and templates that it holds.
use nguyen_dinh_b.Prelude.{
  String, ◌≡◌, ap, ◌∙◌, ◌↔◌, ◌⊎◌, inl, inr, true, false, false≢true, Option, none, some, List, [],
  ◌∷◌, arith, eq_iff, Bool-cases, Option-cases, is_some, Any, Any-map, any, codes, has_code,
}
use nguyen_dinh_b.Prelude.Dict.{lookup}
use nguyen_dinh_b.Python.{PyText}
use nguyen_dinh_b.Allowlist.{
  ProbeTemplate, AllowlistRule, Allowlist, same, fits, fits?, pick_template, resolve_in,
  resolve_template, is_allowed, is_listed, is_reviewed, admits,
}

-- The path has neither a query nor a fragment.
abbrev pub IsPlainPath : String → Type 0
IsPlainPath path = (has_code b'?' (codes path) ≡ false) × (has_code b'#' (codes path) ≡ false)

-- Some rule of the inventory has exactly this method and path.
abbrev pub HasRule : Allowlist → String → String → Type 0
HasRule al method path = Any (λ r. (r.method ≡ method) × (r.path ≡ path)) al.rules

-- The template `id` is registered for this method and payload.
abbrev pub IsRegistered : List (String × ProbeTemplate) → String → Option String → String → Type 0
IsRegistered templates method kind id =
    (t : ProbeTemplate) × (lookup id templates ≡ some t)
    × (t.method ≡ method)
    × (t.payload_kind ≡ kind)

-- A rule of the inventory for this method and path lists the registered template `id`.
abbrev pub Grants : Allowlist → String → String → Option String → String → Type 0
Grants al method path kind id =
    Any (λ r. (r.method ≡ method) × (r.path ≡ path) × Any (λ j. j ≡ id) r.allowed_template_ids)
      al.rules
    × IsRegistered al.templates method kind id

same_iff : (a b : Option String) → (same a b ≡ true) ↔ (a ≡ b)
same_iff none none = ground arith
same_iff none (some b) = ground arith
same_iff (some a) none = ground arith
same_iff (some a) (some b) = ground (arith, eq_iff a b)

fits?_sound :
    (templates : List (String × ProbeTemplate)) (method : String) (kind : Option String)
    (id : String)
    → fits? (lookup id templates) method kind ≡ true
    → IsRegistered templates method kind id
fits?_sound templates method kind id h = elim (Option-cases (lookup id templates)) [
  | inl e ↦ absurd (false≢true (rw e at h))
  | inr (t, e) ↦
      let h' : fits t method kind ≡ true = rw e at h in
      (t, e, ground (arith, eq_iff t.method method), ground (arith, same_iff t.payload_kind kind))
]

fits?_complete :
    (templates : List (String × ProbeTemplate)) (method : String) (kind : Option String)
    (id : String)
    → IsRegistered templates method kind id
    → fits? (lookup id templates) method kind ≡ true
fits?_complete templates method kind id (t, e, m, k) =
    rw e (ground (arith, eq_iff t.method method, same_iff t.payload_kind kind))

pick_template_sound :
    (templates : List (String × ProbeTemplate)) (method : String) (kind : Option String)
    (ids : List String) (id : String)
    → pick_template templates method kind ids ≡ some id
    → Any (λ j. j ≡ id) ids × IsRegistered templates method kind id
unfolding pick_template
pick_template_sound templates method kind [] id h = cc
pick_template_sound templates method kind (j ∷ ids) id h =
    elim (Bool-cases (fits? (lookup j templates) method kind)) [
      | inl e ↦
          let p : j ≡ id = ground arith in (inl p, rw p at (fits?_sound templates method kind j e))
      | inr e ↦
          let (listed, registered) =
            pick_template_sound templates method kind ids id (ground arith) in
          (inr listed, registered)
    ]

-- What the first fitting template is, is not said; that there is one, is.
pick_template_complete :
    (templates : List (String × ProbeTemplate)) (method : String) (kind : Option String)
    (ids : List String) (id : String)
    → Any (λ j. j ≡ id) ids
    → IsRegistered templates method kind id
    → is_some (pick_template templates method kind ids) ≡ true
unfolding pick_template
pick_template_complete templates method kind [] id h g = absurd h
pick_template_complete templates method kind (j ∷ ids) id (inl p) g =
    rw (rw (← p) at (fits?_complete templates method kind id g))
pick_template_complete templates method kind (j ∷ ids) id (inr h) g =
    ground (arith, pick_template_complete templates method kind ids id h g)

resolve_in_cases :
    (templates : List (String × ProbeTemplate)) (method path : String) (kind : Option String)
    (r : AllowlistRule) (rs : List AllowlistRule) (id : String)
    → resolve_in templates method path kind (r ∷ rs) ≡ some id
    → ((r.method ≡ method)
        × (r.path ≡ path)
        × (pick_template templates method kind r.allowed_template_ids ≡ some id))
      ⊎ (resolve_in templates method path kind rs ≡ some id)
unfolding resolve_in
resolve_in_cases templates method path kind r rs id h =
    ground (arith, eq_iff r.method method, eq_iff r.path path)

resolve_in_sound :
    (templates : List (String × ProbeTemplate)) (method path : String) (kind : Option String)
    (rules : List AllowlistRule) (id : String)
    → resolve_in templates method path kind rules ≡ some id
    → Any
        (λ r. (r.method ≡ method) × (r.path ≡ path) × Any (λ j. j ≡ id) r.allowed_template_ids)
        rules
      × IsRegistered templates method kind id
unfolding resolve_in
resolve_in_sound templates method path kind [] id h = cc
resolve_in_sound templates method path kind (r ∷ rs) id h =
    elim (resolve_in_cases templates method path kind r rs id h) [
      | inl (m, p, picked) ↦
          let (listed, registered) =
            pick_template_sound templates method kind r.allowed_template_ids id picked in
          (inl (m, p, listed), registered)
      | inr later ↦
          let (found, registered) = resolve_in_sound templates method path kind rs id later in
          (inr found, registered)
    ]

resolve_in_complete :
    (templates : List (String × ProbeTemplate)) (method path : String) (kind : Option String)
    (rules : List AllowlistRule) (id : String)
    → Any
        (λ r. (r.method ≡ method) × (r.path ≡ path) × Any (λ j. j ≡ id) r.allowed_template_ids)
        rules
    → IsRegistered templates method kind id
    → is_some (resolve_in templates method path kind rules) ≡ true
unfolding resolve_in
resolve_in_complete templates method path kind [] id h g = absurd h
resolve_in_complete templates method path kind (r ∷ rs) id (inl (m, p, l)) g = ground (
  arith,
  eq_iff r.method method,
  eq_iff r.path path,
  pick_template_complete templates method kind r.allowed_template_ids id l g,
)
resolve_in_complete templates method path kind (r ∷ rs) id (inr h) g =
    ground (arith, resolve_in_complete templates method path kind rs id h g)

any-covers_iff :
    (method path : String) (rules : List AllowlistRule)
    → (any (λ r. admits r method path none none) rules ≡ true)
      ↔ Any (λ r. (r.method ≡ method) × (r.path ≡ path)) rules
any-covers_iff method path [] = (λ h. cc, λ h. absurd h)
any-covers_iff method path (r ∷ rs) = (
  λ h. ground (arith, eq_iff r.method method, eq_iff r.path path, any-covers_iff method path rs),
  λ h. ground (arith, eq_iff r.method method, eq_iff r.path path, any-covers_iff method path rs),
)

module _ ⦃py : PyText⦄ where
  -- A template that the inventory resolves is listed by a rule for exactly that method (in upper
  -- case) and path, and is registered for that method and exactly that payload.
  pub resolve_template_sound :
      (al : Allowlist) (method path : String) (kind : Option String) (id : String)
      → resolve_template al method path kind ≡ some id
      → Grants al (py.upper method) path kind id
  unfolding resolve_template
  resolve_template_sound al method path kind id h =
      resolve_in_sound al.templates (py.upper method) path kind al.rules id h

  -- Where a rule grants a registered template, the inventory resolves some template.
  pub resolve_template_complete :
      (al : Allowlist) (method path : String) (kind : Option String) (id : String)
      → Grants al (py.upper method) path kind id
      → is_some (resolve_template al method path kind) ≡ true
  unfolding resolve_template
  resolve_template_complete al method path kind id (found, registered) =
      resolve_in_complete al.templates (py.upper method) path kind al.rules id found registered

  -- A method and path are let through without a template exactly when the path is plain and a rule
  -- has that path and the method in upper case.
  pub is_listed_iff :
      (al : Allowlist) (method path : String)
      → (is_listed al method path ≡ true) ↔ (IsPlainPath path × HasRule al (py.upper method) path)
  unfolding is_allowed
  is_listed_iff al method path = (
    λ h. ground (arith, any-covers_iff (py.upper method) path al.rules),
    λ h. ground (arith, any-covers_iff (py.upper method) path al.rules),
  )

  Grants-HasRule :
      (al : Allowlist) (method path : String) (kind : Option String) (id : String)
      → Grants al method path kind id
      → HasRule al method path
  Grants-HasRule al method path kind id (found, _) = Any-map _ _ (λ r h. (h.0, h.1)) al.rules found

  -- For a method that is its own upper case, a payload is let through exactly when the path is plain
  -- and a template is granted for it.
  pub is_reviewed_iff :
      (al : Allowlist) (method path kind : String)
      → py.upper method ≡ method
      → (is_reviewed al method path kind ≡ true)
        ↔ (IsPlainPath path × (id : String) × Grants al method path (some kind) id)
  unfolding is_allowed
  is_reviewed_iff al method path kind up = (
    λ h. elim (Option-cases (resolve_template al (py.upper method) path (some kind))) [
      | inl e ↦ ground arith
      | inr (id, e) ↦ (
        ground arith,
        id,
        rw (ap py.upper up ∙ up) at
            (resolve_template_sound al (py.upper method) path (some kind) id e),
      )
    ],
    λ h.
        let (plain, id, g) = h in
        let found : Grants al (py.upper (py.upper method)) path (some kind) id =
          rw (ap py.upper up ∙ up) g in
        let resolved = resolve_template_complete al (py.upper method) path (some kind) id found in
        let listed : HasRule al (py.upper method) path =
          rw up (Grants-HasRule al method path (some kind) id g) in
        ground (arith, any-covers_iff (py.upper method) path al.rules),
  )
