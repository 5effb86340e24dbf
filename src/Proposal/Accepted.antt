-- ===== src/Proposal/Accepted.antt =====
-- What an accepted proposal is.
use nguyen_dinh_b.Prelude.{
  String, ◌≡◌, refl, sym, ap, ◌∙◌, ◌⊎◌, inl, inr, true, not, false≢true, some, List, [], ◌∷◌, arith,
  ◌==◌, eq_iff, Bool-cases, Option-cases, is_some, is_empty, keep, split_space,
}
use mathlib.Core.Path.{subst}
use nguyen_dinh_b.Json.{Json, null, str, obj, Fields, truthy, get_null}
use nguyen_dinh_b.Python.{PyText}
use nguyen_dinh_b.Allowlist.{Allowlist, is_listed, is_reviewed}
use nguyen_dinh_b.Allowlist.Lookup.{IsPlainPath, Grants, is_reviewed_iff}
use nguyen_dinh_b.Probe.{SafeProbe, is_kind}
use nguyen_dinh_b.Proposal.{
  ProposalDecision, reject, is_method, is_path, check_route, check_parts, check_hint, check_kind,
  validate_objective, Reason, approved, required_fields,
}

-- A request that the inventory covers: GET or POST, one of the four payloads, a plain absolute path,
-- and a registered template for just this method, path and payload.
pub record IsCovered (al : Allowlist) (probe : SafeProbe) : Type 0 where
  pub kind : String
  pub is_payload : probe.payload_kind ≡ str kind
  pub safe_kind : is_kind kind ≡ true
  pub method : (probe.method ≡ "GET") ⊎ (probe.method ≡ "POST")
  pub absolute : is_path probe.path ≡ true
  pub plain : IsPlainPath probe.path
  pub template : String
  pub granted : Grants al probe.method probe.path (some kind) template

-- A decision says "accepted" exactly if it carries a request, and a request that it carries is
-- covered.
record IsSound (al : Allowlist) (d : ProposalDecision) : Type 0 where
  agrees : d.accepted ≡ is_some d.probe
  covered : (probe : SafeProbe) → d.probe ≡ some probe → IsCovered al probe

some-eq : {A : Type 0} {a b : A} → some a ≡ some b → a ≡ b
some-eq h = cc

reject-IsSound : (al : Allowlist) (reason : Reason) → IsSound al (reject reason)
reject-IsSound al reason = record { agrees = refl; covered = λ probe e. absurd (cc) }

module _ ⦃py : PyText⦄ where
  upper_method : (m : String) → is_method m ≡ true → ((m ≡ "GET") ⊎ (m ≡ "POST")) × (py.upper m ≡ m)
  upper_method m h = elim (Bool-cases (m == "GET")) [
    | inl e ↦ let g = (eq_iff m "GET").0 e in (inl g, rw (g, py.upper-get) refl)
    | inr e ↦
        let g : m ≡ "POST" = ground (arith, eq_iff m "POST") in (inr g, rw (g, py.upper-post) refl)
  ]

  accept :
      (al : Allowlist) (kind method path : String)
      → is_kind kind ≡ true
      → is_method method ≡ true
      → is_path path ≡ true
      → is_reviewed al method path kind ≡ true
      → IsSound al (record {
        accepted = true;
        probe = some (record { method = method; path = path; payload_kind = str kind });
        reason = approved method path;
      })
  accept al kind method path k m p r =
      let (method_cases, up) = upper_method method m in
      let (plain, template, granted) = (is_reviewed_iff al method path kind up).0 r in
      record {
        agrees = refl;
        covered = λ probe e. subst (IsCovered al) (some-eq e) (record {
          kind = kind;
          is_payload = refl;
          safe_kind = k;
          method = method_cases;
          absolute = p;
          plain = plain;
          template = template;
          granted = granted;
        });
      }

  check_route-IsSound :
      (al : Allowlist) (kind method path : String)
      → is_kind kind ≡ true
      → IsSound al (check_route al kind method path)
  unfolding check_route
  check_route-IsSound al kind method path k = elim (Bool-cases (is_method method)) [
    | inr e ↦ rw e (reject-IsSound al _)
    | inl m ↦ elim (Bool-cases (is_path path)) [
      | inr e ↦ rw (m, e) (reject-IsSound al _)
      | inl p ↦ elim (Bool-cases (is_listed al method path)) [
        | inr e ↦ rw (m, p, e) (reject-IsSound al _)
        | inl l ↦ elim (Bool-cases (is_reviewed al method path kind)) [
          | inr e ↦ rw (m, p, l, e) (reject-IsSound al _)
          | inl r ↦ rw (m, p, l, r) (accept al kind method path k m p r)
        ]
      ]
    ]
  ]

  check_parts-IsSound :
      (al : Allowlist) (kind hint : String) (parts : List String)
      → is_kind kind ≡ true
      → IsSound al (check_parts al kind hint parts)
  unfolding check_parts
  check_parts-IsSound al kind hint (method ∷ path ∷ []) k = check_route-IsSound al kind _ path k
  check_parts-IsSound al kind hint _ k = reject-IsSound al _

  check_hint-IsSound :
      (al : Allowlist) (kind : String) (hint : Json)
      → is_kind kind ≡ true
      → IsSound al (check_hint al kind hint)
  unfolding check_hint
  check_hint-IsSound al kind (str hint) k = check_parts-IsSound al kind hint (split_space hint) k
  check_hint-IsSound al kind _ k = reject-IsSound al _

  check_kind-IsSound :
      (al : Allowlist) (fs : Fields) (kind : Json) → IsSound al (check_kind al fs kind)
  unfolding check_kind
  check_kind-IsSound al fs (str kind) = elim (Bool-cases (is_kind kind)) [
    | inr u ↦ rw u (reject-IsSound al _)
    | inl k ↦ rw k (check_hint-IsSound al kind _ k)
  ]
  check_kind-IsSound al fs _ = reject-IsSound al _

  validate_objective-IsSound : (v : Json) (al : Allowlist) → IsSound al (validate_objective v al)
  unfolding validate_objective
  validate_objective-IsSound null al = reject-IsSound al _
  validate_objective-IsSound (obj fs) al =
      elim (Bool-cases
        (is_empty (keep (λ name. not (truthy (get_null name fs))) required_fields))) [
          | inl e ↦ rw e (check_kind-IsSound al fs _)
          | inr e ↦ rw e (reject-IsSound al _)
        ]
  validate_objective-IsSound _ al = reject-IsSound al _

  -- Whatever the model proposes: a decision that accepts carries a request. The request is for GET or
  -- POST on an absolute path without query or fragment, has one of the four safe payloads, and is
  -- granted by a reviewed template for just this method, path and payload.
  pub validate_objective-IsCovered :
      (v : Json) (al : Allowlist)
      → (validate_objective v al).accepted ≡ true
      → (probe : SafeProbe) × ((validate_objective v al).probe ≡ some probe) × IsCovered al probe
  validate_objective-IsCovered v al h =
      let sound = validate_objective-IsSound v al in
      elim (Option-cases (validate_objective v al).probe) [
        | inl e ↦ absurd (false≢true (sym (sound.agrees ∙ ap is_some e) ∙ h))
        | inr (probe, e) ↦ (probe, e, sound.covered probe e)
      ]
