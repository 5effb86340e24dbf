-- ===== src/Analysis/Provenance/Faithful.antt =====
-- A response that `validate_provenance` lets through says nothing that the packet does not.
use nguyen_dinh_b.Prelude.{
  String, ◌≡◌, refl, ap, ◌∙◌, inl, inr, Bool, true, false, Option, some, List, [], ◌∷◌, map,
  Bool-cases, is_empty, All,
}
use mathlib.Core.Path.{subst}
use nguyen_dinh_b.Json.{Json, str, obj, Fields, get_null}
use nguyen_dinh_b.Python.{Result, ok, PyText, bind-cases, ok-injective}
use nguyen_dinh_b.Analysis.Provenance.{
  iterate, list_or_empty, hashed_all, mem, id_errors, location_errors, knowledge_errors,
  class_errors, evidence_paths, source_errors, group_errors, Supplied, get_list, content_rule,
  score_rule, provenance_errors, validate_provenance,
}
use nguyen_dinh_b.Analysis.Provenance.Laws.{
  append-empty, hashed_all-same, IsAmong, SamePlaces, location_errors-SamePlaces,
  knowledge_errors-IsAmong, class_errors-IsAmong, id_errors-both,
}
use nguyen_dinh_b.Analysis.Provenance.Evidence.{
  IsBacked, HasPaths, source_errors-known, evidence-IsBacked, content_rule-each,
}

-- A verdict without errors has no messages.
verdict-empty :
    (errors found : List String)
    → ◌≡◌ {A = Result (Bool × List String)} (ok (is_empty errors, errors)) (ok (true, found))
    → errors ≡ []
verdict-empty [] found h = refl
verdict-empty (x ∷ xs) found h = cc

module _ ⦃py : PyText⦄ where
  -- What a response and its packet have in common.
  pub record IsFaithful (fs : Fields) (s : Supplied) : Type 0 where
    pub krefs : List Json
    pub cwe : List Json
    pub owasp : List Json
    pub evidence : List Json
    pub krefs_from : iterate (get_list "knowledge_refs" fs) ≡ ok krefs
    pub cwe_from : iterate (get_list "cwe" fs) ≡ ok cwe
    pub owasp_from : iterate (get_list "owasp" fs) ≡ ok owasp
    pub evidence_from : iterate (get_list "evidence" fs) ≡ ok evidence
    pub no_id_invented :
        All (IsAmong s.finding_ids) (list_or_empty (get_list "source_finding_ids" fs))
    pub no_id_dropped :
        All
          (λ v. mem v (list_or_empty (get_list "source_finding_ids" fs)) ≡ true)
          (map str s.finding_ids)
    pub same_places : SamePlaces (list_or_empty (get_list "locations" fs)) s.locations
    pub known_refs :
        All (λ v. (k : Fields) × (v ≡ obj k) × IsAmong s.knowledge_paths (get_null "path" k)) krefs
    pub known_cwes : All (IsAmong s.cwes) cwe
    pub known_owasps : All (IsAmong s.owasps) owasp
    pub backed : All (IsBacked s.source_evidence) evidence
    pub same_group : (key : String) → s.group_key ≡ some key → get_null "group_key" fs ≡ str key

  group_errors-same :
      (said : Json) (given : Option String)
      → group_errors said given ≡ []
      → (key : String) → given ≡ some key
      → said ≡ str key
  unfolding group_errors
  group_errors-same said given h key e = elim (Bool-cases (py.equal said (str key))) [
    | inl t ↦ py.equal-str said key t
    | inr f ↦ cc (rw (e, group_errors, f) at h)
  ]

  provenance_errors-IsFaithful :
      (fs : Fields) (s : Supplied)
      → HasPaths s.source_evidence
      → provenance_errors fs s ≡ ok []
      → IsFaithful fs s
  unfolding provenance_errors
  provenance_errors-IsFaithful fs s texts h =
      bind-cases (location_errors (list_or_empty (get_list "locations" fs)) s.locations) _ h
        λ locations p1 h1. bind-cases (iterate (get_list "knowledge_refs" fs)) _ h1 λ krefs p2 h2.
          bind-cases (knowledge_errors krefs s.knowledge_paths) _ h2 λ knowledge p3 h3.
            bind-cases (iterate (get_list "cwe" fs)) _ h3 λ cwe p4 h4.
              bind-cases (class_errors "CWE" cwe s.cwes) _ h4 λ cwes p5 h5.
                bind-cases (iterate (get_list "owasp" fs)) _ h5 λ owasp p6 h6.
                  bind-cases (class_errors "OWASP" owasp s.owasps) _ h6 λ owasps p7 h7.
                    bind-cases (hashed_all (evidence_paths s.source_evidence)) _ h7 λ paths p8 h8.
                      bind-cases (iterate (get_list "evidence" fs)) _ h8 λ evidence p9 h9.
                        bind-cases (source_errors evidence paths) _ h9 λ sources p10 h10.
                          bind-cases (score_rule krefs s) _ h10 λ scores p11 h11.
                            let none = ok-injective h11 in
                            let (e1, r1) = append-empty (id_errors _ s.finding_ids) _ none in
                            let (e2, r2) = append-empty locations _ r1 in
                            let (e3, r3) = append-empty knowledge _ r2 in
                            let (e4, r4) = append-empty cwes _ r3 in
                            let (e5, r5) = append-empty owasps _ r4 in
                            let (e6, r6) = append-empty sources _ r5 in
                            let (e7, r7) = append-empty (group_errors _ s.group_key) _ r6 in
                            let (e8, e9) = append-empty (content_rule evidence s) scores r7 in
                            let (ids, dropped) = id_errors-both _ s.finding_ids e1 in
                            let known =
                              source_errors-known evidence (evidence_paths s.source_evidence) (
                                subst (λ l. source_errors evidence l ≡ ok []) (hashed_all-same _ p8)
                                  (p10 ∙ ap ok e6)) in
                            record {
                              krefs = krefs;
                              cwe = cwe;
                              owasp = owasp;
                              evidence = evidence;
                              krefs_from = p2;
                              cwe_from = p4;
                              owasp_from = p6;
                              evidence_from = p9;
                              no_id_invented = ids;
                              no_id_dropped = dropped;
                              same_places =
                                  location_errors-SamePlaces _ s.locations (p1 ∙ ap ok e2);
                              known_refs =
                                  knowledge_errors-IsAmong krefs s.knowledge_paths (p3 ∙ ap ok e3);
                              known_cwes = class_errors-IsAmong "CWE" cwe s.cwes (p5 ∙ ap ok e4);
                              known_owasps =
                                  class_errors-IsAmong "OWASP" owasp s.owasps (p7 ∙ ap ok e5);
                              backed =
                                  evidence-IsBacked evidence s.source_evidence texts known
                                    (content_rule-each evidence s e8);
                              same_group =
                                  group_errors-same (get_null "group_key" fs) s.group_key e7;
                            }

  -- If a response passes, and what its packet has for paths of evidence are texts: it names just the
  -- findings of the packet and just its places; each of its knowledge references is an object with a
  -- path of the packet, each CWE and OWASP class is one of the packet; each of its items of evidence
  -- is an object and, if it is a piece of source, the packet has a piece with the same path, lines
  -- and, up to the tags around it and trailing space, content; and its group is the one supplied.
  pub validate_provenance-IsFaithful :
      (fs : Fields) (s : Supplied) (found : List String)
      → HasPaths s.source_evidence
      → validate_provenance fs s ≡ ok (true, found)
      → IsFaithful fs s
  unfolding validate_provenance
  validate_provenance-IsFaithful fs s found texts h =
      bind-cases (provenance_errors fs s) _ h λ errors p k.
        provenance_errors-IsFaithful fs s texts (p ∙ ap ok (verdict-empty errors found k))

  -- What the verdict and the messages have to do with each other.
  pub validate_provenance-verdict :
      (fs : Fields) (s : Supplied) (valid : Bool) (errors : List String)
      → validate_provenance fs s ≡ ok (valid, errors)
      → (valid ≡ false → is_empty errors ≡ false)
  unfolding validate_provenance
  validate_provenance-verdict fs s valid errors h e =
      bind-cases (provenance_errors fs s) _ h λ found p k. cc (k, e)
