-- ===== src/Analysis/Provenance/Laws.antt =====
-- What a response has in common with the packet, if `validate_provenance` lets it through.
use nguyen_dinh_b.Prelude.{
  String, ◌≡◌, refl, ap, ◌∙◌, ◌⊎◌, inl, inr, Bool, true, false, not, List, [], ◌∷◌, ◌++◌, map,
  arith, Bool-cases, All, Any, All-map, any,
}
use mathlib.Core.Path.{subst}
use nguyen_dinh_b.Prelude.Order.{str_leb, In, In-any, any-In, In-keep, In-sort}
use nguyen_dinh_b.Json.{Json, null, bool, int, float, str, arr, obj, Fields, get_null}
use nguyen_dinh_b.Python.{ok, PyText, >>=-eq-ok, ok-injective}
use nguyen_dinh_b.Analysis.Provenance.{
  as_dict, hashed, hashed_all, messages, under, spots, mem, set_of, difference, pair_text, quoted,
  id_errors, set_errors, location_errors, knowledge_errors, class_errors,
}

pub append-empty : {A : Type 0} (xs ys : List A) → (xs ++ ys) ≡ [] → (xs ≡ []) × (ys ≡ [])
append-empty [] ys h = (refl, h)
append-empty (x ∷ xs) ys h = cc

-- No message: no value is bad.
pub messages-empty :
    (bad : Json → Bool) (message : Json → String) (vs : List Json)
    → messages bad message vs ≡ []
    → All (λ v. bad v ≡ false) vs
messages-empty bad message [] h = tt
messages-empty bad message (v ∷ vs) h = elim (Bool-cases (bad v)) [
  | inl e ↦ absurd (cc (rw e at h))
  | inr e ↦ (e, messages-empty bad message vs (rw e at h))
]

map-empty : {A B : Type 0} (f : A → B) (xs : List A) → map f xs ≡ [] → xs ≡ []
map-empty f [] h = refl
map-empty f (x ∷ xs) h = cc

not-false : (b : Bool) → not b ≡ false → b ≡ true
not-false true h = refl
not-false false h = cc

In-empty : {A : Type 0} (a : A) (xs : List A) → xs ≡ [] → ¬ In a xs
In-empty a [] h i = i
In-empty a (x ∷ xs) h i = cc

pub as_dict-eq : (v : Json) {fs : Fields} → as_dict v ≡ ok fs → v ≡ obj fs
unfolding as_dict
as_dict-eq (obj fs) h = cc
as_dict-eq null h = cc
as_dict-eq (bool b) h = cc
as_dict-eq (int n) h = cc
as_dict-eq (float m k) h = cc
as_dict-eq (str s) h = cc
as_dict-eq (arr vs) h = cc

hashed-same : (v : Json) {w : Json} → hashed v ≡ ok w → w ≡ v
unfolding hashed
hashed-same v h = ground arith

pub hashed_all-same : (vs : List Json) {ws : List Json} → hashed_all vs ≡ ok ws → ws ≡ vs
unfolding hashed_all
hashed_all-same [] h = cc
hashed_all-same (v ∷ vs) h =
    let (w, (p, h1)) = >>=-eq-ok (hashed v) _ h in
    let (rest, (q, h2)) = >>=-eq-ok (hashed_all vs) _ h1 in
    cc (h2, hashed-same v p, hashed_all-same vs q)

module _ ⦃py : PyText⦄ where
  -- The value is one of the texts.
  abbrev pub IsAmong : List String → Json → Type 0
  IsAmong texts v = Any (λ s. v ≡ str s) texts

  among :
      (v : Json) (texts : List String)
      → any (λ s. py.equal v (str s)) texts ≡ true
      → IsAmong texts v
  among v [] h = cc
  among v (s ∷ ss) h = elim (Bool-cases (py.equal v (str s))) [
    | inl e ↦ inl (py.equal-str v s e)
    | inr e ↦ inr (among v ss (rw e at h))
  ]

  -- rules 3, 4 and 5, and one half of rule 1
  all-IsAmong :
      (message : Json → String) (texts : List String) (vs : List Json)
      → messages (λ v. not (any (λ s. py.equal v (str s)) texts)) message vs ≡ []
      → All (IsAmong texts) vs
  all-IsAmong message texts vs h =
      All-map _ _ (λ v e. among v texts (not-false _ e)) vs (messages-empty _ message vs h)

  -- Every value is itself in the set of the values, or one that it equals is.
  In-set_of :
      (v : Json) (vs : List Json)
      → In v vs
      → (w : Json) × In w (set_of vs) × ((w ≡ v) ⊎ (py.equal v w ≡ true))
  unfolding set_of
  In-set_of v [] i = absurd i
  In-set_of v (x ∷ xs) (inl e) = elim (Bool-cases (mem x (set_of xs))) [
    | inl t ↦ let (w, j, q) = any-In (py.equal x) (set_of xs) t in rw t (w, j, inr (rw e at q))
    | inr f ↦ rw f (x, inl refl, inl e)
  ]
  In-set_of v (x ∷ xs) (inr i) =
      let (w, j, q) = In-set_of v xs i in
      elim (Bool-cases (mem x (set_of xs))) [ inl t ↦ rw t (w, j, q) | inr f ↦ rw f (w, inr j, q) ]

  -- Nothing is left in a difference of sets.
  difference-empty :
      (shown : Json → String) (a b : List Json)
      → difference shown a b ≡ []
      → (v : Json) → In v a
      → mem v b ≡ true
  unfolding difference
  difference-empty shown a b h v i =
      let (w, j, q) = In-set_of v a i in
      elim (Bool-cases (mem w b)) [
        | inl t ↦ elim q [
          | inl e ↦ subst (λ x. mem x b ≡ true) e t
          | inr e ↦
              let (u, k, r) = any-In (py.equal w) b t in
              In-any (py.equal v) u b (py.equal-trans v w u e r) k
        ]
        | inr f ↦
            let kept = In-keep (λ x. not (mem x b)) w (set_of a) (rw f refl) j in
            absurd (In-empty w _ h (In-sort (λ x y. str_leb (shown x) (shown y)) w _ kept))
      ]

  -- Each value of one list equals some value of the other, and the other way round.
  pub record SameValues (said given : List Json) : Type 0 where
    pub none_invented : (v : Json) → In v said → mem v given ≡ true
    pub none_dropped : (v : Json) → In v given → mem v said ≡ true

  set_errors-SameValues :
      (shown : Json → String) (what : String) (said given : List Json)
      → set_errors shown what said given ≡ []
      → SameValues said given
  set_errors-SameValues shown what said given h =
      let (a, b) = append-empty _ _ h in
      record {
        none_invented = difference-empty shown said given (map-empty _ _ a);
        none_dropped = difference-empty shown given said (map-empty _ _ b);
      }

  -- The places of the response are those of the packet.
  pub record SamePlaces (rec_locs locations : List Json) : Type 0 where
    pub said : List Json
    pub given : List Json
    pub said_urls : List Json
    pub given_urls : List Json
    pub said_from : spots rec_locs ≡ ok said
    pub given_from : spots locations ≡ ok given
    pub said_urls_from : hashed_all (under "url" rec_locs) ≡ ok said_urls
    pub given_urls_from : hashed_all (under "url" locations) ≡ ok given_urls
    pub spots_same : SameValues said given
    pub urls_same : SameValues said_urls given_urls

  pub location_errors-SamePlaces :
      (rec_locs locations : List Json)
      → location_errors rec_locs locations ≡ ok []
      → SamePlaces rec_locs locations
  unfolding location_errors
  location_errors-SamePlaces rec_locs locations h =
      let (given, (p, h1)) = >>=-eq-ok (spots locations) _ h in
      let (given_urls, (q, h2)) = >>=-eq-ok (hashed_all (under "url" locations)) _ h1 in
      let (said, (r, h3)) = >>=-eq-ok (spots rec_locs) _ h2 in
      let (said_urls, (t, h4)) = >>=-eq-ok (hashed_all (under "url" rec_locs)) _ h3 in
      let (a, b) = append-empty _ _ (ok-injective h4) in
      record {
        said = said;
        given = given;
        said_urls = said_urls;
        given_urls = given_urls;
        said_from = r;
        given_from = p;
        said_urls_from = t;
        given_urls_from = q;
        spots_same = set_errors-SameValues pair_text "location" said given a;
        urls_same = set_errors-SameValues py.to_str "URL location" said_urls given_urls b;
      }

  pub knowledge_errors-IsAmong :
      (krefs : List Json) (paths : List String)
      → knowledge_errors krefs paths ≡ ok []
      → All (λ v. (fs : Fields) × (v ≡ obj fs) × IsAmong paths (get_null "path" fs)) krefs
  unfolding knowledge_errors
  knowledge_errors-IsAmong [] paths h = tt
  knowledge_errors-IsAmong (kref ∷ krefs) paths h =
      let (fs, (p, h1)) = >>=-eq-ok (as_dict kref) _ h in
      let (rest, (q, h2)) = >>=-eq-ok (knowledge_errors krefs paths) _ h1 in
      let (a, b) = append-empty _ rest (ok-injective h2) in
      (
        (
          fs,
          as_dict-eq kref p,
          (all-IsAmong (quoted "Invented knowledge_ref path '" "' not in retrieved hits" py.to_str)
              paths (get_null "path" fs ∷ []) a).0,
        ),
        knowledge_errors-IsAmong krefs paths (q ∙ ap ok b),
      )

  pub class_errors-IsAmong :
      (what : String) (said : List Json) (given : List String)
      → class_errors what said given ≡ ok []
      → All (IsAmong given) said
  unfolding class_errors
  class_errors-IsAmong what said given h =
      let (values, (p, h1)) = >>=-eq-ok (hashed_all said) _ h in
      subst (All (IsAmong given)) (hashed_all-same said p)
        (all-IsAmong _ given values (ok-injective h1))

  pub id_errors-both :
      (rec_ids : List Json) (ids : List String)
      → id_errors rec_ids ids ≡ []
      → All (IsAmong ids) rec_ids × All (λ s. mem s rec_ids ≡ true) (map str ids)
  unfolding id_errors
  id_errors-both rec_ids ids h =
      let (a, b) = append-empty _ _ h in
      (all-IsAmong _ ids rec_ids a, All-map _ _ (λ v e. not-false _ e) _ (messages-empty _ _ _ b))
