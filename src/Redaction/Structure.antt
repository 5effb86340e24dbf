-- ===== src/Redaction/Structure.antt =====
-- What `redact_structure` leaves in a structure.
use nguyen_dinh_b.Prelude.{
  String, ◌≡◌, refl, ap, inl, inr, Bool, true, false, not, ◌&&◌, some, List, [], arith, ◌==◌,
  eq_iff, if◌then◌else◌, Bool-cases, mem_str,
}
use nguyen_dinh_b.Json.{
  Json, null, bool, int, float, str, arr, obj, Items, nil, cons, Fields, end, field, get,
}
use nguyen_dinh_b.Redaction.{
  Pattern, redact, skip_keys, is_container, walk, walk_items, walk_fields, redact_structure,
}

-- Every text in the value has `Q`, but for the keys and for the values under `skip_keys` that are no
-- containers.
module _ (Q : String → Type 0) where
  mutual
    pub AllText : Json → Type 0
    AllText (str s) = Q s
    AllText (arr vs) = AllItems vs
    AllText (obj fs) = AllFields fs
    AllText _ = Unit

    pub AllItems : Items → Type 0
    AllItems nil = Unit
    AllItems (cons v vs) = AllText v × AllItems vs

    pub AllFields : Fields → Type 0
    AllFields end = Unit
    AllFields (field k v fs) =
        (if mem_str k skip_keys && not (is_container v) then Unit {0} else AllText v) × AllFields fs

-- A value that stands under the key `k` is left out of account.
abbrev is_skipped : String → Json → Bool
is_skipped k v = mem_str k skip_keys && not (is_container v)

walk-is_container :
    (patterns : List Pattern) (v : Json) → is_container (walk patterns v).0 ≡ is_container v
unfolding walk
walk-is_container patterns (str s) = refl
walk-is_container patterns _ = refl

-- what `walk_fields` makes of one entry
walked : List Pattern → String → Json → Json
walked patterns k v = (if is_skipped k v then (v, []) else walk patterns v).0

walked_skipped :
    (patterns : List Pattern) (k : String) (v : Json)
    → is_skipped k v ≡ true
    → walked patterns k v ≡ v
unfolding walked
walked_skipped patterns k v h = ap (λ (b : Bool). (if b then (v, []) else walk patterns v).0) h

walked_kept :
    (patterns : List Pattern) (k : String) (v : Json)
    → is_skipped k v ≡ false
    → walked patterns k v ≡ (walk patterns v).0
unfolding walked
walked_kept patterns k v h = ap (λ (b : Bool). (if b then (v, []) else walk patterns v).0) h

walked-AllText :
    (patterns : List Pattern) (Q : String → Type 0) (k : String) (v : Json)
    → AllText Q (walk patterns v).0
    → if is_skipped k (walked patterns k v) then Unit {0} else AllText Q (walked patterns k v)
walked-AllText patterns Q k v h = elim (Bool-cases (is_skipped k v)) [
  | inl skip ↦ rw (walked_skipped patterns k v skip) (rw skip tt)
  | inr kept ↦ rw (walked_kept patterns k v kept) (rw walk-is_container (rw kept h))
]

module _ (patterns : List Pattern) (Q : String → Type 0)
    (clean : (s : String) → Q (redact patterns s).0) where
  mutual
    unfolding walk AllText walked

    walk-AllText_lem : (v : Json) → AllText Q (walk patterns v).0
    walk-AllText_lem (str s) = clean s
    walk-AllText_lem (arr vs) = walk_items-AllItems vs
    walk-AllText_lem (obj fs) = walk_fields-AllFields fs
    walk-AllText_lem null = tt
    walk-AllText_lem (bool b) = tt
    walk-AllText_lem (int n) = tt
    walk-AllText_lem (float m k) = tt

    walk_items-AllItems : (vs : Items) → AllItems Q (walk_items patterns vs).0
    walk_items-AllItems nil = tt
    walk_items-AllItems (cons v vs) = (walk-AllText_lem v, walk_items-AllItems vs)

    walk_fields-AllFields : (fs : Fields) → AllFields Q (walk_fields patterns fs).0
    walk_fields-AllFields end = tt
    walk_fields-AllFields (field k v fs) =
        (walked-AllText patterns Q k v (walk-AllText_lem v), walk_fields-AllFields fs)

  -- If whatever the patterns leave of a text has `Q`, every text in a redacted structure has it, but
  -- for the keys and for plain values under the keys of provenance.
  pub redact_structure-AllText : (v : Json) → AllText Q (redact_structure patterns v).0
  unfolding redact_structure
  redact_structure-AllText v = walk-AllText_lem v

module _ (patterns : List Pattern) where
  -- Under a key of provenance a value that is no container is left as it is.
  walk_fields-skipped :
      (k : String) (v : Json) (fs : Fields)
      → mem_str k skip_keys ≡ true
      → is_container v ≡ false
      → get k fs ≡ some v
      → get k (walk_fields patterns fs).0 ≡ some v
  unfolding walk get
  walk_fields-skipped k v end h c e = cc
  walk_fields-skipped k v (field j w fs) h c e = elim (Bool-cases (j == k)) [
    | inl same ↦
        let p : w ≡ v = ground arith in
        let q : is_skipped j w ≡ true = rw ((eq_iff j k).0 same, p, h, c) refl in
        rw same (rw q (rw p))
    | inr other ↦ rw other (walk_fields-skipped k v fs h c (rw other at e))
  ]
