-- ===== src/Redaction/Events.antt =====
-- The counts that redaction reports.
use nguyen_dinh_b.Prelude.{
  ℕ, ◌+◌, ◌≤◌, String, ◌≡◌, refl, ◌≢◌, false, List, [], ◌∷◌, ◌++◌, arith, ◌==◌, eq_iff,
  if◌then◌else◌,
}
use nguyen_dinh_b.Prelude.Dict.{lookup, insert, lookup-insert}
use nguyen_dinh_b.Redaction.{
  RedactionEvent, Pattern, total, add_events, to_events, merge_events, run_patterns, redact,
}

-- The sum of the counts of one kind.
pub count_of : String → List RedactionEvent → ℕ
count_of kind [] = 0
count_of kind (e ∷ es) = (if e.kind == kind then e.count else 0) + count_of kind es

-- The number of events of one kind.
pub events_of : String → List RedactionEvent → ℕ
events_of kind [] = 0
events_of kind (e ∷ es) = (if e.kind == kind then 1 else 0) + events_of kind es

total-add_events :
    (kind : String) (totals : List (String × ℕ)) (es : List RedactionEvent)
    → total kind (add_events totals es) ≡ total kind totals + count_of kind es
unfolding add_events count_of
total-add_events kind totals [] = omega arith
total-add_events kind totals (e ∷ es) = ground (
  arith,
  total-add_events kind (insert e.kind (total e.kind totals + e.count) totals) es,
  lookup-insert e.kind kind (total e.kind totals + e.count) totals,
  eq_iff e.kind kind,
)

-- The keys of a dict, each as often as it stands there.
keys_of : String → List (String × ℕ) → ℕ
keys_of kind [] = 0
keys_of kind ((j, n) ∷ d) = (if j == kind then 1 else 0) + keys_of kind d

keys_of-insert_ne :
    (kind k : String) (n : ℕ) (d : List (String × ℕ))
    → (k == kind) ≡ false
    → keys_of kind (insert k n d) ≡ keys_of kind d
unfolding keys_of insert
keys_of-insert_ne kind k n [] h = ground arith
keys_of-insert_ne kind k n ((j, m) ∷ d) h = ground (arith, keys_of-insert_ne kind k n d)

keys_of-insert :
    (kind k : String) (n : ℕ) (d : List (String × ℕ))
    → keys_of kind d ≤ 1
    → keys_of kind (insert k n d) ≤ 1
unfolding keys_of insert
keys_of-insert kind k n [] h = ground arith
keys_of-insert kind k n ((j, m) ∷ d) h = ground (
  arith,
  eq_iff j k,
  eq_iff j kind,
  eq_iff k kind,
  keys_of-insert kind k n d,
  keys_of-insert_ne kind k n d,
)

count_of-none :
    (kind : String) (d : List (String × ℕ)) → keys_of kind d ≡ 0 → count_of kind (to_events d) ≡ 0
unfolding keys_of count_of
count_of-none kind [] h = refl
count_of-none kind ((j, n) ∷ d) h = ground (arith, count_of-none kind d)

count_of-to_events :
    (kind : String) (d : List (String × ℕ))
    → keys_of kind d ≤ 1
    → count_of kind (to_events d) ≡ total kind d
unfolding keys_of count_of lookup
count_of-to_events kind [] h = refl
count_of-to_events kind ((j, n) ∷ d) h =
    ground (arith, count_of-to_events kind d, count_of-none kind d)

events_of-to_events :
    (kind : String) (d : List (String × ℕ)) → events_of kind (to_events d) ≡ keys_of kind d
unfolding keys_of events_of
events_of-to_events kind [] = refl
events_of-to_events kind ((j, n) ∷ d) = ground (arith, events_of-to_events kind d)

keys_of-add_events :
    (kind : String) (totals : List (String × ℕ)) (es : List RedactionEvent)
    → keys_of kind totals ≤ 1
    → keys_of kind (add_events totals es) ≤ 1
unfolding add_events
keys_of-add_events kind totals [] h = h
keys_of-add_events kind totals (e ∷ es) h =
    let n = total e.kind totals + e.count in
    keys_of-add_events kind (insert e.kind n totals) es (keys_of-insert kind e.kind n totals h)

-- Merging keeps the total of every kind, and leaves at most one event of each.
pub merge_events_lem :
    (kind : String) (events : List RedactionEvent)
    → (count_of kind (merge_events events) ≡ count_of kind events)
      × (events_of kind (merge_events events) ≤ 1)
unfolding merge_events lookup
merge_events_lem kind events =
    let once = keys_of-add_events kind [] events (unfold keys_of in omega arith) in
    (
      omega (arith, count_of-to_events kind _ once, total-add_events kind [] events),
      rw (events_of-to_events kind (add_events [] events)) once,
    )

count_of-append :
    (kind : String) (xs ys : List RedactionEvent)
    → count_of kind (xs ++ ys) ≡ count_of kind xs + count_of kind ys
unfolding count_of
count_of-append kind [] ys = omega arith
count_of-append kind (x ∷ xs) ys = ground (arith, count_of-append kind xs ys)

-- The substitutions that the patterns of one kind make, each on what the patterns before it left.
pub substitutions : String → List Pattern → String → ℕ
substitutions kind [] text = 0
substitutions kind (p ∷ ps) text =
    (if p.kind == kind then (p.subn text).1 else 0) + substitutions kind ps (p.subn text).0

run_patterns-count_of :
    (kind : String) (ps : List Pattern) (text : String) (events : List RedactionEvent)
    → count_of kind (run_patterns ps text events).1
      ≡ count_of kind events + substitutions kind ps text
unfolding run_patterns substitutions count_of
run_patterns-count_of kind [] text events = omega arith
run_patterns-count_of kind (p ∷ ps) text events =
    let found : RedactionEvent = record { kind = p.kind; count = (p.subn text).1 } in
    ground (
      arith,
      run_patterns-count_of kind ps (p.subn text).0 events,
      run_patterns-count_of kind ps (p.subn text).0 (events ++ found ∷ []),
      count_of-append kind events (found ∷ []),
    )

-- What `redact` reports of a kind is the number of substitutions that the patterns of this kind
-- made in a text that is not empty, in at most one event.
pub redact-counts :
    (kind : String) (ps : List Pattern) (text : String)
    → text ≢ ""
    → (count_of kind (redact ps text).1 ≡ substitutions kind ps text)
      × (events_of kind (redact ps text).1 ≤ 1)
unfolding redact count_of
redact-counts kind ps text h = ground (
  arith,
  eq_iff text "",
  merge_events_lem kind (run_patterns ps text []).1,
  run_patterns-count_of kind ps text [],
)
