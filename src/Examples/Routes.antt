-- ===== src/Examples/Routes.antt =====
-- The theorem on the correlation of findings with what the dynamic scan has reached.
use nguyen_dinh_b.Prelude.{String, refl, some, List, [], ◌∷◌, Option}
use nguyen_dinh_b.Json.{str, arr, obj, nil, cons, Fields, end, field, get, get_or, truthy}
use nguyen_dinh_b.Python.{Result, ok}
use nguyen_dinh_b.Analysis.Correlation.{Mappings, observed_paths, correlate}
use nguyen_dinh_b.Analysis.Correlation.Reached.{AllCorrelated, correlate-AllCorrelated}
use nguyen_dinh_b.Examples.{plain_text}

-- what the file of a controller declares
abbrev mappings : String → Option Mappings
mappings _ = some (record {
  class_match = some (10, "/shop");
  method_matches = (10, "/shop") ∷ (40, "/cart") ∷ [];
})

abbrev alert : Fields
alert = field "id" (str "z1") (
    field "tool" (str "zap")
      (field "instances" (arr (cons (obj (field "url" (str "/app/shop/cart") end)) nil)) end))

abbrev static_finding : Fields
static_finding =
    field "id" (str "s1") (field "tool" (str "semgrep") (field "file_or_url" (str "Cart.java") end))

abbrev endpoints : List Fields
endpoints = field "path" (str "/app/shop/cart") end ∷ []

abbrev items : List Fields
items = elim (correlate ok mappings (λ xs. xs) (alert ∷ static_finding ∷ []) endpoints) [
  | ok found ↦ found
  | _ ↦ []
]

correlate-AllCorrelated_example :
    AllCorrelated mappings (observed_paths endpoints) (alert ∷ static_finding ∷ []) items
unfolding correlate nguyen_dinh_b.Python.◌>>=◌ nguyen_dinh_b.Analysis.Correlation.alerts_by_path
    get_or get nguyen_dinh_b.Analysis.Provenance.iterate truthy
    nguyen_dinh_b.Analysis.Correlation.instance_alerts nguyen_dinh_b.Analysis.Provenance.as_dict
    nguyen_dinh_b.Analysis.Correlation.alert_entry
correlate-AllCorrelated_example =
    correlate-AllCorrelated mappings (λ xs. xs) (λ x xs. (λ i. i, λ i. i)) ok
      (alert ∷ static_finding ∷ []) endpoints items refl
