-- ===== src/Merge.antt =====
-- ingestion/merge_findings.py: the findings of several scanners, merged into one list. The files are
-- given by what they hold.
use nguyen_dinh_b.Prelude.{
  true, ◌++◌, refl, sym, ap, ◌∙◌, inl, inr, Bool-cases, All, All-map, false≢true, length-append,
  eq_iff, ◌+◌, String, ◌≡◌, ◌≢◌, false, List, [], ◌∷◌, arith, ◌==◌, if◌then◌else◌, length, mem_str,
  ne_of_test,
}
use nguyen_dinh_b.Json.{Json, arr, obj, Items, nil, cons, Fields, get_null, truthy}
use nguyen_dinh_b.Python.{
  PyText, Result, ok, err, value_error, raise_if, ◌>>=◌, ◌>>◌, Returns, Returns-ok, Returns-err,
  Returns-bind, Returns-raise_if,
}

-- What has been read so far: `merged`, `seen` and `sources`.
pub record Merged : Type 0 where
  pub findings : List Fields
  pub seen : List String
  pub sources : List String

module _ ⦃py : PyText⦄ where
  -- `str(item.get("id") or "")`
  abbrev pub id_of : Fields → String
  id_of item = if truthy (get_null "id" item) then py.to_str (get_null "id" item) else ""

  -- the loop over the findings of one file, with `merged` and `seen`
  unfoldable pub add_findings :
      List Fields → List String → Items → Result (List Fields × List String)
  add_findings merged seen nil = ok (merged, seen)
  add_findings merged seen (cons (obj item) items) = do
    raise_if (id_of item == "") value_error
    raise_if (mem_str (id_of item) seen) value_error
    add_findings (merged ++ item ∷ []) (id_of item ∷ seen) items
  add_findings merged seen (cons _ items) = err value_error

  -- the test on the shape of a file
  unfoldable pub findings_of : Json → Result Items
  findings_of (obj content) = elim (get_null "findings" content) [
    | arr items ↦ ok items
    | _ ↦ err value_error
  ]
  findings_of _ = err value_error

  -- `str(content.get("source") or path.name)`
  abbrev pub source_of : (file_name : String) → Json → String
  source_of file_name (obj content) =
      if truthy (get_null "source" content)
      then py.to_str (get_null "source" content)
      else file_name
  source_of file_name _ = file_name

  -- the loop over the files, each with its name
  unfoldable pub merge_files : Merged → List (String × Json) → Result Merged
  merge_files m [] = ok m
  merge_files m ((file_name, content) ∷ files) = do
    items ← findings_of content
    more ← add_findings m.findings m.seen items
    merge_files
        (record {
          findings = more.0;
          seen = more.1;
          sources = m.sources ++ source_of file_name content ∷ [];
        })
        files

abbrev pub nothing_merged : Merged
nothing_merged = record { findings = []; seen = []; sources = [] }

module _ ⦃py : PyText⦄ where
  -- the text of the entry "id" of a finding
  abbrev pub own_id : Fields → String
  own_id f = py.to_str (get_null "id" f)

  -- Every finding has an entry "id" that counts as given and has a text, and no two have the same text.
  abbrev pub HasOwnIds : List Fields → Type 0
  HasOwnIds [] = Unit
  HasOwnIds (f ∷ fs) =
      (truthy (get_null "id" f) ≡ true)
      × (own_id f ≢ "")
      × All (λ g. own_id g ≢ own_id f) fs
      × HasOwnIds fs

  -- what is new about a finding that is put at the end
  abbrev IsNew : Fields → List Fields → Type 0
  IsNew f fs = All (λ g. own_id f ≢ own_id g) fs

  append-All :
      {A : Type 0} (P : A → Type 0) (xs : List A) (a : A) → All P xs → P a → All P (xs ++ a ∷ [])
  append-All P [] a h p = (p, tt)
  append-All P (x ∷ xs) a (q, h) p = (q, append-All P xs a h p)

  append-HasOwnIds :
      (fs : List Fields) (f : Fields)
      → HasOwnIds fs
      → truthy (get_null "id" f) ≡ true
      → own_id f ≢ ""
      → IsNew f fs
      → HasOwnIds (fs ++ f ∷ [])
  append-HasOwnIds [] f h given ne new = (given, ne, tt, tt)
  append-HasOwnIds (g ∷ fs) f (a, b, c, h) given ne (n, new) =
      (a, b, append-All _ fs f c n, append-HasOwnIds fs f h given ne new)

  mem_head : (s t : String) (ts : List String) → s ≡ t → mem_str s (t ∷ ts) ≡ true
  unfolding mem_str
  mem_head s t ts e = ground (arith, eq_iff t s)

  -- The texts that were seen are those of the findings.
  abbrev IsSeen : List String → List Fields → Type 0
  IsSeen seen fs = All (λ g. mem_str (own_id g) seen ≡ true) fs

  id_of-own :
      (item : Fields)
      → id_of item ≢ ""
      → (truthy (get_null "id" item) ≡ true) × (id_of item ≡ own_id item)
  id_of-own item ne = elim (Bool-cases (truthy (get_null "id" item))) [
    | inl e ↦ (e, rw e refl)
    | inr e ↦ absurd (ne (rw e refl))
  ]

  seen-IsNew :
      (item : Fields) (seen : List String) (fs : List Fields)
      → mem_str (own_id item) seen ≡ false
      → IsSeen seen fs
      → IsNew item fs
  seen-IsNew item seen fs fresh h =
      All-map _ _ (λ g m e. false≢true (sym fresh ∙ ap (λ s. mem_str s seen) e ∙ m)) fs h

  more-IsSeen :
      (id : String) (seen : List String) (fs : List Fields) → IsSeen seen fs → IsSeen (id ∷ seen) fs
  unfolding mem_str
  more-IsSeen id seen fs h = All-map _ _ (λ g m. ground arith) fs h

  add_findings-HasOwnIds :
      (merged : List Fields) (seen : List String) (items : Items)
      → HasOwnIds merged
      → IsSeen seen merged
      → Returns (λ out. HasOwnIds out.0 × IsSeen out.1 out.0) (add_findings merged seen items)
  unfolding add_findings
  add_findings-HasOwnIds merged seen nil h k = Returns-ok (h, k)
  add_findings-HasOwnIds merged seen (cons (obj item) items) h k = Returns-raise_if _ _ _ λ named.
      Returns-raise_if _ _ _ λ fresh.
        let ne = ne_of_test (id_of item) "" named in
        let (given, same) = id_of-own item ne in
        let new = seen-IsNew item seen merged (ap (λ s. mem_str s seen) (sym same) ∙ fresh) k in
        add_findings-HasOwnIds (merged ++ item ∷ []) (id_of item ∷ seen) items
          (append-HasOwnIds merged item h given (λ e. ne (same ∙ e)) new)
          (append-All _ merged item (more-IsSeen (id_of item) seen merged k)
            (mem_head (own_id item) (id_of item) seen (sym same)))
  add_findings-HasOwnIds merged seen (cons _ items) h k = Returns-err

  merge_files-Returns :
      (files : List (String × Json)) (m : Merged)
      → HasOwnIds m.findings
      → IsSeen m.seen m.findings
      → Returns
          (λ out. HasOwnIds out.findings × (length out.sources ≡ length m.sources + length files))
          (merge_files m files)
  unfolding merge_files
  merge_files-Returns [] m h k = Returns-ok (h, omega arith)
  merge_files-Returns ((file_name, content) ∷ files) m h k = Returns-bind _ _ λ items _.
      Returns-bind _ _ λ more e. record {
        at = λ out r.
            let next : Merged = record {
              findings = more.0;
              seen = more.1;
              sources = m.sources ++ source_of file_name content ∷ [];
            } in
            let (own, seen) = (add_findings-HasOwnIds m.findings m.seen items h k).at more e in
            let (all_own, counted) = (merge_files-Returns files next own seen).at out r in
            let longer = length-append m.sources (source_of file_name content ∷ []) in
            (all_own, omega (arith, counted, longer));
      }

  -- If a merging is returned: its findings each have an entry "id" that is given and whose text is not
  -- empty, the texts of no two findings are the same, and there is one source for each file.
  pub merge_files-HasOwnIds :
      (files : List (String × Json)) (out : Merged)
      → merge_files nothing_merged files ≡ ok out
      → HasOwnIds out.findings × (length out.sources ≡ length files)
  merge_files-HasOwnIds files out h =
      let (own, counted) = (merge_files-Returns files nothing_merged tt tt).at out h in
      (own, omega (arith, counted))
