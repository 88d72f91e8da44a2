-- ===== src/Discovery/Blobs.antt =====
-- common/AittDiscovery.cc: the fields of a discovery message, one blob a protocol, as a reader finds
-- them.
use aitt.Base.{
  ◌≡◌, ◌∙◌, refl, ap, true, false, List, [], ◌∷◌, Option, none, some, Text, text_eq, text_eq_iff,
  text_eq_refl, lookup, insert, text_key, arith, After, IsOrdered, insert-front, After-lookup,
  text_lt_irrefl,
}
use aitt.Flex.{Field, blob, has_key, unique_keys, sorted}
use aitt.Discovery.{status_key, blob_fields}

-- A reader that finds each blob at its key.
unfoldable pub Finds : (Text → Option Field) → List (Text × Text) → Type 0
Finds read [] = Unit {0}
Finds read ((k, b) ∷ map) = (read k ≡ some (blob b)) × Finds read map

pub Finds-extend :
    (k : Text) (f : Field) (map : List (Text × Text)) (read read' : Text → Option Field)
    → After k map
    → ((j : Text) → text_eq k j ≡ false → read' j ≡ read j)
    → Finds read map
    → Finds read' map
unfolding Finds After
Finds-extend k f [] read read' a e h = tt
Finds-extend k f ((j, b) ∷ map) read read' a e h =
    let n : text_eq k j ≡ false = ground (arith, text_eq_iff k j, text_lt_irrefl k, a.0) in
    (e j n ∙ h.0, Finds-extend k f map read read' a.1 e h.1)

pub lookup_other :
    (k : Text) (f : Field) (fs : List (Text × Field)) (j : Text)
    → text_eq k j ≡ false
    → lookup j ((k, f) ∷ fs) ≡ lookup j fs
unfolding lookup
lookup_other k f fs j e = ground arith

pub lookup_first :
    (k : Text) (f : Field) (fs : List (Text × Field)) → lookup k ((k, f) ∷ fs) ≡ some f
unfolding lookup
lookup_first k f fs = ground (arith, text_eq_refl k)

pub Finds-blob_fields :
    (map : List (Text × Text)) → IsOrdered map → Finds (λ k. lookup k (blob_fields map)) map
unfolding Finds IsOrdered blob_fields
Finds-blob_fields [] o = tt
Finds-blob_fields ((k, b) ∷ map) o = (
  lookup_first k (blob b) (blob_fields map),
  Finds-extend k (blob b) map (λ j. lookup j (blob_fields map))
      (λ j. lookup j ((k, blob b) ∷ blob_fields map)) o.0
      (lookup_other k (blob b) (blob_fields map)) (Finds-blob_fields map o.1),
)

pub After-blob_fields :
    (k : Text) (map : List (Text × Text)) → After k map → After k (blob_fields map)
unfolding After blob_fields
After-blob_fields k [] a = tt
After-blob_fields k ((j, b) ∷ map) a = (a.0, After-blob_fields k map a.1)

pub sorted-blob_fields :
    (map : List (Text × Text)) → IsOrdered map → sorted (blob_fields map) ≡ blob_fields map
unfolding IsOrdered sorted blob_fields
sorted-blob_fields [] o = refl
sorted-blob_fields ((k, b) ∷ map) o =
    ap (insert k (blob b)) (sorted-blob_fields map o.1)
    ∙ insert-front k (blob b) (blob_fields map) (After-blob_fields k map o.0)

pub has_key-lookup :
    (k : Text) (map : List (Text × Text))
    → lookup k map ≡ none
    → has_key k (blob_fields map) ≡ false
unfolding has_key blob_fields lookup
has_key-lookup k [] e = refl
has_key-lookup k ((j, b) ∷ map) e = ground (arith, has_key-lookup k map)

pub unique-blob_fields :
    (map : List (Text × Text)) → IsOrdered map → unique_keys (blob_fields map) ≡ true
unfolding unique_keys blob_fields IsOrdered
unique-blob_fields [] o = refl
unique-blob_fields ((k, b) ∷ map) o =
    ground (arith, unique-blob_fields map o.1, has_key-lookup k map (After-lookup k map o.0))

pub Finds-other :
    (map : List (Text × Text)) (read read' : Text → Option Field)
    → ((k : Text) → text_eq status_key k ≡ false → read' k ≡ read k)
    → lookup status_key map ≡ none
    → Finds read map
    → Finds read' map
unfolding Finds lookup
Finds-other [] read read' e n h = tt
Finds-other ((k, b) ∷ map) read read' e n h =
    let s : text_eq status_key k ≡ false =
      ground (arith, text_eq_iff k status_key, text_eq_iff status_key k) in
    (e k s ∙ h.0, Finds-other map read read' e (ground arith) h.1)
