-- ===== src/Tests/Buffers.antt =====
-- A buffer format that satisfies the laws of Flex.antt, for the tests. A buffer is read from its end:
-- bytes collect in a text, and marks put the text, or the items that were read, where they belong.
use aitt.Base.{
  ℕ, ◌+◌, ◌-◌, ◌==◌, ◌%◌, ◌≡◌, ◌∙◌, refl, ap, true, false, List, [], ◌∷◌, ◌++◌, append-nil, Option,
  some, not, ℤ, pos, negsuc, if◌then◌else◌, Text, lookup, text_key, arith,
}
use aitt.Flex.{
  Item, num, text, bytes, Field, str, uint, boolean, blob, vector, int, Flexbuffers, IsFlexbuffers,
  key_list, sorted,
}

pub record State : Type 0 where
  pub fields : List (Text × Field)
  pub items : List Item
  pub name : Text
  pub txt : Text

abbrev pub first : Text → ℕ
first [] = 0
first (n ∷ t) = n

abbrev pub blank : State
blank = record { fields = []; items = []; name = []; txt = [] }

abbrev pub put : Field → State → State
put f s = record { fields = (s.name, f) ∷ s.fields; items = []; name = []; txt = [] }

abbrev pub put_item : Item → State → State
put_item i s = record s { items = i ∷ s.items; txt = [] }

-- One token: a mark below 12, or a byte.
abbrev pub step : ℕ → State → State
step n s =
    if n == 0
    then record s { name = s.txt; txt = [] }
    else if n == 1
    then put (str s.txt) s
    else if n == 2
    then put (uint (first s.txt)) s
    else if n == 3
    then put (boolean true) s
    else if n == 4
    then put (boolean false) s
    else if n == 5
    then put (blob s.txt) s
    else if n == 6
    then put (vector s.items) s
    else if n == 7
    then put_item (num (first s.txt)) s
    else if n == 8
    then put_item (text s.txt) s
    else if n == 9
    then put_item (bytes s.txt) s
    else if n == 10
    then put (int (pos (first s.txt))) s
    else if n == 11
    then put (int (negsuc (first s.txt))) s
    else record s { txt = (n - 12) ∷ s.txt }

unfoldable pub read : Text → State
read [] = blank
read (n ∷ t) = step n (read t)

unfoldable pub write_bytes : Text → Text → Text
write_bytes [] rest = rest
write_bytes (b ∷ t) rest = (b + 12) ∷ write_bytes t rest

unfoldable pub write_items : List Item → Text → Text
unfolding write_bytes
write_items [] rest = rest
write_items (num n ∷ is) rest = 7 ∷ (n + 12) ∷ write_items is rest
write_items (text t ∷ is) rest = 8 ∷ write_bytes t (write_items is rest)
write_items (bytes t ∷ is) rest = 9 ∷ write_bytes t (write_items is rest)

unfoldable pub write_field : Field → Text → Text
unfolding write_bytes write_items
write_field (str t) rest = 1 ∷ write_bytes t rest
write_field (uint n) rest = 2 ∷ (n + 12) ∷ rest
write_field (boolean true) rest = 3 ∷ rest
write_field (boolean false) rest = 4 ∷ rest
write_field (blob t) rest = 5 ∷ write_bytes t rest
write_field (vector is) rest = 6 ∷ write_items is rest
write_field (int (pos n)) rest = 10 ∷ (n + 12) ∷ rest
write_field (int (negsuc n)) rest = 11 ∷ (n + 12) ∷ rest

unfoldable pub write_fields : List (Text × Field) → Text
unfolding write_bytes write_field
write_fields [] = []
write_fields ((k, f) ∷ fs) = write_field f (0 ∷ write_bytes k (write_fields fs))

read-write_bytes :
    (t rest : Text) → read (write_bytes t rest) ≡ record (read rest) { txt = t ++ (read rest).txt }
unfolding read write_bytes
read-write_bytes [] rest = refl
read-write_bytes (b ∷ t) rest = let ih = read-write_bytes t rest in ground arith

read-write_items :
    (is : List Item) (rest : Text)
    → (read rest).txt ≡ []
    → read (write_items is rest) ≡ record (read rest) { items = is ++ (read rest).items; txt = [] }
unfolding read write_items
read-write_items [] rest e = ground arith
read-write_items (num n ∷ is) rest e = let ih = read-write_items is rest e in ground arith
read-write_items (text t ∷ is) rest e =
    let ih = read-write_items is rest e in
    let b = read-write_bytes t (write_items is rest) in let z = append-nil t in ground arith
read-write_items (bytes t ∷ is) rest e =
    let ih = read-write_items is rest e in
    let b = read-write_bytes t (write_items is rest) in let z = append-nil t in ground arith

abbrev read_of : List (Text × Field) → State
read_of fs = record { fields = fs; items = []; name = []; txt = [] }

field_read :
    (k : Text) (f : Field) (fs : List (Text × Field)) (rest : Text)
    → read rest ≡ record (read_of fs) { name = k }
    → read (write_field f rest) ≡ read_of ((k, f) ∷ fs)
unfolding read write_field
field_read k (str t) fs rest e =
    let b = read-write_bytes t rest in let z = append-nil t in ground arith
field_read k (uint n) fs rest e = ground arith
field_read k (int (pos n)) fs rest e = ground arith
field_read k (int (negsuc n)) fs rest e = ground arith
field_read k (boolean true) fs rest e = ground arith
field_read k (boolean false) fs rest e = ground arith
field_read k (blob t) fs rest e =
    let b = read-write_bytes t rest in let z = append-nil t in ground arith
field_read k (vector is) fs rest e =
    let b = read-write_items is rest (ap (λ s. s.txt) e) in let z = append-nil is in ground arith

read-write_fields : (fs : List (Text × Field)) → read (write_fields fs) ≡ read_of fs
unfolding read write_fields
read-write_fields [] = refl
read-write_fields ((k, f) ∷ fs) =
    let ih = read-write_fields fs in
    let b = read-write_bytes k (write_fields fs) in
    let z = append-nil k in
    let named : read (0 ∷ write_bytes k (write_fields fs)) ≡ record (read_of fs) { name = k } =
      ground arith in
    field_read k f fs (0 ∷ write_bytes k (write_fields fs)) named

abbrev pub string_of : Option Field → Text
string_of (some (str t)) = t
string_of _ = []

abbrev pub int_of : Option Field → ℤ
int_of (some (int n)) = n
int_of _ = pos 0

abbrev pub vector_of : Option Field → List Item
vector_of (some (vector is)) = is
vector_of _ = []

abbrev pub blob_of : Option Field → Text
blob_of (some (blob t)) = t
blob_of _ = []

abbrev pub uint16_of : Option Item → ℕ
uint16_of (some (num n)) = n % 65536
uint16_of _ = 0

abbrev pub bytes_of : Option Item → Text
bytes_of (some (bytes t)) = t
bytes_of _ = []

abbrev pub text_of : Item → Text
text_of (text t) = t
text_of _ = []

abbrev pub rest_of : Text → Text
rest_of [] = []
rest_of (n ∷ t) = t

abbrev pub buffers : Flexbuffers
buffers = record {
  build_map = λ fs. 12 ∷ write_fields fs;
  read_field = λ b k. lookup k (read b).fields;
  build_vector = λ is. write_items is [];
  read_vector = λ b. (read b).items;
  read_keys = λ b. key_list (sorted (read b).fields);
  as_string = string_of;
  as_vector = vector_of;
  as_blob_field = blob_of;
  as_int64 = int_of;
  as_uint16 = uint16_of;
  as_blob = bytes_of;
  as_text = text_of;
  build_string = λ t. 13 ∷ t;
  is_string = λ b. first b == 13;
  is_vector = λ b. not (first b == 13);
  is_map = λ b. first b == 12;
  root_string = rest_of;
}

map_read : (fs : List (Text × Field)) → (read (12 ∷ write_fields fs)).fields ≡ fs
unfolding read
map_read fs = let e = read-write_fields fs in ground arith

pub buffers-IsFlexbuffers : IsFlexbuffers buffers
unfolding read
buffers-IsFlexbuffers = record {
  field-map = λ fs k u. ap (lookup k) (map_read fs);
  map-full = λ fs e. ground arith;
  vector-vector = λ is. ap (λ s. s.items) (read-write_items is [] refl) ∙ append-nil is;
  keys-map = λ fs u. ap (λ x. key_list (sorted x)) (map_read fs);
  string-str = λ t. refl;
  vector-field = λ is. refl;
  blob-field = λ t. refl;
  int64-int = λ n h. refl;
  uint16-num = λ n. refl;
  blob-bytes = λ t. refl;
  text-text = λ t. refl;
  string-string = λ t. refl;
  string-IsString = λ t. refl;
  map-IsMap = λ fs. refl;
  map-IsVector = λ fs. refl;
  map-not_string = λ fs. refl;
}
