-- ===== src/Json/Tree.antt =====
-- A small JSON library of trees, which shows that the hypotheses of `CJson` can be met. As in cJSON,
-- a node of any type may have items, and an item is found by the first name that matches.
use shelter_server.Prelude.{
  ◌-◌, ◌^◌, ◌≡◌, refl, ℤ, pos, negsuc, IsInt, Bytes, same_name, Bool, true, false, Option, none,
  some, ltb, arith, if◌then◌else◌, [], ◌∷◌,
}
use shelter_server.Json.{CJson}

pub data Kind : Type 0 where
  object : Kind
  number : ℤ → Kind
  string : Bytes → Kind

mutual
  pub data Tree : Type 0 where
    node : Kind → Fields → Tree

  pub data Fields : Type 0 where
    end : Fields
    field : Bytes → Tree → Fields → Fields

unfoldable pub find : Fields → Bytes → Option Tree
find end k = none
find (field l v rest) k = let found = find rest k in if same_name l k then some v else found

unfoldable pub append : Fields → Bytes → Tree → Fields
append end k v = field k v end
append (field l w rest) k v = field l w (append rest k v)

abbrev pub get : Tree → Bytes → Option Tree
get (node kind fields) k = find fields k

abbrev pub add : Tree → Bytes → Tree → Tree
add (node kind fields) k v = node kind (append fields k v)

unfoldable pub is_object_kind : Kind → Bool
is_object_kind object = true
is_object_kind _ = false

unfoldable pub is_number_kind : Kind → Bool
is_number_kind (number n) = true
is_number_kind _ = false

-- A number out of the range of an `int` becomes the nearest one.
unfoldable pub saturated : ℤ → ℤ
saturated (pos n) = if ltb n (2 ^ 31) then pos n else pos (2 ^ 31 - 1)
saturated (negsuc n) = if ltb n (2 ^ 31) then negsuc n else negsuc (2 ^ 31 - 1)

unfoldable pub int_kind : Kind → ℤ
unfolding saturated
int_kind (number n) = saturated n
int_kind _ = pos 0

unfoldable pub string_kind : Kind → Option Bytes
string_kind (string s) = some s
string_kind _ = none

abbrev pub kind_of : Tree → Kind
kind_of (node kind fields) = kind

same_name_refl : (k : Bytes) → same_name k k ≡ true
unfolding same_name
same_name_refl [] = refl
same_name_refl (a ∷ k) = ground (arith, same_name_refl k)

pub find-append_self :
    (fields : Fields) (k : Bytes) (v : Tree)
    → find fields k ≡ none
    → find (append fields k v) k ≡ some v
unfolding find append
find-append_self end k v h = rw (same_name_refl k) refl
find-append_self (field l w rest) k v h = ground (arith, find-append_self rest k v)

pub find-append_other :
    (fields : Fields) (k l : Bytes) (v : Tree)
    → same_name k l ≡ false
    → find (append fields k v) l ≡ find fields l
unfolding find append
find-append_other end k l v h = rw h refl
find-append_other (field m w rest) k l v h = rw (find-append_other rest k l v h) refl

pub saturated-exact : (n : ℤ) → IsInt n → saturated n ≡ n
unfolding saturated
saturated-exact (pos n) h = ground arith
saturated-exact (negsuc n) h = ground arith

saturated-IsInt : (n : ℤ) → IsInt (saturated n)
unfolding saturated
saturated-IsInt (pos n) = ground arith
saturated-IsInt (negsuc n) = ground arith

pub kind_value-IsInt : (kind : Kind) → IsInt (int_kind kind)
unfolding int_kind
kind_value-IsInt object = omega arith
kind_value-IsInt (number n) = saturated-IsInt n
kind_value-IsInt (string s) = omega arith

pub string-number : (kind : Kind) → is_number_kind kind ≡ true → string_kind kind ≡ none
unfolding is_number_kind string_kind
string-number object h = refl
string-number (number n) h = refl
string-number (string s) h = cc

-- The library of trees with any functions for reading and printing texts.
unfoldable pub trees : (Bytes → Option Tree) → (Tree → Bytes) → CJson
unfolding find append is_object_kind is_number_kind int_kind string_kind
trees read write = record {
  Json = Tree;
  parse = read;
  print = write;
  get_object_item = get;
  is_object = λ j. is_object_kind (kind_of j);
  is_number = λ j. is_number_kind (kind_of j);
  value_int = λ j. int_kind (kind_of j);
  value_string = λ j. string_kind (kind_of j);
  create_object = node object end;
  create_number = λ n. node (number n) end;
  create_string = λ s. node (string s) end;
  add_item = add;
  get_created = λ k. refl;
  get_added_self = get_self;
  get_added_other = get_other;
  is_object_created = refl;
  is_object_added = object_added;
  is_number_created = λ n. refl;
  value_int_created = saturated-exact;
  value_string_created = λ s. refl;
  value_string_number = λ j. string-number (kind_of j);
  value_int_IsInt = λ j. kind_value-IsInt (kind_of j);
}
  where
    get_self : (j : Tree) (k : Bytes) (v : Tree) → get j k ≡ none → get (add j k v) k ≡ some v
    get_self (node kind fields) k v h = find-append_self fields k v h

    get_other :
        (j : Tree) (k l : Bytes) (v : Tree) → same_name k l ≡ false → get (add j k v) l ≡ get j l
    get_other (node kind fields) k l v h = find-append_other fields k l v h

    object_added :
        (j : Tree) (k : Bytes) (v : Tree)
        → is_object_kind (kind_of (add j k v)) ≡ is_object_kind (kind_of j)
    object_added (node kind fields) k v = refl
