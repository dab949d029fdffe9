-- ===== src/Client/OsRelease/Fields.antt =====
-- get_os_id on a file of fields, which is how /etc/os-release is written.
use shelter_server.Prelude.{
  bytes_eq_iff, ℕ, zero, suc, ◌+◌, ◌≤◌, ◌≡◌, refl, ap, ◌∙◌, Bytes, text, bytes_eq, is_prefix, false,
  Option, none, some, List, [], ◌∷◌, ◌++◌, append_assoc, if◌then◌else◌, ◌==◌, length, length-append,
  arith, Bool-cases, inl, inr,
}
use shelter_server.Client.{ok}
use shelter_server.Client.OsRelease.{
  skip, until, after, strtok, token_of, without_newline, value_in, extract_value, fgets_lines,
  find_id, pointer_to, get_os_id,
}

pub record Field : Type 0 where
  pub key : Bytes
  pub value : Bytes

-- The byte does not occur.
abbrev pub Without : ℕ → Bytes → Type 0
Without d [] = Unit
Without d (b ∷ s) = ((b == d) ≡ false) × Without d s

abbrev pub NonEmpty : Bytes → Type 0
NonEmpty [] = ⊥
NonEmpty (b ∷ s) = Unit

-- A key and a value without "=" and newlines, the value not empty, that fit a line of the buffer.
pub record IsField (f : Field) : Type 0 where
  pub key_plain : Without 61 f.key
  pub key_line : Without 10 f.key
  pub value_there : NonEmpty f.value
  pub value_plain : Without 61 f.value
  pub value_line : Without 10 f.value
  pub fits : length f.key + length f.value ≤ 1021

abbrev pub AreFields : List Field → Type 0
AreFields [] = Unit
AreFields (f ∷ fs) = IsField f × AreFields fs

-- The line of a field, and the file.
abbrev pub field_text : Field → Bytes
field_text f = f.key ++ 61 ∷ f.value

abbrev pub print_fields : List Field → Bytes
print_fields [] = []
print_fields (f ∷ fs) = field_text f ++ 10 ∷ print_fields fs

-- The value of the first field of this key.
abbrev pub lookup : Bytes → List Field → Option Bytes
lookup k [] = none
lookup k (f ∷ fs) = if bytes_eq f.key k then some f.value else lookup k fs

Without-append : (d : ℕ) (s t : Bytes) → Without d s → Without d t → Without d (s ++ t)
Without-append d [] t h k = k
Without-append d (b ∷ s) t h k = (h.0, Without-append d s t h.1 k)

until_stop : (d : ℕ) (s t : Bytes) → Without d s → until d (s ++ d ∷ t) ≡ s
unfolding until
until_stop d [] t h = ground arith
until_stop d (b ∷ s) t h = rw h.0 (ap (◌∷◌ b) (until_stop d s t h.1))

until_all : (d : ℕ) (s : Bytes) → Without d s → until d s ≡ s
unfolding until
until_all d [] h = refl
until_all d (b ∷ s) h = rw h.0 (ap (◌∷◌ b) (until_all d s h.1))

after_stop : (d : ℕ) (s t : Bytes) → Without d s → after d (s ++ d ∷ t) ≡ t
unfolding after
after_stop d [] t h = ground arith
after_stop d (b ∷ s) t h = rw h.0 (after_stop d s t h.1)

-- The value is cut out of its line.
value_cut :
    (v : Bytes)
    → NonEmpty v
    → Without 61 v
    → Without 10 v
    → without_newline (strtok 61 (v ++ 10 ∷ [])) ≡ some v
unfolding without_newline strtok token_of skip
value_cut [] n h k = absurd n
value_cut (b ∷ v) n h k =
    let whole : until 61 (b ∷ v ++ 10 ∷ []) ≡ b ∷ v ++ 10 ∷ [] =
      until_all 61 _ (Without-append 61 (b ∷ v) (10 ∷ []) h (refl, tt)) in
    rw (h.0, whole, k.0, until_stop 10 (b ∷ v) [] k) refl

value_of_id :
    (v : Bytes)
    → NonEmpty v
    → Without 61 v
    → Without 10 v
    → extract_value (text "ID=" ++ v ++ 10 ∷ []) ≡ some v
unfolding extract_value value_in strtok token_of skip until after
value_of_id v n h k = value_cut v n h k

id_prefix :
    (k v : Bytes) → Without 61 k → is_prefix (text "ID=") (k ++ 61 ∷ v) ≡ bytes_eq k (text "ID")
unfolding is_prefix bytes_eq
id_prefix [] v h = refl
id_prefix (a ∷ []) v h = ground arith
id_prefix (a ∷ b ∷ []) v h = ground arith
id_prefix (a ∷ b ∷ d ∷ k) v h = ground arith

-- A short line is read by one call of fgets.
line_read :
    (room : ℕ) (l t : Bytes)
    → length l ≤ room
    → Without 10 l
    → fgets_lines room (l ++ 10 ∷ t) ≡ (l ++ 10 ∷ []) ∷ fgets_lines 1022 t
unfolding fgets_lines
line_read zero [] t h k = refl
line_read (suc room) [] t h k = refl
line_read zero (b ∷ l) t h k = absurd (omega arith)
line_read (suc room) (b ∷ l) t h k = rw (k.0, line_read room l t (omega arith) k.1) refl

split_fields : (f : Field) (t : Bytes) → field_text f ++ 10 ∷ t ≡ (f.key ++ 61 ∷ f.value) ++ 10 ∷ t
split_fields f t = refl

read_fields :
    (f : Field) (fs : List Field)
    → IsField f
    → fgets_lines 1022 (print_fields (f ∷ fs))
      ≡ (field_text f ++ 10 ∷ []) ∷ fgets_lines 1022 (print_fields fs)
read_fields f fs h =
    line_read 1022 (field_text f) (print_fields fs)
      (let fits = h.fits in omega (arith, length-append f.key (61 ∷ f.value)))
      (Without-append 10 f.key (61 ∷ f.value) h.key_line (refl, h.value_line))

line_prefix :
    (f : Field)
    → IsField f
    → is_prefix (text "ID=") (field_text f ++ 10 ∷ []) ≡ bytes_eq f.key (text "ID")
line_prefix f h =
    ap (is_prefix (text "ID=")) (append_assoc f.key (61 ∷ f.value) (10 ∷ []))
    ∙ id_prefix f.key (f.value ++ 10 ∷ []) h.key_plain

line_value :
    (f : Field)
    → IsField f
    → f.key ≡ text "ID"
    → extract_value (field_text f ++ 10 ∷ []) ≡ some f.value
line_value f h e =
    ap (λ k. extract_value ((k ++ 61 ∷ f.value) ++ 10 ∷ [])) e
    ∙ value_of_id f.value h.value_there h.value_plain h.value_line

found :
    (fs : List Field)
    → AreFields fs
    → find_id (fgets_lines 1022 (print_fields fs)) ≡ lookup (text "ID") fs
unfolding find_id
found [] h = unfold fgets_lines is_prefix in refl
found (f ∷ fs) h = elim (Bool-cases (bytes_eq f.key (text "ID"))) [
  | inl e ↦
      rw
        (
          read_fields f fs h.0,
          line_prefix f h.0,
          e,
          line_value f h.0 ((bytes_eq_iff f.key (text "ID")).0 e),
        )
        refl
  | inr e ↦ rw (read_fields f fs h.0, line_prefix f h.0, e) (found fs h.1)
]

-- For a file whose lines are fields, a key, "=" and a value, where no key or value has "=" or a
-- newline in it, no value is empty and each line fits the buffer, get_os_id has found the value of
-- the first field with the key "ID", as it stands there, and returns a pointer to it in its own array,
-- which ends with the call; it returns NULL where there is no such field.
pub get_os_id-fields :
    (fs : List Field)
    → AreFields fs
    → get_os_id (some (print_fields fs)) ≡ ok (pointer_to (lookup (text "ID") fs))
unfolding get_os_id
get_os_id-fields fs h = ap (λ o. ok (pointer_to o)) (found fs h)
