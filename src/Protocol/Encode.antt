-- ===== src/Protocol/Encode.antt =====
-- src/protocol.rs, `encode_line`: a response as one line. Its fields come in the order of the map,
-- less the type, which goes first; the writer of JSON values is a parameter.
use whaletracker.Prelude.{
  ℕ, ◌≡◌, refl, sym, List, [], ◌∷◌, ◌++◌, append_assoc, true, false, Option, none, some,
  if◌then◌else◌, Text, codes, text_eq, Option-cases, Bool-cases, inl, inr,
}
use whaletracker.Reader.Line.{is_newline, IsOneLine, IsOneLine-append}

pub data EncodeError : Type 0 where
  not_an_object type_required not_written : EncodeError

pub data Encoded : Type 0 where
  ok : Text → Encoded
  err : EncodeError → Encoded

abbrev write_error : Option Text → (Text → Encoded) → Encoded
write_error none k = err not_written
write_error (some t) k = k t

-- One line, its newline, and nothing else.
abbrev pub OneLine : Encoded → Type 0
OneLine (ok bytes) = (body : Text) × (bytes ≡ body ++ b'\n' ∷ []) × IsOneLine body
OneLine (err e) = Unit {0}

pair-IsOneLine :
    (b : ℕ) (key value : Text)
    → is_newline b ≡ false
    → IsOneLine key
    → IsOneLine value
    → IsOneLine (b ∷ (key ++ (b':' ∷ value)))
pair-IsOneLine b key value n k v = (n, IsOneLine-append key (b':' ∷ value) k (refl, v))

write_error-OneLine :
    (o : Option Text) (k : Text → Encoded)
    → ((t : Text) → o ≡ some t → OneLine (k t))
    → OneLine (write_error o k)
write_error-OneLine none k h = tt
write_error-OneLine (some t) k h = h t refl

module _ {V : Type 0} (to_writer : V → Option Text) (write_key : Text → Option Text) where
  -- `object.get`.
  unfoldable pub get_field : Text → List (Text × V) → Option V
  unfolding text_eq
  get_field key [] = none
  get_field key ((k, v) ∷ more) = if text_eq k key then some v else get_field key more

  unfoldable pub encode_fields : Text → List (Text × V) → Encoded
  unfolding text_eq
  encode_fields bytes [] = ok (bytes ++ codes "}\n")
  encode_fields bytes ((k, v) ∷ more) = elim (text_eq k (codes "type")) [
    | true ↦ encode_fields bytes more
    | false ↦ write_error (write_key k) (λ key.
        write_error (to_writer v)
          (λ value. encode_fields (bytes ++ (b',' ∷ (key ++ (b':' ∷ value)))) more))
  ]

  -- The value, as an object if it is one.
  unfoldable pub encode_line : Option (List (Text × V)) → Encoded
  unfolding get_field encode_fields
  encode_line none = err not_an_object
  encode_line (some object) = elim (get_field (codes "type") object) [
    | none ↦ err type_required
    | some kind ↦ write_error (write_key (codes "type")) (λ key.
        write_error (to_writer kind)
          (λ value. encode_fields (b'{' ∷ (key ++ (b':' ∷ value))) object))
  ]

  -- What is documented of the writer: compact JSON holds no line feed, also within its strings.
  pub record NoLineFeeds : Type 0 where
    pub in_values : (v : V) {t : Text} → to_writer v ≡ some t → IsOneLine t
    pub in_keys : (k : Text) {t : Text} → write_key k ≡ some t → IsOneLine t

  encode_fields-OneLine :
      (object : List (Text × V)) (bytes : Text)
      → NoLineFeeds
      → IsOneLine bytes
      → OneLine (encode_fields bytes object)
  unfolding encode_fields
  encode_fields-OneLine [] bytes n h = (
    bytes ++ b'}' ∷ [],
    sym (append_assoc bytes (b'}' ∷ []) (b'\n' ∷ [])),
    IsOneLine-append bytes (b'}' ∷ []) h (refl, tt),
  )
  encode_fields-OneLine ((k, v) ∷ more) bytes n h = elim (Bool-cases (text_eq k (codes "type"))) [
    | inl e ↦ rw (e, encode_fields) (encode_fields-OneLine more bytes n h)
    | inr e ↦
        rw (e, encode_fields)
          (write_error-OneLine (write_key k) _ (λ key f.
            write_error-OneLine (to_writer v) _ (λ value g.
              encode_fields-OneLine more (bytes ++ (b',' ∷ (key ++ (b':' ∷ value)))) n (
                IsOneLine-append bytes (b',' ∷ (key ++ (b':' ∷ value))) h
                  (pair-IsOneLine b',' key value refl (n.in_keys k f) (n.in_values v g))))))
  ]

  -- With a writer whose output has no line feed, a response that is encoded is one line with its
  -- newline at the end.
  pub encode_line-OneLine :
      (message : Option (List (Text × V))) → NoLineFeeds → OneLine (encode_line message)
  unfolding encode_line
  encode_line-OneLine none n = tt
  encode_line-OneLine (some object) n = elim (Option-cases (get_field (codes "type") object)) [
    | inl e ↦ rw (e, encode_line) tt
    | inr (kind, e) ↦
        rw (e, encode_line)
          (write_error-OneLine (write_key (codes "type")) _ (λ key f.
            write_error-OneLine (to_writer kind) _ (λ value g.
              encode_fields-OneLine object (b'{' ∷ (key ++ (b':' ∷ value))) n
                (pair-IsOneLine b'{' key value refl (n.in_keys _ f) (n.in_values kind g)))))
  ]
