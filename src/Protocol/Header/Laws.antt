-- ===== src/Protocol/Header/Laws.antt =====
-- `TransportHeader`: what is written is read back, what is read was written, and a decision about
-- the header is final once its bytes are there.
use turbo_core_dist_ai_clush.Prelude.{
  ℕ, ◌≤◌, ◌<◌, ◌+◌, ◌^◌, ◌≡◌, ap, ◌∙◌, sym, some, List, [], ◌++◌, arith, ltb, length, Bool-cases,
  inl, inr, ltb→lt, drop, length-drop, length-append, drop-append_le,
}
use turbo_core_dist_ai_clush.Protocol.Words.{
  read_uint32, read_uint16, read_uint32-bytes, read_uint16-bytes, read_uint32-append,
  read_uint16-append, read_uint32-lt, read_uint16-lt,
}
use turbo_core_dist_ai_clush.Protocol.Header.{
  TransportHeader, header_size, ai_schedule_magic, ai_schedule_protocol_version, serialize_to_bytes,
  read_fields, check_fields, deserialize_from_bytes,
}

-- The fields fit their C types, the magic is the protocol's and the version is not above it.
pub record IsHeader (h : TransportHeader) : Type 0 where
  pub magic_ok : h.magic ≡ ai_schedule_magic
  pub version_ok : h.version ≤ ai_schedule_protocol_version
  pub reserve_fits : h.reserve < 2 ^ 16
  pub body_len_fits : h.body_len < 2 ^ 32
  pub checksum_fits : h.checksum < 2 ^ 32

read_fields-append :
    (xs ys : List ℕ) → header_size ≤ length xs → read_fields (xs ++ ys) ≡ read_fields xs
unfolding read_fields
read_fields-append xs ys h = λ i. record {
  magic = read_uint32-append xs ys (omega arith) i;
  version = at16 4 (omega arith) i;
  reserve = at16 6 (omega arith) i;
  body_len = at32 8 (omega arith) i;
  checksum = at32 12 (omega arith) i;
}
  where
    at16 : (n : ℕ) → n + 2 ≤ length xs → read_uint16 (drop n (xs ++ ys)) ≡ read_uint16 (drop n xs)
    at16 n p =
        ap read_uint16 (drop-append_le n xs ys (omega arith))
        ∙ read_uint16-append (drop n xs) ys (omega (arith, length-drop n xs))

    at32 : (n : ℕ) → n + 4 ≤ length xs → read_uint32 (drop n (xs ++ ys)) ≡ read_uint32 (drop n xs)
    at32 n p =
        ap read_uint32 (drop-append_le n xs ys (omega arith))
        ∙ read_uint32-append (drop n xs) ys (omega (arith, length-drop n xs))

deserialize_from_bytes_long :
    (buf : List ℕ)
    → header_size ≤ length buf
    → deserialize_from_bytes buf ≡ check_fields (read_fields buf)
unfolding deserialize_from_bytes
deserialize_from_bytes_long buf h = elim (Bool-cases (ltb (length buf) header_size)) [
  | inl short ↦ absurd (omega (arith, ltb→lt _ _ short))
  | inr long ↦ rw long
]

-- Bytes behind the sixteen of the header change nothing.
pub deserialize_from_bytes-append :
    (xs ys : List ℕ)
    → header_size ≤ length xs
    → deserialize_from_bytes (xs ++ ys) ≡ deserialize_from_bytes xs
deserialize_from_bytes-append xs ys h =
    deserialize_from_bytes_long (xs ++ ys) (omega (arith, length-append xs ys))
    ∙ ap check_fields (read_fields-append xs ys h)
    ∙ sym (deserialize_from_bytes_long xs h)

pub length-serialize_to_bytes :
    (h : TransportHeader) (out : List ℕ)
    → length (serialize_to_bytes h out) ≡ length out + header_size
unfolding serialize_to_bytes
length-serialize_to_bytes h out = simp (length-append {0}) (omega arith)

read_fields-serialize_to_bytes :
    (h : TransportHeader) (rest : List ℕ)
    → IsHeader h
    → read_fields (serialize_to_bytes h [] ++ rest) ≡ h
unfolding read_fields serialize_to_bytes
read_fields-serialize_to_bytes h rest v = λ i. record {
  magic = magic_eq i;
  version = version_eq i;
  reserve = reserve_eq i;
  body_len = body_len_eq i;
  checksum = checksum_eq i;
}
  where
    bytes : List ℕ
    bytes = serialize_to_bytes h [] ++ rest

    magic_eq : read_uint32 bytes ≡ h.magic
    magic_eq = read_uint32-bytes h.magic (drop 4 bytes) (omega arith)

    version_eq : read_uint16 (drop 4 bytes) ≡ h.version
    version_eq = read_uint16-bytes h.version (drop 6 bytes) (omega arith)

    reserve_eq : read_uint16 (drop 6 bytes) ≡ h.reserve
    reserve_eq = read_uint16-bytes h.reserve (drop 8 bytes) v.reserve_fits

    body_len_eq : read_uint32 (drop 8 bytes) ≡ h.body_len
    body_len_eq = read_uint32-bytes h.body_len (drop 12 bytes) v.body_len_fits

    checksum_eq : read_uint32 (drop 12 bytes) ≡ h.checksum
    checksum_eq = read_uint32-bytes h.checksum rest v.checksum_fits

check_fields_lem : (h : TransportHeader) → IsHeader h → check_fields h ≡ some h
unfolding check_fields
check_fields_lem h v = ground arith

-- Reading the bytes that `serialize_to_bytes` wrote gives the header back, whatever follows them.
pub deserialize_from_bytes-serialize_to_bytes :
    (h : TransportHeader) (rest : List ℕ)
    → IsHeader h
    → deserialize_from_bytes (serialize_to_bytes h [] ++ rest) ≡ some h
deserialize_from_bytes-serialize_to_bytes h rest v =
    deserialize_from_bytes_long (serialize_to_bytes h [] ++ rest)
      (omega (arith, length-append (serialize_to_bytes h []) rest, length-serialize_to_bytes h []))
    ∙ ap check_fields (read_fields-serialize_to_bytes h rest v)
    ∙ check_fields_lem h v

check_fields_inv :
    (x : TransportHeader) {h : TransportHeader}
    → check_fields x ≡ some h
    → (x.magic ≡ ai_schedule_magic) × (x.version ≤ ai_schedule_protocol_version) × (h ≡ x)
unfolding check_fields
check_fields_inv x e = ground arith

deserialize_from_bytes_inv :
    (buf : List ℕ) {h : TransportHeader}
    → deserialize_from_bytes buf ≡ some h
    → (header_size ≤ length buf) × (check_fields (read_fields buf) ≡ some h)
unfolding deserialize_from_bytes
deserialize_from_bytes_inv buf e = ground arith

read_fields-IsHeader :
    (buf : List ℕ)
    → (read_fields buf).magic ≡ ai_schedule_magic
    → (read_fields buf).version ≤ ai_schedule_protocol_version
    → IsHeader (read_fields buf)
unfolding read_fields
read_fields-IsHeader buf m p = record {
  magic_ok = m;
  version_ok = p;
  reserve_fits = read_uint16-lt (drop 6 buf);
  body_len_fits = read_uint32-lt (drop 8 buf);
  checksum_fits = read_uint32-lt (drop 12 buf);
}

-- What is accepted meets the protocol's conditions, and is read from sixteen bytes at least.
pub deserialize_from_bytes-IsHeader :
    (buf : List ℕ) {h : TransportHeader}
    → deserialize_from_bytes buf ≡ some h
    → IsHeader h × (header_size ≤ length buf)
deserialize_from_bytes-IsHeader buf {h} e =
    let (long, accepted) = deserialize_from_bytes_inv buf e in
    let (m, p, same) = check_fields_inv (read_fields buf) accepted in
    (rw same (read_fields-IsHeader buf m p), long)
