-- ===== src/Protocol/Packet/RoundTrip.antt =====
-- `AiSchedulePacket::serialize` and `deserialize` are inverse, and what `deserialize` accepts.
use turbo_core_dist_ai_clush.Prelude.{
  ℕ, ◌+◌, ◌^◌, ◌≤◌, ◌<◌, ◌≡◌, refl, ap, ◌∙◌, sym, some, List, [], ◌++◌, ltb, length, take, drop,
  arith, length-append, drop-append_length, Bool-cases, inl, inr, ltb→lt, append_assoc, append-nil,
  take_all, ==_iff,
}
use turbo_core_dist_ai_clush.Prelude.Int.{IsInt32}
use turbo_core_dist_ai_clush.Prelude.Result.{ok, >>=-ok, caught}
use turbo_core_dist_ai_clush.Prelude.Dict.{find}
use turbo_core_dist_ai_clush.Protocol.Crc.{crc32, crc32-lt}
use turbo_core_dist_ai_clush.Protocol.Header.{
  TransportHeader, header_size, serialize_to_bytes, deserialize_from_bytes,
}
use turbo_core_dist_ai_clush.Protocol.Header.Laws.{
  IsHeader, deserialize_from_bytes-serialize_to_bytes, length-serialize_to_bytes,
}
use turbo_core_dist_ai_clush.Protocol.Types.{packet_type_to_int, IsPacketType}
use turbo_core_dist_ai_clush.Protocol.Json.{JsonLib, JsonLaws, at-object_get}
use turbo_core_dist_ai_clush.Protocol.Packet.{
  BasePacket, AiSchedulePacket, header_for, base_to_json, base_from_json, full_json, serialize,
  read_body, deserialize_body, deserialize,
}

-- The fields fit their C types, and the type is a value that a cast can give.
pub record IsBasePacket (p : BasePacket) : Type 0 where
  pub seq_fits : p.seq < 2 ^ 64
  pub type_fits : IsInt32 (packet_type_to_int p.packet_type)
  pub type_ok : IsPacketType p.packet_type

pub header_for-IsHeader :
    (body_str : List ℕ) → length body_str < 2 ^ 32 → IsHeader (header_for body_str)
unfolding header_for
header_for-IsHeader body_str h = record {
  magic_ok = refl;
  version_ok = omega arith;
  reserve_fits = omega arith;
  body_len_fits = omega arith;
  checksum_fits = crc32-lt 0 body_str (omega arith);
}

module _ (J : JsonLib) (L : JsonLaws J) where
  open J use {Json, dump, parse, at}

  base_from_json-base_to_json :
      (p : BasePacket) → IsBasePacket p → base_from_json J (base_to_json J p) ≡ ok p
  unfolding base_from_json base_to_json find
  base_from_json-base_to_json p v =
      >>=-ok _
        (at-object_get L "seq" _ J.get_uint64 refl (L.get_uint64-from_uint64 p.seq v.seq_fits))
      ∙ >>=-ok _ (at-object_get L "type" _ J.get_int32 refl (L.get_int32-from_int32 _ v.type_fits))
      ∙ >>=-ok _
          (at-object_get L "sender_id" _ J.get_string refl (L.get_string-from_string p.sender_id))
      ∙ ap (λ t. ok (record p { packet_type = t })) v.type_ok

  read_body-full_json :
      (p : AiSchedulePacket Json) (h : TransportHeader) (body_str : List ℕ)
      → IsBasePacket p.base_header
      → parse body_str ≡ ok (full_json J p)
      → read_body J h body_str ≡ ok (record p { trans_header = h })
  unfolding read_body full_json find
  read_body-full_json p h body_str v e =
      >>=-ok _ e
      ∙ >>=-ok _ (
          at-object_get L "base" _ (base_from_json J) refl
            (base_from_json-base_to_json p.base_header v))
      ∙ >>=-ok _ (L.at-object "body" _ p.body refl)

-- The bytes of one packet, as `serialize` writes them.
abbrev pub frame : List ℕ → List ℕ
frame body_str = serialize_to_bytes (header_for body_str) [] ++ body_str

pub length-frame : (body_str : List ℕ) → length (frame body_str) ≡ header_size + length body_str
length-frame body_str = omega (
  arith,
  length-append (serialize_to_bytes (header_for body_str) []) body_str,
  length-serialize_to_bytes (header_for body_str) [],
)

pub body_len-header_for :
    (body_str : List ℕ)
    → length body_str < 2 ^ 32
    → (header_for body_str).body_len ≡ length body_str
unfolding header_for
body_len-header_for body_str h = omega arith

pub frame_header :
    (body_str rest : List ℕ)
    → length body_str < 2 ^ 32
    → deserialize_from_bytes (frame body_str ++ rest) ≡ some (header_for body_str)
frame_header body_str rest h =
    ap deserialize_from_bytes
      (append_assoc (serialize_to_bytes (header_for body_str) []) body_str rest)
    ∙ deserialize_from_bytes-serialize_to_bytes (header_for body_str) (body_str ++ rest)
        (header_for-IsHeader body_str h)

frame_body :
    (body_str : List ℕ)
    → length body_str < 2 ^ 32
    → take (header_for body_str).body_len (drop header_size (frame body_str)) ≡ body_str
frame_body body_str h =
    ap (take (header_for body_str).body_len) (
      drop-append_length header_size (serialize_to_bytes (header_for body_str) []) body_str
        (sym (length-serialize_to_bytes (header_for body_str) [])))
    ∙ take_all (header_for body_str).body_len body_str
        (omega (arith, body_len-header_for body_str h))

checksum_lem : (body_str : List ℕ) → (header_for body_str).checksum ≡ crc32 0 body_str
unfolding header_for
checksum_lem body_str = refl

module _ (J : JsonLib) (L : JsonLaws J) where
  open J use {Json, dump, parse}

  deserialize_body_accepts :
      (h : TransportHeader) (buf body_str : List ℕ)
      → header_size + h.body_len ≤ length buf
      → take h.body_len (drop header_size buf) ≡ body_str
      → crc32 0 body_str ≡ h.checksum
      → deserialize_body J h buf ≡ caught (read_body J h body_str)
  unfolding deserialize_body
  deserialize_body_accepts h buf body_str enough body sum =
      elim (Bool-cases (ltb (length buf) (header_size + h.body_len))) [
        | inl short ↦ absurd (omega (arith, ltb→lt _ _ short))
        | inr long ↦ rw (long, body, (==_iff (crc32 0 body_str) h.checksum).1 sum)
      ]

  deserialize_body-frame :
      (p : AiSchedulePacket Json) (body_str : List ℕ)
      → IsBasePacket p.base_header
      → parse body_str ≡ ok (full_json J p)
      → length body_str < 2 ^ 32
      → deserialize_body J (header_for body_str) (frame body_str)
        ≡ some (record p { trans_header = header_for body_str })
  deserialize_body-frame p body_str v e h =
      deserialize_body_accepts (header_for body_str) (frame body_str) body_str
        (omega (arith, length-frame body_str, body_len-header_for body_str h))
        (frame_body body_str h) (sym (checksum_lem body_str))
      ∙ ap caught (read_body-full_json J L p (header_for body_str) body_str v e)

  pub deserialize-frame :
      (p : AiSchedulePacket Json) (body_str : List ℕ)
      → IsBasePacket p.base_header
      → parse body_str ≡ ok (full_json J p)
      → length body_str < 2 ^ 32
      → deserialize J (frame body_str) ≡ some (record p { trans_header = header_for body_str })
  unfolding deserialize
  deserialize-frame p body_str v e h =
      rw
        (
          ap deserialize_from_bytes (sym (append-nil (frame body_str)))
              ∙ frame_header body_str [] h,
          deserialize,
        )
        (deserialize_body-frame p body_str v e h)

  -- Every packet whose fields fit their types, and whose text the JSON library writes in fewer
  -- than 2 ^ 32 bytes and reads back, is serialized, and deserializing the bytes gives its base
  -- header and body back, with the transport header that `serialize` filled in.
  pub deserialize-serialize :
      (p : AiSchedulePacket Json) (body_str : List ℕ)
      → IsBasePacket p.base_header
      → dump (full_json J p) ≡ ok body_str
      → parse body_str ≡ ok (full_json J p)
      → length body_str < 2 ^ 32
      → (serialize J p [] ≡ ok (frame body_str))
        × (deserialize J (frame body_str) ≡ some (record p { trans_header = header_for body_str }))
  unfolding serialize
  deserialize-serialize p body_str v d e h = (>>=-ok _ d, deserialize-frame p body_str v e h)
