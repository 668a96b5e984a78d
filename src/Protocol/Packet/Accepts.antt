-- ===== src/Protocol/Packet/Accepts.antt =====
-- What `AiSchedulePacket::deserialize` accepts.
use turbo_core_dist_ai_clush.Prelude.{
  ℕ, ◌+◌, ◌≤◌, ◌≡◌, ◌≢◌, drop-append_length, take_all, [], ◌++◌, ap, ◌∙◌, sym, none, some, List,
  length, take, drop, arith, Option-cases, inl, inr, subst,
}
use turbo_core_dist_ai_clush.Prelude.Result.{Result, ok, throws, caught}
use turbo_core_dist_ai_clush.Protocol.Crc.{crc32}
use turbo_core_dist_ai_clush.Protocol.Header.{
  TransportHeader, header_size, deserialize_from_bytes, serialize_to_bytes,
}
use turbo_core_dist_ai_clush.Protocol.Header.Laws.{
  IsHeader, deserialize_from_bytes-IsHeader, deserialize_from_bytes-serialize_to_bytes,
  length-serialize_to_bytes,
}
use turbo_core_dist_ai_clush.Protocol.Json.{JsonLib}
use turbo_core_dist_ai_clush.Protocol.Packet.{
  AiSchedulePacket, read_body, deserialize_body, deserialize,
}

caught_inv {ℓ} : {A : Type ℓ} (r : Result A) {a : A} → caught r ≡ some a → r ≡ ok a
caught_inv (ok a) e = cc
caught_inv (throws w) e = cc

module _ (J : JsonLib) where
  open J use {Json}

  -- The conditions under which bytes are taken for the packet `p` with the transport header `h`.
  pub record Accepts (h : TransportHeader) (buf : List ℕ) (p : AiSchedulePacket Json) : Type 0 where
    pub complete : header_size + h.body_len ≤ length buf
    pub intact : crc32 0 (take h.body_len (drop header_size buf)) ≡ h.checksum
    pub well_formed : read_body J h (take h.body_len (drop header_size buf)) ≡ ok p

  deserialize_body-Accepts :
      (h : TransportHeader) (buf : List ℕ) {p : AiSchedulePacket Json}
      → deserialize_body J h buf ≡ some p
      → Accepts h buf p
  unfolding deserialize_body
  deserialize_body-Accepts h buf e =
      ground (arith, caught_inv (read_body J h (take h.body_len (drop header_size buf))))

  read_body-trans_header :
      (h : TransportHeader) (body_str : List ℕ) {p : AiSchedulePacket Json}
      → read_body J h body_str ≡ ok p
      → p.trans_header ≡ h
  unfolding read_body
  read_body-trans_header h body_str e = ground arith

  -- Whatever `deserialize` accepts has the protocol's magic and a version that is not above its
  -- own, all the bytes that its length field promises, a body with the checksum of the header, and
  -- a base header and a body that were read from exactly those body bytes.
  pub deserialize-Accepts :
      (buf : List ℕ) {p : AiSchedulePacket Json}
      → deserialize J buf ≡ some p
      → IsHeader p.trans_header × Accepts p.trans_header buf p
  unfolding deserialize
  deserialize-Accepts buf {p} e = elim (Option-cases (deserialize_from_bytes buf)) [
    | inl missing ↦ cc (rejected missing)
    | inr (h, found) ↦
        let accepted = deserialize_body-Accepts h buf (sym (continues h found) ∙ e) in
        let same =
          read_body-trans_header h (take h.body_len (drop header_size buf)) accepted.well_formed in
        subst (λ k. IsHeader k × Accepts k buf p) (sym same)
          ((deserialize_from_bytes-IsHeader buf found).0, accepted)
  ]
    where
      rejected : deserialize_from_bytes buf ≡ none → deserialize J buf ≡ none
      rejected missing = rw (missing, deserialize)

      continues :
          (h : TransportHeader)
          → deserialize_from_bytes buf ≡ some h
          → deserialize J buf ≡ deserialize_body J h buf
      continues h found = rw (found, deserialize)

  deserialize_body_rejects :
      (h : TransportHeader) (buf : List ℕ)
      → crc32 0 (take h.body_len (drop header_size buf)) ≢ h.checksum
      → deserialize_body J h buf ≡ none
  unfolding deserialize_body
  deserialize_body_rejects h buf wrong = ground arith

  -- A body that does not have the checksum of its header is refused.
  pub deserialize-damaged :
      (h : TransportHeader) (body_str : List ℕ)
      → IsHeader h
      → h.body_len ≡ length body_str
      → crc32 0 body_str ≢ h.checksum
      → deserialize J (serialize_to_bytes h [] ++ body_str) ≡ none
  unfolding deserialize
  deserialize-damaged h body_str v len wrong =
      rw (deserialize_from_bytes-serialize_to_bytes h body_str v, deserialize)
        (deserialize_body_rejects h (serialize_to_bytes h [] ++ body_str)
          (λ same. wrong (ap (crc32 0) (sym body) ∙ same)))
    where
      body : take h.body_len (drop header_size (serialize_to_bytes h [] ++ body_str)) ≡ body_str
      body =
          ap (take h.body_len) (
            drop-append_length header_size (serialize_to_bytes h []) body_str
              (sym (length-serialize_to_bytes h [])))
          ∙ take_all h.body_len body_str (omega (arith, len))
