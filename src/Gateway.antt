-- ===== src/Gateway.antt =====
-- The requests that `Gateway` of AiDist/9 Gateway.h and AiDist/9. Gateway.cpp has forwarded to its
-- backends. A callback is a value of a parameter type; that it is called, with what code and body,
-- is an entry of a list. The table is an association list keyed by the sequence number.
pub mod Pending
pub mod Routes
pub mod Backends
use Prim.Native.String.{◌++◌ as join}
use turbo_core_dist_ai_clush.Prelude.{
  ℕ, ◌+◌, ◌%◌, ◌^◌, Bool, true, false, not, ◌||◌, List, [], ◌∷◌, String, Option, none, some,
  if◌then◌else◌, ◌==◌,
}
use turbo_core_dist_ai_clush.Prelude.NatMap
use turbo_core_dist_ai_clush.Prelude.Int.{ℤ, pos}
use turbo_core_dist_ai_clush.Prelude.Result.{Result, ok, throws}
use turbo_core_dist_ai_clush.Protocol.Json.{JsonLib}
use turbo_core_dist_ai_clush.Protocol.Packet.{AiSchedulePacket, serialize}

-- `client_connected` is what `client->IsConnected()` returns.
pub record Backend : Type 0 where
  pub service_name : String
  pub connected : Bool
  pub client_connected : Bool

pub record Gateway (Callback : Type 0) : Type 0 where
  pub m_pending_reqs : List (ℕ × Callback)
  pub m_next_seq : ℕ

abbrev pub new_gateway : (Callback : Type 0) → Gateway Callback
new_gateway Callback = record { m_pending_reqs = []; m_next_seq = 1 }

-- What a call leaves: the state, the callbacks that it called with code and body, the bytes that it
-- sent to the backend, and the exception that left it, if any.
pub record Forwarded (Callback Json : Type 0) : Type 0 where
  pub gateway : Gateway Callback
  pub called : List (Callback × ℤ × Json)
  pub sent : Option (List ℕ)
  pub thrown : Option String

-- The number of the request and the table with its callback.
unfoldable pub enter_request :
    {Callback : Type 0} → Gateway Callback → Callback → ℕ × Gateway Callback
enter_request g callback =
    let seq = g.m_next_seq in
    (
      seq,
      record {
        m_pending_reqs = NatMap.assign g.m_pending_reqs seq callback;
        m_next_seq = (seq + 1) % 2 ^ 64;
      },
    )

module _ (J : JsonLib) where
  open J use {Json, object, from_string, from_int32}

  abbrev pub error_body : ℤ → String → Json
  error_body code message =
      object (("code", from_int32 code) ∷ ("message", from_string message) ∷ [])

module _ (J : JsonLib) {Callback : Type 0} where
  open J use {Json}

  -- The request is in the table before the packet is written, also where writing throws.
  unfoldable pub forward_to_backend :
      Gateway Callback → Backend → AiSchedulePacket Json → Callback → Forwarded Callback Json
  unfolding enter_request
  forward_to_backend g backend packet callback =
      if not backend.connected || not backend.client_connected
      then record {
        gateway = g;
        called =
            (
              callback,
              pos 503,
              error_body J (pos 503) (join "backend " (join backend.service_name " not available")),
            )
            ∷ [];
        sent = none;
        thrown = none;
      }
      else let entered = enter_request g callback in
        let base = record packet.base_header { seq = entered.0 } in
        elim (serialize J (record packet { base_header = base }) []) [
          | ok out_bytes ↦ record {
            gateway = entered.1;
            called = [];
            sent = some out_bytes;
            thrown = none;
          }
          | throws e ↦ record { gateway = entered.1; called = []; sent = none; thrown = some e }
        ]

  unfoldable pub on_backend_response :
      Gateway Callback → AiSchedulePacket Json → Gateway Callback × List (Callback × ℤ × Json)
  on_backend_response g packet =
      let seq = packet.base_header.seq in
      elim (NatMap.find g.m_pending_reqs seq) [
        | none ↦ (g, [])
        | some callback ↦ (
          record g { m_pending_reqs = NatMap.erase g.m_pending_reqs seq },
          (callback, pos 200, packet.body) ∷ [],
        )
      ]
