-- ===== src/Tests/Gateway.antt =====
-- AiDist/9. Gateway.cpp at concrete inputs.
use turbo_core_dist_ai_clush.Prelude.{ℕ, ◌≡◌, ◌≢◌, refl, true, List, [], ◌∷◌, String, arith}
use turbo_core_dist_ai_clush.Prelude.Int.{pos}
use turbo_core_dist_ai_clush.Protocol.Json.{JsonLib}
use turbo_core_dist_ai_clush.Protocol.Packet.{AiSchedulePacket}
use turbo_core_dist_ai_clush.Gateway.{Backend, new_gateway, forward_to_backend, on_backend_response}
use turbo_core_dist_ai_clush.Gateway.Pending.{
  Event, forwards, responds, run, forward_to_backend-on_backend_response,
}
use turbo_core_dist_ai_clush.Tests.JsonText.{Value, json_text}
use turbo_core_dist_ai_clush.Tests.Protocol.{sample_packet}

abbrev J : JsonLib
J = json_text []

abbrev up : Backend
up = record { service_name = "scheduler"; connected = true; client_connected = true }

abbrev answer : ℕ → AiSchedulePacket Value
answer seq = record sample_packet { base_header = record sample_packet.base_header { seq = seq } }

-- Another request goes out and is answered first.
abbrev between : List (Event String Value)
between = forwards up sample_packet "second" ∷ responds (answer 2) ∷ []

two_is_not_one : ◌≢◌ {A = ℕ} 2 1
two_is_not_one e = ground arith

forward_to_backend-on_backend_response_example :
    let waiting =
      run J (forward_to_backend J (new_gateway String) up sample_packet "first").gateway between in
    ((on_backend_response J waiting (answer 1)).1 ≡ ("first", pos 200, sample_packet.body) ∷ [])
    × ((on_backend_response J (on_backend_response J waiting (answer 1)).0 (answer 1)).1 ≡ [])
forward_to_backend-on_backend_response_example =
    forward_to_backend-on_backend_response J (new_gateway String) up sample_packet "first" between
      (answer 1) (answer 1) refl refl (tt, (two_is_not_one, tt)) refl refl (omega arith)

-- The registry is connected, and no scheduler is configured.
abbrev registry : Backend
registry = record { service_name = "registry"; connected = true; client_connected = true }
