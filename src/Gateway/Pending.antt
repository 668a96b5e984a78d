-- ===== src/Gateway/Pending.antt =====
-- A forwarded request is answered by the response with its number, once.
use turbo_core_dist_ai_clush.Prelude.{
  ℕ, suc, ◌+◌, ◌<◌, ◌^◌, ◌≡◌, ◌≢◌, ◌⊎◌, not, ◌||◌, refl, ap, sym, subst, ◌∙◌, true, List, [], ◌∷◌,
  none, some, arith, length, All, Option-cases, Bool-cases, inl, inr,
}
use turbo_core_dist_ai_clush.Prelude.NatMap
use turbo_core_dist_ai_clush.Prelude.Int.{ℤ, pos}
use turbo_core_dist_ai_clush.Prelude.Result.{Result-cases}
use turbo_core_dist_ai_clush.Protocol.Json.{JsonLib}
use turbo_core_dist_ai_clush.Protocol.Packet.{AiSchedulePacket, serialize}
use turbo_core_dist_ai_clush.Gateway.{
  Gateway, Backend, enter_request, forward_to_backend, on_backend_response,
}

-- What reaches the gateway: a request for a backend, or a packet from one.
pub data Event (Callback Json : Type 0) : Type 0 where
  forwards : Backend → AiSchedulePacket Json → Callback → Event Callback Json
  responds : AiSchedulePacket Json → Event Callback Json

module _ (J : JsonLib) {Callback : Type 0} where
  open J use {Json}

  unfoldable pub step : Gateway Callback → Event Callback Json → Gateway Callback
  step g (forwards backend packet callback) =
      (forward_to_backend J g backend packet callback).gateway
  step g (responds packet) = (on_backend_response J g packet).0

  unfoldable pub run : Gateway Callback → List (Event Callback Json) → Gateway Callback
  run g [] = g
  run g (event ∷ events) = run (step g event) events

  -- No response to the request with the number.
  abbrev pub IsSilentOn : ℕ → Event Callback Json → Type 0
  IsSilentOn seq (forwards backend packet callback) = Unit
  IsSilentOn seq (responds packet) = packet.base_header.seq ≢ seq

  -- The request is in the table and no later one gets its number before the counter wraps around.
  abbrev Waits : ℕ → Callback → ℕ → Gateway Callback → Type 0
  Waits seq callback left g =
      (NatMap.find g.m_pending_reqs seq ≡ some callback)
      × (seq < g.m_next_seq)
      × (g.m_next_seq + left < 2 ^ 64)

  forward_to_backend-cases :
      (g : Gateway Callback) (backend : Backend) (packet : AiSchedulePacket Json)
      (callback : Callback)
      → ((forward_to_backend J g backend packet callback).gateway ≡ g)
        ⊎ ((forward_to_backend J g backend packet callback).gateway ≡ (enter_request g callback).1)
  unfolding forward_to_backend
  forward_to_backend-cases g backend packet callback =
      elim (Bool-cases (not backend.connected || not backend.client_connected)) [
        | inl refused ↦ inl (rw (refused, forward_to_backend) refl)
        | inr accepted ↦
            elim (Result-cases (
              serialize J
                (record packet {
                  base_header = record packet.base_header { seq = (enter_request g callback).0 };
                })
                [])) [
                  | inl (bytes, e) ↦ inr (ground (arith, accepted, e))
                  | inr (text, e) ↦ inr (ground (arith, accepted, e))
                ]
      ]

  enter_request-Waits :
      (g : Gateway Callback) (seq left : ℕ) (callback other : Callback)
      → Waits seq callback (suc left) g
      → Waits seq callback left (enter_request g other).1
  unfolding enter_request
  enter_request-Waits g seq left callback other (found, older, room) = (
    NatMap.find-assign g.m_pending_reqs g.m_next_seq other seq ∙ ground (arith, found, older),
    omega (arith, older, room),
    omega (arith, room),
  )

  weaken-Waits :
      (g : Gateway Callback) (seq left : ℕ) (callback : Callback)
      → Waits seq callback (suc left) g
      → Waits seq callback left g
  weaken-Waits g seq left callback (found, older, room) = (found, older, omega (arith, room))

  on_backend_response-Waits :
      (g : Gateway Callback) (seq left : ℕ) (callback : Callback) (packet : AiSchedulePacket Json)
      → packet.base_header.seq ≢ seq
      → Waits seq callback left g
      → Waits seq callback left (on_backend_response J g packet).0
  unfolding on_backend_response
  on_backend_response-Waits g seq left callback packet ne (found, older, room) =
      elim (Option-cases (NatMap.find g.m_pending_reqs packet.base_header.seq)) [
        | inl unknown ↦ rw (unknown, on_backend_response) (found, older, room)
        | inr (other, known) ↦
            rw (known, on_backend_response)
              (
                NatMap.find-erase g.m_pending_reqs packet.base_header.seq seq
                    ∙ ground (arith, found, ne),
                older,
                room,
              )
      ]

  step-Waits :
      (g : Gateway Callback) (event : Event Callback Json) (seq left : ℕ) (callback : Callback)
      → IsSilentOn seq event
      → Waits seq callback (suc left) g
      → Waits seq callback left (step g event)
  unfolding step
  step-Waits g (forwards backend packet other) seq left callback silent w =
      elim (forward_to_backend-cases g backend packet other) [
        | inl same ↦ subst (Waits seq callback left) (sym same) (weaken-Waits g seq left callback w)
        | inr entered ↦
            subst (Waits seq callback left) (sym entered)
              (enter_request-Waits g seq left callback other w)
      ]
  step-Waits g (responds packet) seq left callback ne w =
      on_backend_response-Waits g seq left callback packet ne (weaken-Waits g seq left callback w)

  run-Waits :
      (g : Gateway Callback) (events : List (Event Callback Json)) (seq : ℕ) (callback : Callback)
      → All (IsSilentOn seq) events
      → Waits seq callback (length events) g
      → Waits seq callback 0 (run g events)
  unfolding run
  run-Waits g [] seq callback silent w = w
  run-Waits g (event ∷ events) seq callback silent w =
      run-Waits (step g event) events seq callback silent.1
        (step-Waits g event seq (length events) callback silent.0 w)

  accepted_lem :
      (g : Gateway Callback) (backend : Backend) (packet : AiSchedulePacket Json)
      (callback : Callback)
      → backend.connected ≡ true
      → backend.client_connected ≡ true
      → (forward_to_backend J g backend packet callback).gateway ≡ (enter_request g callback).1
  unfolding forward_to_backend
  accepted_lem g backend packet callback c d =
      elim (Result-cases (
        serialize J
          (record packet {
            base_header = record packet.base_header { seq = (enter_request g callback).0 };
          })
          [])) [
            | inl (bytes, e) ↦ ground (arith, c, d, e)
            | inr (text, e) ↦ ground (arith, c, d, e)
          ]

  enter_request-Waits_new :
      (g : Gateway Callback) (callback : Callback) (left : ℕ)
      → g.m_next_seq + suc left < 2 ^ 64
      → Waits g.m_next_seq callback left (enter_request g callback).1
  unfolding enter_request
  enter_request-Waits_new g callback left room = (
    NatMap.find-assign g.m_pending_reqs g.m_next_seq callback g.m_next_seq ∙ ground arith,
    omega (arith, room),
    omega (arith, room),
  )

  known_lem :
      (g : Gateway Callback) (packet : AiSchedulePacket Json) (callback : Callback)
      → NatMap.find g.m_pending_reqs packet.base_header.seq ≡ some callback
      → on_backend_response J g packet ≡ (
        record g { m_pending_reqs = NatMap.erase g.m_pending_reqs packet.base_header.seq },
        (callback, pos 200, packet.body) ∷ [],
      )
  unfolding on_backend_response
  known_lem g packet callback known = ground (arith, known)

  unknown_lem :
      (g : Gateway Callback) (packet : AiSchedulePacket Json)
      → NatMap.find g.m_pending_reqs packet.base_header.seq ≡ none
      → (on_backend_response J g packet).1 ≡ []
  unfolding on_backend_response
  unknown_lem g packet unknown = ground (arith, unknown)

  answers_once :
      (g : Gateway Callback) (seq : ℕ) (callback : Callback) (packet again : AiSchedulePacket Json)
      → NatMap.find g.m_pending_reqs seq ≡ some callback
      → packet.base_header.seq ≡ seq
      → again.base_header.seq ≡ seq
      → ((on_backend_response J g packet).1 ≡ (callback, pos 200, packet.body) ∷ [])
        × ((on_backend_response J (on_backend_response J g packet).0 again).1 ≡ [])
  answers_once g seq callback packet again found e e' =
      let known = ap (NatMap.find g.m_pending_reqs) e ∙ found in
      let answered = known_lem g packet callback known in
      let gone =
        ap
          (λ (h : Gateway Callback × List (Callback × ℤ × Json)).
            NatMap.find h.0.m_pending_reqs again.base_header.seq)
          answered
        ∙ NatMap.find-erase g.m_pending_reqs packet.base_header.seq again.base_header.seq
        ∙ ground (arith, e, e') in
      (ap (λ h. h.1) answered, unknown_lem (on_backend_response J g packet).0 again gone)

  -- A request that is forwarded over a connection that is up is answered by the first response that
  -- carries its number, whatever else is forwarded and answered in between: its own callback is
  -- called with code 200 and the body of that response, and a second response with the number calls
  -- nothing. The condition is that the counter of the numbers does not wrap around on the way.
  pub forward_to_backend-on_backend_response :
      (g : Gateway Callback) (backend : Backend) (request : AiSchedulePacket Json)
      (callback : Callback) (events : List (Event Callback Json))
      (response again : AiSchedulePacket Json)
      → backend.connected ≡ true
      → backend.client_connected ≡ true
      → All (IsSilentOn g.m_next_seq) events
      → response.base_header.seq ≡ g.m_next_seq
      → again.base_header.seq ≡ g.m_next_seq
      → g.m_next_seq + suc (length events) < 2 ^ 64
      → let waiting = run (forward_to_backend J g backend request callback).gateway events in
        ((on_backend_response J waiting response).1 ≡ (callback, pos 200, response.body) ∷ [])
        × ((on_backend_response J (on_backend_response J waiting response).0 again).1 ≡ [])
  forward_to_backend-on_backend_response g backend request callback events response again c d silent
        e e' room =
      let waiting = run (forward_to_backend J g backend request callback).gateway events in
      let waits =
        run-Waits (forward_to_backend J g backend request callback).gateway events g.m_next_seq
          callback silent
          (subst (Waits g.m_next_seq callback (length events))
            (sym (accepted_lem g backend request callback c d))
            (enter_request-Waits_new g callback (length events) room)) in
      answers_once waiting g.m_next_seq callback response again waits.0 e e'
