-- ===== src/Gateway/Routes/Answers.antt =====
-- What becomes of an HTTP request.
use Prim.Native.String.{◌++◌ as join}
use turbo_core_dist_ai_clush.Prelude.{ℕ, ◌≤◌, ◌≡◌, ◌⊎◌, List, [], ◌∷◌, String, none, some}
use turbo_core_dist_ai_clush.Prelude.Int.{pos}
use turbo_core_dist_ai_clush.Prelude.Result.{throws}
use turbo_core_dist_ai_clush.Protocol.Json.{JsonLib}
use turbo_core_dist_ai_clush.Gateway.{Gateway, enter_request}
use turbo_core_dist_ai_clush.Gateway.Routes.{Routed}

module _ (J : JsonLib) where
  open J use {Json, dump}

  -- `dump` throws on a value, as on a string that is not UTF-8.
  abbrev pub CannotWrite : Type 0
  CannotWrite = (j : Json) × (e : String) × (dump j ≡ throws e)

module _ (J : JsonLib) {Callback : Type 0} where
  open J use {Json, dump}

  -- The request got one answer, with an error status, and nothing else happened.
  abbrev pub IsAnswered : Gateway Callback → Callback → Routed Callback → Type 0
  IsAnswered g resp r =
      (status : ℕ) × (text : List ℕ) × (400 ≤ status)
      × (r ≡ record {
        gateway = g;
        answers = (resp, pos status, text) ∷ [];
        sent = none;
        thrown = none;
      })

  -- It got no answer yet: it was sent to a backend, and its callback waits under the next number.
  abbrev pub IsForwarded : Gateway Callback → Callback → Routed Callback → Type 0
  IsForwarded g resp r =
      (name : String) × (bytes : List ℕ) × (r ≡ record {
        gateway = (enter_request g resp).1;
        answers = [];
        sent = some (name, bytes);
        thrown = none;
      })

  -- The table is as before, or the request stays in it.
  abbrev pub IsLeft : Gateway Callback → Callback → Gateway Callback → Type 0
  IsLeft g resp left = (left ≡ g) ⊎ (left ≡ (enter_request g resp).1)

  -- A value could not be written, and the request got one answer, with an error status.
  abbrev pub IsExcused : Gateway Callback → Callback → Routed Callback → Type 0
  IsExcused g resp r =
      CannotWrite J
      × (left : Gateway Callback) × (status : ℕ) × (text : List ℕ) × IsLeft g resp left
      × (400 ≤ status)
      × (r ≡ record {
        gateway = left;
        answers = (resp, pos status, text) ∷ [];
        sent = none;
        thrown = none;
      })

  -- A value could not be written, and an exception left the route, without an answer.
  abbrev pub IsUnanswered : Gateway Callback → Callback → Routed Callback → Type 0
  IsUnanswered g resp r =
      CannotWrite J
      × (left : Gateway Callback) × (e : String) × IsLeft g resp left
      × (r ≡ record { gateway = left; answers = []; sent = none; thrown = some e })

  abbrev pub IsServed : Gateway Callback → Callback → Routed Callback → Type 0
  IsServed g resp r =
      (IsAnswered g resp r ⊎ IsForwarded g resp r) ⊎ (IsExcused g resp r ⊎ IsUnanswered g resp r)
