-- ===== src/Listener.antt =====
-- pkg/endpoints/listener.go: `listenerHandler`, the HTTP handler of "/webhook". Of the standard
-- library it takes JSON, as a parameter, and the status of an answer whose handler sets none.
pub mod Accepted
mod Tests
use kabanero_events.Prelude.{ℕ, ◌⊎◌, inl, inr, List, [], Str, lit}
use kabanero_events.Go.Assoc.{insert}
use kabanero_events.Go.Value.{Val}
use kabanero_events.Go.Exec.{
  Error, Result, ok, err, panic, out_of_fuel, Exec, of_sum, recover, ◌>>=◌,
}
use kabanero_events.Messages.{Network, Service, send}

-- What stands in the map that is sent: `map[string][]string`, or a map that was decoded.
pub data Part (Body : Type 0) : Type 0 where
  header_part : List (Str × List Str) → Part Body
  body_part : Body → Part Body

-- `json.Unmarshal` into a map, and `json.Marshal` of a map.
pub record Codec : Type 1 where
  pub Body : Type 0
  pub unmarshal : Str → Error ⊎ Body
  pub marshal : List (Str × Part Body) → Error ⊎ Str

-- The map that is sent: the header of the request and the body that was decoded.
unfoldable pub message_map : {Body : Type 0} → List (Str × List Str) → Body → List (Str × Part Body)
message_map header body_map =
    insert (lit "body") (body_part body_map) (insert (lit "header") (header_part header) [])

abbrev pub webhook_destination : Str
webhook_destination = lit "github"

-- The status of the answer: an error is logged, and the handler returns without setting one.
status : Result (Unit {0}) → Result ℕ
status (ok _) = ok 202
status (err _) = ok 200
status panic = panic
status out_of_fuel = out_of_fuel

module _ (network : Network) (service : Service) (codec : Codec) where
  open codec use {unmarshal, marshal}

  -- From the bytes that were read to the sending.
  unfoldable pub forward : List (Str × List Str) → Str → Exec (Unit {0})
  forward header bytes = do
    body_map ← of_sum (unmarshal bytes)
    message ← of_sum (marshal (message_map header body_map))
    send network service webhook_destination message Val.nil

  unfoldable pub listener_handler : List (Str × List Str) → Str → Exec ℕ
  unfolding status
  listener_handler header bytes = recover status (forward header bytes)
