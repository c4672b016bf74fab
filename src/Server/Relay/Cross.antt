-- ===== src/Server/Relay/Cross.antt =====
-- Forwarding between the two clients of a match in StepRelay of
-- src/session/sf4e__SessionServer.cxx.
use sf4_rollback_gui.Prelude.{ℕ, ◌≡◌, ◌≢◌, [], ◌∷◌, none, some, Str, All}
use sf4_rollback_gui.Prelude.Map
use sf4_rollback_gui.Prelude.Map.{Map, str_key}
use sf4_rollback_gui.Server.State.{Server, Endpoint, RelayPair}
use sf4_rollback_gui.Server.Relay.{source_seat, relay_loop, relay_batch}
use sf4_rollback_gui.Server.Relay.Registration.{registration_text}

-- No pair of another match knows the endpoint.
abbrev pub Unknown : Endpoint → Str → Map Str RelayPair → Type 0
Unknown e token m = All (λ q. (q.0 ≢ token) → source_seat e q.1 ≡ none) m

-- The pair of two registered clients.
abbrev pub full_pair : Endpoint → Endpoint → ℕ → RelayPair
full_pair a b now = record { seats = record { p1 = some a; p2 = some b }; last_seen_ms = now }

-- The server once client `a` has registered for seat 0 and client `b` for seat 1, in one step.
abbrev pub registered : ℕ → Str → Endpoint → Endpoint → Server → Server
registered now token a b s =
    relay_loop relay_batch now
      (record { sender = a; bytes = registration_text token 0 }
        ∷ record { sender = b; bytes = registration_text token 1 }
        ∷ [])
      s
