-- ===== src/Client/Step.antt =====
-- SessionClient::Step of src/session/sf4e__SessionClient.cxx: one poll.
use sf4_rollback_gui.Prelude.{
  ◌≡◌, ◌⊎◌, arith, true, false, List, [], ◌∷◌, Option, none, some, ℤ, if◌then◌else◌,
}
use sf4_rollback_gui.Client.State.{Client, Libraries}
use sf4_rollback_gui.Client.Snapshots.{
  Outcome, finished, failed, Progress, goes_on, stops, and_then, reconcile_snapshots,
}
use sf4_rollback_gui.Client.Receive.{Incoming, handle_incoming}

-- `messages` is `none` where ReceiveMessagesOnConnection fails, and a message in it is `none` where it
-- was announced and not delivered. `recent` is the frame that the game has simulated.
pub record ClientInput : Type 0 where
  pub messages : Option (List (Option Incoming))
  pub recent : ℤ

unfoldable pub handle_messages : Libraries → List (Option Incoming) → Client → Progress
handle_messages libs [] c = goes_on c
handle_messages libs (none ∷ ms) c = stops failed c
handle_messages libs (some m ∷ ms) c =
    and_then (handle_incoming libs m c) (λ c'. handle_messages libs ms c')

unfoldable pub end_step : Progress → Outcome × Client
end_step (goes_on c) = (finished, c)
end_step (stops o c) = (o, c)

unfoldable pub poll : Libraries → ℤ → Option (List (Option Incoming)) → Client → Outcome × Client
poll libs recent none c = (failed, c)
poll libs recent (some ms) c =
    end_step (and_then (handle_messages libs ms c) (reconcile_snapshots recent))

unfoldable pub client_step : Libraries → ClientInput → Client → Outcome × Client
client_step libs i c = elim c.conn [
  | none ↦ (failed, c)
  | some h ↦
      let polled = poll libs i.recent i.messages c in if c.connected then polled else (finished, c)
]

-- A step without a connection, before the connection is up, and with it.
pub client_step-cases :
    (libs : Libraries) (i : ClientInput) (c : Client)
    → ((c.conn ≡ none) × (client_step libs i c ≡ (failed, c)))
      ⊎ ((c.connected ≡ false) × (client_step libs i c ≡ (finished, c)))
      ⊎ ((c.connected ≡ true) × (client_step libs i c ≡ poll libs i.recent i.messages c))
unfolding client_step
client_step-cases libs i c = ground arith
