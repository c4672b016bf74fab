-- ===== src/App/Actions/Rejoin.antt =====
-- The return to the lobby when the launched game has ended, in src/client/lobby_client.cxx.
use sf4_rollback_gui.Prelude.{
  ℕ, zero, suc, ◌+◌, ◌^◌, ◌≤◌, ◌<◌, ◌≡◌, true, false, List, [], ◌∷◌, ◌++◌, Option, none, some,
  is_empty, arith, ◌⊎◌, All, length,
}
use sf4_rollback_gui.Protocol.{LobbyId, join_req}
use sf4_rollback_gui.Client.State.{Client, Libraries, Call, send_request}
use sf4_rollback_gui.Client.Requests.{join_request_for, lobby_join}
use sf4_rollback_gui.App.State.{App}
use sf4_rollback_gui.App.Actions.{tick_game_watch, tick_rejoin, game_closed}

-- Frames at the given times, with no end of a game.
unfoldable pub ticks : Libraries → List ℕ → App → App
ticks libs [] a = a
ticks libs (now ∷ nows) a = ticks libs nows (tick_game_watch libs false now a)

-- Times that are apart by at least two seconds, from `next` on.
abbrev pub Spaced : ℕ → List ℕ → Type 0
Spaced next [] = Unit
Spaced next (now ∷ nows) = (next ≤ now) × Spaced (now + 2000) nows

-- When the time behind them ends in which nothing more is due.
abbrev pub quiet_until : ℕ → List ℕ → ℕ
quiet_until next [] = next
quiet_until next (now ∷ nows) = quiet_until (now + 2000) nows

-- Some of the times of a list, in its order.
abbrev pub Among : List ℕ → List ℕ → Type 0
Among [] nows = Unit
Among (t ∷ ts) [] = ⊥
Among (t ∷ ts) (now ∷ nows) = ((t ≡ now) × Among ts nows) ⊎ Among (t ∷ ts) nows

-- The clock does not come near its end.
abbrev pub Early : List ℕ → Type 0
Early nows = All (λ now. now + 2000 < 2 ^ 64) nows

unfoldable pub copies : ℕ → Call → List Call
copies zero k = []
copies (suc n) k = k ∷ copies n k

unfoldable pub calls_of : App → Option (List Call)
calls_of a = elim a.client [ none ↦ none | some c ↦ some c.calls ]

-- A client that is connected and sits in no lobby.
pub record Unseated (c : Client) : Type 0 where
  pub has_id : is_empty c.cid.user ≡ false
  pub no_lobby : is_empty c.lobby_data.id.key ≡ true

abbrev pub join_call : LobbyId → Client → Call
join_call id c = send_request (join_req (some (join_request_for id c)))

abbrev tried : Libraries → ℕ → ℕ → Client → App → App
unfolding lobby_join
tried libs now n c a = record a {
  client = some (lobby_join libs a.rejoin_target c).1;
  rejoin_attempts = n;
  next_rejoin_at = now + 2000;
}

has_ended :
    (libs : Libraries) (now : ℕ) (a : App)
    → a.game_process ≡ true
    → tick_game_watch libs true now a ≡ tick_rejoin libs now (game_closed a)
unfolding tick_game_watch
has_ended libs now a g = ground (arith, g)

-- The times at which a try is made, out of those of the frames, with at most `n` tries from the time
-- `next` on.
abbrev pub TriedAt : ℕ → ℕ → List ℕ → List ℕ → Type 0
TriedAt n next nows at =
    Among at nows
    × Spaced next at
    × (length at ≤ n)
    × ((length at ≡ n) ⊎ All (λ now. now < quiet_until next at) nows)

-- What becomes of the client's calls.
abbrev pub Retries : Libraries → ℕ → ℕ → List ℕ → Client → LobbyId → App → Type 0
Retries libs n next nows c target a =
    (at : List ℕ) × (TriedAt n next nows at
      × (calls_of a ≡ some (c.calls ++ copies (length at) (join_call target c))))
