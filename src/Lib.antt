-- ===== src/Lib.antt =====
-- A verification library for the online sessions of sf4-rollback-gui: the lobby, matchmaking, chat and
-- relay server, the client that a player's process keeps to it, the resolution and registration of
-- addresses, and the rollback session that the two games of a match run.
--
-- The program. src/session/sf4e__SessionServer.cxx keeps the connections (`cidMap`), the registered
-- peers, a registry of lobbies (src/session/sf4e__LobbyRegistry.cxx), a relay for UDP datagrams and a
-- memory of pairs of players whose direct connection failed. `SessionServer::Step` answers NAT probes,
-- forwards datagrams, handles the messages received, pairs the players who look for a match, and sends
-- each lobby what it is owed; the network library calls back when a connection changes its state.
-- src/lobbyd/lobbyd.cxx runs one such server in a loop. src/session/sf4e__SessionClient.cxx says hello,
-- joins with the connection id it was given, and turns what the server sends into callbacks; it
-- compares the snapshots of the two games and ends a match whose games disagree. Before a match,
-- src/session/sf4e__Resolve.cxx asks the server for the public endpoint of the game's port. In the
-- match, src/sf4e/sf4e__Game__Battle__System.cxx advances the game by the frames that GGPO allows.
-- src/client/lobby_client.cxx is the window with the lobbies: it launches the game for a match and takes
-- the player back to the lobby when the game has ended.
--
-- The files.
-- Prelude and its children: lists, byte strings, decimals, Boolean tests, integers, 64-bit subtraction,
--   and `std::map` as an association list in the order of its keys (Prelude/Map).
-- Protocol/Types, Protocol/Messages, Protocol/Snapshots: src/session/sf4e__SessionProtocol.hxx and .cxx
--   and src/Dimps/Dimps__Wire.hxx. A message is what nlohmann::json makes of its bytes: `none` stands
--   for a payload that does not parse.
-- Registry: src/session/sf4e__LobbyRegistry.hxx and .cxx. Registry/Create: keys.
-- Server/State: src/session/sf4e__SessionServer.hxx, with Respond and the broadcasts. What the server
--   sends is the list `net`, in order.
-- Server/Seats: SeatInLobby, RemoveFromLobby, CreatePairLobby, HandleResults.
-- Server/Forensics: PairKey, NoteSeatDeath, NeedsRelayFallback.
-- Server/Join, Server/Lobbies, Server/Challenge, Server/Chat, Server/Battle: the handlers of the
--   message types in SessionServer::Step.
-- Server/Matchmaking: StepMatchmaking. Server/Relay: StepRelay, the NAT probe, and the `sscanf` call
--   (Relay/Scan). Server/Flush: the end of Step.
-- Server/Connection: OnSteamNetConnectionStatusChanged, AddConnection, Close.
-- Server/Step: Step as a whole. Server/Life: a server's life, a list of polls and callbacks.
-- Server/Sound: the invariant on the lobbies and its lemmas. The other children of these
--   modules hold the theorems on their parts; Server/Tests runs them.
-- Client/State, Client/Requests, Client/Connection, Client/Snapshots, Client/Receive, Client/Step:
--   src/session/sf4e__SessionClient.hxx and .cxx, in that order: the constructor and Send, the
--   requests, the connection, the detection of a desync, the messages received, and Step as a whole.
--   Client/Life: a client's life. Client/Rejection and Client/Agreement: theorems.
-- Session/Handshake and Session/Ready: a client and the server, where what one sends the other receives.
-- Net/Scan, Net/Resolve, Net/Attempts, Net/Probe: src/session/sf4e__Resolve.cxx.
-- Game/Frames, Game/Checksum, Game/Synctest, Game/States: src/sf4e/sf4e__Game__Battle__System.cxx: the
--   frames of a battle, the checksum of a state, the comparison of a sync test, the saved states.
-- App/State, App/Callbacks, App/Actions, App/Settings: src/client/lobby_client.cxx: its state and alerts,
--   the callbacks of its client, what it does at a button or at a frame, and the settings of the game.
--
-- How the code corresponds. A handler of the server takes the received packet, the parsed payload and
-- the sender's peer, and gives the next server. A `Lobby*` is the key under which the lobby stands, a
-- `Peer&` the connection. A `continue` is the branch that returns the server. An endpoint holds its
-- numbers in host order. An exception that nothing catches, and undefined behaviour, are entries of `net`,
-- after which nothing more happens: the use of the iterator in HandleResults when `push_back` has
-- reallocated the members, and a text that `dump` of the JSON library does not take.
-- The client is the Windows build's. Its calls of the network library and of its callbacks are the list
-- `calls`, in order; a callback that calls the client again is a further operation. An exception and an
-- end of the process are outcomes of a message, after which the poll goes no further.
-- In Game/Frames what GGPO answers is an input, and a rollback that GGPO runs is a step of its own.
--
-- Parameters, in `Env` of Server/Step: the draws of the two random generators; `std::sort`, which
-- leaves the order of equal times open; the JSON library's `dump` (`Json`: which messages it takes, and
-- the bytes that it makes of a forwarded message); and whether `push_back` reallocates. In `Libraries`
-- of Client/State and `Resolver` of Net/Resolve: what the network library and the system answer to a
-- call, and what `atoi` gives beyond the range of an int. The clock is an input: one reading for each
-- message and one for the rest of a step. What the sockets and the network library deliver is an input
-- too.
--
-- Bounds. The 64-bit clock difference wraps (`sub64`). The relay takes 64 datagrams a step and a probe
-- socket 8, as in the source; the client's probe makes as many attempts as the source's two loops. The
-- number of lobbies made is unbounded here; in the source it is an int. The print of a number uses fuel
-- one above it, which is more than its digits. The loop over the blocks of a checksum uses the number
-- of bytes as its fuel: each round but the last reads a byte or more. The sums of a checksum wrap at 32
-- bits.
--
-- Not modelled: Listen, logging, the JSON text itself and the network library, which only carry
-- bytes; the test of the client's Step that the network library has an interface; in the battle
-- system the players' inputs, the sound, and how a state is read from the game and written back; the
-- other hooks of src/sf4e and the layouts of src/Dimps, which call into the memory of a running
-- game; the overlay, the launcher and the sidecar; in the lobby client the drawing, the roster and
-- the settings files.
pub mod Prelude
pub mod Protocol
pub mod Registry
pub mod Server
pub mod App
pub mod Client
pub mod Game
pub mod Net
pub mod Session
