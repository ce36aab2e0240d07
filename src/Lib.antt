-- ===== src/Lib.antt =====
-- The duel server (diangogav/EDOpro-server-ts): rooms where two sides play a match of Yu-Gi-Oh!
-- duels under a banlist, for EDOPro and for YGOPro clients.
--
-- Parts and files (paths from the repository's root):
-- - RoomMatch: src/shared/room/domain/match/domain/Match.ts, the score of a best-of match and the
--   games of each player.
-- - BanList: src/shared/ban-list/BanList.ts and its two subclasses, src/edopro/ban-list/domain and
--   src/ygopro/ban-list/domain: what a banlist holds and how lines enter it.
-- - Deck: src/shared/deck/domain, src/shared/card/domain and src/ygopro/deck/domain: the chain of
--   handlers that checks a deck for EDOPro (Deck.validate) and for YGOPro rooms
--   (YGOProDeckValidator), and the check of a siding.
-- - Matchmaking: src/ygopro/matchmaking. Policies are the pairing policies (FifoPairingPolicy,
--   BotFallbackPolicy, CompositePairingPolicy); Store is InMemoryPoolStore; Pending is
--   PendingMatches; Pool is MatchmakingPool, its Answers the calls of participants and its Tick the
--   phases of a tick. Protocol is protocol/matchmaking-protocol.ts, the bodies and frames of
--   matchmaking.
-- - ReservedDuel: src/shared/reserved-duel/domain: the data of a reservation, DeckLock.ts, and
--   ReservedDuelSession.ts as a state with the log of the calls of its recorder.
-- - Messages: src/shared/messages/MessageProcessor.ts and MessageEmitter.ts, which cut what a socket
--   receives into messages.
-- - RoomRules: src/ygopro/room/domain. Modes, Formats and Priority are the three tables of
--   RuleMappings.ts, Tokens its recognized tokens and card pools with isPairingJoin.ts of
--   src/ygopro/room/application/join-strategies and reservedRoomCommand.ts, Room is YGOProRoom.create
--   and src/shared/room/admission/domain/RoomLeague.ts.
-- - Rooms: a YGOPro room, src/shared/room/domain/YgoRoom.ts and
--   src/ygopro/room/domain/YGOProRoom.ts, with its clients (Clients, src/shared/client/domain).
--   Seats and Duels are its seats and its duel, Lobby its operations on clients, Gates the
--   reservations and src/shared/room/admission, Waiting and Phases the handlers of the states in
--   src/ygopro/room/domain/states, Reconnect the JOIN of a later phase, Endings the ends of duels and
--   matches, Leaving YGOProDisconnectPolicy.ts of src/ygopro/room/application. Steps puts them
--   together as the events of a room.
-- - RankGroups: src/shared/rank/domain/RankGroupResolution.ts and RankGroupConfig.ts, and
--   src/shared/rank/application/RankGroupResolver.ts: the group ranks that a banlist feeds.
-- - Ledger: src/shared/stats/points-ledger/domain, planLedgerBackfill.ts and its child FanOut,
--   fanOutAchievementPoints.ts: the points of past matches and achievements, by rank.
-- - Prelude: shared names, lists, equality, the built-in Map as a list of entries in insertion order,
--   and tallies of lists.
--
-- A room asks Deck whether a player's deck passes the banlist of the room, and counts the duels
-- between the players in RoomMatch. The pool keeps who waits in a Store, asks a policy whom to
-- pair, and holds the matches that wait for an answer in Pending; an abandoned match puts the
-- others back in the pool. A room built from a reservation holds a ReservedDuel session, and asks
-- it whether a deck honours its lock. The options of a join command become the settings of a room
-- by RoomRules. A room in Rooms holds the Match of RoomMatch, the decks of Deck, the session of
-- ReservedDuel and the league and settings of RoomRules.
--
-- Each function has the source's name, in this language's spelling. A call that changes state
-- takes the state and returns it; what it sends outside is a list of effects or calls in the
-- state. Exceptions are values of the result. Times and identifiers drawn at random are arguments.
--
-- MatchmakingPool.add and abandon call each other. They run on fuel, as much as there are pending
-- matches, which is enough because each abandon deletes one; without it the result is out_of_fuel.
-- The emitter of messages has as much fuel as its buffer has bytes, and each message takes two at
-- least. A number in an option is a natural number, without the rounding of numbers of 2 ^ 53 and
-- more.
--
-- The events of a room in Rooms run one after another, each handled in the state of the room that it
-- takes effect in. The source comes close to that, not all the way: JOIN, TO_OBSERVER, TO_DUEL, the
-- decks and a leave take the room's mutex, which a JOIN holds for as long as its admission takes, but
-- TRY_START does not. In the source a TO_OBSERVER, a TO_DUEL or a leave that was sent in the lobby and
-- waits behind a JOIN may thus take effect after the start, without another test of the state; such
-- late effects are not events of the model. The building of a deck is an argument of its event.
--
-- Not modelled: EDOPro rooms, the engine and its timers, what rooms send, reconnection tokens,
-- ratings, the storage of ranks, achievements and replays, the timer that calls tick, and all
-- input and output. The card database, the UTF-8 codec, lower case and trimming of texts, the
-- clock, the random ids, whether a connection is alive and the handler of a match are outside and
-- are arguments or effects.
pub mod Prelude
pub mod RoomMatch
pub mod BanList
pub mod Deck
pub mod Matchmaking
pub mod ReservedDuel
pub mod Messages
pub mod RoomRules
pub mod RankGroups
pub mod Ledger
pub mod Rooms
