-- ===== src/Examples/Formed.antt =====
-- A run of `#buildFinalizedRegistry` of packages/session/src/lobby-bootstrap.ts: three players with one
-- or two envelopes each.
use tablefolk.Base.{ℕ, ◌≡◌, refl, [], ◌∷◌, some, ok, All, arith}
use tablefolk.Session.Bytes.{Bytes, bytes_equal, difference, bytes_to_hex, text_equal}
use tablefolk.Protocol.Value.{end, dict}
use tablefolk.Session.Chain.{zero_hash, SenderChain, new_chain, classify, classify_free, ingest}
use tablefolk.Session.Chain.Links.{new_chain-IsChain}
use tablefolk.Session.Chain.Ingest.{ingest-IsChain}
use tablefolk.Session.Registry.{Registry, RosterEntry, new_entries, new_registry}
use tablefolk.Protocol.Envelope.{Artifact}
use tablefolk.Session.Lobby.{Lobby}
use tablefolk.Session.Lobby.Finals.{build_finalized_registry}
use tablefolk.Session.Lobby.Formed.{Gathered, Carried, build_finalized_registry_lem}
use tablefolk.Examples.Lobbies.{
  plain, host, guest, third, table_game, start, sent, roster, ready, roster_body, join,
}

abbrev third_join : Artifact
third_join = sent third 0 zero_hash "JOIN" (dict end) 14

abbrev host_chain : SenderChain
host_chain = (ingest (ingest (new_chain host) roster).0 ready).0

abbrev gathering : Lobby
gathering = record start {
  chains =
      (host, host_chain)
      ∷ (guest, (ingest (new_chain guest) join).0)
      ∷ (third, (ingest (new_chain third) third_join).0)
      ∷ [];
  roster = some roster_body;
}

abbrev seat_entry : ℕ → Bytes → RosterEntry
seat_entry seat sender = record { seat = seat; sender = sender; chain = new_chain sender }

abbrev fresh : Registry
fresh = record {
  game_id = table_game;
  entries = seat_entry 0 host ∷ seat_entry 1 guest ∷ seat_entry 2 third ∷ [];
}

fresh_made : new_registry plain.is_acceptable table_game roster_body.seats ≡ ok fresh
unfolding new_registry new_entries bytes_to_hex text_equal
fresh_made = refl

gathering-Gathered : All (Gathered table_game gathering.chains) roster_body.seats
unfolding ingest classify classify_free new_chain bytes_equal difference bytes_to_hex text_equal
gathering-Gathered =
    let of_host : Gathered table_game gathering.chains host = (
      host_chain,
      refl,
      refl,
      ingest-IsChain (ingest (new_chain host) roster).0 ready
          (ingest-IsChain (new_chain host) roster (new_chain-IsChain host)),
      omega arith,
      ((refl, refl), ((refl, refl), tt)),
    ) in
    let of_guest : Gathered table_game gathering.chains guest = (
      (ingest (new_chain guest) join).0,
      refl,
      refl,
      ingest-IsChain (new_chain guest) join (new_chain-IsChain guest),
      omega arith,
      ((refl, refl), tt),
    ) in
    let of_third : Gathered table_game gathering.chains third = (
      (ingest (new_chain third) third_join).0,
      refl,
      refl,
      ingest-IsChain (new_chain third) third_join (new_chain-IsChain third),
      omega arith,
      ((refl, refl), tt),
    ) in
    (of_host, (of_guest, (of_third, tt)))

build_finalized_registry_lem_example :
    (next : Registry) × (build_finalized_registry plain gathering ≡ ok next)
    × (next.game_id ≡ table_game)
    × All (Carried next.entries gathering.chains) roster_body.seats
build_finalized_registry_lem_example =
    build_finalized_registry_lem plain gathering roster_body fresh refl fresh_made
      gathering-Gathered
