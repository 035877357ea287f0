-- ===== src/Examples/Chains.antt =====
-- Runs of packages/session/src/sender-chain.ts, crypto/src/bytes.ts and transport/src/frame.ts.
use tablefolk.Base.{
  ◌≡◌, ◌≢◌, ◌↔◌, ◌⊎◌, refl, true, List, [], ◌∷◌, some, ok, arith, replicate, length,
}
use tablefolk.Session.Bytes.{Bytes, bytes_equal, difference}
use tablefolk.Protocol.Value.{null}
use tablefolk.Session.Chain.{
  Envelope, Artifact, ChainHead, accepted, duplicate, rejected, equivocation, SenderChain,
  zero_hash, new_chain, get, classify, classify_free, ingest,
}
use tablefolk.Session.Chain.Links.{IsChain, IsNext, new_chain-IsChain, classify_iff}
use tablefolk.Session.Chain.Ingest.{ingest-IsChain, ingest_taken}
use tablefolk.Session.Bytes.{text_equal, bytes_to_hex}
use tablefolk.Session.Registry.{
  RosterEntry, Registry, SessionResult, of_chain, entry_for, ingest_session,
}
use tablefolk.Session.Registry.Keeps.{
  IsRegistry, ingested, ingest_session_known, ingest_session-IsRegistry,
}
use tablefolk.Frames.{
  DataFrame, frame_count, frames_from, split_data_frames, max_frame_payload, max_frame_count,
  max_frame_id,
}
use tablefolk.Frames.Reassembler.{Limits, new_reassembler, accept}
use tablefolk.Frames.Reassembler.Accounts.{Bounds, accept-IsBounded, new_reassembler-IsBounded}
use tablefolk.Frames.Split.{joined, Numbered, split_round_trip}

abbrev key : Bytes
key = replicate 32 7

-- The first envelope of a chain, and another one under its number.
abbrev envelope : Envelope
envelope = record {
  v = 1;
  game = 1 ∷ [];
  from = key;
  seq = 0;
  prev = zero_hash;
  round = 0;
  phase = "lobby";
  message_type = "JOIN";
  body = null;
  sig = [];
}

abbrev opened : Artifact
opened = record { envelope = envelope; canonical_bytes = 1 ∷ []; hash = 1 ∷ [] }

abbrev forked : Artifact
forked = record { envelope = envelope; canonical_bytes = 2 ∷ []; hash = 2 ∷ [] }

abbrev one_link : SenderChain
one_link = (ingest (new_chain key) opened).0

empty-IsChain : IsChain (new_chain key)
empty-IsChain = new_chain-IsChain key

opened-IsNext : IsNext (new_chain key) opened
unfolding new_chain bytes_equal difference
opened-IsNext = record { by_sender = refl; numbered = refl; linked = refl }

classify_iff_example :
    ((head : ChainHead) × (b : Artifact) × (classify (new_chain key) opened ≡ accepted head b))
    ↔ IsNext (new_chain key) opened
classify_iff_example = classify_iff (new_chain key) opened empty-IsChain

ingest-IsChain_example : IsChain one_link
ingest-IsChain_example = ingest-IsChain (new_chain key) opened empty-IsChain

opened_kept : get one_link 0 ≡ some opened
unfolding get ingest classify classify_free new_chain bytes_equal difference
opened_kept = refl

same_sender : bytes_equal key one_link.sender ≡ true
unfolding get ingest classify classify_free new_chain bytes_equal difference
same_sender = refl

ingest_taken_example :
    ((opened.hash ≡ forked.hash) × (ingest one_link forked ≡ (one_link, duplicate opened forked)))
    ⊎ ((opened.hash ≢ forked.hash)
        × (ingest one_link forked ≡ (one_link, rejected (equivocation opened) forked)))
ingest_taken_example =
    ingest_taken one_link opened forked (ingest-IsChain (new_chain key) opened empty-IsChain)
      opened_kept same_sender (omega arith, tt) (omega arith, tt)

-- A session of one chain.
abbrev player : RosterEntry
player = record { seat = 0; sender = key; chain = one_link }

abbrev session : Registry
session = record { game_id = 1 ∷ []; entries = player ∷ [] }

player_found : entry_for key session.entries ≡ some player
unfolding text_equal bytes_to_hex
player_found = refl

game_matches : bytes_equal (1 ∷ []) session.game_id ≡ true
unfolding bytes_equal difference
game_matches = refl

ingest_session_known_example :
    ingest_session session forked
    ≡ ok (ingested session forked player, of_chain (ingest one_link forked).1)
ingest_session_known_example = ingest_session_known session forked player game_matches player_found

ingest_session-IsRegistry_example :
    (next : Registry) × (s : SessionResult) × (ingest_session session forked ≡ ok (next, s))
    × IsRegistry next
ingest_session-IsRegistry_example =
    ingest_session-IsRegistry session forked
      (ingest-IsChain (new_chain key) opened empty-IsChain, tt)

one_accepted : length one_link.entries ≡ 1
unfolding ingest classify classify_free new_chain bytes_equal difference
one_accepted = refl

abbrev two_bytes : Bytes
two_bytes = 171 ∷ 5 ∷ []

abbrev other_bytes : Bytes
other_bytes = 171 ∷ 4 ∷ []

-- A payload of one frame.
abbrev payload : Bytes
payload = 9 ∷ 8 ∷ []

abbrev frames : List DataFrame
frames = record { id = 3; index = 0; count = 1; bytes = payload } ∷ []

payload_cut : split_data_frames payload 3 ≡ ok frames
unfolding split_data_frames frames_from frame_count max_frame_payload max_frame_count max_frame_id
payload_cut = refl

split_round_trip_example :
    (joined frames ≡ payload)
    × Numbered 3 (frame_count (length payload)) 0 frames
    × (length frames ≡ frame_count (length payload))
split_round_trip_example = split_round_trip payload 3 frames payload_cut

abbrev limits : Limits
limits = record {
  timeout_ms = 30000;
  max_message_bytes = 100;
  max_pending_bytes = 100;
  max_pending_groups = 2;
  max_frames_per_message = 2;
}

abbrev first_frame : DataFrame
first_frame = record { id = 3; index = 0; count = 2; bytes = payload }

accept-IsBounded_example : Bounds limits (accept limits new_reassembler first_frame 5)
accept-IsBounded_example =
    accept-IsBounded limits new_reassembler first_frame 5 (new_reassembler-IsBounded limits)
