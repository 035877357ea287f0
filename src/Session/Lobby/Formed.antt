-- ===== src/Session/Lobby/Formed.antt =====
-- packages/session/src/lobby-bootstrap.ts: the session that a lobby becomes has the lobby's chains.
use tablefolk.Base.{
  ℕ, suc, ◌+◌, ◌<◌, ◌≡◌, refl, sym, ◌∙◌, ap, subst, Bool, false, List, [], ◌∷◌, some, ok, arith,
  length, any, All, Bool-cases, Option-cases, inl, inr, >>=-eq-ok, ok-injective, ensure, not, leb,
  ◌&&◌,
}
use tablefolk.Session.Bytes.{Bytes, bytes_to_hex, text_equal}
use tablefolk.Session.Bytes.Laws.{text_equal→eq, text_equal_self}
use tablefolk.Protocol.Envelope.{Signing}
use tablefolk.Protocol.Lobby.{RosterBody}
use tablefolk.Session.Chain.{ChainHead, SenderChain, new_chain}
use tablefolk.Session.Chain.Links.{IsChain}
use tablefolk.Session.Registry.{
  RosterEntry, Registry, roster_size, invalid_key, duplicate_identity, has_key, entry_for,
  with_chain, new_entries, new_registry,
}
use tablefolk.Session.Lobby.{Lobby, key_get}
use tablefolk.Session.Lobby.Finals.{transfer_from, transfer_all, build_finalized_registry}
use tablefolk.Session.Lobby.Replayed.{Own, Transferred, entry_for-with_chain, transfer_from_lem}

abbrev Apart : Bytes → Bytes → Type 0
Apart s t = text_equal (bytes_to_hex s) (bytes_to_hex t) ≡ false

-- The entry of one player stays while the chain of another is replaced.
entry_for-with_chain_other :
    (s t : Bytes) (d : SenderChain) (entries : List RosterEntry)
    → Apart s t
    → entry_for t (with_chain s d entries) ≡ entry_for t entries
entry_for-with_chain_other s t d [] h = refl
entry_for-with_chain_other s t d (x ∷ entries) h = elim (Bool-cases (has_key s x)) [
  | inl here ↦
      let same : bytes_to_hex x.sender ≡ bytes_to_hex s =
        text_equal→eq (bytes_to_hex x.sender) (bytes_to_hex s) here in
      let not_it : has_key t x ≡ false = rw same h in rw (here, not_it) refl
  | inr later ↦ elim (Bool-cases (has_key t x)) [
    | inl it ↦ rw (later, it) refl
    | inr not_it ↦ rw (later, not_it) (entry_for-with_chain_other s t d entries h)
  ]
]

-- Players of a roster whose keys differ.
abbrev AllApart : List Bytes → Type 0
AllApart [] = Unit
AllApart (s ∷ seats) = All (Apart s) seats × AllApart seats

-- A player with an empty chain in the session.
abbrev Fresh : List RosterEntry → Bytes → Type 0
Fresh entries s = (x : RosterEntry) × (entry_for s entries ≡ some x) × (x.chain ≡ new_chain s)

abbrev Unseen : List RosterEntry → Bytes → Type 0
Unseen before s = any (has_key s) before ≡ false

Fresh-later :
    (x : RosterEntry) (entries before : List RosterEntry) (seats : List Bytes)
    → All (Unseen (x ∷ before)) seats
    → All (Fresh entries) seats
    → All (Fresh (x ∷ entries)) seats
Fresh-later x entries before [] h k = tt
Fresh-later x entries before (t ∷ seats) h ((y, found, fresh), k) =
    elim (Bool-cases (has_key t x)) [
      | inl it ↦ ground arith
      | inr not_it ↦ ((y, rw not_it found, fresh), Fresh-later x entries before seats h.1 k)
    ]

Apart-from :
    (x : RosterEntry) (before : List RosterEntry) (seats : List Bytes)
    → All (Unseen (x ∷ before)) seats
    → All (Apart x.sender) seats × All (Unseen before) seats
Apart-from x before [] h = (tt, tt)
Apart-from x before (t ∷ seats) h =
    let (apart, unseen) = Apart-from x before seats h.1 in
    elim (Bool-cases (has_key t x)) [
      | inl it ↦ ground arith
      | inr not_it ↦ ((not_it, apart), (rw not_it at h.0, unseen))
    ]

-- What building the entries of a roster says of it.
new_entries_ok :
    (valid_key : Bytes → Bool) (seat : ℕ) (before entries : List RosterEntry) (seats : List Bytes)
    → new_entries valid_key seat before seats ≡ ok entries
    → All (Unseen before) seats × AllApart seats × All (Fresh entries) seats
unfolding new_entries
new_entries_ok valid_key seat before entries [] h = (tt, tt, tt)
new_entries_ok valid_key seat before entries (s ∷ seats) h =
    let entry : RosterEntry = record { seat = seat; sender = s; chain = new_chain s } in
    let (u, valid, h1) = >>=-eq-ok (ensure (valid_key s) (invalid_key seat)) _ h in
    let (v, unseen, h2) =
      >>=-eq-ok (ensure (not (any (has_key s) before)) (duplicate_identity seat)) _ h1 in
    let (rest, made, h3) =
      >>=-eq-ok (new_entries valid_key (suc seat) (entry ∷ before) seats) _ h2 in
    let (later_unseen, apart, fresh) =
      new_entries_ok valid_key (suc seat) (entry ∷ before) rest seats made in
    let (first_apart, rest_unseen) = Apart-from entry before seats later_unseen in
    let mine : Fresh (entry ∷ rest) s = (entry, rw (text_equal_self (bytes_to_hex s)) refl, refl) in
    (
      (ground arith, rest_unseen),
      (first_apart, apart),
      subst (λ l. All (Fresh l) (s ∷ seats)) (ok-injective (entry ∷ rest) entries h3)
          (mine, Fresh-later entry rest before seats later_unseen fresh),
    )

-- Replacing the chain of one player leaves those of the others fresh.
Fresh-with_chain :
    (s : Bytes) (d : SenderChain) (entries : List RosterEntry) (seats : List Bytes)
    → All (Apart s) seats
    → All (Fresh entries) seats
    → All (Fresh (with_chain s d entries)) seats
Fresh-with_chain s d entries [] h k = tt
Fresh-with_chain s d entries (t ∷ seats) h ((x, found, fresh), k) = (
  (x, entry_for-with_chain_other s t d entries h.0 ∙ found, fresh),
  Fresh-with_chain s d entries seats h.1 k,
)

-- A player has a chain in the lobby: it is gapless, not empty, and of the player's envelopes in the
-- lobby's game.
abbrev pub Gathered : Bytes → List (Bytes × SenderChain) → Bytes → Type 0
Gathered game chains s =
    (c : SenderChain) × (key_get s chains ≡ some c)
    × (c.sender ≡ s)
    × IsChain c
    × (0 < length c.entries)
    × All (Own game s) c.entries

-- The player's chain in the session has the envelopes of the one in the lobby.
abbrev pub Carried : List RosterEntry → List (Bytes × SenderChain) → Bytes → Type 0
Carried entries chains s =
    (x : RosterEntry) × (c : SenderChain) × (entry_for s entries ≡ some x)
    × (key_get s chains ≡ some c)
    × (x.chain.entries ≡ c.entries)

Apart-sym : (s t : Bytes) → Apart s t → Apart t s
Apart-sym s t h = elim (Bool-cases (text_equal (bytes_to_hex t) (bytes_to_hex s))) [
  | inr apart ↦ apart
  | inl equal ↦
      let same = text_equal→eq (bytes_to_hex t) (bytes_to_hex s) equal in
      let self : text_equal (bytes_to_hex s) (bytes_to_hex s) ≡ false =
        subst (λ u. text_equal (bytes_to_hex s) u ≡ false) same h in
      absurd (cc (self, text_equal_self (bytes_to_hex s)))
]

-- The entries after all the chains were put in: each player's chain is carried over, and what belongs
-- to others is as it was.
abbrev Moved : Registry → List (Bytes × SenderChain) → List Bytes → List RosterEntry → Type 0
Moved r chains seats entries =
    (transfer_all r chains seats ≡ ok (record r { entries = entries }))
    × All (Carried entries chains) seats
    × ((t : Bytes) → All (Apart t) seats → entry_for t entries ≡ entry_for t r.entries)

-- The number of the head counts the envelopes.
head_counts :
    (c : SenderChain)
    → IsChain c
    → 0 < length c.entries
    → (head : ChainHead) × (c.head ≡ some head) × (head.seq + 1 ≡ length c.entries)
head_counts c h filled = elim (Option-cases c.head) [
  | inl empty ↦ absurd (omega (arith, rw empty at h.head_seq))
  | inr (head, there) ↦ (head, there, rw there at h.head_seq)
]

-- The loop over the roster goes on from the session that one chain was put into.
transfer_all_step :
    (r next : Registry) (chains : List (Bytes × SenderChain)) (s : Bytes) (seats : List Bytes)
    (c : SenderChain) (head : ChainHead)
    → key_get s chains ≡ some c
    → c.head ≡ some head
    → transfer_from (head.seq + 1) r c 0 ≡ ok next
    → transfer_all r chains (s ∷ seats) ≡ transfer_all next chains seats
unfolding transfer_all
transfer_all_step r next chains s seats c head there headed moved = simp (there, headed, moved)

transfer_all_lem :
    (chains : List (Bytes × SenderChain)) (seats : List Bytes) (r : Registry)
    → AllApart seats
    → All (Fresh r.entries) seats
    → All (Gathered r.game_id chains) seats
    → (entries : List RosterEntry) × Moved r chains seats entries
unfolding transfer_all Transferred
transfer_all_lem chains [] r apart fresh gathered = (r.entries, (refl, tt, λ t h. refl))
transfer_all_lem chains (s ∷ seats) r apart fresh gathered =
    let (c, there, owned, chained, filled, own) = gathered.0 in
    let (head, headed, counted) = head_counts c chained filled in
    let (x, found, empty) = fresh.0 in
    let (d, run, same, sound) =
      transfer_from_lem c chained r x (rw owned found) (rw owned empty) (rw owned own) in
    let moved_one : transfer_from (head.seq + 1) r c 0
        ≡ ok (record r { entries = with_chain s d r.entries }) =
      ap (λ n. transfer_from n r c 0) counted
      ∙ run
      ∙ ap (λ z. ok (record r { entries = with_chain z d r.entries })) owned in
    let next : Registry = record r { entries = with_chain s d r.entries } in
    let (entries, (moved, carried, others)) =
      transfer_all_lem chains seats next apart.1
        (Fresh-with_chain s d r.entries seats apart.0 fresh.1) gathered.1 in
    (
      entries,
      (
        transfer_all_step r next chains s seats c head there headed moved_one ∙ moved,
        (
          (
            record x { chain = d },
            c,
            others s apart.0 ∙ entry_for-with_chain s d r.entries x found,
            there,
            same,
          ),
          carried,
        ),
        λ t h. others t h.1 ∙ entry_for-with_chain_other s t d r.entries (Apart-sym t s h.0),
      ),
    )

module _ (signing : Signing) where
  build_from :
      (lobby : Lobby) (roster : RosterBody) (fresh : Registry)
      → lobby.roster ≡ some roster
      → new_registry signing.is_acceptable lobby.context.game_id roster.seats ≡ ok fresh
      → build_finalized_registry signing lobby ≡ transfer_all fresh lobby.chains roster.seats
  unfolding build_finalized_registry
  build_from lobby roster fresh in_force formed = simp (in_force, formed)

  -- When the lobby's roster can form a session, and the lobby has for each of its players a gapless
  -- chain that is not empty, of envelopes by that player in the lobby's game, then building the
  -- session throws nothing: it is of the lobby's game, and each player's chain in it has the
  -- envelopes of the player's chain in the lobby.
  pub build_finalized_registry_lem :
      (lobby : Lobby) (roster : RosterBody) (fresh : Registry)
      → lobby.roster ≡ some roster
      → new_registry signing.is_acceptable lobby.context.game_id roster.seats ≡ ok fresh
      → All (Gathered lobby.context.game_id lobby.chains) roster.seats
      → (next : Registry) × (build_finalized_registry signing lobby ≡ ok next)
        × (next.game_id ≡ lobby.context.game_id)
        × All (Carried next.entries lobby.chains) roster.seats
  unfolding build_finalized_registry new_registry
  build_finalized_registry_lem lobby roster fresh in_force formed gathered =
      let (u, sized, h1) =
        >>=-eq-ok (ensure (leb 3 (length roster.seats) && leb (length roster.seats) 8) roster_size)
          _ formed in
      let (entries, made, h2) =
        >>=-eq-ok (new_entries signing.is_acceptable 0 [] roster.seats) _ h1 in
      let (unseen, apart, all_fresh) =
        new_entries_ok signing.is_acceptable 0 [] entries roster.seats made in
      let start : Registry = record { game_id = lobby.context.game_id; entries = entries } in
      let (after, (moved, carried, others)) =
        transfer_all_lem lobby.chains roster.seats start apart all_fresh gathered in
      (
        record start { entries = after },
        build_from lobby roster fresh in_force formed
            ∙ ap (λ f. transfer_all f lobby.chains roster.seats) (sym (ok-injective start fresh h2))
            ∙ moved,
        refl,
        carried,
      )
