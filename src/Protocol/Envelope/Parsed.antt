-- ===== src/Protocol/Envelope/Parsed.antt =====
-- packages/protocol/src/envelope.ts: what is known of an envelope that was parsed, and what is parsed.
use tablefolk.Base.{
  ℕ, ◌≡◌, refl, ◌∙◌, ap, subst, true, List, [], ◌∷◌, String, Option, none, some, Result, ok, err,
  arith, length, leb, not, ◌==◌, ensure, >>=-eq-ok, >>-eq-ok, ensure-eq-ok, ok-injective,
}
use text.Mathlib.Text.{◌==◌ as str_eq}
use tablefolk.Session.Bytes.{Bytes}
use tablefolk.Protocol.Value.{
  Value, Fields, integer, string, bytes, get_field, EncodingError, max_safe_integer,
}
use tablefolk.Protocol.Canonical.{encode_canonical, decode_canonical}
use tablefolk.Protocol.Canonical.Unique.{decode-encode_canonical}
use tablefolk.Protocol.Canonical.Lookups.{Holds}
use tablefolk.Protocol.Envelope.{
  UnsignedEnvelope, Signing, unsupported_version, malformed_envelope, envelope_version,
  require_unsigned_integer, require_text, is_message_type, require_message_type, require_bytes,
  coded,
}
use tablefolk.Protocol.Envelope.Verify.{snapshot_value, parse_fields}

pub require_bytes_ok :
    (size : ℕ) (o : Option Value) (b : Bytes)
    → require_bytes size o ≡ ok b
    → (o ≡ some (bytes b)) × (length b ≡ size)
unfolding require_bytes
require_bytes_ok size (some (bytes c)) b h = ground arith
require_bytes_ok size o b h = cc

require_unsigned_integer_ok :
    (o : Option Value) (n : ℕ)
    → require_unsigned_integer o ≡ ok n
    → (o ≡ some (integer n)) × (leb n max_safe_integer ≡ true)
unfolding require_unsigned_integer
require_unsigned_integer_ok (some (integer m)) n h = ground arith
require_unsigned_integer_ok o n h = cc

require_text_ok :
    (o : Option Value) (s : String)
    → require_text o ≡ ok s
    → (o ≡ some (string s)) × (not (str_eq s "") ≡ true)
unfolding require_text
require_text_ok (some (string t)) s h = ground arith
require_text_ok o s h = cc

require_message_type_ok :
    (o : Option Value) (s : String)
    → require_message_type o ≡ ok s
    → (o ≡ some (string s)) × (is_message_type s ≡ true)
unfolding require_message_type
require_message_type_ok (some (string t)) s h =
    let (known, e) = >>-eq-ok (ensure (is_message_type t) malformed_envelope) (ok t) h in
    let known' = ensure-eq-ok (is_message_type t) malformed_envelope known in
    let same : t ≡ s = cc e in rw (← same) (refl, known')
require_message_type_ok o s h = cc

pub coded-eq-ok {ℓ} : {A : Type ℓ} (r : Result EncodingError A) (a : A) → coded r ≡ ok a → r ≡ ok a
coded-eq-ok (ok b) a h = cc
coded-eq-ok (err e) a h = cc

one_safe : leb 1 max_safe_integer ≡ true
unfolding max_safe_integer
one_safe = refl

-- The entries of an envelope before its body.
abbrev pub entries : UnsignedEnvelope → List (String × Value)
entries e =
    ("v", integer e.v)
    ∷ ("game", bytes e.game)
    ∷ ("from", bytes e.from)
    ∷ ("seq", integer e.seq)
    ∷ ("prev", bytes e.prev)
    ∷ ("round", integer e.round)
    ∷ ("phase", string e.phase)
    ∷ ("type", string e.message_type)
    ∷ []

module _ (signing : Signing) where
  -- What `parseUnsignedEnvelope` lets pass.
  pub record IsParsed (e : UnsignedEnvelope) : Type 0 where
    pub version : e.v ≡ 1
    pub game_size : length e.game ≡ 16
    pub from_size : length e.from ≡ 32
    pub seq_safe : leb e.seq max_safe_integer ≡ true
    pub prev_size : length e.prev ≡ 32
    pub round_safe : leb e.round max_safe_integer ≡ true
    pub phase_filled : not (str_eq e.phase "") ≡ true
    pub type_known : is_message_type e.message_type ≡ true
    pub body_settled : snapshot_value signing (some e.body) ≡ ok e.body

  -- A copy is a decoding of the encoding.
  pub snapshot_ok :
      (o : Option Value) (w : Value)
      → snapshot_value signing o ≡ ok w
      → (v : Value) × (b : Bytes) × (o ≡ some v)
        × (encode_canonical signing.hashing.cbor v ≡ ok b)
        × (decode_canonical signing.hashing.cbor b ≡ ok w)
  unfolding snapshot_value
  snapshot_ok none w h = cc
  snapshot_ok (some v) w h =
      let (b, e, h1) = >>=-eq-ok (coded (encode_canonical signing.hashing.cbor v)) _ h in
      (v, b, refl, coded-eq-ok _ b e, coded-eq-ok _ w h1)

  pub snapshot_given :
      (v w : Value) (b : Bytes)
      → encode_canonical signing.hashing.cbor v ≡ ok b
      → decode_canonical signing.hashing.cbor b ≡ ok w
      → snapshot_value signing (some v) ≡ ok w
  unfolding snapshot_value
  snapshot_given v w b e d = rw (e, d) refl

  -- A copy of a copy is the copy.
  pub snapshot_settled :
      (o : Option Value) (w : Value)
      → snapshot_value signing o ≡ ok w
      → snapshot_value signing (some w) ≡ ok w
  snapshot_settled o w h =
      let (v, b, o_is, e, d) = snapshot_ok o w h in
      snapshot_given w w b (decode-encode_canonical signing.hashing.cbor b w d) d

  pub parse_fields_given :
      (fs : Fields) (e : UnsignedEnvelope)
      → IsParsed e
      → Holds fs (entries e)
      → snapshot_value signing (get_field "body" fs) ≡ ok e.body
      → parse_fields signing fs ≡ ok e
  unfolding parse_fields require_unsigned_integer require_bytes require_text require_message_type
  parse_fields_given fs e p h body =
      let version = h.0 in
      let game = h.1.0 in
      let from = h.1.1.0 in
      let seq = h.1.1.1.0 in
      let prev = h.1.1.1.1.0 in
      let round = h.1.1.1.1.1.0 in
      let phase = h.1.1.1.1.1.1.0 in
      let kind = h.1.1.1.1.1.1.1.0 in
      let one : (e.v == envelope_version) ≡ true = rw p.version refl in
      let safe : leb e.v max_safe_integer ≡ true = rw p.version one_safe in
      let wide : (length e.game == 16) ≡ true = rw p.game_size refl in
      let key : (length e.from == 32) ≡ true = rw p.from_size refl in
      let link : (length e.prev == 32) ≡ true = rw p.prev_size refl in
      rw
        (
          version,
          safe,
          one,
          game,
          wide,
          from,
          key,
          seq,
          p.seq_safe,
          prev,
          link,
          round,
          p.round_safe,
          phase,
          p.phase_filled,
          kind,
          p.type_known,
          body,
          ← p.version,
        )
        refl

  abbrev made : Bytes → Bytes → ℕ → Bytes → ℕ → String → String → Value → UnsignedEnvelope
  made game from seq prev round phase kind body = record {
    v = envelope_version;
    game = game;
    from = from;
    seq = seq;
    prev = prev;
    round = round;
    phase = phase;
    message_type = kind;
    body = body;
  }

  abbrev pub Found : Fields → UnsignedEnvelope → Type 0
  Found fs e =
      IsParsed e × Holds fs (entries e) × (snapshot_value signing (get_field "body" fs) ≡ ok e.body)

  pub parse_fields_ok :
      (fs : Fields) (e : UnsignedEnvelope) → parse_fields signing fs ≡ ok e → Found fs e
  unfolding parse_fields
  parse_fields_ok fs e h =
      let (v, hv, h1) = >>=-eq-ok (require_unsigned_integer (get_field "v" fs)) _ h in
      let (one, h2) = >>-eq-ok (ensure (v == envelope_version) unsupported_version) _ h1 in
      let (game, hg, h3) = >>=-eq-ok (require_bytes 16 (get_field "game" fs)) _ h2 in
      let (from, hf, h4) = >>=-eq-ok (require_bytes 32 (get_field "from" fs)) _ h3 in
      let (seq, hs, h5) = >>=-eq-ok (require_unsigned_integer (get_field "seq" fs)) _ h4 in
      let (prev, hp, h6) = >>=-eq-ok (require_bytes 32 (get_field "prev" fs)) _ h5 in
      let (round, hr, h7) = >>=-eq-ok (require_unsigned_integer (get_field "round" fs)) _ h6 in
      let (phase, ha, h8) = >>=-eq-ok (require_text (get_field "phase" fs)) _ h7 in
      let (kind, hk, h9) = >>=-eq-ok (require_message_type (get_field "type" fs)) _ h8 in
      let (body, hb, h10) = >>=-eq-ok (snapshot_value signing (get_field "body" fs)) _ h9 in
      let one' = ensure-eq-ok (v == envelope_version) unsupported_version one in
      let (v_is, v_safe) = require_unsigned_integer_ok _ v hv in
      let (game_is, game_size) = require_bytes_ok 16 _ game hg in
      let (from_is, from_size) = require_bytes_ok 32 _ from hf in
      let (seq_is, seq_safe) = require_unsigned_integer_ok _ seq hs in
      let (prev_is, prev_size) = require_bytes_ok 32 _ prev hp in
      let (round_is, round_safe) = require_unsigned_integer_ok _ round hr in
      let (phase_is, phase_filled) = require_text_ok _ phase ha in
      let (kind_is, kind_known) = require_message_type_ok _ kind hk in
      let v_one : v ≡ 1 = ground arith in
      let parsed : IsParsed (made game from seq prev round phase kind body) = record {
        version = refl;
        game_size = game_size;
        from_size = from_size;
        seq_safe = seq_safe;
        prev_size = prev_size;
        round_safe = round_safe;
        phase_filled = phase_filled;
        type_known = kind_known;
        body_settled = snapshot_settled _ body hb;
      } in
      let there : Holds fs (entries (made game from seq prev round phase kind body)) = (
        v_is ∙ ap (λ n. some (integer n)) v_one,
        (game_is, (from_is, (seq_is, (prev_is, (round_is, (phase_is, (kind_is, tt))))))),
      ) in
      let same : made game from seq prev round phase kind body ≡ e =
        ok-injective (made game from seq prev round phase kind body) e h10 in
      subst (Found fs) same (parsed, there, hb)
