-- ===== src/Net/SecureUdp/Safety.antt =====
-- ts/net/secure-udp.ts: a handshake that does not complete touches no session.
use toki.Base.{
  ℕ, ◌+◌, ◌≡◌, refl, Bool, true, false, Option, none, some, List, [], ◌∷◌, ◌++◌, String, eq_iff,
  arith, leb, Bool-cases, Option-cases, inl, inr, sym, ap, ◌∙◌,
}
use toki.JsMap.{JsMap, get, set}
use toki.JsMap.Laws.{IsMap, get-set, get-delete}
use toki.JsMap.Count.{find_key, get-find_key}
use toki.Net.Cipher.{Bytes}
use toki.Net.Noise.Handshake.{
  TransportPair, HandshakeState, Step, done, thrown, write_message, read_message,
}
use toki.Net.Noise.Symmetric.{Suite, KeyPair}
use toki.Net.Session.{NoiseSession}
use toki.Net.SecureUdp.Table.{Counted}
use toki.Net.SecureUdp.Peers.{Held, admit-Counted}
use toki.Net.SecureUdp.Runs.{step-Counted, seen}
use toki.Net.SecureUdp.{
  Server, Peer, Options, Effect, sent, joined, message, Event, datagram, run, step, handshake,
  half_open, evict_oldest_pending, drop_pending, make_room, responder, put, admit, admit_known,
  abandon, abandon_with, on_written, on_read, on_handshake, on_datagram,
}

abbrev pub session_of : Option Peer → Option NoiseSession
session_of none = none
session_of (some p) = p.session

-- The session that the table holds for a key.
abbrev pub session_at : String → Server → Option NoiseSession
session_at key s = session_of (get key s.peers)

-- No effect is a call of `onSession`.
unfoldable pub nobody_joined : List Effect → Bool
nobody_joined [] = true
nobody_joined (joined key remote ∷ es) = false
nobody_joined (sent key bytes ∷ es) = nobody_joined es
nobody_joined (message key bytes ∷ es) = nobody_joined es

nobody_joined-append :
    (es fs : List Effect)
    → nobody_joined (es ++ fs) ≡ true
    → (nobody_joined es ≡ true) × (nobody_joined fs ≡ true)
unfolding nobody_joined
nobody_joined-append [] fs h = (refl, h)
nobody_joined-append (joined key remote ∷ es) fs h = absurd (ground arith)
nobody_joined-append (sent key bytes ∷ es) fs h = nobody_joined-append es fs h
nobody_joined-append (message key bytes ∷ es) fs h = nobody_joined-append es fs h

module _ (suite : Suite) (options : Options) (j : String) where
  session_at-evict_oldest_pending :
      (s : Server) → IsMap s.peers → session_at j (evict_oldest_pending s) ≡ session_at j s
  unfolding evict_oldest_pending drop_pending half_open
  session_at-evict_oldest_pending s distinct =
      elim (Option-cases (find_key (λ k p. half_open p) s.peers)) [
        | inl nobody ↦ rw nobody refl
        | inr (k, found) ↦
            let (p, there, only) = get-find_key (λ k p. half_open p) s.peers k distinct found in
            rw found (ground (arith, get-delete k j s.peers distinct, eq_iff k j))
      ]

  session_at-make_room :
      (s : Server) → IsMap s.peers → session_at j (make_room suite options s) ≡ session_at j s
  unfolding make_room
  session_at-make_room s distinct =
      elim (Bool-cases (leb (options.max_pending + s.owed) s.pending)) [
        | inl full ↦ rw full (session_at-evict_oldest_pending s distinct)
        | inr room ↦ rw room refl
      ]

module _ (suite : Suite) (options : Options) (j : String) where
  -- An entry replaced by one with the same session, or a new one with none.
  session_at-set :
      (key : String) (p : Peer) (m : JsMap Peer)
      → session_of (get key m) ≡ p.session
      → session_of (get j (set key p m)) ≡ session_of (get j m)
  session_at-set key p m same = ground (arith, get-set key j p m, eq_iff key j)

  session_at-abandon_with :
      (key : String) (p : Peer) (o : Option NoiseSession) (s : Server)
      → session_at key s ≡ o
      → p.session ≡ o
      → IsMap s.peers
      → session_at j (abandon_with suite options key p o s) ≡ session_at j s
  unfolding abandon_with
  session_at-abandon_with key p none s here it distinct =
      ground (arith, get-delete key j s.peers distinct, eq_iff key j)
  session_at-abandon_with key p (some live) s here it distinct =
      session_at-set key (record p { hs = none }) s.peers (here ∙ sym it)

  held_session :
      (key : String) (p : Peer) (s : Server) → Held key p s → session_at key s ≡ p.session
  held_session key p s held = rw (held.here) held.same

  session_at-abandon :
      (key : String) (p : Peer) (s : Server)
      → Held key p s
      → IsMap s.peers
      → session_at j (abandon suite options key p s) ≡ session_at j s
  unfolding abandon
  session_at-abandon key p s held distinct =
      session_at-abandon_with key p p.session s (held_session key p s held) refl distinct

  session_at-on_written :
      (key : String) (p : Peer) (out : Step (Bytes × Option TransportPair)) (s : Server)
      → Held key p s
      → IsMap s.peers
      → session_at j (on_written suite options key p out s).0 ≡ session_at j s
  unfolding on_written put
  session_at-on_written key p (hs, thrown x) s held distinct =
      session_at-abandon key p s held distinct
  session_at-on_written key p (hs, done (msg, pair)) s held distinct =
      session_at-set key (record p { hs = some hs }) s.peers (held_session key p s held)

  session_at-admit_known :
      (key : String) (p : Peer) (o : Option HandshakeState) (s : Server)
      → get key s.peers ≡ some p
      → IsMap s.peers
      → session_at j (admit_known suite options key p o s).0 ≡ session_at j s
  unfolding admit_known put
  session_at-admit_known key p (some hs) s here distinct = refl
  session_at-admit_known key p none s here distinct =
      let room = make_room suite options s in
      let there : session_at key room ≡ p.session =
        session_at-make_room suite options key s distinct ∙ ap session_of here in
      session_at-set key (record p { hs = some (responder suite options) }) room.peers there
      ∙ session_at-make_room suite options j s distinct

  session_at-admit :
      (now : ℕ) (key : String) (o : Option Peer) (s : Server)
      → get key s.peers ≡ o
      → IsMap s.peers
      → session_at j (admit suite options now key o s).0 ≡ session_at j s
  unfolding admit put
  session_at-admit now key (some p) s here distinct =
      session_at-admit_known key p p.hs s here distinct
  session_at-admit now key none s here distinct =
      let room = make_room suite options s in
      let p : Peer = record {
        hs = some (responder suite options);
        session = none;
        last_seen = now;
      } in
      let there : session_at key room ≡ none =
        session_at-make_room suite options key s distinct ∙ ap session_of here in
      session_at-set key p room.peers there ∙ session_at-make_room suite options j s distinct

  session_at-on_read :
      (generated : KeyPair) (now : ℕ) (key : String) (p : Peer)
      (out : Step (Bytes × Option TransportPair)) (s : Server)
      → Held key p s
      → IsMap s.peers
      → nobody_joined (on_read suite options generated now key p out s).1 ≡ true
      → session_at j (on_read suite options generated now key p out s).0 ≡ session_at j s
  unfolding on_read nobody_joined
  session_at-on_read generated now key p (hs, thrown x) s held distinct h =
      session_at-abandon key p s held distinct
  session_at-on_read generated now key p (hs, done (payload, some pair)) s held distinct h =
      absurd (ground arith)
  session_at-on_read generated now key p (hs, done (payload, none)) s held distinct h =
      session_at-on_written key (record p { last_seen = now }) (write_message suite generated [] hs)
        s (seen now key p s held) distinct

  session_at-on_handshake :
      (generated : KeyPair) (now : ℕ) (key : String) (body : Bytes) (s : Server)
      → Counted options.max_pending s
      → nobody_joined (on_handshake suite options generated now key body s).1 ≡ true
      → session_at j (on_handshake suite options generated now key body s).0 ≡ session_at j s
  unfolding on_handshake
  session_at-on_handshake generated now key body s v h =
      let (s', p, hs) = admit suite options now key (get key s.peers) s in
      let (counted, held) = admit-Counted suite options now key (get key s.peers) s refl v in
      session_at-on_read generated now key p (read_message suite body hs) s' held counted.distinct h
      ∙ session_at-admit now key (get key s.peers) s refl v.distinct

-- Handshake datagrams: the generated key pair, the time, the sender and the body of each.
abbrev pub greetings : List (KeyPair × ℕ × String × Bytes) → List Event
greetings [] = []
greetings ((generated, now, key, body) ∷ gs) =
    datagram generated now key (handshake ∷ body) ∷ greetings gs

-- From a table whose counters are right, handshake datagrams with any bodies from any senders, in
-- any number, none of which completes a handshake, leave the session of every peer as it was.
pub session_at-run-greetings :
    (suite : Suite) (options : Options) (j : String) (gs : List (KeyPair × ℕ × String × Bytes))
    (s : Server)
    → Counted options.max_pending s
    → nobody_joined (run suite options (greetings gs) s).1 ≡ true
    → session_at j (run suite options (greetings gs) s).0 ≡ session_at j s
unfolding run step on_datagram
session_at-run-greetings suite options j [] s v h = refl
session_at-run-greetings suite options j ((generated, now, key, body) ∷ gs) s v h =
    let (s', out) = on_handshake suite options generated now key body s in
    let counted : Counted options.max_pending s' =
      step-Counted suite options (datagram generated now key (handshake ∷ body)) s v in
    let (first, later) = nobody_joined-append out (run suite options (greetings gs) s').1 h in
    session_at-run-greetings suite options j gs s' counted later
    ∙ session_at-on_handshake suite options j generated now key body s v first
