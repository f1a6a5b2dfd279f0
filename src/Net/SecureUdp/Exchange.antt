-- ===== src/Net/SecureUdp/Exchange.antt =====
-- ts/net/secure-udp.ts: what the server does with each datagram of an exchange.
use toki.Base.{
  ap, ℕ, ◌≡◌, refl, false, not, ◌&&◌, Option, none, some, [], ◌∷◌, String, str_eq, arith, ltb,
  Bool-cases, Option-cases, inl, inr, ◌∙◌,
}
use toki.JsMap.{get}
use toki.JsMap.Laws.{IsMap, IsMap-set, get-set_self, get-delete}
use toki.JsMap.Count.{find_key, get-find_key}
use toki.Net.Cipher.{Bytes}
use toki.Net.Noise.Handshake.{HandshakeState, TransportPair, done, write_message, read_message}
use toki.Net.Noise.Symmetric.{Suite, KeyPair}
use toki.Net.Session
use toki.Net.Session.{unless_replayed, NoiseSession, open_wire}
use toki.Net.SecureUdp.{
  on_opened, open_with, open_by, on_transport, Server, Peer, Options, sent, joined, message,
  handshake, transport, idle, evict_oldest_session, drop_session, trim_sessions, complete,
  establish, forget, forget_found, put, responder, admit, admit_known, on_written, on_joined,
  on_read, on_handshake, on_datagram,
}

-- The peer just admitted is not the one evicted.
module _ (suite : Suite) (options : Options) where
  get-forget :
      (k key : String) (s : Server)
      → IsMap s.peers
      → str_eq k key ≡ false
      → get key (forget k s).peers ≡ get key s.peers
  unfolding forget forget_found
  get-forget k key s distinct other = elim (Option-cases (get k s.peers)) [
    | inl gone ↦ rw gone refl
    | inr (p, there) ↦ rw there (ground (arith, get-delete k key s.peers distinct))
  ]

  get-trim_sessions :
      (key : String) (s : Server)
      → IsMap s.peers
      → get key (trim_sessions suite options key s).peers ≡ get key s.peers
  unfolding trim_sessions evict_oldest_session drop_session
  get-trim_sessions key s distinct = elim (Bool-cases (ltb options.max_sessions s.established)) [
    | inr within ↦ rw within refl
    | inl over ↦
        rw over elim (Option-cases (find_key (λ k p. not (str_eq k key) && idle p) s.peers)) [
          | inl nobody ↦ rw nobody refl
          | inr (k, found) ↦
              let (p, there, only) =
                get-find_key (λ k p. not (str_eq k key) && idle p) s.peers k distinct found in
              rw found (get-forget k key s distinct (ground arith))
        ]
  ]

  -- The first message of a peer that is new is answered by the second.
  pub greets :
      (generated : KeyPair) (now : ℕ) (key : String) (body payload msg : Bytes)
      (ra rb : HandshakeState) (pair : Option TransportPair) (s : Server)
      → get key s.peers ≡ none
      → read_message suite body (responder suite options) ≡ (ra, done (payload, none))
      → write_message suite generated [] ra ≡ (rb, done (msg, pair))
      → let p : Peer = record { hs = some rb; session = none; last_seen = now } in
        let out = on_datagram suite options generated now key (handshake ∷ body) s in
        (out.1 ≡ sent key (handshake ∷ msg) ∷ []) × (get key out.0.peers ≡ some p)
  unfolding on_datagram on_handshake admit on_read on_written put
  greets generated now key body payload msg ra rb pair s new read write =
      let p : Peer = record { hs = some rb; session = none; last_seen = now } in
      rw (new, read, write) (refl, get-set_self key p _)

  -- `onSession` changes no peer, though it throws.
  peers-on_joined :
      (now : ℕ) (remote : Bytes) (s : Server)
      → (on_joined suite options now remote s).peers ≡ s.peers
  unfolding on_joined
  peers-on_joined now remote s = ground arith

  -- The last message of a handshake in progress makes the session.
  pub joins :
      (generated : KeyPair) (now : ℕ) (key : String) (body payload : Bytes) (hs : HandshakeState)
      (pair : TransportPair) (seen : ℕ) (s : Server)
      → get key s.peers ≡ some (record { hs = some hs; session = none; last_seen = seen })
      → IsMap s.peers
      → (read_message suite body hs).1 ≡ done (payload, some pair)
      → let out = on_datagram suite options generated now key (handshake ∷ body) s in
        (out.1 ≡ joined key pair.remote_static ∷ [])
        × (get key out.0.peers
            ≡ some (record { hs = none; session = some (Session.create pair); last_seen = now }))
  unfolding on_datagram on_handshake admit admit_known on_read complete establish Session.create
  joins generated now key body payload hs pair seen s there distinct read =
      let p : Peer = record { hs = some hs; session = none; last_seen = now } in
      let p' : Peer = record { hs = none; session = some (Session.create pair); last_seen = now } in
      let s' = establish suite options key p pair s in
      let kept = get-trim_sessions key s' (IsMap-set key p' s.peers distinct) in
      let same = peers-on_joined now pair.remote_static (trim_sessions suite options key s') in
      rw (there, read) (refl, ap (get key) same ∙ kept ∙ get-set_self key p' s.peers)

  -- A transport datagram that opens is delivered.
  pub delivers :
      (generated : KeyPair) (now : ℕ) (key : String) (body plain : Bytes)
      (live live' : NoiseSession) (p : Peer) (s : Server)
      → get key s.peers ≡ some p
      → p.session ≡ some live
      → open_wire suite.gcm body live ≡ (live', some plain)
      → (on_datagram suite options generated now key (transport ∷ body) s).1
        ≡ message key plain ∷ []
  unfolding on_datagram on_transport open_by open_with on_opened
  delivers generated now key body plain live live' p s there holds opens =
      rw (there, holds, opens) refl
