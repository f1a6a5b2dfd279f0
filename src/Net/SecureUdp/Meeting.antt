-- ===== src/Net/SecureUdp/Meeting.antt =====
-- ts/net/secure-udp.ts: a client and the server over an exchange that loses nothing.
use toki.Base.{
  sym, ap, ◌++◌, ℕ, ◌≤◌, ◌≡◌, refl, true, Option, none, some, List, [], ◌∷◌, String, arith, length,
}
use toki.JsMap.{get}
use toki.Net.Cipher.{Bytes, IsGcm}
use toki.Net.Noise.Handshake.{
  choose_ephemeral, HandshakeState, TransportPair, done, write_message, read_message,
}
use toki.Net.Noise.Handshake
use toki.Net.Session.Delivery.{open_wire-datagram}
use toki.Net.Noise.Handshake.Messages.{
  Shares, keys_of, k1, k2, t10, m1, m2, m3, r1, r2, i1, i2, write_first, read_first, write_second,
  read_second, write_third, read_third,
}
use toki.Net.Noise.Handshake.Sealing.{KeepsLength}
use toki.Net.Noise.Symmetric.{Suite, KeyPair}
use toki.Net.Session
use toki.Net.SecureUdp.Runs.{on_datagram-Counted}
use toki.Net.Session.{unless_replayed, NoiseSession, open_wire}
use toki.Net.ReplayFilter.{check}
use toki.Net.SecureUdp.Table.{Counted}
use toki.Net.SecureUdp.Client
use toki.Net.SecureUdp.Client.{Client}
use toki.Net.SecureUdp.{
  Server, Options, Effect, sent, joined, message, handshake, transport, on_datagram,
}
use toki.Net.SecureUdp.Exchange.{greets, joins, delivers}

-- Each datagram of a client's effects, in turn, to the server, from one address and time.
pub to_server :
    Suite → Options → KeyPair → ℕ → String → List Client.Effect → Server → Server × List Effect
to_server suite options generated now key [] s = (s, [])
to_server suite options generated now key (Client.Effect.sent bytes ∷ es) s =
    let (s', out) = on_datagram suite options generated now key bytes s in
    let (s'', more) = to_server suite options generated now key es s' in (s'', out ++ more)
to_server suite options generated now key (e ∷ es) s =
    to_server suite options generated now key es s

-- Each datagram of the server's effects, in turn, to the client.
pub to_client : Suite → KeyPair → List Effect → Client → Client × List Client.Effect
to_client suite generated [] c = (c, [])
to_client suite generated (sent key bytes ∷ es) c =
    let (c', out) = Client.on_message suite generated bytes c in
    let (c'', more) = to_client suite generated es c' in (c'', out ++ more)
to_client suite generated (e ∷ es) c = to_client suite generated es c

-- A client, with what it did on connecting: its first datagram, the answer, and the answer to that.
-- Both sides, and what each did last.
pub meet_from :
    Suite
    → Options
    → KeyPair
    → KeyPair
    → ℕ
    → String
    → Server
    → Option Client × List Client.Effect
    → Option (Client × Server × List Client.Effect × List Effect)
meet_from suite options gi gr now key s (none, e0) = none
meet_from suite options gi gr now key s (some c0, e0) =
    let (s1, f1) = to_server suite options gr now key e0 s in
    let (c1, e1) = to_client suite gi f1 c0 in
    let (s2, f2) = to_server suite options gr now key e1 s1 in some (c1, s2, e1, f2)

-- A client that connects to the server.
pub meet :
    Suite
    → Options
    → KeyPair
    → KeyPair
    → KeyPair
    → ℕ
    → String
    → Server
    → Option (Client × Server × List Client.Effect × List Effect)
meet suite options gi gr si now key s =
    meet_from suite options gi gr now key s (Client.connect suite gi si)

connects :
    (suite : Suite) (gi si : KeyPair) (first : Bytes) (c : Client)
    → write_message suite gi [] (Handshake.create suite true si [] none)
      ≡ (c.hs, done (first, none))
    → c ≡ record { hs = c.hs; first_message = first; session = none; is_open = true }
    → Client.connect suite gi si ≡ (some c, Client.Effect.sent (handshake ∷ first) ∷ [])
unfolding Client.connect Client.on_first
connects suite gi si first c written same =
    rw written (ap (λ c. (some c, Client.Effect.sent (handshake ∷ first) ∷ [])) (sym same))

module _ (suite : Suite) (options : Options) (safe : IsGcm suite.gcm) where
  client_answers :
      (generated : KeyPair) (body payload msg : Bytes) (ra : HandshakeState) (pair : TransportPair)
      (c : Client)
      → c.session ≡ none
      → read_message suite body c.hs ≡ (ra, done (payload, none))
      → (write_message suite generated [] ra).1 ≡ done (msg, some pair)
      → Client.on_message suite generated (handshake ∷ body) c ≡ (
        record c {
          hs = (write_message suite generated [] ra).0;
          session = some (Session.create pair);
        },
        Client.Effect.sent (handshake ∷ msg) ∷ Client.Effect.resolved pair.remote_static ∷ [],
      )
  unfolding Client.on_message Client.on_message_in Client.on_second Client.on_third Session.create
  client_answers generated body payload msg ra pair c fresh read write =
      rw (fresh, read, write) refl

  -- The first datagram of a session opens at a new session with the same key.
  first_datagram :
      (plain : Bytes) (mine theirs : TransportPair)
      → mine.send.key ≡ theirs.recv.key
      → (live : NoiseSession) × (open_wire suite.gcm
            (Session.datagram suite.gcm mine.send 0 plain)
            (Session.create theirs)
          ≡ (live, some plain))
  unfolding Session.create unless_replayed check
  first_datagram plain mine theirs same = (
    (unless_replayed suite.gcm 0 plain (Session.create theirs)).0,
    open_wire-datagram suite.gcm safe mine.send 0 plain (Session.create theirs) same (omega arith),
  )

  sends :
      (plain : Bytes) (mine : TransportPair) (c : Client)
      → (Client.send suite plain (Session.create mine) c).1
        ≡ Client.Effect.sent (transport ∷ Session.datagram suite.gcm mine.send 0 plain) ∷ []
  unfolding Client.send Client.on_sealed Session.seal Session.create
  sends plain mine c = refl

-- A server's table whose counters are right (`Counted`), in which the client's key is not, and two
-- honest sides: once each has what the other sent, the client's promise resolves to a session with the
-- server's static key and the server calls `onSession` with the client's, and whatever the client then
-- sends is delivered by `onMessage` unchanged, whether `onSession` throws or not. As in the handshake,
-- AES-GCM opens what it seals and adds 16 bytes, Diffie-Hellman gives both sides one secret, and public
-- keys have 32 bytes.
pub meet_lem :
    (suite : Suite) (options : Options) (gi gr si : KeyPair) (now : ℕ) (key : String) (s : Server)
    → get key s.peers ≡ none
    → Counted options.max_pending s
    → IsGcm suite.gcm
    → KeepsLength suite.gcm
    → Shares suite gi gr
    → Shares suite gi options.static_key
    → Shares suite si gr
    → length gi.public_raw ≡ 32
    → length gr.public_raw ≡ 32
    → length si.public_raw ≡ 32
    → length options.static_key.public_raw ≡ 32
    → (third : Bytes) × (c : Client) × (s' : Server) × (live : NoiseSession) × (meet suite options
          gi gr si now key s
        ≡ some (
          c,
          s',
          Client.Effect.sent (handshake ∷ third)
              ∷ Client.Effect.resolved options.static_key.public_raw
              ∷ [],
          joined key si.public_raw ∷ [],
        ))
      × (c.session ≡ some live)
      × ((plain : Bytes) (later : ℕ)
          → (to_server suite options gr later key (Client.send suite plain live c).1 s').1
            ≡ message key plain ∷ [])
unfolding meet meet_from to_server to_client choose_ephemeral Handshake.create
meet_lem suite options gi gr si now key s new v safe keeps dee des dse bi br bsi bsr =
    let sr = options.static_key in
    let short : length {A = ℕ} [] ≤ 4000 = omega arith in
    let first = m1 suite safe keeps gi gr si sr none none [] [] [] [] in
    let second = m2 suite safe keeps gi gr si sr none none [] [] [] [] dee des dse in
    let third = m3 suite safe keeps gi gr si sr none none [] [] [] [] dee des dse in
    let ki = k1 suite safe keeps gi gr si sr none none [] [] [] [] dee des dse in
    let kr = k2 suite safe keeps gi gr si sr none none [] [] [] [] dee des dse in
    let hash = (t10 suite safe keeps gi gr si sr none none [] [] [] [] dee des dse).h in
    let mine = keys_of ki kr hash sr.public_raw in
    let theirs = keys_of kr ki hash si.public_raw in
    let ra = r1 suite safe keeps gi gr si sr none none [] [] [] [] in
    let rb = r2 suite safe keeps gi gr si sr none none [] [] [] [] dee des dse in
    let ib = i2 suite safe keeps gi gr si sr none none [] [] [] [] dee des dse in
    let ia = i1 suite safe keeps gi gr si sr none none [] [] [] [] in
    let c0 : Client = record { hs = ia; first_message = first; session = none; is_open = true } in
    let s1 = (on_datagram suite options gr now key (handshake ∷ first) s).0 in
    let s2 = (on_datagram suite options gr now key (handshake ∷ third) s1).0 in
    let c1 : Client = record c0 {
      hs = (write_message suite gi [] ib).0;
      session = some (Session.create mine);
    } in
    let (said, held) =
      greets suite options gr now key first [] second ra rb none s new
        (read_first suite safe keeps gi gr si sr none none [] [] [] [] bi short)
        (write_second suite safe keeps gi gr si sr none none [] [] [] [] dee des dse) in
    let counted = on_datagram-Counted suite options gr now key (handshake ∷ first) s v in
    let (called, live_there) =
      joins suite options gr now key third [] rb theirs now s1 held counted.distinct
        (read_third suite safe keeps gi gr si sr none none [] [] [] [] dee des dse bsi short) in
    let answer =
      client_answers suite options safe gi second [] third ib mine c0 refl
        (read_second suite safe keeps gi gr si sr none none [] [] [] [] dee des dse br bsr short)
        (write_third suite safe keeps gi gr si sr none none [] [] [] [] dee des dse) in
    let begun : Client.connect suite gi si
        ≡ (some c0, Client.Effect.sent (handshake ∷ first) ∷ []) =
      connects suite gi si first c0 (write_first suite safe keeps gi gr si sr none none [] [] [] [])
        refl in
    (
      third,
      c1,
      s2,
      Session.create mine,
      rw (begun, said, answer, called) refl,
      refl,
      λ plain later.
          let (live, opens) = first_datagram suite options safe plain mine theirs refl in
          rw
            (
              sends suite options safe plain mine c1,
              delivers suite options gr later key (Session.datagram suite.gcm mine.send 0 plain)
                  plain (Session.create theirs) live _ s2 live_there refl opens,
            )
            refl,
    )
