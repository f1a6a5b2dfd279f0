-- ===== src/Net/SecureUdp/Owed.antt =====
-- ts/net/secure-udp.ts: how often `pending` is lowered once too often.
use toki.Base.{
  ℕ, ◌+◌, ◌==◌, ◌≤◌, ◌≡◌, refl, ◌∙◌, Option, none, some, List, [], ◌∷◌, ◌++◌, String, arith, ltb,
  not, ◌&&◌, str_eq, Bool-cases, inl, inr,
}
use toki.JsMap.{JsMap, get}
use toki.JsMap.Count.{find_key}
use toki.Net.Cipher.{Bytes}
use toki.Net.Noise.Handshake.{
  HandshakeState, TransportPair, Step, done, thrown, write_message, read_message,
}
use toki.Net.Noise.Symmetric.{Suite, KeyPair}
use toki.Net.Session
use toki.Net.Session.{NoiseSession, seal, open_wire}
use toki.Net.SecureUdp.{
  transport, handshake, Effect, sent, joined, message, Event, datagram, sends, leaves, sweeps,
  closes, on_written, on_read, on_joined, on_handshake, on_opened, open_with, open_by, on_transport,
  on_datagram, sweep_over, sweep, close, send_from, step, run, Server, Peer, Options, forget,
  forget_found, put, admit, admit_known, make_room, complete, establish, trim_sessions,
  evict_oldest_session, evict_oldest_pending, drop_session, drop_pending, abandon, abandon_with,
  idle, half_open,
}

-- Calls of `onSession`.
unfoldable pub joins : List Effect → ℕ
joins [] = 0
joins (joined key remote ∷ es) = joins es + 1
joins (sent key bytes ∷ es) = joins es
joins (message key bytes ∷ es) = joins es

joins-append : (es fs : List Effect) → joins (es ++ fs) ≡ joins es + joins fs
unfolding joins
joins-append [] fs = omega arith
joins-append (joined key remote ∷ es) fs = omega (arith, joins-append es fs)
joins-append (sent key bytes ∷ es) fs = joins-append es fs
joins-append (message key bytes ∷ es) fs = joins-append es fs

-- At most one more is owed for each call of `onSession`.
abbrev pub Owes : Server → Server × List Effect → Type 0
Owes s (s', out) = s'.owed ≤ s.owed + joins out

owed-forget_found :
    (key : String) (o : Option Peer) (s : Server) → (forget_found key o s).owed ≡ s.owed
unfolding forget_found
owed-forget_found key none s = refl
owed-forget_found key (some p) s = refl

owed-forget : (key : String) (s : Server) → (forget key s).owed ≡ s.owed
unfolding forget
owed-forget key s = owed-forget_found key (get key s.peers) s

owed-drop_pending : (o : Option String) (s : Server) → (drop_pending o s).owed ≡ s.owed
unfolding drop_pending
owed-drop_pending none s = refl
owed-drop_pending (some k) s = refl

owed-drop_session : (o : Option String) (s : Server) → (drop_session o s).owed ≡ s.owed
unfolding drop_session
owed-drop_session none s = refl
owed-drop_session (some k) s = owed-forget k s

module _ (suite : Suite) (options : Options) where
  owed-make_room : (s : Server) → (make_room suite options s).owed ≡ s.owed
  unfolding make_room evict_oldest_pending
  owed-make_room s = ground (arith, owed-drop_pending (find_key (λ k p. half_open p) s.peers) s)

  owed-trim_sessions :
      (key : String) (s : Server) → (trim_sessions suite options key s).owed ≡ s.owed
  unfolding trim_sessions evict_oldest_session
  owed-trim_sessions key s =
      ground (arith, owed-drop_session (find_key (λ k p. not (str_eq k key) && idle p) s.peers) s)

  owed-abandon_with :
      (key : String) (p : Peer) (o : Option NoiseSession) (s : Server)
      → (abandon_with suite options key p o s).owed ≡ s.owed
  unfolding abandon_with
  owed-abandon_with key p none s = refl
  owed-abandon_with key p (some live) s = refl

  owed-abandon :
      (key : String) (p : Peer) (s : Server) → (abandon suite options key p s).owed ≡ s.owed
  unfolding abandon
  owed-abandon key p s = owed-abandon_with key p p.session s

  owed-complete :
      (key : String) (p : Peer) (pair : TransportPair) (s : Server)
      → (complete suite options key p pair s).owed ≡ s.owed
  unfolding complete establish
  owed-complete key p pair s = owed-trim_sessions key (establish suite options key p pair s)

  owed-on_joined :
      (now : ℕ) (remote : Bytes) (s : Server)
      → (on_joined suite options now remote s).owed ≤ s.owed + 1
  unfolding on_joined
  owed-on_joined now remote s = ground arith

  owed-admit_known :
      (key : String) (p : Peer) (o : Option HandshakeState) (s : Server)
      → (admit_known suite options key p o s).0.owed ≡ s.owed
  unfolding admit_known put
  owed-admit_known key p (some hs) s = refl
  owed-admit_known key p none s = owed-make_room s

  owed-admit :
      (now : ℕ) (key : String) (o : Option Peer) (s : Server)
      → (admit suite options now key o s).0.owed ≡ s.owed
  unfolding admit put
  owed-admit now key none s = owed-make_room s
  owed-admit now key (some p) s = owed-admit_known key p p.hs s

  on_written-Owes :
      (key : String) (p : Peer) (out : Step (Bytes × Option TransportPair)) (s : Server)
      → Owes s (on_written suite options key p out s)
  unfolding on_written put joins
  on_written-Owes key p (hs, thrown x) s = omega (arith, owed-abandon key p s)
  on_written-Owes key p (hs, done (msg, pair)) s = omega arith

  on_read-Owes :
      (generated : KeyPair) (now : ℕ) (key : String) (p : Peer)
      (out : Step (Bytes × Option TransportPair)) (s : Server)
      → Owes s (on_read suite options generated now key p out s)
  unfolding on_read joins
  on_read-Owes generated now key p (hs, thrown x) s = omega (arith, owed-abandon key p s)
  on_read-Owes generated now key p (hs, done (payload, some pair)) s =
      let p' : Peer = record p { last_seen = now } in
      let remote = (Session.create pair).remote_static in
      omega (
        arith,
        owed-on_joined now remote (complete suite options key p' pair s),
        owed-complete key p' pair s,
      )
  on_read-Owes generated now key p (hs, done (payload, none)) s =
      on_written-Owes key (record p { last_seen = now }) (write_message suite generated [] hs) s

  on_handshake-Owes :
      (generated : KeyPair) (now : ℕ) (key : String) (body : Bytes) (s : Server)
      → Owes s (on_handshake suite options generated now key body s)
  unfolding on_handshake
  on_handshake-Owes generated now key body s =
      let (s', p, hs) = admit suite options now key (get key s.peers) s in
      omega (
        arith,
        owed-admit now key (get key s.peers) s,
        on_read-Owes generated now key p (read_message suite body hs) s',
      )

  on_opened-Owes :
      (now : ℕ) (key : String) (p : Peer) (out : NoiseSession × Option Bytes) (s : Server)
      → Owes s (on_opened suite options now key p out s)
  unfolding on_opened put joins
  on_opened-Owes now key p (live, none) s = omega arith
  on_opened-Owes now key p (live, some plain) s = omega arith

  open_with-Owes :
      (now : ℕ) (key : String) (body : Bytes) (p : Peer) (o : Option NoiseSession) (s : Server)
      → Owes s (open_with suite options now key body p o s)
  unfolding open_with joins
  open_with-Owes now key body p none s = omega arith
  open_with-Owes now key body p (some live) s =
      on_opened-Owes now key p (open_wire suite.gcm body live) s

  open_by-Owes :
      (now : ℕ) (key : String) (body : Bytes) (o : Option Peer) (s : Server)
      → Owes s (open_by suite options now key body o s)
  unfolding open_by joins
  open_by-Owes now key body none s = omega arith
  open_by-Owes now key body (some p) s = open_with-Owes now key body p p.session s

  on_datagram-Owes :
      (generated : KeyPair) (now : ℕ) (key : String) (bytes : Bytes) (s : Server)
      → Owes s (on_datagram suite options generated now key bytes s)
  unfolding on_datagram on_transport joins
  on_datagram-Owes generated now key [] s = omega arith
  on_datagram-Owes generated now key (type ∷ body) s = elim (Bool-cases (type == handshake)) [
    | inl greets ↦ rw greets (on_handshake-Owes generated now key body s)
    | inr other ↦ elim (Bool-cases (type == transport)) [
      | inl carries ↦ rw (other, carries) (open_by-Owes now key body (get key s.peers) s)
      | inr unknown ↦ rw (other, unknown) (omega arith)
    ]
  ]

  send_from-Owes :
      (key : String) (plain : Bytes) (o : Option Peer) (s : Server)
      → Owes s (send_from suite options key plain o s)
  unfolding send_from put
  send_from-Owes key plain none s = omega arith
  send_from-Owes key plain (some p) s = omega arith

  owed-sweep_over :
      (now : ℕ) (entries : JsMap Peer) (s : Server)
      → (sweep_over suite options now entries s).owed ≡ s.owed
  unfolding sweep_over
  owed-sweep_over now [] s = refl
  owed-sweep_over now ((k, p) ∷ rest) s =
      elim (Bool-cases (ltb (p.last_seen + options.session_ttl) now)) [
        | inl stale ↦
            rw (sweep_over, stale) (owed-sweep_over now rest (forget k s) ∙ owed-forget k s)
        | inr fresh ↦ rw (sweep_over, fresh) (owed-sweep_over now rest s)
      ]

  step-Owes : (e : Event) (s : Server) → Owes s (step suite options e s)
  unfolding step close sweep joins
  step-Owes (datagram generated now key bytes) s = on_datagram-Owes generated now key bytes s
  step-Owes (sends key plain) s = send_from-Owes key plain (get key s.peers) s
  step-Owes (leaves key) s = omega (arith, owed-forget key s)
  step-Owes (sweeps now) s = omega (arith, owed-sweep_over now s.peers s)
  step-Owes closes s = omega arith

  pub run-Owes : (es : List Event) (s : Server) → Owes s (run suite options es s)
  unfolding run joins
  run-Owes [] s = omega arith
  run-Owes (e ∷ es) s =
      let (s', out) = step suite options e s in
      omega (arith, step-Owes e s, run-Owes es s', joins-append out (run suite options es s').1)
