-- ===== src/Net/SecureUdp/Runs.antt =====
-- ts/net/secure-udp.ts: every operation keeps the counters of the table.
use toki.Base.{
  ap, sym, ◌==◌, ℕ, ◌+◌, ◌≤◌, ◌≡◌, refl, true, Option, none, some, List, [], ◌∷◌, String, arith,
  ltb, Bool-cases, inl, inr,
}
use toki.JsMap.{JsMap, get}
use toki.JsMap.Count.{total}
use toki.Net.Cipher.{Bytes}
use toki.Net.Noise.Handshake.{TransportPair, Step, done, thrown, write_message, read_message}
use toki.Net.Noise.Symmetric.{Suite, KeyPair}
use toki.Net.Session
use toki.Net.Session.{NoiseSession, seal, open_wire}
use toki.Net.SecureUdp.Peers.{put-Counted, abandon-Counted, complete-Counted, admit-Counted, Held}
use toki.Net.SecureUdp.Owed.{joins, run-Owes}
use toki.Net.SecureUdp.Table.{Counted, forget-Counted}
use toki.Net.SecureUdp.{
  transport, handshake, Event, datagram, sends, leaves, sweeps, closes, on_written, on_joined,
  complete, on_read, on_handshake, on_opened, open_with, open_by, on_transport, on_datagram,
  on_sealed, send_with, session_send, sweep_over, sweep, close, send_from, step, run, Server, Peer,
  Options, is_some, forget, put, admit,
}

pub seen :
    (now : ℕ) (key : String) (p : Peer) (s : Server)
    → Held key p s
    → Held key (record p { last_seen = now }) s
seen now key p s held = record {
  entry = held.entry;
  here = held.here;
  in_progress = held.in_progress;
  same = held.same;
}

module _ (suite : Suite) (options : Options) where
  on_written-Counted :
      (key : String) (p : Peer) (out : Step (Bytes × Option TransportPair)) (s : Server)
      → Held key p s
      → Counted options.max_pending s
      → Counted options.max_pending (on_written suite options key p out s).0
  unfolding on_written
  on_written-Counted key p (hs, thrown x) s held v = abandon-Counted suite options key p s held v
  on_written-Counted key p (hs, done (msg, pair)) s held v =
      put-Counted suite options key held.entry (record p { hs = some hs }) s held.here
        (sym held.in_progress) (ap is_some (sym held.same)) v

  on_joined-Counted :
      (now : ℕ) (remote : Bytes) (s : Server)
      → Counted options.max_pending s
      → Counted options.max_pending (on_joined suite options now remote s)
  unfolding on_joined
  on_joined-Counted now remote s v = elim (Bool-cases (options.on_session_throws now remote)) [
    | inl fails ↦ rw fails (record {
      distinct = v.distinct;
      pending = v.pending;
      established = v.established;
      half_open = omega (arith, v.half_open);
      occupied = v.occupied;
    })
    | inr returns ↦ rw returns v
  ]

  on_read-Counted :
      (generated : KeyPair) (now : ℕ) (key : String) (p : Peer)
      (out : Step (Bytes × Option TransportPair)) (s : Server)
      → Held key p s
      → Counted options.max_pending s
      → Counted options.max_pending (on_read suite options generated now key p out s).0
  unfolding on_read
  on_read-Counted generated now key p (hs, thrown x) s held v =
      abandon-Counted suite options key p s held v
  on_read-Counted generated now key p (hs, done (payload, some pair)) s held v =
      let p' : Peer = record p { last_seen = now } in
      on_joined-Counted now (Session.create pair).remote_static
        (complete suite options key p' pair s)
        (complete-Counted suite options key p' pair s (seen now key p s held) v)
  on_read-Counted generated now key p (hs, done (payload, none)) s held v =
      on_written-Counted key (record p { last_seen = now }) (write_message suite generated [] hs) s
        (seen now key p s held) v

  on_handshake-Counted :
      (generated : KeyPair) (now : ℕ) (key : String) (body : Bytes) (s : Server)
      → Counted options.max_pending s
      → Counted options.max_pending (on_handshake suite options generated now key body s).0
  unfolding on_handshake
  on_handshake-Counted generated now key body s v =
      let (s', p, hs) = admit suite options now key (get key s.peers) s in
      let (counted, held) = admit-Counted suite options now key (get key s.peers) s refl v in
      on_read-Counted generated now key p (read_message suite body hs) s' held counted

  on_opened-Counted :
      (now : ℕ) (key : String) (p : Peer) (out : NoiseSession × Option Bytes) (s : Server)
      → get key s.peers ≡ some p
      → is_some p.session ≡ true
      → Counted options.max_pending s
      → Counted options.max_pending (on_opened suite options now key p out s).0
  unfolding on_opened
  on_opened-Counted now key p (live, none) s here on v =
      put-Counted suite options key p (record p { session = some live }) s here refl (sym on) v
  on_opened-Counted now key p (live, some plain) s here on v =
      put-Counted suite options key p (record p { session = some live; last_seen = now }) s here
        refl (sym on) v

  open_with-Counted :
      (now : ℕ) (key : String) (body : Bytes) (p : Peer) (o : Option NoiseSession) (s : Server)
      → get key s.peers ≡ some p
      → p.session ≡ o
      → Counted options.max_pending s
      → Counted options.max_pending (open_with suite options now key body p o s).0
  unfolding open_with
  open_with-Counted now key body p none s here on v = v
  open_with-Counted now key body p (some live) s here on v =
      on_opened-Counted now key p (open_wire suite.gcm body live) s here (rw on refl) v

  open_by-Counted :
      (now : ℕ) (key : String) (body : Bytes) (o : Option Peer) (s : Server)
      → get key s.peers ≡ o
      → Counted options.max_pending s
      → Counted options.max_pending (open_by suite options now key body o s).0
  unfolding open_by
  open_by-Counted now key body none s here v = v
  open_by-Counted now key body (some p) s here v =
      open_with-Counted now key body p p.session s here refl v

  pub on_datagram-Counted :
      (generated : KeyPair) (now : ℕ) (key : String) (bytes : Bytes) (s : Server)
      → Counted options.max_pending s
      → Counted options.max_pending (on_datagram suite options generated now key bytes s).0
  unfolding on_datagram on_transport
  on_datagram-Counted generated now key [] s v = v
  on_datagram-Counted generated now key (type ∷ body) s v = elim (Bool-cases (type == handshake)) [
    | inl greets ↦ rw greets (on_handshake-Counted generated now key body s v)
    | inr other ↦ elim (Bool-cases (type == transport)) [
      | inl carries ↦ rw (other, carries) (open_by-Counted now key body (get key s.peers) s refl v)
      | inr unknown ↦ rw (other, unknown) v
    ]
  ]

  on_sealed-Counted :
      (key : String) (p : Peer) (out : NoiseSession × Option Bytes) (s : Server)
      → get key s.peers ≡ some p
      → is_some p.session ≡ true
      → Counted options.max_pending s
      → Counted options.max_pending (put suite options key (on_sealed suite options key p out).0 s)
  unfolding on_sealed
  on_sealed-Counted key p (live, none) s here on v =
      put-Counted suite options key p (record p { session = some live }) s here refl (sym on) v
  on_sealed-Counted key p (live, some wire) s here on v =
      put-Counted suite options key p (record p { session = some live }) s here refl (sym on) v

  send_with-Counted :
      (key : String) (plain : Bytes) (p : Peer) (o : Option NoiseSession) (s : Server)
      → get key s.peers ≡ some p
      → p.session ≡ o
      → Counted options.max_pending s
      → Counted options.max_pending
          (put suite options key (send_with suite options key plain p o).0 s)
  unfolding send_with
  send_with-Counted key plain p none s here on v =
      put-Counted suite options key p p s here refl refl v
  send_with-Counted key plain p (some live) s here on v =
      on_sealed-Counted key p (seal suite.gcm plain live) s here (rw on refl) v

  send_from-Counted :
      (key : String) (plain : Bytes) (o : Option Peer) (s : Server)
      → get key s.peers ≡ o
      → Counted options.max_pending s
      → Counted options.max_pending (send_from suite options key plain o s).0
  unfolding send_from session_send
  send_from-Counted key plain none s here v = v
  send_from-Counted key plain (some p) s here v =
      send_with-Counted key plain p p.session s here refl v

  sweep_over-Counted :
      (now : ℕ) (entries : JsMap Peer) (s : Server)
      → Counted options.max_pending s
      → Counted options.max_pending (sweep_over suite options now entries s)
  unfolding sweep_over
  sweep_over-Counted now [] s v = v
  sweep_over-Counted now ((k, p) ∷ rest) s v =
      elim (Bool-cases (ltb (p.last_seen + options.session_ttl) now)) [
        | inl stale ↦
            rw stale
              (sweep_over-Counted now rest (forget k s) (forget-Counted options.max_pending k s v))
        | inr fresh ↦ rw fresh (sweep_over-Counted now rest s v)
      ]

  pub step-Counted :
      (e : Event) (s : Server)
      → Counted options.max_pending s
      → Counted options.max_pending (step suite options e s).0
  unfolding step close sweep total
  step-Counted (datagram generated now key bytes) s v =
      on_datagram-Counted generated now key bytes s v
  step-Counted (sends key plain) s v = send_from-Counted key plain (get key s.peers) s refl v
  step-Counted (leaves key) s v = forget-Counted options.max_pending key s v
  step-Counted (sweeps now) s v = sweep_over-Counted now s.peers s v
  step-Counted closes s v = record {
    distinct = tt;
    pending = refl;
    established = omega arith;
    half_open = omega arith;
    occupied = refl;
  }

  Counted-run :
      (es : List Event) (s : Server)
      → Counted options.max_pending s
      → Counted options.max_pending (run suite options es s).0
  unfolding run
  Counted-run [] s v = v
  Counted-run (e ∷ es) s v = Counted-run es (step suite options e s).0 (step-Counted e s v)

  -- Over any events, from any table where it holds, whether `onSession` throws or not: the code's
  -- `pending` is the number of peers in a handshake less what is owed, and at most one more is owed for
  -- each call of `onSession`; the peers with a session are at most `established`, the peers that only
  -- have a handshake are at most `maxPending` and what is owed (or one, where that is 0), every peer
  -- has a handshake or a session, and no key stands twice.
  pub run-Counted :
      (es : List Event) (s : Server)
      → Counted options.max_pending s
      → Counted options.max_pending (run suite options es s).0
        × ((run suite options es s).0.owed ≤ s.owed + joins (run suite options es s).1)
  run-Counted es s v = (Counted-run es s v, run-Owes suite options es s)
