-- ===== src/Net/SecureUdp/Peers.antt =====
-- ts/net/secure-udp.ts: what is done to one peer keeps the counters of the table.
use toki.Base.{ℕ, ◌+◌, ◌≤◌, ◌≡◌, refl, max, true, Option, none, some, String, arith}
use toki.JsMap.{get}
use toki.JsMap.Laws.{IsMap-set, get-set_self}
use toki.JsMap.Count.{total, total-delete, total-set, total-set_new}
use toki.Net.Noise.Handshake.{TransportPair, HandshakeState}
use toki.Net.Noise.Symmetric.{Suite}
use toki.Net.Session
use toki.Net.Session.{NoiseSession}
use toki.Net.SecureUdp.Table.{
  in_handshake, in_session, in_half_open, in_nothing, Counted, delete-Counted, make_room-Counted,
  trim_sessions-Counted, get-make_room,
}
use toki.Net.SecureUdp.{
  establish, admit_known, Server, Peer, Options, is_some, half_open, idle, make_room, responder,
  put, admit, abandon, abandon_with, complete,
}

-- What is known of the peer that a handshake datagram is read for: its entry is in a handshake and
-- holds the same session.
pub record Held (key : String) (p : Peer) (s : Server) : Type 0 where
  pub entry : Peer
  pub here : get key s.peers ≡ some entry
  pub in_progress : is_some entry.hs ≡ true
  pub same : entry.session ≡ p.session

module _ (suite : Suite) (options : Options) where
  pub put-Counted :
      (key : String) (old p : Peer) (s : Server)
      → get key s.peers ≡ some old
      → is_some p.hs ≡ is_some old.hs
      → is_some p.session ≡ is_some old.session
      → Counted options.max_pending s
      → Counted options.max_pending (put suite options key p s)
  unfolding put half_open
  put-Counted key old p s here hs live v = record {
    distinct = IsMap-set key p s.peers v.distinct;
    pending = ground (arith, v.pending, total-set in_handshake key old p s.peers here);
    established = ground (arith, v.established, total-set in_session key old p s.peers here);
    half_open =
        ground (arith, v.half_open, total-set in_half_open key old p s.peers here, hs, live);
    occupied = ground (arith, v.occupied, total-set in_nothing key old p s.peers here, hs, live);
  }

  -- A new peer, with a handshake.
  enter-Counted :
      (key : String) (p : Peer) (room : Server)
      → get key room.peers ≡ none
      → is_some p.hs ≡ true
      → p.session ≡ none
      → Counted options.max_pending room
      → total in_half_open room.peers + 1 ≤ max 1 (options.max_pending + room.owed)
      → Counted options.max_pending
          (record (put suite options key p room) { pending = room.pending + 1 })
  unfolding put half_open
  enter-Counted key p s gone hs new v room = record {
    distinct = IsMap-set key p s.peers v.distinct;
    pending = ground (arith, v.pending, total-set_new in_handshake key p s.peers gone);
    established = ground (arith, v.established, total-set_new in_session key p s.peers gone);
    half_open = ground (arith, total-set_new in_half_open key p s.peers gone, hs, new);
    occupied = ground (arith, v.occupied, total-set_new in_nothing key p s.peers gone, hs);
  }

  -- A live peer that starts over.
  again-Counted :
      (key : String) (p : Peer) (hs : HandshakeState) (room : Server)
      → get key room.peers ≡ some p
      → p.hs ≡ none
      → is_some p.session ≡ true
      → Counted options.max_pending room
      → Counted options.max_pending
          (record (put suite options key (record p { hs = some hs }) room) {
            pending = room.pending + 1;
          })
  unfolding put half_open
  again-Counted key p hs s here idle live v =
      let p' : Peer = record p { hs = some hs } in
      record {
        distinct = IsMap-set key p' s.peers v.distinct;
        pending = ground (arith, v.pending, total-set in_handshake key p p' s.peers here, idle);
        established = ground (arith, v.established, total-set in_session key p p' s.peers here);
        half_open = ground (arith, v.half_open, total-set in_half_open key p p' s.peers here, live);
        occupied = ground (arith, v.occupied, total-set in_nothing key p p' s.peers here);
      }

  abandon_with-Counted :
      (key : String) (p : Peer) (o : Option NoiseSession) (s : Server) (held : Held key p s)
      → held.entry.session ≡ o
      → p.session ≡ o
      → Counted options.max_pending s
      → Counted options.max_pending (abandon_with suite options key p o s)
  unfolding abandon_with half_open
  abandon_with-Counted key p none s held is_none _ v =
      delete-Counted options.max_pending key held.entry s held.here
        (ground (arith, held.in_progress, is_none)) v
  abandon_with-Counted key p (some live) s held is_live it_too v =
      let p' : Peer = record p { hs = none } in
      let q = held.entry in
      record {
        distinct = IsMap-set key p' s.peers v.distinct;
        pending =
            ground (
              arith,
              v.pending,
              total-set in_handshake key q p' s.peers held.here,
              held.in_progress,
            );
        established = ground (
          arith,
          v.established,
          total-set in_session key q p' s.peers held.here,
          is_live,
          it_too,
        );
        half_open =
            ground (arith, v.half_open, total-set in_half_open key q p' s.peers held.here, it_too);
        occupied =
            ground (arith, v.occupied, total-set in_nothing key q p' s.peers held.here, it_too);
      }

  pub abandon-Counted :
      (key : String) (p : Peer) (s : Server)
      → Held key p s
      → Counted options.max_pending s
      → Counted options.max_pending (abandon suite options key p s)
  unfolding abandon
  abandon-Counted key p s held v = abandon_with-Counted key p p.session s held held.same refl v

  pub complete-Counted :
      (key : String) (p : Peer) (pair : TransportPair) (s : Server)
      → Held key p s
      → Counted options.max_pending s
      → Counted options.max_pending (complete suite options key p pair s)
  unfolding complete establish half_open
  complete-Counted key p pair s held v =
      let p' : Peer = record p { hs = none; session = some (Session.create pair) } in
      let q = held.entry in
      trim_sessions-Counted suite options key (establish suite options key p pair s) (record {
        distinct = IsMap-set key p' s.peers v.distinct;
        pending =
            ground (
              arith,
              v.pending,
              total-set in_handshake key q p' s.peers held.here,
              held.in_progress,
            );
        established =
            ground (arith, v.established, total-set in_session key q p' s.peers held.here);
        half_open = ground (arith, v.half_open, total-set in_half_open key q p' s.peers held.here);
        occupied = ground (arith, v.occupied, total-set in_nothing key q p' s.peers held.here);
      })

  -- A datagram's handshake state is found or made, and its peer with it.
  admit_known-Counted :
      (key : String) (p : Peer) (o : Option HandshakeState) (s : Server)
      → get key s.peers ≡ some p
      → p.hs ≡ o
      → Counted options.max_pending s
      → let out = admit_known suite options key p o s in
        Counted options.max_pending out.0 × Held key out.1 out.0
  unfolding admit_known put
  admit_known-Counted key p (some hs) s here on v =
      (v, record { entry = p; here = here; in_progress = rw on refl; same = refl })
  admit_known-Counted key p none s here off v =
      let again : Peer = record p { hs = some (responder suite options) } in
      let room = make_room suite options s in
      let live : is_some p.session ≡ true =
        ground (arith, total-delete in_nothing key p s.peers here, v.occupied, off) in
      let still : get key room.peers ≡ some p =
        get-make_room suite options key s (some p) here
          (λ q same.
            let eq : half_open q ≡ half_open p = cc in rw eq (unfold half_open in rw off refl))
          v.distinct in
      (
        again-Counted key p (responder suite options) room still off live
            (make_room-Counted suite options s v).0,
        record {
          entry = again;
          here = get-set_self key again room.peers;
          in_progress = refl;
          same = refl;
        },
      )

  pub admit-Counted :
      (now : ℕ) (key : String) (o : Option Peer) (s : Server)
      → get key s.peers ≡ o
      → Counted options.max_pending s
      → let out = admit suite options now key o s in
        Counted options.max_pending out.0 × Held key out.1 out.0
  unfolding admit put
  admit-Counted now key (some p) s here v = admit_known-Counted key p p.hs s here refl v
  admit-Counted now key none s gone v =
      let p : Peer = record {
        hs = some (responder suite options);
        session = none;
        last_seen = now;
      } in
      let room = make_room suite options s in
      let (counted, free) = make_room-Counted suite options s v in
      let still : get key room.peers ≡ none =
        get-make_room suite options key s none gone (λ q impossible. absurd (ground arith))
          v.distinct in
      (
        enter-Counted key p room still refl refl counted free,
        record { entry = p; here = get-set_self key p room.peers; in_progress = refl; same = refl },
      )
