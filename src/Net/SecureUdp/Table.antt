-- ===== src/Net/SecureUdp/Table.antt =====
-- ts/net/secure-udp.ts: the counters of the table, and the bound on half-open handshakes.
use toki.Base.{
  ℕ, ◌+◌, ◌-◌, ◌≤◌, ◌≡◌, max, true, false, not, ◌&&◌, ◌||◌, Option, some, String, str_eq, eq_iff,
  arith, ltb, leb, Bool-cases, Option-cases, inl, inr,
}
use toki.JsMap.{JsMap, get, delete}
use toki.JsMap.Laws.{IsMap, IsMap-delete, get-delete}
use toki.JsMap.Count.{total, find_key, total-delete, get-find_key, total-find_key, total-le}
use toki.Net.Noise.Symmetric.{Suite}
use toki.Net.SecureUdp.{
  Server, Peer, Options, is_some, weight, forget, forget_found, half_open, idle, drop_pending,
  evict_oldest_pending, drop_session, evict_oldest_session, make_room, trim_sessions,
}

abbrev pub in_handshake : Peer → ℕ
in_handshake p = weight (is_some p.hs)

abbrev pub in_session : Peer → ℕ
in_session p = weight (is_some p.session)

abbrev pub in_half_open : Peer → ℕ
in_half_open p = weight (half_open p)

abbrev pub in_nothing : Peer → ℕ
in_nothing p = weight (not (is_some p.hs || is_some p.session))

-- What the counters say of the table: `pending` is the number of peers in a handshake, at least
-- the sessions are counted as `established`, and the peers that only have a handshake are within
-- `maxPending` (or one, where that is 0) and what is owed; every peer has a handshake or a session.
pub record Counted (limit : ℕ) (s : Server) : Type 0 where
  pub distinct : IsMap s.peers
  pub pending : s.pending ≡ total in_handshake s.peers
  pub established : total in_session s.peers ≤ s.established
  pub half_open : total in_half_open s.peers ≤ max 1 (limit + s.owed)
  pub occupied : total in_nothing s.peers ≡ 0

module _ (limit : ℕ) where
  pub forget-Counted : (key : String) (s : Server) → Counted limit s → Counted limit (forget key s)
  unfolding forget forget_found half_open
  forget-Counted key s v = elim (Option-cases (get key s.peers)) [
    | inl gone ↦ rw gone v
    | inr (p, here) ↦ rw here (record {
      distinct = IsMap-delete key s.peers v.distinct;
      pending = omega (arith, v.pending, total-delete in_handshake key p s.peers here);
      established = omega (arith, v.established, total-delete in_session key p s.peers here);
      half_open = omega (arith, v.half_open, total-delete in_half_open key p s.peers here);
      occupied = omega (arith, v.occupied, total-delete in_nothing key p s.peers here);
    })
  ]

  -- Deleting a peer that only has a handshake.
  pub delete-Counted :
      (key : String) (p : Peer) (s : Server)
      → get key s.peers ≡ some p
      → half_open p ≡ true
      → Counted limit s
      → Counted limit (record s { peers = delete key s.peers; pending = s.pending - 1 })
  unfolding half_open
  delete-Counted key p s here only v = record {
    distinct = IsMap-delete key s.peers v.distinct;
    pending = ground (arith, v.pending, total-delete in_handshake key p s.peers here, only);
    established = omega (arith, v.established, total-delete in_session key p s.peers here);
    half_open = omega (arith, v.half_open, total-delete in_half_open key p s.peers here);
    occupied = omega (arith, v.occupied, total-delete in_nothing key p s.peers here);
  }

  half_open-le : (m : JsMap Peer) → total in_half_open m ≤ total in_handshake m
  unfolding half_open
  half_open-le m = total-le in_half_open in_handshake m (λ p. ground arith)

  -- Evicting a pending handshake leaves room for one more.
  pub evict_oldest_pending-Counted :
      (s : Server)
      → Counted limit s
      → Counted limit (evict_oldest_pending s)
        × (total in_half_open (evict_oldest_pending s).peers + 1
            ≤ max 1 (limit + (evict_oldest_pending s).owed))
  unfolding evict_oldest_pending drop_pending half_open
  evict_oldest_pending-Counted s v = elim (Option-cases (find_key (λ k p. half_open p) s.peers)) [
    | inl nobody ↦
        let none_left : total in_half_open s.peers ≡ 0 =
          total-find_key (λ k p. half_open p) in_half_open s.peers (λ k p here off. ground arith)
            v.distinct nobody in
        rw nobody (v, omega arith)
    | inr (k, found) ↦
        let (p, here, only) = get-find_key (λ k p. half_open p) s.peers k v.distinct found in
        rw found (
          delete-Counted k p s here only v,
          ground (arith, v.half_open, total-delete in_half_open k p s.peers here, only),
        )
  ]

-- Making room for one more handshake.
module _ (suite : Suite) (options : Options) where
  pub make_room-Counted :
      (s : Server)
      → Counted options.max_pending s
      → Counted options.max_pending (make_room suite options s)
        × (total in_half_open (make_room suite options s).peers + 1
            ≤ max 1 (options.max_pending + (make_room suite options s).owed))
  unfolding make_room
  make_room-Counted s v = elim (Bool-cases (leb (options.max_pending + s.owed) s.pending)) [
    | inl full ↦ rw full (evict_oldest_pending-Counted options.max_pending s v)
    | inr room ↦ rw room (v, ground (arith, half_open-le options.max_pending s.peers, v.pending))
  ]

  evict_oldest_session-Counted :
      (key : String) (s : Server)
      → Counted options.max_pending s
      → Counted options.max_pending (evict_oldest_session key s)
  unfolding evict_oldest_session drop_session
  evict_oldest_session-Counted key s v =
      elim (Option-cases (find_key (λ k p. not (str_eq k key) && idle p) s.peers)) [
        | inl nobody ↦ rw nobody v
        | inr (k, found) ↦ rw found (forget-Counted options.max_pending k s v)
      ]

  pub trim_sessions-Counted :
      (key : String) (s : Server)
      → Counted options.max_pending s
      → Counted options.max_pending (trim_sessions suite options key s)
  unfolding trim_sessions
  trim_sessions-Counted key s v = elim (Bool-cases (ltb options.max_sessions s.established)) [
    | inl over ↦ rw over (evict_oldest_session-Counted key s v)
    | inr within ↦ rw within v
  ]

  get-evict_oldest_pending :
      (key : String) (s : Server) (o : Option Peer)
      → get key s.peers ≡ o
      → ((p : Peer) → o ≡ some p → half_open p ≡ false)
      → IsMap s.peers
      → get key (evict_oldest_pending s).peers ≡ o
  unfolding evict_oldest_pending drop_pending
  get-evict_oldest_pending key s o here not_half distinct =
      elim (Option-cases (find_key (λ k p. half_open p) s.peers)) [
        | inl nobody ↦ rw nobody here
        | inr (k, found) ↦
            let (p, there, only) = get-find_key (λ k p. half_open p) s.peers k distinct found in
            rw found
              (ground (arith, get-delete k key s.peers distinct, eq_iff k key, not_half p, only))
      ]

  -- Making room takes no peer that holds a session or is away.
  pub get-make_room :
      (key : String) (s : Server) (o : Option Peer)
      → get key s.peers ≡ o
      → ((p : Peer) → o ≡ some p → half_open p ≡ false)
      → IsMap s.peers
      → get key (make_room suite options s).peers ≡ o
  unfolding make_room
  get-make_room key s o here not_half distinct =
      elim (Bool-cases (leb (options.max_pending + s.owed) s.pending)) [
        | inl full ↦ rw full (get-evict_oldest_pending key s o here not_half distinct)
        | inr room ↦ rw room here
      ]
