-- ===== src/Net/Session.antt =====
-- ts/net/noise-session.ts, `NoiseSession`: transport datagrams, each with an explicit counter.
pub mod Delivery
use toki.Base.{
  ℕ, ◌+◌, ◌-◌, ◌^◌, Bool, true, false, Option, none, some, List, [], ◌∷◌, ◌++◌, length, take, drop,
  ltb, leb, if◌then◌else◌,
}
use toki.Net.Bytes.{write_be, read_be}
use toki.Net.Cipher.{Bytes, Gcm, CipherState, Result, ok, err, encrypt_at, decrypt_at}
use toki.Net.Noise.Handshake.{TransportPair}
use toki.Net.ReplayFilter.{ReplayFilter, fresh_filter, check}

abbrev pub counter_bytes : ℕ
counter_bytes = 8

-- the reserved counter 2^64 - 1
abbrev pub counter_limit : ℕ
counter_limit = 2 ^ 64 - 1

pub record NoiseSession : Type 0 where
  pub remote_static : Bytes
  pub handshake_hash : Bytes
  pub send : CipherState
  pub recv : CipherState
  pub replay : ReplayFilter
  pub counter : ℕ

-- the constructor
unfoldable pub create : TransportPair → NoiseSession
create pair = record {
  remote_static = pair.remote_static;
  handshake_hash = pair.handshake_hash;
  send = pair.send;
  recv = pair.recv;
  replay = fresh_filter;
  counter = 0;
}

module _ (g : Gcm) where
  -- the datagram for the counter `n`
  unfoldable pub datagram : CipherState → ℕ → Bytes → Bytes
  datagram send n plain =
      let header = write_be counter_bytes n in header ++ encrypt_at g n header plain send

  -- `seal`; `none` is the exception at the counter's end
  unfoldable pub seal : Bytes → NoiseSession → NoiseSession × Option Bytes
  unfolding datagram
  seal plain s =
      if leb counter_limit s.counter
      then (s, none)
      else (record s { counter = s.counter + 1 }, some (datagram s.send s.counter plain))

  -- `if (!this.#replay.check(n)) return null; return plain;`
  unfoldable pub unless_replayed : ℕ → Bytes → NoiseSession → NoiseSession × Option Bytes
  unless_replayed n plain s =
      let (f, fresh) = check n s.replay in
      (record s { replay = f }, (if fresh then some plain else none))

  -- `open`, on the outcome of the decryption
  unfoldable pub on_opened : ℕ → Result Bytes → NoiseSession → NoiseSession × Option Bytes
  unfolding unless_replayed
  on_opened n (err e) s = (s, none)
  on_opened n (ok plain) s = unless_replayed n plain s

  -- `open`
  unfoldable pub open_wire : Bytes → NoiseSession → NoiseSession × Option Bytes
  unfolding on_opened
  open_wire wire s =
      if ltb (length wire) counter_bytes
      then (s, none)
      else (let header = take counter_bytes wire in
          let n = read_be 0 header in
          on_opened n (decrypt_at g n header (drop counter_bytes wire) s.recv) s)
