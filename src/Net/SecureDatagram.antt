-- ===== src/Net/SecureDatagram.antt =====
-- ts/net/secure-datagram.ts: datagrams sealed one by one under a shared key, and the window of nonces
-- seen. The 12 random bytes of a seal are an argument. The nonces of the window are byte strings,
-- compared as `toString("latin1")` compares them; the ring is a list of its slots.
pub mod RoundTrip
use toki.Base.{
  ℕ, zero, suc, ◌+◌, ◌-◌, ◌%◌, ◌==◌, max, Bool, true, false, not, ◌&&◌, Option, none, some, List,
  [], ◌∷◌, ◌++◌, length, take, drop, get_elem?, ltb, if◌then◌else◌,
}
use toki.Base.Text.{text_eq}
use toki.Net.Cipher.{Bytes, Gcm}

abbrev pub nonce_len : ℕ
nonce_len = 12

abbrev pub tag_len : ℕ
tag_len = 16

abbrev pub key_len : ℕ
key_len = 32

abbrev pub overhead : ℕ
overhead = nonce_len + tag_len

-- What a call comes to: `bad_key` is the RangeError of `assertKey`.
pub data Outcome : Type 0 where
  bad_key dropped : Outcome
  given : Bytes → Outcome

module _ (g : Gcm) where
  unfoldable pub seal_datagram : Bytes → Bytes → Bytes → Outcome
  seal_datagram nonce key plain =
      if not (length key == key_len)
      then bad_key
      else (let (body, tag) = g.encipher key nonce [] plain in given (nonce ++ body ++ tag))

  -- the part of `openDatagram` behind its guards; `null` is `dropped`
  unfoldable pub open_parts : Bytes → Bytes → Outcome
  open_parts key wire =
      let nonce = take nonce_len wire in
      let tag = drop (length wire - tag_len) wire in
      let body = drop nonce_len (take (length wire - tag_len) wire) in
      elim (g.decipher key nonce [] body tag) [ none ↦ dropped | some plain ↦ given plain ]

  unfoldable pub open_datagram : Bytes → Bytes → Outcome
  open_datagram key wire =
      if not (length key == key_len)
      then bad_key
      else if ltb (length wire) overhead
      then dropped
      else open_parts key wire

pub record ReplayWindow : Type 0 where
  pub seen : List Bytes
  pub ring : List (Option Bytes)
  pub head : ℕ
  pub max_size : ℕ

-- `new Array(n).fill(undefined)`
unfoldable pub empty_ring : ℕ → List (Option Bytes)
empty_ring zero = []
empty_ring (suc n) = none ∷ empty_ring n

-- `new ReplayWindow(max)`
unfoldable pub create : ℕ → ReplayWindow
create size = record { seen = []; ring = empty_ring (max 1 size); head = 0; max_size = max 1 size }

-- `seen.has(nonce)`
unfoldable pub has : Bytes → List Bytes → Bool
has nonce [] = false
has nonce (b ∷ bs) = if text_eq b nonce then true else has nonce bs

-- `seen.delete(nonce)`
unfoldable pub delete : Bytes → List Bytes → List Bytes
delete nonce [] = []
delete nonce (b ∷ bs) = if text_eq b nonce then bs else b ∷ delete nonce bs

-- `ring[i] = x`
unfoldable pub put_at : {A : Type 0} → ℕ → A → List A → List A
put_at i x [] = []
put_at zero x (y ∷ ys) = x ∷ ys
put_at (suc i) x (y ∷ ys) = y ∷ put_at i x ys

-- `if (evicted !== undefined) seen.delete(evicted)`, with what `ring[head]` gives
unfoldable pub forget : Option (Option Bytes) → List Bytes → List Bytes
forget (some (some evicted)) seen = delete evicted seen
forget (some none) seen = seen
forget none seen = seen

unfoldable pub accept_nonce : Bytes → ReplayWindow → ReplayWindow × Bool
accept_nonce nonce w = if has nonce w.seen then (w, false) else (
  record w {
    seen = nonce ∷ forget (get_elem? w.ring w.head) w.seen;
    ring = put_at w.head (some nonce) w.ring;
    head = (w.head + 1) % w.max_size;
  },
  true,
)

-- `accept`
unfoldable pub accept : Bytes → ReplayWindow → ReplayWindow × Bool
accept wire w = accept_nonce (take nonce_len wire) w

-- Datagrams one after the other: the answer to each.
unfoldable pub accept_all : List Bytes → ReplayWindow → ReplayWindow × List Bool
accept_all [] w = (w, [])
accept_all (b ∷ bs) w =
    let (w', ok) = accept b w in let (w'', oks) = accept_all bs w' in (w'', ok ∷ oks)
