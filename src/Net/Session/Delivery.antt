-- ===== src/Net/Session/Delivery.antt =====
-- ts/net/noise-session.ts: what a peer delivers of the datagrams that reach it.
use toki.Base.{
  ℕ, ◌+◌, ◌^◌, ◌≤◌, ◌<◌, ◌≡◌, refl, ap, ◌∙◌, Bool, false, Option, none, some, List, [], ◌∷◌, ◌++◌,
  map, length, length-append, take, drop, take_left_of_length, drop_left_of_length, ltb, arith,
  if◌then◌else◌,
}
use toki.Net.Bytes.{write_be, read_be, length-write_be, read_be-write_be}
use toki.Net.Cipher.{Bytes, Gcm, IsGcm, CipherState, ok, encrypt_at, decrypt_at}
use toki.Net.Cipher.Counter.{decrypt_at-encrypt_at}
use toki.Net.Noise.Handshake.{TransportPair}
use toki.Net.ReplayFilter.{check, check_all}
use toki.Net.ReplayFilter.Ideal.{ideal_check_all, check_all-ideal_fresh}
use toki.Net.Session.{
  NoiseSession, counter_limit, create, datagram, seal, unless_replayed, open_wire,
}

-- The datagrams that arrive, each from its counter and plaintext, and what `open` gives for each.
unfoldable pub open_all : Gcm → CipherState → List (ℕ × Bytes) → NoiseSession → List (Option Bytes)
open_all g send [] r = []
open_all g send ((n, plain) ∷ ds) r =
    let (r', out) = open_wire g (datagram g send n plain) r in out ∷ open_all g send ds r'

-- The plaintexts that the answers of a replay filter let through.
pub passed : List (ℕ × Bytes) → List Bool → List (Option Bytes)
passed [] oks = []
passed (d ∷ ds) [] = []
passed ((n, plain) ∷ ds) (fresh ∷ oks) = (if fresh then some plain else none) ∷ passed ds oks

-- Every counter fits its eight bytes.
abbrev pub Fitting : List (ℕ × Bytes) → Type 0
Fitting [] = Unit
Fitting ((n, plain) ∷ ds) = (n < 256 ^ 8) × Fitting ds

module _ (g : Gcm) (safe : IsGcm g) where
  pub open_wire-datagram :
      (send : CipherState) (n : ℕ) (plain : Bytes) (r : NoiseSession)
      → send.key ≡ r.recv.key
      → n < 256 ^ 8
      → open_wire g (datagram g send n plain) r ≡ unless_replayed g n plain r
  unfolding open_wire datagram
  open_wire-datagram send n plain r same fits =
      let header = write_be 8 n in
      let body = encrypt_at g n header plain send in
      let eight : length header ≡ 8 = length-write_be 8 n in
      let long : ltb (length (header ++ body)) 8 ≡ false =
        ground (arith, length-append header body, eight) in
      let cut : take 8 (header ++ body) ≡ header = take_left_of_length 8 header body eight in
      let rest : drop 8 (header ++ body) ≡ body = drop_left_of_length 8 header body eight in
      let back : read_be 0 header ≡ n = read_be-write_be 8 n fits in
      let plain' : decrypt_at g n header body r.recv ≡ ok plain =
        decrypt_at-encrypt_at g safe n header plain send r.recv same in
      rw (cut, rest, back, plain') (ground arith)

  open_all-check_all :
      (send : CipherState) (ds : List (ℕ × Bytes)) (r : NoiseSession)
      → send.key ≡ r.recv.key
      → Fitting ds
      → open_all g send ds r ≡ passed ds (check_all (map (λ d. d.0) ds) r.replay).1
  unfolding open_all passed check_all unless_replayed
  open_all-check_all send [] r same fits = refl
  open_all-check_all send ((n, plain) ∷ ds) r same fits =
      rw (open_wire-datagram send n plain r same fits.0) (
        ap (◌∷◌ (if (check n r.replay).1 then some plain else none))
          (open_all-check_all send ds (record r { replay = (check n r.replay).0 }) same fits.1))

-- Datagrams of a peer with the same key may arrive in any order, any number of times and with gaps:
-- a fresh session gives the plaintext of each one whose counter the ideal replay filter lets
-- through, unchanged, and null for every other.
pub open_all-ideal :
    (g : Gcm) (send : CipherState) (pair : TransportPair) (ds : List (ℕ × Bytes))
    → IsGcm g
    → send.key ≡ pair.recv.key
    → Fitting ds
    → open_all g send ds (create pair) ≡ passed ds (ideal_check_all (map (λ d. d.0) ds) []).1
unfolding create
open_all-ideal g send pair ds safe same fits =
    open_all-check_all g safe send ds (create pair) same fits
    ∙ ap (passed ds) (check_all-ideal_fresh (map (λ d. d.0) ds))

-- Plaintexts sealed one after the other.
unfoldable pub seal_all : Gcm → List Bytes → NoiseSession → List (Option Bytes)
seal_all g [] s = []
seal_all g (p ∷ ps) s = let (s', w) = seal g p s in w ∷ seal_all g ps s'

abbrev pub numbered : Gcm → CipherState → ℕ → List Bytes → List (Option Bytes)
numbered g send n [] = []
numbered g send n (p ∷ ps) = some (datagram g send n p) ∷ numbered g send (n + 1) ps

-- While the reserved counter is not reached a session numbers its datagrams one by one from its
-- counter, so no two share a counter.
pub seal_all-numbered :
    (g : Gcm) (ps : List Bytes) (s : NoiseSession)
    → s.counter + length ps ≤ counter_limit
    → seal_all g ps s ≡ numbered g s.send s.counter ps
unfolding seal_all seal
seal_all-numbered g [] s room = refl
seal_all-numbered g (p ∷ ps) s room =
    let rest = seal_all-numbered g ps (record s { counter = s.counter + 1 }) (omega arith) in
    ground arith
