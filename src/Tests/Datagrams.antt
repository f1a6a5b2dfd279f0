-- ===== src/Tests/Datagrams.antt =====
-- ts/net.
use toki.Base.Text.{text_eq}
use toki.Net.Noise.Symmetric.{zeros}
use toki.Net.SecureDatagram
use toki.Base.{ℕ, ◌≡◌, refl, true, false, some, List, [], ◌∷◌, arith}
use toki.Net.Bytes.{write_be, mem, delete_where}
use toki.Net.Cipher.{Bytes, Gcm, IsGcm, CipherState, ok}
use toki.Net.Cipher.Counter.{encrypt_all, decrypt_all, decrypt_all-encrypt_all}
use toki.Net.ReplayFilter.{fresh_filter, check, check_all}
use toki.Net.ReplayFilter.Ideal.{ideal_check_all, check_all-ideal_fresh}
use toki.Net.Noise.Handshake.{TransportPair}
use toki.Net.Session.{NoiseSession, create, datagram}
use toki.Net.Session.Delivery.{open_all, open_all-ideal, passed, seal_all, seal_all-numbered}

-- A cipher that hides nothing and whose tag is constant meets what the code relies on.
abbrev clear : Gcm
clear = record {
  encipher = λ key nonce ad plain.
      (plain, 0 ∷ 0 ∷ 0 ∷ 0 ∷ 0 ∷ 0 ∷ 0 ∷ 0 ∷ 0 ∷ 0 ∷ 0 ∷ 0 ∷ 0 ∷ 0 ∷ 0 ∷ 0 ∷ []);
  decipher = λ key nonce ad body tag. some body;
}

clear-IsGcm : IsGcm clear
clear-IsGcm = record {
  tag_bytes = λ key nonce ad plain. refl;
  genuine = λ key nonce ad plain. refl;
}

abbrev keyed : CipherState
keyed = record { key = some (7 ∷ []); n = 3 }

abbrev keyed_pair : TransportPair
keyed_pair = record { send = keyed; recv = keyed; handshake_hash = []; remote_static = [] }

abbrev mine : NoiseSession
mine = record {
  remote_static = [];
  handshake_hash = [];
  send = keyed;
  recv = keyed;
  replay = fresh_filter;
  counter = 5;
}

eight_bytes : write_be 8 0x0102 ≡ 0 ∷ 0 ∷ 0 ∷ 0 ∷ 0 ∷ 0 ∷ 1 ∷ 2 ∷ []
unfolding write_be
eight_bytes = refl

-- In order, a replay, one behind, far ahead, and one that the window has left behind.
window_answers :
    (check_all (5 ∷ 5 ∷ 4 ∷ 3000 ∷ 6 ∷ 1977 ∷ []) fresh_filter).1
    ≡ true ∷ false ∷ true ∷ true ∷ false ∷ true ∷ []
unfolding check_all check mem delete_where
window_answers = refl

check_all-ideal_fresh_example :
    (check_all (5 ∷ 5 ∷ 4 ∷ 3000 ∷ 6 ∷ []) fresh_filter).1
    ≡ (ideal_check_all (5 ∷ 5 ∷ 4 ∷ 3000 ∷ 6 ∷ []) []).1
check_all-ideal_fresh_example = check_all-ideal_fresh (5 ∷ 5 ∷ 4 ∷ 3000 ∷ 6 ∷ [])

decrypt_all-encrypt_all_example :
    decrypt_all clear (encrypt_all clear (([], 65 ∷ []) ∷ (9 ∷ [], 66 ∷ 67 ∷ []) ∷ []) keyed) keyed
    ≡ ok (65 ∷ []) ∷ ok (66 ∷ 67 ∷ []) ∷ []
decrypt_all-encrypt_all_example =
    decrypt_all-encrypt_all clear (7 ∷ []) (([], 65 ∷ []) ∷ (9 ∷ [], 66 ∷ 67 ∷ []) ∷ []) keyed keyed
      clear-IsGcm refl refl refl (omega arith)

abbrev arrivals : List (ℕ × Bytes)
arrivals = (1, 65 ∷ []) ∷ (0, 66 ∷ []) ∷ (1, 65 ∷ []) ∷ []

open_all-ideal_example :
    open_all clear keyed arrivals (create keyed_pair)
    ≡ passed arrivals (ideal_check_all (1 ∷ 0 ∷ 1 ∷ []) []).1
open_all-ideal_example =
    open_all-ideal clear keyed keyed_pair arrivals clear-IsGcm refl (omega arith)

seal_all-numbered_example :
    seal_all clear ((65 ∷ []) ∷ (66 ∷ []) ∷ []) mine
    ≡ some (datagram clear keyed 5 (65 ∷ [])) ∷ some (datagram clear keyed 6 (66 ∷ [])) ∷ []
seal_all-numbered_example = seal_all-numbered clear ((65 ∷ []) ∷ (66 ∷ []) ∷ []) mine (omega arith)

-- A first nonce, its replay, a second one that takes the only slot, and the first again.
window_of_one :
    (SecureDatagram.accept_all
      (zeros 12 ∷ zeros 12 ∷ (1 ∷ zeros 11) ∷ zeros 12 ∷ [])
      (SecureDatagram.create 1)).1
    ≡ true ∷ false ∷ true ∷ true ∷ []
unfolding SecureDatagram.accept_all SecureDatagram.accept SecureDatagram.accept_nonce
    SecureDatagram.create SecureDatagram.has SecureDatagram.delete SecureDatagram.put_at
    SecureDatagram.forget SecureDatagram.empty_ring text_eq zeros
window_of_one = refl
