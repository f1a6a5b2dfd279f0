-- ===== src/Net/Noise/Handshake/Messages.antt =====
-- ts/net/noise/handshake-state.ts: each of the three messages, written and read.
use toki.Base.{
  ◌≤◌, ◌≡◌, refl, true, false, Option, none, some, [], ◌∷◌, ◌++◌, length, length-append,
  append_assoc, arith, ltb,
}
use toki.Net.Cipher
use toki.Net.Cipher.{Bytes, IsGcm, CipherState}
use toki.Net.Noise.Symmetric
use toki.Net.Noise.Symmetric.{
  Suite, KeyPair, SymmetricState, mix_key, mix_hash, split, dh, has_key, hkdf,
}
use toki.Net.Noise.Handshake
use toki.Net.Noise.Handshake.{
  HandshakeState, TransportPair, Token, e, s, ee, es, se, Outcome, done, thrown, Step, and_then,
  in_symmetric, mix_dh, mix_secret, secret_of, dh_of, write_token, write_tokens, read_token,
  read_tokens, write_message, read_message, advance, finish, finish_with, wipe, choose_ephemeral,
  protocol_name, max_message,
}
use toki.Net.Noise.Handshake.Sealing.{
  KeepsLength, Usable, sealed, sealed_state, encrypt_and_hash_lem, decrypt_and_hash_lem,
  length-sealed, read_e, read_s,
}

-- Diffie-Hellman: each side comes to the same secret from its own private and the other's public key.
pub record Shares (suite : Suite) (a b : KeyPair) : Type 0 where
  pub secret : Bytes
  pub ours : dh suite a.private_key b.public_raw ≡ some secret
  pub theirs : dh suite b.private_key a.public_raw ≡ some secret

-- The keys of one side: it sends under the first and receives under the second.
abbrev pub keys_of : Bytes → Bytes → Bytes → Bytes → TransportPair
keys_of send_key recv_key hash remote = record {
  send = Cipher.create (some send_key);
  recv = Cipher.create (some recv_key);
  handshake_hash = hash;
  remote_static = remote;
}

module _ (suite : Suite) (safe : IsGcm suite.gcm) (keeps : KeepsLength suite.gcm)
    (gi gr si sr : KeyPair) (fi fr : Option KeyPair) (prologue p1 p2 p3 : Bytes) where
  abbrev pub ei : KeyPair
  ei = choose_ephemeral suite fi gi

  abbrev pub er : KeyPair
  er = choose_ephemeral suite fr gr

  abbrev pub i0 : HandshakeState
  i0 = Handshake.create suite true si prologue fi

  abbrev pub r0 : HandshakeState
  r0 = Handshake.create suite false sr prologue fr

  -- after the first message
  abbrev pub t1 : SymmetricState
  t1 = mix_hash suite ei.public_raw i0.symmetric

  abbrev pub t2 : SymmetricState
  t2 = sealed_state suite p1 t1

  abbrev pub i1 : HandshakeState
  i1 = record i0 { ephemeral = some ei; symmetric = t2; step = 1 }

  abbrev pub r1 : HandshakeState
  r1 = record r0 { remote_ephemeral = some ei.public_raw; symmetric = t2; step = 1 }

  abbrev pub m1 : Bytes
  m1 = ei.public_raw ++ sealed suite p1 t1

  t1-Usable : Usable t1
  unfolding mix_hash Handshake.create Symmetric.create Cipher.create
  t1-Usable = omega arith

  pub write_first : write_message suite gi p1 i0 ≡ (i1, done (m1, none))
  unfolding write_message write_tokens write_token and_then in_symmetric advance Handshake.create
  write_first = rw (encrypt_and_hash_lem suite safe p1 t1 t1-Usable) refl

  length-m1 : length ei.public_raw ≡ 32 → length p1 ≤ 4000 → ltb max_message (length m1) ≡ false
  length-m1 size short = ground (
    arith,
    length-append ei.public_raw (sealed suite p1 t1),
    length-sealed suite safe p1 t1 keeps,
  )

  pub read_first :
      length ei.public_raw ≡ 32
      → length p1 ≤ 4000
      → read_message suite m1 r0 ≡ (r1, done (p1, none))
  unfolding read_message read_tokens and_then in_symmetric advance Handshake.create
  read_first size short =
      rw
        (
          length-m1 size short,
          read_e suite safe [] ei.public_raw (sealed suite p1 t1) r0 size,
          decrypt_and_hash_lem suite safe p1 t1 t1-Usable,
        )
        refl

  module _ (dee : Shares suite ei er) (des : Shares suite ei sr) (dse : Shares suite si er) where
    -- after the second message
    abbrev pub t3 : SymmetricState
    t3 = mix_hash suite er.public_raw t2

    abbrev pub t4 : SymmetricState
    t4 = mix_key suite dee.secret t3

    abbrev pub t5 : SymmetricState
    t5 = sealed_state suite sr.public_raw t4

    abbrev pub t6 : SymmetricState
    t6 = mix_key suite des.secret t5

    abbrev pub t7 : SymmetricState
    t7 = sealed_state suite p2 t6

    abbrev pub r2 : HandshakeState
    r2 = record r1 { ephemeral = some er; symmetric = t7; step = 2 }

    abbrev pub i2 : HandshakeState
    i2 = record i1 {
      remote_ephemeral = some er.public_raw;
      remote_static = some sr.public_raw;
      symmetric = t7;
      step = 2;
    }

    abbrev pub m2 : Bytes
    m2 = (er.public_raw ++ sealed suite sr.public_raw t4) ++ sealed suite p2 t6

    t4-Usable : Usable t4
    unfolding mix_key Cipher.create
    t4-Usable = omega arith

    t6-Usable : Usable t6
    unfolding mix_key Cipher.create
    t6-Usable = omega arith

    pub write_second : write_message suite gr p2 r1 ≡ (r2, done (m2, none))
    unfolding write_message write_tokens write_token mix_dh mix_secret secret_of dh_of and_then
        in_symmetric advance Handshake.create
    write_second =
        rw
          (
            dee.theirs,
            encrypt_and_hash_lem suite safe sr.public_raw t4 t4-Usable,
            des.theirs,
            encrypt_and_hash_lem suite safe p2 t6 t6-Usable,
          )
          refl

    length-m2 :
        length er.public_raw ≡ 32
        → length sr.public_raw ≡ 32
        → length p2 ≤ 4000
        → ltb max_message (length m2) ≡ false
    length-m2 size size' short = ground (
      arith,
      length-append (er.public_raw ++ sealed suite sr.public_raw t4) (sealed suite p2 t6),
      length-append er.public_raw (sealed suite sr.public_raw t4),
      length-sealed suite safe sr.public_raw t4 keeps,
      length-sealed suite safe p2 t6 keeps,
    )

    pub read_second :
        length er.public_raw ≡ 32
        → length sr.public_raw ≡ 32
        → length p2 ≤ 4000
        → read_message suite m2 i1 ≡ (i2, done (p2, none))
    unfolding read_message read_tokens read_token mix_dh mix_secret secret_of dh_of and_then
        in_symmetric advance Handshake.create
    read_second size size' short =
        rw
          (
            length-m2 size size' short,
            append_assoc er.public_raw (sealed suite sr.public_raw t4) (sealed suite p2 t6),
            read_e suite safe (ee ∷ s ∷ es ∷ []) er.public_raw
                (sealed suite sr.public_raw t4 ++ sealed suite p2 t6) i1 size,
            dee.ours,
            read_s suite safe (es ∷ []) sr.public_raw (sealed suite p2 t6)
                (record i1 { remote_ephemeral = some er.public_raw; symmetric = t4 }) keeps size'
                t4-Usable,
            des.ours,
            decrypt_and_hash_lem suite safe p2 t6 t6-Usable,
          )
          refl

    -- after the third message
    abbrev pub t8 : SymmetricState
    t8 = sealed_state suite si.public_raw t7

    abbrev pub t9 : SymmetricState
    t9 = mix_key suite dse.secret t8

    abbrev pub t10 : SymmetricState
    t10 = sealed_state suite p3 t9

    abbrev pub k1 : Bytes
    k1 = (hkdf suite t10.ck []).0

    abbrev pub k2 : Bytes
    k2 = (hkdf suite t10.ck []).1

    abbrev pub m3 : Bytes
    m3 = sealed suite si.public_raw t7 ++ sealed suite p3 t9

    t7-Usable : Usable t7
    unfolding sealed_state mix_hash mix_key Cipher.create
    t7-Usable = omega arith

    t9-Usable : Usable t9
    unfolding mix_key Cipher.create
    t9-Usable = omega arith

    pub write_third :
        (write_message suite gi p3 i2).1 ≡ done (m3, some (keys_of k1 k2 t10.h sr.public_raw))
    unfolding write_message write_tokens write_token mix_dh mix_secret secret_of dh_of and_then
        in_symmetric advance finish finish_with split Handshake.create
    write_third =
        rw
          (
            encrypt_and_hash_lem suite safe si.public_raw t7 t7-Usable,
            dse.ours,
            encrypt_and_hash_lem suite safe p3 t9 t9-Usable,
          )
          refl

    length-m3 : length si.public_raw ≡ 32 → length p3 ≤ 4000 → ltb max_message (length m3) ≡ false
    length-m3 size short = ground (
      arith,
      length-append (sealed suite si.public_raw t7) (sealed suite p3 t9),
      length-sealed suite safe si.public_raw t7 keeps,
      length-sealed suite safe p3 t9 keeps,
    )

    pub read_third :
        length si.public_raw ≡ 32
        → length p3 ≤ 4000
        → (read_message suite m3 r2).1 ≡ done (p3, some (keys_of k2 k1 t10.h si.public_raw))
    unfolding read_message read_tokens read_token mix_dh mix_secret secret_of dh_of and_then
        in_symmetric advance finish finish_with split Handshake.create
    read_third size short =
        rw
          (
            length-m3 size short,
            read_s suite safe (se ∷ []) si.public_raw (sealed suite p3 t9) r2 keeps size t7-Usable,
            dse.theirs,
            decrypt_and_hash_lem suite safe p3 t9 t9-Usable,
          )
          refl
